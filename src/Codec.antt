-- ===== src/Codec.antt =====
-- c/src/codec.c.
pub mod Outcome
pub mod Decode
pub mod Dispatch
pub mod Steps
pub mod ReadValue
pub mod Encode
pub mod Parse
pub mod EncodeValue
pub mod Growth
pub mod Fields
pub mod Message
pub mod Depth
pub mod RoundTrip
pub mod Carries
pub mod Total
pub mod TotalSkip
pub mod TotalMessage
mod Tests
