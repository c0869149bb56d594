-- ===== src/Mpack.antt =====
-- c/third_party/mpack_stub.h: the MessagePack writer and reader of the C core.
pub mod Writer
pub mod Format
pub mod Writes
pub mod Widen
pub mod Reader
pub mod Sees
pub mod Reads
pub mod Tags
pub mod Skip
pub mod Goes
