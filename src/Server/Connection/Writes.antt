-- ===== src/Server/Connection/Writes.antt =====
-- What the server writes on a connection.
use callwire.Base.{
  ℕ, ◌+◌, ◌^◌, ◌≤◌, ◌<◌, ◌≡◌, refl, Bool, true, false, List, ◌++◌, arith, inl, inr, Bool-cases,
  to_signed, if_true, leb, length, NoZero,
}
use callwire.Value.{Message}
use callwire.Mpack.Format.{map_head, str_head}
use callwire.Codec.Outcome.{ok, failed}
use callwire.Codec.Encode.{Encoded, buf_limit}
use callwire.Codec.Parse.{codec_decode}
use callwire.Codec.Depth.{lengths, length-int_bytes, length-str_head}
use callwire.Codec.Message.{error_rest}
use callwire.Codec.Carries.{Carries, error_reply, error-Carries}
use callwire.Framing.{max_frame_size, write_frame}
use callwire.Framing.Send.{frame, Sent, write_frame-Sent, write_frame-oversized}
use callwire.Server.Connection.{Conn, conn_write_frame, write_encoded, write_error}

-- A write of `msg`, and of nothing else: one call of write_frame on a payload of at most 16 MB that
-- decodes to it. What this call returns tells a frame that went out whole from a cut one.
abbrev pub Writes : (ℕ → Bool) → Message → List ℕ → Conn → Conn → Type 0
Writes alloc msg payload conn conn' =
    (conn' ≡ record conn { socket = (write_frame payload conn.socket).1 })
    × Sent (frame payload) conn.socket (write_frame payload conn.socket)
    × (codec_decode alloc payload ≡ ok msg)
    × (length payload ≤ max_frame_size)

abbrev pub error_payload : ℕ → List ℕ → List ℕ → List ℕ
error_payload id error_type message = map_head 4 ++ error_rest id error_type message

pub write_encoded-Writes :
    (alloc : ℕ → Bool) (conn : Conn) (e : Encoded) (payload : List ℕ) (msg : Message)
    → Carries alloc e payload msg
    → length payload ≤ max_frame_size
    → Writes alloc msg payload conn (write_encoded conn e).1
unfolding write_encoded conn_write_frame
write_encoded-Writes alloc conn e payload msg c small = (
  rw (c.0, if_true (leb (length payload) buf_limit) (ok payload) failed (ground arith)) refl,
  write_frame-Sent payload conn.socket small,
  c.1,
  small,
)

-- A reply whose payload has more than 16 MB is not written at all.
pub write_encoded-oversized :
    (alloc : ℕ → Bool) (conn : Conn) (e : Encoded) (payload : List ℕ) (msg : Message)
    → Carries alloc e payload msg
    → max_frame_size < length payload
    → write_encoded conn e ≡ (false, conn)
unfolding write_encoded conn_write_frame
write_encoded-oversized alloc conn e payload msg c large =
    elim (Bool-cases (leb (length payload) buf_limit)) [
      | inl encoded ↦ rw (c.0, encoded, write_frame-oversized payload conn.socket large) refl
      | inr refused ↦ rw (c.0, refused) refl
    ]

error_payload-fits :
    (id : ℕ) (error_type message : List ℕ)
    → length error_type + length message < 2 ^ 16
    → length (error_payload id error_type message) ≤ max_frame_size
unfolding map_head str_head
error_payload-fits id error_type message h = omega (
  lengths,
  length-int_bytes (to_signed (2 ^ 63) id),
  length-str_head (length error_type),
  length-str_head (length message),
)

module _ (alloc : ℕ → Bool) (enough : (n : ℕ) → alloc n ≡ true) (conn : Conn) (id : ℕ)
    (small : id < 2 ^ 64) where
  -- What write_error writes.
  pub write_error-Writes :
      (error_type message : List ℕ)
      → NoZero error_type
      → NoZero message
      → length error_type + length message < 2 ^ 16
      → Writes alloc
          (error_reply id error_type message)
          (error_payload id error_type message)
          conn
          (write_error alloc conn id error_type message)
  unfolding write_error
  write_error-Writes error_type message t m h =
      write_encoded-Writes alloc conn _ _ _
        (error-Carries alloc enough id small error_type message t m (omega arith) (omega arith))
        (error_payload-fits id error_type message h)
