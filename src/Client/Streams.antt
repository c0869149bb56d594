-- ===== src/Client/Streams.antt =====
-- callwire_client_stream_recv of c/src/client.c, called until the stream ends.
use callwire.Base.{
  ℕ, ◌^◌, ◌≤◌, ◌<◌, ◌≡◌, refl, ◌∙◌, Bool, true, List, [], ◌∷◌, ◌++◌, append_assoc, some, length,
  text, same_string, to_signed,
}
use callwire.Value.{Value, IsValid}
use callwire.Mpack.Format.{map_head, str_head}
use callwire.Codec.Outcome.{ok}
use callwire.Codec.Depth.{lengths, length-int_bytes}
use callwire.Codec.Message.{result_rest, id_only_rest}
use callwire.Codec.Carries.{encode_response-codec_decode, encode_stream_end-codec_decode}
use callwire.Framing.{Socket, max_frame_size}
use callwire.Framing.Receive.{bytes, IsOpen}
use callwire.Framing.Send.{frame}
use callwire.Framing.Frames.{Leaves}
use callwire.Client.{Session, chunk, ended, has_type, stream_reply, stream_recv}
use callwire.Client.Replies.{read_wire_message-frame}

module _ (alloc : ℕ → Bool) where
  -- stream_recv gives the chunks one after the other, then the end.
  pub data Receives : List Value → Session → Session → Type 0 where
    end_received : {s s' : Session} → stream_recv alloc true s ≡ (ok ended, s') → Receives [] s s'
    chunk_received :
        {v : Value} {vs : List Value} {s s₁ s' : Session}
        → stream_recv alloc true s ≡ (ok (chunk v), s₁)
        → Receives vs s₁ s'
        → Receives (v ∷ vs) s s'

-- The messages of a stream.
abbrev pub chunk_payload : ℕ → Value → List ℕ
chunk_payload id v = map_head 3 ++ result_rest (text "stream_chunk") id v

abbrev pub end_payload : ℕ → List ℕ
end_payload id = map_head 2 ++ id_only_rest (text "stream_end") id

abbrev pub stream_bytes : ℕ → List Value → List ℕ
stream_bytes id [] = frame (end_payload id)
stream_bytes id (v ∷ vs) = frame (chunk_payload id v) ++ stream_bytes id vs

-- Every chunk is a valid value and fits in a frame.
abbrev pub Fit : ℕ → List Value → Type 0
Fit id [] = Unit
Fit id (v ∷ vs) = IsValid v × (length (chunk_payload id v) ≤ max_frame_size) × Fit id vs

pub end_payload-fits : (id : ℕ) → length (end_payload id) ≤ max_frame_size
unfolding map_head str_head
end_payload-fits id = omega (lengths, length-int_bytes (to_signed (2 ^ 63) id))

module _ (alloc : ℕ → Bool) (enough : (n : ℕ) → alloc n ≡ true) (id : ℕ) (small : id < 2 ^ 64) where
  -- Where every allocation succeeds and the stream stays open, however it is cut: a client that
  -- calls stream_recv again and again on the frames of some chunks, each valid and of at most 16
  -- MB, and of a stream end gets these chunks in this order and then the end, and leaves the rest
  -- of the stream; its counter, its error text and what it has sent do not change.
  pub stream_recv-stream :
      (vs : List Value) (rest : List ℕ) (s : Session)
      → IsOpen s.socket.incoming
      → Fit id vs
      → bytes s.socket.incoming ≡ stream_bytes id vs ++ rest
      → (socket : Socket) × Receives alloc vs s (record s { socket = socket })
        × Leaves rest s.socket socket
  unfolding stream_recv stream_reply has_type same_string
  stream_recv-stream [] rest s connected fit e =
      let read =
        read_wire_message-frame alloc enough s (end_payload id) rest _ connected
          (end_payload-fits id) e (encode_stream_end-codec_decode alloc enough id small).0.1 in
      (read.0, end_received (rw read.1 refl), read.2)
  stream_recv-stream (v ∷ vs) rest s connected fit e =
      let read =
        read_wire_message-frame alloc enough s (chunk_payload id v) (stream_bytes id vs ++ rest) _
          connected fit.1 (e ∙ append_assoc (frame (chunk_payload id v)) (stream_bytes id vs) rest)
          (encode_response-codec_decode alloc enough id small (some v) fit.0).1.1 in
      let more =
        stream_recv-stream vs rest (record s { socket = read.0 }) read.2.1 fit.2 read.2.0 in
      (
        more.0,
        chunk_received (rw read.1 refl) more.1,
        (more.2.0, more.2.1, more.2.2 ∙ read.2.2, more.2.3 ∙ read.2.3),
      )
