-- ===== src/Convenience/Tests.antt =====
-- Runs of c/src/convenience.c on small inputs.
use callwire.Base.{
  ℕ, ◌≡◌, refl, Bool, true, List, [], ◌∷◌, ◌++◌, none, some, arith, text, pos, ℤ, c_string,
}
use callwire.Value.{Value, int64, string}
use callwire.Mpack.Format.{map_head, str_head, array_head, int_bytes, value_bytes}
use callwire.Codec.Outcome.{ok}
use callwire.Codec.Message.{result_rest}
use callwire.Framing.{Socket, send_to, send, send_all, write_frame}
use callwire.Framing.Receive.{bytes}
use callwire.Framing.Send.{frame}
use callwire.Client.{Session}
use callwire.Client.Replies.{after, request}
use callwire.Convenience.{int_items, str_items, call_ints, call_str}
use callwire.Convenience.Results.{Below, call_ints-response, call_str-response, call_str-Below}

abbrev always : ℕ → Bool
always n = true

-- A session that is answered by a response with `v`.
abbrev response : Value → List ℕ
response v = map_head 3 ++ result_rest (text "response") 1 v

abbrev session : Value → Session
session v = record {
  socket = record { incoming = frame (response v) ∷ []; accepts = 1000 ∷ 1000 ∷ []; sent = [] };
  next_id = 0;
  error = [];
}

abbrev two_ints : List ℤ
two_ints = pos 2 ∷ pos 3 ∷ []

call_ints-response_example :
    (socket : Socket) × (call_ints always true
        (some (text "add"))
        two_ints
        (session (int64 (pos 5)))
      ≡ (ok (pos 5), after (session (int64 (pos 5))) 1 socket))
    × (bytes socket.incoming ≡ [])
    × (socket.sent
        ≡ frame (
            request always (λ _. refl) (session (int64 (pos 5))) (text "add") (int_items two_ints)))
unfolding c_string map_head str_head array_head int_bytes value_bytes write_frame send_all send
    send_to
call_ints-response_example =
    call_ints-response always (λ _. refl) (session (int64 (pos 5))) (text "add") two_ints
      (omega arith, tt) (omega arith) (omega arith) (omega arith, (omega arith, tt)) (omega arith)
      refl 1 (pos 5) [] (omega arith) (omega arith) (omega arith) refl

-- The reply is cut to the buffer of three bytes.
call_str-response_example :
    (socket : Socket) × (call_str always true
        (some (text "greet"))
        (some (text "you"))
        (some 3)
        (session (string (text "hello")))
      ≡ (ok (text "he"), after (session (string (text "hello"))) 1 socket))
    × (bytes socket.incoming ≡ [])
    × (socket.sent
        ≡ frame (
            request always
              (λ _. refl)
              (session (string (text "hello")))
              (text "greet")
              (str_items (text "you"))))
unfolding c_string map_head str_head array_head int_bytes value_bytes write_frame send_all send
    send_to
call_str-response_example =
    call_str-response always (λ _. refl) (session (string (text "hello"))) (text "greet")
      (text "you") 3 (omega arith) (omega arith, tt) (omega arith) (omega arith) (omega arith) refl
      1 (text "hello") [] (omega arith) (omega arith) (omega arith) refl

call_str-Below_example :
    Below 3
      (call_str always true (some (text "greet")) none (some 3) (session (string (text "hello")))).0
call_str-Below_example =
    call_str-Below always true (some (text "greet")) none 3 (session (string (text "hello")))
