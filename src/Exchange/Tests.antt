-- ===== src/Exchange/Tests.antt =====
-- A call that is answered, on small inputs.
use callwire.Base.{ℕ, ◌≡◌, refl, Bool, true, List, [], ◌∷◌, some, arith, text, pos, ℤ}
use callwire.Value.{Value, null, int64, Items, no_items, item}
use callwire.Framing.Receive.{bytes}
use callwire.Framing.Send.{frame}
use callwire.Client.{Session, call}
use callwire.Client.Replies.{after, request}
use callwire.Server.Registry.{find_handler, RegistryEntry, Server, unary_ctx}
use callwire.Server.Connection.{Conn}
use callwire.Server.Dispatch.{Program, returns}
use callwire.Server.Dispatch.Threads.{response_payload}
use callwire.Base.{same_string}
use callwire.Framing.{recv, recv_all, send, send_all, read_body, read_frame, write_frame}
use callwire.Mpack.Format.{int_bytes, str_head, array_head, map_head, pairs_bytes, items_bytes}
use callwire.Mpack.Writer.{init, write_raw, write_u8, write_int64, write_str, write_map_header}
use callwire.Mpack.Reader.{
  advance, fail, read_u8, read_u16, read_u32, read_u64, read_raw, peek_tag, after_tag, nil_at,
  try_read_nil, bool_at, try_read_bool, int64_at, try_read_int64, double_at, try_read_double,
  raw_after, str_length_at, try_read_str, bin_length_at, try_read_bin, array_header_at,
  try_read_array_header, map_header_at, try_read_map_header,
}
use callwire.Codec.Encode.{
  encode_pointer, result_message, grow, encode_with_growth, encode_response, encode_pairs,
}
use callwire.Codec.Decode.{from_int64, from_nil, decode_value}
use callwire.Codec.Parse.{codec_decode}
use callwire.Client.{call}
use callwire.Server.Dispatch.{thread_step}
use callwire.Server.Loop.{handle_frame}
use callwire.Cpp.{Answer, value}
use callwire.Cpp.Calls.{raw_args, call_as}
use callwire.Cpp.Handlers.{int64_t, Arguments, of_element, as_type, make_typed_handler, trampoline}
use callwire.Cpp.Typed.{of_arguments}
use callwire.Exchange.Typed.{call_as-make_typed_handler}
use callwire.Exchange.{answer_frame, told, call-answer_frame}

abbrev always : ℕ → Bool
always n = true

abbrev add : RegistryEntry
add = record { name = text "add"; kind = unary_ctx; fn = 1; userdata = 7 }

abbrev server : Server
server = record { running = true; entries = add ∷ []; entry_cap = 8; error = []; blocks = 3 }

abbrev unary_fn : RegistryEntry → Items → Bool × Value
unary_fn entry args = (true, int64 (pos 5))

abbrev program : RegistryEntry → Items → Program
program entry args = returns true null

abbrev arguments : Items
arguments = item (int64 (pos 2)) (item (int64 (pos 3)) no_items)

abbrev reply_frame : List ℕ
reply_frame = frame (response_payload 1 (int64 (pos 5)))

abbrev session : Session
session = record {
  socket = record { incoming = reply_frame ∷ []; accepts = 1000 ∷ 1000 ∷ []; sent = [] };
  next_id = 0;
  error = [];
}

abbrev request_frame : List ℕ
request_frame = frame (request always (λ _. refl) session (text "add") arguments)

abbrev conn : Conn
conn = record {
  socket = record { incoming = request_frame ∷ []; accepts = 1000 ∷ 1000 ∷ []; sent = [] };
  inputs = [];
  inputs_cap = 0;
  next_address = 0;
}

abbrev answered : Conn
answered = record {
  socket = record { incoming = []; accepts = []; sent = reply_frame };
  inputs = [];
  inputs_cap = 0;
  next_address = 0;
}

served : answer_frame always unary_fn program server conn ≡ some answered
unfolding same_string recv recv_all send send_all read_body read_frame write_frame int_bytes
    str_head array_head map_head pairs_bytes init write_raw write_u8 write_int64 write_str
    write_map_header read_raw peek_tag try_read_nil try_read_bool try_read_int64 try_read_str
    try_read_array_header try_read_map_header encode_pointer result_message grow encode_with_growth
    encode_response encode_pairs from_int64 from_nil decode_value codec_decode thread_step
    handle_frame callwire.Mpack.Reader.init
served = refl

call-answer_frame_example :
    (socket : _) × (call always true (some (text "add")) arguments session
      ≡ told true (int64 (pos 5)) (after session 1 socket))
    × (bytes socket.incoming ≡ [])
unfolding same_string int_bytes str_head array_head map_head write_frame send_all send of_element
    find_handler items_bytes
call-answer_frame_example =
    call-answer_frame always (λ _. refl) unary_fn program session (omega arith, tt) server conn
      (omega arith, tt) (text "add") arguments add [] [] reply_frame answered refl refl
      (omega arith) (omega arith) (omega arith, (omega arith, tt)) (omega arith) (omega arith)
      (omega arith) refl refl refl served refl refl

-- The handler of a lambda that returns 5.
abbrev lambda : Arguments (int64_t ∷ int64_t ∷ []) → Answer ℤ
lambda xs = value (pos 5)

typed_runs :
    trampoline
      (make_typed_handler (int64_t ∷ int64_t ∷ []) int64_t lambda)
      (raw_args (of_arguments (int64_t ∷ int64_t ∷ []) (pos 2, (pos 3, tt))))
    ≡ value (unary_fn add arguments)
unfolding trampoline make_typed_handler
typed_runs = refl

call_as-make_typed_handler_example :
    (s' : Session) × (call_as always true
        (as_type int64_t)
        (text "add")
        (of_arguments (int64_t ∷ int64_t ∷ []) (pos 2, (pos 3, tt)))
        session
      ≡ (value (pos 5), s'))
    × (bytes s'.socket.incoming ≡ [])
unfolding same_string int_bytes str_head array_head map_head write_frame send_all send of_element
    find_handler items_bytes
call_as-make_typed_handler_example =
    call_as-make_typed_handler (int64_t ∷ int64_t ∷ []) int64_t lambda always (λ _. refl) unary_fn
      program session (omega arith, tt) server conn (omega arith, tt) (text "add")
      (pos 2, (pos 3, tt)) add [] [] reply_frame answered typed_runs refl refl (omega arith)
      (omega arith) (omega arith, (omega arith, tt)) (omega arith) (omega arith) (omega arith) refl
      refl refl served refl refl
