-- ===== src/Exchange/Typed.antt =====
-- A typed call of cpp/include/callwire/callwire.hpp, answered by a typed handler of it.
use callwire.Base.{
  ℕ, ◌^◌, ◌≤◌, ◌<◌, ◌≡◌, refl, ap, sym, ◌∙◌, Bool, true, List, ◌++◌, some, length, text, c_string,
}
use callwire.Value.{Value, Items, IsValid, IsValidItems, count_items}
use callwire.Errors.{error}
use callwire.Framing.{max_frame_size, write_frame}
use callwire.Framing.Receive.{bytes, IsOpen}
use callwire.Framing.Send.{frame}
use callwire.Client.{Session, call}
use callwire.Client.Replies.{after, new_id, request, requested}
use callwire.Server.Registry.{Server, RegistryEntry, find_handler}
use callwire.Server.Connection.{Conn}
use callwire.Server.Dispatch.{Program, is_unary}
use callwire.Server.Dispatch.Threads.{reply_payload, response_payload}
use callwire.Exchange.{answer_frame, told, call-answer_frame}
use callwire.Cpp.{Answer, value, exception, undefined, unfinished}
use callwire.Cpp.Values.{Wrapped}
use callwire.Cpp.Calls.{raw_args, or_throw, call_value, call_as}
use callwire.Cpp.Handlers.{Scalar, Element, Arguments, as_type, make_typed_handler, trampoline}
use callwire.Cpp.Typed.{of_arguments, answer, as_type-of_element, trampoline-make_typed_handler}

-- What a caller gets of what the lambda came to: the text of an exception stays on the server.
abbrev pub passed : {A : Type 0} → Answer A → Answer A
passed (value y) = value y
passed (exception e) = exception (text "Error: handler returned an error")
passed undefined = undefined
passed unfinished = unfinished

value_injective : (p q : Bool × Value) → value p ≡ value q → p ≡ q
value_injective p q e = cc

module _ (ts : List Scalar) (r : Scalar) (lambda : Arguments ts → Answer (Element r)) where
  told-call_as :
      (alloc : ℕ → Bool) (func : List ℕ) (ws : List Wrapped) (s s' : Session)
      (a : Answer (Element r)) (done : Bool) (result : Value)
      → answer ts r lambda a ≡ value (done, result)
      → call alloc true (some func) (raw_args ws) s ≡ told done result s'
      → (e : List ℕ) × (call_as alloc true (as_type r) func ws s
          ≡ (passed a, record s' { error = e }))
  unfolding call_as call_value or_throw error
  told-call_as alloc func ws s s' (value y) done result e c =
      let same = value_injective _ _ e in
      let told_ok = c ∙ ap (λ p. told p.0 p.1 s') (sym same) in
      (s'.error, rw (told_ok, as_type-of_element r y) refl)
  told-call_as alloc func ws s s' (exception thrown) done result e c =
      let same = value_injective _ _ e in
      let told_error = c ∙ ap (λ p. told p.0 p.1 s') (sym same) in
      (text "Error: handler returned an error", rw told_error refl)
  told-call_as alloc func ws s s' undefined done result e c = absurd cc
  told-call_as alloc func ws s s' unfinished done result e c = absurd cc

  module _ (alloc : ℕ → Bool) (enough : (n : ℕ) → alloc n ≡ true)
      (unary_fn : RegistryEntry → Items → Bool × Value) (program : RegistryEntry → Items → Program)
      (s : Session) (client_open : IsOpen s.socket.incoming) (server : Server) (conn : Conn)
      (server_open : IsOpen conn.socket.incoming) where
    -- Where every allocation succeeds, threads can be made, and both streams stay open: a C++
    -- client makes a typed call of a function whose entry at the server is unary and runs the
    -- trampoline on the handler of a lambda of these argument and result types; the name, the
    -- arguments, the result and both messages fit the format and a frame; the request goes out, and
    -- so does the reply of the server; the stream of the server begins with the request, the server
    -- takes this frame, the thread that it starts runs, and the stream of the client begins with
    -- what this wrote. Then the call returns what the lambda returns for the arguments, or, if the
    -- lambda throws, throws `Error: handler returned an error`, and the client has read exactly
    -- what the server wrote.
    pub call_as-make_typed_handler :
        (func : List ℕ) (xs : Arguments ts) (entry : RegistryEntry) (more rest wire : List ℕ)
        (conn' : Conn)
        → let args = raw_args (of_arguments ts xs) in
          trampoline (make_typed_handler ts r lambda) args ≡ value (unary_fn entry args)
          → find_handler server (c_string func) ≡ some entry
          → is_unary entry.kind ≡ true
          → length (c_string func) < 2 ^ 32
          → count_items args < 2 ^ 32
          → IsValidItems args
          → length (request alloc enough s func args) ≤ max_frame_size
          → IsValid (unary_fn entry args).1
          → length (response_payload (new_id alloc enough s func args) (unary_fn entry args).1)
            ≤ max_frame_size
          → (requested alloc enough s func args).0 ≡ true
          → (write_frame
              (reply_payload
                (new_id alloc enough s func args)
                entry.kind
                (unary_fn entry args).0
                (unary_fn entry args).1)
              conn.socket).0
            ≡ true
          → bytes conn.socket.incoming ≡ frame (request alloc enough s func args) ++ more
          → answer_frame alloc unary_fn program server conn ≡ some conn'
          → conn'.socket.sent ≡ conn.socket.sent ++ wire
          → bytes s.socket.incoming ≡ wire ++ rest
          → (s' : Session) × (call_as alloc true (as_type r) func (of_arguments ts xs) s
              ≡ (passed (lambda xs), s'))
            × (bytes s'.socket.incoming ≡ rest)
    call_as-make_typed_handler func xs entry more rest wire conn' runs found kind name_fits args_fit
          valid fits v v_fits written replies asked answered sent incoming =
        let args = raw_args (of_arguments ts xs) in
        let (socket, called, left) =
          call-answer_frame alloc enough unary_fn program s client_open server conn server_open func
            args entry more rest wire conn' found kind name_fits args_fit valid fits v v_fits
            written replies asked answered sent incoming in
        let (e, typed) =
          told-call_as alloc func (of_arguments ts xs) s
            (after s (new_id alloc enough s func args) socket) (lambda xs) (unary_fn entry args).0
            (unary_fn entry args).1 (sym ((trampoline-make_typed_handler ts r lambda).0 xs) ∙ runs)
            called in
        (record (after s (new_id alloc enough s func args) socket) { error = e }, typed, left)
