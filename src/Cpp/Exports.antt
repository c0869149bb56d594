-- ===== src/Cpp/Exports.antt =====
-- The class Server of cpp/include/callwire/callwire.hpp. A handler that an export allocates has an
-- address, which is the userdata of its entry.
use callwire.Base.{ℕ, Bool, List, ◌∷◌, ◌++◌, Option, none, some, if◌then◌else◌, text, ℤ}
use callwire.Errors.{error}
use callwire.Resources.{Resources}
use callwire.Server.Registry.{
  Server, export_ctx, export_stream_ctx, export_client_stream_ctx, export_bidi_ctx,
}
use callwire.Server.Lifecycle.{
  Listening, Listener, server_new, server_close, Round, Served, server_serve,
}
use callwire.Cpp.{Answer, value, exception}
use callwire.Cpp.Values.{Wrapped}
use callwire.Cpp.Handlers.{Handler, Script, Scalar, Arguments, Element, make_typed_handler}

-- The heap-allocated handlers.
pub data Owned : Type 0 where
  handler : Handler → Owned
  stream_handler : (List Wrapped → Script) → Owned
  client_stream_handler bidi_handler : Script → Owned

-- What server_ points to, and the four vectors of handlers by their addresses.
pub record Exporter : Type 0 where
  pub server : Server
  pub owned : List (ℕ × Owned)

-- The addresses of the four trampolines.
abbrev pub trampoline_fn : ℕ
trampoline_fn = 1

abbrev pub stream_trampoline_fn : ℕ
stream_trampoline_fn = 2

abbrev pub client_stream_trampoline_fn : ℕ
client_stream_trampoline_fn = 3

abbrev pub bidi_trampoline_fn : ℕ
bidi_trampoline_fn = 4

unfoldable pub bind_server :
    (ℕ → Bool) → Listening → ℤ → Resources → List ℕ → Answer Listener × Resources × List ℕ
unfolding server_new error
bind_server alloc net port r e =
    let p = server_new alloc net port r e in
    (
      elim p.0 [ none ↦ exception (text "server bind failed: " ++ error p.2) | some l ↦ value l ],
      p.1,
      p.2,
    )

-- The end of an export: the handler is kept even where it throws.
unfoldable pub exported :
    List ℕ → ℕ → Owned → Exporter → Bool × Server → Answer (Unit {0}) × Exporter
unfolding error
exported failure address h e (done, server) = (
  if done then value tt else exception (failure ++ error server.error),
  record { server = server; owned = (address, h) ∷ e.owned },
)

-- `present`: server_ is not null. `address` is what new returns.
module _ (alloc : ℕ → Bool) (present : Bool) (address : ℕ) (name : List ℕ) where
  unfoldable pub export_func : Handler → Exporter → Answer (Unit {0}) × Exporter
  unfolding export_ctx exported
  export_func h e =
      exported (text "export failed: ") address (handler h) e
        (export_ctx alloc present (some name) address trampoline_fn e.server)

  unfoldable pub export_typed :
      (ts : List Scalar) (r : Scalar)
      → (Arguments ts → Answer (Element r))
      → Exporter
      → Answer (Unit {0}) × Exporter
  unfolding export_func make_typed_handler
  export_typed ts r lambda e = export_func (make_typed_handler ts r lambda) e

  unfoldable pub export_stream : (List Wrapped → Script) → Exporter → Answer (Unit {0}) × Exporter
  unfolding export_stream_ctx exported
  export_stream h e =
      exported (text "exportStream failed: ") address (stream_handler h) e
        (export_stream_ctx alloc present (some name) address stream_trampoline_fn e.server)

  unfoldable pub export_client_stream : Script → Exporter → Answer (Unit {0}) × Exporter
  unfolding export_client_stream_ctx exported
  export_client_stream h e =
      exported (text "exportClientStream failed: ") address (client_stream_handler h) e (
        export_client_stream_ctx alloc present (some name) address client_stream_trampoline_fn
          e.server)

  unfoldable pub export_bidi : Script → Exporter → Answer (Unit {0}) × Exporter
  unfolding export_bidi_ctx exported
  export_bidi h e =
      exported (text "exportBidi failed: ") address (bidi_handler h) e
        (export_bidi_ctx alloc present (some name) address bidi_trampoline_fn e.server)

unfoldable pub serve : Bool → List Round → List ℕ → Answer (Unit {0}) × Served × List ℕ
unfolding server_serve error
serve present rounds e =
    let p = server_serve present rounds e in
    (if p.0 then value tt else exception (text "serve failed: " ++ error p.2), p.1, p.2)

unfoldable pub close : Option Listener → Resources → Option Listener × Resources
unfolding server_close
close none r = (none, r)
close (some l) r = (none, server_close (some l) r)

-- The destructor; what it does to the handlers is not modelled.
unfoldable pub destroy_server : Option Listener → Resources → Resources
unfolding server_close
destroy_server none r = r
destroy_server (some l) r = server_close (some l) r
