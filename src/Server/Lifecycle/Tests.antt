-- ===== src/Server/Lifecycle/Tests.antt =====
-- Runs of the life of a server of c/src/server.c.
use callwire.Base.{ℕ, ◌≡◌, Bool, true, List, [], ◌∷◌, some, text, pos}
use callwire.Resources.{Resources}
use callwire.Server.Registry.{unary_ctx, stream_ctx}
use callwire.Server.Lifecycle.{Listening, server_new, server_close}
use callwire.Server.Lifecycle.Accounts.{Export, export_all, server_new-server_close}

abbrev net : Listening
net = record {
  socket = some 4;
  reusable = λ sock. true;
  binds = λ sock port. true;
  listens = λ sock. true;
}

abbrev always : ℕ → Bool
always n = true

abbrev held : Resources
held = record { sockets = 3 ∷ []; blocks = 10 }

abbrev added : List Export
added =
    record { kind = unary_ctx; func = text "add"; userdata = 7; fn = 1 }
    ∷ record { kind = stream_ctx; func = text "count"; userdata = 8; fn = 2 }
    ∷ []

server_new-server_close_example :
    (let started = server_new always net (pos 9090) held [] in
      let exported = export_all always added started.0 started.1 in
      server_close exported.0 exported.1)
    ≡ held
server_new-server_close_example = server_new-server_close always net (pos 9090) held [] added
