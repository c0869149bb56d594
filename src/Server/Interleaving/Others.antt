-- ===== src/Server/Interleaving/Others.antt =====
-- The other threads of a connection of c/src/server.c, while one takes a step.
use callwire.Base.{◌≡◌, refl, sym, ◌≢◌, Bool, true, false, List, [], ◌∷◌, ◌++◌}
use callwire.Server.Connection.{Conn}
use callwire.Server.Connection.Present.{Stays}
use callwire.Server.Dispatch.{Thread, has_input}
use callwire.Server.Interleaving.Holds.{
  Holds, reads_stream, HoldsStage-Stays, HoldsStage-idle, StaysBut,
}

-- Two threads that read streams have different ids.
abbrev pub Apart : Thread → Thread → Type 0
Apart t u = reads_stream t ≡ true → reads_stream u ≡ true → t.id ≢ u.id

abbrev pub AllApart : Thread → List Thread → Type 0
AllApart t [] = Unit
AllApart t (u ∷ us) = Apart t u × AllApart t us

abbrev pub DistinctIds : List Thread → Type 0
DistinctIds [] = Unit
DistinctIds (t ∷ ts) = AllApart t ts × DistinctIds ts

abbrev pub AllHold : Conn → List Thread → Type 0
AllHold conn [] = Unit
AllHold conn (t ∷ ts) = Holds conn t × AllHold conn ts

pub AllHold-Stays :
    (conn conn' : Conn) (ts : List Thread) → Stays conn conn' → AllHold conn ts → AllHold conn' ts
AllHold-Stays conn conn' [] f h = tt
AllHold-Stays conn conn' (t ∷ ts) f h = (
  HoldsStage-Stays (has_input t.entry.kind) conn conn' t.id t.stage (λ a. f a t.id) h.0,
  AllHold-Stays conn conn' ts f h.1,
)

AllHold-StaysBut :
    (t : Thread) (conn conn' : Conn) (us : List Thread)
    → StaysBut (reads_stream t) t.id conn conn'
    → AllApart t us
    → AllHold conn us
    → AllHold conn' us
AllHold-StaysBut t conn conn' [] f d h = tt
AllHold-StaysBut t conn conn' (u ∷ us) f d h =
    (one (reads_stream u) refl, AllHold-StaysBut t conn conn' us f d.1 h.1)
  where
    one : (b : Bool) → reads_stream u ≡ b → Holds conn' u
    one true e =
        HoldsStage-Stays (has_input u.entry.kind) conn conn' u.id u.stage
          (λ a present. f a u.id (λ live same. d.0 live e (sym same)) present) h.0
    one false e = HoldsStage-idle (has_input u.entry.kind) conn conn' u.id u.stage e h.0

-- A thread in the middle, and the others.
pub Holds-middle :
    (conn : Conn) (before : List Thread) (t : Thread) (behind : List Thread)
    → AllHold conn (before ++ (t ∷ behind))
    → Holds conn t
Holds-middle conn [] t behind h = h.0
Holds-middle conn (u ∷ before) t behind h = Holds-middle conn before t behind h.1

pub AllHold-run :
    (conn conn' : Conn) (before : List Thread) (t t' : Thread) (behind : List Thread)
    → DistinctIds (before ++ (t ∷ behind))
    → StaysBut (reads_stream t) t.id conn conn'
    → Holds conn' t'
    → AllHold conn (before ++ (t ∷ behind))
    → AllHold conn' (before ++ (t' ∷ behind))
AllHold-run conn conn' [] t t' behind d f h' h =
    (h', AllHold-StaysBut t conn conn' behind f d.0 h.1)
AllHold-run conn conn' (u ∷ before) t t' behind d f h' h = (
  (AllHold-StaysBut t conn conn' (u ∷ []) f (Apart_sym u (middle before t behind d.0), tt)
      (h.0, tt)).0,
  AllHold-run conn conn' before t t' behind d.1 f h' h.1,
)
  where
    middle :
        (us : List Thread) (v : Thread) (vs : List Thread) → AllApart u (us ++ (v ∷ vs)) → Apart u v
    middle [] v vs k = k.0
    middle (w ∷ us) v vs k = middle us v vs k.1

    Apart_sym : (u : Thread) → Apart u t → Apart t u
    Apart_sym u k live live' same = k live' live (sym same)
