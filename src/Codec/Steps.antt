-- ===== src/Codec/Steps.antt =====
-- Sequences and attempts of decoding steps of c/src/codec.c, and what they read.
use callwire.Base.{
  ℕ, subst, List, [], ◌++◌, append_assoc, append-nil, Option, some, arith, length, length-append,
}
use callwire.Mpack.Reader.{Reader, advance}
use callwire.Mpack.Sees.{Sees, Sees-advance_append, advance-advance}
use callwire.Mpack.Reads.{Reads}
use callwire.Codec.Outcome.{Outcome, ok, Decoder, ◌>>=◌, pure}
use callwire.Codec.Decode.{attempt}

pub Reads-bind :
    {A B : Type 0} {d : Decoder A} {xs ys : List ℕ} {a : A} {b : Outcome B} (k : A → Decoder B)
    → Reads d xs (ok a)
    → Reads (k a) ys b
    → Reads (d >>= k) (xs ++ ys) b
Reads-bind {xs = xs} {ys} {a} k h g = record {
  at = λ r zs s.
      let s' = subst (Sees r) (append_assoc xs ys zs) s in
      rw (
        h.at r (ys ++ zs) s',
        g.at (advance (length xs) r) zs (Sees-advance_append xs r s'),
        advance-advance (length xs) (length ys) r,
        length-append xs ys,
      );
}

-- A try that succeeds, with what is done then.
pub Reads-attempt :
    {A B : Type 0} {f : Reader → Option A × Reader} {xs ys : List ℕ} {a : A} {b : Outcome B}
    (found : A → Decoder B) (next : Decoder B)
    → Reads f xs (some a)
    → Reads (found a) ys b
    → Reads (λ r. attempt (f r) found next) (xs ++ ys) b
Reads-attempt {xs = xs} {ys} {a} found next h g = record {
  at = λ r zs s.
      let s' = subst (Sees r) (append_assoc xs ys zs) s in
      rw (
        h.at r (ys ++ zs) s',
        g.at (advance (length xs) r) zs (Sees-advance_append xs r s'),
        advance-advance (length xs) (length ys) r,
        length-append xs ys,
      );
}

pub Reads-pure : {A : Type 0} (a : A) → Reads (pure a) [] (ok a)
unfolding advance
Reads-pure a = record { at = λ r ys s. ground arith }

-- A try with nothing to read after it.
pub Reads-try :
    {A B : Type 0} {f : Reader → Option A × Reader} {xs : List ℕ} {a : A} {b : Outcome B}
    (found : A → Decoder B) (next : Decoder B)
    → Reads f xs (some a)
    → Reads (found a) [] b
    → Reads (λ r. attempt (f r) found next) xs b
Reads-try {f = f} {xs} {b = b} found next h g =
    subst (λ zs. Reads (λ r. attempt (f r) found next) zs b) (append-nil xs)
      (Reads-attempt found next h g)

pub Reads-then :
    {A B : Type 0} {d : Decoder A} {xs : List ℕ} {a : A} (g : A → B)
    → Reads d xs (ok a)
    → Reads (d >>= λ x. pure (g x)) xs (ok (g a))
Reads-then {d = d} {xs} {a} g h =
    subst (λ zs. Reads (d >>= λ x. pure (g x)) zs (ok (g a))) (append-nil xs)
      (Reads-bind (λ x. pure (g x)) h (Reads-pure (g a)))
