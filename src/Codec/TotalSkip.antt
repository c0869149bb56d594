-- ===== src/Codec/TotalSkip.antt =====
-- mpack_skip_value of c/third_party/mpack_stub.h returns.
use callwire.Base.{
  ℕ, zero, suc, ◌-◌, ◌/◌, ◌<◌, ◌≡◌, refl, ap, inr, Bool, false, ◌||◌, Option, none, some, arith,
  leb, ◌==◌, leb→lt, length, get_or,
}
use callwire.Mpack.Reader.{
  Reader, advance, read_u8, read_u16, read_u32, read_u64, try_read_str, try_read_bin,
  try_read_array_header, try_read_map_header,
}
use callwire.Mpack.Goes.{
  Goes, Goes-trans, Goes-fail, Goes-advance, Goes-str, Goes-bin, Goes-u8, Goes-u16, Goes-u32,
  Goes-u64, Goes-array_header, Goes-map_header, array_header_moves, map_header_moves, IsReady,
}
use callwire.Mpack.Skip.{skip_loop, skip_scalar, skip_tag, skip_value, skip_counted, drop_value}
use callwire.Codec.Outcome.{Decoder, ◌>>◌}
use callwire.Codec.Total.{Returns, Total, Total-bind, Returns-if, Returns-test, Returns-ok}

module _ (n : ℕ) (skip : Decoder (Unit {0})) (total : Total n skip) where
  loop-Total : (count : ℕ) → Total n (skip_loop skip count)
  unfolding skip_loop
  loop-Total zero r small = Returns-ok tt r
  loop-Total (suc count) r small =
      Returns-if r.error _ _ (Returns-ok tt r)
        (Total-bind n skip (λ _. skip_loop skip count) total (λ _. loop-Total count) r small)

  pub twice-Total : Total n (skip >> skip)
  twice-Total = Total-bind n skip (λ _. skip) total (λ _. total)

dropped : {A : Type 0} {r : Reader} (p : A × Reader) → Goes r p.1 → Returns r (drop_value p)
dropped (a, s) g = record { returns = tt; goes = g }

dropped_after :
    {A : Type 0} {r : Reader} (read : Reader → A × Reader)
    → IsReady r
    → ((s : Reader) → Goes s (read s).1)
    → Returns r (drop_value (read (advance 1 r)))
dropped_after {r = r} read ready g =
    dropped (read (advance 1 r)) (Goes-trans (Goes-advance r ready) (g (advance 1 r)))

scalar-Returns : (tag : ℕ) (r : Reader) → IsReady r → Returns r (skip_scalar tag r)
unfolding skip_scalar
scalar-Returns tag r ready =
    Returns-if (tag == 0xC0 || tag == 0xC2 || tag == 0xC3) _ _
      (record { returns = tt; goes = Goes-advance r ready })
      (Returns-if (tag == 0xCC || tag == 0xD0) _ _ (dropped_after read_u8 ready Goes-u8) (
        Returns-if (tag == 0xCD || tag == 0xD1) _ _ (dropped_after read_u16 ready Goes-u16) (
          Returns-if (tag == 0xCE || tag == 0xD2 || tag == 0xCA) _ _
            (dropped_after read_u32 ready Goes-u32)
            (Returns-if (tag == 0xCF || tag == 0xD3 || tag == 0xCB) _ _
              (dropped_after read_u64 ready Goes-u64)
              (Returns-if (tag == 0xC4 || tag == 0xC5 || tag == 0xC6) _ _
                (dropped (try_read_bin r) (Goes-bin r))
                (Returns-if (tag == 0xD9 || tag == 0xDA || tag == 0xDB) _ _
                  (dropped (try_read_str r) (Goes-str r))
                  (record { returns = tt; goes = Goes-fail r })))))))

counted-Returns :
    {r : Reader} (skip : Decoder (Unit {0})) (p : Option ℕ × Reader)
    → Goes r p.1
    → ((c : ℕ) → p.0 ≡ some c → Returns p.1 (skip_loop skip c p.1))
    → Returns r (skip_counted skip p)
counted-Returns skip (none, s) g h = record { returns = tt; goes = g }
counted-Returns skip (some c, s) g h = record {
  returns = (h c refl).returns;
  goes = Goes-trans g (h c refl).goes;
}

module _ (n : ℕ) (skip : Decoder (Unit {0})) (total : Total n skip) (tag : ℕ) (r : Reader)
    (ready : r.pos < length r.buf) (small : length r.buf - r.pos < suc n) where
  tag-Returns : Returns r (skip_tag skip tag r)
  unfolding skip_tag
  tag-Returns =
      Returns-if (leb tag 0x7F || leb 0xE0 tag) _ _
        (record { returns = tt; goes = Goes-advance r (inr ready) })
        (Returns-if (tag / 32 == 5) _ _ (dropped (try_read_str r) (Goes-str r)) (
          Returns-if (tag / 16 == 9 || tag == 0xDC || tag == 0xDD) _ _
            (counted-Returns skip (try_read_array_header r) (Goes-array_header r) λ c e.
              loop-Total n skip total c (try_read_array_header r).1
                (omega (arith, array_header_moves r e, ap length (Goes-array_header r).same)))
            (Returns-if (tag / 16 == 8 || tag == 0xDE || tag == 0xDF) _ _
              (counted-Returns (skip >> skip) (try_read_map_header r) (Goes-map_header r) λ c e.
                loop-Total n (skip >> skip) (twice-Total n skip total) c (try_read_map_header r).1
                  (omega (arith, map_header_moves r e, ap length (Goes-map_header r).same)))
              (scalar-Returns tag r (inr ready)))))

or_false : (a b : Bool) → (a || b) ≡ false → b ≡ false
or_false a b e = ground arith

-- mpack_skip_value returns on every buffer and at every position, given more fuel than there are
-- unread bytes, with the reader ahead of where it was.
pub skip_value-Total : (n : ℕ) → Total n (skip_value n)
unfolding skip_value
skip_value-Total zero r small = absurd (omega arith)
skip_value-Total (suc n) r small =
    Returns-test (r.error || leb (length r.buf) r.pos) _ _
      (λ e. record { returns = tt; goes = Goes-fail r })
      λ e.
        tag-Returns n (skip_value n) (skip_value-Total n) (get_or r.buf r.pos 0) r
          (leb→lt _ _ (or_false r.error _ e)) small
