-- ===== src/Mpack/Skip.antt =====
-- c/third_party/mpack_stub.h: mpack_skip_value. The fuel bounds the nesting of the calls.
use callwire.Base.{
  ℕ, zero, suc, ◌/◌, ◌||◌, Option, none, some, leb, ◌==◌, if◌then◌else◌, length, get_or,
}
use callwire.Mpack.Reader.{
  Reader, advance, fail, read_u8, read_u16, read_u32, read_u64, try_read_str, try_read_bin,
  try_read_array_header, try_read_map_header,
}
use callwire.Codec.Outcome.{Outcome, ok, out_of_fuel, Decoder, ◌>>◌}

-- `for (i = 0; i < count && !r->error; i++)`.
unfoldable pub skip_loop : Decoder (Unit {0}) → ℕ → Decoder (Unit {0})
skip_loop skip zero r = (ok tt, r)
skip_loop skip (suc n) r =
    let next = (skip >> skip_loop skip n) r in if r.error then (ok tt, r) else next

-- A read whose value is dropped.
abbrev pub drop_value {ℓ} : {A : Type ℓ} → A × Reader → Outcome (Unit {0}) × Reader
drop_value (a, r) = (ok tt, r)

-- The loop over the elements, after the header.
abbrev pub skip_counted : Decoder (Unit {0}) → Option ℕ × Reader → Outcome (Unit {0}) × Reader
skip_counted skip (none, r) = (ok tt, r)
skip_counted skip (some count, r) = skip_loop skip count r

unfoldable pub skip_scalar : ℕ → Reader → Outcome (Unit {0}) × Reader
skip_scalar tag r =
    if tag == 0xC0 || tag == 0xC2 || tag == 0xC3
    then (ok tt, advance 1 r)
    else if tag == 0xCC || tag == 0xD0
    then drop_value (read_u8 (advance 1 r))
    else if tag == 0xCD || tag == 0xD1
    then drop_value (read_u16 (advance 1 r))
    else if tag == 0xCE || tag == 0xD2 || tag == 0xCA
    then drop_value (read_u32 (advance 1 r))
    else if tag == 0xCF || tag == 0xD3 || tag == 0xCB
    then drop_value (read_u64 (advance 1 r))
    else if tag == 0xC4 || tag == 0xC5 || tag == 0xC6
    then drop_value (try_read_bin r)
    else if tag == 0xD9 || tag == 0xDA || tag == 0xDB
    then drop_value (try_read_str r)
    else (ok tt, fail r)

unfoldable pub skip_tag : Decoder (Unit {0}) → ℕ → Reader → Outcome (Unit {0}) × Reader
unfolding skip_scalar
skip_tag skip tag r =
    if leb tag 0x7F || leb 0xE0 tag
    then (ok tt, advance 1 r)
    else if tag / 32 == 5
    then drop_value (try_read_str r)
    else if tag / 16 == 9 || tag == 0xDC || tag == 0xDD
    then skip_counted skip (try_read_array_header r)
    else if tag / 16 == 8 || tag == 0xDE || tag == 0xDF
    then skip_counted (skip >> skip) (try_read_map_header r)
    else skip_scalar tag r

unfoldable pub skip_value : ℕ → Decoder (Unit {0})
skip_value zero r = (out_of_fuel, r)
skip_value (suc fuel) r =
    let skipped = skip_tag (skip_value fuel) (get_or r.buf r.pos 0) r in
    if r.error || leb (length r.buf) r.pos then (ok tt, fail r) else skipped
