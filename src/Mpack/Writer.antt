-- ===== src/Mpack/Writer.antt =====
-- c/third_party/mpack_stub.h, "Writer". `written` is the part of the buffer below `pos`, so `pos` is
-- its length. A write that does not fit leaves the buffer and sets the flag. Lengths are below
-- 2 ^ 64, so the sum in the bounds test does not wrap. `x | y` on disjoint bits is `x + y`.

use callwire.Base.{
  ℕ, ◌+◌, ◌/◌, ◌%◌, ◌^◌, Bool, true, false, List, [], ◌∷◌, ◌++◌, ◌&&◌, ltb, leb, if◌then◌else◌,
  length, ℤ, pos, negsuc, leb_ℤ, to_unsigned,
}

pub record Writer : Type 0 where
  pub written : List ℕ
  pub cap : ℕ
  pub overflow : Bool

abbrev pub Write : Type 0
Write = Writer → Writer

infixl 5 ◌>>◌
abbrev pub ◌>>◌ : Write → Write → Write
(f >> g) w = g (f w)

unfoldable pub init : ℕ → Writer
init cap = record { written = []; cap = cap; overflow = false }

unfoldable pub write_raw : List ℕ → Write
write_raw bs w =
    if ltb w.cap (length w.written + length bs)
    then record w { overflow = true }
    else record w { written = w.written ++ bs }

unfoldable pub write_u8 : ℕ → Write
write_u8 v = write_raw (v ∷ [])

unfoldable pub write_u16 : ℕ → Write
write_u16 v = write_raw (v / 2 ^ 8 % 2 ^ 8 ∷ v % 2 ^ 8 ∷ [])

unfoldable pub write_u32 : ℕ → Write
write_u32 v =
    write_raw (v / 2 ^ 24 % 2 ^ 8 ∷ v / 2 ^ 16 % 2 ^ 8 ∷ v / 2 ^ 8 % 2 ^ 8 ∷ v % 2 ^ 8 ∷ [])

unfoldable pub write_u64 : ℕ → Write
write_u64 v = do write_u32 (v / 2 ^ 32 % 2 ^ 32); write_u32 (v % 2 ^ 32)

unfoldable pub write_nil : Write
write_nil = write_u8 0xC0

unfoldable pub write_bool : Bool → Write
write_bool val = write_u8 (if val then 0xC3 else 0xC2)

unfoldable pub write_int64 : ℤ → Write
write_int64 v =
    if leb_ℤ (pos 0) v && leb_ℤ v (pos 0x7F)
    then write_u8 (to_unsigned 256 v)
    else if leb_ℤ v (negsuc 0) && leb_ℤ (negsuc 31) v
    then write_u8 (0xE0 + to_unsigned 32 v)
    else if leb_ℤ (pos 0) v
    then (if leb_ℤ v (pos 0xFF)
        then (do write_u8 0xCC; write_u8 (to_unsigned 256 v))
        else if leb_ℤ v (pos 0xFFFF)
        then (do write_u8 0xCD; write_u16 (to_unsigned (2 ^ 16) v))
        else if leb_ℤ v (pos 0xFFFFFFFF)
        then (do write_u8 0xCE; write_u32 (to_unsigned (2 ^ 32) v))
        else (do write_u8 0xCF; write_u64 (to_unsigned (2 ^ 64) v)))
    else if leb_ℤ (negsuc 127) v
    then (do write_u8 0xD0; write_u8 (to_unsigned 256 v))
    else if leb_ℤ (negsuc 32767) v
    then (do write_u8 0xD1; write_u16 (to_unsigned (2 ^ 16) v))
    else if leb_ℤ (negsuc 2147483647) v
    then (do write_u8 0xD2; write_u32 (to_unsigned (2 ^ 32) v))
    else (do write_u8 0xD3; write_u64 (to_unsigned (2 ^ 64) v))

unfoldable pub write_double : ℕ → Write
write_double u = do write_u8 0xCB; write_u64 u

unfoldable pub str_header : ℕ → Write
str_header len =
    if ltb len 32
    then write_u8 (0xA0 + len)
    else if leb len 0xFF
    then (do write_u8 0xD9; write_u8 (len % 2 ^ 8))
    else if leb len 0xFFFF
    then (do write_u8 0xDA; write_u16 (len % 2 ^ 16))
    else (do write_u8 0xDB; write_u32 (len % 2 ^ 32))

unfoldable pub write_str : List ℕ → Write
unfolding str_header
write_str bs = do str_header (length bs); write_raw bs

unfoldable pub bin_header : ℕ → Write
bin_header len =
    if leb len 0xFF
    then (do write_u8 0xC4; write_u8 (len % 2 ^ 8))
    else if leb len 0xFFFF
    then (do write_u8 0xC5; write_u16 (len % 2 ^ 16))
    else (do write_u8 0xC6; write_u32 (len % 2 ^ 32))

unfoldable pub write_bin : List ℕ → Write
unfolding bin_header
write_bin bs = do bin_header (length bs); write_raw bs

-- The caller casts the count to uint32_t.
unfoldable pub write_array_header : ℕ → Write
write_array_header count =
    if ltb count 16
    then write_u8 (0x90 + count)
    else if leb count 0xFFFF
    then (do write_u8 0xDC; write_u16 (count % 2 ^ 16))
    else (do write_u8 0xDD; write_u32 count)

unfoldable pub write_map_header : ℕ → Write
write_map_header count =
    if ltb count 16
    then write_u8 (0x80 + count)
    else if leb count 0xFFFF
    then (do write_u8 0xDE; write_u16 (count % 2 ^ 16))
    else (do write_u8 0xDF; write_u32 count)
