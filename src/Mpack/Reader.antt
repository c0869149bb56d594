-- ===== src/Mpack/Reader.antt =====
-- c/third_party/mpack_stub.h, "Reader". A reader function returns its value and the reader after
-- it; `none` is the return value 0 of a `try` function. `r->len` is the length of `buf`. Lengths are
-- below 2 ^ 64, so the sums in the bounds tests do not wrap. A tag's masked bits are compared by
-- division (`tag & 0xE0` is 0xA0 exactly if `tag / 32` is 5), and `|` of shifted bytes is their sum.
use callwire.Base.{
  ℕ, ◌+◌, ◌*◌, ◌/◌, ◌%◌, ◌^◌, Bool, true, false, List, Option, none, some, ltb, leb, ◌==◌,
  if◌then◌else◌, length, get_or, take, drop, ℤ, pos, to_signed,
}
use callwire.Mpack.Widen.{widen}

pub record Reader : Type 0 where
  pub buf : List ℕ
  pub pos : ℕ
  pub error : Bool

abbrev pub Read : Type 0 → Type 0
Read A = Reader → A × Reader

unfoldable pub init : List ℕ → Reader
init buf = record { buf = buf; pos = 0; error = false }

-- `r->pos += n`.
unfoldable pub advance : ℕ → Reader → Reader
advance n r = record r { pos = r.pos + n }

unfoldable pub fail : Reader → Reader
fail r = record r { error = true }

unfoldable pub read_u8 : Read ℕ
unfolding advance fail
read_u8 r =
    if ltb (length r.buf) (r.pos + 1) then (0, fail r) else (get_or r.buf r.pos 0, advance 1 r)

unfoldable pub read_u16 : Read ℕ
unfolding advance fail
read_u16 r =
    if ltb (length r.buf) (r.pos + 2)
    then (0, fail r)
    else (get_or r.buf r.pos 0 * 2 ^ 8 + get_or r.buf (r.pos + 1) 0, advance 2 r)

unfoldable pub read_u32 : Read ℕ
unfolding advance fail
read_u32 r = if ltb (length r.buf) (r.pos + 4) then (0, fail r) else (
  get_or r.buf r.pos 0 * 2 ^ 24
      + get_or r.buf (r.pos + 1) 0 * 2 ^ 16
      + get_or r.buf (r.pos + 2) 0 * 2 ^ 8
      + get_or r.buf (r.pos + 3) 0,
  advance 4 r,
)

unfoldable pub read_u64 : Read ℕ
unfolding read_u32
read_u64 r = let (hi, r₁) = read_u32 r in let (lo, r₂) = read_u32 r₁ in (hi * 2 ^ 32 + lo, r₂)

unfoldable pub read_raw : ℕ → Read (Option (List ℕ))
unfolding advance fail
read_raw len r =
    if ltb (length r.buf) (r.pos + len)
    then (none, fail r)
    else (some (take len (drop r.pos r.buf)), advance len r)

unfoldable pub peek_tag : Read ℕ
unfolding fail
peek_tag r = if leb (length r.buf) r.pos then (0, fail r) else (get_or r.buf r.pos 0, r)

-- `r->pos++`, then a read whose value is passed to `f`.
unfoldable pub after_tag {ℓ} : {A : Type ℓ} → Read ℕ → (ℕ → A) → Reader → Option A × Reader
unfolding advance
after_tag read f r = let (v, r') = read (advance 1 r) in (some (f v), r')

unfoldable pub nil_at : ℕ × Reader → Bool × Reader
nil_at (tag, r) = if tag == 0xC0 then (true, advance 1 r) else (false, r)

unfoldable pub try_read_nil : Read Bool
unfolding nil_at
try_read_nil r = nil_at (peek_tag r)

unfoldable pub bool_at : ℕ × Reader → Option Bool × Reader
bool_at (tag, r) =
    if tag == 0xC2
    then (some false, advance 1 r)
    else if tag == 0xC3
    then (some true, advance 1 r)
    else (none, r)

unfoldable pub try_read_bool : Read (Option Bool)
unfolding bool_at
try_read_bool r = bool_at (peek_tag r)

unfoldable pub int64_at : ℕ × Reader → Option ℤ × Reader
int64_at (tag, r) =
    if leb tag 0x7F
    then (some (pos tag), advance 1 r)
    else if leb 0xE0 tag
    then (some (to_signed 0x80 tag), advance 1 r)
    else if tag == 0xCC
    then after_tag read_u8 pos r
    else if tag == 0xCD
    then after_tag read_u16 pos r
    else if tag == 0xCE
    then after_tag read_u32 pos r
    else if tag == 0xCF
    then after_tag read_u64 (to_signed (2 ^ 63)) r
    else if tag == 0xD0
    then after_tag read_u8 (to_signed (2 ^ 7)) r
    else if tag == 0xD1
    then after_tag read_u16 (to_signed (2 ^ 15)) r
    else if tag == 0xD2
    then after_tag read_u32 (to_signed (2 ^ 31)) r
    else if tag == 0xD3
    then after_tag read_u64 (to_signed (2 ^ 63)) r
    else (none, r)

unfoldable pub try_read_int64 : Read (Option ℤ)
unfolding int64_at
try_read_int64 r = int64_at (peek_tag r)

-- A double is its pattern, and a float is widened to one.
unfoldable pub double_at : ℕ × Reader → Option ℕ × Reader
double_at (tag, r) =
    if tag == 0xCB
    then after_tag read_u64 (λ u. u) r
    else if tag == 0xCA
    then after_tag read_u32 widen r
    else (none, r)

unfoldable pub try_read_double : Read (Option ℕ)
unfolding double_at
try_read_double r = double_at (peek_tag r)

-- The bytes of a str or a bin, once its length is read.
unfoldable pub raw_after : Option ℕ × Reader → Option (List ℕ) × Reader
raw_after (none, r) = (none, r)
raw_after (some len, r) = read_raw len r

unfoldable pub str_length_at : ℕ × Reader → Option ℕ × Reader
str_length_at (tag, r) =
    if tag / 32 == 5
    then (some (tag % 32), advance 1 r)
    else if tag == 0xD9
    then after_tag read_u8 (λ n. n) r
    else if tag == 0xDA
    then after_tag read_u16 (λ n. n) r
    else if tag == 0xDB
    then after_tag read_u32 (λ n. n) r
    else (none, r)

unfoldable pub try_read_str : Read (Option (List ℕ))
unfolding raw_after str_length_at
try_read_str r = raw_after (str_length_at (peek_tag r))

unfoldable pub bin_length_at : ℕ × Reader → Option ℕ × Reader
bin_length_at (tag, r) =
    if tag == 0xC4
    then after_tag read_u8 (λ n. n) r
    else if tag == 0xC5
    then after_tag read_u16 (λ n. n) r
    else if tag == 0xC6
    then after_tag read_u32 (λ n. n) r
    else (none, r)

unfoldable pub try_read_bin : Read (Option (List ℕ))
unfolding raw_after bin_length_at
try_read_bin r = raw_after (bin_length_at (peek_tag r))

unfoldable pub array_header_at : ℕ × Reader → Option ℕ × Reader
array_header_at (tag, r) =
    if tag / 16 == 9
    then (some (tag % 16), advance 1 r)
    else if tag == 0xDC
    then after_tag read_u16 (λ n. n) r
    else if tag == 0xDD
    then after_tag read_u32 (λ n. n) r
    else (none, r)

unfoldable pub try_read_array_header : Read (Option ℕ)
unfolding array_header_at
try_read_array_header r = array_header_at (peek_tag r)

unfoldable pub map_header_at : ℕ × Reader → Option ℕ × Reader
map_header_at (tag, r) =
    if tag / 16 == 8
    then (some (tag % 16), advance 1 r)
    else if tag == 0xDE
    then after_tag read_u16 (λ n. n) r
    else if tag == 0xDF
    then after_tag read_u32 (λ n. n) r
    else (none, r)

unfoldable pub try_read_map_header : Read (Option ℕ)
unfolding map_header_at
try_read_map_header r = map_header_at (peek_tag r)
