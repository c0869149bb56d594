-- ===== src/Value.antt =====
-- c/include/callwire.h: the tagged union `callwire_value_t` and the message `callwire_wire_message_t`.
-- A value owns its buffers: strings and binaries are their bytes, and the `items`, `keys` and
-- `values` arrays are lists of their own, so `count` is the list's length. A double is its 64-bit
-- pattern, and `is_true` is kept as the truth value that the code reads from it.
use callwire.Base.{ℕ, suc, ◌^◌, ◌<◌, Bool, List, Option, ℤ, IsInt64, length}

mutual
  pub data Value : Type 0 where
    null : Value
    bool : Bool → Value
    int64 : ℤ → Value
    float64 : ℕ → Value
    string : List ℕ → Value
    binary : List ℕ → Value
    array : Items → Value
    map : Pairs → Value

  pub data Items : Type 0 where
    no_items : Items
    item : Value → Items → Items

  pub data Pairs : Type 0 where
    no_pairs : Pairs
    pair : Value → Value → Pairs → Pairs

abbrev pub count_items : Items → ℕ
count_items no_items = 0
count_items (item v vs) = suc (count_items vs)

abbrev pub count_pairs : Pairs → ℕ
count_pairs no_pairs = 0
count_pairs (pair k v ps) = suc (count_pairs ps)

-- What the C types can hold and the wire format can carry: 64-bit integers and doubles, and
-- lengths that fit the 32-bit length fields.
abbrev mutual
  pub IsValid : Value → Type 0
  IsValid null = Unit
  IsValid (bool b) = Unit
  IsValid (int64 v) = IsInt64 v
  IsValid (float64 u) = u < 2 ^ 64
  IsValid (string bs) = length bs < 2 ^ 32
  IsValid (binary bs) = length bs < 2 ^ 32
  IsValid (array vs) = (count_items vs < 2 ^ 32) × IsValidItems vs
  IsValid (map ps) = (count_pairs ps < 2 ^ 32) × IsValidPairs ps

  pub IsValidItems : Items → Type 0
  IsValidItems no_items = Unit
  IsValidItems (item v vs) = IsValid v × IsValidItems vs

  pub IsValidPairs : Pairs → Type 0
  IsValidPairs no_pairs = Unit
  IsValidPairs (pair k v ps) = IsValid k × IsValid v × IsValidPairs ps

-- `none` is a null pointer. A text is the buffer that it points to, without the closing zero.
pub record Message : Type 0 where
  pub id : ℕ
  pub type : Option (List ℕ)
  pub func : Option (List ℕ)
  pub args : Items
  pub stream : Bool
  pub result : Value
  pub error_type : Option (List ℕ)
  pub message : Option (List ℕ)
