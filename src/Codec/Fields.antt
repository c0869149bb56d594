-- ===== src/Codec/Fields.antt =====
-- The entries of a message in callwire_codec_decode (c/src/codec.c): each known key stores its value.
use callwire.Base.{
  ℕ, suc, ◌+◌, ◌*◌, ◌^◌, ◌≤◌, ◌<◌, ◌≡◌, refl, sym, ◌∙◌, subst, Bool, true, List, [], ◌∷◌, ◌++◌,
  append_assoc, append-nil, arith, Option, some, if◌then◌else◌, if_false, and_false, length, text,
  bytes_eq, ltb, IsInt64, to_unsigned, to_signed,
}
use callwire.Value.{Value, Items, no_items, item, count_items, IsValid, IsValidItems, Message}
use callwire.Mpack.Format.{int_bytes, str_bytes, array_head, map_head, value_bytes, items_bytes}
use callwire.Mpack.Reader.{Reader, advance, init, try_read_int64, try_read_str}
use callwire.Mpack.Sees.{Sees, Sees-advance_append}
use callwire.Mpack.Reads.{
  Reads, try_read_bool-Reads, try_read_int64-Reads, try_read_str-Reads, try_read_array_header-Reads,
  try_read_map_header-Reads,
}
use callwire.Mpack.Skip.{skip_value}
use callwire.Codec.Outcome.{Outcome, ok, failed, Decoder, ◌>>=◌, pure}
use callwire.Codec.Decode.{value_size, decode_value}
use callwire.Codec.Steps.{Reads-bind, Reads-attempt, Reads-try, Reads-then, Reads-pure}
use callwire.Codec.ReadValue.{depth, depth_items, decode_value-Reads}
use callwire.Codec.Parse.{
  decode_args, read_or_skip, dup_str, args_field, field, decode_fields, codec_decode, finish,
  empty_message,
}

-- An id as it is written, and as it is read back.
pub id-IsInt64 : (id : ℕ) → id < 2 ^ 64 → IsInt64 (to_signed (2 ^ 63) id)
id-IsInt64 id h = ground arith

id_cast : (id : ℕ) → id < 2 ^ 64 → to_unsigned (2 ^ 64) (to_signed (2 ^ 63) id) ≡ id
id_cast id h = ground arith

module _ (alloc : ℕ → Bool) (enough : (n : ℕ) → alloc n ≡ true) (fuel : ℕ) where
  -- One entry, and the entries after it.
  pub entry-Reads :
      (n : ℕ) (msg : Message) {msg' : Message} {final : Outcome Message} {vs rest : List ℕ}
      (key : List ℕ)
      → length key < 2 ^ 32
      → Reads (field alloc fuel key msg) vs (ok msg')
      → Reads (decode_fields alloc fuel n msg') rest final
      → Reads (decode_fields alloc fuel (suc n) msg) (str_bytes key ++ (vs ++ rest)) final
  unfolding decode_fields
  entry-Reads n msg {msg'} {final} {vs} {rest} key short h g =
      Reads-attempt _ _ (try_read_str-Reads key short) (
        Reads-bind
          (λ m r.
            let next = decode_fields alloc fuel n m r in if r.error then (failed, r) else next)
          h (record { at = λ r ys s. if_false r.error _ _ s.2 ∙ g.at r ys s }))

  pub done-Reads : (msg : Message) → Reads (decode_fields alloc fuel 0 msg) [] (ok msg)
  unfolding decode_fields
  done-Reads msg = Reads-pure msg

  pub last-Reads :
      (msg : Message) {msg' : Message} {vs : List ℕ} (key : List ℕ)
      → length key < 2 ^ 32
      → Reads (field alloc fuel key msg) vs (ok msg')
      → Reads (decode_fields alloc fuel 1 msg) (str_bytes key ++ vs) (ok msg')
  last-Reads msg {msg'} {vs} key short h =
      subst (λ zs. Reads (decode_fields alloc fuel 1 msg) (str_bytes key ++ zs) (ok msg'))
        (append-nil vs) (entry-Reads 0 msg key short h (done-Reads msg'))

  -- A stored try, at its own encoding.
  stored-Reads :
      {A : Type 0} {try : Reader → Option A × Reader} {xs : List ℕ} {a : A} (store : A → Message)
      (skip : Decoder (Unit {0})) (msg : Message)
      → Reads try xs (some a)
      → Reads (read_or_skip try store skip msg) xs (ok (store a))
  unfolding read_or_skip
  stored-Reads {a = a} store skip msg h = Reads-try (λ b. pure (store b)) _ h (Reads-pure (store a))

  dup_str-eq : (bs : List ℕ) → dup_str alloc bs ≡ some bs
  unfolding dup_str
  dup_str-eq bs = rw (enough (length bs + 1))

  stored_text-Reads :
      (bs : List ℕ) (store : Option (List ℕ) → Message) (skip : Decoder (Unit {0})) (msg : Message)
      → length bs < 2 ^ 32
      → Reads
          (read_or_skip try_read_str (λ s. store (dup_str alloc s)) skip msg)
          (str_bytes bs)
          (ok (store (some bs)))
  stored_text-Reads bs store skip msg h =
      subst
        (λ o.
          Reads (read_or_skip try_read_str (λ s. store (dup_str alloc s)) skip msg) (str_bytes bs)
            (ok (store o)))
        (dup_str-eq bs)
        (stored-Reads (λ s. store (dup_str alloc s)) skip msg (try_read_str-Reads bs h))

  module _ (msg : Message) where
    pub id-Reads :
        (id : ℕ)
        → id < 2 ^ 64
        → Reads
            (field alloc fuel (text "id") msg)
            (int_bytes (to_signed (2 ^ 63) id))
            (ok (record msg { id = id }))
    unfolding field bytes_eq
    id-Reads id h =
        subst
          (λ k.
            Reads
              (read_or_skip try_read_int64 (λ v. record msg { id = to_unsigned (2 ^ 64) v })
                (skip_value fuel) msg)
              (int_bytes (to_signed (2 ^ 63) id)) (ok (record msg { id = k })))
          (id_cast id h)
          (stored-Reads (λ v. record msg { id = to_unsigned (2 ^ 64) v }) (skip_value fuel) msg
            (try_read_int64-Reads (to_signed (2 ^ 63) id) (id-IsInt64 id h)))

    pub stream-Reads :
        (b : Bool)
        → Reads
            (field alloc fuel (text "stream") msg)
            ((if b then 0xC3 else 0xC2) ∷ [])
            (ok (record msg { stream = b }))
    unfolding field bytes_eq
    stream-Reads b = stored-Reads _ (skip_value fuel) msg (try_read_bool-Reads b)

    pub result-Reads :
        (v : Value)
        → IsValid v
        → depth v ≤ fuel
        → Reads
            (field alloc fuel (text "result") msg)
            (value_bytes v)
            (ok (record msg { result = v }))
    unfolding field bytes_eq
    result-Reads v h d = record {
      at = λ r ys s. rw ((decode_value-Reads alloc enough v fuel h d).at r ys s);
    }

  module _ (msg : Message) (bs : List ℕ) (h : length bs < 2 ^ 32) where
    pub type-Reads :
        Reads
          (field alloc fuel (text "type") msg)
          (str_bytes bs)
          (ok (record msg { type = some bs }))
    unfolding field bytes_eq
    type-Reads = stored_text-Reads bs (λ o. record msg { type = o }) (skip_value fuel) msg h

    pub func-Reads :
        Reads
          (field alloc fuel (text "func") msg)
          (str_bytes bs)
          (ok (record msg { func = some bs }))
    unfolding field bytes_eq
    func-Reads = stored_text-Reads bs (λ o. record msg { func = o }) (skip_value fuel) msg h

    pub error_type-Reads :
        Reads
          (field alloc fuel (text "error_type") msg)
          (str_bytes bs)
          (ok (record msg { error_type = some bs }))
    unfolding field bytes_eq
    error_type-Reads =
        stored_text-Reads bs (λ o. record msg { error_type = o }) (skip_value fuel) msg h

    pub message-Reads :
        Reads
          (field alloc fuel (text "message") msg)
          (str_bytes bs)
          (ok (record msg { message = some bs }))
    unfolding field bytes_eq
    message-Reads = stored_text-Reads bs (λ o. record msg { message = o }) (skip_value fuel) msg h

  element-Reads :
      (decode : Decoder Value) (n : ℕ) (v : Value) (vs : Items) {xs ys : List ℕ}
      → Reads decode xs (ok v)
      → Reads (decode_args decode n) ys (ok vs)
      → Reads (decode_args decode (suc n)) (xs ++ ys) (ok (item v vs))
  unfolding decode_args
  element-Reads decode n v vs {xs} {ys} h g = record {
    at = λ r zs s.
        let first = h.at r (ys ++ zs) (subst (Sees r) (append_assoc xs ys zs) s) in
        let whole =
          (Reads-bind (λ w. decode_args decode n >>= λ ws. pure (item w ws)) h
              (Reads-then (λ ws. item v ws) g)).at
            r zs s in
        rw first (rw first at whole);
  }

  args_items-Reads :
      (vs : Items)
      → IsValidItems vs
      → depth_items vs ≤ fuel
      → Reads (decode_args (decode_value alloc fuel) (count_items vs)) (items_bytes vs) (ok vs)
  unfolding items_bytes depth decode_args
  args_items-Reads no_items h d = Reads-pure no_items
  args_items-Reads (item v vs) h d =
      element-Reads (decode_value alloc fuel) (count_items vs) v vs
        (decode_value-Reads alloc enough v fuel h.0 (omega arith))
        (args_items-Reads vs h.1 (omega arith))

  stored_args-Reads :
      (msg : Message) (vs : Items)
      → IsValidItems vs
      → depth_items vs ≤ fuel
      → Reads
          (args_field alloc fuel msg (count_items vs))
          (items_bytes vs)
          (ok (record msg { args = vs }))
  unfolding args_field
  stored_args-Reads msg vs h d = record {
    at = λ r ys s. rw (
      enough (count_items vs * value_size),
      and_false (ltb 0 (count_items vs)),
      (args_items-Reads vs h d).at r ys s,
    );
  }

  pub args-Reads :
      (msg : Message) (vs : Items)
      → count_items vs < 2 ^ 32
      → IsValidItems vs
      → depth_items vs ≤ fuel
      → Reads
          (field alloc fuel (text "args") msg)
          (array_head (count_items vs) ++ items_bytes vs)
          (ok (record msg { args = vs }))
  unfolding field bytes_eq
  args-Reads msg vs c h d =
      Reads-attempt (args_field alloc fuel msg) _ (try_read_array_header-Reads (count_items vs) c)
        (stored_args-Reads msg vs h d)

-- The loop from the start of a payload, with the fuel that callwire_codec_decode gives it.
pub payload_decoded :
    (alloc : ℕ → Bool) (n : ℕ) (rest : List ℕ) {msg : Message}
    → n < 2 ^ 32
    → Reads (decode_fields alloc (suc (length (map_head n ++ rest))) n empty_message) rest (ok msg)
    → codec_decode alloc (map_head n ++ rest) ≡ ok msg
unfolding codec_decode finish init advance
payload_decoded alloc n rest h g =
    let start = init (map_head n ++ rest) in
    let all : Sees start (map_head n ++ rest) = (omega arith, refl, refl) in
    rw (
      (try_read_map_header-Reads n h).at start rest all,
      g.at (advance (length (map_head n)) start) [] (
          subst (Sees (advance (length (map_head n)) start)) (sym (append-nil rest))
            (Sees-advance_append (map_head n) start all)),
    )
