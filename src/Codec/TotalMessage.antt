-- ===== src/Codec/TotalMessage.antt =====
-- mpack_skip_value and callwire_codec_decode on arbitrary payloads.
use callwire.Base.{
  ℕ, zero, suc, ◌*◌, ◌≡◌, Bool, true, List, Option, none, some, arith, ltb, and_false, length,
  bytes_eq, text,
}
use callwire.Value.{Value, Items, null, no_items, item, Message}
use callwire.Mpack.Reader.{
  Reader, init, try_read_bool, try_read_int64, try_read_str, try_read_array_header,
  try_read_map_header,
}
use callwire.Mpack.Goes.{
  Goes, Goes-trans, Goes-bool, Goes-int64, Goes-str, Goes-array_header, Goes-map_header,
}
use callwire.Mpack.Skip.{skip_value}
use callwire.Codec.Outcome.{Outcome, ok, failed, crashed, out_of_fuel, Decoder, bind, ◌>>◌, pure}
use callwire.Codec.Decode.{value_size, attempt, decode_value}
use callwire.Codec.Parse.{
  empty_message, keep_element, decode_args, keep_result, read_or_skip, args_field, field,
  decode_fields, finish, codec_decode,
}
use callwire.Codec.Total.{
  IsReturn, Returns, Total, Returns-bind, Total-bind, Total-pure, Returns-attempt, Returns-if,
  Returns-failed, Returns-ok, left_of, decode_value-Total,
}
use callwire.Codec.TotalSkip.{skip_value-Total, twice-Total}

element-Returns :
    {r : Reader} (p : Outcome Value × Reader) (rest : Decoder Items)
    → Returns r p
    → Returns p.1 (rest p.1)
    → Returns r (keep_element p rest)
unfolding keep_element
element-Returns (ok v, s) rest h g = record {
  returns = all.returns;
  goes = Goes-trans h.goes all.goes;
}
  where
    all : Returns s (bind (rest s) (λ vs. pure (item v vs)))
    all = Returns-bind (rest s) _ g (λ vs. Returns-ok (item v vs) (rest s).1)
element-Returns (failed, s) rest h g = record {
  returns = all.returns;
  goes = Goes-trans h.goes all.goes;
}
  where
    all : Returns s (bind (rest s) (λ vs. pure (item null vs)))
    all = Returns-bind (rest s) _ g (λ vs. Returns-ok (item null vs) (rest s).1)
element-Returns (crashed, s) rest h g = absurd h.returns
element-Returns (out_of_fuel, s) rest h g = absurd h.returns

args-Total :
    (n : ℕ) (decode : Decoder Value)
    → Total n decode
    → (count : ℕ) → Total n (decode_args decode count)
unfolding decode_args
args-Total n decode total zero r small = Returns-ok no_items r
args-Total n decode total (suc count) r small =
    let h = total r small in
    element-Returns (decode r) _ h
      (args-Total n decode total count (decode r).1 (left_of n h.goes small))

result-Returns :
    {r : Reader} (p : Outcome Value × Reader) (msg : Message)
    → Returns r p
    → Returns r (keep_result p msg)
unfolding keep_result
result-Returns (ok v, s) msg h = record { returns = tt; goes = h.goes }
result-Returns (failed, s) msg h = record { returns = tt; goes = h.goes }
result-Returns (crashed, s) msg h = absurd h.returns
result-Returns (out_of_fuel, s) msg h = absurd h.returns

module _ (alloc : ℕ → Bool) (enough : (n : ℕ) → alloc n ≡ true) (n : ℕ) where
  skipped-Total : (msg : Message) → Total n (λ r. bind (skip_value n r) (λ _. pure msg))
  skipped-Total msg =
      Total-bind n (skip_value n) (λ _. pure msg) (skip_value-Total n) (λ _. Total-pure n msg)

  stored-Total :
      {A : Type 0} (try : Reader → Option A × Reader) (store : A → Message) (msg : Message)
      → ((r : Reader) → Goes r (try r).1)
      → Total n (read_or_skip try store (skip_value n) msg)
  unfolding read_or_skip
  stored-Total try store msg g r small =
      Returns-attempt (try r) _ _ (g r) (λ a e. Returns-ok (store a) _)
        (skipped-Total msg (try r).1 (left_of n (g r) small))

  args_field-Total : (msg : Message) (count : ℕ) → Total n (args_field alloc n msg count)
  unfolding args_field
  args_field-Total msg count r small =
      rw (enough (count * value_size), and_false (ltb 0 count))
        (Total-bind n _ _ (args-Total n (decode_value alloc n) (decode_value-Total alloc n) count)
          (λ vs. Total-pure n (record msg { args = vs })) r small)

  field-Total : (key : List ℕ) (msg : Message) → Total n (field alloc n key msg)
  unfolding field
  field-Total key msg r small =
      Returns-if (bytes_eq key (text "id")) _ _
        (stored-Total try_read_int64 _ msg Goes-int64 r small)
        (Returns-if (bytes_eq key (text "type")) _ _
          (stored-Total try_read_str _ msg Goes-str r small)
          (Returns-if (bytes_eq key (text "func")) _ _
            (stored-Total try_read_str _ msg Goes-str r small)
            (Returns-if (bytes_eq key (text "args")) _ _
              (Returns-attempt (try_read_array_header r) _ _ (Goes-array_header r)
                (λ c e.
                  args_field-Total msg c (try_read_array_header r).1
                    (left_of n (Goes-array_header r) small))
                (skipped-Total msg (try_read_array_header r).1
                  (left_of n (Goes-array_header r) small)))
              (Returns-if (bytes_eq key (text "stream")) _ _
                (stored-Total try_read_bool _ msg Goes-bool r small)
                (Returns-if (bytes_eq key (text "result")) _ _
                  (result-Returns (decode_value alloc n r) msg (decode_value-Total alloc n r small))
                  (Returns-if (bytes_eq key (text "error_type")) _ _
                    (stored-Total try_read_str _ msg Goes-str r small)
                    (Returns-if (bytes_eq key (text "message")) _ _
                      (stored-Total try_read_str _ msg Goes-str r small)
                      (skipped-Total msg r small))))))))

  fields-Total : (count : ℕ) (msg : Message) → Total n (decode_fields alloc n count msg)
  unfolding decode_fields
  fields-Total zero msg r small = Returns-ok msg r
  fields-Total (suc count) msg r small =
      let g = Goes-str r in
      let small' = left_of n g small in
      Returns-attempt (try_read_str r) _ _ g
        (λ key e.
          Total-bind n (field alloc n key msg) _ (field-Total key msg)
            (λ m s k. Returns-if s.error _ _ (Returns-failed s) (fields-Total count m s k))
            (try_read_str r).1 small')
        (Total-bind n (skip_value n >> skip_value n) _
          (twice-Total n (skip_value n) (skip_value-Total n)) (λ _. fields-Total count msg)
          (try_read_str r).1 small')

finish-IsReturn : {r : Reader} (p : Outcome Message × Reader) → Returns r p → IsReturn (finish p)
unfolding finish
finish-IsReturn (ok msg, s) h = ground arith
finish-IsReturn (failed, s) h = tt
finish-IsReturn (crashed, s) h = h.returns
finish-IsReturn (out_of_fuel, s) h = h.returns

attempted-IsReturn :
    {A B : Type 0} (p : Option A × Reader) (found : A → Reader → Outcome B)
    (next : Reader → Outcome B)
    → ((a : A) → IsReturn (found a p.1))
    → IsReturn (next p.1)
    → IsReturn (attempt p found next)
attempted-IsReturn (some a, s) found next h k = h a
attempted-IsReturn (none, s) found next h k = k

-- Where every allocation succeeds, callwire_codec_decode returns on every payload: a message or -1,
-- within the fuel that the model gives it, and without a write through a null pointer.
pub codec_decode-IsReturn :
    (alloc : ℕ → Bool)
    → ((n : ℕ) → alloc n ≡ true)
    → (payload : List ℕ) → IsReturn (codec_decode alloc payload)
unfolding codec_decode init
codec_decode-IsReturn alloc enough payload =
    let start = init payload in
    let g = Goes-map_header start in
    attempted-IsReturn (try_read_map_header start) _ _
      (λ count. finish-IsReturn _ (
        fields-Total alloc enough (suc (length payload)) count empty_message
          (try_read_map_header start).1 (left_of (suc (length payload)) g (omega arith))))
      tt
