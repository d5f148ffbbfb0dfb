-- ===== src/Decode/Tests.antt =====
-- Decoded messages; the two conversions stand for any, and the floats are not looked at.
use kdb_solace.Base.{ℕ, true, ◌%◌, ◌-◌, ◌^◌, ◌≡◌, refl, some, [], ◌∷◌, arith, negsuc}
use kdb_solace.Kdb.{symbols, list, dict, nil, cons, cons_null, kb, ki, kp}
use kdb_solace.Field.{
  Field, boolean, int8, int16, uint32, string, bytearray, map_of, stream_of, end, field,
}
use kdb_solace.Decode.{no_message, decode_field}
use kdb_solace.Decode.Numbers.{q_number, q_number-decode_field, q_number-uint32}
use kdb_solace.Decode.Types.{IsRanged, IsSomeObject, decode_field-IsObject}
use kdb_solace.Decode.Nulls.{whole_option, has_value, whole-decode_field}

abbrev same : ℕ → ℕ
same v = v

abbrev first_bit : ℕ → ℕ
first_bit v = v % 2

abbrev order : Field
order = stream_of (
    field [] (int16 65535) (
      field [] (map_of (field (b'a' ∷ []) (boolean 1) (field (b'b' ∷ []) (bytearray (7 ∷ [])) end)))
        (field [] (string (b'x' ∷ [])) end)))

decode_order :
    decode_field same same order no_message
    ≡ some (
        list (
          cons (ki (2 ^ 32 - 1)) (
            cons
              (dict (symbols ((b'a' ∷ []) ∷ (b'b' ∷ []) ∷ [])) (list (cons (kb 1) (cons_null nil))))
              (cons (kp (b'x' ∷ [])) nil))))
unfolding decode_field
decode_order = refl

q_number-decode_field_example :
    q_number (decode_field same same (int8 255) no_message) ≡ some (negsuc 0)
q_number-decode_field_example =
    q_number-decode_field same same (int8 255) no_message (negsuc 0) (omega arith) refl

q_number-uint32_example :
    q_number (decode_field same same (uint32 (2 ^ 32 - 2)) no_message)
    ≡ some (negsuc (2 ^ 32 - (2 ^ 32 - 2) - 1))
q_number-uint32_example =
    q_number-uint32 same same (2 ^ 32 - 2) no_message (omega arith) (omega arith)

whole-decode_field_example :
    whole_option (decode_field same same order no_message) ≡ has_value order
whole-decode_field_example = whole-decode_field same same order

abbrev trade : Field
trade = map_of (
    field (b'p' ∷ []) (int16 65535)
      (field (b'q' ∷ []) (stream_of (field [] (string (b'x' ∷ [])) end)) end))

trade-IsRanged : IsRanged trade
unfolding IsRanged
trade-IsRanged = ground arith

trade-has_value : has_value trade ≡ true
unfolding has_value
trade-has_value = refl

decode_field-IsObject_example : IsSomeObject (decode_field first_bit first_bit trade no_message)
decode_field-IsObject_example =
    decode_field-IsObject first_bit first_bit (λ v. omega arith) (λ v. omega arith) trade
      trade-IsRanged trade-has_value
