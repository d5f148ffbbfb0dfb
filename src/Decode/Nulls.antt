-- ===== src/Decode/Nulls.antt =====
-- Null pointers in what src/solace.c decodes.
use kdb_solace.Base.{ℕ, ◌≡◌, refl, ◌∙◌, ap₂, Bool, true, false, ◌&&◌, Option, none, some}
use kdb_solace.Kdb.{K, Ks, nil, cons, cons_null, list, table, dict}
use kdb_solace.Field.{
  Field, bytearray, map_of, stream_of, null, destination, smf, Fields, end, field,
}
use kdb_solace.Decode.{no_message, decode_field, decode_fields, cons_decoded}

-- No object below an object is null.
unfoldable mutual
  pub whole : K → Bool
  whole (list xs) = whole_list xs
  whole (table x) = whole x
  whole (dict k v) = whole k && whole v
  whole _ = true

  pub whole_list : Ks → Bool
  whole_list nil = true
  whole_list (cons x xs) = whole x && whole_list xs
  whole_list (cons_null xs) = false

abbrev pub whole_option : Option K → Bool
whole_option none = false
whole_option (some x) = whole x

-- The types that q has a value for.
unfoldable mutual
  pub has_value : Field → Bool
  has_value (map_of fs) = have_values fs
  has_value (stream_of fs) = have_values fs
  has_value (bytearray s) = false
  has_value null = false
  has_value destination = false
  has_value smf = false
  has_value _ = true

  pub have_values : Fields → Bool
  have_values end = true
  have_values (field name f fs) = has_value f && have_values fs

whole_list-cons_decoded :
    (x : Option K) (xs : Ks) → whole_list (cons_decoded x xs) ≡ whole_option x && whole_list xs
unfolding whole_list
whole_list-cons_decoded none xs = refl
whole_list-cons_decoded (some x) xs = refl

module _ (float_of_uint64 float_of_double : ℕ → ℕ) where
  mutual
    unfolding decode_field whole has_value

    whole-field :
        (f : Field)
        → whole_option (decode_field float_of_uint64 float_of_double f no_message) ≡ has_value f
    whole-field (map_of fs) = whole-fields fs
    whole-field (stream_of fs) = whole-fields fs
    whole-field _ = refl

    whole-fields :
        (fs : Fields)
        → whole_list (decode_fields float_of_uint64 float_of_double fs) ≡ have_values fs
    whole-fields end = refl
    whole-fields (field name f fs) =
        whole_list-cons_decoded (decode_field float_of_uint64 float_of_double f no_message)
          (decode_fields float_of_uint64 float_of_double fs)
        ∙ ap₂ (λ a b. a && b) (whole-field f) (whole-fields fs)

  -- Below the top, a field is decoded to an object without null pointers if and only if no byte array,
  -- null, destination or message stands anywhere in it.
  pub whole-decode_field :
      (f : Field)
      → whole_option (decode_field float_of_uint64 float_of_double f no_message) ≡ has_value f
  whole-decode_field f = whole-field f
