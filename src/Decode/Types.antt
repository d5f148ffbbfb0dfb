-- ===== src/Decode/Types.antt =====
-- Which values src/solace.c decodes to objects of q.
use kdb_solace.Base.{
  ℕ, suc, ◌^◌, ◌<◌, ◌≡◌, refl, sym, ap, ◌∙◌, Bool, true, false, ◌&&◌, Option, none, some, length,
  arith,
}
use kdb_solace.Kdb.{K, Ks, list_size}
use kdb_solace.Kdb.Objects.{IsObject, AreObjects, HaveBits}
use kdb_solace.Field.{
  Field, boolean, uint8, int8, uint16, int16, uint32, int32, uint64, int64, wchar, float32, float64,
  string, bytearray, map_of, stream_of, unknown, null, destination, smf, Fields, end, field,
}
use kdb_solace.Decode.{
  Attachment, no_message, decode_names, decode_field, decode_fields, cons_decoded,
}
use kdb_solace.Decode.Nulls.{has_value, have_values}

-- The numbers and the bytes of a field have the bits of its type.
unfoldable mutual
  pub IsRanged : Field → Type 0
  IsRanged (boolean v) = v < 2 ^ 8
  IsRanged (uint8 v) = v < 2 ^ 8
  IsRanged (int8 v) = v < 2 ^ 8
  IsRanged (uint16 v) = v < 2 ^ 16
  IsRanged (int16 v) = v < 2 ^ 16
  IsRanged (uint32 v) = v < 2 ^ 32
  IsRanged (int32 v) = v < 2 ^ 32
  IsRanged (uint64 v) = v < 2 ^ 64
  IsRanged (int64 v) = v < 2 ^ 64
  IsRanged (wchar v) = v < 2 ^ 32
  IsRanged (float32 v) = v < 2 ^ 32
  IsRanged (float64 v) = v < 2 ^ 64
  IsRanged (string s) = HaveBits 8 s
  IsRanged (bytearray s) = HaveBits 8 s
  IsRanged (map_of fs) = AreRanged fs
  IsRanged (stream_of fs) = AreRanged fs
  IsRanged _ = Unit {0}

  pub AreRanged : Fields → Type 0
  AreRanged end = Unit {0}
  AreRanged (field name f fs) = IsRanged f × AreRanged fs

-- An object of q, and no null pointer.
abbrev pub IsSomeObject : Option K → Type 0
IsSomeObject none = ⊥
IsSomeObject (some x) = IsObject x

both : (a b : Bool) → (a && b) ≡ true → (a ≡ true) × (b ≡ true)
both true b h = (refl, h)
both false b h = absurd cc

AreObjects-cons_decoded :
    (x : Option K) (xs : Ks) → IsSomeObject x → AreObjects xs → AreObjects (cons_decoded x xs)
unfolding IsObject
AreObjects-cons_decoded none xs o os = absurd o
AreObjects-cons_decoded (some x) xs o os = (o, os)

module _ (float_of_uint64 float_of_double : ℕ → ℕ) where
  list_size-cons_decoded :
      (x : Option K) (xs : Ks) → list_size (cons_decoded x xs) ≡ suc (list_size xs)
  list_size-cons_decoded none xs = refl
  list_size-cons_decoded (some x) xs = refl

  list_size-decode_fields :
      (fs : Fields)
      → length (decode_names fs) ≡ list_size (decode_fields float_of_uint64 float_of_double fs)
  unfolding decode_field
  list_size-decode_fields end = refl
  list_size-decode_fields (field name f fs) =
      ap suc (list_size-decode_fields fs)
      ∙ sym (
          list_size-cons_decoded (decode_field float_of_uint64 float_of_double f no_message)
            (decode_fields float_of_uint64 float_of_double fs))

  -- What stands beside such a field in a message is not read.
  pub decode_field-no_message :
      (f : Field) (m : Attachment)
      → has_value f ≡ true
      → decode_field float_of_uint64 float_of_double f m
        ≡ decode_field float_of_uint64 float_of_double f no_message
  unfolding decode_field has_value
  decode_field-no_message null m h = absurd cc
  decode_field-no_message destination m h = absurd cc
  decode_field-no_message smf m h = absurd cc
  decode_field-no_message f m h = refl

  module _ (uint64_bits : (v : ℕ) → float_of_uint64 v < 2 ^ 64)
      (double_bits : (v : ℕ) → float_of_double v < 2 ^ 64) where
    mutual
      unfolding decode_field has_value IsRanged IsObject

      typed_field :
          (f : Field)
          → IsRanged f
          → has_value f ≡ true
          → IsSomeObject (decode_field float_of_uint64 float_of_double f no_message)
      typed_field (boolean v) r h = r
      typed_field (uint8 v) r h = omega arith
      typed_field (int8 v) r h = ground arith
      typed_field (uint16 v) r h = omega arith
      typed_field (int16 v) r h = ground arith
      typed_field (uint32 v) r h = ground arith
      typed_field (int32 v) r h = r
      typed_field (uint64 v) r h = uint64_bits v
      typed_field (int64 v) r h = r
      typed_field (wchar v) r h = omega arith
      typed_field (float32 v) r h = r
      typed_field (float64 v) r h = double_bits v
      typed_field (string s) r h = r
      typed_field (map_of fs) r h = (tt, typed_fields fs r h, list_size-decode_fields fs)
      typed_field (stream_of fs) r h = typed_fields fs r h
      typed_field unknown r h = ground arith
      typed_field (bytearray s) r h = absurd cc
      typed_field null r h = absurd cc
      typed_field destination r h = absurd cc
      typed_field smf r h = absurd cc

      typed_fields :
          (fs : Fields)
          → AreRanged fs
          → have_values fs ≡ true
          → AreObjects (decode_fields float_of_uint64 float_of_double fs)
      typed_fields end r h = tt
      typed_fields (field name f fs) r h =
          let (a, b) = both (has_value f) (have_values fs) h in
          AreObjects-cons_decoded (decode_field float_of_uint64 float_of_double f no_message)
            (decode_fields float_of_uint64 float_of_double fs) (typed_field f r.0 a)
            (typed_fields fs r.1 b)

    -- Below the top, a field with the bits of its type, in which no byte array, null, destination or
    -- message stands, is decoded to an object of q: its numbers have the bits of their q types, no pointer is
    -- null, and a dictionary has as many values as keys. The conversions to double give 64 bits.
    pub decode_field-IsObject :
        (f : Field)
        → IsRanged f
        → has_value f ≡ true
        → IsSomeObject (decode_field float_of_uint64 float_of_double f no_message)
    decode_field-IsObject f r h = typed_field f r h
