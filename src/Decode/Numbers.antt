-- ===== src/Decode/Numbers.antt =====
-- Which number a field holds, and which one q gets for it from src/solace.c.
use kdb_solace.Base.{
  ℕ, ◌-◌, ◌^◌, ◌≤◌, ◌<◌, ◌≡◌, Option, none, some, ◌==◌, ltb, if◌then◌else◌, arith, ℤ, pos, negsuc,
}
use kdb_solace.Kdb.{K, atom}
use kdb_solace.Field.{Field, uint8, int8, uint16, int16, uint32, int32, int64}
use kdb_solace.Decode.{Attachment, decode_field}

-- Two's complement in `w` bits.
abbrev pub signed : ℕ → ℕ → ℤ
signed w v = if ltb v (2 ^ (w - 1)) then pos v else negsuc (2 ^ w - v - 1)

-- The number in a field, but for one of 64 bits without a sign.
abbrev pub field_number : Field → Option ℤ
field_number (uint8 v) = some (pos v)
field_number (int8 v) = some (signed 8 v)
field_number (uint16 v) = some (pos v)
field_number (int16 v) = some (signed 16 v)
field_number (uint32 v) = some (pos v)
field_number (int32 v) = some (signed 32 v)
field_number (int64 v) = some (signed 64 v)
field_number _ = none

-- A number's bits fit the field, and one of 32 bits without a sign fits an int.
abbrev pub IsInRange : Field → Type 0
IsInRange (uint8 v) = v < 2 ^ 8
IsInRange (int8 v) = v < 2 ^ 8
IsInRange (uint16 v) = v < 2 ^ 16
IsInRange (int16 v) = v < 2 ^ 16
IsInRange (uint32 v) = v < 2 ^ 31
IsInRange (int32 v) = v < 2 ^ 32
IsInRange (int64 v) = v < 2 ^ 64
IsInRange _ = Unit {0}

-- The number in a short, an int or a long of q.
abbrev pub q_number : Option K → Option ℤ
q_number (some (atom t v)) =
    if t == 5
    then some (signed 16 v)
    else if t == 6
    then some (signed 32 v)
    else if t == 7
    then some (signed 64 v)
    else none
q_number _ = none

module _ (float_of_uint64 float_of_double : ℕ → ℕ) where
  -- An integer field is decoded to a q number of the same value, if it is not one of 64 bits without a
  -- sign, and not one of 32 bits without a sign from 2 ^ 31 on.
  pub q_number-decode_field :
      (f : Field) (m : Attachment) (z : ℤ)
      → IsInRange f
      → field_number f ≡ some z
      → q_number (decode_field float_of_uint64 float_of_double f m) ≡ some z
  unfolding decode_field
  q_number-decode_field (uint8 v) m z h e = ground (arith, e)
  q_number-decode_field (int8 v) m z h e = ground (arith, e)
  q_number-decode_field (uint16 v) m z h e = ground (arith, e)
  q_number-decode_field (int16 v) m z h e = ground (arith, e)
  q_number-decode_field (uint32 v) m z h e = ground (arith, e)
  q_number-decode_field (int32 v) m z h e = ground (arith, e)
  q_number-decode_field (int64 v) m z h e = ground (arith, e)
  q_number-decode_field _ m z h e = absurd cc

  -- A field of 32 bits without a sign from 2 ^ 31 on is decoded to a negative long, less by 2 ^ 32.
  pub q_number-uint32 :
      (v : ℕ) (m : Attachment)
      → 2 ^ 31 ≤ v
      → v < 2 ^ 32
      → q_number (decode_field float_of_uint64 float_of_double (uint32 v) m)
        ≡ some (negsuc (2 ^ 32 - v - 1))
  unfolding decode_field
  q_number-uint32 v m h h' = ground arith
