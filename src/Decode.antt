-- ===== src/Decode.antt =====
-- `decodeFromSolace`, `decodeFromSolaceMap`, `decodeFromSolaceStream` and `decodeFromSolaceContainer` of
-- src/solace.c. A result `none` is a null pointer; log lines are left out.
pub mod Numbers
pub mod Nulls
pub mod Types
mod Tests
use mathlib.Core.Option
use kdb_solace.Base.{ℕ, ◌%◌, Option, none, some, List, [], ◌∷◌, if◌then◌else◌, ℤ}
use kdb_solace.Memory.{Bytes}
use kdb_solace.CString.{c_string}
use kdb_solace.Kdb.{
  K, Ks, nil, cons, cons_null, symbol, symbols, list, dict, kb, kc, kh, ki, kj, ke, kf, kp,
}
use kdb_solace.Solclient.{is_ok}
use kdb_solace.Field.{
  Field, boolean, uint8, int8, uint16, int16, uint32, int32, uint64, int64, wchar, float32, float64,
  string, bytearray, map_of, stream_of, unknown, null, destination, smf, Fields, end, field,
  sign_extend,
}

-- What the last cases of the switch can get from the message: there is none below the top, or
-- `solClient_msg_getBinaryAttachmentPtr` gives a code and bytes.
pub data Attachment : Type 0 where
  no_message : Attachment
  attachment : ℤ → Bytes → Attachment

abbrev pub unknown_text : Bytes
unknown_text =
    b'U' ∷ b'N' ∷ b'K' ∷ b'N' ∷ b'O' ∷ b'W' ∷ b'N' ∷ b'_' ∷ b'D' ∷ b'A' ∷ b'T' ∷ b'A' ∷ b'_' ∷ b'T'
    ∷ b'Y' ∷ b'P' ∷ b'E' ∷ []

-- The attachment's bytes are the memory from the pointer on, of which `ks` reads up to a zero: an attachment
-- without one is followed by what lies behind it.
unfoldable pub decode_attachment : Attachment → Option K
unfolding c_string
decode_attachment no_message = none
decode_attachment (attachment rc bytes) = if is_ok rc then some (symbol (c_string bytes)) else none

-- `js(&keys, ss(name))` for each field of a map.
abbrev pub decode_names : Fields → List Bytes
decode_names end = []
decode_names (field name f fs) = name ∷ decode_names fs

-- The field of a message, if `solClient_msg_getBinaryAttachmentField` has set it; its code is not looked
-- at, and a field that was not set has whatever is there.
abbrev pub attached : Field → Option Field → Field
attached rest none = rest
attached rest (some f) = f

-- `jk` of an element that may be null.
abbrev pub cons_decoded : Option K → Ks → Ks
cons_decoded none xs = cons_null xs
cons_decoded (some x) xs = cons x xs

-- The conversions to float and on to double of the processor: of a 64-bit number and of a double.
module _ (float_of_uint64 float_of_double : ℕ → ℕ) where
  unfoldable mutual
    unfolding decode_attachment

    -- `decodeFromSolaceContainer`
    pub decode_field : Field → Attachment → Option K
    decode_field (boolean v) m = some (kb v)
    decode_field (uint8 v) m = some (ki v)
    decode_field (int8 v) m = some (kh (sign_extend 8 16 v))
    decode_field (uint16 v) m = some (ki v)
    decode_field (int16 v) m = some (ki (sign_extend 16 32 v))
    decode_field (uint32 v) m = some (kj (sign_extend 32 64 v))
    decode_field (int32 v) m = some (ki v)
    decode_field (uint64 v) m = some (kf (float_of_uint64 v))
    decode_field (int64 v) m = some (kj v)
    decode_field (wchar v) m = some (kc (v % 256))
    decode_field (string s) m = some (kp s)
    decode_field (bytearray s) m = none
    decode_field (float32 v) m = some (ke v)
    decode_field (float64 v) m = some (kf (float_of_double v))
    decode_field (map_of fs) m = some (dict (symbols (decode_names fs)) (list (decode_fields fs)))
    decode_field (stream_of fs) m = some (list (decode_fields fs))
    decode_field unknown m = some (kp unknown_text)
    decode_field null m = decode_attachment m
    decode_field destination m = decode_attachment m
    decode_field smf m = decode_attachment m

    -- The loops of `decodeFromSolaceMap` and `decodeFromSolaceStream`.
    pub decode_fields : Fields → Ks
    decode_fields end = nil
    decode_fields (field name f fs) = cons_decoded (decode_field f no_message) (decode_fields fs)

  -- `decodeFromSolace`
  unfoldable pub decode_from_solace : Field → Option Field → Attachment → Option K
  unfolding decode_field
  decode_from_solace rest got m = decode_field (attached rest got) m
