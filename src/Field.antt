-- ===== src/Field.antt =====
-- The fields of a message (`solClient_field_t` of include/solclient/solClientMsg.h) as the library reads
-- and adds them. A number is its bits; a map or a stream is the fields that its container still has.
use kdb_solace.Base.{ℕ, ◌+◌, ◌-◌, ◌^◌, ltb, if◌then◌else◌}
use kdb_solace.Memory.{Bytes}

mutual
  pub data Field : Type 0 where
    boolean uint8 int8 uint16 int16 uint32 int32 uint64 int64 wchar float32 float64 : ℕ → Field
    string bytearray : Bytes → Field
    map_of stream_of : Fields → Field
    unknown null destination smf : Field

  -- Fields with their names; those of a stream have none, and the name is not looked at.
  pub data Fields : Type 0 where
    end : Fields
    field : Bytes → Field → Fields → Fields

-- A signed number of `w` bits in `w'` bits.
abbrev pub sign_extend : ℕ → ℕ → ℕ → ℕ
sign_extend w w' v = if ltb v (2 ^ (w - 1)) then v else v + (2 ^ w' - 2 ^ w)
