-- ===== src/Container.antt =====
-- The containers of solclient (include/solclient/solClientMsg.h) that the library fills, as a parameter.
use kdb_solace.Base.{ℕ, ℤ, Option}
use kdb_solace.Memory.{Bytes}

-- A call of `solClient_container_addString`, `addChar`, `addDouble` and so on, with the value's bits.
pub data Item : Type 0 where
  add_string : Bytes → Item
  add_char add_double add_float add_int64 add_int32 add_int16 add_boolean : ℕ → Item

-- A call takes the state of the client library and gives a code and the next state. Those that create a
-- container take the pointer to store it in and the size of the memory that it may take, and give what
-- the pointer then is.
pub record Containers : Type 1 where
  pub World : Type 0
  pub Handle : Type 0
  pub null_handle : Handle
  pub create_map : Handle → ℕ → World → ℤ × (Handle × World)
  pub create_stream : Handle → ℕ → World → ℤ × (Handle × World)
  pub add_item : Handle → Item → Option Bytes → World → ℤ × World
  pub add_container : Handle → Handle → World → ℤ × World
