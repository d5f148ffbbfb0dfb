-- ===== src/Carried.antt =====
-- What an object of q is when it has been published and received: `encodeToSolaceContainer` and
-- `decodeFromSolaceContainer` of src/solace.c, one behind the other.
pub mod Streams
pub mod Store
pub mod Room
pub mod Sent
pub mod Fill
pub mod Columns
pub mod New
pub mod Flat
pub mod Whole
pub mod Arrive
pub mod Publish
pub mod Delivered
pub mod Payloads
pub mod Order
pub mod Cells
pub mod Broker
mod Tests
use mathlib.Core.Option
use kdb_solace.Base.{
  ℕ, ◌^◌, ◌%◌, ◌<◌, ◌≡◌, refl, sym, ap, false, Option, none, some, ◌==◌, if◌then◌else◌, arith,
}
use kdb_solace.Memory.{Bytes}
use kdb_solace.Kdb.{K, kb, ki, kj, ke, kf}
use kdb_solace.Kdb.Objects.{width}
use kdb_solace.Field.{
  Field, boolean, int16, int32, int64, float32, float64, string, Fields, end, field, sign_extend,
}
use kdb_solace.Container.{
  Item, add_string, add_char, add_double, add_float, add_int64, add_int32, add_int16, add_boolean,
}
use kdb_solace.Encode.{bits_item}
use kdb_solace.Decode.{no_message, decode_field}

-- The types of vectors in question. For a char the type of its field is not told.
pub data IsCarried : ℕ → Type 0 where
  booleans : IsCarried 1
  shorts : IsCarried 5
  ints : IsCarried 6
  longs : IsCarried 7
  reals : IsCarried 8
  floats : IsCarried 9
  timestamps : IsCarried 12
  months : IsCarried 13
  dates : IsCarried 14
  timespans : IsCarried 16
  minutes : IsCarried 17
  seconds : IsCarried 18
  times : IsCarried 19

-- The field that a container has for a call, as the client library describes it.
abbrev pub stored : Item → Option Field
stored (add_boolean v) = some (boolean (if v == 0 then 0 else 1))
stored (add_int16 v) = some (int16 v)
stored (add_int32 v) = some (int32 v)
stored (add_int64 v) = some (int64 v)
stored (add_float v) = some (float32 v)
stored (add_double v) = some (float64 v)
stored (add_string s) = some (string s)
stored (add_char v) = none

abbrev pub append_field : Fields → Bytes → Field → Fields
append_field end name f = field name f end
append_field (field name' f' fs) name f = field name' f' (append_field fs name f)

pub not_datetime : {t : ℕ} → IsCarried t → (t == 15) ≡ false
not_datetime booleans = refl
not_datetime shorts = refl
not_datetime ints = refl
not_datetime longs = refl
not_datetime reals = refl
not_datetime floats = refl
not_datetime timestamps = refl
not_datetime months = refl
not_datetime dates = refl
not_datetime timespans = refl
not_datetime minutes = refl
not_datetime seconds = refl
not_datetime times = refl

module _ (float_of_uint64 float_of_double : ℕ → ℕ) where
  -- What an element arrives as: a short as an int, a double by way of a float, and a date or a time as
  -- the number that it is stored as.
  abbrev pub arrives : {t : ℕ} → IsCarried t → ℕ → K
  arrives booleans v = kb (if v == 0 then 0 else 1)
  arrives shorts v = ki (sign_extend 16 32 v)
  arrives ints v = ki v
  arrives longs v = kj v
  arrives reals v = ke v
  arrives floats v = kf (float_of_double v)
  arrives timestamps v = kj v
  arrives months v = ki v
  arrives dates v = ki v
  arrives timespans v = kj v
  arrives minutes v = ki v
  arrives seconds v = ki v
  arrives times v = ki v

  -- The call, the field and the object for one element.
  pub record Way {t : ℕ} (c : IsCarried t) (v : ℕ) : Type 0 where
    pub item : Item
    pub calls : bits_item t v ≡ some item
    pub stays : Field
    pub stores : stored item ≡ some stays
    pub comes : decode_field float_of_uint64 float_of_double stays no_message ≡ some (arrives c v)

  int-Way :
      {t : ℕ} (c : IsCarried t) (v : ℕ)
      → bits_item t v ≡ some (add_int32 v)
      → arrives c v ≡ ki v
      → Way c v
  unfolding decode_field
  int-Way c v is same = record {
    item = add_int32 v;
    calls = is;
    stays = int32 v;
    stores = refl;
    comes = ap some (sym same);
  }

  long-Way :
      {t : ℕ} (c : IsCarried t) (v : ℕ)
      → bits_item t v ≡ some (add_int64 v)
      → arrives c v ≡ kj v
      → Way c v
  unfolding decode_field
  long-Way c v is same = record {
    item = add_int64 v;
    calls = is;
    stays = int64 v;
    stores = refl;
    comes = ap some (sym same);
  }

  pub way : {t : ℕ} (c : IsCarried t) (v : ℕ) → v < 2 ^ width t → Way c v
  unfolding bits_item decode_field
  way booleans v h = record {
    item = add_boolean (v % 2 ^ 8);
    calls = refl;
    stays = boolean (if v == 0 then 0 else 1);
    stores = ground arith;
    comes = refl;
  }
  way shorts v h = record {
    item = add_int16 v;
    calls = ground arith;
    stays = int16 v;
    stores = refl;
    comes = refl;
  }
  way reals v h = record {
    item = add_float v;
    calls = ground arith;
    stays = float32 v;
    stores = refl;
    comes = refl;
  }
  way floats v h = record {
    item = add_double v;
    calls = refl;
    stays = float64 v;
    stores = refl;
    comes = refl;
  }
  way longs v h = long-Way longs v refl refl
  way timestamps v h = long-Way timestamps v refl refl
  way timespans v h = long-Way timespans v refl refl
  way ints v h = int-Way ints v (ground arith) refl
  way months v h = int-Way months v (ground arith) refl
  way dates v h = int-Way dates v (ground arith) refl
  way minutes v h = int-Way minutes v (ground arith) refl
  way seconds v h = int-Way seconds v (ground arith) refl
  way times v h = int-Way times v (ground arith) refl
