-- ===== src/Encode/Items.antt =====
-- The switches of `encodeKdbAtomToSolaceContainer` and `encodeKdbVectorElementToSolaceContainer` of
-- src/solace.c: which call of a container is made for a value.
use kdb_solace.Base.{
  ℕ, ◌*◌, ◌/◌, ◌%◌, ◌^◌, ◌||◌, Bool, Option, none, some, ◌==◌, if◌then◌else◌, get_elem?,
}
use kdb_solace.Memory.{Bytes}
use kdb_solace.Kdb.{K, atom, symbol, symbols, vector}
use kdb_solace.Container.{
  Item, add_string, add_char, add_double, add_float, add_int64, add_int32, add_int16, add_boolean,
}

-- The types whose values are 64-bit numbers, and 32-bit numbers.
abbrev pub is_long : ℕ → Bool
is_long t = t == 7 || t == 12 || t == 16

abbrev pub is_int : ℕ → Bool
is_int t = t == 6 || t == 13 || t == 14 || t == 17 || t == 18 || t == 19

-- The call for bits of type t; both switches have these cases, but for the float of a datetime.
unfoldable pub bits_item : ℕ → ℕ → Option Item
bits_item t v =
    if t == 10
    then some (add_char (v % 2 ^ 8))
    else if t == 9
    then some (add_double v)
    else if t == 8
    then some (add_float (v % 2 ^ 32))
    else if is_long t
    then some (add_int64 v)
    else if is_int t
    then some (add_int32 (v % 2 ^ 32))
    else if t == 5
    then some (add_int16 (v % 2 ^ 16))
    else if t == 1
    then some (add_boolean (v % 2 ^ 8))
    else none

-- The switch of `encodeKdbAtomToSolaceContainer`: a datetime's `x->e` is the low half of its double.
unfoldable pub atom_item : K → Option Item
unfolding bits_item
atom_item (symbol s) = some (add_string s)
atom_item (atom t v) = if t == 15 then some (add_float (v % 2 ^ 32)) else bits_item t v
atom_item _ = none

-- `kE(x)[i]` of a vector of doubles.
abbrev pub half_of : ℕ → Option ℕ → Option Item
half_of i none = none
half_of i (some v) = some (add_float (v / 2 ^ (32 * (i % 2)) % 2 ^ 32))

-- What the switch of `encodeKdbVectorElementToSolaceContainer` finds: a call, no case, or no element.
pub data Pick : Type 0 where
  call : Item → Pick
  no_case no_element : Pick

abbrev pub picked : Option Item → Pick
picked none = no_case
picked (some a) = call a

abbrev pub picked_bits : ℕ → Option ℕ → Pick
picked_bits t none = no_element
picked_bits t (some v) = picked (bits_item t v)

abbrev pub picked_half : Option Item → Pick
picked_half none = no_element
picked_half (some a) = call a

abbrev pub picked_symbol : Option Bytes → Pick
picked_symbol none = no_element
picked_symbol (some s) = call (add_string s)

unfoldable pub element_item : K → ℕ → Pick
unfolding bits_item
element_item (symbols ss) i = picked_symbol (get_elem? ss i)
element_item (vector t vs) i =
    if t == 15
    then picked_half (half_of i (get_elem? vs (i / 2)))
    else picked_bits t (get_elem? vs i)
element_item _ i = no_case
