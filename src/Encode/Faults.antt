-- ===== src/Encode/Faults.antt =====
-- Which memory `encodeToSolaceContainer` of src/solace.c and its callees read.
pub mod Whole
use mathlib.Core.Option
use kdb_solace.Base.{
  ℕ, zero, suc, ◌+◌, ◌/◌, ◌<◌, ◌≤◌, ◌≡◌, ◌≢◌, refl, Option, none, some, List, [], ◌∷◌, ◌==◌,
  Bool-cases, inl, inr, length, get_elem?, if_elim, arith, ℤ,
}
use kdb_solace.Memory.{Bytes}
use kdb_solace.Kdb.{
  K, Ks, nil, cons, cons_null, atom, symbol, symbols, vector, list, table, dict, other, size,
  list_size,
}
use kdb_solace.Kdb.Objects.{IsObject, AreObjects, ArePaired, AreAsMany}
use kdb_solace.Container.{Containers, Item}
use kdb_solace.Encode.{
  Encoder, Result, and_then, add_any, add_picked, Pick, call, no_case, no_element, picked,
  bits_item, atom_item, element_item, is_fail, list_element, encode_atom, encode_element,
  encode_entry, encode_entries, encode_dictionary, encode_elements, encode_vector,
}

get_elem?-length :
    {A : Type 0} (xs : List A) (i : ℕ) → i < length xs → (x : A) × (get_elem? xs i ≡ some x)
get_elem?-length [] i h = absurd (omega arith)
get_elem?-length (x ∷ xs) zero h = (x, refl)
get_elem?-length (x ∷ xs) (suc i) h = get_elem?-length xs i (omega arith)

picked-ne-no_element : (a : Option Item) → picked a ≢ no_element
picked-ne-no_element none e = cc
picked-ne-no_element (some a) e = cc

-- An index below `x->n` is one of an element.
element_item-size : (x : K) (i : ℕ) → i < size x → element_item x i ≢ no_element
unfolding element_item
element_item-size (symbols ss) i h = let (s, at) = get_elem?-length ss i h in rw at λ e. cc
element_item-size (vector t vs) i h =
    if_elim (λ p. p ≢ no_element) (t == 15) _ _
      (λ half. let (v, at) = get_elem?-length vs (i / 2) (omega arith) in rw at λ e. cc)
      (λ other'.
        let (v, at) = get_elem?-length vs i h in rw at (picked-ne-no_element (bits_item t v)))
element_item-size _ i h = λ e. cc

-- An index below the length is one of an element that is no null pointer, if none is.
list_element-size :
    (xs : Ks) (i : ℕ) → AreObjects xs → i < list_size xs → (x : K) × (list_element xs i ≡ some x)
unfolding IsObject
list_element-size nil i o h = absurd (omega arith)
list_element-size (cons x xs) zero o h = (x, refl)
list_element-size (cons x xs) (suc i) o h = list_element-size xs i o.1 (omega arith)
list_element-size (cons_null xs) i o h = absurd o

-- An index can be read in the values of a dictionary, or nothing is read there.
abbrev CanRead : K → ℕ → Type 0
CanRead (list xs) i = AreObjects xs × (i < list_size xs)
CanRead (symbols ss) i = i < length ss
CanRead (vector t vs) i = i < length vs
CanRead _ i = Unit {0}

-- No fault.
abbrev pub Done : {A : Type 0} → Option A → Type 0
Done r = r ≢ none

pub some-Done : {A : Type 0} (a : A) → Done (some a)
some-Done a e = cc

pub map-Done : {A B : Type 0} (f : A → B) (m : Option A) → Done m → Done (Option.map f m)
map-Done f none h = absurd (h refl)
map-Done f (some a) h = some-Done _

module _ (api : Containers) where
  open api use {World, Handle, null_handle, create_map, create_stream, add_item, add_container}

  pub and_then-Done :
      (m : Result api) (k : ℤ → Encoder api → Result api)
      → Done m
      → ((rc : ℤ) (e : Encoder api) → Done (k rc e))
      → Done (and_then api m k)
  and_then-Done none k h g = absurd (h refl)
  and_then-Done (some r) k h g = g r.0 r.1

  add_any-Done :
      (a : Option Item) (name : Option Bytes) (h : Handle) (e : Encoder api)
      → Done (add_any api a name h e)
  add_any-Done none name h e = some-Done _
  add_any-Done (some a) name h e = some-Done _

  pub encode_atom-Done :
      (x : K) (name : Option Bytes) (h : Handle) (e : Encoder api)
      → Done (encode_atom api x name h e)
  unfolding encode_atom
  encode_atom-Done x name h e = add_any-Done (atom_item x) name h e

  add_picked-Done :
      (p : Pick) (name : Option Bytes) (h : Handle) (e : Encoder api)
      → p ≢ no_element
      → Done (add_picked api p name h e)
  add_picked-Done (call a) name h e ok = some-Done _
  add_picked-Done no_case name h e ok = some-Done _
  add_picked-Done no_element name h e ok = absurd (ok refl)

  encode_element-Done :
      (x : K) (name : Option Bytes) (i : ℕ) (h : Handle) (e : Encoder api)
      → element_item x i ≢ no_element
      → Done (encode_element api x name i h e)
  unfolding encode_element
  encode_element-Done x name i h e ok = add_picked-Done (element_item x i) name h e ok

  encode_entry-Done :
      (values : K) (name : Bytes) (i : ℕ) (h : Handle) (e : Encoder api)
      → CanRead values i
      → Done (encode_entry api values name i h e)
  encode_entry-Done (list xs) name i h e (o, below) =
      let (x, at) = list_element-size xs i o below in rw at (encode_atom-Done x (some name) h e)
  encode_entry-Done (atom t v) name i h e ok = some-Done _
  encode_entry-Done (symbol s) name i h e ok = some-Done _
  encode_entry-Done (symbols ss) name i h e ok =
      encode_element-Done (symbols ss) (some name) i h e (element_item-size (symbols ss) i ok)
  encode_entry-Done (vector t vs) name i h e ok =
      encode_element-Done (vector t vs) (some name) i h e (element_item-size (vector t vs) i ok)
  encode_entry-Done (dict k v) name i h e ok =
      encode_element-Done (dict k v) (some name) i h e (unfold element_item in λ e. cc)
  encode_entry-Done (table x) name i h e ok =
      encode_element-Done (table x) (some name) i h e (unfold element_item in λ e. cc)
  encode_entry-Done (other c n) name i h e ok =
      encode_element-Done (other c n) (some name) i h e (unfold element_item in λ e. cc)

  encode_entries-Done :
      (names : List Bytes) (values : K) (i : ℕ) (h : Handle) (e : Encoder api)
      → ((j : ℕ) → j < i + length names → CanRead values j)
      → Done (encode_entries api names values i h e)
  unfolding encode_entries
  encode_entries-Done [] values i h e ok = some-Done _
  encode_entries-Done (name ∷ names) values i h e ok =
      and_then-Done (encode_entry api values name i h e) _
        (encode_entry-Done values name i h e (ok i (omega arith)))
        (λ rc e'.
          encode_entries-Done names values (i + 1) h (record e' { rc = rc })
            (λ j below. ok j (omega arith)))

  as_many-CanRead :
      (n : ℕ) (values : K)
      → IsObject values
      → AreAsMany n values
      → (j : ℕ) → j < n
      → CanRead values j
  unfolding IsObject
  as_many-CanRead n (list xs) o same j below = (o, omega arith)
  as_many-CanRead n (symbols ss) o same j below = omega arith
  as_many-CanRead n (vector t vs) o same j below = omega arith
  as_many-CanRead n _ o same j below = tt

  encode_dictionary-Done :
      (keys values : K) (h : Handle) (e : Encoder api)
      → IsObject values
      → ArePaired keys values
      → Done (encode_dictionary api keys values h e)
  unfolding encode_dictionary
  encode_dictionary-Done (symbols names) values h e o same =
      if_elim Done (is_fail e.rc) _ _ (λ bad. some-Done _)
        (λ ok.
          encode_entries-Done names values 0 h e
            (λ j below. as_many-CanRead (length names) values o same j (omega arith)))
  encode_dictionary-Done _ values h e o same = some-Done _

  encode_elements-Done :
      (x : K) (r i : ℕ) (h : Handle) (e : Encoder api)
      → i + r ≤ size x
      → Done (encode_elements api x r i h e)
  unfolding encode_elements
  encode_elements-Done x zero i h e ok = some-Done _
  encode_elements-Done x (suc r) i h e ok =
      and_then-Done (encode_element api x none i h e) _
        (encode_element-Done x none i h e (element_item-size x i (omega arith)))
        (λ rc e'. elim (Bool-cases (is_fail rc)) [
          | inl bad ↦ rw bad (some-Done _)
          | inr fine ↦ rw fine (encode_elements-Done x r (i + 1) h e' (omega arith))
        ])

  pub encode_vector-Done :
      (x : K) (h : Handle) (e : Encoder api) → IsObject x → Done (encode_vector api x h e)
  unfolding encode_vector IsObject
  encode_vector-Done (dict keys values) h e o = encode_dictionary-Done keys values h e o.1 o.2
  encode_vector-Done (table x) h e o = some-Done _
  encode_vector-Done x h e o = encode_elements-Done x (size x) 0 h e (omega arith)
