-- ===== src/Carried/Columns.antt =====
-- `encodeKdbDictionaryToSolaceContainer` of src/solace.c on the values of a dictionary.
use kdb_solace.Base.{
  ℕ, suc, ◌+◌, ◌^◌, ◌<◌, ◌≡◌, refl, sym, ap, ◌∙◌, subst, Option, some, List, [], ◌∷◌, length, arith,
  if_elim,
}
use kdb_solace.Memory.{Bytes}
use kdb_solace.Kdb.{K, Ks, nil, cons, atom, symbol, symbols, vector, list, dict, list_size, size}
use kdb_solace.Kdb.Objects.{width, HaveBits}
use kdb_solace.Solclient.{solclient_ok}
use kdb_solace.Field.{Field, end, field}
use kdb_solace.Container.{Containers, Item, add_string}
use kdb_solace.Encode.{
  Encoder, call, atom_item, element_item, is_fail, list_element, encode_atom, encode_entry,
  encode_entries, encode_dictionary, encode_elements, encode_vector,
}
use kdb_solace.Carried.{IsCarried, not_datetime, stored}
use kdb_solace.Carried.Store.{Kind, a_map, a_stream, IsNamed, with_name, Store}
use kdb_solace.Carried.Room.{Fills}
use kdb_solace.Carried.Sent.{
  AreValues, IsColumn, number_field, number_fields, symbol_fields, value_fields, column_fields,
  unnamed, named,
}
use kdb_solace.Carried.Fill.{
  number_item, Picks, numbers-Picks, symbols-Picks, IsReady, done-Fills, then-Fills, add-Fills,
  encode_element-Fills, encode_elements-Fills,
}

-- An atom of a number.
pub atom_number :
    {t : ℕ} (c : IsCarried t) (v : ℕ)
    → v < 2 ^ width t
    → (a : Item) × (atom_item (atom t v) ≡ some a) × (stored a ≡ some (number_field t v))
unfolding atom_item
atom_number c v h = let (a, is, stays) = number_item c v h in (a, simp (not_datetime c, is), stays)

-- The value at an index has a call for this field.
abbrev Entry : K → ℕ → Field → Type 0
Entry (list xs) i f =
    (x : K) × (a : Item) × (list_element xs i ≡ some x)
    × (atom_item x ≡ some a)
    × (stored a ≡ some f)
Entry (vector t vs) i f = (a : Item) × (element_item (vector t vs) i ≡ call a) × (stored a ≡ some f)
Entry (symbols ss) i f = (a : Item) × (element_item (symbols ss) i ≡ call a) × (stored a ≡ some f)
Entry _ i f = ⊥

abbrev Entries : K → ℕ → List Field → Type 0
Entries values i [] = Unit {0}
Entries values i (f ∷ fs) = Entry values i f × Entries values (i + 1) fs

numbers-Entries :
    (t : ℕ) (vs : List ℕ) (i : ℕ) (fs : List Field)
    → Picks (vector t vs) i fs
    → Entries (vector t vs) i fs
numbers-Entries t vs i [] h = tt
numbers-Entries t vs i (f ∷ fs) (h, hs) = (h, numbers-Entries t vs (i + 1) fs hs)

symbols-Entries :
    (ss : List Bytes) (i : ℕ) (fs : List Field)
    → Picks (symbols ss) i fs
    → Entries (symbols ss) i fs
symbols-Entries ss i [] h = tt
symbols-Entries ss i (f ∷ fs) (h, hs) = (h, symbols-Entries ss (i + 1) fs hs)

behind-Entries :
    (y : K) (xs : Ks) (i : ℕ) (fs : List Field)
    → Entries (list xs) i fs
    → Entries (list (cons y xs)) (i + 1) fs
behind-Entries y xs i [] h = tt
behind-Entries y xs i (f ∷ fs) ((x, a, at, is, stays), hs) =
    let next : i + 1 ≡ suc i = omega arith in
    ((x, a, ap (list_element (cons y xs)) next ∙ at, is, stays), behind-Entries y xs (i + 1) fs hs)

values-Entries : (xs : Ks) → AreValues xs → Entries (list xs) 0 (value_fields xs)
unfolding atom_item
values-Entries nil h = tt
values-Entries (cons (atom t v) xs) (c, bits, h) =
    let (a, is, stays) = atom_number c v bits in
    (
      (atom t v, a, refl, is, stays),
      behind-Entries (atom t v) xs 0 (value_fields xs) (values-Entries xs h),
    )
values-Entries (cons (symbol s) xs) h = (
  (symbol s, add_string s, refl, refl, refl),
  behind-Entries (symbol s) xs 0 (value_fields xs) (values-Entries xs h),
)
values-Entries _ h = absurd h

column-Entries : (n : ℕ) (v : K) → IsColumn n v → Entries v 0 (column_fields v)
column-Entries n (vector t vs) (size, c, bits) =
    numbers-Entries t vs 0 (number_fields t vs) (numbers-Picks c [] vs bits)
column-Entries n (symbols ss) size = symbols-Entries ss 0 (symbol_fields ss) (symbols-Picks [] ss)
column-Entries n (list xs) (size, h) = values-Entries xs h
column-Entries n _ h = absurd h

pub length-number_fields : (t : ℕ) (vs : List ℕ) → length (number_fields t vs) ≡ length vs
length-number_fields t [] = refl
length-number_fields t (v ∷ vs) = ap suc (length-number_fields t vs)

pub length-symbol_fields : (ss : List Bytes) → length (symbol_fields ss) ≡ length ss
length-symbol_fields [] = refl
length-symbol_fields (s ∷ ss) = ap suc (length-symbol_fields ss)

length-value_fields : (xs : Ks) → AreValues xs → length (value_fields xs) ≡ list_size xs
length-value_fields nil h = refl
length-value_fields (cons (atom t v) xs) (c, bits, h) = ap suc (length-value_fields xs h)
length-value_fields (cons (symbol s) xs) h = ap suc (length-value_fields xs h)
length-value_fields _ h = absurd h

pub length-column_fields : (n : ℕ) (v : K) → IsColumn n v → length (column_fields v) ≡ n
length-column_fields n (vector t vs) (size, c, bits) = length-number_fields t vs ∙ size
length-column_fields n (symbols ss) size = length-symbol_fields ss ∙ size
length-column_fields n (list xs) (size, h) = length-value_fields xs h ∙ size
length-column_fields n _ h = absurd h

module _ (api : Containers) (store : Store api) where
  open api use {World, Handle}

  pub encode_atom-Fills :
      (k : Kind) (x : K) (name : Option Bytes) (a : Item) (f : Field) (h : Handle) (e : Encoder api)
      → IsNamed k name
      → atom_item x ≡ some a
      → stored a ≡ some f
      → IsReady api store k h e (with_name name f)
      → Fills api store (encode_atom api x name h e) h e.world (with_name name f)
  unfolding encode_atom
  encode_atom-Fills k x name a f h e named is stays ready =
      rw is (add-Fills api store k a name h e f named stays ready)

  encode_entry-Fills :
      (values : K) (name : Bytes) (i : ℕ) (f : Field) (h : Handle) (e : Encoder api)
      → Entry values i f
      → IsReady api store a_map h e (field name f end)
      → Fills api store (encode_entry api values name i h e) h e.world (field name f end)
  encode_entry-Fills (list xs) name i f h e (x, a, at, is, stays) ready =
      rw at (encode_atom-Fills a_map x (some name) a f h e tt is stays ready)
  encode_entry-Fills (vector t vs) name i f h e (a, is, stays) ready =
      encode_element-Fills api store a_map (vector t vs) i (some name) a f h e tt is stays ready
  encode_entry-Fills (symbols ss) name i f h e (a, is, stays) ready =
      encode_element-Fills api store a_map (symbols ss) i (some name) a f h e tt is stays ready
  encode_entry-Fills _ name i f h e c ready = absurd c

  encode_entries-Fills :
      (names : List Bytes) (values : K) (fs : List Field) (i : ℕ) (h : Handle) (e : Encoder api)
      → length fs ≡ length names
      → Entries values i fs
      → IsReady api store a_map h e (named names fs)
      → Fills api store (encode_entries api names values i h e) h e.world (named names fs)
  unfolding encode_entries
  encode_entries-Fills [] values [] i h e size c ready =
      subst (λ rc. Fills api store (some (rc, e)) h e.world end) (sym ready.0)
        (done-Fills api store a_map h e ready)
  encode_entries-Fills [] values (f ∷ fs) i h e size c ready = absurd (omega (arith, size))
  encode_entries-Fills (name ∷ names) values [] i h e size c ready = absurd (omega (arith, size))
  encode_entries-Fills (name ∷ names) values (f ∷ fs) i h e size (c, cs) ready =
      then-Fills api store _ (field name f end) (named names fs) ready
        (encode_entry-Fills values name i f h e c)
        λ e' ready'.
          encode_entries-Fills names values fs (i + 1) h (record e' { rc = solclient_ok })
            (omega (arith, size)) cs (refl, ready'.1)

  -- What stands in the maps and streams for dictionaries and vectors.
  pub encode_vector-dict :
      (names : List Bytes) (values : K) (h : Handle) (e : Encoder api)
      → IsColumn (length names) values
      → IsReady api store a_map h e (named names (column_fields values))
      → Fills api store
          (encode_vector api (dict (symbols names) values) h e)
          h
          e.world
          (named names (column_fields values))
  unfolding encode_vector encode_dictionary
  encode_vector-dict names values h e c ready =
      if_elim (λ r. Fills api store r h e.world (named names (column_fields values))) (is_fail e.rc)
        _ _ (λ bad. absurd (cc (bad, ap is_fail ready.0)))
        λ ok.
          (encode_entries-Fills names values (column_fields values) 0 h e
            (length-column_fields (length names) values c) (column-Entries (length names) values c)
            ready)

  pub encode_vector-numbers :
      {t : ℕ} (c : IsCarried t) (vs : List ℕ) (h : Handle) (e : Encoder api)
      → HaveBits (width t) vs
      → IsReady api store a_stream h e (unnamed (number_fields t vs))
      → Fills api store
          (encode_vector api (vector t vs) h e)
          h
          e.world
          (unnamed (number_fields t vs))
  unfolding encode_vector
  encode_vector-numbers {t} c vs h e bits ready =
      subst
        (λ r.
          Fills api store (encode_elements api (vector t vs) r 0 h e) h e.world
            (unnamed (number_fields t vs)))
        (length-number_fields t vs)
        (encode_elements-Fills api store (vector t vs) (number_fields t vs) 0 h e
          (numbers-Picks c [] vs bits) ready)

  pub encode_vector-symbols :
      (ss : List Bytes) (h : Handle) (e : Encoder api)
      → IsReady api store a_stream h e (unnamed (symbol_fields ss))
      → Fills api store (encode_vector api (symbols ss) h e) h e.world (unnamed (symbol_fields ss))
  unfolding encode_vector
  encode_vector-symbols ss h e ready =
      subst
        (λ r.
          Fills api store (encode_elements api (symbols ss) r 0 h e) h e.world
            (unnamed (symbol_fields ss)))
        (length-symbol_fields ss)
        (encode_elements-Fills api store (symbols ss) (symbol_fields ss) 0 h e (symbols-Picks [] ss)
          ready)
