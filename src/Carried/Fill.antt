-- ===== src/Carried/Fill.antt =====
-- `encodeKdbAtomToSolaceContainer`, `encodeKdbVectorToSolaceContainer` and
-- `encodeKdbDictionaryToSolaceContainer` of src/solace.c on what can be sent.
use kdb_solace.Base.{
  ℕ, ◌+◌, ◌^◌, ◌<◌, ◌≡◌, refl, ap, ◌∙◌, subst, Option, none, some, List, [], ◌∷◌, ◌++◌,
  append_assoc, length, length-append, get_elem?-behind, arith, ℤ,
}
use kdb_solace.Memory.{Bytes}
use kdb_solace.Kdb.{K, symbols, vector}
use kdb_solace.Kdb.Objects.{width, HaveBits}
use kdb_solace.Solclient.{solclient_ok}
use kdb_solace.Field.{Field, Fields, end}
use kdb_solace.Container.{Containers, Item, add_string}
use kdb_solace.Encode.{
  Encoder, Result, and_then, add, call, bits_item, element_item, encode_element, encode_elements,
}
use kdb_solace.Carried.{
  IsCarried, booleans, shorts, ints, longs, reals, floats, timestamps, months, dates, timespans,
  minutes, seconds, times, not_datetime, stored,
}
use kdb_solace.Carried.Store.{Kind, a_stream, IsNamed, with_name, append_fields, Store}
use kdb_solace.Carried.Room.{
  HasRoom, before-HasRoom, behind-HasRoom, nothing-Filled, then-Filled, item-Filled, Fills,
}
use kdb_solace.Carried.Sent.{number_field, number_fields, symbol_fields, unnamed}

-- The call for a number has its field.
pub number_item :
    {t : ℕ} (c : IsCarried t) (v : ℕ)
    → v < 2 ^ width t
    → (a : Item) × (bits_item t v ≡ some a) × (stored a ≡ some (number_field t v))
unfolding bits_item
number_item booleans v h = (_, refl, ground arith)
number_item shorts v h = (_, refl, ground arith)
number_item reals v h = (_, refl, ground arith)
number_item floats v h = (_, refl, refl)
number_item longs v h = (_, refl, refl)
number_item timestamps v h = (_, refl, refl)
number_item timespans v h = (_, refl, refl)
number_item ints v h = (_, refl, ground arith)
number_item months v h = (_, refl, ground arith)
number_item dates v h = (_, refl, ground arith)
number_item minutes v h = (_, refl, ground arith)
number_item seconds v h = (_, refl, ground arith)
number_item times v h = (_, refl, ground arith)

-- From an index on, the elements of a vector have calls for these fields.
abbrev pub Picks : K → ℕ → List Field → Type 0
Picks x i [] = Unit {0}
Picks x i (f ∷ fs) =
    ((a : Item) × (element_item x i ≡ call a) × (stored a ≡ some f)) × Picks x (i + 1) fs

pub numbers-Picks :
    {t : ℕ} (c : IsCarried t) (pre vs : List ℕ)
    → HaveBits (width t) vs
    → Picks (vector t (pre ++ vs)) (length pre) (number_fields t vs)
unfolding element_item
numbers-Picks c pre [] h = tt
numbers-Picks {t} c pre (v ∷ vs) (h, hs) =
    let (a, is, stays) = number_item c v h in
    (
      (a, simp (not_datetime c, get_elem?-behind pre v vs, is), stays),
      subst (λ i. Picks (vector t (pre ++ (v ∷ vs))) i (number_fields t vs))
          (length-append pre (v ∷ []))
          (subst (λ xs. Picks (vector t xs) (length (pre ++ (v ∷ []))) (number_fields t vs))
            (append_assoc pre (v ∷ []) vs) (numbers-Picks c (pre ++ (v ∷ [])) vs hs)),
    )

pub symbols-Picks :
    (pre ss : List Bytes) → Picks (symbols (pre ++ ss)) (length pre) (symbol_fields ss)
unfolding element_item
symbols-Picks pre [] = tt
symbols-Picks pre (s ∷ ss) = (
  (add_string s, simp (get_elem?-behind pre s ss), refl),
  subst (λ i. Picks (symbols (pre ++ (s ∷ ss))) i (symbol_fields ss)) (length-append pre (s ∷ []))
      (subst (λ xs. Picks (symbols xs) (length (pre ++ (s ∷ []))) (symbol_fields ss))
        (append_assoc pre (s ∷ []) ss) (symbols-Picks (pre ++ (s ∷ [])) ss)),
)

module _ (api : Containers) (store : Store api) where
  open api use {World, Handle, add_item}
  open store use {IsOpen}

  -- A state in which the library may go on to fill a container with these fields.
  abbrev pub IsReady : Kind → Handle → Encoder api → Fields → Type 0
  IsReady k h e fs = (e.rc ≡ solclient_ok) × HasRoom api store k h e.world fs

  pub done-Fills :
      (k : Kind) (h : Handle) (e : Encoder api)
      → IsReady k h e end
      → Fills api store (some (solclient_ok, e)) h e.world end
  done-Fills k h e (fine, r) = record {
    last = e;
    gives = refl;
    global_ok = fine;
    filled = nothing-Filled api store h e.world r.is_open;
  }

  pub then-Fills :
      {m : Result api} (next_call : ℤ → Encoder api → Result api) {k : Kind} {h : Handle}
      {e : Encoder api} (fs gs : Fields)
      → IsReady k h e (append_fields fs gs)
      → (IsReady k h e fs → Fills api store m h e.world fs)
      → ((e : Encoder api)
          → IsReady k h e gs
          → Fills api store (next_call solclient_ok e) h e.world gs)
      → Fills api store (and_then api m next_call) h e.world (append_fields fs gs)
  then-Fills {m} next_call {k} {h} {e} fs gs (fine, r) first next =
      let a = first (fine, before-HasRoom api store fs gs r) in
      let b = next a.last (a.global_ok, behind-HasRoom api store fs gs r a.filled) in
      record {
        last = b.last;
        gives = ap (λ r. and_then api r next_call) a.gives ∙ b.gives;
        global_ok = b.global_ok;
        filled = then-Filled api store a.filled b.filled;
      }

  pub add-Fills :
      (k : Kind) (a : Item) (name : Option Bytes) (h : Handle) (e : Encoder api) (f : Field)
      → IsNamed k name
      → stored a ≡ some f
      → IsReady k h e (with_name name f)
      → Fills api store (add api a name h e) h e.world (with_name name f)
  add-Fills k a name h e f named stays (fine, r) =
      let (rc, w) = add_item h a name e.world in
      let (ok, filled) = item-Filled api store k h a name e.world f r named stays in
      record {
        last = record e { world = w };
        gives = ap (λ rc. some (rc, record e { world = w })) ok;
        global_ok = fine;
        filled = filled;
      }

  pub encode_element-Fills :
      (k : Kind) (x : K) (i : ℕ) (name : Option Bytes) (a : Item) (f : Field) (h : Handle)
      (e : Encoder api)
      → IsNamed k name
      → element_item x i ≡ call a
      → stored a ≡ some f
      → IsReady k h e (with_name name f)
      → Fills api store (encode_element api x name i h e) h e.world (with_name name f)
  unfolding encode_element
  encode_element-Fills k x i name a f h e named is stays ready =
      rw is (add-Fills k a name h e f named stays ready)

  pub encode_elements-Fills :
      (x : K) (fs : List Field) (i : ℕ) (h : Handle) (e : Encoder api)
      → Picks x i fs
      → IsReady a_stream h e (unnamed fs)
      → Fills api store (encode_elements api x (length fs) i h e) h e.world (unnamed fs)
  unfolding encode_elements
  encode_elements-Fills x [] i h e picks ready = done-Fills a_stream h e ready
  encode_elements-Fills x (f ∷ fs) i h e ((a, is, stays), picks) ready =
      then-Fills _ (with_name none f) (unnamed fs) ready
        (encode_element-Fills a_stream x i none a f h e tt is stays)
        λ e' ready'. encode_elements-Fills x fs (i + 1) h e' picks ready'
