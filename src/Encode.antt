-- ===== src/Encode.antt =====
-- `encodeToSolaceContainer` of src/solace.c and the functions that it calls. A result `none` is an access
-- to memory that is not there; buffers for containers are left out.
pub mod Items
pub mod Codes
pub mod Faults
pub mod Vectors
mod Tests
unfoldable pub use kdb_solace.Encode.Items.{bits_item, atom_item, element_item}
pub use kdb_solace.Encode.Items.{
  is_long, is_int, half_of, picked, picked_bits, picked_half, picked_symbol, Pick, call, no_case,
  no_element,
}
use mathlib.Core.Option
use kdb_solace.Base.{
  ℕ, zero, suc, ◌+◌, Bool, true, false, Option, none, some, List, [], ◌∷◌, if◌then◌else◌, ℤ, ◌+ℤ◌,
  eqb_ℤ,
}
use kdb_solace.Memory.{Bytes}
use kdb_solace.Kdb.{size, K, Ks, nil, cons, cons_null, atom, symbol, symbols, list, table, dict}
use kdb_solace.Solclient.{solclient_ok, solclient_fail}
use kdb_solace.Container.{Item, Containers}

-- `sizeof map`, the memory for a container that is created.
abbrev pub container_size : ℕ
container_size = 1024

-- An element of a general list that is no null pointer.
abbrev pub list_element : Ks → ℕ → Option K
list_element nil i = none
list_element (cons x xs) zero = some x
list_element (cons_null xs) zero = none
list_element (cons x xs) (suc i) = list_element xs i
list_element (cons_null xs) (suc i) = list_element xs i

abbrev pub is_fail : ℤ → Bool
is_fail rc = eqb_ℤ rc solclient_fail

module _ (api : Containers) where
  open api use {World, Handle, null_handle, create_map, create_stream, add_item, add_container}

  -- The global `rc` of src/solace.c and the client library.
  pub record Encoder : Type 0 where
    pub rc : ℤ
    pub world : World

  abbrev pub Result : Type 0
  Result = Option (ℤ × Encoder)

  abbrev pub and_then : Result → (ℤ → Encoder → Result) → Result
  and_then none k = none
  and_then (some r) k = k r.0 r.1

  abbrev pub add : Item → Option Bytes → Handle → Encoder → Result
  add a name h e = let r = add_item h a name e.world in some (r.0, record e { world = r.1 })

  abbrev pub add_any : Option Item → Option Bytes → Handle → Encoder → Result
  add_any none name h e = some (solclient_fail, e)
  add_any (some a) name h e = add a name h e

  abbrev pub add_picked : Pick → Option Bytes → Handle → Encoder → Result
  add_picked (call a) name h e = add a name h e
  add_picked no_case name h e = some (solclient_fail, e)
  add_picked no_element name h e = none

  -- `encodeKdbAtomToSolaceContainer`
  unfoldable pub encode_atom : K → Option Bytes → Handle → Encoder → Result
  unfolding atom_item
  encode_atom x name h e = add_any (atom_item x) name h e

  -- `encodeKdbVectorElementToSolaceContainer`
  unfoldable pub encode_element : K → Option Bytes → ℕ → Handle → Encoder → Result
  unfolding element_item
  encode_element x name i h e = add_picked (element_item x i) name h e

  -- One round of the loop of `encodeKdbDictionaryToSolaceContainer`: what the global code becomes.
  abbrev pub encode_value : Option K → Bytes → Handle → Encoder → Result
  encode_value none name h e = none
  encode_value (some x) name h e = encode_atom x (some name) h e

  abbrev pub encode_entry : K → Bytes → ℕ → Handle → Encoder → Result
  encode_entry (list vs) name i h e = encode_value (list_element vs i) name h e
  encode_entry (atom t v) name i h e = some (e.rc, e)
  encode_entry (symbol s) name i h e = some (e.rc, e)
  encode_entry values name i h e = encode_element values (some name) i h e

  unfoldable pub encode_entries : List Bytes → K → ℕ → Handle → Encoder → Result
  encode_entries [] values i h e = some (e.rc, e)
  encode_entries (name ∷ names) values i h e =
      and_then (encode_entry values name i h e)
        (λ rc e'. encode_entries names values (i + 1) h (record e' { rc = rc }))

  -- `encodeKdbDictionaryToSolaceContainer`. It tests the global `rc`, as the code before left it.
  unfoldable pub encode_dictionary : K → K → Handle → Encoder → Result
  unfolding encode_entries
  encode_dictionary (symbols names) values h e =
      if is_fail e.rc then some (e.rc, e) else encode_entries names values 0 h e
  encode_dictionary _ values h e = some (solclient_fail, e)

  abbrev pub unless : Bool → Encoder → (Encoder → Result) → Result
  unless true e k = some (solclient_fail, e)
  unless false e k = k e

  -- The loop of `encodeKdbVectorToSolaceContainer` from index i on, r elements being left.
  unfoldable pub encode_elements : K → ℕ → ℕ → Handle → Encoder → Result
  unfolding encode_element
  encode_elements x zero i h e = some (solclient_ok, e)
  encode_elements x (suc r) i h e =
      and_then (encode_element x none i h e)
        (λ rc e'. unless (is_fail rc) e' (λ e''. encode_elements x r (i + 1) h e''))

  -- `encodeKdbVectorToSolaceContainer`
  unfoldable pub encode_vector : K → Handle → Encoder → Result
  unfolding encode_dictionary encode_elements
  encode_vector (dict keys values) h e = encode_dictionary keys values h e
  encode_vector (table x) h e = some (solclient_fail, e)
  encode_vector x h e = encode_elements x (size x) 0 h e

  -- A new container, its code and the pointer to it are for what follows.
  abbrev pub with_new : ℤ × (Handle × World) → Encoder → (ℤ → Handle → Encoder → Result) → Result
  with_new (rc, (h, w)) e k = k rc h (record e { world = w })

  -- `rc += solClient_container_addContainer(h, new, NULL)`
  abbrev pub add_new : ℤ → Handle → Handle → Encoder → Result
  add_new rc h new e =
      let r = add_container h new e.world in some (rc +ℤ r.0, record e { world = r.1 })

  -- `encodeKdbPrimitiveToSolaceContainer`. The type of a general list is not positive.
  abbrev pub encode_primitive : K → Handle → Encoder → Result
  encode_primitive (atom t v) h e = encode_atom (atom t v) none h e
  encode_primitive (symbol s) h e = encode_atom (symbol s) none h e
  encode_primitive (list xs) h e = encode_atom (list xs) none h e
  encode_primitive x h e = encode_vector x h e

  -- A dictionary at the top: a map, filled and added.
  unfoldable pub encode_map : K → Handle → Encoder → Result
  encode_map x h e =
      with_new (create_map null_handle container_size e.world) e
        λ rc new e'. and_then (encode_primitive x new e') λ rc' e''. add_new (rc +ℤ rc') h new e''

  -- An element of positive type; `last` is the pointer as the element before left it.
  unfoldable pub encode_inner :
      K → ℤ × (Handle × World) → Handle → Encoder → Option ((ℤ × Handle) × Encoder)
  unfolding encode_vector
  encode_inner x created h e =
      let (rc, (new, w)) = created in
      Option.map (λ r. ((r.0, new), r.1))
        (and_then (encode_vector x new (record e { world = w })) (λ rc' e'. add_new rc' h new e'))

  -- An element of a general list that is no general list itself.
  unfoldable pub encode_flat : K → Handle → Handle → Encoder → Option ((ℤ × Handle) × Encoder)
  unfolding encode_atom encode_inner
  encode_flat (atom t v) last h e =
      Option.map (λ r. ((r.0, last), r.1)) (encode_atom (atom t v) none h e)
  encode_flat (symbol s) last h e =
      Option.map (λ r. ((r.0, last), r.1)) (encode_atom (symbol s) none h e)
  encode_flat (dict k v) last h e =
      encode_inner (dict k v) (create_map last container_size e.world) h e
  encode_flat x last h e = encode_inner x (create_stream last container_size e.world) h e

  abbrev pub and_next : Option ((ℤ × Handle) × Encoder) → (ℤ → Handle → Encoder → Result) → Result
  and_next none k = none
  and_next (some r) k = k r.0.0 r.0.1 r.1

  -- The loop of `encodeToSolaceContainer` over a general list. Each round overwrites the code.
  unfoldable pub encode_list : Ks → ℤ → Handle → Handle → Encoder → Result
  unfolding encode_flat
  encode_list nil rc last h e = some (rc, e)
  encode_list (cons_null xs) rc last h e = none
  encode_list (cons (list ys) xs) rc last h e =
      with_new (create_stream null_handle container_size e.world) e λ rc' new e'.
        and_then (encode_list ys solclient_fail null_handle new e') λ rc'' e''.
          let r = add_container h new e''.world in
          encode_list xs r.0 last h (record e'' { world = r.1 })
  encode_list (cons x xs) rc last h e =
      and_next (encode_flat x last h e) (λ rc' last' e'. encode_list xs rc' last' h e')

  -- `encodeToSolaceContainer`
  unfoldable pub encode : K → Handle → Encoder → Result
  unfolding encode_map encode_list
  encode (dict k v) h e = encode_map (dict k v) h e
  encode (list xs) h e = encode_list xs solclient_fail null_handle h e
  encode x h e = encode_primitive x h e
