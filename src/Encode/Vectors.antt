-- ===== src/Encode/Vectors.antt =====
-- Vectors through `encodeToSolaceContainer` of src/solace.c.
use kdb_solace.Base.{
  ℕ, suc, ◌+◌, ◌≡◌, ap, sym, ◌∙◌, false, Option, none, some, List, [], ◌∷◌, ◌++◌, append_assoc,
  ◌==◌, Option-cases, inl, inr, length, length-append, get_elem?, get_elem?-behind, arith,
}
use kdb_solace.Memory.{Bytes}
use kdb_solace.Kdb.{vector}
use kdb_solace.Solclient.{solclient_ok}
use kdb_solace.Container.{Containers, Item}
use kdb_solace.Encode.{
  Encoder, bits_item, element_item, encode_element, encode_elements, encode_vector, encode,
}

-- The calls for the elements, if there is one for each.
abbrev pub cons_item : Option Item → Option (List Item) → Option (List Item)
cons_item none rest = none
cons_item (some a) none = none
cons_item (some a) (some rest) = some (a ∷ rest)

abbrev pub items_of : ℕ → List ℕ → Option (List Item)
items_of t [] = some []
items_of t (v ∷ vs) = cons_item (bits_item t v) (items_of t vs)

module _ (api : Containers) where
  open api use {World, Handle, add_item}

  -- The calls made one after the other.
  abbrev pub add_all : List Item → Handle → World → World
  add_all [] h w = w
  add_all (a ∷ rest) h w = add_all rest h (add_item h a none w).1

  -- The client library takes everything.
  abbrev pub Takes : Type 0
  Takes =
      (h : Handle) (a : Item) (name : Option Bytes) (w : World)
      → (add_item h a name w).0 ≡ solclient_ok

  encode_elements-step :
      (t v i r : ℕ) (xs : List ℕ) (a : Item) (h : Handle) (e : Encoder api)
      → Takes
      → (t == 15) ≡ false
      → get_elem? xs i ≡ some v
      → bits_item t v ≡ some a
      → encode_elements api (vector t xs) (suc r) i h e
        ≡ encode_elements api
            (vector t xs)
            r
            (i + 1)
            h
            (record e { world = (add_item h a none e.world).1 })
  unfolding encode_elements encode_element element_item
  encode_elements-step t v i r xs a h e takes t15 at item = simp (t15, at, item, takes)

  encode_elements-add_all :
      (t : ℕ) (pre vs : List ℕ) (items : List Item) (h : Handle) (e : Encoder api)
      → Takes
      → (t == 15) ≡ false
      → items_of t vs ≡ some items
      → encode_elements api (vector t (pre ++ vs)) (length vs) (length pre) h e
        ≡ some (solclient_ok, record e { world = add_all items h e.world })
  encode_elements-add_all t pre [] items h e takes t15 good =
      let same : [] ≡ items = ground (arith, good) in
      unfold encode_elements in
      ap (λ q. some (solclient_ok, record e { world = add_all q h e.world })) same
  encode_elements-add_all t pre (v ∷ vs) items h e takes t15 good =
      elim (Option-cases (bits_item t v)) [
        | inl bad ↦ absurd (ground (arith, bad))
        | inr (a, item) ↦ elim (Option-cases (items_of t vs)) [
          | inl bad ↦ absurd (ground (arith, bad, item))
          | inr (rest, others) ↦
              let e' : Encoder api = record e { world = (add_item h a none e.world).1 } in
              let same : a ∷ rest ≡ items = ground (arith, good, item, others) in
              let next =
                encode_elements-add_all t (pre ++ (v ∷ [])) vs rest h e' takes t15 others in
              encode_elements-step t v (length pre) (length vs) (pre ++ (v ∷ vs)) a h e takes t15
                (get_elem?-behind pre v vs) item
              ∙ ap (λ xs. encode_elements api (vector t xs) (length vs) (length pre + 1) h e')
                  (sym (append_assoc pre (v ∷ []) vs))
              ∙ ap
                  (λ i. encode_elements api (vector t ((pre ++ (v ∷ [])) ++ vs)) (length vs) i h e')
                  (sym (length-append pre (v ∷ [])))
              ∙ next
              ∙ ap (λ q. some (solclient_ok, record e { world = add_all q h e.world })) same
        ]
      ]

  -- If the client library takes everything, a vector of a type that is no datetime, and each element of
  -- which has a call, is encoded by these calls, one for each element and in their order, and the code is OK.
  pub encode-add_all :
      (t : ℕ) (vs : List ℕ) (items : List Item) (h : Handle) (e : Encoder api)
      → Takes
      → (t == 15) ≡ false
      → items_of t vs ≡ some items
      → encode api (vector t vs) h e
        ≡ some (solclient_ok, record e { world = add_all items h e.world })
  unfolding encode encode_vector
  encode-add_all t vs items h e takes t15 good =
      encode_elements-add_all t [] vs items h e takes t15 good
