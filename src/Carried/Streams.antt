-- ===== src/Carried/Streams.antt =====
-- A whole vector through a stream, from `encodeToSolaceContainer` to `decodeFromSolaceStream` of src/solace.c.
use kdb_solace.Base.{ℕ, ◌≡◌, refl, sym, ap, ◌∙◌, none, some, List, [], ◌∷◌, map}
use kdb_solace.Kdb.{vector, of_list}
use kdb_solace.Kdb.Objects.{width, HaveBits}
use kdb_solace.Solclient.{solclient_ok}
use kdb_solace.Field.{Field, Fields, end, field}
use kdb_solace.Container.{Containers, Item}
use kdb_solace.Encode.{Encoder, encode}
use kdb_solace.Encode.Vectors.{items_of, add_all, Takes, encode-add_all}
use kdb_solace.Decode.{decode_field, decode_fields}
use kdb_solace.Carried.{IsCarried, not_datetime, stored, append_field, arrives, way}

module _ (float_of_uint64 float_of_double : ℕ → ℕ) where
  -- The fields of calls, one for each and without names.
  data AreStored : List Item → Fields → Type 0 where
    no_items : AreStored [] end
    one_more :
        {a : Item} {f : Field} {items : List Item} {fs : Fields}
        → stored a ≡ some f
        → AreStored items fs
        → AreStored (a ∷ items) (field [] f fs)

  record Ways {t : ℕ} (c : IsCarried t) (vs : List ℕ) : Type 0 where
    pub items : List Item
    pub calls : items_of t vs ≡ some items
    pub fields : Fields
    pub stores : AreStored items fields
    pub come :
        decode_fields float_of_uint64 float_of_double fields
        ≡ of_list (map (arrives float_of_uint64 float_of_double c) vs)

  ways : {t : ℕ} (c : IsCarried t) (vs : List ℕ) → HaveBits (width t) vs → Ways c vs
  unfolding decode_field
  ways c [] h = record { items = []; calls = refl; fields = end; stores = no_items; come = refl }
  ways {t} c (v ∷ vs) (h, hs) =
      let p = way float_of_uint64 float_of_double c v h in
      let q = ways c vs hs in
      record {
        items = p.item ∷ q.items;
        calls = rw (p.calls, q.calls) refl;
        fields = field [] p.stays q.fields;
        stores = one_more p.stores q.stores;
        come = rw (p.comes, q.come) refl;
      }

  module _ (api : Containers) (contents : api.Handle → api.World → Fields) where
    open api use {World, Handle, add_item}

    -- A call appends its field.
    abbrev pub Keeps : Type 0
    Keeps =
        (h : Handle) (a : Item) (w : World) (f : Field)
        → stored a ≡ some f
        → contents h (add_item h a none w).1 ≡ append_field (contents h w) [] f

    abbrev append_fields : Fields → Fields → Fields
    append_fields end gs = gs
    append_fields (field name f fs) gs = field name f (append_fields fs gs)

    append_field-fields :
        (fs : Fields) (f : Field) (gs : Fields)
        → append_fields (append_field fs [] f) gs ≡ append_fields fs (field [] f gs)
    append_field-fields end f gs = refl
    append_field-fields (field name g fs) f gs = ap (field name g) (append_field-fields fs f gs)

    append_fields-end : (fs : Fields) → append_fields fs end ≡ fs
    append_fields-end end = refl
    append_fields-end (field name f fs) = ap (field name f) (append_fields-end fs)

    contents-add_all :
        (items : List Item) (fs : Fields) (h : Handle) (w : World)
        → Keeps
        → AreStored items fs
        → contents h (add_all api items h w) ≡ append_fields (contents h w) fs
    contents-add_all _ _ h w keeps no_items = sym (append_fields-end (contents h w))
    contents-add_all _ _ h w keeps (one_more {a} {f} {items} {fs} stays s) =
        contents-add_all items fs h (add_item h a none w).1 keeps s
        ∙ ap (λ q. append_fields q fs) (keeps h a w f stays)
        ∙ append_field-fields (contents h w) f fs

    -- If the client library takes everything and a call appends its field to a stream, a vector of numbers
    -- is encoded into an empty stream with the code OK, and the fields that the stream then has are decoded
    -- to its elements, one for each and in their order, each as `arrives` says.
    pub decode-encode :
        {t : ℕ} (c : IsCarried t) (vs : List ℕ) (h : Handle) (e : Encoder api)
        → Takes api
        → Keeps
        → HaveBits (width t) vs
        → contents h e.world ≡ end
        → (e' : Encoder api) × (encode api (vector t vs) h e ≡ some (solclient_ok, e'))
          × (decode_fields float_of_uint64 float_of_double (contents h e'.world)
              ≡ of_list (map (arrives float_of_uint64 float_of_double c) vs))
    decode-encode {t} c vs h e takes keeps bits empty =
        let q = ways c vs bits in
        (
          record e { world = add_all api q.items h e.world },
          encode-add_all api t vs q.items h e takes (not_datetime c) q.calls,
          ap (decode_fields float_of_uint64 float_of_double) (
                contents-add_all q.items q.fields h e.world keeps q.stores
                ∙ ap (λ fs. append_fields fs q.fields) empty)
              ∙ q.come,
        )
