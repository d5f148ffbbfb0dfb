-- ===== src/Encode/Faults/Whole.antt =====
-- Dictionaries and general lists through `encodeToSolaceContainer` of src/solace.c.
use kdb_solace.Encode.{container_size}
use kdb_solace.Base.{◌≢◌, refl, Option, none, some, ℤ}
use kdb_solace.Kdb.{K, Ks, nil, cons, cons_null, atom, symbol, list, dict}
use kdb_solace.Kdb.Objects.{IsObject, AreObjects}
use kdb_solace.Solclient.{solclient_fail}
use kdb_solace.Container.{Containers}
use kdb_solace.Encode.{
  Encoder, Result, and_then, and_next, encode_vector, encode_primitive, encode_map, encode_inner,
  encode_flat, encode_list, encode,
}
use kdb_solace.Encode.Faults.{
  Done, some-Done, map-Done, and_then-Done, encode_atom-Done, encode_vector-Done,
}

module _ (api : Containers) where
  open api use {World, Handle, null_handle, create_map, create_stream, add_item, add_container}

  encode_primitive-Done :
      (x : K) (h : Handle) (e : Encoder api) → IsObject x → Done (encode_primitive api x h e)
  encode_primitive-Done (atom t v) h e o = encode_atom-Done api (atom t v) none h e
  encode_primitive-Done (symbol s) h e o = encode_atom-Done api (symbol s) none h e
  encode_primitive-Done (list xs) h e o = encode_atom-Done api (list xs) none h e
  encode_primitive-Done x h e o = encode_vector-Done api x h e o

  encode_map-Done :
      (x : K) (h : Handle) (e : Encoder api) → IsObject x → Done (encode_map api x h e)
  unfolding encode_map
  encode_map-Done x h e o =
      let (rc, (new, w)) = create_map null_handle container_size e.world in
      and_then-Done api (encode_primitive api x new (record e { world = w })) _
        (encode_primitive-Done x new (record e { world = w }) o) (λ rc' e'. some-Done _)

  encode_inner-Done :
      (x : K) (created : ℤ × (Handle × World)) (h : Handle) (e : Encoder api)
      → IsObject x
      → Done (encode_inner api x created h e)
  unfolding encode_inner
  encode_inner-Done x (rc, (new, w)) h e o =
      map-Done _ (and_then api (encode_vector api x new (record e { world = w })) _) (
        and_then-Done api (encode_vector api x new (record e { world = w })) _
          (encode_vector-Done api x new (record e { world = w }) o) (λ rc' e'. some-Done _))

  encode_flat-Done :
      (x : K) (last h : Handle) (e : Encoder api) → IsObject x → Done (encode_flat api x last h e)
  unfolding encode_flat
  encode_flat-Done (atom t v) last h e o =
      map-Done (λ r. ((r.0, last), r.1)) _ (encode_atom-Done api (atom t v) none h e)
  encode_flat-Done (symbol s) last h e o =
      map-Done (λ r. ((r.0, last), r.1)) _ (encode_atom-Done api (symbol s) none h e)
  encode_flat-Done (dict k v) last h e o =
      encode_inner-Done (dict k v) (create_map last container_size e.world) h e o
  encode_flat-Done x last h e o =
      encode_inner-Done x (create_stream last container_size e.world) h e o

  and_next-Done :
      (m : Option ((ℤ × Handle) × Encoder api)) (k : ℤ → Handle → Encoder api → Result api)
      → Done m
      → ((rc : ℤ) (last : Handle) (e : Encoder api) → Done (k rc last e))
      → Done (and_next api m k)
  and_next-Done none k h g = absurd (h refl)
  and_next-Done (some r) k h g = g r.0.0 r.0.1 r.1

  encode_list-Done :
      (xs : Ks) (rc : ℤ) (last h : Handle) (e : Encoder api)
      → AreObjects xs
      → Done (encode_list api xs rc last h e)
  unfolding encode_list IsObject
  encode_list-Done nil rc last h e o = some-Done _
  encode_list-Done (cons_null xs) rc last h e o = absurd o
  encode_list-Done (cons (list ys) xs) rc last h e o =
      let (rc', (new, w)) = create_stream null_handle container_size e.world in
      and_then-Done api (encode_list api ys solclient_fail null_handle new (record e { world = w }))
        _ (encode_list-Done ys solclient_fail null_handle new (record e { world = w }) o.0)
        (λ rc'' e'.
          let r = add_container h new e'.world in
          encode_list-Done xs r.0 last h (record e' { world = r.1 }) o.1)
  encode_list-Done (cons x xs) rc last h e o =
      and_next-Done (encode_flat api x last h e) _ (encode_flat-Done x last h e o.0)
        (λ rc' last' e'. encode_list-Done xs rc' last' h e' o.1)

  -- Encoding an object of q reads no memory that is not there, whatever the client library answers.
  pub encode-IsObject :
      (x : K) (h : Handle) (e : Encoder api) → IsObject x → encode api x h e ≢ none
  unfolding encode IsObject
  encode-IsObject (dict k v) h e o = encode_map-Done (dict k v) h e o
  encode-IsObject (list xs) h e o = encode_list-Done xs solclient_fail null_handle h e o
  encode-IsObject x h e o = encode_primitive-Done x h e o
