-- ===== src/Carried/Whole.antt =====
-- `encodeToSolaceContainer` of src/solace.c on all that can be sent.
use kdb_solace.Encode.{container_size}
use kdb_solace.Base.{length, sym, ◌≡◌, ◌≢◌, refl, ap, ◌∙◌, subst, some, List, [], ℤ, ◌+ℤ◌}
use kdb_solace.Memory.{Bytes}
use kdb_solace.Kdb.{K, Ks, nil, cons, cons_null, atom, symbol, symbols, vector, list, dict}
use kdb_solace.Solclient.{solclient_ok, solclient_fail}
use kdb_solace.Field.{Fields, map_of, stream_of, end, field}
use kdb_solace.Container.{Containers}
use kdb_solace.Encode.{
  Encoder, and_then, and_next, add_new, encode_map, encode_flat, encode_list, encode,
}
use kdb_solace.Carried.Store.{a_map, a_stream, put_fields, put_fields-stream, put_fields-map, Store}
use kdb_solace.Carried.Room.{
  HasRoom, before-HasRoom, behind-HasRoom, Filled, nothing-Filled, then-Filled, FillsAs, Fills,
}
use kdb_solace.Carried.Sent.{
  Fits, Contained, IsContained, AreContained, IsColumn, named, column_fields, IsSendable,
  AreSendable, field_of, fields_of, message_fields, column_fields, named,
}
use kdb_solace.Carried.Fill.{IsReady}
use kdb_solace.Carried.Columns.{encode_vector-dict, encode_vector-numbers, encode_vector-symbols}
use kdb_solace.Carried.New.{stream-IsNew, map-IsNew, add_container-Filled, new-HasRoom}
use kdb_solace.Carried.Flat.{FillsNext, encode_flat-Fills, number-Fills, symbol-Fills}

module _ (api : Containers) (store : Store api) where
  open api use {World, Handle, null_handle, create_map, create_stream, add_container}
  open store use {value, IsOpen}

  -- The code of the last round of the loop, if there is one.
  abbrev final_code : ℤ → Ks → ℤ
  final_code rc nil = rc
  final_code rc _ = solclient_ok

  final_code-ok : (rc : ℤ) (xs : Ks) → rc ≡ solclient_ok → final_code rc xs ≡ solclient_ok
  final_code-ok rc nil e = e
  final_code-ok rc (cons x xs) e = refl
  final_code-ok rc (cons_null xs) e = refl

  flat_then :
      (x : K) (xs : Ks) (rc : ℤ) (last h : Handle) (e : Encoder api)
      → encode_list api (cons x xs) rc last h e
        ≡ and_next api
            (encode_flat api x last h e)
            (λ rc' last' e'. encode_list api xs rc' last' h e')
      → IsReady api store a_stream h e (fields_of (cons x xs))
      → (IsReady api store a_stream h e (field [] (field_of x) end)
          → FillsNext api store (encode_flat api x last h e) h e.world (field [] (field_of x) end))
      → ((last' : Handle) (e' : Encoder api)
          → IsReady api store a_stream h e' (fields_of xs)
          → FillsAs api store
              (final_code solclient_ok xs)
              (encode_list api xs solclient_ok last' h e')
              h
              e'.world
              (fields_of xs))
      → FillsAs api store solclient_ok
          (encode_list api (cons x xs) rc last h e)
          h
          e.world
          (fields_of (cons x xs))
  unfolding field_of
  flat_then x xs rc last h e step (fine, r) first next =
      let b = first (fine, before-HasRoom api store (field [] (field_of x) end) (fields_of xs) r) in
      let c = next b.pointer b.last (
        b.global_ok,
        behind-HasRoom api store (field [] (field_of x) end) (fields_of xs) r b.filled,
      ) in
      record {
        last = c.last;
        gives =
            step
            ∙ ap (λ r. and_next api r (λ rc' last' e'. encode_list api xs rc' last' h e')) b.gives
            ∙ c.gives
            ∙ ap (λ code. some (code, c.last)) (final_code-ok solclient_ok xs refl);
        global_ok = c.global_ok;
        filled = then-Filled api store b.filled c.filled;
      }

  encode_list-Fills :
      (xs : Ks) (rc : ℤ) (last h : Handle) (e : Encoder api)
      → AreSendable xs
      → AreContained store.bytes xs
      → IsReady api store a_stream h e (fields_of xs)
      → FillsAs api store
          (final_code rc xs)
          (encode_list api xs rc last h e)
          h
          e.world
          (fields_of xs)
  unfolding encode_list IsSendable field_of IsContained
  encode_list-Fills nil rc last h e s fits ready = record {
    last = e;
    gives = refl;
    global_ok = ready.0;
    filled = nothing-Filled api store h e.world ready.1.is_open;
  }
  encode_list-Fills (cons_null xs) rc last h e s fits ready = absurd s
  encode_list-Fills (cons (list ys) xs) rc last h e s (fits, more) ready =
      let one : Fields = field [] (stream_of (fields_of ys)) end in
      let whole : put_fields (stream_of end) (fields_of ys) ≡ stream_of (fields_of ys) =
        put_fields-stream end (fields_of ys) in
      let fits' : Fits store.bytes (put_fields (stream_of end) (fields_of ys)) =
        subst (Fits store.bytes) (sym whole) fits.0 in
      let (rc', (new, w)) = create_stream null_handle container_size e.world in
      let (created, n) = stream-IsNew api store null_handle e.world (fields_of ys) fits' in
      let b =
        encode_list-Fills ys solclient_fail null_handle new (record e { world = w }) s.0 fits.1
          (ready.0, new-HasRoom api store a_stream (fields_of ys) n tt fits') in
      let (code, w') = add_container h new b.last.world in
      let (added, put) = add_container-Filled api store h n b.filled (
        subst (λ c. HasRoom api store a_stream h e.world (field [] c end)) (sym whole)
          (before-HasRoom api store one (fields_of xs) ready.1)) in
      let filled : Filled api store h e.world w' one =
        subst (λ c. Filled api store h e.world w' (field [] c end)) whole put in
      let c =
        encode_list-Fills xs code last h (record b.last { world = w' }) s.1 more
          (b.global_ok, behind-HasRoom api store one (fields_of xs) ready.1 filled) in
      record {
        last = c.last;
        gives =
            ap
              (λ r. and_then api r λ rc'' e''.
                let r' = add_container h new e''.world in
                encode_list api xs r'.0 last h (record e'' { world = r'.1 }))
              b.gives
            ∙ c.gives
            ∙ ap (λ code. some (code, c.last)) (final_code-ok code xs added);
        global_ok = c.global_ok;
        filled = then-Filled api store filled c.filled;
      }
  encode_list-Fills (cons x xs) rc last h e s (fits, more) ready =
      flat_then x xs rc last h e refl ready
        (encode_flat-Fills api store x last h e (λ ys q. cc) s.0 fits)
        λ last' e' ready'. encode_list-Fills xs solclient_ok last' h e' s.1 more ready'

  encode_map-Fills :
      (names : List Bytes) (values : K) (h : Handle) (e : Encoder api)
      → IsColumn (length names) values
      → Fits store.bytes (map_of (named names (column_fields values)))
      → IsReady api store a_stream h e (field [] (map_of (named names (column_fields values))) end)
      → Fills api store
          (encode_map api (dict (symbols names) values) h e)
          h
          e.world
          (field [] (map_of (named names (column_fields values))) end)
  unfolding encode_map ◌+ℤ◌
  encode_map-Fills names values h e s fits ready =
      let fs = named names (column_fields values) in
      let whole : put_fields (map_of end) fs ≡ map_of fs = put_fields-map end fs in
      let fits' : Fits store.bytes (put_fields (map_of end) fs) =
        subst (Fits store.bytes) (sym whole) fits in
      let (rc, (new, w)) = create_map null_handle container_size e.world in
      let (created, n) = map-IsNew api store null_handle e.world fs fits' in
      let b =
        encode_vector-dict api store names values new (record e { world = w }) s
          (ready.0, new-HasRoom api store a_map fs n tt fits') in
      let (code, w') = add_container h new b.last.world in
      let (added, put) =
        add_container-Filled api store h n b.filled (
          subst (λ c. HasRoom api store a_stream h e.world (field [] c end)) (sym whole) ready.1) in
      record {
        last = record b.last { world = w' };
        gives =
            ap (λ r. and_then api r λ rc' e''. add_new api (rc +ℤ rc') h new e'') b.gives
            ∙ ap (λ q. some ((q +ℤ solclient_ok) +ℤ code, record b.last { world = w' })) created
            ∙ ap (λ q. some (solclient_ok +ℤ q, record b.last { world = w' })) added;
        global_ok = b.global_ok;
        filled = subst (λ c. Filled api store h e.world w' (field [] c end)) whole put;
      }

  -- What can be sent, is no empty general list, and has only containers that fit, is encoded with the code
  -- OK into just its fields, if the stream has room for them.
  pub encode-Fills :
      (x : K) (h : Handle) (e : Encoder api)
      → IsSendable x
      → x ≢ list nil
      → Contained store.bytes x
      → IsReady api store a_stream h e (message_fields x)
      → Fills api store (encode api x h e) h e.world (message_fields x)
  unfolding encode IsSendable Contained IsContained field_of
  encode-Fills (atom t v) h e s some_x fits ready = number-Fills api store t v h e s ready
  encode-Fills (symbol b) h e s some_x fits ready = symbol-Fills api store b h e ready
  encode-Fills (vector t vs) h e (c, bits) some_x fits ready =
      encode_vector-numbers api store c vs h e bits ready
  encode-Fills (symbols ss) h e s some_x fits ready = encode_vector-symbols api store ss h e ready
  encode-Fills (list nil) h e s some_x fits ready = absurd (some_x refl)
  encode-Fills (list (cons x xs)) h e s some_x fits ready =
      encode_list-Fills (cons x xs) solclient_fail null_handle h e s fits ready
  encode-Fills (list (cons_null xs)) h e s some_x fits ready =
      encode_list-Fills (cons_null xs) solclient_fail null_handle h e s fits ready
  encode-Fills (dict (symbols names) values) h e s some_x fits ready =
      encode_map-Fills names values h e s fits ready
  encode-Fills _ h e s some_x fits ready = absurd s
