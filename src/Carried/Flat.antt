-- ===== src/Carried/Flat.antt =====
-- `encodeToSolaceContainer` of src/solace.c on what is no general list, in the loop over one.
use kdb_solace.Encode.{container_size}
use mathlib.Core.Option
use kdb_solace.Base.{
  length, sym, ℕ, ◌≡◌, ◌≢◌, refl, ap, ◌∙◌, subst, Option, none, some, List, [], ℤ, ◌+ℤ◌,
}
use kdb_solace.Memory.{Bytes}
use kdb_solace.Kdb.{K, Ks, atom, symbol, symbols, vector, list, dict}
use kdb_solace.Solclient.{solclient_ok}
use kdb_solace.Field.{Field, map_of, stream_of, Fields, end, field}
use kdb_solace.Container.{Containers, add_string}
use kdb_solace.Encode.{
  Encoder, and_then, add_new, atom_item, encode_atom, encode_vector, encode_inner, encode_flat,
}
use kdb_solace.Carried.Store.{a_map, a_stream, put_fields, put_fields-stream, put_fields-map, Store}
use kdb_solace.Carried.Room.{HasRoom, Filled, Fills}
use kdb_solace.Carried.Sent.{
  Fits, IsContained, IsColumn, IsSendable, field_of, number_fields, symbol_fields, column_fields,
  unnamed, named,
}
use kdb_solace.Carried.Fill.{IsReady}
use kdb_solace.Carried.Columns.{
  atom_number, encode_atom-Fills, encode_vector-dict, encode_vector-numbers, encode_vector-symbols,
}
use kdb_solace.Carried.New.{IsNew, stream-IsNew, map-IsNew, add_container-Filled, new-HasRoom}

module _ (api : Containers) (store : Store api) where
  open api use {World, Handle, null_handle, create_map, create_stream, add_container}
  open store use {value, IsOpen}

  -- A result of `encode_flat` with the code OK.
  pub record FillsNext (r : Option ((ℤ × Handle) × Encoder api)) (h : Handle) (w : World)
      (fs : Fields) : Type 0 where
    pub pointer : Handle
    pub last : Encoder api
    pub gives : r ≡ some ((solclient_ok, pointer), last)
    pub global_ok : last.rc ≡ solclient_ok
    pub filled : Filled api store h w last.world fs

  encode_inner-Fills :
      (x : K) (created : ℤ × (Handle × World)) (h : Handle) (e : Encoder api) (c : Field)
      (fs : Fields)
      → IsNew api store created.1.0 e.world created.1.1 c
      → Fills api store
          (encode_vector api x created.1.0 (record e { world = created.1.1 }))
          created.1.0
          created.1.1
          fs
      → HasRoom api store a_stream h e.world (field [] (put_fields c fs) end)
      → FillsNext (encode_inner api x created h e) h e.world (field [] (put_fields c fs) end)
  unfolding encode_inner ◌+ℤ◌
  encode_inner-Fills x (rc, (new, w)) h e c fs n f r =
      let (code, w') = add_container h new f.last.world in
      let (ok, filled) = add_container-Filled api store h n f.filled r in
      record {
        pointer = new;
        last = record f.last { world = w' };
        gives =
            ap
              (λ r.
                Option.map (λ q. ((q.0, new), q.1))
                  (and_then api r (λ rc' e'. add_new api rc' h new e')))
              f.gives
            ∙ ap (λ code. some ((solclient_ok +ℤ code, new), record f.last { world = w' })) ok;
        global_ok = f.global_ok;
        filled = filled;
      }

  -- The map for a dictionary, and the stream for a vector.
  dict-Fills :
      (names : List Bytes) (values : K) (last h : Handle) (e : Encoder api)
      → IsColumn (length names) values
      → Fits store.bytes (map_of (named names (column_fields values)))
      → IsReady api store a_stream h e (field [] (map_of (named names (column_fields values))) end)
      → FillsNext
          (encode_inner api
            (dict (symbols names) values)
            (create_map last container_size e.world)
            h
            e)
          h
          e.world
          (field [] (map_of (named names (column_fields values))) end)
  dict-Fills names values last h e s fits (fine, r) =
      let fs = named names (column_fields values) in
      let whole : put_fields (map_of end) fs ≡ map_of fs = put_fields-map end fs in
      let fits' : Fits store.bytes (put_fields (map_of end) fs) =
        subst (Fits store.bytes) (sym whole) fits in
      let (rc, (new, w)) = create_map last container_size e.world in
      let (ok, n) = map-IsNew api store last e.world fs fits' in
      subst
        (λ c.
          FillsNext
            (encode_inner api (dict (symbols names) values) (create_map last container_size e.world)
              h e)
            h e.world (field [] c end))
        whole
        (encode_inner-Fills (dict (symbols names) values) (create_map last container_size e.world) h
          e (map_of end) fs n
          (encode_vector-dict api store names values new (record e { world = w }) s
            (fine, new-HasRoom api store a_map fs n tt fits'))
          (subst (λ c. HasRoom api store a_stream h e.world (field [] c end)) (sym whole) r))

  stream-Fills :
      (x : K) (last h : Handle) (e : Encoder api) (fs : Fields)
      → ((new : Handle) (e' : Encoder api)
          → IsReady api store a_stream new e' fs
          → Fills api store (encode_vector api x new e') new e'.world fs)
      → Fits store.bytes (stream_of fs)
      → IsReady api store a_stream h e (field [] (stream_of fs) end)
      → FillsNext
          (encode_inner api x (create_stream last container_size e.world) h e)
          h
          e.world
          (field [] (stream_of fs) end)
  stream-Fills x last h e fs fills fits (fine, r) =
      let whole : put_fields (stream_of end) fs ≡ stream_of fs = put_fields-stream end fs in
      let fits' : Fits store.bytes (put_fields (stream_of end) fs) =
        subst (Fits store.bytes) (sym whole) fits in
      let (rc, (new, w)) = create_stream last container_size e.world in
      let (ok, n) = stream-IsNew api store last e.world fs fits' in
      subst
        (λ c.
          FillsNext (encode_inner api x (create_stream last container_size e.world) h e) h e.world
            (field [] c end))
        whole
        (encode_inner-Fills x (create_stream last container_size e.world) h e (stream_of end) fs n
          (fills new (record e { world = w }) (fine, new-HasRoom api store a_stream fs n tt fits'))
          (subst (λ c. HasRoom api store a_stream h e.world (field [] c end)) (sym whole) r))

  atom-Fills :
      (x : K) (f : Field) (last h : Handle) (e : Encoder api)
      → Fills api store (encode_atom api x none h e) h e.world (field [] f end)
      → FillsNext
          (Option.map (λ r. ((r.0, last), r.1)) (encode_atom api x none h e))
          h
          e.world
          (field [] f end)
  atom-Fills x f last h e b = record {
    pointer = last;
    last = b.last;
    gives = ap (Option.map (λ r. ((r.0, last), r.1))) b.gives;
    global_ok = b.global_ok;
    filled = b.filled;
  }

  pub number-Fills :
      (t v : ℕ) (h : Handle) (e : Encoder api)
      → IsSendable (atom t v)
      → IsReady api store a_stream h e (field [] (field_of (atom t v)) end)
      → Fills api store
          (encode_atom api (atom t v) none h e)
          h
          e.world
          (field [] (field_of (atom t v)) end)
  unfolding IsSendable field_of
  number-Fills t v h e (c, bits) ready =
      let (a, is, stays) = atom_number c v bits in
      encode_atom-Fills api store a_stream (atom t v) none a (field_of (atom t v)) h e tt is stays
        ready

  pub symbol-Fills :
      (s : Bytes) (h : Handle) (e : Encoder api)
      → IsReady api store a_stream h e (field [] (field_of (symbol s)) end)
      → Fills api store
          (encode_atom api (symbol s) none h e)
          h
          e.world
          (field [] (field_of (symbol s)) end)
  unfolding field_of atom_item
  symbol-Fills s h e ready =
      encode_atom-Fills api store a_stream (symbol s) none (add_string s) (field_of (symbol s)) h e
        tt refl refl ready

  pub encode_flat-Fills :
      (x : K) (last h : Handle) (e : Encoder api)
      → ((xs : Ks) → x ≢ list xs)
      → IsSendable x
      → IsContained store.bytes x
      → IsReady api store a_stream h e (field [] (field_of x) end)
      → FillsNext (encode_flat api x last h e) h e.world (field [] (field_of x) end)
  unfolding encode_flat IsSendable IsContained field_of
  encode_flat-Fills (atom t v) last h e flat s fits ready =
      atom-Fills (atom t v) (field_of (atom t v)) last h e (number-Fills t v h e s ready)
  encode_flat-Fills (symbol b) last h e flat s fits ready =
      atom-Fills (symbol b) (field_of (symbol b)) last h e (symbol-Fills b h e ready)
  encode_flat-Fills (dict (symbols names) values) last h e flat s fits ready =
      dict-Fills names values last h e s fits ready
  encode_flat-Fills (vector t vs) last h e flat (c, bits) fits ready =
      stream-Fills (vector t vs) last h e (unnamed (number_fields t vs))
        (λ new e' r. encode_vector-numbers api store c vs new e' bits r) fits ready
  encode_flat-Fills (symbols ss) last h e flat s fits ready =
      stream-Fills (symbols ss) last h e (unnamed (symbol_fields ss))
        (λ new e' r. encode_vector-symbols api store ss new e' r) fits ready
  encode_flat-Fills (list xs) last h e flat s fits ready = absurd (flat xs refl)
  encode_flat-Fills _ last h e flat s fits ready = absurd s
