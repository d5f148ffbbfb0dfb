-- ===== src/Carried/New.antt =====
-- Containers that are created, filled and added to another one (`encodeToSolaceContainer` of src/solace.c).
use kdb_solace.Encode.{container_size}
use kdb_solace.Base.{◌≤◌, subst, sym, arith, some, ◌≡◌, ◌≢◌, ap, ◌∙◌, []}
use kdb_solace.Solclient.{solclient_ok}
use kdb_solace.Field.{Field, map_of, stream_of, Fields, end, field}
use kdb_solace.Container.{Containers}
use kdb_solace.Carried.Sent.{Fits}
use kdb_solace.Carried.Store.{
  Kind, a_stream, IsKind, IsWithin, put_field, put_fields, put_fields-stream, Store,
}
use kdb_solace.Carried.Room.{HasRoom, frame-HasRoom, bytes_grow_all, Filled}

module _ (api : Containers) (store : Store api) where
  open api use {World, Handle, null_handle, create_map, create_stream, add_container}
  open store use {value, IsOpen}

  -- A new container with the value c has come up between two states.
  pub record IsNew (new : Handle) (w w' : World) (c : Field) : Type 0 where
    pub kept : store.IsKept w w'
    pub is_open : IsOpen new w'
    pub empty : value new w' ≡ c
    pub limit : store.limit new w' ≡ some container_size
    pub others : (h : Handle) → IsOpen h w → IsOpen h w' × (h ≢ new) × (value h w' ≡ value h w)

  pub stream-IsNew :
      (p : Handle) (w : World) (fs : Fields)
      → Fits store.bytes (put_fields (stream_of end) fs)
      → let (rc, (new, w')) = create_stream p container_size w in
        (rc ≡ solclient_ok) × IsNew new w w' (stream_of end)
  stream-IsNew p w fs fits =
      let (ok, o, empty, limit) =
        store.stream_new p container_size w
          (omega (arith, fits, bytes_grow_all api store (stream_of end) fs)) in
      (
        ok,
        record {
          kept = store.stream_kept p container_size w;
          is_open = o;
          empty = empty;
          limit = limit;
          others = λ h o. store.stream_other p h container_size w o;
        },
      )

  pub map-IsNew :
      (p : Handle) (w : World) (fs : Fields)
      → Fits store.bytes (put_fields (map_of end) fs)
      → let (rc, (new, w')) = create_map p container_size w in
        (rc ≡ solclient_ok) × IsNew new w w' (map_of end)
  map-IsNew p w fs fits =
      let (ok, o, empty, limit) =
        store.map_new p container_size w
          (omega (arith, fits, bytes_grow_all api store (map_of end) fs)) in
      (
        ok,
        record {
          kept = store.map_kept p container_size w;
          is_open = o;
          empty = empty;
          limit = limit;
          others = λ h o. store.map_other p h container_size w o;
        },
      )

  -- It has room for what its memory can take.
  pub new-HasRoom :
      {new : Handle} {w w' : World} {c : Field} (k : Kind) (fs : Fields)
      → IsNew new w w' c
      → IsKind k c
      → Fits store.bytes (put_fields c fs)
      → HasRoom api store k new w' fs
  new-HasRoom {new} {w} {w'} {c} k fs n kind fits = record {
    is_open = n.is_open;
    kind = subst (IsKind k) (sym n.empty) kind;
    room =
        subst (λ l. IsWithin l (store.bytes (put_fields (value new w') fs))) (sym n.limit)
          (subst (λ c. store.bytes (put_fields c fs) ≤ container_size) (sym n.empty) fits);
  }

  -- It is filled, and added to another container.
  pub add_container-Filled :
      {new : Handle} {w w1 w2 : World} {c : Field} {fs : Fields} (h : Handle)
      → IsNew new w w1 c
      → Filled api store new w1 w2 fs
      → HasRoom api store a_stream h w (field [] (put_fields c fs) end)
      → ((add_container h new w2).0 ≡ solclient_ok)
        × Filled api store h w (add_container h new w2).1 (field [] (put_fields c fs) end)
  add_container-Filled {new} {w} {w1} {w2} {c} {fs} h n f r =
      let (o1, apart, same1) = n.others h r.is_open in
      let (o2, same2) = f.frame h o1 apart in
      let whole : value new w2 ≡ put_fields c fs = f.put ∙ ap (λ c. put_fields c fs) n.empty in
      let r2 = frame-HasRoom api store r (store.kept_trans n.kept f.kept) o2 (same2 ∙ same1) in
      let (ok, o3, put) = store.container_added h new w2 o2 f.is_open apart r2.kind (
        subst (λ v. IsWithin (store.limit h w2) (store.bytes (put_field (value h w2) [] v)))
          (sym whole) r2.room) in
      (
        ok,
        record {
          kept = store.kept_trans n.kept (store.kept_trans f.kept (store.container_kept h new w2));
          is_open = o3;
          put =
              put
              ∙ ap (λ v. put_field v [] (value new w2)) (same2 ∙ same1)
              ∙ ap (put_field (value h w) []) whole;
          frame = λ h' o' ne.
              let (p1, apart', e1) = n.others h' o' in
              let (p2, e2) = f.frame h' p1 apart' in
              let (p3, e3) = store.container_other h new h' w2 p2 ne apart' in (p3, e3 ∙ e2 ∙ e1);
        },
      )

  -- An open empty stream has room for the fields of a stream that is within its limit.
  pub empty-HasRoom :
      (h : Handle) (w : World) (fs : Fields)
      → IsOpen h w
      → value h w ≡ stream_of end
      → IsWithin (store.limit h w) (store.bytes (stream_of fs))
      → HasRoom api store a_stream h w fs
  empty-HasRoom h w fs o empty fits = record {
    is_open = o;
    kind = subst (IsKind a_stream) (sym empty) tt;
    room =
        subst (λ c. IsWithin (store.limit h w) (store.bytes c))
          (sym (put_fields-stream end fs) ∙ ap (λ c. put_fields c fs) (sym empty)) fits;
  }
