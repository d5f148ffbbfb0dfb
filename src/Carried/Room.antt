-- ===== src/Carried/Room.antt =====
-- Containers with room for more fields, and how calls that fill one container follow each other
-- (include/solclient/solClientMsg.h).
use kdb_solace.Base.{◌≤◌, arith, subst, ◌≡◌, ◌≢◌, refl, sym, ap, ◌∙◌, Option, some, ℤ}
use kdb_solace.Memory.{Bytes}
use kdb_solace.Solclient.{solclient_ok}
use kdb_solace.Field.{Field, Fields, end, field}
use kdb_solace.Container.{Containers, Item}
use kdb_solace.Encode.{Encoder, Result}
use kdb_solace.Carried.{stored}
use kdb_solace.Carried.Store.{
  IsKind, IsNamed, IsWithin, Kind, Store, append_fields, put_field, put_fields,
  put_fields-append_fields, with_name, less-IsWithin, put_fields-IsKind,
}

module _ (api : Containers) (store : Store api) where
  open api use {World, Handle}
  open store use {value, IsOpen, limit, bytes}

  pub bytes_grow_all : (c : Field) (fs : Fields) → bytes c ≤ bytes (put_fields c fs)
  bytes_grow_all c end = omega arith
  bytes_grow_all c (field name f fs) =
      omega (arith, store.bytes_grow c name f, bytes_grow_all (put_field c name f) fs)

  -- An open container of this kind, which these fields can still be put into.
  pub record HasRoom (k : Kind) (h : Handle) (w : World) (fs : Fields) : Type 0 where
    pub is_open : IsOpen h w
    pub kind : IsKind k (value h w)
    pub room : IsWithin (limit h w) (bytes (put_fields (value h w) fs))

  -- Between two states the fields have been put into the container h, and no other open one has changed.
  pub record Filled (h : Handle) (w w' : World) (fs : Fields) : Type 0 where
    pub kept : store.IsKept w w'
    pub is_open : IsOpen h w'
    pub put : value h w' ≡ put_fields (value h w) fs
    pub frame : (h' : Handle) → IsOpen h' w → h' ≢ h → IsOpen h' w' × (value h' w' ≡ value h' w)

  -- Room for fields and more is room for the fields, and then for the others.
  pub before-HasRoom :
      {k : Kind} {h : Handle} {w : World} (fs gs : Fields)
      → HasRoom k h w (append_fields fs gs)
      → HasRoom k h w fs
  before-HasRoom {k} {h} {w} fs gs r = record {
    is_open = r.is_open;
    kind = r.kind;
    room =
        less-IsWithin (limit h w)
          (subst (λ c. bytes (put_fields (value h w) fs) ≤ bytes c)
            (sym (put_fields-append_fields (value h w) fs gs))
            (bytes_grow_all (put_fields (value h w) fs) gs))
          r.room;
  }

  pub behind-HasRoom :
      {k : Kind} {h : Handle} {w w' : World} (fs gs : Fields)
      → HasRoom k h w (append_fields fs gs)
      → Filled h w w' fs
      → HasRoom k h w' gs
  behind-HasRoom {k} {h} {w} {w'} fs gs r f = record {
    is_open = f.is_open;
    kind = subst (IsKind k) (sym f.put) (put_fields-IsKind k (value h w) fs r.kind);
    room =
        subst (λ o. IsWithin o (bytes (put_fields (value h w') gs)))
          (sym (store.limit_kept h f.kept r.is_open))
          (subst (λ c. IsWithin (limit h w) (bytes c))
            (put_fields-append_fields (value h w) fs gs ∙ ap (λ c. put_fields c gs) (sym f.put))
            r.room);
  }

  -- So it has after calls with other containers.
  pub frame-HasRoom :
      {k : Kind} {h : Handle} {w w' : World} {fs : Fields}
      → HasRoom k h w fs
      → store.IsKept w w'
      → IsOpen h w'
      → value h w' ≡ value h w
      → HasRoom k h w' fs
  frame-HasRoom {k} {h} {w} {w'} {fs} r kept o same = record {
    is_open = o;
    kind = subst (IsKind k) (sym same) r.kind;
    room =
        subst (λ l. IsWithin l (bytes (put_fields (value h w') fs)))
          (sym (store.limit_kept h kept r.is_open))
          (subst (λ c. IsWithin (limit h w) (bytes (put_fields c fs))) (sym same) r.room);
  }

  pub nothing-Filled : (h : Handle) (w : World) → IsOpen h w → Filled h w w end
  nothing-Filled h w o = record {
    kept = store.kept_refl w;
    is_open = o;
    put = refl;
    frame = λ h' o' ne. (o', refl);
  }

  pub then-Filled :
      {h : Handle} {w w' w'' : World} {fs gs : Fields}
      → Filled h w w' fs
      → Filled h w' w'' gs
      → Filled h w w'' (append_fields fs gs)
  then-Filled {h} {w} {w'} {w''} {fs} {gs} a b = record {
    kept = store.kept_trans a.kept b.kept;
    is_open = b.is_open;
    put =
        b.put ∙ ap (λ c. put_fields c gs) a.put ∙ sym (put_fields-append_fields (value h w) fs gs);
    frame = λ h' o ne.
        let (o1, e1) = a.frame h' o ne in let (o2, e2) = b.frame h' o1 ne in (o2, e2 ∙ e1);
  }

  pub item-Filled :
      (k : Kind) (h : Handle) (a : Item) (name : Option Bytes) (w : World) (f : Field)
      → HasRoom k h w (with_name name f)
      → IsNamed k name
      → stored a ≡ some f
      → ((api.add_item h a name w).0 ≡ solclient_ok)
        × Filled h w (api.add_item h a name w).1 (with_name name f)
  item-Filled k h a name w f r named stays =
      let (ok, o, put) = store.item_added h a name w f k r.is_open stays r.kind named r.room in
      (
        ok,
        record {
          kept = store.item_kept h a name w;
          is_open = o;
          put = put;
          frame = λ h' o' ne. store.item_other h h' a name w o' ne;
        },
      )

  -- A result with a code that leaves the global code OK.
  pub record FillsAs (code : ℤ) (r : Result api) (h : Handle) (w : World) (fs : Fields)
      : Type 0 where
    pub last : Encoder api
    pub gives : r ≡ some (code, last)
    pub global_ok : last.rc ≡ solclient_ok
    pub filled : Filled h w last.world fs

  abbrev pub Fills : Result api → Handle → World → Fields → Type 0
  Fills r h w fs = FillsAs solclient_ok r h w fs
