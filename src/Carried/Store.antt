-- ===== src/Carried/Store.antt =====
-- What the library relies on when it fills solclient's maps and streams (include/solclient/solClientMsg.h).
use kdb_solace.Base.{ℕ, ◌≤◌, arith, [], ◌≡◌, ◌≢◌, refl, sym, ap, ◌∙◌, Option, none, some}
use kdb_solace.Memory.{Bytes}
use kdb_solace.Solclient.{solclient_ok}
use kdb_solace.Field.{Field, map_of, stream_of, Fields, end, field}
use kdb_solace.Container.{Containers, Item}
use kdb_solace.Carried.{stored, append_field}

abbrev pub name_or_empty : Option Bytes → Bytes
name_or_empty none = []
name_or_empty (some name) = name

-- A container with one more field, and with more fields.
abbrev pub put_field : Field → Bytes → Field → Field
put_field (map_of fs) name f = map_of (append_field fs name f)
put_field (stream_of fs) name f = stream_of (append_field fs name f)
put_field c name f = c

abbrev pub put_fields : Field → Fields → Field
put_fields c end = c
put_fields c (field name f fs) = put_fields (put_field c name f) fs

abbrev pub append_fields : Fields → Fields → Fields
append_fields end gs = gs
append_fields (field name f fs) gs = field name f (append_fields fs gs)

pub put_fields-append_fields :
    (c : Field) (fs gs : Fields)
    → put_fields c (append_fields fs gs) ≡ put_fields (put_fields c fs) gs
put_fields-append_fields c end gs = refl
put_fields-append_fields c (field name f fs) gs =
    put_fields-append_fields (put_field c name f) fs gs

append_field-fields :
    (fs : Fields) (name : Bytes) (f : Field) (gs : Fields)
    → append_fields (append_field fs name f) gs ≡ append_fields fs (field name f gs)
append_field-fields end name f gs = refl
append_field-fields (field n g fs) name f gs = ap (field n g) (append_field-fields fs name f gs)

append_fields-end : (fs : Fields) → append_fields fs end ≡ fs
append_fields-end end = refl
append_fields-end (field name f fs) = ap (field name f) (append_fields-end fs)

pub put_fields-stream :
    (fs gs : Fields) → put_fields (stream_of fs) gs ≡ stream_of (append_fields fs gs)
put_fields-stream fs end = ap stream_of (sym (append_fields-end fs))
put_fields-stream fs (field name f gs) =
    put_fields-stream (append_field fs name f) gs ∙ ap stream_of (append_field-fields fs name f gs)

pub put_fields-map : (fs gs : Fields) → put_fields (map_of fs) gs ≡ map_of (append_fields fs gs)
put_fields-map fs end = ap map_of (sym (append_fields-end fs))
put_fields-map fs (field name f gs) =
    put_fields-map (append_field fs name f) gs ∙ ap map_of (append_field-fields fs name f gs)

abbrev pub with_name : Option Bytes → Field → Fields
with_name name f = field (name_or_empty name) f end

-- A container is a map or a stream. The fields of a map have names, those of a stream have none.
pub data Kind : Type 0 where
  a_map a_stream : Kind

abbrev pub IsKind : Kind → Field → Type 0
IsKind a_map (map_of fs) = Unit {0}
IsKind a_stream (stream_of fs) = Unit {0}
IsKind _ _ = ⊥

abbrev pub IsNamed : Kind → Option Bytes → Type 0
IsNamed a_map (some name) = Unit {0}
IsNamed a_stream none = Unit {0}
IsNamed _ _ = ⊥

put_field-IsKind :
    (k : Kind) (c : Field) (name : Bytes) (f : Field) → IsKind k c → IsKind k (put_field c name f)
put_field-IsKind a_map (map_of fs) name f h = tt
put_field-IsKind a_stream (stream_of fs) name f h = tt
put_field-IsKind _ _ name f h = absurd h

pub put_fields-IsKind :
    (k : Kind) (c : Field) (fs : Fields) → IsKind k c → IsKind k (put_fields c fs)
put_fields-IsKind k c end h = h
put_fields-IsKind k c (field name f fs) h =
    put_fields-IsKind k (put_field c name f) fs (put_field-IsKind k c name f h)

-- A container in memory of the caller takes so many bytes; one of a message has no limit.
abbrev pub IsWithin : Option ℕ → ℕ → Type 0
IsWithin none n = Unit {0}
IsWithin (some m) n = n ≤ m

pub less-IsWithin : (o : Option ℕ) {m n : ℕ} → m ≤ n → IsWithin o n → IsWithin o m
less-IsWithin none h w = tt
less-IsWithin (some k) h w = omega (arith, h, w)

-- The client library, as long as the operating system has memory for its messages. `IsOpen` says of a
-- container that it may be filled and that its memory is in no other use, `limit` how many bytes it may
-- take, and `bytes` how many a container takes. An add succeeds in an open container, if it has the name
-- that the container's kind asks for and the container stays within its limit; a call with one
-- container leaves every other open one as it is. `IsKept` says that the messages, what has been sent, and
-- the limits of open containers are as they were.
pub record Store (api : Containers) : Type 1 where
  pub value : api.Handle → api.World → Field
  pub IsOpen : api.Handle → api.World → Type 0
  pub IsKept : api.World → api.World → Type 0
  pub limit : api.Handle → api.World → Option ℕ
  pub bytes : Field → ℕ
  pub bytes_grow : (c : Field) (name : Bytes) (f : Field) → bytes c ≤ bytes (put_field c name f)
  pub limit_kept :
      {w w' : api.World} (h : api.Handle) → IsKept w w' → IsOpen h w → limit h w' ≡ limit h w
  pub kept_refl : (w : api.World) → IsKept w w
  pub kept_trans : {w w' w'' : api.World} → IsKept w w' → IsKept w' w'' → IsKept w w''
  pub item_kept :
      (h : api.Handle) (a : Item) (name : Option Bytes) (w : api.World)
      → IsKept w (api.add_item h a name w).1
  pub stream_kept :
      (p : api.Handle) (n : ℕ) (w : api.World) → IsKept w (api.create_stream p n w).1.1
  pub map_kept : (p : api.Handle) (n : ℕ) (w : api.World) → IsKept w (api.create_map p n w).1.1
  pub container_kept : (h new : api.Handle) (w : api.World) → IsKept w (api.add_container h new w).1
  pub item_added :
      (h : api.Handle) (a : Item) (name : Option Bytes) (w : api.World) (f : Field) (k : Kind)
      → IsOpen h w
      → stored a ≡ some f
      → IsKind k (value h w)
      → IsNamed k name
      → IsWithin (limit h w) (bytes (put_field (value h w) (name_or_empty name) f))
      → let (rc, w') = api.add_item h a name w in
        (rc ≡ solclient_ok)
        × IsOpen h w'
        × (value h w' ≡ put_field (value h w) (name_or_empty name) f)
  pub item_other :
      (h h' : api.Handle) (a : Item) (name : Option Bytes) (w : api.World)
      → IsOpen h' w
      → h' ≢ h
      → let w' = (api.add_item h a name w).1 in IsOpen h' w' × (value h' w' ≡ value h' w)
  pub stream_new :
      (p : api.Handle) (n : ℕ) (w : api.World)
      → bytes (stream_of end) ≤ n
      → let (rc, (h, w')) = api.create_stream p n w in
        (rc ≡ solclient_ok) × IsOpen h w' × (value h w' ≡ stream_of end) × (limit h w' ≡ some n)
  pub stream_other :
      (p h' : api.Handle) (n : ℕ) (w : api.World)
      → IsOpen h' w
      → let (h, w') = (api.create_stream p n w).1 in
        IsOpen h' w' × (h' ≢ h) × (value h' w' ≡ value h' w)
  pub map_new :
      (p : api.Handle) (n : ℕ) (w : api.World)
      → bytes (map_of end) ≤ n
      → let (rc, (h, w')) = api.create_map p n w in
        (rc ≡ solclient_ok) × IsOpen h w' × (value h w' ≡ map_of end) × (limit h w' ≡ some n)
  pub map_other :
      (p h' : api.Handle) (n : ℕ) (w : api.World)
      → IsOpen h' w
      → let (h, w') = (api.create_map p n w).1 in
        IsOpen h' w' × (h' ≢ h) × (value h' w' ≡ value h' w)
  pub container_added :
      (h new : api.Handle) (w : api.World)
      → IsOpen h w
      → IsOpen new w
      → h ≢ new
      → IsKind a_stream (value h w)
      → IsWithin (limit h w) (bytes (put_field (value h w) [] (value new w)))
      → let (rc, w') = api.add_container h new w in
        (rc ≡ solclient_ok) × IsOpen h w' × (value h w' ≡ put_field (value h w) [] (value new w))
  pub container_other :
      (h new h' : api.Handle) (w : api.World)
      → IsOpen h' w
      → h' ≢ h
      → h' ≢ new
      → let w' = (api.add_container h new w).1 in IsOpen h' w' × (value h' w' ≡ value h' w)
