-- ===== src/Carried/Broker.antt =====
-- The small client library of Carried/Cells keeps the laws of solclient's containers and messages.
use kdb_solace.Base.{
  ℕ, ◌<◌, ◌≤◌, ◌≡◌, ◌≢◌, refl, ap, ap₂, ◌∙◌, Option, none, some, [], ◌∷◌, ◌++◌, ◌&&◌, true, subst,
  sym, arith,
}
use kdb_solace.Memory.{Bytes}
use kdb_solace.Solclient.{solclient_ok}
use kdb_solace.Field.{Field, stream_of, map_of, end}
use kdb_solace.Carried.{stored}
use kdb_solace.Carried.Store.{
  name_or_empty, put_field, Kind, a_stream, IsKind, IsNamed, IsWithin, Store,
}
use kdb_solace.Carried.Publish.{Post}
use kdb_solace.Carried.Cells.{
  Cells, byte_count, containers, create, made, made-either, messages, new_cell, other_changed,
  put_field-byte_count, put_item, same_changed, suits-true, takes, with_field, within-true,
}

pub record Keeps (w w' : Cells) : Type 0 where
  pub log : w'.sent ≡ w.sent
  pub dests : w'.dests ≡ w.dests
  pub bodies : w'.bodies ≡ w.bodies
  pub grows : w.next ≤ w'.next
  pub limits : (h : ℕ) → h < w.next → w'.limits h ≡ w.limits h

pub same-Keeps : (w : Cells) → Keeps w w
same-Keeps w = record {
  log = refl;
  dests = refl;
  bodies = refl;
  grows = omega arith;
  limits = λ h o. refl;
}

with_field-Keeps : (f : Field) (h : ℕ) (name : Bytes) (w : Cells) → Keeps w (with_field f h name w)
with_field-Keeps f h name w = record {
  log = refl;
  dests = refl;
  bodies = refl;
  grows = omega arith;
  limits = λ h o. refl;
}

pub put_item-Keeps :
    (a : Option Field) (h : ℕ) (name : Option Bytes) (w : Cells) → Keeps w (put_item a h name w).1
put_item-Keeps none h name w = same-Keeps w
put_item-Keeps (some f) h name w =
    made-either (Keeps w) (takes f h name w) (with_field f h (name_or_empty name) w) w
      (with_field-Keeps f h (name_or_empty name) w) (same-Keeps w)

pub new_cell-Keeps : (c : Field) (limit : Option ℕ) (w : Cells) → Keeps w (new_cell c limit w)
new_cell-Keeps c limit w = record {
  log = refl;
  dests = refl;
  bodies = refl;
  grows = omega arith;
  limits = λ h o. other_changed w.limits w.next limit h (λ e. omega (arith, e, o));
}

takes-true :
    (k : Kind) (f : Field) (h : ℕ) (name : Option Bytes) (w : Cells)
    → IsKind k (w.cells h)
    → IsNamed k name
    → IsWithin (w.limits h) (byte_count (put_field (w.cells h) (name_or_empty name) f))
    → takes f h name w ≡ true
takes-true k f h name w kind named room =
    ap₂ (λ a b. a && b) (suits-true k (w.cells h) name kind named) (within-true (w.limits h) _ room)

pub put_item-added :
    (a : Option Field) (h : ℕ) (name : Option Bytes) (w : Cells) (f : Field) (k : Kind)
    → h < w.next
    → a ≡ some f
    → IsKind k (w.cells h)
    → IsNamed k name
    → IsWithin (w.limits h) (byte_count (put_field (w.cells h) (name_or_empty name) f))
    → let (rc, w') = put_item a h name w in
      (rc ≡ solclient_ok)
      × (h < w'.next)
      × (w'.cells h ≡ put_field (w.cells h) (name_or_empty name) f)
put_item-added a h name w f k o stays kind named room =
    subst
      (λ r.
        (r.0 ≡ solclient_ok)
        × (h < r.1.next)
        × (r.1.cells h ≡ put_field (w.cells h) (name_or_empty name) f))
      (sym (
        ap (λ a. put_item a h name w) stays
        ∙ ap (λ b. made b (with_field f h (name_or_empty name) w) w)
            (takes-true k f h name w kind named room)))
      (refl, o, same_changed w.cells h _)

pub put_item-other :
    (a : Option Field) (h h' : ℕ) (name : Option Bytes) (w : Cells)
    → h' < w.next
    → h' ≢ h
    → let w' = (put_item a h name w).1 in (h' < w'.next) × (w'.cells h' ≡ w.cells h')
put_item-other none h h' name w o ne = (o, refl)
put_item-other (some g) h h' name w o ne =
    made-either (λ w'. (h' < w'.next) × (w'.cells h' ≡ w.cells h')) (takes g h name w)
      (with_field g h (name_or_empty name) w) w (o, other_changed w.cells h _ h' ne) (o, refl)

pub create-new :
    (c : Field) (n : ℕ) (w : Cells)
    → byte_count c ≤ n
    → let (rc, (h, w')) = create c n w in
      (rc ≡ solclient_ok) × (h < w'.next) × (w'.cells h ≡ c) × (w'.limits h ≡ some n)
create-new c n w fits = (
  ground (arith, fits),
  omega arith,
  same_changed w.cells w.next c,
  same_changed w.limits w.next (some n),
)

pub new_cell-other :
    (c : Field) (limit : Option ℕ) (w : Cells) (h' : ℕ)
    → h' < w.next
    → (h' < (new_cell c limit w).next)
      × (h' ≢ w.next)
      × ((new_cell c limit w).cells h' ≡ w.cells h')
new_cell-other c limit w h' o =
    let ne : h' ≢ w.next = λ e. omega (arith, e, o) in
    (omega (arith, o), ne, other_changed w.cells w.next c h' ne)

abbrev pub store : Store containers
store = record {
  value = λ h w. w.cells h;
  IsOpen = λ h w. h < w.next;
  IsKept = Keeps;
  limit = λ h w. w.limits h;
  bytes = byte_count;
  bytes_grow = put_field-byte_count;
  limit_kept = λ {w} {w'} h k o. k.limits h o;
  kept_refl = same-Keeps;
  kept_trans = λ {w} {w'} {w''} a b. record {
    log = b.log ∙ a.log;
    dests = b.dests ∙ a.dests;
    bodies = b.bodies ∙ a.bodies;
    grows = omega (arith, a.grows, b.grows);
    limits = λ h o. b.limits h (omega (arith, a.grows, o)) ∙ a.limits h o;
  };
  item_kept = λ h a name w. put_item-Keeps (stored a) h name w;
  stream_kept = λ p n w. new_cell-Keeps (stream_of end) (some n) w;
  map_kept = λ p n w. new_cell-Keeps (map_of end) (some n) w;
  container_kept = λ h new w. put_item-Keeps (some (w.cells new)) h none w;
  item_added = λ h a name w f k. put_item-added (stored a) h name w f k;
  item_other = λ h h' a name w. put_item-other (stored a) h h' name w;
  stream_new = λ p n w. create-new (stream_of end) n w;
  stream_other = λ p h' n w o. new_cell-other (stream_of end) (some n) w h' o;
  map_new = λ p n w. create-new (map_of end) n w;
  map_other = λ p h' n w o. new_cell-other (map_of end) (some n) w h' o;
  container_added = λ h new w o o' ne kind room.
      put_item-added (some (w.cells new)) h none w (w.cells new) a_stream o refl kind tt room;
  container_other = λ h new h' w o ne ne'. put_item-other (some (w.cells new)) h h' none w o ne;
}

abbrev pub post : Post messages store
post = record {
  sent = λ w. w.sent;
  IsLive = λ m w. m < w.next;
  IsFor = λ m dest w. (m < w.next) × (w.dests m ≡ dest);
  IsBody = λ m dest h w. (m < w.next) × (w.dests m ≡ dest) × (w.bodies m ≡ h);
  kept_body = λ {m} {dest} {h} {w} {w'} k b.
      (omega (arith, b.0, k.grows), ap (λ f. f m) k.dests ∙ b.1, ap (λ f. f m) k.bodies ∙ b.2);
  kept_sent = λ {w} {w'} k. k.log;
  alloc_ok = λ w. (refl, refl, omega arith);
  mode_ok = λ m w l. (refl, refl, l);
  destination_ok = λ m dest w l. (refl, refl, (l, same_changed w.dests m dest));
  attachment_ok = λ m dest w b. (
    refl,
    refl,
    (omega (arith, b.0), b.1, same_changed w.bodies m w.next),
    omega arith,
    same_changed w.cells w.next (stream_of end),
    same_changed w.limits w.next none,
  );
  send_ok = λ m dest h w b. (refl, ap₂ (λ d i. w.sent ++ ((d, w.cells i) ∷ [])) b.1 b.2, b.0);
  free_ok = λ m w l. (refl, refl);
}
