-- ===== src/Carried/Cells.antt =====
-- A small client library, written out, to try the theorems on: containers are cells that are told apart by
-- their numbers and take so many bytes at most, and what is sent is kept in a log. A call that gives a
-- name to a field of a stream, or none to one of a map, or more than a cell takes, fails.
use kdb_solace.Base.{
  ℕ, ◌+◌, ◌≤◌, ◌≡◌, ◌≢◌, refl, Option, none, some, List, [], ◌∷◌, ◌++◌, ◌==◌, leb, ◌&&◌, Bool, true,
  false, ℤ, length, if◌then◌else◌, arith,
}
use kdb_solace.Memory.{Bytes}
use kdb_solace.Solclient.{solclient_ok, solclient_fail}
use kdb_solace.Field.{Field, string, bytearray, stream_of, map_of, Fields, end, field}
use kdb_solace.Container.{Containers}
use kdb_solace.Message.{Messages}
use kdb_solace.Carried.{stored, append_field}
use kdb_solace.Carried.Store.{
  name_or_empty, put_field, Kind, a_map, a_stream, IsKind, IsNamed, IsWithin,
}

-- A function that is changed at one number.
abbrev pub changed : {A : Type 0} → (ℕ → A) → ℕ → A → ℕ → A
changed f k v i = if i == k then v else f i

pub same_changed : {A : Type 0} (f : ℕ → A) (k : ℕ) (v : A) → changed f k v k ≡ v
same_changed f k v = ground arith

pub other_changed : {A : Type 0} (f : ℕ → A) (k : ℕ) (v : A) (i : ℕ) → i ≢ k → changed f k v i ≡ f i
other_changed f k v i ne = ground (arith, ne)

-- How many bytes a field takes: nine for one of a fixed size, four and its bytes for one of any, and for
-- a container four and those of its fields, each with one and its name more.
unfoldable mutual
  pub byte_count : Field → ℕ
  byte_count (string s) = 4 + length s
  byte_count (bytearray s) = 4 + length s
  byte_count (map_of fs) = 4 + byte_counts fs
  byte_count (stream_of fs) = 4 + byte_counts fs
  byte_count _ = 9

  pub byte_counts : Fields → ℕ
  byte_counts end = 0
  byte_counts (field name f fs) = 1 + length name + byte_count f + byte_counts fs

append_field-byte_counts :
    (fs : Fields) (name : Bytes) (f : Field) → byte_counts fs ≤ byte_counts (append_field fs name f)
unfolding byte_counts
append_field-byte_counts end name f = omega arith
append_field-byte_counts (field n g fs) name f = omega (arith, append_field-byte_counts fs name f)

pub put_field-byte_count :
    (c : Field) (name : Bytes) (f : Field) → byte_count c ≤ byte_count (put_field c name f)
unfolding byte_count
put_field-byte_count (map_of fs) name f = omega (arith, append_field-byte_counts fs name f)
put_field-byte_count (stream_of fs) name f = omega (arith, append_field-byte_counts fs name f)
put_field-byte_count _ name f = omega arith

-- `limits` has the most bytes that a cell takes, if there is such a bound. `next` is the next number for a
-- container or a message; a message has a destination and a body.
pub record Cells : Type 0 where
  pub next : ℕ
  pub cells : ℕ → Field
  pub limits : ℕ → Option ℕ
  pub dests : ℕ → Bytes
  pub bodies : ℕ → ℕ
  pub sent : List (Bytes × Field)

abbrev pub suits : Field → Option Bytes → Bool
suits (map_of fs) (some name) = true
suits (stream_of fs) none = true
suits _ _ = false

abbrev pub within : Option ℕ → ℕ → Bool
within none n = true
within (some m) n = leb n m

pub suits-true :
    (k : Kind) (c : Field) (name : Option Bytes) → IsKind k c → IsNamed k name → suits c name ≡ true
suits-true a_map (map_of fs) (some name) h n = refl
suits-true a_stream (stream_of fs) none h n = refl
suits-true _ _ _ h n = ground (arith, h, n)

pub within-true : (o : Option ℕ) (n : ℕ) → IsWithin o n → within o n ≡ true
within-true none n h = refl
within-true (some m) n h = ground (arith, h)

-- A call that is made, or that fails and changes nothing.
abbrev pub made : Bool → Cells → Cells → ℤ × Cells
made true after before = (solclient_ok, after)
made false after before = (solclient_fail, before)

pub made-either :
    (P : Cells → Type 0) (b : Bool) (after before : Cells)
    → P after
    → P before
    → P (made b after before).1
made-either P true after before p q = p
made-either P false after before p q = q

-- The cell h with one more field.
abbrev pub with_field : Field → ℕ → Bytes → Cells → Cells
with_field f h name w = record w { cells = changed w.cells h (put_field (w.cells h) name f) }

abbrev pub takes : Field → ℕ → Option Bytes → Cells → Bool
takes f h name w =
    suits (w.cells h) name
    && within (w.limits h) (byte_count (put_field (w.cells h) (name_or_empty name) f))

abbrev pub put_item : Option Field → ℕ → Option Bytes → Cells → ℤ × Cells
put_item none h name w = (solclient_fail, w)
put_item (some f) h name w = made (takes f h name w) (with_field f h (name_or_empty name) w) w

abbrev pub new_cell : Field → Option ℕ → Cells → Cells
new_cell c limit w = record w {
  next = w.next + 1;
  cells = changed w.cells w.next c;
  limits = changed w.limits w.next limit;
}

-- A new cell in memory that takes n bytes.
abbrev pub create : Field → ℕ → Cells → ℤ × (ℕ × Cells)
create c n w =
    (if leb (byte_count c) n then solclient_ok else solclient_fail, (w.next, new_cell c (some n) w))

abbrev pub containers : Containers
containers = record {
  World = Cells;
  Handle = ℕ;
  null_handle = 0;
  create_map = λ p n w. create (map_of end) n w;
  create_stream = λ p n w. create (stream_of end) n w;
  add_item = λ h a name w. put_item (stored a) h name w;
  add_container = λ h new w. put_item (some (w.cells new)) h none w;
}

abbrev pub messages : Messages
messages = record {
  containers = containers;
  Message = ℕ;
  msg_alloc = λ w. (solclient_ok, (w.next, record w { next = w.next + 1 }));
  set_delivery_mode = λ m w. (solclient_ok, w);
  set_destination = λ m dest w. (solclient_ok, record w { dests = changed w.dests m dest });
  create_attachment_stream = λ m w. (
    solclient_ok,
    (w.next, record (new_cell (stream_of end) none w) { bodies = changed w.bodies m w.next }),
  );
  send_msg =
      λ m w. (solclient_ok, record w { sent = w.sent ++ ((w.dests m, w.cells (w.bodies m)) ∷ []) });
  msg_free = λ m w. (solclient_ok, w);
}
