-- ===== src/Wire/Trace.antt =====
-- Both threads at work: the Solace thread writes messages, the q thread runs `callback`, and the writes
-- may fall between `cb_size` and `cb_read` of a callback. A call of `write_to_buffer` is one step, so a
-- look at the size in the middle of a copy is left out (see Ring/Threads).
pub mod Writer
pub mod Reader
pub mod Safety
use kdb_solace.Base.{
  ℕ, ◌+◌, ◌-◌, ◌≤◌, ◌<◌, ◌≡◌, sym, ap, ◌∙◌, List, [], ◌∷◌, ◌++◌, map, length, append-nil,
  append_assoc, ℤ, pos, Option, none, some,
}
use kdb_solace.Memory.{Bytes}
use kdb_solace.Ring.{done}
use kdb_solace.Kdb.{K, Timespec}
use kdb_solace.Wire.{
  Feed, buffer_size, max_msg_size, write_to_buffer, returned, callback_take, callback_look,
}
use kdb_solace.Wire.Frames.{frames}
use kdb_solace.Wire.Deliver.{Holds}
use kdb_solace.Wire.Receive.{IsReadable, AllReadable}
use kdb_solace.Wire.Delivery.{batch}

abbrev pub flatten : {A : Type 0} → List (List A) → List A
flatten [] = []
flatten (ms ∷ l) = ms ++ flatten l

pub flatten-append_one :
    (l : List (List Bytes)) (ms : List Bytes) → flatten (l ++ (ms ∷ [])) ≡ flatten l ++ ms
flatten-append_one [] ms = append-nil ms
flatten-append_one (ks ∷ l) ms =
    ap (λ r. ks ++ r) (flatten-append_one l ms) ∙ sym (append_assoc ks (flatten l) ms)

-- `looked` is the size that a callback under way has read.
pub record System : Type 0 where
  pub feed : Feed
  pub looked : Option ℤ

-- The runs from a state on, with the messages that have been accepted, oldest first.
pub data Trace (d9 : Bytes → K) (clock : ℕ → Timespec) (f : Feed)
    : System → List Bytes → Type 0 where
  start : Trace d9 clock f (record { feed = f; looked = none }) []
  write :
      {s : System} {sent : List Bytes} (x : Bytes) (g : Feed)
      → Trace d9 clock f s sent
      → IsReadable d9 clock x
      → write_to_buffer s.feed x ≡ done g
      → Trace d9 clock f (record s { feed = g }) (sent ++ (x ∷ []))
  drop :
      {s : System} {sent : List Bytes} (x : Bytes) (g : Feed)
      → Trace d9 clock f s sent
      → max_msg_size ≤ length x
      → length x + 8 ≤ buffer_size
      → write_to_buffer s.feed x ≡ done g
      → Trace d9 clock f (record s { feed = g }) sent
  look :
      {s : System} {sent : List Bytes} (g : Feed) (q : ℤ)
      → Trace d9 clock f s sent
      → s.looked ≡ none
      → callback_look s.feed ≡ returned (g, q)
      → Trace d9 clock f (record { feed = g; looked = some q }) sent
  take :
      {s : System} {sent : List Bytes} (g : Feed) (q : ℤ)
      → Trace d9 clock f s sent
      → s.looked ≡ some q
      → callback_take d9 clock s.feed q ≡ returned g
      → Trace d9 clock f (record { feed = g; looked = none }) sent

module _ (d9 : Bytes → K) (clock : ℕ → Timespec) where
  -- `seen` are the messages that a callback under way has read the size of, `later` those behind them.
  pub record Accounted (f : Feed) (s : System) (sent : List Bytes) : Type 0 where
    pub gone : List (List Bytes)
    pub seen : List Bytes
    pub later : List Bytes
    pub holds : Holds s.feed (seen ++ later)
    pub readable : AllReadable d9 clock seen × AllReadable d9 clock later
    pub idle : s.looked ≡ none → seen ≡ []
    pub busy : (q : ℤ) → s.looked ≡ some q → q ≡ pos (length (frames seen))
    pub order : sent ≡ flatten gone ++ (seen ++ later)
    pub batches : s.feed.batches ≡ f.batches ++ map (batch d9 clock) gone
    pub wakes : 0 < length later → 0 < s.feed.dots
