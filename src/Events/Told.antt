-- ===== src/Events/Told.antt =====
-- What q is called with in a run of the receiving process (src/solace.c, src/solace_k.c).
use mathlib.Core.List.{map-append}
use kdb_solace.Base.{
  ℕ, ◌+◌, ◌<◌, ◌≡◌, refl, sym, ap, ap₂, subst, ◌∙◌, ◌⊎◌, inl, inr, Option, none, List, [], ◌∷◌,
  ◌++◌, map, length, append-nil, append_assoc, arith,
}
use kdb_solace.Memory.{Bytes}
use kdb_solace.Kdb.{K, Ks, nil, cons, list, dict, append_element, Timespec, current_time}
use kdb_solace.Ring.Invariant.{contents}
use kdb_solace.Wire.{Feed, rec_keys, returned, callback}
use kdb_solace.Wire.Deliver.{Holds}
use kdb_solace.Wire.Receive.{fields, received, AllReadable, all_received}
use kdb_solace.Wire.Delivery.{batch}
use kdb_solace.Wire.Callback.{callback_hands}
use kdb_solace.Wire.Trace.{System, flatten, flatten-append_one, Accounted}
use kdb_solace.Wire.Trace.Safety.{Trace-Accounted}
use kdb_solace.Events.{Session}
use kdb_solace.Events.Runs.{Receiver, Run, Serializes}
use kdb_solace.Events.Follows.{Run-Follows}

module _ (clock : ℕ → Timespec) where
  -- Lists with the time of reading behind them, under the eight keys; the clock is read for each.
  abbrev pub stamped_from : ℕ → List K → Ks
  stamped_from i [] = nil
  stamped_from i (y ∷ ys) =
      cons (dict rec_keys (list (append_element (fields y) (current_time (clock i)))))
        (stamped_from (i + 1) ys)

  abbrev pub stamped : List K → K
  stamped ys = list (stamped_from 0 ys)

  module _ (d9 : Bytes → K) where
    all_received-map :
        (i : ℕ) (ms : List Bytes) → all_received d9 clock i ms ≡ stamped_from i (map d9 ms)
    all_received-map i [] = refl
    all_received-map i (m ∷ ms) = ap (cons (received d9 clock i m)) (all_received-map (i + 1) ms)

    batches-map : (l : List (List Bytes)) → map (batch d9 clock) l ≡ map stamped (map (map d9) l)
    batches-map [] = refl
    batches-map (ms ∷ l) = ap₂ ◌∷◌ (ap list (all_received-map 0 ms)) (batches-map l)

    map-flatten : (l : List (List Bytes)) → map d9 (flatten l) ≡ flatten (map (map d9) l)
    map-flatten [] = refl
    map-flatten (ms ∷ l) = map-append d9 ms (flatten l) ∙ ap (λ r. map d9 ms ++ r) (map-flatten l)

    module _ (b9 : K → Option Bytes) (float_of_uint64 float_of_double : ℕ → ℕ) where
      abbrev Runs : Session → Receiver → List K → Type 0
      Runs = Run b9 d9 clock float_of_uint64 float_of_double

      accounted :
          (s0 : Session) {r : Receiver} {told : List K}
          → Serializes b9 d9
          → Holds s0.feed []
          → Runs s0 r told
          → (sent : List Bytes) × Accounted d9 clock s0.feed
              (record { feed = r.session.feed; looked = r.looked })
              sent
            × (told ≡ map d9 sent)
      accounted s0 ok h run =
          let t = Run-Follows b9 d9 clock float_of_uint64 float_of_double s0 ok h run in
          (t.sent, Trace-Accounted d9 clock s0.feed h t.trace, sym t.reads)

      -- In every run of events, messages and callbacks from an empty queue, the lists that could be
      -- serialized into less than 500 bytes are, in order, those that q has been called with, call by
      -- call, and then others. Every call in the run has
      -- returned, one of `write_to_buffer` is one step, and so are `callback` up to `cb_size` and `callback`
      -- from there on. What `b9` gives has a byte at least, and `d9` reads it back.
      pub Run-stamped :
          (s0 : Session) {r : Receiver} {told : List K}
          → Serializes b9 d9
          → Holds s0.feed []
          → Runs s0 r told
          → (handed : List (List K)) × (waiting : List K) × (told ≡ flatten handed ++ waiting)
            × (r.session.feed.batches ≡ s0.feed.batches ++ map stamped handed)
      Run-stamped s0 ok h run =
          let (sent, a, same) = accounted s0 ok h run in
          (
            map (map d9) a.gone,
            map d9 (a.seen ++ a.later),
            same
                ∙ ap (map d9) a.order
                ∙ map-append d9 (flatten a.gone) (a.seen ++ a.later)
                ∙ ap (λ l. l ++ map d9 (a.seen ++ a.later)) (map-flatten a.gone),
            a.batches ∙ ap (λ l. s0.feed.batches ++ l) (batches-map a.gone),
          )

      -- The calls with one more, of what is left.
      abbrev then_left : List (List Bytes) → List Bytes → List (List Bytes)
      then_left gone [] = gone
      then_left gone later = gone ++ (later ∷ [])

      flatten-then_left :
          (gone : List (List Bytes)) (later : List Bytes)
          → flatten (then_left gone later) ≡ flatten gone ++ later
      flatten-then_left gone [] = sym (append-nil (flatten gone))
      flatten-then_left gone (m ∷ ms) = flatten-append_one gone (m ∷ ms)

      abbrev Handed : Feed → Feed → List (List Bytes) → Type 0
      Handed f0 f gone = f.batches ≡ f0.batches ++ map stamped (map (map d9) gone)

      Handed-append_one :
          (f0 f g : Feed) (gone : List (List Bytes)) (later : List Bytes)
          → f.batches ≡ f0.batches ++ map (batch d9 clock) gone
          → g.batches ≡ f.batches ++ (batch d9 clock later ∷ [])
          → Handed f0 g (gone ++ (later ∷ []))
      Handed-append_one f0 f g gone later before more =
          more
          ∙ ap (λ l. l ++ (batch d9 clock later ∷ [])) before
          ∙ append_assoc f0.batches (map (batch d9 clock) gone) (batch d9 clock later ∷ [])
          ∙ ap (λ l. f0.batches ++ l)
              (sym (map-append (batch d9 clock) gone (later ∷ []))
                ∙ batches-map (gone ++ (later ∷ [])))

      next_callback :
          (f0 : Feed) {y : System} {sent : List Bytes} (a : Accounted d9 clock f0 y sent)
          (later : List Bytes)
          → Holds y.feed later
          → (0 < length later → 0 < y.feed.dots)
          → AllReadable d9 clock later
          → Handed f0 y.feed (then_left a.gone later)
            ⊎ ((g : Feed) × (callback d9 clock y.feed ≡ returned g)
                × (contents g.queue ≡ [])
                × Handed f0 g (then_left a.gone later))
      next_callback f0 {y} a [] holds wakes readable =
          inl (a.batches ∙ ap (λ l. f0.batches ++ l) (batches-map a.gone))
      next_callback f0 {y} a (m ∷ ms) holds wakes readable =
          let (g, runs, h, left) =
            callback_hands d9 clock y.feed (m ∷ ms) holds (wakes (omega arith)) readable
              (λ e. cc) in
          inr (g, runs, left, Handed-append_one f0 y.feed g a.gone (m ∷ ms) a.batches h.batches)

      -- In every run of events, messages and callbacks from an empty queue, with no callback under way,
      -- the lists that could be serialized into less than 500 bytes have all been handed to q in order,
      -- or the next callback returns, with all of them handed to q in order and the queue empty. Every call in the run has
      -- returned, one of `write_to_buffer` is one step, and so are `callback` up to `cb_size` and `callback`
      -- from there on. What `b9` gives has a byte at least, and `d9` reads it back.
      pub Run-callback :
          (s0 : Session) {r : Receiver} {told : List K}
          → Serializes b9 d9
          → Holds s0.feed []
          → Runs s0 r told
          → r.looked ≡ none
          → (handed : List (List K)) × (flatten handed ≡ told)
            × ((r.session.feed.batches ≡ s0.feed.batches ++ map stamped handed)
                ⊎ ((g : Feed) × (callback d9 clock r.session.feed ≡ returned g)
                    × (contents g.queue ≡ [])
                    × (g.batches ≡ s0.feed.batches ++ map stamped handed)))
      Run-callback s0 {r} ok h run free =
          let (sent, a, same) = accounted s0 ok h run in
          let none_seen = a.idle free in
          let gone = then_left a.gone a.later in
          (
            map (map d9) gone,
            sym (map-flatten gone)
                ∙ ap (map d9) (
                    flatten-then_left a.gone a.later
                    ∙ ap (λ l. flatten a.gone ++ (l ++ a.later)) (sym none_seen)
                    ∙ sym a.order)
                ∙ sym same,
            next_callback s0.feed a a.later
                (subst (λ l. Holds r.session.feed (l ++ a.later)) none_seen a.holds) a.wakes
                a.readable.1,
          )
