-- ===== src/Wire/Trace/Safety.antt =====
-- What holds in every run of `write_to_buffer` and `callback`.
use kdb_solace.Base.{
  ℕ, ◌+◌, ◌-◌, ◌≤◌, ◌<◌, ◌≡◌, refl, ap, ◌∙◌, List, [], ◌∷◌, ◌++◌, arith, length, ℤ, pos, ◌⊎◌, none,
  some,
}
use kdb_solace.Memory.{Bytes}
use kdb_solace.Ring.{done, waits, cb_size}
use kdb_solace.Ring.Invariant.{contents}
use kdb_solace.Kdb.{K, Timespec, increment}
use kdb_solace.Wire.{Feed, buffer_size, write_to_buffer, returned, callback_take, callback_look}
use kdb_solace.Wire.Frames.{frames, frames-append}
use kdb_solace.Wire.Deliver.{Holds, write_to_buffer_outcomes}
use kdb_solace.Wire.Delivery.{take_frames}
use kdb_solace.Wire.Trace.{System, Trace, start, write, drop, look, take, Accounted}
use kdb_solace.Wire.Trace.Writer.{start-Accounted, write-Accounted, drop-Accounted}
use kdb_solace.Wire.Trace.Reader.{look-Accounted, take-Accounted, look_returns}

module _ (d9 : Bytes → K) (clock : ℕ → Timespec) where
  returns_by :
      {f : Feed} {s : System} {sent : List Bytes} {q : ℤ} (a : Accounted d9 clock f s sent)
      → s.looked ≡ some q
      → (g : Feed) × (callback_take d9 clock s.feed q ≡ returned g)
  returns_by {s = s} {q = q} a under = go a.seen refl
    where
      go :
          (l : List Bytes)
          → a.seen ≡ l
          → (g : Feed) × (callback_take d9 clock s.feed q ≡ returned g)
      go [] empty = (
        record s.feed { callbackcounter = increment s.feed.callbackcounter },
        unfold callback_take in rw (a.busy q under ∙ ap (λ l. pos (length (frames l))) empty),
      )
      go (m ∷ ms) some_seen =
          let (k, e, h, rest) =
            take_frames d9 clock s.feed a.seen (frames a.later) a.holds.queue
              (a.holds.bytes ∙ frames-append a.seen a.later)
              (omega (arith, a.holds.rbuf, a.holds.cap)) a.readable.0 (λ n. cc) in
          (k, rw (a.busy q under) e)

  -- In every run from an empty queue each accepted message is handed to q exactly once and in order, or
  -- is still in the queue; and while messages are there that no callback has seen, a byte in the socket
  -- pair will start one.
  pub Trace-Accounted :
      (f : Feed) {s : System} {sent : List Bytes}
      → Holds f []
      → Trace d9 clock f s sent
      → Accounted d9 clock f s sent
  Trace-Accounted f h start = start-Accounted d9 clock f h
  Trace-Accounted f h (write x g t r e) =
      write-Accounted d9 clock f _ _ x g (Trace-Accounted f h t) r e
  Trace-Accounted f h (drop x g t big fits e) =
      drop-Accounted d9 clock f _ _ x g (Trace-Accounted f h t) big fits e
  Trace-Accounted f h (look g q t free e) =
      look-Accounted d9 clock f _ _ g q (Trace-Accounted f h t) free e
  Trace-Accounted f h (take g q t under e) =
      take-Accounted d9 clock f _ _ g q (Trace-Accounted f h t) under e

  -- What a callback under way comes to: it returns, it never faults and no `assert` fails.
  pub callback_returns :
      (f : Feed) {s : System} {sent : List Bytes} (q : ℤ)
      → Holds f []
      → Trace d9 clock f s sent
      → s.looked ≡ some q
      → (g : Feed) × (callback_take d9 clock s.feed q ≡ returned g)
  callback_returns f q h t under = returns_by (Trace-Accounted f h t) under

  -- A call of `write_to_buffer` in such a run, of a message that `msgbuff` can take, never faults: it
  -- returns, or it waits for room.
  pub write_returns_or_waits :
      (f : Feed) {s : System} {sent : List Bytes} (x : Bytes)
      → Holds f []
      → Trace d9 clock f s sent
      → 0 < length x
      → length x + 8 ≤ buffer_size
      → ((g : Feed) × (write_to_buffer s.feed x ≡ done g)) ⊎ (write_to_buffer s.feed x ≡ waits)
  write_returns_or_waits f {s} x h t some_bytes fits =
      let a = Trace-Accounted f h t in
      write_to_buffer_outcomes s.feed (a.seen ++ a.later) x a.holds some_bytes fits

  held_messages :
      (f : Feed) {s : System} {sent : List Bytes}
      → (a : Accounted d9 clock f s sent) → s.looked ≡ none
      → 0 < length (contents s.feed.queue)
      → 0 < length a.later
  held_messages f {s} a free held = go a.later refl
    where
      go : (l : List Bytes) → a.later ≡ l → 0 < length a.later
      go [] e = absurd (
          omega (
            arith,
            ap length (a.holds.bytes ∙ ap (λ l. frames (l ++ a.later)) (a.idle free) ∙ ap frames e),
          ))
      go (m ∷ ms) e = omega (arith, ap length e)

  -- No message is stranded: whenever the queue holds a byte and no callback is under way, a byte in the
  -- socket pair lets the next callback past `recv`.
  pub callback_starts :
      (f : Feed) {s : System} {sent : List Bytes}
      → Holds f []
      → Trace d9 clock f s sent
      → s.looked ≡ none
      → 0 < length (contents s.feed.queue)
      → callback_look s.feed
        ≡ returned (record s.feed { dots = s.feed.dots - 1 }, cb_size s.feed.queue)
  callback_starts f {s} h t free held =
      let a = Trace-Accounted f h t in look_returns s.feed (a.wakes (held_messages f a free held))
