-- ===== src/Wire/Trace/Reader.antt =====
-- The two steps of `callback` of src/solace_k.c in a run of both threads.
use mathlib.Core.List.{map-append}
use kdb_solace.Base.{
  ℕ, ◌-◌, ◌<◌, ◌≡◌, refl, sym, ap, ◌∙◌, subst, List, [], ◌∷◌, ◌++◌, map, arith, length, append-nil,
  append_assoc, ℤ, pos, none, some,
}
use kdb_solace.Memory.{Bytes}
use kdb_solace.Ring.{cb_size}
use kdb_solace.Ring.Invariant.{contents, size-space}
use kdb_solace.Kdb.{K, Timespec, increment}
use kdb_solace.Wire.{Feed, returned, callback_take, callback_look}
use kdb_solace.Wire.Frames.{frames, frames-append}
use kdb_solace.Wire.Deliver.{Holds}
use kdb_solace.Wire.Delivery.{batch, HandedOver, take_frames}
use kdb_solace.Wire.Trace.{System, Accounted, flatten, flatten-append_one}

-- With a byte in the socket pair a callback gets past `recv`.
pub look_returns :
    (f : Feed)
    → 0 < f.dots
    → callback_look f ≡ returned (record f { dots = f.dots - 1 }, cb_size f.queue)
unfolding callback_look
look_returns f h = ground arith

module _ (d9 : Bytes → K) (clock : ℕ → Timespec) where
  Holds-dots : {f : Feed} {ms : List Bytes} (n : ℕ) → Holds f ms → Holds (record f { dots = n }) ms
  Holds-dots n h = record {
    queue = h.queue;
    cap = h.cap;
    msgbuff = h.msgbuff;
    rbuf = h.rbuf;
    room = h.room;
    bytes = h.bytes;
  }

  Holds-counter :
      {f : Feed} {ms : List Bytes} (n : ℕ)
      → Holds f ms
      → Holds (record f { callbackcounter = n }) ms
  Holds-counter n h = record {
    queue = h.queue;
    cap = h.cap;
    msgbuff = h.msgbuff;
    rbuf = h.rbuf;
    room = h.room;
    bytes = h.bytes;
  }

  looked_at :
      (f g : Feed) (q : ℤ)
      → callback_look f ≡ returned (g, q)
      → (0 < f.dots) × (g ≡ record f { dots = f.dots - 1 }) × (q ≡ cb_size f.queue)
  unfolding callback_look
  looked_at f g q e = ground arith

  pub look-Accounted :
      (f : Feed) (s : System) (sent : List Bytes) (g : Feed) (q : ℤ)
      → Accounted d9 clock f s sent
      → s.looked ≡ none
      → callback_look s.feed ≡ returned (g, q)
      → Accounted d9 clock f (record { feed = g; looked = some q }) sent
  look-Accounted f s sent g q a free e =
      let (dots, same, size) = looked_at s.feed g q e in
      let none_seen = a.idle free in
      record {
        gone = a.gone;
        seen = a.later;
        later = [];
        holds =
            subst (λ k. Holds k (a.later ++ [])) (sym same)
              (subst (Holds (record s.feed { dots = s.feed.dots - 1 })) (sym (append-nil a.later)) (
                Holds-dots (s.feed.dots - 1)
                  (subst (λ l. Holds s.feed (l ++ a.later)) none_seen a.holds)));
        readable = (a.readable.1, tt);
        idle = λ e. cc;
        busy = λ q' e.
            let eq : q' ≡ q = cc in
            eq
            ∙ size
            ∙ (size-space s.feed.queue a.holds.queue).0
            ∙ ap (λ l. pos (length l)) (a.holds.bytes ∙ ap (λ l. frames (l ++ a.later)) none_seen);
        order =
            a.order
            ∙ ap (λ l. flatten a.gone ++ (l ++ a.later)) none_seen
            ∙ ap (λ l. flatten a.gone ++ l) (sym (append-nil a.later));
        batches = ap (λ k. k.batches) same ∙ a.batches;
        wakes = λ p. absurd (omega arith);
      }

  module _ (f : Feed) (s : System) (sent : List Bytes) (g : Feed) (q : ℤ)
      (a : Accounted d9 clock f s sent) (under : s.looked ≡ some q)
      (e : callback_take d9 clock s.feed q ≡ returned g) where
    -- A callback that saw an empty queue only counts itself.
    took_nothing :
        a.seen ≡ [] → g ≡ record s.feed { callbackcounter = increment s.feed.callbackcounter }
    unfolding callback_take
    took_nothing empty =
        let zero_size : q ≡ pos 0 = a.busy q under ∙ ap (λ l. pos (length (frames l))) empty in
        let done_at_once : callback_take d9 clock s.feed (pos 0) ≡ returned g =
          subst (λ n. callback_take d9 clock s.feed n ≡ returned g) zero_size e in
        ground (arith, done_at_once)

    took_messages :
        (m : Bytes) (ms : List Bytes)
        → a.seen ≡ m ∷ ms
        → HandedOver d9 clock s.feed a.seen g × (contents g.queue ≡ frames a.later)
    took_messages m ms some_seen =
        let (k, e', h, rest) =
          take_frames d9 clock s.feed a.seen (frames a.later) a.holds.queue
            (a.holds.bytes ∙ frames-append a.seen a.later)
            (omega (arith, a.holds.rbuf, a.holds.cap)) a.readable.0 (λ n. cc) in
        let same : k ≡ g = cc (a.busy q under, e) in
        subst (λ g. HandedOver d9 clock s.feed a.seen g × (contents g.queue ≡ frames a.later)) same
          (h, rest)

    take_by :
        (l : List Bytes)
        → a.seen ≡ l
        → Accounted d9 clock f (record { feed = g; looked = none }) sent
    take_by [] empty = record {
      gone = a.gone;
      seen = [];
      later = a.later;
      holds =
          subst (λ k. Holds k a.later) (sym (took_nothing empty))
            (Holds-counter (increment s.feed.callbackcounter)
              (subst (λ l. Holds s.feed (l ++ a.later)) empty a.holds));
      readable = (tt, a.readable.1);
      idle = λ _. refl;
      busy = λ q e. cc;
      order = a.order ∙ ap (λ l. flatten a.gone ++ (l ++ a.later)) empty;
      batches = ap (λ k. k.batches) (took_nothing empty) ∙ a.batches;
      wakes = λ p. omega (arith, a.wakes p, ap (λ k. k.dots) (took_nothing empty));
    }
    take_by (m ∷ ms) some_seen =
        let (h, rest) = took_messages m ms some_seen in
        record {
          gone = a.gone ++ (a.seen ∷ []);
          seen = [];
          later = a.later;
          holds = record {
            queue = h.queue;
            cap = h.cap ∙ a.holds.cap;
            msgbuff = ap length h.others.2 ∙ a.holds.msgbuff;
            rbuf = h.rbuf ∙ a.holds.rbuf;
            room = omega (arith, h.others.1, a.holds.room);
            bytes = rest;
          };
          readable = (tt, a.readable.1);
          idle = λ _. refl;
          busy = λ q e. cc;
          order =
              a.order
              ∙ sym (append_assoc (flatten a.gone) a.seen a.later)
              ∙ ap (λ l. l ++ a.later) (sym (flatten-append_one a.gone a.seen));
          batches =
              h.batches
              ∙ ap (λ l. l ++ (batch d9 clock a.seen ∷ [])) a.batches
              ∙ append_assoc f.batches (map (batch d9 clock) a.gone) (batch d9 clock a.seen ∷ [])
              ∙ ap (λ l. f.batches ++ l) (sym (map-append (batch d9 clock) a.gone (a.seen ∷ [])));
          wakes = λ p. omega (arith, a.wakes p, h.others.0);
        }

    pub take-Accounted : Accounted d9 clock f (record { feed = g; looked = none }) sent
    take-Accounted = take_by a.seen refl
