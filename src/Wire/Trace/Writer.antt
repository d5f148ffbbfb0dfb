-- ===== src/Wire/Trace/Writer.antt =====
-- The steps of the Solace thread (`write_to_buffer` of src/solace.c) in a run of both threads.
use kdb_solace.Base.{
  ℕ, ◌+◌, ◌≤◌, ◌<◌, ◌≡◌, refl, sym, ap, ◌∙◌, subst, List, [], ◌∷◌, ◌++◌, arith, length, append-nil,
  append_assoc, none, le_cases, inl, inr,
}
use kdb_solace.Memory.{Bytes}
use kdb_solace.Ring.{done}
use kdb_solace.Kdb.{K, Timespec}
use kdb_solace.Wire.{Feed, buffer_size, max_msg_size, write_to_buffer}
use kdb_solace.Wire.Frames.{frames, IsSmall}
use kdb_solace.Wire.Deliver.{
  Holds, write_to_buffer-Holds, write_to_buffer-drops, write_to_buffer-waits,
}
use kdb_solace.Wire.Receive.{IsReadable, AllReadable}
use kdb_solace.Wire.Trace.{System, Accounted, flatten}

module _ (d9 : Bytes → K) (clock : ℕ → Timespec) where
  AllReadable-append :
      (ms ks : List Bytes)
      → AllReadable d9 clock ms
      → AllReadable d9 clock ks
      → AllReadable d9 clock (ms ++ ks)
  AllReadable-append [] ks a b = b
  AllReadable-append (m ∷ ms) ks a b = (a.0, AllReadable-append ms ks a.1 b)

  pub start-Accounted :
      (f : Feed) → Holds f [] → Accounted d9 clock f (record { feed = f; looked = none }) []
  start-Accounted f h = record {
    gone = [];
    seen = [];
    later = [];
    holds = h;
    readable = (tt, tt);
    idle = λ _. refl;
    busy = λ q e. cc;
    order = refl;
    batches = sym (append-nil f.batches);
    wakes = λ p. absurd (omega arith);
  }

  -- A write goes through only if there is room, and the message is then the last of those held.
  wrote :
      (f g : Feed) (ms : List Bytes) (x : Bytes)
      → Holds f ms
      → IsSmall x
      → write_to_buffer f x ≡ done g
      → Holds g (ms ++ (x ∷ [])) × (0 < g.dots) × (g.batches ≡ f.batches)
  wrote f g ms x h small e = elim (le_cases buffer_size (length (frames ms) + length x + 8)) [
    | inl full ↦ let w = write_to_buffer-waits f ms x h small full in cc
    | inr fits ↦
        let (k, e', h', dots, b) = write_to_buffer-Holds f ms x h small fits in
        let same : k ≡ g = cc in
        subst (λ g. Holds g (ms ++ (x ∷ [])) × (0 < g.dots) × (g.batches ≡ f.batches)) same
          (h', dots, b)
  ]

  pub write-Accounted :
      (f : Feed) (s : System) (sent : List Bytes) (x : Bytes) (g : Feed)
      → Accounted d9 clock f s sent
      → IsReadable d9 clock x
      → write_to_buffer s.feed x ≡ done g
      → Accounted d9 clock f (record s { feed = g }) (sent ++ (x ∷ []))
  write-Accounted f s sent x g a r e =
      let (h, dots, b) = wrote s.feed g (a.seen ++ a.later) x a.holds r.small e in
      record {
        gone = a.gone;
        seen = a.seen;
        later = a.later ++ (x ∷ []);
        holds = subst (Holds g) (append_assoc a.seen a.later (x ∷ [])) h;
        readable = (a.readable.0, AllReadable-append a.later (x ∷ []) a.readable.1 (r, tt));
        idle = a.idle;
        busy = a.busy;
        order =
            ap (λ l. l ++ (x ∷ [])) a.order
            ∙ append_assoc (flatten a.gone) (a.seen ++ a.later) (x ∷ [])
            ∙ ap (λ l. flatten a.gone ++ l) (append_assoc a.seen a.later (x ∷ []));
        batches = b ∙ a.batches;
        wakes = λ _. dots;
      }

  pub drop-Accounted :
      (f : Feed) (s : System) (sent : List Bytes) (x : Bytes) (g : Feed)
      → Accounted d9 clock f s sent
      → max_msg_size ≤ length x
      → length x + 8 ≤ buffer_size
      → write_to_buffer s.feed x ≡ done g
      → Accounted d9 clock f (record s { feed = g }) sent
  drop-Accounted f s sent x g a big fits e =
      let (k, e', h, q, dots, b) =
        write_to_buffer-drops s.feed (a.seen ++ a.later) x a.holds big fits in
      let same : k ≡ g = cc in
      let facts : Holds g (a.seen ++ a.later)
          × (g.dots ≡ s.feed.dots)
          × (g.batches ≡ s.feed.batches) =
        subst
          (λ g. Holds g (a.seen ++ a.later) × (g.dots ≡ s.feed.dots) × (g.batches ≡ s.feed.batches))
          same (h, dots, b) in
      record {
        gone = a.gone;
        seen = a.seen;
        later = a.later;
        holds = facts.0;
        readable = a.readable;
        idle = a.idle;
        busy = a.busy;
        order = a.order;
        batches = facts.2 ∙ a.batches;
        wakes = λ p. omega (arith, a.wakes p, facts.1);
      }
