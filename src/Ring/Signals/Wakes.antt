-- ===== src/Ring/Signals/Wakes.antt =====
-- No wake-up of a sleeping writer of src/cb.c is lost.
use mathlib.Core.Option.{some-injective}
use kdb_solace.Base.{
  Option, Option-cases, inl, inr, ℕ, ◌≤◌, ◌<◌, ◌≡◌, refl, subst, ap, ◌∙◌, true, false, ◌++◌, none,
  some, arith, length, take, length-append, length-take, take_all, nil_of_length,
}
use kdb_solace.Memory.{Bytes}
use kdb_solace.Ring.{Cb, Outcome, done, waits, cb_write, cb_read}
use kdb_solace.Ring.Invariant.{IsValid, contents}
use kdb_solace.Ring.Write.{cb_write-done}
use kdb_solace.Ring.Read.{Took, cb_read-done}
use kdb_solace.Ring.Signals.{
  Pending, Shared, signal_o, after_write, signal_after_read, wake, write_or_sleep, resume_with,
  resume, read_and_signal,
}

-- A read of all that is held empties the buffer.
drained :
    {b c : Cb} {dst out : Bytes}
    → length (contents b) ≤ length dst
    → Took b dst (length (contents b)) c out
    → length (contents c) ≡ 0
drained {b} {c} {dst} {out} room x = omega (
  arith,
  ap length x.taken,
  length-append (take (length (contents b)) out) (contents c),
  length-take (length (contents b)) out,
  x.size,
)

-- The runs of the writing thread and of the reading one. The writer makes no call while one is pending.
pub data Run (b : Cb) : Shared → Type 0 where
  begin : Run b (record { buffer = b; asleep = none; woken = none })
  writes :
      {s : Shared} (p : Pending) (s' : Shared)
      → Run b s
      → s.asleep ≡ none
      → s.woken ≡ none
      → write_or_sleep s p ≡ done s'
      → Run b s'
  resumes : {s : Shared} (s' : Shared) → Run b s → resume s ≡ done s' → Run b s'
  reads :
      {s : Shared} (dst : Bytes) (k : ℕ) (s' : Shared) (out : Bytes)
      → Run b s
      → read_and_signal s dst k ≡ done (s', out)
      → Run b s'

-- Whoever sleeps would wait again, and nobody has been woken meanwhile.
record IsSound (s : Shared) : Type 0 where
  pub no_room : (p : Pending) → s.asleep ≡ some p → cb_write s.buffer p.src p.k true ≡ waits
  pub quiet : (p : Pending) → s.asleep ≡ some p → s.woken ≡ none

all_awake-IsSound : (s : Shared) → s.asleep ≡ none → IsSound s
all_awake-IsSound s awake = record { no_room = λ p e. absurd cc; quiet = λ p e. absurd cc }

asleep-IsSound :
    (s : Shared) (p : Pending)
    → cb_write s.buffer p.src p.k true ≡ waits
    → s.woken ≡ none
    → IsSound (record s { asleep = some p })
asleep-IsSound s p is quiet = record {
  no_room =
      λ q same. subst (λ q. cb_write s.buffer q.src q.k true ≡ waits) (some-injective _ _ same) is;
  quiet = λ q same. quiet;
}

after_write-IsSound :
    (s : Shared) (p : Pending) (r : Outcome Cb) (s' : Shared)
    → cb_write s.buffer p.src p.k true ≡ r
    → s.asleep ≡ none
    → s.woken ≡ none
    → after_write s p r ≡ done s'
    → IsSound s'
after_write-IsSound s p (done c) s' is awake quiet e =
    all_awake-IsSound s' (ground (arith, awake, e))
after_write-IsSound s p waits s' is awake quiet e =
    let same : record s { asleep = some p } ≡ s' = cc in
    subst IsSound same (asleep-IsSound s p is quiet)
after_write-IsSound s p _ s' is awake quiet e = absurd cc

wake_all : (o : Option Pending) (s : Shared) → s.asleep ≡ o → (wake o s).asleep ≡ none
wake_all none s e = e
wake_all (some p) s e = refl

signal_after_read-IsSound :
    (s : Shared) (r : Outcome (Cb × Bytes)) (s' : Shared) (out : Bytes)
    → signal_after_read s r ≡ done (s', out)
    → IsSound s'
signal_after_read-IsSound s (done (c, read)) s' out e =
    let same : signal_o (record s { buffer = c }) ≡ s' = cc in
    subst IsSound same (
      all_awake-IsSound (signal_o (record s { buffer = c }))
        (wake_all s.asleep (record s { buffer = c }) refl))
signal_after_read-IsSound s _ s' out e = absurd cc

resume-IsSound :
    (s s' : Shared) (o : Option Pending)
    → IsSound s
    → s.woken ≡ o
    → resume_with o s ≡ done s'
    → IsSound s'
unfolding write_or_sleep
resume-IsSound s s' none h w e = let same : s ≡ s' = cc in subst IsSound same h
resume-IsSound s s' (some p) h w e = elim (Option-cases s.asleep) [
  | inl awake ↦
      after_write-IsSound (record s { woken = none }) p (cb_write s.buffer p.src p.k true) s' refl
        awake refl e
  | inr (q, sleeps) ↦ absurd (cc (h.quiet q sleeps))
]

Run-IsSound : {b : Cb} {s : Shared} → Run b s → IsSound s
unfolding write_or_sleep resume read_and_signal
Run-IsSound begin = all_awake-IsSound _ refl
Run-IsSound (writes {s} p s' run awake quiet e) =
    after_write-IsSound s p (cb_write s.buffer p.src p.k true) s' refl awake quiet e
Run-IsSound (resumes {s} s' run e) = resume-IsSound s s' s.woken (Run-IsSound run) refl e
Run-IsSound (reads {s} dst k s' out run e) =
    signal_after_read-IsSound s (cb_read s.buffer dst k false) s' out e

-- In every run of a writer and a reader, whoever sleeps for room would wait again, so no signal was lost.
-- A read of everything held, into an array that can take it, wakes the sleeper; if it writes fewer bytes
-- than the capacity, from an array of so many, and the buffer is valid, its call then goes through, and
-- the buffer holds just these bytes.
pub Run-resume :
    {b : Cb} {s : Shared} (p : Pending) (dst : Bytes)
    → Run b s
    → s.asleep ≡ some p
    → IsValid s.buffer
    → length p.src ≡ p.k
    → p.k < s.buffer.n
    → length (contents s.buffer) ≤ length dst
    → (s1 : Shared) × (out : Bytes) × (s2 : Shared) × (cb_write s.buffer p.src p.k true ≡ waits)
      × (read_and_signal s dst (length (contents s.buffer)) ≡ done (s1, out))
      × (s1.woken ≡ some p)
      × (resume s1 ≡ done s2)
      × (s2.asleep ≡ none)
      × (contents s2.buffer ≡ p.src)
unfolding read_and_signal resume write_or_sleep
Run-resume {b} {s} p dst run sleeps v whole small room =
    let (c, out, e, x) =
      cb_read-done s.buffer dst (length (contents s.buffer)) false v (omega arith) room in
    let empty : length (contents c) ≡ 0 = drained room x in
    let (d, f, y) =
      cb_write-done c p.src p.k true x.valid (omega (arith, whole)) (omega (arith, x.cap)) in
    let s1 : Shared = record { buffer = c; asleep = none; woken = some p } in
    (
      s1,
      out,
      record { buffer = d; asleep = none; woken = none },
      (Run-IsSound run).no_room p sleeps,
      ap (signal_after_read s) e ∙ ap (λ o. done (wake o (record s { buffer = c }), out)) sleeps,
      refl,
      ap (after_write (record s1 { woken = none }) p) f,
      refl,
      y.bytes
          ∙ ap (λ l. l ++ take p.k p.src) (nil_of_length (contents c) empty)
          ∙ take_all p.k p.src (omega (arith, whole)),
    )
