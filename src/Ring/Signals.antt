-- ===== src/Ring/Signals.antt =====
-- The conditions of src/cb.c: a writer that finds no room sleeps on `o` until a `cb_read` signals it. The
-- program's reader never waits, so nothing sleeps on `u`, and the signal of `cb_write` wakes nobody.
pub mod Wakes
use kdb_solace.Base.{ℕ, Option, none, some, true, false}
use kdb_solace.Memory.{Bytes}
use kdb_solace.Ring.{Cb, Outcome, done, refused, waits, fault, cb_write, cb_read}

-- A call `cb_write(b, src, k, 1)` that has not returned yet.
pub record Pending : Type 0 where
  pub src : Bytes
  pub k : ℕ

-- The buffer, the writer that sleeps in `cdw(b, o, k)`, and the one that has been signalled there and
-- tests the condition of its loop next.
pub record Shared : Type 0 where
  pub buffer : Cb
  pub asleep : Option Pending
  pub woken : Option Pending

abbrev pub wake : Option Pending → Shared → Shared
wake none s = s
wake (some p) s = record s { asleep = none; woken = some p }

-- `cds(b, o)`: a signal that finds no sleeper is lost.
abbrev pub signal_o : Shared → Shared
signal_o s = wake s.asleep s

abbrev pub after_write : Shared → Pending → Outcome Cb → Outcome Shared
after_write s p (done c) = done (record s { buffer = c })
after_write s p waits = done (record s { asleep = some p })
after_write s p refused = refused
after_write s p fault = fault

-- `cb_write(b, src, k, 1)` up to its return, or up to its sleep.
unfoldable pub write_or_sleep : Shared → Pending → Outcome Shared
write_or_sleep s p = after_write s p (cb_write s.buffer p.src p.k true)

abbrev pub resume_with : Option Pending → Shared → Outcome Shared
resume_with none s = done s
resume_with (some p) s = write_or_sleep (record s { woken = none }) p

-- The woken writer, from `cdw` on: its loop goes round.
unfoldable pub resume : Shared → Outcome Shared
unfolding write_or_sleep
resume s = resume_with s.woken s

abbrev pub signal_after_read : Shared → Outcome (Cb × Bytes) → Outcome (Shared × Bytes)
signal_after_read s (done r) = done (signal_o (record s { buffer = r.0 }), r.1)
signal_after_read s refused = refused
signal_after_read s waits = waits
signal_after_read s fault = fault

-- `cb_read(b, dst, k, 0)`: what it has read, and the signal behind it.
unfoldable pub read_and_signal : Shared → Bytes → ℕ → Outcome (Shared × Bytes)
read_and_signal s dst k = signal_after_read s (cb_read s.buffer dst k false)
