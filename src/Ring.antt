-- ===== src/Ring.antt =====
-- The circular byte buffer of src/cb.c, between the Solace context thread and the q main thread.
-- `cb` is a record; a function that updates `*b` returns the new buffer. The mutex makes each body one
-- step. `pthread_cond_wait` is the outcome `waits`: the thread has given the mutex up with the buffer
-- as it was, and on waking it tests again, which is the same call on the buffer that it then finds.
pub mod Invariant
pub mod Write
pub mod Read
pub mod Refine
pub mod Threads
pub mod Signals
mod Tests
use kdb_solace.Base.{
  ℕ, ◌+◌, ◌-◌, Bool, Option, none, some, ℤ, pos, sub_ℕ, ltb_ℤ, leb, if◌then◌else◌, replicate,
}
use kdb_solace.Memory.{Bytes, memcpy}

-- `cb`; the mutex and the condition variables are in the outcomes.
pub record Cb : Type 0 where
  pub d : Bytes
  pub h : ℕ
  pub t : ℕ
  pub n : ℕ

-- How a call ends: `return 0`, `return -1`, a wait on the condition, or a copy out of range.
pub data Outcome (A : Type 0) : Type 0 where
  done : A → Outcome A
  refused waits fault : Outcome A

abbrev pub from_copy : {A B : Type 0} → Option A → (A → Outcome B) → Outcome B
from_copy none k = fault
from_copy (some a) k = k a

-- `malloc` gives bytes of any value; zeros stand for them.
unfoldable pub cb_init : ℕ → Cb
cb_init n = record { d = replicate n 0; h = 0; t = 0; n = n }

-- C's int arithmetic is signed.
unfoldable pub cb_size : Cb → ℤ
cb_size b = if leb b.h b.t then sub_ℕ b.t b.h else sub_ℕ (b.t + b.n) b.h

unfoldable pub cb_space : Cb → ℤ
unfolding cb_size
cb_space b = elim (cb_size b) [ pos s ↦ sub_ℕ b.n (1 + s) | ℤ.negsuc s ↦ pos (b.n + s) ]

-- The second `memcpy` and what follows it: `k` bytes from `j` on, at the tail.
unfoldable pub write_rest : Cb → Bytes → ℕ → ℕ → Outcome Cb
write_rest b src j k =
    from_copy (memcpy b.d b.t src j k) λ d. done (record b { d = d; t = b.t + k })

-- The first `memcpy`, up to the end of the storage, and the tail's reset.
unfoldable pub write_first : Cb → Bytes → Outcome Cb
write_first b src =
    from_copy (memcpy b.d b.t src 0 (b.n - b.t)) λ d. done (record b { d = d; t = 0 })

abbrev pub and_then : {A B : Type 0} → Outcome A → (A → Outcome B) → Outcome B
and_then (done a) k = k a
and_then refused k = refused
and_then waits k = waits
and_then fault k = fault

-- The body of `cb_write` behind its loop.
unfoldable pub write_body : Cb → Bytes → ℕ → Outcome Cb
unfolding write_first write_rest
write_body b src k =
    if leb b.n (b.t + k)
    then and_then (write_first b src) (λ c. write_rest c src (b.n - b.t) (k - (b.n - b.t)))
    else write_rest b src 0 k

-- `cb_write(b, src, k, w)`
unfoldable pub cb_write : Cb → Bytes → ℕ → Bool → Outcome Cb
unfolding cb_space write_body
cb_write b src k w =
    if ltb_ℤ (cb_space b) (pos k) then (if w then waits else refused) else write_body b src k

-- The second `memcpy` of `cb_read`: `k` bytes from the head to `j`.
unfoldable pub read_rest : Cb → Bytes → ℕ → ℕ → Outcome (Cb × Bytes)
read_rest b dst j k = from_copy (memcpy dst j b.d b.h k) λ out. done (record b { h = b.h + k }, out)

unfoldable pub read_first : Cb → Bytes → Outcome (Cb × Bytes)
read_first b dst =
    from_copy (memcpy dst 0 b.d b.h (b.n - b.h)) λ out. done (record b { h = 0 }, out)

unfoldable pub read_body : Cb → Bytes → ℕ → Outcome (Cb × Bytes)
unfolding read_first read_rest
read_body b dst k =
    if leb b.n (b.h + k)
    then and_then (read_first b dst) (λ r. read_rest r.0 r.1 (b.n - b.h) (k - (b.n - b.h)))
    else read_rest b dst 0 k

-- `cb_read(b, dst, k, w)`, with the array that `dst` then is.
unfoldable pub cb_read : Cb → Bytes → ℕ → Bool → Outcome (Cb × Bytes)
unfolding cb_size read_body
cb_read b dst k w =
    if ltb_ℤ (cb_size b) (pos k) then (if w then waits else refused) else read_body b dst k
