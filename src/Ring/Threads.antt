-- ===== src/Ring/Threads.antt =====
-- Two threads on the buffer of src/cb.c: `cb_size`, which takes no lock, can see a write half done.
use kdb_solace.Base.{
  ℕ, ◌+◌, ◌-◌, ◌≤◌, ◌<◌, ◌≡◌, sym, ap, ◌∙◌, true, pos, arith, length, take, length-append,
  length-take, le→leb,
}
use kdb_solace.Memory.{Bytes, overwrite, slice, memcpy-some}
use kdb_solace.Ring.{Cb, done, waits, cb_size, cb_write, write_first, write_rest, write_body}
use kdb_solace.Ring.Invariant.{IsValid, contents, length-contents, space-count, size-space}
use kdb_solace.Ring.Write.{cb_write-done, cb_write-full}

-- A writer of as many bytes as the capacity, or more, waits at every valid buffer of that capacity.
pub writer_never_resumes :
    (b : Cb) (s : Bytes) → IsValid b → b.n ≤ length s → cb_write b s (length s) true ≡ waits
writer_never_resumes b s v long = cb_write-full b s (length s) true v (omega arith)

-- The state between the two copies.
half_written : Cb → Bytes → Cb
half_written b src = record b { d = overwrite b.d b.t (slice src 0 (b.n - b.t)); t = 0 }

module _ (b : Cb) (src : Bytes) (k : ℕ) (v : IsValid b) (has : k ≤ length src)
    (over : b.n < b.t + k) where
  first_copy : write_first b src ≡ done (half_written b src)
  unfolding write_first half_written
  first_copy = rw (memcpy-some b.d b.t src 0 (b.n - b.t) (omega (arith, v.storage)) (omega arith))

  goes_on :
      length (contents b) + k < b.n
      → cb_write b src k true ≡ write_rest (half_written b src) src (b.n - b.t) (k - (b.n - b.t))
  unfolding cb_write
  goes_on fits =
      let body : cb_write b src k true ≡ write_body b src k =
        ground (arith, space-count b v, length-contents b v) in
      body ∙ rest
    where
      rest : write_body b src k ≡ write_rest (half_written b src) src (b.n - b.t) (k - (b.n - b.t))
      rest = unfold write_body in rw (le→leb b.n (b.t + k) (omega arith), first_copy)

  half_size :
      length (contents b) + k < b.n
      → cb_size (half_written b src) ≡ pos (length (contents b) + (b.n - b.t))
  unfolding cb_size half_written
  half_size fits = ground (arith, length-contents b v)

-- Between the two copies of a write that goes round the end, `cb_size` counts the first copy alone.
pub torn_size :
    (b : Cb) (src : Bytes) (k : ℕ)
    → IsValid b
    → k ≤ length src
    → length (contents b) + k < b.n
    → b.n < b.t + k
    → (c : Cb) × (d : Cb) × (write_first b src ≡ done c)
      × (cb_size c ≡ pos (length (contents b) + (b.n - b.t)))
      × (write_rest c src (b.n - b.t) (k - (b.n - b.t)) ≡ done d)
      × (cb_write b src k true ≡ done d)
      × (cb_size d ≡ pos (length (contents b) + k))
torn_size b src k v has fits over =
    let (d, e, x) = cb_write-done b src k true v has fits in
    (
      half_written b src,
      d,
      first_copy b src k v has over,
      half_size b src k v has over fits,
      sym (goes_on b src k v has over fits) ∙ e,
      e,
      (size-space d x.valid).0
          ∙ ap pos (
              omega (
                arith,
                ap length x.bytes,
                length-append (contents b) (take k src),
                length-take k src,
              )),
    )
