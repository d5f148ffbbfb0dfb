-- ===== src/Ring/Refine.antt =====
-- The buffer of src/cb.c behaves as the queue of its contents.
use kdb_solace.Base.{
  ℕ, ◌+◌, ◌≤◌, ◌<◌, ◌≡◌, refl, sym, ap, ap₂, ◌∙◌, inl, inr, Bool, true, false, List, [], ◌∷◌, ◌++◌,
  if◌then◌else◌, arith, length, take, drop, replicate, length-take, length-replicate, take_all,
  take-append_left, drop-append_left, drop_all, le_cases,
}
use kdb_solace.Memory.{Bytes}
use kdb_solace.Fifo
use kdb_solace.Fifo.{Call, put, get, Reply, stored, waiting, broken, got}
use kdb_solace.Ring.{Cb, Outcome, cb_write, cb_read}
use kdb_solace.Ring.Invariant.{IsValid, contents}
use kdb_solace.Ring.Write.{cb_write-done, cb_write-full}
use kdb_solace.Ring.Read.{cb_read-done, cb_read-short}

-- A call that does not go through leaves the buffer as it was.
abbrev after_put : Cb → Outcome Cb → Reply × Cb
after_put b (Outcome.done c) = (stored, c)
after_put b Outcome.refused = (Reply.refused, b)
after_put b Outcome.waits = (waiting, b)
after_put b Outcome.fault = (broken, b)

abbrev after_get : Cb → ℕ → Outcome (Cb × Bytes) → Reply × Cb
after_get b k (Outcome.done (c, out)) = (got (take k out), c)
after_get b k Outcome.refused = (Reply.refused, b)
after_get b k Outcome.waits = (waiting, b)
after_get b k Outcome.fault = (broken, b)

-- One call on the buffer; a reader brings an array of the size that it asks for.
unfoldable pub step : Cb → Call → Reply × Cb
step b (put s w) = after_put b (cb_write b s (length s) w)
step b (get k w) = after_get b k (cb_read b (replicate k 0) k w)

unfoldable pub run : Cb → List Call → List Reply
run b [] = []
run b (c ∷ cs) = let (r, b') = step b c in r ∷ run b' cs

-- One call, as the queue answers it.
abbrev pub fifo_step : ℕ → Bytes → Call → Reply × Bytes
fifo_step cap q (put s w) = Fifo.put_bytes cap q s w
fifo_step cap q (get k w) = Fifo.get_bytes q k w

record Refines (b : Cb) (c : Call) : Type 0 where
  valid : IsValid (step b c).1
  cap : (step b c).1.n ≡ b.n
  answer : (step b c).0 ≡ (fifo_step b.n (contents b) c).0
  bytes : contents (step b c).1 ≡ (fifo_step b.n (contents b) c).1

put-Refines : (b : Cb) (s : Bytes) (w : Bool) → IsValid b → Refines b (put s w)
unfolding step Fifo.put_bytes
put-Refines b s w v = elim (le_cases b.n (length (contents b) + length s)) [
  | inl full ↦ held w (cb_write-full b s (length s) w v full) full
  | inr fits ↦
      let (c, e, x) = cb_write-done b s (length s) w v (omega arith) fits in
      record {
        valid = rw e x.valid;
        cap = rw e x.cap;
        answer = rw e (ground arith);
        bytes = rw e (
            x.bytes
            ∙ ap (λ l. contents b ++ l) (take_all (length s) s (omega arith))
            ∙ ground arith);
      }
]
  where
    held :
        (w : Bool)
        → cb_write b s (length s) w ≡ (if w then Outcome.waits else Outcome.refused)
        → b.n ≤ length (contents b) + length s
        → Refines b (put s w)
    held true e full = record {
      valid = rw e v;
      cap = rw e;
      answer = rw e (ground arith);
      bytes = rw e (ground arith);
    }
    held false e full = record {
      valid = rw e v;
      cap = rw e;
      answer = rw e (ground arith);
      bytes = rw e (ground arith);
    }

-- What was read and what is left are the two parts of what was held.
pub parts :
    (q out rest : Bytes) (k : ℕ)
    → k ≤ length out
    → k ≤ length q
    → take k out ++ rest ≡ q
    → (take k out ≡ take k q) × (rest ≡ drop k q)
parts q out rest k e has j = (
  sym (take_all k (take k out) (omega (arith, size)))
      ∙ sym (take-append_left k (take k out) rest (omega (arith, size)))
      ∙ ap (take k) j,
  ap (λ l. l ++ rest) (sym (drop_all k (take k out) (omega (arith, size))))
      ∙ sym (drop-append_left k (take k out) rest (omega (arith, size)))
      ∙ ap (drop k) j,
)
  where
    size : length (take k out) ≡ k
    size = omega (arith, length-take k out)

get-Refines : (b : Cb) (k : ℕ) (w : Bool) → IsValid b → Refines b (get k w)
unfolding step Fifo.get_bytes
get-Refines b k w v = elim (le_cases k (length (contents b))) [
  | inl has ↦
      let (c, out, e, x) =
        cb_read-done b (replicate k 0) k w v has (omega (arith, length-replicate {A = ℕ} k 0)) in
      let (p, q) =
        parts (contents b) out (contents c) k (omega (arith, x.size, length-replicate {A = ℕ} k 0))
          has x.taken in
      record {
        valid = rw e x.valid;
        cap = rw e x.cap;
        answer = rw e (ground (arith, p));
        bytes = rw e (ground (arith, q));
      }
  | inr short ↦ held w (cb_read-short b (replicate k 0) k w v short) short
]
  where
    held :
        (w : Bool)
        → cb_read b (replicate k 0) k w ≡ (if w then Outcome.waits else Outcome.refused)
        → length (contents b) < k
        → Refines b (get k w)
    held true e short = record {
      valid = rw e v;
      cap = rw e;
      answer = rw e (ground arith);
      bytes = rw e (ground arith);
    }
    held false e short = record {
      valid = rw e v;
      cap = rw e;
      answer = rw e (ground arith);
      bytes = rw e (ground arith);
    }

step-Refines : (b : Cb) (c : Call) → IsValid b → Refines b c
step-Refines b (put s w) v = put-Refines b s w v
step-Refines b (get k w) v = get-Refines b k w v

-- From a valid buffer every sequence of calls gets the replies that the queue of its contents gives:
-- bytes come out once, in the order in which they went in, a call is held up exactly when the queue
-- holds it up, and no copy is out of range.
pub run_refines : (cs : List Call) (b : Cb) → IsValid b → run b cs ≡ Fifo.run b.n (contents b) cs
unfolding run Fifo.run
run_refines [] b v = refl
run_refines (put s w ∷ cs) b v =
    let x = put-Refines b s w v in
    ap₂ ◌∷◌ x.answer
      (run_refines cs (step b (put s w)).1 x.valid ∙ ap₂ (λ n q. Fifo.run n q cs) x.cap x.bytes)
run_refines (get k w ∷ cs) b v =
    let x = get-Refines b k w v in
    ap₂ ◌∷◌ x.answer
      (run_refines cs (step b (get k w)).1 x.valid ∙ ap₂ (λ n q. Fifo.run n q cs) x.cap x.bytes)
