-- ===== src/Ring/Read.antt =====
-- `cb_read` of src/cb.c: it takes the oldest bytes, in order, whenever that many are held.
use native.Mathlib.Nat.{zero-add}
use kdb_solace.Base.{
  ℕ, ◌+◌, ◌-◌, ◌≤◌, ◌<◌, ◌≡◌, refl, sym, ap, ap₂, ◌∙◌, inl, inr, Bool, ◌++◌, if◌then◌else◌, arith,
  length, take, drop, length-drop, le_cases, take_all, take-append-drop, drop-drop, append_assoc,
  le→leb, lt→leb,
}
use kdb_solace.Memory.{
  Bytes, overwrite, slice, slice-append_slice, memcpy-some, length-overwrite,
  take-overwrite_through, length-slice,
}
use kdb_solace.Ring.{Cb, done, refused, waits, cb_read, read_body}
use kdb_solace.Ring.Invariant.{
  IsValid, contents, contents_straight, contents_wrapped, count, length-contents, size-count,
}

-- What a read of `k` bytes that goes through has done.
pub record Took (b : Cb) (dst : Bytes) (k : ℕ) (c : Cb) (out : Bytes) : Type 0 where
  pub valid : IsValid c
  pub taken : take k out ++ contents c ≡ contents b
  pub size : length out ≡ length dst
  pub cap : c.n ≡ b.n

ahead : Cb → ℕ → Cb
ahead b k = record b { h = b.h + k }

-- A read that does not reach the end of the storage moves the head on.
contents-ahead :
    (b : Cb) (k : ℕ)
    → IsValid b
    → k ≤ count b
    → b.h + k < b.n
    → slice b.d b.h k ++ contents (ahead b k) ≡ contents b
unfolding ahead
contents-ahead b k v has below = elim (le_cases b.h b.t) [
  | inl p ↦
      ap (λ l. slice b.d b.h k ++ l)
        (contents_straight (ahead b k) (ground (arith, le→leb b.h b.t p))
          ∙ ap₂ take {x = b.t - (b.h + k)} {y = b.t - b.h - k} (omega arith) beyond)
      ∙ slice-append_slice (drop b.h b.d) k (b.t - b.h) (ground (arith, le→leb b.h b.t p))
      ∙ sym (contents_straight b p)
  | inr p ↦
      ap (λ l. slice b.d b.h k ++ l)
        (contents_wrapped (ahead b k) (omega arith) ∙ ap (λ l. l ++ take b.t b.d) beyond)
      ∙ sym (append_assoc (slice b.d b.h k) (drop k (drop b.h b.d)) (take b.t b.d))
      ∙ ap (λ l. l ++ take b.t b.d) (take-append-drop k (drop b.h b.d))
      ∙ sym (contents_wrapped b p)
]
  where
    beyond : drop (b.h + k) b.d ≡ drop k (drop b.h b.d)
    beyond = ap (λ j. drop j b.d) {y = k + b.h} (omega arith) ∙ sym (drop-drop k b.h b.d)

-- A read that reaches the end of the storage goes on at its front: `j` bytes of it.
contents-front :
    (b : Cb) (j : ℕ)
    → IsValid b
    → b.t < b.h
    → j ≤ b.t
    → (drop b.h b.d ++ take j b.d) ++ contents (record b { h = j }) ≡ contents b
contents-front b j v p q =
    ap (λ l. (drop b.h b.d ++ take j b.d) ++ l) (contents_straight (record b { h = j }) q)
    ∙ append_assoc (drop b.h b.d) (take j b.d) (take (b.t - j) (drop j b.d))
    ∙ ap (λ l. drop b.h b.d ++ l) (slice-append_slice b.d j b.t q)
    ∙ sym (contents_wrapped b p)

module _ (b : Cb) (dst : Bytes) (k : ℕ) (v : IsValid b) (has : k ≤ count b)
    (room : k ≤ length dst) where
  one_copy : Bytes
  one_copy = overwrite dst 0 (slice b.d b.h k)

  two_copies : Bytes
  two_copies =
      overwrite (overwrite dst 0 (slice b.d b.h (b.n - b.h))) (b.n - b.h)
        (slice b.d 0 (k - (b.n - b.h)))

  body_straight : b.h + k < b.n → read_body b dst k ≡ done (ahead b k, one_copy)
  unfolding read_body ahead one_copy
  body_straight p =
      rw (
        lt→leb b.n (b.h + k) p,
        memcpy-some dst 0 b.d b.h k (omega arith) (omega (arith, v.storage)),
      )

  body_folded :
      b.n ≤ b.h + k → read_body b dst k ≡ done (record b { h = k - (b.n - b.h) }, two_copies)
  unfolding read_body two_copies
  body_folded p = rw (
    le→leb b.n (b.h + k) p,
    memcpy-some dst 0 b.d b.h (b.n - b.h) (omega arith) (omega (arith, v.storage)),
    memcpy-some (overwrite dst 0 (slice b.d b.h (b.n - b.h))) (b.n - b.h) b.d 0 (k - (b.n - b.h))
        (omega (arith, length-overwrite dst 0 (slice b.d b.h (b.n - b.h))))
        (ground (arith, v.storage)),
    zero-add,
  )

  straight-Took : b.h + k < b.n → Took b dst k (ahead b k) one_copy
  unfolding ahead one_copy
  straight-Took p = record {
    valid = record { storage = v.storage; head = p; tail = v.tail };
    taken =
        ap (λ l. l ++ contents (ahead b k))
          (take-overwrite_through dst 0 (slice b.d b.h k) (omega (arith, got)) room)
        ∙ contents-ahead b k v has p;
    size = length-overwrite dst 0 (slice b.d b.h k);
    cap = refl;
  }
    where
      got : length (slice b.d b.h k) ≡ k
      got = length-slice b.d b.h k (omega (arith, v.storage))

  folded-Took : b.n ≤ b.h + k → Took b dst k (record b { h = k - (b.n - b.h) }) two_copies
  unfolding two_copies
  folded-Took p = record {
    valid = record { storage = v.storage; head = omega (arith, behind); tail = v.tail };
    taken =
        ap (λ l. l ++ contents (record b { h = k - (b.n - b.h) }))
          (take-overwrite_through (overwrite dst 0 first) (b.n - b.h)
              (slice b.d 0 (k - (b.n - b.h))) (omega (arith, got))
              (omega (arith, length-overwrite dst 0 first))
            ∙ ap (λ l. l ++ slice b.d 0 (k - (b.n - b.h)))
                (take-overwrite_through dst 0 first (omega (arith, got)) (omega arith)
                  ∙ take_all (b.n - b.h) (drop b.h b.d)
                      (omega (arith, length-drop b.h b.d, v.storage))))
        ∙ contents-front b (k - (b.n - b.h)) v behind.0 behind.1;
    size =
        length-overwrite (overwrite dst 0 first) (b.n - b.h) (slice b.d 0 (k - (b.n - b.h)))
        ∙ length-overwrite dst 0 first;
    cap = refl;
  }
    where
      first : Bytes
      first = slice b.d b.h (b.n - b.h)

      behind : (b.t < b.h) × (k - (b.n - b.h) ≤ b.t)
      behind = ground arith

      got : (length first ≡ b.n - b.h) × (length (slice b.d 0 (k - (b.n - b.h))) ≡ k - (b.n - b.h))
      got = (
        length-slice b.d b.h (b.n - b.h) (omega (arith, v.storage)),
        length-slice b.d 0 (k - (b.n - b.h)) (omega (arith, v.storage, behind)),
      )

  -- Behind its loop, `cb_read` copies within both arrays, and has then taken the oldest bytes.
  pub read_body-Took :
      (c : Cb) × (out : Bytes) × (read_body b dst k ≡ done (c, out)) × Took b dst k c out
  read_body-Took = elim (le_cases b.n (b.h + k)) [
    | inl p ↦ (record b { h = k - (b.n - b.h) }, two_copies, body_folded p, folded-Took p)
    | inr p ↦ (ahead b k, one_copy, body_straight p, straight-Took p)
  ]

-- `cb_read` of bytes that are held returns 0 with exactly the oldest ones and leaves the others,
-- whether it may wait or not.
pub cb_read-done :
    (b : Cb) (dst : Bytes) (k : ℕ) (w : Bool)
    → IsValid b
    → k ≤ length (contents b)
    → k ≤ length dst
    → (c : Cb) × (out : Bytes) × (cb_read b dst k w ≡ done (c, out)) × Took b dst k c out
unfolding cb_read
cb_read-done b dst k w v has room =
    let held : k ≤ count b = omega (arith, length-contents b v) in
    let (c, out, e, x) = read_body-Took b dst k v held room in
    (c, out, ground (arith, size-count b v, e), x)

-- `cb_read` of more than is held copies nothing: it waits, or returns -1 if it may not.
pub cb_read-short :
    (b : Cb) (dst : Bytes) (k : ℕ) (w : Bool)
    → IsValid b
    → length (contents b) < k
    → cb_read b dst k w ≡ (if w then waits else refused)
unfolding cb_read
cb_read-short b dst k w v short = ground (arith, size-count b v, length-contents b v)
