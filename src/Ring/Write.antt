-- ===== src/Ring/Write.antt =====
-- `cb_write` of src/cb.c: it appends its bytes, in order, whenever they fit.
use kdb_solace.Base.{
  ℕ, subst, ◌+◌, ◌-◌, ◌≤◌, ◌<◌, ◌≡◌, refl, sym, ap, ap₂, ◌∙◌, inl, inr, Bool, ◌++◌, if◌then◌else◌,
  arith, length, take, drop, length-drop, le_cases, take_all, append_assoc, le→leb, lt→leb,
}
use native.Mathlib.Nat.{zero-add}
use kdb_solace.Memory.{
  Bytes, overwrite, slice, slice-append_slice, memcpy-some, length-overwrite, drop-overwrite,
  drop-overwrite_past, take-overwrite_through, length-slice,
}
use kdb_solace.Ring.{Cb, done, refused, waits, cb_write, write_body}
use kdb_solace.Ring.Invariant.{
  IsValid, contents, contents_straight, contents_wrapped, count, length-contents, space-count,
  count-lt,
}

-- What a write that goes through has done.
pub record Wrote (b : Cb) (s : Bytes) (c : Cb) : Type 0 where
  pub valid : IsValid c
  pub bytes : contents c ≡ contents b ++ s
  pub cap : c.n ≡ b.n

-- Bytes written at the tail without reaching the end of the storage.
straight : Cb → Bytes → Cb
straight b s = record b { d = overwrite b.d b.t s; t = b.t + length s }

straight-Wrote :
    (b : Cb) (s : Bytes)
    → IsValid b
    → length s < b.n - count b
    → b.t + length s < b.n
    → Wrote b s (straight b s)
unfolding straight
straight-Wrote b s v fits below = record {
  valid = record {
    storage = omega (arith, length-overwrite b.d b.t s);
    head = omega arith;
    tail = below;
  };
  bytes = elim (le_cases b.h b.t) [ inl p ↦ in_order p | inr p ↦ wrapped p ];
  cap = refl;
}
  where
    in_order : b.h ≤ b.t → contents (straight b s) ≡ contents b ++ s
    in_order p =
        contents_straight (straight b s) (omega arith)
        ∙ ap (take (b.t + length s - b.h)) (drop-overwrite b.d b.t s b.h p)
        ∙ take-overwrite_through (drop b.h b.d) (b.t - b.h) s (omega arith)
            (omega (arith, length-drop b.h b.d))
        ∙ ap (λ l. l ++ s) (sym (contents_straight b p))

    wrapped : b.t < b.h → contents (straight b s) ≡ contents b ++ s
    wrapped p =
        contents_wrapped (straight b s) (ground (arith, lt→leb b.h b.t p))
        ∙ ap₂ ◌++◌ (drop-overwrite_past b.d b.t s b.h (ground (arith, lt→leb b.h b.t p)))
            (take-overwrite_through b.d b.t s refl (omega arith))
        ∙ sym (append_assoc (drop b.h b.d) (take b.t b.d) s)
        ∙ ap (λ l. l ++ s) (sym (contents_wrapped b p))

-- Bytes that reach the end of the storage: the first part fills it up, the rest starts at its front.
folded : Cb → Bytes → Bytes → Cb
folded b s1 s2 = record b { d = overwrite (overwrite b.d b.t s1) 0 s2; t = length s2 }

folded-Wrote :
    (b : Cb) (s1 s2 : Bytes)
    → IsValid b
    → length s1 + length s2 < b.n - count b
    → b.t + length s1 ≡ b.n
    → Wrote b (s1 ++ s2) (folded b s1 s2)
unfolding folded
folded-Wrote b s1 s2 v fits reach = record {
  valid = record {
    storage =
        omega (arith, length-overwrite (overwrite b.d b.t s1) 0 s2, length-overwrite b.d b.t s1);
    head = v.head;
    tail = omega (arith, ahead);
  };
  bytes =
      contents_wrapped (folded b s1 s2) (omega (arith, ahead))
      ∙ ap₂ ◌++◌ front back
      ∙ append_assoc (take (b.t - b.h) (drop b.h b.d)) s1 s2
      ∙ ap (λ l. l ++ (s1 ++ s2)) (sym (contents_straight b ahead.0));
  cap = refl;
}
  where
    ahead : (b.h ≤ b.t) × (length s2 < b.h)
    ahead = ground (arith, count-lt b v)

    room : length (drop b.h b.d) ≡ b.t - b.h + length s1
    room = omega (arith, length-drop b.h b.d, ahead)

    front : drop b.h (overwrite (overwrite b.d b.t s1) 0 s2) ≡ take (b.t - b.h) (drop b.h b.d) ++ s1
    front =
        drop-overwrite_past (overwrite b.d b.t s1) 0 s2 b.h (omega (arith, ahead))
        ∙ drop-overwrite b.d b.t s1 b.h ahead.0
        ∙ sym (
            take_all (length (drop b.h b.d)) (overwrite (drop b.h b.d) (b.t - b.h) s1)
              (omega (arith, length-overwrite (drop b.h b.d) (b.t - b.h) s1)))
        ∙ take-overwrite_through (drop b.h b.d) (b.t - b.h) s1 room (omega arith)

    back : take (length s2) (overwrite (overwrite b.d b.t s1) 0 s2) ≡ s2
    back =
        take-overwrite_through (overwrite b.d b.t s1) 0 s2 (omega arith)
          (omega (arith, length-overwrite b.d b.t s1, ahead))

module _ (b : Cb) (src : Bytes) (k : ℕ) (v : IsValid b) (has : k ≤ length src) where
  body_straight : b.t + k < b.n → write_body b src k ≡ done (straight b (take k src))
  unfolding write_body straight
  body_straight p = rw (
    lt→leb b.n (b.t + k) p,
    memcpy-some b.d b.t src 0 k (omega (arith, v.storage)) (omega arith),
    length-slice src 0 k (omega arith),
  )

  body_folded :
      b.n ≤ b.t + k
      → k < b.n
      → write_body b src k
        ≡ done (folded b (slice src 0 (b.n - b.t)) (slice src (b.n - b.t) (k - (b.n - b.t))))
  unfolding write_body folded
  body_folded p q = rw (
    le→leb b.n (b.t + k) p,
    memcpy-some b.d b.t src 0 (b.n - b.t) (omega (arith, v.storage)) (omega arith),
    memcpy-some (overwrite b.d b.t (slice src 0 (b.n - b.t))) 0 src (b.n - b.t) (k - (b.n - b.t))
        (omega (arith, v.storage, length-overwrite b.d b.t (slice src 0 (b.n - b.t))))
        (omega arith),
    length-slice src (b.n - b.t) (k - (b.n - b.t)) (omega arith),
    zero-add,
  )

-- Behind its loop, `cb_write` copies within both arrays, and has then appended its bytes.
pub write_body-Wrote :
    (b : Cb) (src : Bytes) (k : ℕ)
    → IsValid b
    → k < b.n - count b
    → k ≤ length src
    → (c : Cb) × (write_body b src k ≡ done c) × Wrote b (take k src) c
write_body-Wrote b src k v fits has = elim (le_cases b.n (b.t + k)) [
  | inl p ↦ (
    folded b (slice src 0 (b.n - b.t)) (slice src (b.n - b.t) (k - (b.n - b.t))),
    body_folded b src k v has p (omega arith),
    subst
        (λ l.
          Wrote b l (folded b (slice src 0 (b.n - b.t)) (slice src (b.n - b.t) (k - (b.n - b.t)))))
        (slice-append_slice src (b.n - b.t) k (omega arith))
        (folded-Wrote b (slice src 0 (b.n - b.t)) (slice src (b.n - b.t) (k - (b.n - b.t))) v
          (omega (
            arith,
            length-slice src 0 (b.n - b.t) (omega arith),
            length-slice src (b.n - b.t) (k - (b.n - b.t)) (omega arith),
          ))
          (omega (arith, length-slice src 0 (b.n - b.t) (omega arith)))),
  )
  | inr p ↦ (
    straight b (take k src),
    body_straight b src k v has p,
    straight-Wrote b (take k src) v (omega (arith, length-slice src 0 k (omega arith)))
        (omega (arith, length-slice src 0 k (omega arith))),
  )
]

-- `cb_write` of bytes that fit returns 0 and appends exactly those bytes, whether it may wait or not.
pub cb_write-done :
    (b : Cb) (src : Bytes) (k : ℕ) (w : Bool)
    → IsValid b
    → k ≤ length src
    → length (contents b) + k < b.n
    → (c : Cb) × (cb_write b src k w ≡ done c) × Wrote b (take k src) c
unfolding cb_write
cb_write-done b src k w v has fits =
    let room : k < b.n - count b = omega (arith, length-contents b v) in
    let (c, e, x) = write_body-Wrote b src k v room has in
    (c, ground (arith, space-count b v, e), x)

-- `cb_write` of bytes that do not fit copies nothing: it waits, or returns -1 if it may not.
pub cb_write-full :
    (b : Cb) (src : Bytes) (k : ℕ) (w : Bool)
    → IsValid b
    → b.n ≤ length (contents b) + k
    → cb_write b src k w ≡ (if w then waits else refused)
unfolding cb_write
cb_write-full b src k w v full = ground (arith, space-count b v, length-contents b v)
