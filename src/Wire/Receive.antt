-- ===== src/Wire/Receive.antt =====
-- The loop of `callback` in src/solace_k.c: it ends, and on a buffer of frames it yields their messages.
use kdb_solace.Base.{
  ℕ, zero, suc, ◌+◌, ◌<◌, ◌≡◌, ◌≢◌, refl, sym, ap, ◌∙◌, List, [], ◌∷◌, ◌++◌, arith, length, drop,
  length-append, drop-drop, drop-append_right, append_assoc, some,
}
use kdb_solace.Memory.{Bytes}
use kdb_solace.Kdb.{K, Ks, nil, cons, cons_null, list, dict, append_element, Timespec, current_time}
use kdb_solace.Wire.{rec_keys, add_rec_time, returned, unfinished, drain}
use kdb_solace.Wire.Frames.{IsSmall, frame_bytes, frames, length-frame_bytes, read_frame-frame}

abbrev pub ks_append : Ks → Ks → Ks
ks_append nil ys = ys
ks_append (cons x xs) ys = cons x (ks_append xs ys)
ks_append (cons_null xs) ys = cons_null (ks_append xs ys)

ks_append-append_element :
    (xs : Ks) (y : K) (ys : Ks) → ks_append (append_element xs y) ys ≡ ks_append xs (cons y ys)
unfolding append_element
ks_append-append_element nil y ys = refl
ks_append-append_element (cons x xs) y ys = ap (cons x) (ks_append-append_element xs y ys)
ks_append-append_element (cons_null xs) y ys = ap cons_null (ks_append-append_element xs y ys)

ks_append-nil : (xs : Ks) → ks_append xs nil ≡ xs
ks_append-nil nil = refl
ks_append-nil (cons x xs) = ap (cons x) (ks_append-nil xs)
ks_append-nil (cons_null xs) = ap cons_null (ks_append-nil xs)

-- The elements of a general list.
abbrev pub fields : K → Ks
fields (list xs) = xs
fields _ = nil

module _ (d9 : Bytes → K) (clock : ℕ → Timespec) where
  -- A message that fits its limits and that `d9` reads as a general list.
  pub record IsReadable (m : Bytes) : Type 0 where
    pub small : IsSmall m
    pub is_list : d9 m ≡ list (fields (d9 m))

  abbrev pub AllReadable : List Bytes → Type 0
  AllReadable [] = Unit {0}
  AllReadable (m ∷ ms) = IsReadable m × AllReadable ms

  -- What q is handed for a message: the eight named fields, the last one the time of reading.
  abbrev pub received : ℕ → Bytes → K
  received i m = dict rec_keys (list (append_element (fields (d9 m)) (current_time (clock i))))

  abbrev pub all_received : ℕ → List Bytes → Ks
  all_received i [] = nil
  all_received i (m ∷ ms) = cons (received i m) (all_received (i + 1) ms)

  -- The loop ends whatever the array holds: every round fails or moves on.
  pub drain-ne-unfinished :
      (fuel : ℕ) (rbuf : Bytes) (qsize offset i : ℕ) (acc : Ks)
      → 0 < fuel
      → qsize < offset + fuel
      → drain d9 clock fuel rbuf qsize offset i acc ≢ unfinished
  unfolding drain
  drain-ne-unfinished zero rbuf qsize offset i acc p h = absurd (omega arith)
  drain-ne-unfinished (suc fuel) rbuf qsize offset i acc p h = grind (
    arith,
    λ (msg : Bytes) (x : K).
        drain-ne-unfinished fuel rbuf qsize (offset + length msg + 8) (i + 1)
          (append_element acc x),
  )

  stamped : (i : ℕ) (m : Bytes) → IsReadable m → add_rec_time (d9 m) (clock i) ≡ some (received i m)
  unfolding add_rec_time
  stamped i m r = ap (λ x. add_rec_time x (clock i)) r.is_list

  -- From the start of a run of frames the loop yields their messages, in order, and stops behind them.
  pub drain-frames :
      (ms : List Bytes) (fuel : ℕ) (rbuf rest : Bytes) (qsize offset i : ℕ) (acc : Ks)
      → AllReadable ms
      → drop offset rbuf ≡ frames ms ++ rest
      → offset + length (frames ms) ≡ qsize
      → length (frames ms) < fuel
      → drain d9 clock fuel rbuf qsize offset i acc
        ≡ returned (ks_append acc (all_received i ms), i + length ms)
  unfolding drain
  drain-frames ms zero rbuf rest qsize offset i acc all at end more = absurd (omega arith)
  drain-frames [] (suc fuel) rbuf rest qsize offset i acc all at end more =
      ground (arith, ks_append-nil acc)
  drain-frames (m ∷ ms) (suc fuel) rbuf rest qsize offset i acc all at end more = ground (
    arith,
    read_frame-frame rbuf m (frames ms ++ rest) offset all.0.small here,
    length-append (frame_bytes m) (frames ms),
    length-frame_bytes m,
    stamped i m all.0,
    drain-frames ms fuel rbuf rest qsize (offset + length m + 8) (i + 1)
        (append_element acc (received i m)) all.1 next,
    ks_append-append_element acc (received i m) (all_received (i + 1) ms),
  )
    where
      here : drop offset rbuf ≡ frame_bytes m ++ (frames ms ++ rest)
      here = at ∙ append_assoc (frame_bytes m) (frames ms) rest

      next : drop (offset + length m + 8) rbuf ≡ frames ms ++ rest
      next =
          ap (λ j. drop j rbuf) {y = length (frame_bytes m) + 0 + offset}
            (omega (arith, length-frame_bytes m))
          ∙ sym (drop-drop (length (frame_bytes m) + 0) offset rbuf)
          ∙ ap (drop (length (frame_bytes m) + 0)) here
          ∙ drop-append_right 0 (frame_bytes m) (frames ms ++ rest)
