-- ===== src/Memory.antt =====
-- `memcpy` between byte arrays, as the C sources call it. A byte array is a list of bytes; bytes are
-- only moved, so a byte is any number. A copy that reads or writes out of range is a fault, `none`.
use kdb_solace.Base.{
  ℕ, zero, suc, ◌+◌, ◌-◌, ◌≤◌, ◌<◌, ◌≡◌, refl, ap, ◌∙◌, ◌&&◌, Option, none, some, List, [], ◌∷◌,
  ◌++◌, arith, leb, if◌then◌else◌, length, take, drop, length-take, length-drop,
}

abbrev pub Bytes : Type 0
Bytes = List ℕ

-- The array with the bytes from an offset on replaced; what would lie past its end is lost.
unfoldable pub overwrite : Bytes → ℕ → Bytes → Bytes
overwrite [] i s = []
overwrite (x ∷ d) zero [] = x ∷ d
overwrite (x ∷ d) zero (y ∷ s) = y ∷ overwrite d zero s
overwrite (x ∷ d) (suc i) s = x ∷ overwrite d i s

-- `n` bytes of an array from an offset on.
abbrev pub slice : Bytes → ℕ → ℕ → Bytes
slice s i n = take n (drop i s)

-- `memcpy(dst + i, src + j, n)`
unfoldable pub memcpy : Bytes → ℕ → Bytes → ℕ → ℕ → Option Bytes
memcpy dst i src j n =
    if leb (i + n) (length dst) && leb (j + n) (length src)
    then some (overwrite dst i (slice src j n))
    else none

pub length-overwrite : (d : Bytes) (i : ℕ) (s : Bytes) → length (overwrite d i s) ≡ length d
unfolding overwrite
length-overwrite [] i s = refl
length-overwrite (x ∷ d) zero [] = refl
length-overwrite (x ∷ d) zero (y ∷ s) = ap suc (length-overwrite d zero s)
length-overwrite (x ∷ d) (suc i) s = ap suc (length-overwrite d i s)

-- Before the offset nothing changes.
pub take-overwrite : (d : Bytes) (i : ℕ) (s : Bytes) → take i (overwrite d i s) ≡ take i d
unfolding overwrite
take-overwrite d zero s = refl
take-overwrite [] (suc i) s = refl
take-overwrite (x ∷ d) (suc i) s = ap (λ l. x ∷ l) (take-overwrite d i s)

-- Past what is written nothing changes.
pub drop-overwrite_past :
    (d : Bytes) (i : ℕ) (s : Bytes) (k : ℕ) → i + length s ≤ k → drop k (overwrite d i s) ≡ drop k d
unfolding overwrite
drop-overwrite_past [] i s k h = refl
drop-overwrite_past (x ∷ d) zero [] k h = refl
drop-overwrite_past (x ∷ d) zero (y ∷ s) zero h = absurd (omega arith)
drop-overwrite_past (x ∷ d) zero (y ∷ s) (suc k) h = drop-overwrite_past d zero s k (omega arith)
drop-overwrite_past (x ∷ d) (suc i) s zero h = absurd (omega arith)
drop-overwrite_past (x ∷ d) (suc i) s (suc k) h = drop-overwrite_past d i s k (omega arith)

-- Dropping bytes before the offset moves the offset.
pub drop-overwrite :
    (d : Bytes) (i : ℕ) (s : Bytes) (k : ℕ)
    → k ≤ i
    → drop k (overwrite d i s) ≡ overwrite (drop k d) (i - k) s
unfolding overwrite
drop-overwrite d i s zero h = ap (λ j. overwrite d j s) (omega arith)
drop-overwrite [] i s (suc k) h = refl
drop-overwrite (x ∷ d) zero s (suc k) h = absurd (omega arith)
drop-overwrite (x ∷ d) (suc i) s (suc k) h =
    drop-overwrite d i s k (omega arith) ∙ ap (λ j. overwrite (drop k d) j s) (omega arith)

-- Up to the end of what is written stand the old bytes, then the new ones.
pub take-overwrite_through :
    (d : Bytes) (i : ℕ) (s : Bytes) {k : ℕ}
    → k ≡ i + length s
    → k ≤ length d
    → take k (overwrite d i s) ≡ take i d ++ s
unfolding overwrite
take-overwrite_through [] zero [] {k} e h = ap (λ n. take {A = ℕ} n []) {y = 0} (omega arith)
take-overwrite_through [] zero (y ∷ s) e h = absurd (omega arith)
take-overwrite_through [] (suc i) s e h = absurd (omega arith)
take-overwrite_through (x ∷ d) zero [] {k} e h = ap (λ n. take n (x ∷ d)) {y = 0} (omega arith)
take-overwrite_through (x ∷ d) zero (y ∷ s) {k = zero} e h = absurd (omega arith)
take-overwrite_through (x ∷ d) zero (y ∷ s) {k = suc k} e h =
    ap (λ l. y ∷ l) (take-overwrite_through d zero s (omega arith) (omega arith))
take-overwrite_through (x ∷ d) (suc i) s {k = zero} e h = absurd (omega arith)
take-overwrite_through (x ∷ d) (suc i) s {k = suc k} e h =
    ap (λ l. x ∷ l) (take-overwrite_through d i s (omega arith) (omega arith))

-- A copy within both arrays goes through.
pub memcpy-some :
    (d : Bytes) (i : ℕ) (s : Bytes) (j n : ℕ)
    → i + n ≤ length d
    → j + n ≤ length s
    → memcpy d i s j n ≡ some (overwrite d i (slice s j n))
unfolding memcpy
memcpy-some d i s j n h k = ground arith

-- A copy past the end of the destination is a fault.
pub memcpy-none :
    (d : Bytes) (i : ℕ) (s : Bytes) (j n : ℕ) → length d < i + n → memcpy d i s j n ≡ none
unfolding memcpy
memcpy-none d i s j n h = ground arith

pub length-slice : (s : Bytes) (j n : ℕ) → j + n ≤ length s → length (slice s j n) ≡ n
length-slice s j n h = omega (arith, length-take n (drop j s), length-drop j s)

-- Two slices, one after the other, are one.
pub slice-append_slice : (s : Bytes) (e k : ℕ) → e ≤ k → slice s 0 e ++ slice s e (k - e) ≡ take k s
slice-append_slice s zero k p = ap (λ j. take j s) (omega arith)
slice-append_slice s (suc e) zero p = absurd (omega arith)
slice-append_slice [] (suc e) (suc k) p = nothing (suc k - suc e)
  where
    nothing : (j : ℕ) → take {A = ℕ} j [] ≡ []
    nothing zero = refl
    nothing (suc j) = refl
slice-append_slice (x ∷ s) (suc e) (suc k) p =
    ap (λ l. x ∷ l)
      (ap (λ j. take e s ++ take j (drop e s)) {y = k - e} (omega arith)
        ∙ slice-append_slice s e k (omega arith))

-- A copy over the whole of an array leaves the copied bytes.
pub overwrite_whole : (d s : Bytes) → length s ≡ length d → overwrite d 0 s ≡ s
unfolding overwrite
overwrite_whole [] [] h = refl
overwrite_whole [] (y ∷ s) h = absurd (omega arith)
overwrite_whole (x ∷ d) [] h = absurd (omega arith)
overwrite_whole (x ∷ d) (y ∷ s) h = ap (λ l. y ∷ l) (overwrite_whole d s (omega arith))
