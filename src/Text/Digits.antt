-- ===== src/Text/Digits.antt =====
-- Printed numbers read back.
use kdb_solace.Base.{
  ℕ, zero, suc, ◌+◌, ◌-◌, ◌*◌, ◌/◌, ◌%◌, ◌^◌, ◌≤◌, ◌<◌, ◌≡◌, refl, ◌∙◌, ap, ◌↔◌, [], ◌∷◌, ◌++◌,
  take, take_all, length, length-append, arith,
}
use kdb_solace.Memory.{Bytes}
use kdb_solace.Text.{digits, print_int, snprintf}

-- The number that decimal digits stand for.
abbrev pub value_from : ℕ → Bytes → ℕ
value_from acc [] = acc
value_from acc (c ∷ s) = value_from (acc * 10 + (c - b'0')) s

abbrev pub value : Bytes → ℕ
value s = value_from 0 s

value_from-append :
    (acc : ℕ) (s t : Bytes) → value_from acc (s ++ t) ≡ value_from (value_from acc s) t
value_from-append acc [] t = refl
value_from-append acc (c ∷ s) t = value_from-append (acc * 10 + (c - b'0')) s t

abbrev AllDigits : Bytes → Type 0
AllDigits [] = Unit {0}
AllDigits (c ∷ s) = (c < b'0' + 10) × AllDigits s

AllDigits-append : (s t : Bytes) → AllDigits s → AllDigits t → AllDigits (s ++ t)
AllDigits-append [] t hs ht = ht
AllDigits-append (c ∷ s) t hs ht = (hs.0, AllDigits-append s t hs.1 ht)

digits-AllDigits : (f n : ℕ) → AllDigits (digits f n)
unfolding digits
digits-AllDigits zero n = tt
digits-AllDigits (suc f) n = ground (
  arith,
  AllDigits-append (digits f (n / 10)) ((b'0' + n % 10) ∷ []),
  digits-AllDigits f (n / 10),
)

-- With enough digits a number is printed whole.
value-digits : (f n : ℕ) → n < 10 ^ f → value (digits f n) ≡ n
unfolding digits
value-digits zero n h = omega arith
value-digits (suc f) n h =
    ground (
      arith,
      value_from-append 0 (digits f (n / 10)) ((b'0' + n % 10) ∷ []),
      value-digits f (n / 10),
    )

length-digits : (f n k : ℕ) → n < 10 ^ suc k → length (digits f n) ≤ suc k
unfolding digits
length-digits zero n k h = omega arith
length-digits (suc f) n zero h = ground arith
length-digits (suc f) n (suc k) h =
    ground
      (arith, length-append (digits f (n / 10)) ((b'0' + n % 10) ∷ []), length-digits f (n / 10) k)

value-take_three : (s : Bytes) → AllDigits s → value (take 3 s) < 1000
value-take_three [] h = omega arith
value-take_three (a ∷ []) h = omega arith
value-take_three (a ∷ (b ∷ [])) h = omega arith
value-take_three (a ∷ (b ∷ (c ∷ s))) h = omega arith

print_int-nat : (v : ℕ) → v < 2 ^ 31 → print_int v ≡ digits 10 v
unfolding print_int
print_int-nat v h = ground arith

-- In an array of four bytes an int that is not negative is printed whole if it is less than 1000, and
-- otherwise another number is.
pub value-snprintf_four : (v : ℕ) → v < 2 ^ 31 → (value (snprintf 4 (print_int v)) ≡ v) ↔ (v < 1000)
unfolding snprintf
value-snprintf_four v h =
    let small = value-take_three (digits 10 v) (digits-AllDigits 10 v) in
    rw (print_int-nat v h) (
      λ same. omega (arith, same, small),
      λ low.
          ap value (take_all 3 (digits 10 v) (length-digits 10 v 2 low))
          ∙ value-digits 10 v (omega arith),
    )
