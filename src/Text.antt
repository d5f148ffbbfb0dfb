-- ===== src/Text.antt =====
-- `%d` and `snprintf` as src/solace.c uses them.
pub mod Digits
use kdb_solace.Base.{ℕ, zero, suc, ◌+◌, ◌-◌, ◌/◌, ◌%◌, ◌^◌, [], ◌∷◌, ◌++◌, ltb, if◌then◌else◌, take}
use kdb_solace.Memory.{Bytes}

-- The decimal digits of a number, f of them at most.
unfoldable pub digits : ℕ → ℕ → Bytes
digits zero n = []
digits (suc f) n = if ltb n 10 then (b'0' + n) ∷ [] else digits f (n / 10) ++ ((b'0' + n % 10) ∷ [])

-- `%d` of the bits of an int, which has ten digits at most.
unfoldable pub print_int : ℕ → Bytes
print_int v = if ltb v (2 ^ 31) then digits 10 v else b'-' ∷ digits 10 (2 ^ 32 - v)

-- `snprintf(buf, size, …)`: what is in the array, up to its zero.
unfoldable pub snprintf : ℕ → Bytes → Bytes
snprintf zero s = []
snprintf (suc n) s = take n s
