-- ===== src/CString.antt =====
-- C strings: bytes up to the first zero, compared by `strcmp`.
use kdb_solace.Base.{◌≡◌, refl, ap, Bool, true, false, ◌&&◌, [], ◌∷◌, ◌==◌, if◌then◌else◌, arith}
use kdb_solace.Memory.{Bytes}

-- The string at the start of an array that a zero byte ends.
unfoldable pub c_string : Bytes → Bytes
c_string [] = []
c_string (x ∷ s) = if x == 0 then [] else x ∷ c_string s

-- `strcmp(a, b) == 0`
unfoldable pub same_string : Bytes → Bytes → Bool
same_string [] [] = true
same_string [] (y ∷ b) = false
same_string (x ∷ a) [] = false
same_string (x ∷ a) (y ∷ b) = x == y && same_string a b

pub same_string→eq : (a b : Bytes) → same_string a b ≡ true → a ≡ b
unfolding same_string
same_string→eq [] [] h = refl
same_string→eq [] (y ∷ b) h = cc
same_string→eq (x ∷ a) [] h = cc
same_string→eq (x ∷ a) (y ∷ b) h = ground (arith, same_string→eq a b)

pub same_string_refl : (a : Bytes) → same_string a a ≡ true
unfolding same_string
same_string_refl [] = refl
same_string_refl (x ∷ a) = ground (arith, same_string_refl a)

pub same_string_comm : (a b : Bytes) → same_string a b ≡ same_string b a
unfolding same_string
same_string_comm [] [] = refl
same_string_comm [] (y ∷ b) = refl
same_string_comm (x ∷ a) [] = refl
same_string_comm (x ∷ a) (y ∷ b) = ground (arith, same_string_comm a b)

-- What differs from one of two equal strings differs from the other.
pub same_string_trans : (a b c : Bytes) → same_string a b ≡ true → same_string a c ≡ same_string b c
same_string_trans a b c h = ap (λ d. same_string d c) (same_string→eq a b h)
