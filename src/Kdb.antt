-- ===== src/Kdb.antt =====
-- The objects of include/k.h (`struct k0`) as the library reads and builds them. An atom holds the bits
-- of its union, a vector the bits of its elements; reference counts are not modelled.
pub mod Objects
use kdb_solace.Base.{ℕ, suc, length, ◌+◌, ◌-◌, ◌*◌, ◌%◌, ◌^◌, List, [], ◌∷◌, ℤ, pos, negsuc, sub_ℕ}
use kdb_solace.Memory.{Bytes}

-- `atom t v` has type -t and is no symbol, `vector t vs` has type t and is no symbol vector; `other c n`
-- is an object of any other type c, with n in the place of its length. `cons_null` is a null pointer
-- among a list's elements.
mutual
  pub data K : Type 0 where
    atom : ℕ → ℕ → K
    symbol : Bytes → K
    vector : ℕ → List ℕ → K
    symbols : List Bytes → K
    list : Ks → K
    table : K → K
    dict : K → K → K
    other : ℕ → ℕ → K

  pub data Ks : Type 0 where
    nil : Ks
    cons : K → Ks → Ks
    cons_null : Ks → Ks

-- `x->t`
unfoldable pub ktype : K → ℤ
ktype (atom t v) = sub_ℕ 0 t
ktype (symbol s) = negsuc 10
ktype (vector t vs) = pos t
ktype (symbols ss) = pos 11
ktype (list xs) = pos 0
ktype (table x) = pos 98
ktype (dict k v) = pos 99
ktype (other c n) = pos c

abbrev pub list_size : Ks → ℕ
list_size nil = 0
list_size (cons x xs) = suc (list_size xs)
list_size (cons_null xs) = suc (list_size xs)

-- `x->n`
abbrev pub size : K → ℕ
size (symbols ss) = length ss
size (vector t vs) = length vs
size (other c n) = n
size (list xs) = list_size xs
size _ = 0

abbrev pub kb : ℕ → K
kb v = atom 1 v

abbrev pub kc : ℕ → K
kc v = atom 10 v

abbrev pub kh : ℕ → K
kh v = atom 5 v

abbrev pub ki : ℕ → K
ki v = atom 6 v

abbrev pub kj : ℕ → K
kj v = atom 7 v

abbrev pub ke : ℕ → K
ke v = atom 8 v

abbrev pub kf : ℕ → K
kf v = atom 9 v

-- `kp`: a char vector.
abbrev pub kp : Bytes → K
kp s = vector 10 s

-- `jk(&x, y)`: the list with one more element at its end.
unfoldable pub append_element : Ks → K → Ks
append_element nil y = cons y nil
append_element (cons x xs) y = cons x (append_element xs y)
append_element (cons_null xs) y = cons_null (append_element xs y)

abbrev pub of_list : List K → Ks
of_list [] = nil
of_list (x ∷ xs) = cons x (of_list xs)

-- A reading of `clock_gettime`, and what `current_time` makes of it: nanoseconds from 2000.01.01 on, in
-- 64 bits.
pub record Timespec : Type 0 where
  pub tv_sec : ℕ
  pub tv_nsec : ℕ

abbrev pub epoch_shift : ℕ
epoch_shift = 10957 * 86400

unfoldable pub current_time : Timespec → K
current_time ts = atom 12 (((ts.tv_sec + 2 ^ 64 - epoch_shift) * 1000000000 + ts.tv_nsec) % 2 ^ 64)

-- An int counter's `++`.
abbrev pub increment : ℕ → ℕ
increment c = (c + 1) % 2 ^ 32
