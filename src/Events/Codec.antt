-- ===== src/Events/Codec.antt =====
-- A serialization of lists of seven elements, to try the theorems on: the values one behind the other.
use mathlib.Core.Option.{some-injective}
use kdb_solace.Base.{
  zero, suc, ◌≤◌, ◌<◌, ◌≡◌, refl, ap, sym, Option, none, some, [], ◌∷◌, ◌++◌, ◌∙◌, length, leb,
  if◌then◌else◌, arith,
}
use kdb_solace.Memory.{Bytes}
use kdb_solace.Kdb.{K, nil, cons, atom, symbol, vector, list}
use kdb_solace.Events.Runs.{Serializes}

abbrev pub last_values : K → Option Bytes
last_values (symbol text) = some (0 ∷ text)
last_values (vector w text) = some (1 ∷ w ∷ text)
last_values (list (cons (vector w text) nil)) = some (2 ∷ w ∷ text)
last_values _ = none

abbrev pub last_of : Bytes → K
last_of (zero ∷ text) = symbol text
last_of (suc zero ∷ w ∷ text) = vector w text
last_of (suc (suc _) ∷ w ∷ text) = list (cons (vector w text) nil)
last_of _ = list nil

last_of-last_values : (x : K) (bytes : Bytes) → last_values x ≡ some bytes → last_of bytes ≡ x
last_of-last_values (symbol text) bytes e = ap last_of (sym (some-injective _ _ e))
last_of-last_values (vector w text) bytes e = ap last_of (sym (some-injective _ _ e))
last_of-last_values (list (cons (vector w text) nil)) bytes e =
    ap last_of (sym (some-injective _ _ e))
last_of-last_values _ bytes e = absurd cc

abbrev pub behind : Bytes → Option Bytes → Option Bytes
behind values none = none
behind values (some more) = some (values ++ more)

behind-some :
    (values : Bytes) (o : Option Bytes) (bytes : Bytes)
    → behind values o ≡ some bytes
    → (more : Bytes) × (o ≡ some more) × (values ++ more ≡ bytes)
behind-some values none bytes e = absurd cc
behind-some values (some more) bytes e = (more, refl, some-injective _ _ e)

abbrev pub values : K → Option Bytes
values
      (list (
        cons (atom p l) (
          cons (atom q n) (
            cons
              (symbol (d ∷ []))
              (cons (atom t a) (cons (atom u b) (cons (atom v c) (cons x nil)))))))) =
    behind (p ∷ l ∷ q ∷ n ∷ d ∷ t ∷ a ∷ u ∷ b ∷ v ∷ c ∷ []) (last_values x)
values _ = none

abbrev pub seven : Bytes → K
seven (p ∷ l ∷ q ∷ n ∷ d ∷ t ∷ a ∷ u ∷ b ∷ v ∷ c ∷ more) = list (
    cons (atom p l) (
      cons (atom q n) (
        cons (symbol (d ∷ []))
          (cons (atom t a) (cons (atom u b) (cons (atom v c) (cons (last_of more) nil)))))))
seven _ = list nil

seven-values :
    (y : K) (bytes : Bytes) → values y ≡ some bytes → (0 < length bytes) × (seven bytes ≡ y)
seven-values
      (list (
        cons (atom p l) (
          cons (atom q n) (
            cons
              (symbol (d ∷ []))
              (cons (atom t a) (cons (atom u b) (cons (atom v c) (cons x nil))))))))
      bytes e =
    let (more, last, same) =
      behind-some (p ∷ l ∷ q ∷ n ∷ d ∷ t ∷ a ∷ u ∷ b ∷ v ∷ c ∷ []) (last_values x) bytes e in
    (
      omega (arith, ap length same),
      ap seven (sym same)
          ∙ ap
              (λ x. list (
                cons (atom p l) (
                  cons (atom q n) (
                    cons (symbol (d ∷ []))
                      (cons (atom t a) (cons (atom u b) (cons (atom v c) (cons x nil))))))))
              (last_of-last_values x more last),
    )
seven-values _ bytes e = absurd cc

-- What has 900 values at most.
abbrev pub short : Option Bytes → Option Bytes
short none = none
short (some bytes) = if leb (length bytes) 900 then some bytes else none

-- The number of values, and that they are bytes, is not looked at.
abbrev pub short_values : K → Option Bytes
short_values y = short (values y)

short-some :
    (o : Option Bytes) (bytes : Bytes)
    → short o ≡ some bytes
    → (o ≡ some bytes) × (length bytes ≤ 900)
short-some none bytes e = absurd cc
short-some (some m) bytes e = ground (arith, e)

pub short_values-Serializes : Serializes short_values seven
short_values-Serializes = record {
  some_bytes = λ {y} {bytes} e. (seven-values y bytes (short-some (values y) bytes e).0).0;
  reads = λ {y} {bytes} e. (seven-values y bytes (short-some (values y) bytes e).0).1;
}
