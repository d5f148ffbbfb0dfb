-- ===== src/Kdb/Objects.antt =====
-- When a value of `struct k0` (include/k.h) is an object of q.
use kdb_solace.Base.{ℕ, ◌<◌, ◌^◌, ◌≡◌, ◌||◌, List, [], ◌∷◌, ◌==◌, if◌then◌else◌}
use kdb_solace.Kdb.{
  K, Ks, nil, cons, cons_null, atom, symbol, symbols, vector, list, table, dict, other, size,
}

-- The bits of a value of each type.
abbrev pub width : ℕ → ℕ
width t =
    if t == 1 || t == 4 || t == 10
    then 8
    else if t == 5
    then 16
    else if t == 6 || t == 8 || t == 13 || t == 14 || t == 17 || t == 18 || t == 19
    then 32
    else if t == 2
    then 128
    else 64

abbrev pub HaveBits : ℕ → List ℕ → Type 0
HaveBits w [] = Unit {0}
HaveBits w (v ∷ vs) = (v < 2 ^ w) × HaveBits w vs

-- The columns of a table have one length.
abbrev pub AreColumns : ℕ → Ks → Type 0
AreColumns n nil = Unit {0}
AreColumns n (cons x xs) = (size x ≡ n) × AreColumns n xs
AreColumns n (cons_null xs) = ⊥

-- The keys and the values of a dictionary are as many. Neither the rows of a table are counted nor the
-- elements of a type that is not known here.
abbrev pub AreAsMany : ℕ → K → Type 0
AreAsMany n (symbols ss) = n ≡ size (symbols ss)
AreAsMany n (vector t vs) = n ≡ size (vector t vs)
AreAsMany n (list xs) = n ≡ size (list xs)
AreAsMany n _ = Unit {0}

abbrev pub ArePaired : K → K → Type 0
ArePaired (symbols ss) v = AreAsMany (size (symbols ss)) v
ArePaired (vector t vs) v = AreAsMany (size (vector t vs)) v
ArePaired (list xs) v = AreAsMany (size (list xs)) v
ArePaired _ v = Unit {0}

-- What stands below a table: names, and columns of one length.
abbrev pub IsTable : K → Type 0
IsTable (dict (symbols names) (list (cons x xs))) = AreColumns (size x) xs
IsTable (dict (symbols names) (list nil)) = Unit {0}
IsTable _ = ⊥

-- No pointer is null, values have the bits of their type, and lists that belong together are as long.
unfoldable mutual
  pub IsObject : K → Type 0
  IsObject (atom t v) = v < 2 ^ width t
  IsObject (symbol s) = Unit {0}
  IsObject (vector t vs) = HaveBits (width t) vs
  IsObject (symbols ss) = Unit {0}
  IsObject (list xs) = AreObjects xs
  IsObject (table x) = IsTable x × IsObject x
  IsObject (dict k v) = IsObject k × IsObject v × ArePaired k v
  IsObject (other c n) = Unit {0}

  pub AreObjects : Ks → Type 0
  AreObjects nil = Unit {0}
  AreObjects (cons x xs) = IsObject x × AreObjects xs
  AreObjects (cons_null xs) = ⊥
