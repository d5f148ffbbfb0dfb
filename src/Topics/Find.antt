-- ===== src/Topics/Find.antt =====
-- What `findTopicInList` finds, and what writing at that place does to the rows.
use mathlib.Core.Option
use kdb_solace.Base.{
  ℕ, zero, suc, ◌+◌, ◌<◌, ◌≡◌, ◌≢◌, refl, subst, ap, ◌⊎◌, true, false, List, [], ◌∷◌, pos, negsuc,
  none, some, ◌==◌, if◌then◌else◌, arith, set, Option-cases, Bool-cases, inl, inr,
}
use kdb_solace.Memory.{Bytes}
use kdb_solace.CString.{same_string}
use kdb_solace.Client.{Slot, unset, null, freed, live}
use kdb_solace.Topics.{find_from, rows_from}
use kdb_solace.Topics.Rows.{Rows, flag_of, set_row}

abbrev pub flag : ℕ → ℕ
flag u = if u == 0 then 1 else 0

-- The name is at place `k` of the slots; a time written there sets its flag and nothing else.
pub record Located (slots : List Slot) (times : List ℕ) (r : ℕ) (rows : Rows) (needle : Bytes)
    (k : ℕ) : Type 0 where
  pub below : k < r
  pub known : flag_of needle rows ≢ none
  pub written : (u : ℕ) → rows_from slots (set times k u) r ≡ some (set_row needle (flag u) rows)

abbrev pub Finds : List Slot → List ℕ → ℕ → Rows → Bytes → ℕ → Type 0
Finds slots times r rows needle ii =
    ((find_from slots r needle ii ≡ some (negsuc 0)) × (flag_of needle rows ≡ none))
    ⊎ ((k : ℕ) × (find_from slots r needle ii ≡ some (pos (ii + k)))
        × Located slots times r rows needle k)

-- What a first topic that can be read says of the rows.
pub rows_cons :
    (name : Bytes) (slots : List Slot) (u : ℕ) (times : List ℕ) (r : ℕ) (rows : Rows)
    → rows_from (live name ∷ slots) (u ∷ times) (suc r) ≡ some rows
    → (rs : Rows) × (rows_from slots times r ≡ some rs) × ((name, flag u) ∷ rs ≡ rows)
unfolding rows_from
rows_cons name slots u times r rows e = elim (Option-cases (rows_from slots times r)) [
  | inl nothing ↦
      absurd
        (let e' : Option.map (λ rs. (name, flag u) ∷ rs) none ≡ some rows = rw nothing at e in cc)
  | inr (rs, e') ↦ (
    rs,
    e',
    let e'' : Option.map (λ rs. (name, flag u) ∷ rs) (some rs) ≡ some rows = rw e' at e in cc,
  )
]

-- One place further on.
find_next :
    (name : Bytes) (slots : List Slot) (u : ℕ) (times : List ℕ) (r : ℕ) (rs : Rows) (needle : Bytes)
    (ii : ℕ)
    → same_string needle name ≡ false
    → Finds slots times r rs needle (ii + 1)
    → Finds (live name ∷ slots) (u ∷ times) (suc r) ((name, flag u) ∷ rs) needle ii
unfolding find_from rows_from flag_of set_row
find_next name slots u times r rs needle ii other (inl (e, new)) =
    inl (rw (other, e), rw (other, new))
find_next name slots u times r rs needle ii other (inr (k, e, l)) = inr (
  suc k,
  rw (other, e) (ap (λ (j : ℕ). some (pos j)) (omega arith)),
  record {
    below = omega (arith, l.below);
    known = rw other l.known;
    written = λ v. rw (l.written v, other);
  },
)

find_here :
    (name : Bytes) (slots : List Slot) (u : ℕ) (times : List ℕ) (r : ℕ) (rs : Rows) (needle : Bytes)
    (ii : ℕ)
    → same_string needle name ≡ true
    → rows_from slots times r ≡ some rs
    → Finds (live name ∷ slots) (u ∷ times) (suc r) ((name, flag u) ∷ rs) needle ii
unfolding find_from rows_from flag_of set_row
find_here name slots u times r rs needle ii same e = inr (
  0,
  rw same (ap (λ (j : ℕ). some (pos j)) (omega arith)),
  record { below = omega arith; known = rw same (λ n. cc); written = λ v. rw (e, same) },
)

-- A search either fails and the name is none of the rows', or finds its place.
pub find_from-Finds :
    (slots : List Slot) (times : List ℕ) (r : ℕ) (rows : Rows) (needle : Bytes) (ii : ℕ)
    → rows_from slots times r ≡ some rows
    → Finds slots times r rows needle ii
unfolding find_from rows_from flag_of set_row
find_from-Finds slots times zero rows needle ii e =
    let none_there : [] ≡ rows = cc in inl (refl, rw (← none_there))
find_from-Finds [] times (suc r) rows needle ii e = absurd (cc)
find_from-Finds (unset ∷ slots) times (suc r) rows needle ii e = absurd (cc)
find_from-Finds (null ∷ slots) times (suc r) rows needle ii e = absurd (cc)
find_from-Finds (freed ∷ slots) times (suc r) rows needle ii e = absurd (cc)
find_from-Finds (live s ∷ slots) [] (suc r) rows needle ii e = absurd (cc)
find_from-Finds (live s ∷ slots) (u ∷ times) (suc r) rows needle ii e =
    let (rs, e', same_rows) = rows_cons s slots u times r rows e in
    subst (λ l. Finds (live s ∷ slots) (u ∷ times) (suc r) l needle ii) same_rows
      (elim (Bool-cases (same_string needle s)) [
        | inl same ↦ find_here s slots u times r rs needle ii same e'
        | inr other ↦
            find_next s slots u times r rs needle ii other
              (find_from-Finds slots times r rs needle (ii + 1) e')
      ])
