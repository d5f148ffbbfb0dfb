-- ===== src/Topics/Rows.antt =====
-- The topics as q sees them: names with flags, in the order of their first subscription.
use mathlib.Core.Option
use kdb_solace.Base.{
  ℕ, ◌≤◌, ◌≡◌, refl, List, [], ◌∷◌, ◌++◌, Option, none, some, if◌then◌else◌, arith, length,
  Option-cases, Bool-cases, ◌∙◌, inl, inr,
}
use kdb_solace.Memory.{Bytes}
use kdb_solace.CString.{same_string, same_string→eq, same_string_comm, same_string_trans}
use kdb_solace.Client.{TopicIndex}
use kdb_solace.Topics.{max_topic_count, rows_from}

abbrev pub Rows : Type 0
Rows = List (Bytes × ℕ)

-- The flag of a name.
unfoldable pub flag_of : Bytes → Rows → Option ℕ
flag_of name [] = none
flag_of name ((s, v) ∷ rs) = if same_string name s then some v else flag_of name rs

-- A known name's flag changed.
unfoldable pub set_row : Bytes → ℕ → Rows → Rows
set_row name f [] = []
set_row name f ((s, v) ∷ rs) =
    if same_string name s then (s, f) ∷ rs else (s, v) ∷ set_row name f rs

abbrev pub add_or_set : Bytes → Rows → Option ℕ → Rows
add_or_set name rows none = rows ++ ((name, 1) ∷ [])
add_or_set name rows (some v) = set_row name 1 rows

-- What a subscription does: a known name is flagged, a new one comes last.
unfoldable pub add_row : Bytes → Rows → Rows
unfolding flag_of set_row
add_row name rows = add_or_set name rows (flag_of name rows)

-- No name stands twice.
abbrev pub Distinct : Rows → Type 0
Distinct [] = Unit {0}
Distinct ((s, v) ∷ rs) = (flag_of s rs ≡ none) × Distinct rs

-- The arrays have their sizes, the topics in use are strings, and none is there twice.
pub record IsValid (t : TopicIndex) (rows : Rows) : Type 0 where
  pub read : rows_from t.topics t.unsubscribed t.size ≡ some rows
  pub in_use : t.size ≤ max_topic_count
  pub topics : length t.topics ≡ max_topic_count
  pub unsubscribed : length t.unsubscribed ≡ max_topic_count
  pub subscribed : length t.subscribed ≡ max_topic_count
  pub distinct : Distinct rows

pub flag_of-set_row :
    (name k : Bytes) (f : ℕ) (rows : Rows)
    → flag_of name (set_row k f rows)
      ≡ (if same_string k name then Option.map (λ _. f) (flag_of name rows) else flag_of name rows)
unfolding flag_of set_row
flag_of-set_row name k f [] = ground arith
flag_of-set_row name k f ((s, v) ∷ rs) = ground (
  arith,
  flag_of-set_row name k f rs,
  same_string_trans k s name,
  same_string_trans k name s,
  same_string_comm name s,
  same_string_comm k name,
)

pub flag_of-append :
    (name k : Bytes) (f : ℕ) (rows : Rows)
    → flag_of k rows ≡ none
    → flag_of name (rows ++ ((k, f) ∷ []))
      ≡ (if same_string k name then some f else flag_of name rows)
unfolding flag_of
flag_of-append name k f [] e = ground (arith, same_string_comm name k)
flag_of-append name k f ((s, v) ∷ rs) e =
    ground (arith, flag_of-append name k f rs, same_string_trans k name s, same_string_comm name s)

-- After a subscription the name is flagged, and every other name is as it was.
pub flag_of-add_row :
    (name k : Bytes) (rows : Rows)
    → flag_of name (add_row k rows) ≡ (if same_string k name then some 1 else flag_of name rows)
unfolding add_row
flag_of-add_row name k rows = elim (Option-cases (flag_of k rows)) [
  | inl new ↦ rw new (flag_of-append name k 1 rows new)
  | inr (v, old) ↦ rw old (flag_of-set_row name k 1 rows ∙ known v old)
]
  where
    known :
        (v : ℕ)
        → flag_of k rows ≡ some v
        → (if same_string k name
            then Option.map (λ _. 1) (flag_of name rows)
            else flag_of name rows)
          ≡ (if same_string k name then some 1 else flag_of name rows)
    known v old = elim (Bool-cases (same_string k name)) [
      | inl same ↦ rw (same, ← same_string→eq k name same, old)
      | inr other ↦ rw other
    ]

set_row-Distinct : (k : Bytes) (f : ℕ) (rows : Rows) → Distinct rows → Distinct (set_row k f rows)
unfolding set_row
set_row-Distinct k f [] d = tt
set_row-Distinct k f ((s, v) ∷ rs) d =
    ground (arith, set_row-Distinct k f rs d.1, flag_of-set_row s k f rs)

append-Distinct :
    (k : Bytes) (f : ℕ) (rows : Rows)
    → flag_of k rows ≡ none
    → Distinct rows
    → Distinct (rows ++ ((k, f) ∷ []))
unfolding flag_of
append-Distinct k f [] e d = (refl, tt)
append-Distinct k f ((s, v) ∷ rs) e d =
    ground (arith, append-Distinct k f rs, flag_of-append s k f rs, same_string_comm k s)

pub add_row-Distinct : (k : Bytes) (rows : Rows) → Distinct rows → Distinct (add_row k rows)
unfolding add_row
add_row-Distinct k rows d = elim (Option-cases (flag_of k rows)) [
  | inl new ↦ rw new (append-Distinct k 1 rows new d)
  | inr (v, old) ↦ rw old (set_row-Distinct k 1 rows d)
]

pub end_row-Distinct : (k : Bytes) (rows : Rows) → Distinct rows → Distinct (set_row k 0 rows)
end_row-Distinct k rows d = set_row-Distinct k 0 rows d
