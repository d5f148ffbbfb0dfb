-- ===== src/Topics/Arrays.antt =====
-- Writes to the arrays of `topicindex`, as the rows show them.
use native.Mathlib.Numerals.{add-one}
use kdb_solace.Base.{
  ℕ, zero, suc, ◌<◌, ◌≡◌, refl, ap, ◌∙◌, List, [], ◌∷◌, ◌++◌, none, some, arith, length, set,
  length-set, Option-cases, inl, inr,
}
use kdb_solace.Memory.{Bytes}
use kdb_solace.Client.{Slot, unset, null, freed, live, TopicIndex}
use kdb_solace.Topics.{max_topic_count, rows_from, end_topic, add_topic, renew_topic}
use kdb_solace.Topics.Rows.{
  Rows, flag_of, set_row, add_row, IsValid, add_row-Distinct, end_row-Distinct,
}
use kdb_solace.Topics.Find.{Located, rows_cons}

-- A new topic written behind those in use is the last row.
rows_from-new :
    (slots : List Slot) (times : List ℕ) (r : ℕ) (rows : Rows) (name : Bytes)
    → rows_from slots times r ≡ some rows
    → r < length slots
    → r < length times
    → rows_from (set slots r (live name)) (set times r 0) (suc r) ≡ some (rows ++ ((name, 1) ∷ []))
unfolding rows_from
rows_from-new [] times r rows name e p q = absurd (omega arith)
rows_from-new (s ∷ slots) [] r rows name e p q = absurd (omega arith)
rows_from-new (s ∷ slots) (u ∷ times) zero rows name e p q =
    let none_there : [] ≡ rows = cc in rw (← none_there)
rows_from-new (unset ∷ slots) (u ∷ times) (suc r) rows name e p q = cc
rows_from-new (null ∷ slots) (u ∷ times) (suc r) rows name e p q = cc
rows_from-new (freed ∷ slots) (u ∷ times) (suc r) rows name e p q = cc
rows_from-new (live s ∷ slots) (u ∷ times) (suc r) rows name e p q =
    let (rs, e', same) = rows_cons s slots u times r rows e in
    rw (rows_from-new slots times r rs name e' (omega arith) (omega arith), ← same)

-- Writing a slot behind those in use changes no row.
pub rows_from-behind :
    (slots : List Slot) (times : List ℕ) (r : ℕ) (rows : Rows) (slot : Slot)
    → rows_from slots times r ≡ some rows
    → rows_from (set slots r slot) times r ≡ some rows
unfolding rows_from
rows_from-behind slots times zero rows slot e = e
rows_from-behind [] times (suc r) rows slot e = e
rows_from-behind (unset ∷ slots) times (suc r) rows slot e = cc
rows_from-behind (null ∷ slots) times (suc r) rows slot e = cc
rows_from-behind (freed ∷ slots) times (suc r) rows slot e = cc
rows_from-behind (live s ∷ slots) [] (suc r) rows slot e = cc
rows_from-behind (live s ∷ slots) (u ∷ times) (suc r) rows slot e =
    let (rs, e', same) = rows_cons s slots u times r rows e in
    rw (rows_from-behind slots times r rs slot e', ← same)

pub add_topic-IsValid :
    (t : TopicIndex) (rows : Rows) (name : Bytes) (now : ℕ)
    → IsValid t rows
    → t.size < max_topic_count
    → flag_of name rows ≡ none
    → IsValid (add_topic t name now) (add_row name rows)
unfolding add_topic add_row
add_topic-IsValid t rows name now v room new = record {
  read =
      rw (new, add-one)
        (rows_from-new t.topics t.unsubscribed t.size rows name v.read (omega (arith, v.topics))
          (omega (arith, v.unsubscribed)));
  in_use = omega arith;
  topics = omega (arith, length-set t.topics t.size (live name), v.topics);
  unsubscribed = omega (arith, length-set t.unsubscribed t.size 0, v.unsubscribed);
  subscribed = omega (arith, length-set t.subscribed t.size now, v.subscribed);
  distinct = add_row-Distinct name rows v.distinct;
}

pub renew_topic-IsValid :
    (t : TopicIndex) (rows : Rows) (name : Bytes) (k now : ℕ)
    → IsValid t rows
    → Located t.topics t.unsubscribed t.size rows name k
    → IsValid (renew_topic t k now) (add_row name rows)
unfolding renew_topic add_row
renew_topic-IsValid t rows name k now v l = elim (Option-cases (flag_of name rows)) [
  | inl new ↦ absurd (l.known new)
  | inr (f, old) ↦ record {
    read = rw old (l.written 0);
    in_use = v.in_use;
    topics = v.topics;
    unsubscribed = omega (arith, length-set t.unsubscribed k 0, v.unsubscribed);
    subscribed = omega (arith, length-set t.subscribed k now, v.subscribed);
    distinct = add_row-Distinct name rows v.distinct;
  }
]

-- A time written at the place of a known topic flags it as not subscribed.
pub end_topic-IsValid :
    (t : TopicIndex) (rows : Rows) (name : Bytes) (k now : ℕ)
    → IsValid t rows
    → 0 < now
    → Located t.topics t.unsubscribed t.size rows name k
    → IsValid (end_topic t k now) (set_row name 0 rows)
unfolding end_topic
end_topic-IsValid t rows name k now v later l = record {
  read = l.written now ∙ ap (λ f. some (set_row name f rows)) (ground (arith, later));
  in_use = v.in_use;
  topics = v.topics;
  unsubscribed = omega (arith, length-set t.unsubscribed k now, v.unsubscribed);
  subscribed = v.subscribed;
  distinct = end_row-Distinct name rows v.distinct;
}

-- A name that is not there has no flag to set.
pub set_row_absent :
    (name : Bytes) (f : ℕ) (rows : Rows) → flag_of name rows ≡ none → set_row name f rows ≡ rows
unfolding flag_of set_row
set_row_absent name f [] e = refl
set_row_absent name f ((s, v) ∷ rs) e = ground (arith, set_row_absent name f rs)
