-- ===== src/Topics/Runs.antt =====
-- Sequences of `subscribe` and `unsubscribe` calls of src/solace_k.c, against a table of topics and flags.
use kdb_solace.Base.{
  ℕ, zero, suc, ◌<◌, ◌≡◌, refl, ◌∙◌, true, List, [], ◌∷◌, some, leb, if◌then◌else◌, arith, length,
  Option-cases, Bool-cases, inl, inr,
}
use kdb_solace.Memory.{Bytes}
use kdb_solace.Kdb.{vector}
use kdb_solace.Solclient.{SolClient}
use kdb_solace.Client.{Slot, live, Client, value}
use kdb_solace.CString.{c_string}
use kdb_solace.Topics.{max_topic_count, rows_from, topics_table, gettopics, subscribe, unsubscribe}
use kdb_solace.Topics.Rows.{Rows, set_row, add_row, IsValid}
use kdb_solace.Topics.Subscribe.{subscribe-Subscribed, gettopics-rows, subscribe_full}
use kdb_solace.Topics.Unsubscribe.{unsubscribe-Unsubscribed}

rows_from-length :
    (slots : List Slot) (times : List ℕ) (n : ℕ) (rows : Rows)
    → rows_from slots times n ≡ some rows
    → length rows ≡ n
unfolding rows_from
rows_from-length slots times zero [] e = refl
rows_from-length slots times zero (r ∷ rows) e = absurd cc
rows_from-length (live s ∷ slots) (u ∷ times) (suc n) rows e =
    elim (Option-cases (rows_from slots times n)) [
      | inl bad ↦ absurd (ground (arith, bad))
      | inr (rest, good) ↦ ground (arith, rows_from-length slots times n rest good)
    ]
rows_from-length _ _ (suc n) rows e = absurd cc

-- A call that q makes, with the name given and the time.
pub data Call : Type 0 where
  sub unsub : Bytes → ℕ → Call

-- The table after a call; a full one takes no subscription.
unfoldable pub row_step : Rows → Call → Rows
row_step rows (sub s now) =
    if leb max_topic_count (length rows) then rows else add_row (c_string s) rows
row_step rows (unsub s now) = set_row (c_string s) 0 rows

abbrev pub rows_after : Rows → List Call → Rows
rows_after rows [] = rows
rows_after rows (x ∷ calls) = rows_after (row_step rows x) calls

-- The clock is past 1970.
abbrev pub TimesPositive : List Call → Type 0
TimesPositive [] = Unit {0}
TimesPositive (sub s now ∷ calls) = TimesPositive calls
TimesPositive (unsub s now ∷ calls) = (0 < now) × TimesPositive calls

module _ (api : SolClient) where
  open api use {World}

  -- The client after a call, `malloc` having room.
  unfoldable pub call : Client World → Call → Client World
  call c (sub s now) = (subscribe api c (vector 10 s) now true).0
  call c (unsub s now) = (unsubscribe api c (vector 10 s) now).0

  abbrev pub client_after : Client World → List Call → Client World
  client_after c [] = c
  client_after c (x ∷ calls) = client_after (call c x) calls

  subscribe_step :
      (c : Client World) (rows : Rows) (s : Bytes) (now : ℕ)
      → IsValid c.index rows
      → c.initiated ≡ true
      → IsValid (call c (sub s now)).index (row_step rows (sub s now))
        × ((call c (sub s now)).initiated ≡ true)
  unfolding call row_step
  subscribe_step c rows s now v on =
      let same : length rows ≡ c.index.size =
        rows_from-length c.index.topics c.index.unsubscribed c.index.size rows v.read in
      elim (Bool-cases (leb max_topic_count c.index.size)) [
        | inl full ↦ rw (call, same, full, subscribe_full api c s now true on full) (v, on)
        | inr room ↦
            let x = subscribe-Subscribed api c rows s now v on (ground (arith, room)) in
            rw (call, same, room) (x.index, x.initiated ∙ on)
      ]

  call_step :
      (c : Client World) (rows : Rows) (x : Call)
      → IsValid c.index rows
      → c.initiated ≡ true
      → TimesPositive (x ∷ [])
      → IsValid (call c x).index (row_step rows x) × ((call c x).initiated ≡ true)
  unfolding call row_step
  call_step c rows (sub s now) v on later = subscribe_step c rows s now v on
  call_step c rows (unsub s now) v on later =
      let x = unsubscribe-Unsubscribed api c rows s now v on later.0 in (x.index, x.initiated ∙ on)

  -- From a valid index, on a connection, and with a clock past 1970, after any sequence of `subscribe` and
  -- `unsubscribe` calls with char vectors, in which `malloc` has room, the index is valid and
  -- `gettopics` returns the table after these calls, whatever the broker has said to them.
  pub gettopics-calls :
      (c : Client World) (rows : Rows) (calls : List Call)
      → IsValid c.index rows
      → c.initiated ≡ true
      → TimesPositive calls
      → IsValid (client_after c calls).index (rows_after rows calls)
        × (gettopics api (client_after c calls) ≡ value (topics_table (rows_after rows calls)))
  gettopics-calls c rows [] v on later = (v, gettopics-rows api c rows v on)
  gettopics-calls c rows (sub s now ∷ calls) v on later =
      let x = call_step c rows (sub s now) v on tt in
      gettopics-calls (call c (sub s now)) (row_step rows (sub s now)) calls x.0 x.1 later
  gettopics-calls c rows (unsub s now ∷ calls) v on later =
      let x = call_step c rows (unsub s now) v on (later.0, tt) in
      gettopics-calls (call c (unsub s now)) (row_step rows (unsub s now)) calls x.0 x.1 later.1
