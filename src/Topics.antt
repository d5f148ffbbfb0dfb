-- ===== src/Topics.antt =====
-- Topics of src/solace_k.c: `findTopicInList`, `subscribe`, `unsubscribe`, `gettopics`, with
-- `subscribeToTopic` and `unsubscribeFromTopic` of src/solace.c. A function returns the client's next
-- state and its reply. Log lines are left out.
pub mod Rows
pub mod Find
pub mod Arrays
pub mod Subscribe
pub mod Unsubscribe
pub mod Runs
mod Tests
use mathlib.Core.Option
use kdb_solace.Base.{
  ℕ, zero, suc, ◌+◌, ◌||◌, Bool, false, not, List, [], ◌∷◌, map, ℤ, pos, negsuc, Option, none, some,
  ◌==◌, leb, ltb_ℤ, if◌then◌else◌, set,
}
use kdb_solace.Memory.{Bytes}
use kdb_solace.CString.{c_string, same_string}
use kdb_solace.Kdb.{K, nil, cons, symbols, vector, list, table, dict}
use kdb_solace.Solclient.{SolClient, is_ok}
use kdb_solace.Client.{
  noinit, topictype, maxtopics, outofrange, memory, return_code, Reply, nothing, value, error,
  fault, Slot, null, live, TopicIndex, Client,
}

abbrev pub max_topic_count : ℕ
max_topic_count = 250

-- The loop of `findTopicInList`: the slots from index `ii` on, `r` of them still to look at. -1 is
-- `negsuc 0`, and `none` a `strcmp` with a pointer that is no string.
unfoldable pub find_from : List Slot → ℕ → Bytes → ℕ → Option ℤ
find_from slots zero needle ii = some (negsuc 0)
find_from (live s ∷ slots) (suc r) needle ii =
    let rest = find_from slots r needle (ii + 1) in
    if same_string needle s then some (pos ii) else rest
find_from _ (suc r) needle ii = none

-- `findTopicInList`
unfoldable pub find_topic : TopicIndex → Bytes → Option ℤ
unfolding find_from
find_topic t needle = find_from t.topics t.size needle 0

-- `(pos < -1) || (pos >= size)`
abbrev pub is_out_of_range : ℤ → ℕ → Bool
is_out_of_range p size = ltb_ℤ p (negsuc 0) || not (ltb_ℤ p (pos size))

-- A new topic behind the last one, and a known one that is subscribed or unsubscribed again.
unfoldable pub add_topic : TopicIndex → Bytes → ℕ → TopicIndex
add_topic t name now = record {
  size = t.size + 1;
  subscribed = set t.subscribed t.size now;
  unsubscribed = set t.unsubscribed t.size 0;
  topics = set t.topics t.size (live name);
}

unfoldable pub renew_topic : TopicIndex → ℕ → ℕ → TopicIndex
renew_topic t p now = record t {
  subscribed = set t.subscribed p now;
  unsubscribed = set t.unsubscribed p 0;
}

unfoldable pub end_topic : TopicIndex → ℕ → ℕ → TopicIndex
end_topic t p now = record t { unsubscribed = set t.unsubscribed p now }

-- `gettopics` reads name and flag of each topic, the flag from the unsubscribed time.
unfoldable pub rows_from : List Slot → List ℕ → ℕ → Option (List (Bytes × ℕ))
rows_from slots times zero = some []
rows_from (live s ∷ slots) (u ∷ times) (suc r) =
    Option.map (λ rows. (s, (if u == 0 then 1 else 0)) ∷ rows) (rows_from slots times r)
rows_from _ _ (suc r) = none

abbrev pub topics_table : List (Bytes × ℕ) → K
topics_table rows = table (
    dict
      (symbols (
        (b't' ∷ b'o' ∷ b'p' ∷ b'i' ∷ b'c' ∷ [])
        ∷ (b's' ∷ b'u' ∷ b'b' ∷ b's' ∷ b'c' ∷ b'r' ∷ b'i' ∷ b'b' ∷ b'e' ∷ b'd' ∷ [])
        ∷ []))
      (list (cons (symbols (map (λ r. r.0) rows)) (cons (vector 6 (map (λ r. r.1) rows)) nil))))

-- What becomes of a code of solclient.
abbrev pub reply_of : ℤ → Reply
reply_of rc = if is_ok rc then nothing else error (return_code rc)

abbrev pub is_text : K → Bool
is_text (vector t s) = t == 10
is_text _ = false

-- The bytes of `kC(topic)` up to the zero that is written behind them. That write, to the byte behind the
-- vector, has no other effect here.
abbrev pub topic_name : K → Bytes
topic_name (vector t s) = c_string s
topic_name _ = []

module _ (api : SolClient) where
  open api use {World, topic_subscribe, topic_unsubscribe}

  unfoldable pub gettopics : Client World → Reply
  unfolding rows_from
  gettopics c =
      if not c.initiated
      then error noinit
      else elim (rows_from c.index.topics c.index.unsubscribed c.index.size) [
        | none ↦ fault
        | some rows ↦ value (topics_table rows)
      ]

  -- `subscribeToTopic` and what `subscribe` makes of its code; so for `unsubscribeFromTopic`.
  unfoldable pub subscribe_to_topic : Client World → Bytes → Client World × Reply
  subscribe_to_topic c name =
      let (rc, w) = topic_subscribe name c.world in (record c { world = w; rc = rc }, reply_of rc)

  unfoldable pub unsubscribe_from_topic : Client World → Bytes → Client World × Reply
  unsubscribe_from_topic c name =
      let (rc, w) = topic_unsubscribe name c.world in (record c { world = w; rc = rc }, reply_of rc)

  -- `subscribe` from the result of the search on. `got` says whether `malloc` has room.
  unfoldable pub subscribe_at : Client World → Bytes → ℕ → Bool → Option ℤ → Client World × Reply
  unfolding subscribe_to_topic add_topic renew_topic
  subscribe_at c name now got none = (c, fault)
  subscribe_at c name now got (some (negsuc p)) =
      if is_out_of_range (negsuc p) c.index.size
      then (c, error outofrange)
      else if got
      then subscribe_to_topic (record c { index = add_topic c.index name now }) name
      else (
        record c { index = record c.index { topics = set c.index.topics c.index.size null } },
        error memory,
      )
  subscribe_at c name now got (some (pos p)) =
      if is_out_of_range (pos p) c.index.size
      then (c, error outofrange)
      else subscribe_to_topic (record c { index = renew_topic c.index p now }) name

  unfoldable pub subscribe : Client World → K → ℕ → Bool → Client World × Reply
  unfolding find_topic subscribe_at c_string
  subscribe c topic now got =
      if not c.initiated
      then (c, error noinit)
      else if not (is_text topic)
      then (c, error topictype)
      else if leb max_topic_count c.index.size
      then (c, error maxtopics)
      else subscribe_at c (topic_name topic) now got (find_topic c.index (topic_name topic))

  unfoldable pub unsubscribe_at : Client World → Bytes → ℕ → Option ℤ → Client World × Reply
  unfolding unsubscribe_from_topic end_topic
  unsubscribe_at c name now none = (c, fault)
  unsubscribe_at c name now (some (negsuc p)) =
      if is_out_of_range (negsuc p) c.index.size
      then (c, error outofrange)
      else unsubscribe_from_topic c name
  unsubscribe_at c name now (some (pos p)) =
      if is_out_of_range (pos p) c.index.size
      then (c, error outofrange)
      else unsubscribe_from_topic (record c { index = end_topic c.index p now }) name

  unfoldable pub unsubscribe : Client World → K → ℕ → Client World × Reply
  unfolding find_topic unsubscribe_at c_string
  unsubscribe c topic now =
      if not c.initiated
      then (c, error noinit)
      else if not (is_text topic)
      then (c, error topictype)
      else unsubscribe_at c (topic_name topic) now (find_topic c.index (topic_name topic))
