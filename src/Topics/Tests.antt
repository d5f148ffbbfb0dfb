-- ===== src/Topics/Tests.antt =====
-- Subscriptions on a small index, with a broker that refuses names of more than three bytes.
use kdb_solace.Base.{
  ℕ, ◌+◌, ◌≡◌, refl, some, true, List, [], ◌∷◌, leb, if◌then◌else◌, arith, length, replicate,
}
use kdb_solace.Memory.{Bytes}
use kdb_solace.CString.{c_string, same_string}
use kdb_solace.Kdb.{vector}
use kdb_solace.Solclient.{SolClient, solclient_ok, solclient_fail}
use kdb_solace.Client.{return_code, value, error, unset, live, TopicIndex, Client}
use kdb_solace.Topics.{rows_from, topics_table, gettopics, subscribe, unsubscribe}
use kdb_solace.Topics.Rows.{Rows, flag_of, add_row, IsValid}
use kdb_solace.Topics.Subscribe.{Subscribed, subscribe-Subscribed, refused_is_listed}
use kdb_solace.Topics.Runs.{Call, sub, unsub, rows_after, client_after, gettopics-calls}
use kdb_solace.Topics.Unsubscribe.{Unsubscribed, unsubscribe-Unsubscribed}

abbrev picky : SolClient
picky = record {
  World = ℕ;
  topic_subscribe = λ s w. (if leb (length s) 3 then solclient_ok else solclient_fail, w + 1);
  topic_unsubscribe = λ s w. (solclient_ok, w + 1);
}

abbrev index : TopicIndex
index = record {
  size = 2;
  subscribed = 100 ∷ 101 ∷ replicate 248 0;
  unsubscribed = 0 ∷ 102 ∷ replicate 248 0;
  topics = live (b'a' ∷ []) ∷ live (b'b' ∷ b'c' ∷ []) ∷ replicate 248 unset;
}

abbrev rows : Rows
rows = ((b'a' ∷ []), 1) ∷ ((b'b' ∷ b'c' ∷ []), 0) ∷ []

abbrev client : Client ℕ
client = record { world = 0; initiated = true; rc = solclient_ok; index = index }

abbrev long_name : Bytes
long_name = b'w' ∷ b'x' ∷ b'y' ∷ b'z' ∷ []

index-IsValid : IsValid index rows
unfolding rows_from flag_of same_string
index-IsValid = record {
  read = refl;
  in_use = omega arith;
  topics = refl;
  unsubscribed = refl;
  subscribed = refl;
  distinct = (refl, (refl, tt));
}

-- A known topic comes back under its place.
subscribe_again :
    gettopics picky (subscribe picky client (vector 10 (b'b' ∷ b'c' ∷ [])) 200 true).0
    ≡ value (topics_table (((b'a' ∷ []), 1) ∷ ((b'b' ∷ b'c' ∷ []), 1) ∷ []))
unfolding gettopics subscribe same_string
subscribe_again = refl

unsubscribe_first :
    gettopics picky (unsubscribe picky client (vector 10 (b'a' ∷ [])) 200).0
    ≡ value (topics_table (((b'a' ∷ []), 0) ∷ ((b'b' ∷ b'c' ∷ []), 0) ∷ []))
unfolding gettopics unsubscribe same_string
unsubscribe_first = refl

subscribe-Subscribed_example :
    Subscribed picky client rows
      (c_string (b'd' ∷ []))
      (subscribe picky client (vector 10 (b'd' ∷ [])) 200 true)
subscribe-Subscribed_example =
    subscribe-Subscribed picky client rows (b'd' ∷ []) 200 index-IsValid refl (omega arith)

refused_is_listed_example :
    let (c, r) = subscribe picky client (vector 10 long_name) 200 true in
    (r ≡ error (return_code (picky.topic_subscribe (c_string long_name) 0).0))
    × (gettopics picky c ≡ value (topics_table (add_row (c_string long_name) rows)))
    × (flag_of (c_string long_name) (add_row (c_string long_name) rows) ≡ some 1)
refused_is_listed_example =
    refused_is_listed picky client rows long_name 200 index-IsValid refl (omega arith)
      (unfold c_string in refl)

unsubscribe-Unsubscribed_example :
    Unsubscribed picky client rows
      (c_string (b'a' ∷ []))
      (unsubscribe picky client (vector 10 (b'a' ∷ [])) 200)
unsubscribe-Unsubscribed_example =
    unsubscribe-Unsubscribed picky client rows (b'a' ∷ []) 200 index-IsValid refl (omega arith)

abbrev calls : List Call
calls =
    sub (b'd' ∷ []) 200
    ∷ unsub (b'a' ∷ []) 201
    ∷ sub long_name 202
    ∷ sub (b'a' ∷ []) 203
    ∷ unsub (b'z' ∷ []) 204
    ∷ unsub (b'd' ∷ []) 205
    ∷ []

gettopics-calls_example :
    IsValid (client_after picky client calls).index (rows_after rows calls)
    × (gettopics picky (client_after picky client calls)
        ≡ value (topics_table (rows_after rows calls)))
gettopics-calls_example =
    gettopics-calls picky client rows calls index-IsValid refl
      (omega arith, (omega arith, (omega arith, tt)))
