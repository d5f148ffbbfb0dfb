-- ===== src/Topics/Subscribe.antt =====
-- `subscribe` and `gettopics` of src/solace_k.c on every branch.
use kdb_solace.Base.{
  ℕ, ◌<◌, ◌≡◌, refl, ap, ◌∙◌, Bool, true, false, pos, negsuc, none, some, leb, lt→leb, arith,
  length-set, inl, inr,
}
use kdb_solace.Memory.{Bytes}
use kdb_solace.Kdb.{vector}
use kdb_solace.Solclient.{SolClient, is_ok}
use kdb_solace.Client.{maxtopics, memory, return_code, Reply, value, error, null, Client}
use kdb_solace.Topics.{
  max_topic_count, find_topic, find_from, topics_table, gettopics, subscribe, subscribe_at,
  subscribe_to_topic, reply_of, is_out_of_range,
}
use kdb_solace.Topics.Rows.{Rows, flag_of, add_row, IsValid, flag_of-add_row}
use kdb_solace.Topics.Find.{Finds, find_from-Finds}
use kdb_solace.CString.{c_string, same_string_refl}
use kdb_solace.Topics.Arrays.{add_topic-IsValid, renew_topic-IsValid, rows_from-behind}

module _ (api : SolClient) where
  open api use {World, topic_subscribe}

  -- On a valid index `gettopics` returns the table of its rows.
  pub gettopics-rows :
      (c : Client World) (rows : Rows)
      → IsValid c.index rows
      → c.initiated ≡ true
      → gettopics api c ≡ value (topics_table rows)
  unfolding gettopics
  gettopics-rows c rows v on = rw (on, v.read)

  -- What a subscription to `name` has done, whatever the broker says to it.
  pub record Subscribed (c : Client World) (rows : Rows) (name : Bytes) (out : Client World × Reply)
      : Type 0 where
    pub index : IsValid out.0.index (add_row name rows)
    pub code : out.0.rc ≡ (topic_subscribe name c.world).0
    pub world : out.0.world ≡ (topic_subscribe name c.world).1
    pub initiated : out.0.initiated ≡ c.initiated
    pub reply : out.1 ≡ reply_of (topic_subscribe name c.world).0

  subscribe_at-Subscribed :
      (c : Client World) (rows : Rows) (name : Bytes) (now : ℕ)
      → IsValid c.index rows
      → c.index.size < max_topic_count
      → Subscribed c rows name (subscribe_at api c name now true (find_topic c.index name))
  unfolding subscribe_at find_topic subscribe_to_topic
  subscribe_at-Subscribed c rows name now v room =
      go (find_from-Finds c.index.topics c.index.unsubscribed c.index.size rows name 0 v.read)
    where
      go :
          Finds c.index.topics c.index.unsubscribed c.index.size rows name 0
          → Subscribed c rows name (subscribe_at api c name now true (find_topic c.index name))
      go (inl (e, new)) =
          let inside : is_out_of_range (negsuc 0) c.index.size ≡ false = ground arith in
          rw (e, inside)
            (record {
              index = add_topic-IsValid c.index rows name now v room new;
              code = refl;
              world = refl;
              initiated = refl;
              reply = refl;
            })
      go (inr (k, e, l)) =
          let at : find_from c.index.topics c.index.size name 0 ≡ some (pos k) =
            e ∙ ap (λ (j : ℕ). some (pos j)) (omega arith) in
          let inside : is_out_of_range (pos k) c.index.size ≡ false = ground (arith, l.below) in
          rw (at, inside)
            (record {
              index = renew_topic-IsValid c.index rows name k now v l;
              code = refl;
              world = refl;
              initiated = refl;
              reply = refl;
            })

  pub subscribe-at :
      (c : Client World) (s : Bytes) (now : ℕ) (got : Bool)
      → c.initiated ≡ true
      → c.index.size < max_topic_count
      → subscribe api c (vector 10 s) now got
        ≡ subscribe_at api c (c_string s) now got (find_topic c.index (c_string s))
  unfolding subscribe
  subscribe-at c s now got on room = simp (on, lt→leb max_topic_count c.index.size room)

  -- With a connection and room for another topic, `subscribe` of a char vector marks its topic as
  -- subscribed, keeps every other topic as it was, asks the broker once and reports the broker's code;
  -- the index changes so even if the broker refuses.
  pub subscribe-Subscribed :
      (c : Client World) (rows : Rows) (s : Bytes) (now : ℕ)
      → IsValid c.index rows
      → c.initiated ≡ true
      → c.index.size < max_topic_count
      → Subscribed c rows (c_string s) (subscribe api c (vector 10 s) now true)
  subscribe-Subscribed c rows s now v on room =
      rw (subscribe-at c s now true on room)
        (subscribe_at-Subscribed c rows (c_string s) now v room)

  -- A topic that the broker refuses is listed by `gettopics` as subscribed all the same.
  pub refused_is_listed :
      (c : Client World) (rows : Rows) (s : Bytes) (now : ℕ)
      → IsValid c.index rows
      → c.initiated ≡ true
      → c.index.size < max_topic_count
      → is_ok (topic_subscribe (c_string s) c.world).0 ≡ false
      → let (c', r) = subscribe api c (vector 10 s) now true in
        (r ≡ error (return_code (topic_subscribe (c_string s) c.world).0))
        × (gettopics api c' ≡ value (topics_table (add_row (c_string s) rows)))
        × (flag_of (c_string s) (add_row (c_string s) rows) ≡ some 1)
  refused_is_listed c rows s now v on room bad =
      let x = subscribe-Subscribed c rows s now v on room in
      (
        x.reply ∙ rw bad,
        gettopics-rows (subscribe api c (vector 10 s) now true).0 (add_row (c_string s) rows)
            x.index (x.initiated ∙ on),
        flag_of-add_row (c_string s) (c_string s) rows ∙ rw (same_string_refl (c_string s)),
      )

  -- Once 250 topics are in the index a subscription changes nothing, also that of a known topic.
  pub subscribe_full :
      (c : Client World) (s : Bytes) (now : ℕ) (got : Bool)
      → c.initiated ≡ true
      → leb max_topic_count c.index.size ≡ true
      → subscribe api c (vector 10 s) now got ≡ (c, error maxtopics)
  unfolding subscribe
  subscribe_full c s now got on full = simp (on, full)

  -- If `malloc` has no room a new topic is not added, and the broker is not asked.
  pub subscribe_without_memory :
      (c : Client World) (rows : Rows) (s : Bytes) (now : ℕ)
      → IsValid c.index rows
      → c.initiated ≡ true
      → c.index.size < max_topic_count
      → flag_of (c_string s) rows ≡ none
      → let (c', r) = subscribe api c (vector 10 s) now false in
        IsValid c'.index rows × (r ≡ error memory) × (c'.world ≡ c.world)
  unfolding subscribe_at find_topic
  subscribe_without_memory c rows s now v on room new = rw (subscribe-at c s now false on room) (
      go (
        find_from-Finds c.index.topics c.index.unsubscribed c.index.size rows (c_string s) 0
          v.read))
    where
      go :
          Finds c.index.topics c.index.unsubscribed c.index.size rows (c_string s) 0
          → let (c', r) =
              subscribe_at api c (c_string s) now false (find_topic c.index (c_string s)) in
            IsValid c'.index rows × (r ≡ error memory) × (c'.world ≡ c.world)
      go (inl (e, absent)) =
          let inside : is_out_of_range (negsuc 0) c.index.size ≡ false = ground arith in
          rw (e, inside)
            (
              record {
                read =
                    rows_from-behind c.index.topics c.index.unsubscribed c.index.size rows null
                      v.read;
                in_use = v.in_use;
                topics = omega (arith, length-set c.index.topics c.index.size null, v.topics);
                unsubscribed = v.unsubscribed;
                subscribed = v.subscribed;
                distinct = v.distinct;
              },
              refl,
              refl,
            )
      go (inr (k, e, l)) = absurd (l.known new)
