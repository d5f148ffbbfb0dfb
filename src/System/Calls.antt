-- ===== src/System/Calls.antt =====
-- `subscribe`, `unsubscribe` and `gettopics` of src/solace_k.c with every argument: the index stays valid
-- and no pointer is read that is no string.
use kdb_solace.Base.{
  ℕ, ◌<◌, ◌≡◌, ◌≢◌, refl, sym, ap, ◌∙◌, subst, Bool, true, false, some, ℤ, leb, leb→lt, ==_iff,
  arith, Bool-cases, Option-cases, inl, inr,
}
use kdb_solace.Memory.{Bytes}
use kdb_solace.CString.{c_string}
use kdb_solace.Kdb.{K, vector}
use kdb_solace.Solclient.{SolClient, is_ok}
use kdb_solace.Client.{Error, noinit, topictype, maxtopics, Reply, error, fault, Client}
use kdb_solace.Topics.{
  max_topic_count, find_topic, subscribe, unsubscribe, subscribe_at, unsubscribe_at,
  unsubscribe_from_topic, subscribe_to_topic, reply_of, is_text,
}
use kdb_solace.Topics.Rows.{Rows, flag_of, add_row, set_row, IsValid}
use kdb_solace.Topics.Find.{find_from-Finds}
use kdb_solace.Topics.Subscribe.{
  subscribe-Subscribed, subscribe_without_memory, subscribe_full, subscribe-at,
}
use kdb_solace.Topics.Unsubscribe.{unsubscribe-Unsubscribed}

module _ (api : SolClient) where
  open api use {World}

  -- A call has left a valid index and the connection as it was, and has not faulted.
  pub record Kept (c : Client World) (out : Client World × Reply) : Type 0 where
    pub rows : Rows
    pub valid : IsValid out.0.index rows
    pub initiated : out.0.initiated ≡ c.initiated
    pub sound : out.1 ≢ fault

  unchanged :
      (c : Client World) (rows : Rows) (x : Error) → IsValid c.index rows → Kept c (c, error x)
  unchanged c rows x v = record { rows = rows; valid = v; initiated = refl; sound = λ e. cc }

  reply_of-ne-fault : (rc : ℤ) → reply_of rc ≢ fault
  reply_of-ne-fault rc e = elim (Bool-cases (is_ok rc)) [
    | inl ok ↦ ground (arith, ok, e)
    | inr bad ↦ ground (arith, bad, e)
  ]

  -- With no room for another string a topic that is known is renewed all the same.
  subscribe_at-known :
      (c : Client World) (name : Bytes) (now : ℕ) (rows : Rows) (f : ℕ)
      → IsValid c.index rows
      → flag_of name rows ≡ some f
      → subscribe_at api c name now false (find_topic c.index name)
        ≡ subscribe_at api c name now true (find_topic c.index name)
  unfolding subscribe_at find_topic
  subscribe_at-known c name now rows f v known =
      elim (find_from-Finds c.index.topics c.index.unsubscribed c.index.size rows name 0 v.read) [
        | inl (e, new) ↦ absurd (cc (known, new))
        | inr (k, e, l) ↦ rw e refl
      ]

  pub subscribe-initiated :
      (c : Client World) (topic : K) (now : ℕ) (got : Bool)
      → (subscribe api c topic now got).0.initiated ≡ c.initiated
  unfolding subscribe subscribe_at subscribe_to_topic
  subscribe-initiated c topic now got = ground arith

  subscribe_taken :
      (c : Client World) (rows : Rows) (s : Bytes) (now : ℕ)
      → IsValid c.index rows
      → c.initiated ≡ true
      → c.index.size < max_topic_count
      → Kept c (subscribe api c (vector 10 s) now true)
  subscribe_taken c rows s now v on room =
      let x = subscribe-Subscribed api c rows s now v on room in
      record {
        rows = add_row (c_string s) rows;
        valid = x.index;
        initiated = x.initiated;
        sound = rw x.reply (reply_of-ne-fault (api.topic_subscribe (c_string s) c.world).0);
      }

  subscribe_text :
      (c : Client World) (rows : Rows) (s : Bytes) (now : ℕ) (got : Bool)
      → IsValid c.index rows
      → c.initiated ≡ true
      → c.index.size < max_topic_count
      → Kept c (subscribe api c (vector 10 s) now got)
  subscribe_text c rows s now true v on room = subscribe_taken c rows s now v on room
  subscribe_text c rows s now false v on room = elim (Option-cases (flag_of (c_string s) rows)) [
    | inl new ↦
        let r = subscribe_without_memory api c rows s now v on room new in
        record {
          rows = rows;
          valid = r.0;
          initiated = subscribe-initiated c (vector 10 s) now false;
          sound = rw r.1 (λ e. cc);
        }
    | inr (f, known) ↦
        let same : subscribe api c (vector 10 s) now false
            ≡ subscribe api c (vector 10 s) now true =
          subscribe-at api c s now false on room
          ∙ subscribe_at-known c (c_string s) now rows f v known
          ∙ sym (subscribe-at api c s now true on room) in
        subst (λ out. Kept c out) (sym same) (subscribe_taken c rows s now v on room)
  ]

  pub subscribe-noinit :
      (c : Client World) (topic : K) (now : ℕ) (got : Bool)
      → c.initiated ≡ false
      → subscribe api c topic now got ≡ (c, error noinit)
  unfolding subscribe
  subscribe-noinit c topic now got off = simp off

  -- What a K that is no char vector gets.
  subscribe-topictype :
      (c : Client World) (topic : K) (now : ℕ) (got : Bool)
      → c.initiated ≡ true
      → is_text topic ≡ false
      → subscribe api c topic now got ≡ (c, error topictype)
  unfolding subscribe
  subscribe-topictype c topic now got on bad = simp (on, bad)

  is_text-vector : (x : K) → is_text x ≡ true → (s : Bytes) × (x ≡ vector 10 s)
  is_text-vector (vector t s) e = (s, ap (λ t'. vector t' s) ((==_iff t 10).0 e))
  is_text-vector _ e = absurd cc

  pub subscribe-Kept :
      (c : Client World) (rows : Rows) (topic : K) (now : ℕ) (got : Bool)
      → IsValid c.index rows
      → Kept c (subscribe api c topic now got)
  subscribe-Kept c rows topic now got v = elim (Bool-cases c.initiated) [
    | inr off ↦
        subst (λ out. Kept c out) (sym (subscribe-noinit c topic now got off))
          (unchanged c rows noinit v)
    | inl on ↦ elim (Bool-cases (is_text topic)) [
      | inr bad ↦
          subst (λ out. Kept c out) (sym (subscribe-topictype c topic now got on bad))
            (unchanged c rows topictype v)
      | inl fit ↦
          let (s, e) = is_text-vector topic fit in
          rw e (elim (Bool-cases (leb max_topic_count c.index.size)) [
            | inl full ↦
                subst (λ out. Kept c out) (sym (subscribe_full api c s now got on full))
                  (unchanged c rows maxtopics v)
            | inr room ↦ subscribe_text c rows s now got v on (leb→lt _ _ room)
          ])
    ]
  ]

  pub unsubscribe-noinit :
      (c : Client World) (topic : K) (now : ℕ)
      → c.initiated ≡ false
      → unsubscribe api c topic now ≡ (c, error noinit)
  unfolding unsubscribe
  unsubscribe-noinit c topic now off = simp off

  unsubscribe-topictype :
      (c : Client World) (topic : K) (now : ℕ)
      → c.initiated ≡ true
      → is_text topic ≡ false
      → unsubscribe api c topic now ≡ (c, error topictype)
  unfolding unsubscribe
  unsubscribe-topictype c topic now on bad = simp (on, bad)

  pub unsubscribe-Kept :
      (c : Client World) (rows : Rows) (topic : K) (now : ℕ)
      → IsValid c.index rows
      → 0 < now
      → Kept c (unsubscribe api c topic now)
  unsubscribe-Kept c rows topic now v later = elim (Bool-cases c.initiated) [
    | inr off ↦
        subst (λ out. Kept c out) (sym (unsubscribe-noinit c topic now off))
          (unchanged c rows noinit v)
    | inl on ↦ elim (Bool-cases (is_text topic)) [
      | inr bad ↦
          subst (λ out. Kept c out) (sym (unsubscribe-topictype c topic now on bad))
            (unchanged c rows topictype v)
      | inl fit ↦
          let (s, e) = is_text-vector topic fit in
          let x = unsubscribe-Unsubscribed api c rows s now v on later in
          rw e (record {
            rows = set_row (c_string s) 0 rows;
            valid = x.index;
            initiated = x.initiated;
            sound = rw x.reply (reply_of-ne-fault (api.topic_unsubscribe (c_string s) c.world).0);
          })
    ]
  ]

  pub unsubscribe-initiated :
      (c : Client World) (topic : K) (now : ℕ)
      → (unsubscribe api c topic now).0.initiated ≡ c.initiated
  unfolding unsubscribe unsubscribe_at unsubscribe_from_topic
  unsubscribe-initiated c topic now = ground arith
