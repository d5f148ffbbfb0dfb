-- ===== src/Topics/Unsubscribe.antt =====
-- `unsubscribe` of src/solace_k.c on every branch.
use kdb_solace.Base.{ℕ, ◌<◌, ◌≡◌, refl, ap, ◌∙◌, true, false, pos, negsuc, some, arith, inl, inr}
use kdb_solace.Memory.{Bytes}
use kdb_solace.Kdb.{vector}
use kdb_solace.Solclient.{SolClient}
use kdb_solace.Client.{Reply, Client}
use kdb_solace.Topics.{
  find_topic, find_from, unsubscribe, unsubscribe_at, unsubscribe_from_topic, reply_of,
  is_out_of_range,
}
use kdb_solace.Topics.Rows.{Rows, set_row, IsValid}
use kdb_solace.Topics.Find.{Finds, find_from-Finds}
use kdb_solace.CString.{c_string}
use kdb_solace.Topics.Arrays.{end_topic-IsValid, set_row_absent}

module _ (api : SolClient) where
  open api use {World, topic_unsubscribe}

  -- What a call for `name` has done, whatever the broker says to it.
  pub record Unsubscribed (c : Client World) (rows : Rows) (name : Bytes)
      (out : Client World × Reply) : Type 0 where
    pub index : IsValid out.0.index (set_row name 0 rows)
    pub code : out.0.rc ≡ (topic_unsubscribe name c.world).0
    pub world : out.0.world ≡ (topic_unsubscribe name c.world).1
    pub initiated : out.0.initiated ≡ c.initiated
    pub reply : out.1 ≡ reply_of (topic_unsubscribe name c.world).0

  unsubscribe_at-Unsubscribed :
      (c : Client World) (rows : Rows) (name : Bytes) (now : ℕ)
      → IsValid c.index rows
      → 0 < now
      → Unsubscribed c rows name (unsubscribe_at api c name now (find_topic c.index name))
  unfolding unsubscribe_at find_topic unsubscribe_from_topic
  unsubscribe_at-Unsubscribed c rows name now v later =
      go (find_from-Finds c.index.topics c.index.unsubscribed c.index.size rows name 0 v.read)
    where
      go :
          Finds c.index.topics c.index.unsubscribed c.index.size rows name 0
          → Unsubscribed c rows name (unsubscribe_at api c name now (find_topic c.index name))
      go (inl (e, absent)) =
          let inside : is_out_of_range (negsuc 0) c.index.size ≡ false = ground arith in
          rw (e, inside)
            (record {
              index = rw (set_row_absent name 0 rows absent) v;
              code = refl;
              world = refl;
              initiated = refl;
              reply = refl;
            })
      go (inr (k, e, l)) =
          let at : find_from c.index.topics c.index.size name 0 ≡ some (pos k) =
            e ∙ ap (λ (j : ℕ). some (pos j)) (omega arith) in
          let inside : is_out_of_range (pos k) c.index.size ≡ false = ground (arith, l.below) in
          rw (at, inside)
            (record {
              index = end_topic-IsValid c.index rows name k now v later l;
              code = refl;
              world = refl;
              initiated = refl;
              reply = refl;
            })

  unsubscribe-at :
      (c : Client World) (s : Bytes) (now : ℕ)
      → c.initiated ≡ true
      → unsubscribe api c (vector 10 s) now
        ≡ unsubscribe_at api c (c_string s) now (find_topic c.index (c_string s))
  unfolding unsubscribe
  unsubscribe-at c s now on = simp on

  -- With a connection and a clock past 0, `unsubscribe` of a char vector marks its topic, if the index has it, as not
  -- subscribed, keeps every other topic as it was, asks the broker once, also for an unknown topic, and
  -- reports the broker's code; the index changes so even if the broker refuses.
  pub unsubscribe-Unsubscribed :
      (c : Client World) (rows : Rows) (s : Bytes) (now : ℕ)
      → IsValid c.index rows
      → c.initiated ≡ true
      → 0 < now
      → Unsubscribed c rows (c_string s) (unsubscribe api c (vector 10 s) now)
  unsubscribe-Unsubscribed c rows s now v on later =
      rw (unsubscribe-at c s now on) (unsubscribe_at-Unsubscribed c rows (c_string s) now v later)
