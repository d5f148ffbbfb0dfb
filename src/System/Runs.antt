-- ===== src/System/Runs.antt =====
-- Runs of the library: every act of the threads in every order.
use kdb_solace.Base.{ℕ, ◌<◌, ◌≡◌, ◌≢◌, Bool, true, false, length, arith, Bool-cases, inl, inr}
use kdb_solace.Kdb.{K}
use kdb_solace.Client.{Reply, value, fault, Client}
use kdb_solace.Props.{prop_count}
use kdb_solace.Topics.{subscribe, unsubscribe, gettopics, topics_table}
use kdb_solace.Topics.Rows.{Rows, IsValid}
use kdb_solace.Topics.Subscribe.{gettopics-rows}
use kdb_solace.Api.{Api, solclient_of}
use kdb_solace.Connect.{World}
use kdb_solace.System.{
  System, on_client, Act, starts, ends, disconnects, subscribes, unsubscribes, publishes,
  sets_level, event, act, Enabled,
}
use kdb_solace.System.Calls.{
  Kept, subscribe-Kept, unsubscribe-Kept, subscribe-noinit, unsubscribe-noinit,
}
use kdb_solace.System.Sound.{
  IsSized, HasRows-IsSized, IsSound, init_start-IsSound, IsFine, sessiondisconnect-IsFine,
}

module _ (api : Api) where
  -- A state that is reached from `s`.
  pub data Reach (s : System api) : System api → Type 0 where
    here : Reach s s
    next : {t : System api} → Reach s t → (a : Act api) → Enabled api t a → Reach s (act api t a).0

  Kept-IsFine :
      (s : System api) (rows : Rows) (out : Client (World api) × Reply)
      → IsSound api s
      → s.connecting ≡ false
      → Kept (solclient_of api) s.client out
      → IsFine api (on_client api s out)
  Kept-IsFine s rows (c, r) h quiet k = (
    record {
      sized = HasRows-IsSized api c.index (k.rows, k.valid);
      on = λ on. (k.rows, k.valid);
      made = λ made. (k.rows, k.valid);
      props = h.props;
    },
    k.sound,
  )

  subscribe-IsFine :
      (s : System api) (topic : K) (now : ℕ) (got : Bool)
      → IsSound api s
      → s.connecting ≡ false
      → IsFine api (on_client api s (subscribe (solclient_of api) s.client topic now got))
  subscribe-IsFine s topic now got h quiet = elim (Bool-cases s.client.initiated) [
    | inl on ↦
        let (rows, v) = h.on on in
        Kept-IsFine s rows (subscribe (solclient_of api) s.client topic now got) h quiet
          (subscribe-Kept (solclient_of api) s.client rows topic now got v)
    | inr off ↦ rw (subscribe-noinit (solclient_of api) s.client topic now got off) (h, λ e. cc)
  ]

  unsubscribe-IsFine :
      (s : System api) (topic : K) (now : ℕ)
      → IsSound api s
      → s.connecting ≡ false
      → 0 < now
      → IsFine api (on_client api s (unsubscribe (solclient_of api) s.client topic now))
  unsubscribe-IsFine s topic now h quiet later = elim (Bool-cases s.client.initiated) [
    | inl on ↦
        let (rows, v) = h.on on in
        Kept-IsFine s rows (unsubscribe (solclient_of api) s.client topic now) h quiet
          (unsubscribe-Kept (solclient_of api) s.client rows topic now v later)
    | inr off ↦ rw (unsubscribe-noinit (solclient_of api) s.client topic now off) (h, λ e. cc)
  ]

  act-IsSound :
      (s : System api) (a : Act api) → IsSound api s → Enabled api s a → IsSound api (act api s a).0
  unfolding act
  act-IsSound s (starts x) h ok = init_start-IsSound api s x h
  act-IsSound s ends h ok = record {
    sized = h.sized;
    on = λ _. h.made ok;
    made = λ e. cc;
    props = h.props;
  }
  act-IsSound s disconnects h ok = (sessiondisconnect-IsFine api s h ok).0
  act-IsSound s (subscribes topic now got) h ok = (subscribe-IsFine s topic now got h ok).0
  act-IsSound s (unsubscribes topic now) h ok = (unsubscribe-IsFine s topic now h ok.0 ok.1).0
  act-IsSound s (publishes topic x) h ok = record {
    sized = h.sized;
    on = h.on;
    made = h.made;
    props = h.props;
  }
  act-IsSound s (sets_level x) h ok = record {
    sized = h.sized;
    on = h.on;
    made = h.made;
    props = h.props;
  }
  act-IsSound s (event e) h ok = record {
    sized = h.sized;
    on = λ on. h.on (ground (arith, on));
    made = h.made;
    props = h.props;
  }

  -- Before the first call of `init`.
  pub record IsStart (s : System api) : Type 0 where
    pub sized : IsSized api s.client.index
    pub initiated : s.client.initiated ≡ false
    pub connecting : s.connecting ≡ false
    pub props : length s.props ≡ prop_count

  IsStart-IsSound : {s : System api} → IsStart s → IsSound api s
  IsStart-IsSound i = record {
    sized = i.sized;
    on = λ on. absurd (cc (on, i.initiated));
    made = λ made. absurd (cc (made, i.connecting));
    props = i.props;
  }

  Reach-IsSound : {s t : System api} → IsSound api s → Reach s t → IsSound api t
  Reach-IsSound h here = h
  Reach-IsSound h (next {t} r a ok) = act-IsSound t a (Reach-IsSound h r) ok

  -- From the start of the program, with a clock past 1970, after any acts of q and any events, in any
  -- order: while there is a connection the index is valid, so `gettopics` shows the table of its topics.
  pub gettopics-Reach :
      {s t : System api}
      → IsStart s
      → Reach s t
      → t.client.initiated ≡ true
      → (rows : Rows) × IsValid t.client.index rows
        × (gettopics (solclient_of api) t.client ≡ value (topics_table rows))
  gettopics-Reach {t} i r on =
      let (rows, v) = (Reach-IsSound (IsStart-IsSound i) r).on on in
      (rows, v, gettopics-rows (solclient_of api) t.client rows v on)

  -- From the start of the program, with a clock past 1970, after any acts of q and any events, in any
  -- order, while no `init` is under way: on a connection or not, `subscribe`, `unsubscribe` and
  -- `sessiondisconnect` read and free no string of the topics that is freed already or was never set.
  pub topics_are_safe :
      {s t : System api}
      → IsStart s
      → Reach s t
      → t.connecting ≡ false
      → ((topic : K) (now : ℕ) (got : Bool) → (act api t (subscribes topic now got)).1 ≢ fault)
        × ((topic : K) (now : ℕ) → 0 < now → (act api t (unsubscribes topic now)).1 ≢ fault)
        × ((act api t disconnects).1 ≢ fault)
  unfolding act
  topics_are_safe {t} i r quiet =
      let h = Reach-IsSound (IsStart-IsSound i) r in
      (
        λ topic now got. (subscribe-IsFine t topic now got h quiet).1,
        λ topic now later. (unsubscribe-IsFine t topic now h quiet later).1,
        (sessiondisconnect-IsFine api t h quiet).1,
      )
