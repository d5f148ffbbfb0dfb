-- ===== src/System/Start.antt =====
-- `init` of src/solace_k.c up to `initiated = true`.
use kdb_solace.Base.{
  ◌≡◌, refl, Bool, true, false, length, if◌then◌else◌, arith, Bool-cases, inl, inr,
}
use kdb_solace.Kdb.{K, dict}
use kdb_solace.Solclient.{is_ok}
use kdb_solace.Client.{alreadyinit, Reply, nothing, error, fault}
use kdb_solace.Kopts.{Kopts}
use kdb_solace.Options.{setup_schema, config_opts}
use kdb_solace.Props.{prop_count}
use kdb_solace.Props.Reads.{settings}
use kdb_solace.Wire.{setup_socket}
use kdb_solace.Api.{Api}
use kdb_solace.Connect.{connect_to_solace}
use kdb_solace.Connect.Codes.{Connected, connect_to_solace-Connected, connect_to_solace-Unfinished}
use kdb_solace.System.{
  System, feedreset, no_topics, after_connect, configured, with_dict, init_start,
}

module _ (api : Api) where
  -- There is a session with the settings by the options; counters, topics and the queue are new.
  pub record Begun (s s' : System api) : Type 0 where
    pub connected : Connected api s'.opts (settings s'.opts) s.client.world s'.client.world
    pub topics : s'.client.index ≡ s.client.index
    pub feed : s'.feed ≡ setup_socket s.feed
    pub recv : s'.msg_recv ≡ s.msg_recv
    pub sent : s'.msg_sent ≡ s.msg_sent
    pub connecting : s'.connecting ≡ true
    pub initiated : s'.client.initiated ≡ false

  after_connect-Begun :
      (s s' : System api) (o : Kopts)
      → length s.props ≡ prop_count
      → s.opts ≡ o
      → after_connect api
          (record s { feed = setup_socket s.feed })
          (connect_to_solace api o s.props s.client)
        ≡ (s', nothing)
      → Begun s s' × (s'.opts ≡ o)
  after_connect-Begun s s' o size same result =
      elim (Bool-cases (is_ok (connect_to_solace api o s.props s.client).0)) [
        | inr bad ↦ absurd (ground (arith, bad, result))
        | inl ok ↦
            let u = connect_to_solace-Unfinished api o s.props s.client in
            let c = connect_to_solace-Connected api o s.props s.client size ok in
            let out : record (record s { feed = setup_socket s.feed }) {
              props = (connect_to_solace api o s.props s.client).1.0;
              client = record (connect_to_solace api o s.props s.client).1.1 {
                rc = (connect_to_solace api o s.props s.client).0;
              };
              connecting = true;
            }
                ≡ s' =
              ground (arith, ok, result) in
            rw (← out) (
              record {
                connected = rw same c;
                topics = u.index;
                feed = refl;
                recv = refl;
                sent = refl;
                connecting = refl;
                initiated = u.initiated;
              },
              same,
            )
      ]

  configured-Begun :
      (s s' : System api) (q : Kopts × Reply)
      → length s.props ≡ prop_count
      → configured api s q ≡ (s', nothing)
      → Begun (record s { opts = q.0 }) s' × (s'.opts ≡ q.0)
  configured-Begun s s' (o, fault) size result = absurd cc
  configured-Begun s s' (o, _) size result =
      after_connect-Begun (record s { opts = o }) s' o size refl result

  with_dict-Begun :
      (s s' : System api) (x : K)
      → length s.props ≡ prop_count
      → with_dict api s x ≡ (s', nothing)
      → Begun (record s { opts = (config_opts s.opts x).0 }) s'
        × (s'.opts ≡ (config_opts s.opts x).0)
  with_dict-Begun s s' (dict k v) size result =
      configured-Begun s s' (config_opts s.opts (dict k v)) size result
  with_dict-Begun s s' _ size result = absurd cc

  -- What `init` has done when it goes on to write `initiated`.
  pub record Started (s : System api) (x : K) (s' : System api) : Type 0 where
    pub idle : s.client.initiated ≡ false
    pub opts : let (o, x') = setup_schema s.opts x in s'.opts ≡ (config_opts o x').0
    pub connected : Connected api s'.opts (settings s'.opts) s.client.world s'.client.world
    pub topics : s'.client.index ≡ record s.client.index { size = 0 }
    pub feed : s'.feed ≡ setup_socket (record s.feed { callbackcounter = 0; msg_processed = 0 })
    pub recv : s'.msg_recv ≡ 0
    pub sent : s'.msg_sent ≡ 0
    pub connecting : s'.connecting ≡ true
    pub initiated : s'.client.initiated ≡ false

  not_refused :
      (b : Bool) (s s' : System api) (out : System api × Reply)
      → (if b then (s, error alreadyinit) else out) ≡ (s', nothing)
      → (b ≡ false) × (out ≡ (s', nothing))
  not_refused true s s' out result = absurd cc
  not_refused false s s' out result = (refl, result)

  -- If the array for settings has its 50 places, `init` goes on only if there was no connection; then the
  -- options are those that `config_opts` leaves, every call of `connectToSolace` has succeeded, the session
  -- is created with the settings by these options, and there are no topics, the queue is new and all
  -- counters are 0.
  pub init_start-Started :
      (s s' : System api) (x : K)
      → length s.props ≡ prop_count
      → init_start api s x ≡ (s', nothing)
      → Started s x s'
  unfolding init_start feedreset no_topics
  init_start-Started s s' x size result =
      let (o, x') = setup_schema s.opts x in
      let s1 : System api = record (no_topics api (feedreset api s)) { opts = o } in
      let (idle, going) = not_refused s.client.initiated s s' (with_dict api s1 x') result in
      let (b, opts) = with_dict-Begun s1 s' x' size going in
      record {
        idle = idle;
        opts = opts;
        connected = b.connected;
        topics = b.topics;
        feed = b.feed;
        recv = b.recv;
        sent = b.sent;
        connecting = b.connecting;
        initiated = b.initiated;
      }
