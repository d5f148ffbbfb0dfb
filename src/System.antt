-- ===== src/System.antt =====
-- The whole library as q drives it: `init` and `sessiondisconnect` of src/solace_k.c, and the acts of its
-- threads, one at a time. The Solace thread is there from `connectToSolace` on, so an event may come
-- before `init` has written `initiated`; that write is an act of its own.
pub mod Calls
pub mod Sound
pub mod Runs
pub mod Start
pub mod Phases
mod Tests
use mathlib.Core.Option
use kdb_solace.Base.{
  ℕ, zero, suc, ◌<◌, ◌≡◌, Bool, true, false, not, Option, none, some, List, ◌∷◌, ℤ, if◌then◌else◌,
}
use kdb_solace.Kdb.{K, dict}
use kdb_solace.Solclient.{is_ok}
use kdb_solace.Client.{
  nonconnected, alreadyinit, expecteddict, return_code, Reply, nothing, error, fault, Slot, null,
  freed, live, Client,
}
use kdb_solace.Kopts.{Kopts}
use kdb_solace.Options.{setup_schema, config_opts, changeloglevel}
use kdb_solace.Props.{Pointer}
use kdb_solace.Wire.{Feed, setup_socket}
use kdb_solace.Events.{Event, is_down}
use kdb_solace.Topics.{subscribe, unsubscribe}
use kdb_solace.Publish.{Publisher, publish}
use kdb_solace.Api.{Api, solclient_of}
use kdb_solace.Connect.{World, connect_to_solace, disconnect_from_solace}

-- `free` of the first topics. A null pointer may be freed; a string that is freed already, and a pointer
-- that was never set, may not.
unfoldable pub free_topics : List Slot → ℕ → Option (List Slot)
free_topics slots zero = some slots
free_topics (live s ∷ slots) (suc r) = Option.map (λ rest. freed ∷ rest) (free_topics slots r)
free_topics (null ∷ slots) (suc r) = Option.map (λ rest. null ∷ rest) (free_topics slots r)
free_topics _ (suc r) = none

module _ (api : Api) where
  -- `connecting` says that `init` has come back from `connectToSolace` with OK and goes on.
  pub record System : Type 0 where
    pub client : Client (World api)
    pub opts : Kopts
    pub props : List Pointer
    pub feed : Feed
    pub msg_recv : ℕ
    pub msg_sent : ℕ
    pub connecting : Bool

  -- `feedreset`, and `topicindex.size = 0`.
  unfoldable pub feedreset : System → System
  feedreset s = record s {
    msg_recv = 0;
    msg_sent = 0;
    feed = record s.feed { callbackcounter = 0; msg_processed = 0 };
  }

  unfoldable pub no_topics : System → System
  no_topics s = record s { client = record s.client { index = record s.client.index { size = 0 } } }

  abbrev pub after_connect : System → ℤ × (List Pointer × Client (World api)) → System × Reply
  after_connect s (rc, (props, c)) =
      let s' : System = record s { props = props; client = record c { rc = rc } } in
      if is_ok rc then (record s' { connecting = true }, nothing) else (s', error (return_code rc))

  -- `init` from `config_opts` on, whose error is not looked at.
  abbrev pub configured : System → Kopts × Reply → System × Reply
  configured s (o, fault) = (record s { opts = o }, fault)
  configured s (o, _) =
      let s' : System = record s { opts = o; feed = setup_socket s.feed } in
      after_connect s' (connect_to_solace api o s.props s.client)

  abbrev pub with_dict : System → K → System × Reply
  with_dict s (dict k v) = configured s (config_opts s.opts (dict k v))
  with_dict s _ = (s, error expecteddict)

  -- `init` up to `initiated = true`.
  unfoldable pub init_start : System → K → System × Reply
  unfolding feedreset no_topics setup_schema
  init_start s x =
      if s.client.initiated
      then (s, error alreadyinit)
      else let s1 = no_topics (feedreset s) in
        let (o, x') = setup_schema s1.opts x in with_dict (record s1 { opts = o }) x'

  -- `initiated = true`
  unfoldable pub init_end : System → System × Reply
  init_end s =
      (record s { client = record s.client { initiated = true }; connecting = false }, nothing)

  abbrev pub freed_topics : System → Option (List Slot) → System × Reply
  freed_topics s none = (s, fault)
  freed_topics s (some topics) = (
    record s { client = record s.client { index = record s.client.index { topics = topics } } },
    nothing,
  )

  -- `sessiondisconnect`
  unfoldable pub sessiondisconnect : System → System × Reply
  unfolding free_topics
  sessiondisconnect s =
      if not s.client.initiated
      then (s, error nonconnected)
      else let c = disconnect_from_solace api s.client in
        if is_ok c.rc
        then freed_topics (record s { client = record c { initiated = false } })
            (free_topics c.index.topics c.index.size)
        else (record s { client = c }, error (return_code c.rc))

  abbrev pub on_client : System → Client (World api) × Reply → System × Reply
  on_client s (c, r) = (record s { client = c }, r)

  -- The part of the state that `publishtosolace` works on.
  abbrev pub publisher_of : System → Publisher api.messages
  publisher_of s = record {
    initiated = s.client.initiated;
    msg_sent = s.msg_sent;
    state = record { rc = s.client.rc; world = s.client.world };
  }

  abbrev pub on_publisher : System → Publisher api.messages × Reply → System × Reply
  on_publisher s (p, r) = (
    record s {
      client = record s.client { rc = p.state.rc; world = p.state.world };
      msg_sent = p.msg_sent;
    },
    r,
  )

  abbrev pub on_opts : System → Kopts × Reply → System × Reply
  on_opts s (o, r) = (record s { opts = o }, r)

  -- The calls from q, with the time and whether `malloc` has room; the write that ends `init`; and an
  -- event of the Solace thread, of which only what it does to `initiated` counts here: what it writes into
  -- the queue is in Events and Wire.
  pub data Act : Type 0 where
    starts : K → Act
    ends disconnects : Act
    subscribes : K → ℕ → Bool → Act
    unsubscribes : K → ℕ → Act
    publishes : K → K → Act
    sets_level : K → Act
    event : Event → Act

  unfoldable pub act : System → Act → System × Reply
  unfolding init_start init_end sessiondisconnect
  act s (starts x) = init_start s x
  act s ends = init_end s
  act s disconnects = sessiondisconnect s
  act s (subscribes topic now got) =
      on_client s (subscribe (solclient_of api) s.client topic now got)
  act s (unsubscribes topic now) = on_client s (unsubscribe (solclient_of api) s.client topic now)
  act s (publishes topic x) = on_publisher s (publish api.messages (publisher_of s) topic x)
  act s (sets_level x) = on_opts s (changeloglevel s.opts x)
  act s (event e) = (
    record s {
      client = record s.client { initiated = if is_down e then false else s.client.initiated };
    },
    nothing,
  )

  -- `init` ends only when it has connected; till then q makes no other call. The clock is past 1970.
  abbrev pub Enabled : System → Act → Type 0
  Enabled s ends = s.connecting ≡ true
  Enabled s (event e) = Unit {0}
  Enabled s (unsubscribes topic now) = (s.connecting ≡ false) × (0 < now)
  Enabled s _ = s.connecting ≡ false
