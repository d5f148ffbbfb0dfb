-- ===== src/System/Tests.antt =====
-- A run: `init`, a subscription, a lost connection, `init` again and the end, with a client library that
-- says OK to everything and counts its calls.
use kdb_solace.Base.{ℕ, ◌+◌, ◌<◌, ◌≡◌, ◌≢◌, refl, Bool, true, false, [], ◌∷◌, replicate}
use kdb_solace.Kdb.{K, other, vector}
use kdb_solace.Solclient.{solclient_ok}
use kdb_solace.Client.{nonconnected, nothing, value, error, fault, unset}
use kdb_solace.Options.{default_opts, setup_schema, config_opts, config_from}
use kdb_solace.Connect.{connect_to_solace, create_context, create_session, connect_session}
use kdb_solace.Props.{prop_count, null}
use kdb_solace.Ring.{cb_init}
use kdb_solace.Topics.{max_topic_count, topics_table, subscribe, gettopics}
use kdb_solace.Topics.Rows.{Rows, IsValid}
use kdb_solace.Events.{down_error}
use kdb_solace.Message.{Messages}
use kdb_solace.Api.{Api, solclient_of}
use kdb_solace.System.{
  feedreset, no_topics, init_end, System, starts, ends, disconnects, subscribes, unsubscribes,
  event, act, init_start, sessiondisconnect,
}
use kdb_solace.System.Runs.{Reach, here, next, IsStart, gettopics-Reach, topics_are_safe}
use kdb_solace.System.Phases.{off, phase_of, Step}
use kdb_solace.System.Phases.Acts.{act-Step}
use kdb_solace.System.Start.{Started, init_start-Started}

abbrev messages : Messages
messages = record {
  containers = record {
    World = ℕ;
    Handle = ℕ;
    null_handle = 0;
    create_map = λ h n w. (solclient_ok, (1, w + 1));
    create_stream = λ h n w. (solclient_ok, (1, w + 1));
    add_item = λ h a name w. (solclient_ok, w + 1);
    add_container = λ h new w. (solclient_ok, w + 1);
  };
  Message = ℕ;
  msg_alloc = λ w. (solclient_ok, (7, w + 1));
  set_delivery_mode = λ m w. (solclient_ok, w + 1);
  set_destination = λ m dest w. (solclient_ok, w + 1);
  create_attachment_stream = λ m w. (solclient_ok, (0, w + 1));
  send_msg = λ m w. (solclient_ok, w + 1);
  msg_free = λ m w. (solclient_ok, w + 1);
}

abbrev counting : Api
counting = record {
  messages = messages;
  topic_subscribe = λ s w. (solclient_ok, w + 1);
  topic_unsubscribe = λ s w. (solclient_ok, w + 1);
  version = record { version_p = b'1' ∷ []; date_time_p = []; variant_p = [] };
  initialize = λ w. (solclient_ok, w + 1);
  set_filter_level = λ level w. w;
  context_create = λ w. (solclient_ok, w + 1);
  session_create = λ props r w. (solclient_ok, w + 1);
  session_connect = λ w. (solclient_ok, w + 1);
  session_disconnect = λ w. (solclient_ok, w + 1);
  cleanup = λ w. (solclient_ok, w + 1);
}

-- Static storage.
abbrev start : System counting
start = record {
  client = record {
    world = 0;
    initiated = false;
    rc = solclient_ok;
    index = record {
      size = 0;
      subscribed = replicate max_topic_count 0;
      unsubscribed = replicate max_topic_count 0;
      topics = replicate max_topic_count unset;
    };
  };
  opts = default_opts;
  props = replicate prop_count null;
  feed = record {
    queue = cb_init 0;
    msgbuff = [];
    rbuf = [];
    dots = 0;
    socket_room = 278;
    callbackcounter = 0;
    msg_processed = 0;
    batches = [];
  };
  msg_recv = 0;
  msg_sent = 0;
  connecting = false;
}

start-IsStart : IsStart counting start
start-IsStart = record {
  sized = record { topics = refl; subscribed = refl; unsubscribed = refl };
  initiated = refl;
  connecting = refl;
  props = refl;
}

abbrev no_options : K
no_options = other 101 0

abbrev topic : K
topic = vector 10 (b'a' ∷ [])

abbrev begun : System counting
begun = (init_start counting start no_options).0

begun_quietly : init_start counting start no_options ≡ (begun, nothing)
unfolding init_start feedreset no_topics setup_schema config_opts config_from connect_to_solace
    create_context create_session connect_session
begun_quietly = refl

init_start-Started_example : Started counting start no_options begun
init_start-Started_example = init_start-Started counting start begun no_options refl begun_quietly

-- After `init` and one subscription.
abbrev joined : System counting
joined = (act counting (act counting begun ends).0 (subscribes topic 200 true)).0

run : Reach counting start joined
unfolding act init_start feedreset no_topics setup_schema config_opts config_from connect_to_solace
    create_context create_session connect_session init_end
run = next (next (next here (starts no_options) refl) ends refl) (subscribes topic 200 true) refl

gettopics-Reach_example :
    (rows : Rows) × IsValid joined.client.index rows
    × (gettopics (solclient_of counting) joined.client ≡ value (topics_table rows))
unfolding act init_start feedreset no_topics setup_schema config_opts config_from connect_to_solace
    create_context create_session connect_session init_end subscribe
gettopics-Reach_example = gettopics-Reach counting start-IsStart run refl

topics_are_safe_example :
    ((topic : K) (now : ℕ) (got : Bool)
      → (act counting joined (subscribes topic now got)).1 ≢ fault)
    × ((topic : K) (now : ℕ) → 0 < now → (act counting joined (unsubscribes topic now)).1 ≢ fault)
    × ((act counting joined disconnects).1 ≢ fault)
unfolding act init_start feedreset no_topics setup_schema config_opts config_from connect_to_solace
    create_context create_session connect_session init_end
topics_are_safe_example = topics_are_safe counting start-IsStart run refl

act-Step_example :
    (phase_of counting start ≡ off)
    × Step counting
        (phase_of counting joined)
        (event down_error)
        (act counting joined (event down_error)).1
        (phase_of counting (act counting joined (event down_error)).0)
act-Step_example = act-Step counting (event down_error) start-IsStart run tt

-- A connection ends, its string is freed, and the next one starts with no topics.
again : (act counting (act counting joined disconnects).0 disconnects).1 ≡ error nonconnected
unfolding act init_start feedreset no_topics setup_schema config_opts config_from connect_to_solace
    create_context create_session connect_session init_end sessiondisconnect subscribe
again = refl
