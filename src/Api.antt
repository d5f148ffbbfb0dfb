-- ===== src/Api.antt =====
-- All of solclient (include/solclient/solClient.h, solClientMsg.h) that the library calls, as a parameter.
use kdb_solace.Base.{ℕ, ℤ, List}
use kdb_solace.Memory.{Bytes}
use kdb_solace.Solclient.{SolClient}
use kdb_solace.Message.{Messages}
use kdb_solace.Props.{PropKey, Value}

-- The function that solclient is told to call for a message.
pub data Receiver : Type 0 where
  message_receive_callback message_receive_callback_dump : Receiver

-- What `solClient_version_get` shows.
pub record Version : Type 0 where
  pub version_p : Bytes
  pub date_time_p : Bytes
  pub variant_p : Bytes

-- Sessions beside messages and topics; the context and the session are in the state.
pub record Api : Type 1 where
  pub messages : Messages
  pub topic_subscribe : Bytes → messages.containers.World → ℤ × messages.containers.World
  pub topic_unsubscribe : Bytes → messages.containers.World → ℤ × messages.containers.World
  pub version : Version
  pub initialize : messages.containers.World → ℤ × messages.containers.World
  pub set_filter_level : ℕ → messages.containers.World → messages.containers.World
  pub context_create : messages.containers.World → ℤ × messages.containers.World
  pub session_create :
      List (PropKey × Value) → Receiver → messages.containers.World → ℤ × messages.containers.World
  pub session_connect : messages.containers.World → ℤ × messages.containers.World
  pub session_disconnect : messages.containers.World → ℤ × messages.containers.World
  pub cleanup : messages.containers.World → ℤ × messages.containers.World

-- The part that the topics use.
abbrev pub solclient_of : Api → SolClient
solclient_of api = record {
  World = api.messages.containers.World;
  topic_subscribe = api.topic_subscribe;
  topic_unsubscribe = api.topic_unsubscribe;
}
