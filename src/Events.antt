-- ===== src/Events.antt =====
-- What the Solace thread does with an event and with a message: `common_eventCallback`, `make_msg_dict` and
-- `messageReceiveCallback` of src/solace.c. Log lines are left out.
pub mod Arrivals
pub mod Runs
pub mod Follows
pub mod Told
pub mod Codec
mod Tests
use kdb_solace.Base.{ℕ, Bool, true, false, Option, none, some, [], ◌∷◌, ℤ, if◌then◌else◌}
use kdb_solace.Memory.{Bytes}
use kdb_solace.Kdb.{K, nil, cons, list, symbol, kc, kj, Timespec, current_time, increment}
use kdb_solace.Solclient.{is_ok, solclient_ok, solclient_fail}
use kdb_solace.Ring.{Outcome, done, fault, and_then}
use kdb_solace.Field.{Field, sign_extend}
use kdb_solace.Decode.{Attachment, decode_from_solace}
use kdb_solace.Wire.{Feed, write_to_buffer}

-- `solClient_session_event_t`, as far as the library tells events apart.
pub data Event : Type 0 where
  up_notice acknowledgement te_unsubscribe_ok can_send reconnecting_notice reconnected_notice :
      Event
  provision_ok subscription_ok down_error connect_failed_error rejected_msg_error : Event
  subscription_error rx_msg_too_big_error te_unsubscribe_error provision_error : Event
  other_event : ℕ → Event

-- The pointer `errorInfo_p` behind the switch of `common_eventCallback`: it is set to what
-- `solClient_getLastErrorInfo` gives, or is not set at all.
unfoldable pub error_info : Event → Bytes → Option Bytes
error_info down_error last = some last
error_info connect_failed_error last = some last
error_info rejected_msg_error last = some last
error_info subscription_error last = some last
error_info rx_msg_too_big_error last = some last
error_info te_unsubscribe_error last = some last
error_info provision_error last = some last
error_info _ last = none

-- Three readings of the clock.
pub record Times : Type 0 where
  pub first : Timespec
  pub second : Timespec
  pub third : Timespec

abbrev pub event_letter : ℕ
event_letter = b'a'

abbrev pub message_letter : ℕ
message_letter = b's'

-- `knk(7, kc(…), kj(msg_recv), ks(…), …)`
abbrev pub msg_list : ℕ → ℕ → Bytes → K → K → K → K → K
msg_list letter msg_recv dest sent received now last = list (
    cons (kc letter) (
      cons (kj (sign_extend 32 64 msg_recv))
        (cons (symbol dest) (cons sent (cons received (cons now (cons last nil)))))))

abbrev pub event_list : ℕ → Times → Bytes → K
event_list msg_recv ts text =
    msg_list event_letter msg_recv (b'-' ∷ []) (current_time ts.first) (current_time ts.second)
      (current_time ts.third) (symbol text)

-- `ks(errorInfo_p->errorStr)` with a pointer that may not be set.
abbrev pub error_list : ℕ → Times → Option Bytes → Option K
error_list msg_recv ts none = none
error_list msg_recv ts (some text) = some (event_list msg_recv ts text)

-- `make_msg_dict` of an event; `name` is its text by `solClient_session_eventToString`, and a result
-- `none` a read through a pointer that was never set.
unfoldable pub make_event_list : Event → Option Bytes → Bytes → ℕ → Times → Option K
unfolding current_time
make_event_list down_error info name msg_recv ts = error_list msg_recv ts info
make_event_list connect_failed_error info name msg_recv ts = error_list msg_recv ts info
make_event_list rejected_msg_error info name msg_recv ts = error_list msg_recv ts info
make_event_list subscription_error info name msg_recv ts = error_list msg_recv ts info
make_event_list rx_msg_too_big_error info name msg_recv ts = error_list msg_recv ts info
make_event_list te_unsubscribe_error info name msg_recv ts = error_list msg_recv ts info
make_event_list provision_error info name msg_recv ts = error_list msg_recv ts info
make_event_list _ info name msg_recv ts = some (event_list msg_recv ts name)

-- What solclient gives of a message: a code and a value each for destination and timestamps.
pub record Header : Type 0 where
  pub destination : ℤ × Bytes
  pub sender_timestamp : ℤ × ℕ
  pub rcv_timestamp : ℤ × ℕ

abbrev pub or_default : {A : Type 0} → A → ℤ × A → A
or_default d (rc, v) = if is_ok rc then v else d

-- `make_msg_dict` of a message with the payload x.
unfoldable pub make_message_list : Header → K → ℕ → Timespec → K
unfolding current_time
make_message_list m x msg_recv now =
    msg_list message_letter msg_recv (or_default [] m.destination)
      (kj (or_default 0 m.sender_timestamp)) (kj (or_default 0 m.rcv_timestamp)) (current_time now)
      x

-- The globals that these functions change.
pub record Session : Type 0 where
  pub feed : Feed
  pub initiated : Bool
  pub msg_recv : ℕ

abbrev pub into_feed : Session → Outcome Feed → Outcome Session
into_feed s r = and_then r (λ f. done (record s { feed = f }))

-- `write_to_buffer` of what b9 gives, if it gives something.
abbrev pub write_serialized : Session → Option Bytes → Outcome Session
write_serialized s none = done s
write_serialized s (some bytes) = into_feed s (write_to_buffer s.feed bytes)

abbrev pub write_event : (K → Option Bytes) → Session → Option K → Outcome Session
write_event b9 s none = fault
write_event b9 s (some x) = write_serialized s (b9 x)

abbrev pub is_down : Event → Bool
is_down down_error = true
is_down _ = false

-- A message that cannot be serialized is a failure, and is not counted.
abbrev pub write_message : Session → Option Bytes → Outcome (ℤ × Session)
write_message s none = done (solclient_fail, s)
write_message s (some bytes) =
    and_then (into_feed s (write_to_buffer s.feed bytes))
      (λ s'. done (solclient_ok, record s' { msg_recv = increment s'.msg_recv }))

-- `b9` is kdb+'s serialization.
module _ (b9 : K → Option Bytes) where
  -- `common_eventCallback`; `last` is the last error's text.
  unfoldable pub event_callback : Session → Event → Bytes → Bytes → Times → Outcome Session
  unfolding error_info make_event_list
  event_callback s event last name ts =
      write_event b9 (record s { initiated = if is_down event then false else s.initiated })
        (make_event_list event (error_info event last) name s.msg_recv ts)

  -- `messageReceiveCallback` of a message that was decoded to x, or to nothing.
  unfoldable pub receive_callback : Session → Header → Option K → Timespec → Outcome (ℤ × Session)
  unfolding make_message_list
  receive_callback s m none now = done (solclient_fail, s)
  receive_callback s m (some x) now = write_message s (b9 (make_message_list m x s.msg_recv now))

  -- `messageReceiveCallback`, from the message's field on. The conversions to double are the processor's.
  unfoldable pub message_receive_callback :
      (ℕ → ℕ)
      → (ℕ → ℕ)
      → Session
      → Header
      → Field
      → Option Field
      → Attachment
      → Timespec
      → Outcome (ℤ × Session)
  unfolding receive_callback
  message_receive_callback float_of_uint64 float_of_double s m rest got a now =
      receive_callback s m (decode_from_solace float_of_uint64 float_of_double rest got a) now
