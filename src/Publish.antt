-- ===== src/Publish.antt =====
-- `publishToSolace` of src/solace.c and `publishtosolace` of src/solace_k.c. A result `none` is an access
-- to memory that is not there; log lines are left out.
pub mod Filled
pub mod Sent
pub mod Freed
mod Tests
use mathlib.Core.Option
use kdb_solace.Base.{ℕ, Bool, true, false, not, Option, none, some, ℤ, if◌then◌else◌}
use kdb_solace.Memory.{Bytes}
use kdb_solace.Kdb.{K, atom, symbol, increment}
use kdb_solace.CString.{c_string}
use kdb_solace.Solclient.{is_ok}
use kdb_solace.Client.{noinit, topictype, messagetype, return_code, Reply, nothing, error, fault}
use kdb_solace.Topics.{is_text, topic_name}
use kdb_solace.Message.{Messages}
use kdb_solace.Encode.{Encoder, encode}

-- `message->t < 0`
abbrev pub is_atom : K → Bool
is_atom (atom t v) = true
is_atom (symbol s) = true
is_atom _ = false

module _ (api : Messages) where
  open api use {
    containers, Message, msg_alloc, set_delivery_mode, set_destination, create_attachment_stream,
    send_msg, msg_free,
  }

  abbrev pub State : Type 0
  State = Encoder containers

  -- `if ((rc = …) != SOLCLIENT_OK) goto freemessage;` before what follows: the state at the label.
  abbrev pub checked_by : Bool → State → (State → Option State) → Option State
  checked_by true e k = k e
  checked_by false e k = some e

  abbrev pub checked : ℤ × containers.World → (State → Option State) → Option State
  checked (rc, w) k = checked_by (is_ok rc) (record { rc = rc; world = w }) k

  abbrev pub encoded : Option (ℤ × State) → (State → Option State) → Option State
  encoded none k = none
  encoded (some r) k = checked (r.0, r.1.world) k

  -- From the delivery mode to the label `freemessage`.
  unfoldable pub fill_and_send : Message → Bytes → K → State → Option State
  fill_and_send m dest x e = checked (set_delivery_mode m e.world) λ e1.
      checked (set_destination m dest e1.world) λ e2.
        let (rc, (stream, w)) = create_attachment_stream m e2.world in
        checked (rc, w)
          λ e3.
            encoded (encode containers x stream e3)
              λ e4. checked (send_msg m e4.world) λ e5. some e5

  -- From the label on: a failure to free the message hides the code.
  abbrev pub free_message : Message → Option State → Option (ℤ × State)
  free_message m none = none
  free_message m (some e) =
      let (rc_temp, w) = msg_free m e.world in
      some (if is_ok rc_temp then e.rc else rc_temp, record e { world = w })

  -- `publishToSolace`
  unfoldable pub publish_to_solace : Bytes → K → State → Option (ℤ × State)
  unfolding fill_and_send
  publish_to_solace dest x e =
      let (rc, (m, w)) = msg_alloc e.world in
      let e1 : State = record { rc = rc; world = w } in
      if is_ok rc then free_message m (fill_and_send m dest x e1) else some (rc, e1)

  -- The globals of `publishtosolace`.
  pub record Publisher : Type 0 where
    pub initiated : Bool
    pub msg_sent : ℕ
    pub state : State

  abbrev pub counted : Bool → ℤ → Publisher → Publisher × Reply
  counted true rc p = (record p { msg_sent = increment p.msg_sent }, nothing)
  counted false rc p = (p, error (return_code rc))

  abbrev pub answer : Publisher → Option (ℤ × State) → Publisher × Reply
  answer p none = (p, fault)
  answer p (some r) = counted (is_ok r.0) r.0 (record p { state = record r.1 { rc = r.0 } })

  -- `publishtosolace(topic, message)`
  unfoldable pub publish : Publisher → K → K → Publisher × Reply
  unfolding publish_to_solace c_string
  publish p topic message =
      if not p.initiated
      then (p, error noinit)
      else if not (is_text topic)
      then (p, error topictype)
      else if is_atom message
      then (p, error messagetype)
      else answer p (publish_to_solace (topic_name topic) message p.state)
