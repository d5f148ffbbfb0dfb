-- ===== src/Events/Runs.antt =====
-- The receiving process at work: the Solace thread takes events and messages (`common_eventCallback` and
-- `messageReceiveCallback` of src/solace.c) while the q thread runs `callback` of src/solace_k.c.
use kdb_solace.Base.{
  ℕ, ◌<◌, ◌≡◌, Option, none, some, List, [], ◌∷◌, ◌++◌, ℤ, length, leb, if◌then◌else◌,
}
use kdb_solace.Memory.{Bytes}
use kdb_solace.Kdb.{K, Timespec}
use kdb_solace.Ring.{done}
use kdb_solace.Field.{Field}
use kdb_solace.Decode.{Attachment, decode_from_solace}
use kdb_solace.Wire.{Feed, max_msg_size, returned, callback_look, callback_take}
use kdb_solace.Events.{
  Event, Times, event_list, Header, make_message_list, Session, event_callback,
  message_receive_callback,
}
use kdb_solace.Events.Arrivals.{event_text}

-- `looked` is the size that a callback under way has read.
pub record Receiver : Type 0 where
  pub session : Session
  pub looked : Option ℤ

-- What `b9` gives has a byte at least, and `d9` reads it back.
pub record Serializes (b9 : K → Option Bytes) (d9 : Bytes → K) : Type 0 where
  pub some_bytes : {y : K} {bytes : Bytes} → b9 y ≡ some bytes → 0 < length bytes
  pub reads : {y : K} {bytes : Bytes} → b9 y ≡ some bytes → d9 bytes ≡ y

module _ (b9 : K → Option Bytes) where
  -- Of a list that is to be told to q, what gets into the queue: it, unless it cannot be serialized or has
  -- 500 bytes or more.
  abbrev pub kept_as : K → Option Bytes → List K
  kept_as y none = []
  kept_as y (some bytes) = if leb max_msg_size (length bytes) then [] else y ∷ []

  abbrev pub kept : K → List K
  kept y = kept_as y (b9 y)

  abbrev pub kept_message : Session → Header → Option K → Timespec → List K
  kept_message s m none now = []
  kept_message s m (some x) now = kept (make_message_list m x s.msg_recv now)

  module _ (d9 : Bytes → K) (clock : ℕ → Timespec) (float_of_uint64 float_of_double : ℕ → ℕ) where
    -- The runs from a session on, with the lists that have got into the queue, oldest first. Every call in a
    -- run has returned: one that goes past the end of `msgbuff` is no step, nor is one that waits.
    pub data Run (s0 : Session) : Receiver → List K → Type 0 where
      begin : Run s0 (record { session = s0; looked = none }) []
      event :
          {r : Receiver} {told : List K} (e : Event) (last name : Bytes) (ts : Times) (s : Session)
          → Run s0 r told
          → event_callback b9 r.session e last name ts ≡ done s
          → Run s0
              (record r { session = s })
              (told ++ kept (event_list r.session.msg_recv ts (event_text e last name)))
      message :
          {r : Receiver} {told : List K} (m : Header) (rest : Field) (got : Option Field)
          (a : Attachment) (now : Timespec) (rc : ℤ) (s : Session)
          → Run s0 r told
          → message_receive_callback b9 float_of_uint64 float_of_double r.session m rest got a now
            ≡ done (rc, s)
          → Run s0
              (record r { session = s })
              (told
                ++ kept_message r.session m
                    (decode_from_solace float_of_uint64 float_of_double rest got a)
                    now)
      looks :
          {r : Receiver} {told : List K} (g : Feed) (q : ℤ)
          → Run s0 r told
          → r.looked ≡ none
          → callback_look r.session.feed ≡ returned (g, q)
          → Run s0 (record { session = record r.session { feed = g }; looked = some q }) told
      takes :
          {r : Receiver} {told : List K} (g : Feed) (q : ℤ)
          → Run s0 r told
          → r.looked ≡ some q
          → callback_take d9 clock r.session.feed q ≡ returned g
          → Run s0 (record { session = record r.session { feed = g }; looked = none }) told
