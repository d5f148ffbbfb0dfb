-- ===== src/Events/Arrivals.antt =====
-- Events and messages on their way into the queue, by src/solace.c.
use kdb_solace.Base.{
  ap, subst, ◌∙◌, ◌^◌, ℕ, ◌+◌, ◌≤◌, ◌<◌, ◌≡◌, refl, Bool, true, false, Option, some, List, [], ◌∷◌,
  ◌++◌, length, if◌then◌else◌,
}
use kdb_solace.Memory.{Bytes}
use kdb_solace.Kdb.{K, Timespec, increment}
use kdb_solace.Solclient.{solclient_ok}
use kdb_solace.Ring.{done}
use kdb_solace.Wire.{Feed, max_msg_size, buffer_size}
use kdb_solace.Wire.Frames.{IsSmall, frames}
use kdb_solace.Wire.Deliver.{Holds, write_to_buffer-Holds, write_to_buffer-drops}
use kdb_solace.Kdb.Objects.{IsObject}
use kdb_solace.Field.{Field}
use kdb_solace.Decode.{Attachment, no_message, decode_field, decode_from_solace}
use kdb_solace.Decode.Nulls.{has_value}
use kdb_solace.Decode.Types.{IsRanged, IsSomeObject, decode_field-no_message, decode_field-IsObject}
use kdb_solace.Events.{
  message_receive_callback, Event, down_error, connect_failed_error, rejected_msg_error,
  subscription_error, rx_msg_too_big_error, te_unsubscribe_error, provision_error, error_info,
  Times, event_list, make_event_list, Header, make_message_list, Session, is_down, write_serialized,
  event_callback, receive_callback,
}

-- The events that solclient has error information for, and the text that q gets.
abbrev pub is_error : Event → Bool
is_error down_error = true
is_error connect_failed_error = true
is_error rejected_msg_error = true
is_error subscription_error = true
is_error rx_msg_too_big_error = true
is_error te_unsubscribe_error = true
is_error provision_error = true
is_error _ = false

abbrev pub event_text : Event → Bytes → Bytes → Bytes
event_text event last name = if is_error event then last else name

make_event_list-error_info :
    (event : Event) (last name : Bytes) (msg_recv : ℕ) (ts : Times)
    → make_event_list event (error_info event last) name msg_recv ts
      ≡ some (event_list msg_recv ts (event_text event last name))
unfolding make_event_list error_info
make_event_list-error_info down_error last name msg_recv ts = refl
make_event_list-error_info _ last name msg_recv ts = refl

module _ (b9 : K → Option Bytes) where
  -- On every event `common_eventCallback` reads the error information only where it has set it: it
  -- serializes and writes one list, which tells the last error of an event that is an error and the
  -- event's name otherwise, and the connection is taken to be lost exactly on DOWN_ERROR.
  pub event_callback-write :
      (s : Session) (event : Event) (last name : Bytes) (ts : Times)
      → event_callback b9 s event last name ts
        ≡ write_serialized
            (record s { initiated = if is_down event then false else s.initiated })
            (b9 (event_list s.msg_recv ts (event_text event last name)))
  unfolding event_callback
  event_callback-write s event last name ts =
      rw (make_event_list-error_info event last name s.msg_recv ts) refl

  -- A decoded message whose serialized list is small and fits into the queue is appended to the frames
  -- there; it is counted, and the answer to solclient is OK.
  pub receive_callback-Holds :
      (s : Session) (m : Header) (x : K) (now : Timespec) (bytes : Bytes) (ms : List Bytes)
      → b9 (make_message_list m x s.msg_recv now) ≡ some bytes
      → Holds s.feed ms
      → IsSmall bytes
      → length (frames ms) + length bytes + 8 < buffer_size
      → (g : Feed) × ((receive_callback b9 s m (some x) now
            ≡ done (solclient_ok, record s { feed = g; msg_recv = increment s.msg_recv }))
          × Holds g (ms ++ (bytes ∷ [])))
  unfolding receive_callback
  receive_callback-Holds s m x now bytes ms serialized h small fits =
      let r = write_to_buffer-Holds s.feed ms bytes h small fits in
      (r.0, (simp (serialized, r.1), r.2))

  -- A decoded message whose serialized list has 500 bytes or more is dropped, if it does not overrun
  -- `msgbuff`: queue and socket pair are as they were. It is counted as received all the same, and the
  -- answer to solclient is OK.
  pub receive_callback-drops :
      (s : Session) (m : Header) (x : K) (now : Timespec) (bytes : Bytes) (ms : List Bytes)
      → b9 (make_message_list m x s.msg_recv now) ≡ some bytes
      → Holds s.feed ms
      → max_msg_size ≤ length bytes
      → length bytes + 8 ≤ buffer_size
      → (g : Feed) × ((receive_callback b9 s m (some x) now
            ≡ done (solclient_ok, record s { feed = g; msg_recv = increment s.msg_recv }))
          × ((g.queue ≡ s.feed.queue) × (g.dots ≡ s.feed.dots)))
  unfolding receive_callback
  receive_callback-drops s m x now bytes ms serialized h big room =
      let r = write_to_buffer-drops s.feed ms bytes h big room in
      (r.0, (simp (serialized, r.1), (r.3, r.4)))

  module _ (float_of_uint64 float_of_double : ℕ → ℕ)
      (uint64_bits : (v : ℕ) → float_of_uint64 v < 2 ^ 64)
      (double_bits : (v : ℕ) → float_of_double v < 2 ^ 64) where
    -- A message with a field of the bits of its type, in which no byte array, null, destination or message
    -- stands, is decoded to an object of q, whatever else is in it. If the serialized list with that object
    -- is small and fits into the queue it is appended to the frames there; the message is counted, and the
    -- answer to solclient is OK. The conversions to double give 64 bits.
    pub message_receive_callback-Holds :
        (s : Session) (m : Header) (rest f : Field) (a : Attachment) (x : K) (now : Timespec)
        (bytes : Bytes) (ms : List Bytes)
        → IsRanged f
        → has_value f ≡ true
        → decode_field float_of_uint64 float_of_double f no_message ≡ some x
        → b9 (make_message_list m x s.msg_recv now) ≡ some bytes
        → Holds s.feed ms
        → IsSmall bytes
        → length (frames ms) + length bytes + 8 < buffer_size
        → IsObject x
          × ((g : Feed) × (message_receive_callback b9 float_of_uint64 float_of_double s m rest
                  (some f)
                  a
                  now
                ≡ done (solclient_ok, record s { feed = g; msg_recv = increment s.msg_recv }))
              × Holds g (ms ++ (bytes ∷ [])))
    unfolding message_receive_callback decode_from_solace
    message_receive_callback-Holds s m rest f a x now bytes ms ranged has decodes serialized h small
          fits =
        let r = receive_callback-Holds s m x now bytes ms serialized h small fits in
        let typed : IsSomeObject (decode_field float_of_uint64 float_of_double f no_message) =
          decode_field-IsObject float_of_uint64 float_of_double uint64_bits double_bits f ranged
            has in
        let same = decode_field-no_message float_of_uint64 float_of_double f a has ∙ decodes in
        (
          subst IsSomeObject decodes typed,
          (r.0, ap (λ q. receive_callback b9 s m q now) same ∙ r.1.0, r.1.1),
        )
