-- ===== src/Events/Tests.antt =====
-- Events and messages that arrive at an empty queue.
use mathlib.Core.Option.{get_or}
use kdb_solace.Base.{none, ℤ, length, ap, ◌∙◌, List, ◌++◌, map, ◌⊎◌, ◌<◌, length-append}
use kdb_solace.Kdb.{kp, current_time}
use kdb_solace.Field.{string}
use kdb_solace.Ring.{and_then}
use kdb_solace.Ring.Invariant.{contents}
use kdb_solace.Decode.{decode_from_solace}
use kdb_solace.Wire.{write_to_buffer, returned, callback}
use kdb_solace.Wire.Frames.{frame_bytes, length-frame_bytes}
use kdb_solace.Wire.Deliver.{write_to_buffer-Holds}
use kdb_solace.Wire.Trace.{flatten}
use kdb_solace.Events.{into_feed, up_notice, make_message_list}
use kdb_solace.Events.Runs.{Run, begin, event, message}
use kdb_solace.Events.Told.{stamped, Run-stamped, Run-callback}
use kdb_solace.Events.Codec.{short_values, seven, short_values-Serializes}
use kdb_solace.Wire.Idle.{blank, length-blank, first, first-Holds}
use kdb_solace.Base.{◌%◌, ◌^◌, ℕ, ◌≡◌, refl, true, false, Option, some, [], ◌∷◌, arith}
use kdb_solace.Memory.{Bytes}
use kdb_solace.Kdb.{K, Timespec, kj, increment}
use kdb_solace.Solclient.{solclient_ok, solclient_fail}
use kdb_solace.Ring.{done}
use kdb_solace.Wire.{Feed}
use kdb_solace.Wire.Deliver.{Holds}
use kdb_solace.Kdb.Objects.{IsObject}
use kdb_solace.Field.{int64}
use kdb_solace.Decode.{no_message, decode_field}
use kdb_solace.Decode.Nulls.{has_value}
use kdb_solace.Decode.Types.{IsRanged}
use kdb_solace.Events.{
  message_receive_callback, down_error, Times, event_list, Header, Session, write_serialized,
  event_callback, receive_callback,
}
use kdb_solace.Events.Arrivals.{
  message_receive_callback-Holds, event_text, event_callback-write, receive_callback-drops,
}

abbrev session : Session
session = record { feed = first; initiated = true; msg_recv = 41 }

abbrev header : Header
header = record {
  destination = (solclient_ok, b'a' ∷ []);
  sender_timestamp = (solclient_fail, 99);
  rcv_timestamp = (solclient_ok, 77);
}

abbrev noon : Timespec
noon = record { tv_sec = 1587379630; tv_nsec = 5 }

abbrev times : Times
times = record { first = noon; second = noon; third = noon }

-- `b9` of these tests: the same three bytes for every object.
abbrev three_bytes : K → Option Bytes
three_bytes x = some (1 ∷ 2 ∷ 3 ∷ [])

event_callback-write_example :
    event_callback three_bytes session down_error (b'x' ∷ []) (b'y' ∷ []) times
    ≡ write_serialized
        (record session { initiated = false })
        (three_bytes (event_list 41 times (event_text down_error (b'x' ∷ []) (b'y' ∷ []))))
event_callback-write_example =
    event_callback-write three_bytes session down_error (b'x' ∷ []) (b'y' ∷ []) times

-- 600 bytes for every object.
abbrev long : K → Option Bytes
long x = some (blank 600)

receive_callback-drops_example :
    (g : Feed) × ((receive_callback long session header (some (kj 8)) noon
        ≡ done (solclient_ok, record session { feed = g; msg_recv = increment 41 }))
      × ((g.queue ≡ first.queue) × (g.dots ≡ first.dots)))
receive_callback-drops_example =
    receive_callback-drops long session header (kj 8) noon (blank 600) [] refl first-Holds
      (omega (arith, length-blank 600)) (omega (arith, length-blank 600))

abbrev halved : ℕ → ℕ
halved v = v % 2 ^ 32

eight-IsRanged : IsRanged (int64 8)
unfolding IsRanged
eight-IsRanged = omega arith

eight_is_told : has_value (int64 8) ≡ true
unfolding has_value
eight_is_told = refl

eight_decodes : decode_field halved halved (int64 8) no_message ≡ some (kj 8)
unfolding decode_field
eight_decodes = refl

message_receive_callback-Holds_example :
    IsObject (kj 8)
    × ((g : Feed) × (message_receive_callback three_bytes halved halved session header
            (int64 1)
            (some (int64 8))
            no_message
            noon
          ≡ done (solclient_ok, record session { feed = g; msg_recv = increment 41 }))
        × Holds g ((1 ∷ 2 ∷ 3 ∷ []) ∷ []))
message_receive_callback-Holds_example =
    message_receive_callback-Holds three_bytes halved halved (λ v. omega arith) (λ v. omega arith)
      session header (int64 1) (int64 8) no_message (kj 8) noon (1 ∷ 2 ∷ 3 ∷ []) [] eight-IsRanged
      eight_is_told eight_decodes refl first-Holds (omega arith) (omega arith)

-- A notice, and then a message with the text `hi`, arrive in an empty queue.
abbrev bytes_of : K → Bytes
bytes_of y = get_or (short_values y) []

abbrev notice : K
notice = event_list 41 times (b'y' ∷ [])

notice_is_short : (short_values notice ≡ some (bytes_of notice)) × (length (bytes_of notice) ≡ 13)
unfolding current_time
notice_is_short = (refl, refl)

abbrev greeting : K
greeting = make_message_list header (kp (b'h' ∷ b'i' ∷ [])) 41 noon

greeting_is_short :
    (short_values greeting ≡ some (bytes_of greeting)) × (length (bytes_of greeting) ≡ 15)
unfolding make_message_list current_time
greeting_is_short = (refl, refl)

notice_written :
    (g : Feed) × (write_to_buffer first (bytes_of notice) ≡ done g)
    × Holds g (bytes_of notice ∷ [])
    × (0 < g.dots)
    × (g.batches ≡ first.batches)
notice_written =
    write_to_buffer-Holds first [] (bytes_of notice) first-Holds
      (record {
        some_bytes = omega (arith, notice_is_short.1);
        below = omega (arith, notice_is_short.1);
      })
      (omega (arith, notice_is_short.1))

greeting_written :
    (g : Feed) × (write_to_buffer notice_written.0 (bytes_of greeting) ≡ done g)
    × Holds g (bytes_of notice ∷ bytes_of greeting ∷ [])
    × (0 < g.dots)
    × (g.batches ≡ notice_written.0.batches)
greeting_written =
    write_to_buffer-Holds notice_written.0 (bytes_of notice ∷ []) (bytes_of greeting)
      notice_written.2
      (record {
        some_bytes = omega (arith, greeting_is_short.1);
        below = omega (arith, greeting_is_short.1);
      })
      (omega (
        arith,
        greeting_is_short.1,
        notice_is_short.1,
        length-append (frame_bytes (bytes_of notice)) [],
        length-frame_bytes (bytes_of notice),
      ))

abbrev noticed : Session
noticed = record session { feed = notice_written.0 }

notice_taken : event_callback short_values session up_notice [] (b'y' ∷ []) times ≡ done noticed
notice_taken =
    event_callback-write short_values session up_notice [] (b'y' ∷ []) times
    ∙ ap (write_serialized session) notice_is_short.0
    ∙ ap (into_feed session) notice_written.1

abbrev greeted : Session
greeted = record noticed { feed = greeting_written.0; msg_recv = 42 }

greeting_taken :
    message_receive_callback short_values halved halved noticed header
      (int64 1)
      (some (string (b'h' ∷ b'i' ∷ [])))
      no_message
      noon
    ≡ done (solclient_ok, greeted)
unfolding message_receive_callback receive_callback decode_from_solace decode_field
    make_message_list current_time
greeting_taken =
    ap
      (λ r.
        and_then {B = ℤ × Session} (into_feed noticed r)
          (λ s. done (solclient_ok, record s { msg_recv = increment s.msg_recv })))
      greeting_written.1

two_arrivals :
    Run short_values seven
      (λ i. noon)
      halved
      halved
      session
      (record { session = greeted; looked = none })
      (notice ∷ greeting ∷ [])
unfolding make_message_list current_time decode_from_solace decode_field
two_arrivals =
    message header (int64 1) (some (string (b'h' ∷ b'i' ∷ []))) no_message noon solclient_ok greeted
      (event up_notice [] (b'y' ∷ []) times noticed begin notice_taken) greeting_taken

Run-stamped_example :
    (handed : List (List K)) × (waiting : List K) × (notice ∷ greeting ∷ []
      ≡ flatten handed ++ waiting)
    × (greeted.feed.batches ≡ first.batches ++ map (stamped (λ i. noon)) handed)
Run-stamped_example =
    Run-stamped (λ i. noon) seven short_values halved halved session short_values-Serializes
      first-Holds two_arrivals

Run-callback_example :
    (handed : List (List K)) × (flatten handed ≡ notice ∷ greeting ∷ [])
    × ((greeted.feed.batches ≡ first.batches ++ map (stamped (λ i. noon)) handed)
        ⊎ ((g : Feed) × (callback seven (λ i. noon) greeted.feed ≡ returned g)
            × (contents g.queue ≡ [])
            × (g.batches ≡ first.batches ++ map (stamped (λ i. noon)) handed)))
Run-callback_example =
    Run-callback (λ i. noon) seven short_values halved halved session short_values-Serializes
      first-Holds two_arrivals refl
