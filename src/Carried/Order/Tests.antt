-- ===== src/Carried/Order/Tests.antt =====
-- Two lists of symbols are published; both arrive, and a callback takes them out.
use mathlib.Core.Option.{get_or}
use mathlib.Core.List.{Sublist}
use kdb_solace.Base.{
  ℕ, ◌-◌, ◌<◌, ◌≡◌, refl, ap, true, none, some, List, [], ◌∷◌, ◌++◌, map, ℤ, length, length-append,
  arith,
}
use kdb_solace.Memory.{Bytes}
use kdb_solace.Kdb.{K, symbols, vector, Timespec, current_time, increment}
use kdb_solace.Solclient.{solclient_ok}
use kdb_solace.Client.{nothing}
use kdb_solace.Ring.{done, and_then, cb_size}
use kdb_solace.Field.{stream_of, end}
use kdb_solace.Decode.{no_message, decode_field, decode_from_solace}
use kdb_solace.Publish.{Publisher}
use kdb_solace.Wire.{Feed, write_to_buffer, returned, callback_take}
use kdb_solace.Wire.Frames.{frame_bytes, frames, length-frame_bytes}
use kdb_solace.Wire.Deliver.{Holds, write_to_buffer-Holds}
use kdb_solace.Wire.Idle.{first, first-Holds}
use kdb_solace.Wire.Trace.{flatten}
use kdb_solace.Wire.Trace.Reader.{look_returns}
use kdb_solace.Wire.Trace.Safety.{callback_returns}
use kdb_solace.Events.{
  Session, into_feed, make_message_list, receive_callback, message_receive_callback,
}
use kdb_solace.Events.Runs.{Receiver, begin, message, looks, takes}
use kdb_solace.Events.Follows.{Run-Follows}
use kdb_solace.Events.Told.{stamped}
use kdb_solace.Events.Codec.{short_values, seven, short_values-Serializes}
use kdb_solace.Carried.Sent.{Contained, IsSendable, arrived_message}
use kdb_solace.Carried.Delivered.{header_for}
use kdb_solace.Carried.Broker.{store, post}
use kdb_solace.Carried.Cells.{messages}
use kdb_solace.Carried.Payloads.{Runs, payloads}
use kdb_solace.Carried.Order.{Call, IsPublishable, post_of, publish_all, payloads-publish_all}

abbrev same : ℕ → ℕ
same v = v

abbrev noon : Timespec
noon = record { tv_sec = 1587379630; tv_nsec = 5 }

abbrev publisher : Publisher messages
publisher = record {
  initiated = true;
  msg_sent = 3;
  state = record {
    rc = solclient_ok;
    world = record {
      next = 1;
      cells = λ h. stream_of end;
      limits = λ h. none;
      dests = λ m. [];
      bodies = λ m. 0;
      sent = [];
    };
  };
}

abbrev call_of : ℕ → Call
call_of c = record { topic = vector 10 (b'n' ∷ []); object = symbols ((c ∷ []) ∷ []) }

call_of-IsPublishable : (c : ℕ) → IsPublishable store.bytes (call_of c)
unfolding IsSendable Contained
call_of-IsPublishable c = record {
  text = refl;
  no_atom = refl;
  sendable = tt;
  some_elements = λ e. cc;
  contained = tt;
}

-- What is told of the message with the symbol c and the number n.
abbrev told_of : ℕ → ℕ → K
told_of c n =
    make_message_list (header_for (b'n' ∷ []) 11 12) (arrived_message same (call_of c).object) n
      noon

abbrev bytes_of : ℕ → ℕ → Bytes
bytes_of c n = get_or (short_values (told_of c n)) []

told_is_short :
    (c n : ℕ) → (short_values (told_of c n) ≡ some (bytes_of c n)) × (length (bytes_of c n) ≡ 14)
unfolding make_message_list current_time arrived_message
told_is_short c n = (refl, refl)

written :
    (f : Feed) (ms : List Bytes) (c n : ℕ)
    → Holds f ms
    → length (frames ms) < 100
    → (g : Feed) × (write_to_buffer f (bytes_of c n) ≡ done g)
      × Holds g (ms ++ (bytes_of c n ∷ []))
      × (0 < g.dots)
      × (g.batches ≡ f.batches)
written f ms c n h room =
    let size = (told_is_short c n).1 in
    write_to_buffer-Holds f ms (bytes_of c n) h
      (record { some_bytes = omega (arith, size); below = omega (arith, size) })
      (omega (arith, size))

taken :
    (s : Session) (c : ℕ) (g : Feed)
    → write_to_buffer s.feed (bytes_of c s.msg_recv) ≡ done g
    → message_receive_callback short_values same same s
        (header_for (b'n' ∷ []) 11 12)
        (stream_of end)
        (some (post_of (call_of c)).1)
        no_message
        noon
      ≡ done (solclient_ok, record s { feed = g; msg_recv = increment s.msg_recv })
unfolding message_receive_callback receive_callback decode_from_solace decode_field
    make_message_list current_time arrived_message
taken s c g writes =
    ap
      (λ r.
        and_then {B = ℤ × Session} (into_feed s r)
          (λ s. done (solclient_ok, record s { msg_recv = increment s.msg_recv })))
      writes

abbrev session : Session
session = record { feed = first; initiated = true; msg_recv = 41 }

w1 :
    (g : Feed) × (write_to_buffer first (bytes_of 1 41) ≡ done g)
    × Holds g (bytes_of 1 41 ∷ [])
    × (0 < g.dots)
    × (g.batches ≡ first.batches)
w1 = written first [] 1 41 first-Holds (omega arith)

one_frame : length (frames (bytes_of 1 41 ∷ [])) < 100
one_frame = omega (
  arith,
  (told_is_short 1 41).1,
  length-append (frame_bytes (bytes_of 1 41)) [],
  length-frame_bytes (bytes_of 1 41),
)

w2 :
    (g : Feed) × (write_to_buffer w1.0 (bytes_of 2 42) ≡ done g)
    × Holds g (bytes_of 1 41 ∷ bytes_of 2 42 ∷ [])
    × (0 < g.dots)
    × (g.batches ≡ w1.0.batches)
w2 = written w1.0 (bytes_of 1 41 ∷ []) 2 42 w1.2 one_frame

abbrev after_one : Session
after_one = record { feed = w1.0; initiated = true; msg_recv = 42 }

abbrev after_two : Session
after_two = record { feed = w2.0; initiated = true; msg_recv = 43 }

abbrev looked : Receiver
looked = record {
  session = record after_two { feed = record w2.0 { dots = w2.0.dots - 1 } };
  looked = some (cb_size w2.0.queue);
}

-- Both arrive, and a callback looks at the size of the queue and then takes them out.
two_looked :
    Runs short_values seven (λ i. noon) same same session looked (told_of 1 41 ∷ told_of 2 42 ∷ [])
unfolding make_message_list current_time decode_from_solace decode_field arrived_message
two_looked =
    looks (record w2.0 { dots = w2.0.dots - 1 }) (cb_size w2.0.queue)
      (message (header_for (b'n' ∷ []) 11 12) (stream_of end) (some (post_of (call_of 2)).1)
        no_message noon solclient_ok after_two
        (message (header_for (b'n' ∷ []) 11 12) (stream_of end) (some (post_of (call_of 1)).1)
          no_message noon solclient_ok after_one begin (taken session 1 w1.0 w1.1))
        (taken after_one 2 w2.0 w2.1))
      refl (look_returns w2.0 w2.3)

taken_out :
    (g : Feed) × (callback_take seven (λ i. noon) looked.session.feed (cb_size w2.0.queue)
      ≡ returned g)
taken_out =
    callback_returns seven (λ i. noon) first (cb_size w2.0.queue) first-Holds
      (Run-Follows short_values seven (λ i. noon) same same session short_values-Serializes
        first-Holds two_looked).trace
      refl

abbrev idle : Receiver
idle = record { session = record looked.session { feed = taken_out.0 }; looked = none }

two : Runs short_values seven (λ i. noon) same same session idle (told_of 1 41 ∷ told_of 2 42 ∷ [])
two = takes taken_out.0 (cb_size w2.0.queue) two_looked refl taken_out.1

abbrev calls : List Call
calls = call_of 1 ∷ call_of 2 ∷ []

payloads-publish_all_example :
    (p' : Publisher messages) × (handed : List (List K)) × (publish_all messages publisher calls
      ≡ (p', nothing ∷ nothing ∷ []))
    × (p'.state.world.sent ≡ post_of (call_of 1) ∷ post_of (call_of 2) ∷ [])
    × (idle.session.feed.batches ≡ first.batches ++ map (stamped (λ i. noon)) handed)
    × Sublist
        (payloads (flatten handed))
        (arrived_message same (call_of 1).object ∷ arrived_message same (call_of 2).object ∷ [])
unfolding two two_looked
payloads-publish_all_example =
    payloads-publish_all messages store post short_values seven (λ i. noon) same same publisher
      calls session two refl (call_of-IsPublishable 1, (call_of-IsPublishable 2, tt))
      short_values-Serializes first-Holds refl
