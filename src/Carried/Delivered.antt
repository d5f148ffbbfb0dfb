-- ===== src/Carried/Delivered.antt =====
-- A message from `publishtosolace` in one process to the call of q by `callback` in another
-- (src/solace.c, src/solace_k.c).
use kdb_solace.Base.{
  ℕ, ◌+◌, ◌<◌, ◌≡◌, ◌≢◌, refl, sym, ap, ◌∙◌, true, false, Option, some, List, [], ◌∷◌, ◌++◌, length,
  arith,
}
use kdb_solace.Memory.{Bytes}
use kdb_solace.Kdb.{
  K, nil, cons, list, symbol, dict, kc, kj, append_element, Timespec, current_time, increment,
}
use kdb_solace.Solclient.{solclient_ok}
use kdb_solace.Client.{nothing}
use kdb_solace.Field.{Field, sign_extend, stream_of}
use kdb_solace.Topics.{is_text, topic_name}
use kdb_solace.Message.{Messages}
use kdb_solace.Publish.{is_atom, Publisher, publish}
use kdb_solace.Ring.{done}
use kdb_solace.Ring.Invariant.{contents}
use kdb_solace.Decode.{Attachment, decode_from_solace}
use kdb_solace.Wire.{Feed, buffer_size, rec_keys, returned, write_to_buffer, callback}
use kdb_solace.Wire.Frames.{IsSmall, frames}
use kdb_solace.Wire.Deliver.{Holds, write_to_buffer-Holds}
use kdb_solace.Wire.Receive.{fields, IsReadable, AllReadable, received, all_received}
use kdb_solace.Wire.Delivery.{batch}
use kdb_solace.Wire.Callback.{
  append_one_some, AllReadable-append_one, all_received-append_one, callback_hands,
}
use kdb_solace.Events.{
  Header, Session, message_letter, make_message_list, receive_callback, message_receive_callback,
}
use kdb_solace.Carried.Store.{Store}
use kdb_solace.Carried.Sent.{Contained, IsSendable, message_fields, arrived_message}
use kdb_solace.Carried.Arrive.{message-Decodes}
use kdb_solace.Carried.Publish.{Post, publish-sends}

-- What the client library tells of a message for the destination `dest`.
abbrev pub header_for : Bytes → ℕ → ℕ → Header
header_for dest sent received = record {
  destination = (solclient_ok, dest);
  sender_timestamp = (solclient_ok, sent);
  rcv_timestamp = (solclient_ok, received);
}

-- What q is called with for it: the message's letter and number, its topic, four times, and x.
abbrev pub handed : Bytes → ℕ → ℕ → ℕ → Timespec → Timespec → K → K
handed dest sent received number now read x = dict rec_keys (
    list (
      cons (kc message_letter) (
        cons (kj (sign_extend 32 64 number)) (
          cons (symbol dest) (
            cons (kj sent) (
              cons (kj received)
                (cons (current_time now) (cons x (cons (current_time read) nil)))))))))

module _ (d9 : Bytes → K) (clock : ℕ → Timespec) where
  module _ (b9 : K → Option Bytes) (float_of_uint64 float_of_double : ℕ → ℕ) where
    receive_callback-write :
        (s : Session) (m : Header) (x : K) (now : Timespec) (bytes : Bytes) (f : Feed)
        → b9 (make_message_list m x s.msg_recv now) ≡ some bytes
        → write_to_buffer s.feed bytes ≡ done f
        → receive_callback b9 s m (some x) now
          ≡ done (solclient_ok, record s { feed = f; msg_recv = increment s.msg_recv })
    unfolding receive_callback
    receive_callback-write s m x now bytes f serialized writes = simp (serialized, writes)

    -- A message arrives whose stream has the fields of the object x, on a queue that holds the serialized
    -- messages `ms`. If `b9` gives less than 500 bytes for its list, they fit, and `d9` reads them back,
    -- then solclient is answered OK, and the next callback calls q with the messages `ms` and, behind
    -- them, this one with what x arrives as. The queue is empty then.
    pub receive-callback :
        (s : Session) (dest : Bytes) (sent number : ℕ) (rest : Field) (a : Attachment) (x : K)
        (now : Timespec) (bytes : Bytes) (ms : List Bytes)
        → let m = header_for dest sent number in
          let l = make_message_list m (arrived_message float_of_double x) s.msg_recv now in
          IsSendable x
          → b9 l ≡ some bytes
          → d9 bytes ≡ l
          → IsSmall bytes
          → length (frames ms) + length bytes + 8 < buffer_size
          → Holds s.feed ms
          → AllReadable d9 clock ms
          → (s' : Session) × (g : Feed) × (message_receive_callback b9 float_of_uint64
                float_of_double s m rest
                (some (stream_of (message_fields x)))
                a
                now
              ≡ done (solclient_ok, s'))
            × (s'.msg_recv ≡ increment s.msg_recv)
            × (callback d9 clock s'.feed ≡ returned g)
            × (contents g.queue ≡ [])
            × (g.batches
                ≡ s.feed.batches
                  ++ (list (
                        append_element (all_received d9 clock 0 ms) (
                          handed dest sent number s.msg_recv now
                            (clock (length ms))
                            (arrived_message float_of_double x)))
                      ∷ []))
    unfolding message_receive_callback decode_from_solace make_message_list append_element
    receive-callback s dest sent number rest a x now bytes ms sendable serialized reads small fits
          holds all =
        let (f, writes, holds', dots, same) =
          write_to_buffer-Holds s.feed ms bytes holds small fits in
        let l =
          make_message_list (header_for dest sent number) (arrived_message float_of_double x)
            s.msg_recv now in
        let readable : IsReadable d9 clock bytes = record {
          small = small;
          is_list = reads ∙ ap (λ y. list (fields y)) (sym reads);
        } in
        let zero_more : 0 + length ms ≡ length ms = omega arith in
        let (g, runs, h, left) =
          callback_hands d9 clock f (ms ++ (bytes ∷ [])) holds' dots
            (AllReadable-append_one d9 clock ms bytes all readable)
            (append_one_some d9 clock ms bytes) in
        (
          record s { feed = f; msg_recv = increment s.msg_recv },
          g,
          ap (λ q. receive_callback b9 s (header_for dest sent number) q now)
                (message-Decodes float_of_uint64 float_of_double x a sendable)
              ∙ receive_callback-write s (header_for dest sent number)
                  (arrived_message float_of_double x) now bytes f serialized writes,
          refl,
          runs,
          left,
          h.batches
              ∙ ap (λ l. l ++ (batch d9 clock (ms ++ (bytes ∷ [])) ∷ [])) same
              ∙ ap (λ xs. s.feed.batches ++ (list xs ∷ []))
                  (all_received-append_one d9 clock 0 ms bytes)
              ∙ ap
                  (λ n.
                    s.feed.batches
                    ++ (list
                          (append_element (all_received d9 clock 0 ms) (received d9 clock n bytes))
                        ∷ []))
                  zero_more
              ∙ ap
                  (λ y.
                    s.feed.batches
                    ++ (list (
                          append_element (all_received d9 clock 0 ms) (
                            dict rec_keys (
                              list (append_element (fields y) (current_time (clock (length ms)))))))
                        ∷ []))
                  reads,
        )

    module _ (api : Messages) (store : Store api.containers) (post : Post api store) where
      -- One process publishes, on a connection and to a char vector, an object that can be sent, is no atom
      -- and is no empty general list. Each list and dictionary in it takes at most the 1024 bytes that the
      -- code has for it, and the client library takes the calls, as it is documented to do when the names
      -- suit, the memory suffices and the session takes messages. Then the call answers
      -- without an error, and what has been sent is one message more, for that topic and with some body.
      -- Another process, whose queue holds the serialized messages `ms`, gets a message with that body,
      -- that topic and two timestamps. If `b9` gives less than 500 bytes for the list with what the object
      -- arrives as, they fit into the queue, and `d9` reads them back, it answers OK; the next callback
      -- calls q with `ms` and, behind them, that list and the time of reading under the eight keys, and
      -- leaves the queue empty. `d9` reads `ms` as lists.
      pub publish-callback :
          (p : Publisher api) (topic x : K) (s : Session) (sent number : ℕ) (rest : Field)
          (a : Attachment) (now : Timespec) (bytes : Bytes) (ms : List Bytes)
          → let dest = topic_name topic in
            let m = header_for dest sent number in
            let l = make_message_list m (arrived_message float_of_double x) s.msg_recv now in
            p.initiated ≡ true
            → is_text topic ≡ true
            → is_atom x ≡ false
            → IsSendable x
            → x ≢ list nil
            → Contained store.bytes x
            → b9 l ≡ some bytes
            → d9 bytes ≡ l
            → IsSmall bytes
            → length (frames ms) + length bytes + 8 < buffer_size
            → Holds s.feed ms
            → AllReadable d9 clock ms
            → (p' : Publisher api) × (body : Field) × (s' : Session) × (g : Feed) × (publish api p
                  topic x
                ≡ (p', nothing))
              × (post.sent p'.state.world ≡ post.sent p.state.world ++ ((dest, body) ∷ []))
              × (message_receive_callback b9 float_of_uint64 float_of_double s m rest
                    (some body)
                    a
                    now
                  ≡ done (solclient_ok, s'))
              × (callback d9 clock s'.feed ≡ returned g)
              × (contents g.queue ≡ [])
              × (g.batches
                  ≡ s.feed.batches
                    ++ (list (
                          append_element (all_received d9 clock 0 ms) (
                            handed dest sent number s.msg_recv now
                              (clock (length ms))
                              (arrived_message float_of_double x)))
                        ∷ []))
      publish-callback p topic x s sent number rest a now bytes ms on text object sendable some_x
            fitting serialized reads small fits holds all =
          let (p', published, still, counted, log) =
            publish-sends api store post p topic x on text object sendable some_x fitting in
          let (s', g, gets, number', runs, left, batches) =
            receive-callback s (topic_name topic) sent number rest a x now bytes ms sendable
              serialized reads small fits holds all in
          (p', stream_of (message_fields x), s', g, published, log, gets, runs, left, batches)
