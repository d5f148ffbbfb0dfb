-- ===== src/Carried/Tests.antt =====
-- A list with a vector, a symbol and a dictionary on its way, and the theorems about it.
use kdb_solace.Base.{
  none, ℕ, ◌^◌, List, suc, zero, ◌+ℤ◌, ◌-◌, ◌≡◌, refl, true, Option, some, [], ◌∷◌, ◌++◌,
  length-append, arith,
}
use kdb_solace.Memory.{Bytes}
use kdb_solace.Kdb.{
  K, nil, cons, symbol, symbols, vector, list, dict, append_element, Timespec, ki, kj, kp,
}
use mathlib.Core.Option
use kdb_solace.Solclient.{solclient_ok, solclient_fail}
use kdb_solace.Client.{nothing}
use kdb_solace.Ring.{done}
use kdb_solace.Ring.Invariant.{contents}
use kdb_solace.Field.{Field, stream_of, end}
use kdb_solace.Encode.{Encoder, encode, encode_flat, encode_inner, encode_vector}
use kdb_solace.Decode.{no_message, decode_field}
use kdb_solace.Publish.{Publisher, publish}
use kdb_solace.Topics.{topic_name}
use kdb_solace.Wire.{Feed, returned, callback}
use kdb_solace.Wire.Frames.{frame_bytes, length-frame_bytes}
use kdb_solace.Wire.Deliver.{Holds, write_to_buffer-Holds}
use kdb_solace.Wire.Receive.{AllReadable, all_received}
use kdb_solace.Wire.Idle.{first, first-Holds}
use kdb_solace.Events.{Session, make_message_list, message_receive_callback}
use kdb_solace.Carried.{shorts, longs}
use kdb_solace.Carried.Sent.{Contained, IsContained, field_of, IsSendable, arrived_message}
use kdb_solace.Carried.Arrive.{decode-encode_sendable}
use kdb_solace.Carried.Delivered.{header_for, handed, publish-callback}
use kdb_solace.Carried.Broker.{store, post}
use kdb_solace.Carried.Cells.{Cells, byte_count, containers, messages}

abbrev same : ℕ → ℕ
same v = v

-- `(1 -1h; `x; `a`b!3 4)`
abbrev trade : K
trade = list (
    cons (vector 5 (1 ∷ 65535 ∷ [])) (
      cons (symbol (b'x' ∷ []))
        (cons (dict (symbols ((b'a' ∷ []) ∷ (b'b' ∷ []) ∷ [])) (vector 7 (3 ∷ 4 ∷ []))) nil)))

-- The shorts arrive as ints, the symbol as a char vector, the dictionary's longs as a general list.
abbrev arrived_trade : K
arrived_trade = list (
    cons (list (cons (ki 1) (cons (ki (2 ^ 32 - 1)) nil))) (
      cons (kp (b'x' ∷ [])) (
        cons
          (dict (symbols ((b'a' ∷ []) ∷ (b'b' ∷ []) ∷ [])) (list (cons (kj 3) (cons (kj 4) nil))))
          nil)))

trade_arrives : arrived_message same trade ≡ arrived_trade
unfolding arrived_message
trade_arrives = refl

trade-IsSendable : IsSendable trade
unfolding IsSendable
trade-IsSendable = (
  (shorts, (omega arith, (omega arith, tt))),
  (tt, ((refl, longs, (omega arith, (omega arith, tt))), tt)),
)

-- The vector and the dictionary are the two containers in it.
trade-Contained : Contained store.bytes trade
unfolding Contained IsContained field_of byte_count
trade-Contained = (omega arith, (tt, (omega arith, tt)))

abbrev empty : Cells
empty = record {
  next = 1;
  cells = λ h. stream_of end;
  limits = λ h. none;
  dests = λ m. [];
  bodies = λ m. 0;
  sent = [];
}

abbrev encoder : Encoder containers
encoder = record { rc = solclient_ok; world = empty }

decode-encode_sendable_example :
    (e' : Encoder containers) × (encode containers trade 0 encoder ≡ some (solclient_ok, e'))
    × (decode_field same same (store.value 0 e'.world) no_message
        ≡ some (arrived_message same trade))
decode-encode_sendable_example =
    decode-encode_sendable same same containers store trade 0 encoder no_message trade-IsSendable
      (λ e. cc) trade-Contained refl (omega arith) refl tt

abbrev publisher : Publisher messages
publisher = record { initiated = true; msg_sent = 3; state = encoder }

abbrev topic : K
topic = vector 10 (b'n' ∷ [])

abbrev noon : Timespec
noon = record { tv_sec = 1587379630; tv_nsec = 5 }

abbrev clock : ℕ → Timespec
clock i = record { tv_sec = 1587379631; tv_nsec = i }

abbrev header_list : K
header_list =
    make_message_list (header_for (topic_name topic) 11 12) (arrived_message same trade) 41 noon

-- `b9` and `d9` of these tests: three bytes for every object, and the list of the message for all bytes.
abbrev three_bytes : K → Option Bytes
three_bytes x = some (1 ∷ 2 ∷ 3 ∷ [])

abbrev as_message : Bytes → K
as_message m = header_list

-- A queue in which an earlier message waits.
waiting : (g : Feed) × Holds g ((9 ∷ []) ∷ [])
waiting =
    let r = write_to_buffer-Holds first [] (9 ∷ []) first-Holds (omega arith) (omega arith) in
    (r.0, r.2)

abbrev session : Session
session = record { feed = waiting.0; initiated = true; msg_recv = 41 }

earlier-AllReadable : AllReadable as_message clock ((9 ∷ []) ∷ [])
unfolding make_message_list
earlier-AllReadable = (record { small = omega arith; is_list = refl }, tt)

publish-callback_example :
    (p' : Publisher messages) × (body : Field) × (s' : Session) × (g : Feed) × (publish messages
        publisher topic trade
      ≡ (p', nothing))
    × (p'.state.world.sent ≡ (topic_name topic, body) ∷ [])
    × (message_receive_callback three_bytes same same session
          (header_for (topic_name topic) 11 12)
          (stream_of end)
          (some body)
          no_message
          noon
        ≡ done (solclient_ok, s'))
    × (callback as_message clock s'.feed ≡ returned g)
    × (contents g.queue ≡ [])
    × (g.batches
        ≡ waiting.0.batches
          ++ (list (
                append_element
                  (all_received as_message clock 0 ((9 ∷ []) ∷ []))
                  (handed (topic_name topic) 11 12 41 noon (clock 1) (arrived_message same trade)))
              ∷ []))
publish-callback_example =
    publish-callback as_message clock three_bytes same same messages store post publisher topic
      trade session 11 12 (stream_of end) no_message noon (1 ∷ 2 ∷ 3 ∷ []) ((9 ∷ []) ∷ []) refl refl
      refl trade-IsSendable (λ e. cc) trade-Contained refl refl (omega arith)
      (omega (arith, length-append (frame_bytes (9 ∷ [])) [], length-frame_bytes (9 ∷ [])))
      waiting.1 earlier-AllReadable

abbrev ones : ℕ → List ℕ
ones zero = []
ones (suc n) = 1 ∷ ones n

-- A list with a vector of 150 longs, whose stream would take more than 1024 bytes, is not encoded.
too_long_fails :
    Option.map (λ r. r.0) (encode containers (list (cons (vector 7 (ones 150)) nil)) 0 encoder)
    ≡ some solclient_fail
unfolding encode encode_flat encode_inner encode_vector byte_count ◌+ℤ◌
too_long_fails = refl
