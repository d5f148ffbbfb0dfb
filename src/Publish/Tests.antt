-- ===== src/Publish/Tests.antt =====
-- Publishing with a client library that takes everything but topics of more than three bytes.
use kdb_solace.Base.{
  ℕ, ◌+◌, ◌-◌, ◌≡◌, ◌≢◌, arith, refl, true, List, [], ◌∷◌, ◌++◌, leb, length, if◌then◌else◌,
}
use kdb_solace.Kdb.{K, vector}
use kdb_solace.Kdb.Objects.{IsObject}
use kdb_solace.Solclient.{solclient_ok, solclient_fail}
use kdb_solace.Client.{nothing, fault}
use kdb_solace.Container.{Item, add_int64}
use kdb_solace.Message.{Messages}
use kdb_solace.Encode.{encode}
use kdb_solace.Publish.{publish, Publisher}
use kdb_solace.Publish.Freed.{publish_frees}
use kdb_solace.Publish.Sent.{Published, publish-Published}

-- The messages that were sent and those not freed yet, and the items.
abbrev World : Type 0
World = (ℕ × ℕ) × List (ℕ × Item)

abbrev broker : Messages
broker = record {
  containers = record {
    World = World;
    Handle = ℕ;
    null_handle = 0;
    create_map = λ h n w. (solclient_ok, (1, w));
    create_stream = λ h n w. (solclient_ok, (1, w));
    add_item = λ h a name w. (solclient_ok, (w.0, w.1 ++ ((h, a) ∷ [])));
    add_container = λ h new w. (solclient_ok, w);
  };
  Message = ℕ;
  msg_alloc = λ w. (solclient_ok, (7, ((w.0.0, w.0.1 + 1), w.1)));
  set_delivery_mode = λ m w. (solclient_ok, w);
  set_destination = λ m dest w. (if leb (length dest) 3 then solclient_ok else solclient_fail, w);
  create_attachment_stream = λ m w. (solclient_ok, (0, w));
  send_msg = λ m w. (solclient_ok, ((w.0.0 + 1, w.0.1), w.1));
  msg_free = λ m w. (solclient_ok, ((w.0.0, w.0.1 - 1), w.1));
}

abbrev publisher : Publisher broker
publisher = record {
  initiated = true;
  msg_sent = 3;
  state = record { rc = solclient_ok; world = ((0, 0), []) };
}

abbrev after : Publisher broker
after = record {
  initiated = true;
  msg_sent = 4;
  state = record { rc = solclient_ok; world = ((1, 0), (0, add_int64 5) ∷ (0, add_int64 6) ∷ []) };
}

abbrev topic : K
topic = vector 10 (b'a' ∷ b'b' ∷ [])

publish_two : publish broker publisher topic (vector 7 (5 ∷ 6 ∷ [])) ≡ (after, nothing)
unfolding publish encode
publish_two = refl

publish-Published_example : Published broker publisher topic (vector 7 (5 ∷ 6 ∷ [])) after
publish-Published_example =
    publish-Published broker publisher after topic (vector 7 (5 ∷ 6 ∷ [])) publish_two

abbrev long_topic : K
long_topic = vector 10 (b'a' ∷ b'b' ∷ b'c' ∷ b'd' ∷ [])

long-IsObject : IsObject (vector 7 (5 ∷ []))
unfolding IsObject
long-IsObject = (omega arith, tt)

-- The destination is refused; the message is freed.
publish_frees_example :
    ((publish broker publisher long_topic (vector 7 (5 ∷ []))).1 ≢ fault)
    × ((w : World) × ((publish broker publisher long_topic (vector 7 (5 ∷ []))).0.state.world
          ≡ (broker.msg_free 7 w).1))
publish_frees_example =
    publish_frees broker publisher long_topic (vector 7 (5 ∷ [])) long-IsObject refl refl refl refl
