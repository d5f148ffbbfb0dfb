-- ===== src/Publish/Sent.antt =====
-- What it means that `publishToSolace` of src/solace.c or `publishtosolace` of src/solace_k.c reports no error.
use kdb_solace.Base.{
  ◌≡◌, refl, sym, ◌∙◌, Bool, true, false, not, Option, none, some, ℤ, Bool-cases, inl, inr, arith,
  if◌then◌else◌,
}
use kdb_solace.Memory.{Bytes}
use kdb_solace.Kdb.{K, increment}
use kdb_solace.Solclient.{is_ok}
use kdb_solace.Client.{Error, noinit, topictype, messagetype, Reply, nothing, error}
use kdb_solace.Topics.{is_text, topic_name}
use kdb_solace.Message.{Messages}
use kdb_solace.Publish.{
  is_atom, State, fill_and_send, free_message, publish_to_solace, Publisher, answer, publish,
}
use kdb_solace.Publish.Filled.{Filled, filled}

module _ (api : Messages) where
  open api use {
    containers, Message, msg_alloc, set_delivery_mode, set_destination, create_attachment_stream,
    send_msg, msg_free,
  }

  -- A message was allocated, filled, sent and freed.
  pub record Sent (dest : Bytes) (x : K) (w : containers.World) (w' : containers.World)
      : Type 0 where
    pub alloc : is_ok (msg_alloc w).0 ≡ true
    pub last : State api
    pub fill : Filled api (msg_alloc w).1.0 dest x (msg_alloc w).1.1 last
    pub free : is_ok (msg_free (msg_alloc w).1.0 last.world).0 ≡ true
    pub world : w' ≡ (msg_free (msg_alloc w).1.0 last.world).1

  freed :
      (m : Message) (filling : Option (State api)) (rc : ℤ) (e' : State api)
      → free_message api m filling ≡ some (rc, e')
      → is_ok rc ≡ true
      → (last : State api) × ((filling ≡ some last)
          × ((is_ok last.rc ≡ true)
              × ((is_ok (msg_free m last.world).0 ≡ true)
                  × (e'.world ≡ (msg_free m last.world).1))))
  freed m none rc e' result ok = absurd cc
  freed m (some last) rc e' result ok = elim (Bool-cases (is_ok (msg_free m last.world).0)) [
    | inl free ↦
        (last, (refl, (ground (arith, result, ok, free), (free, ground (arith, result, free)))))
    | inr bad ↦ absurd (ground (arith, result, ok, bad))
  ]

  pub publish_to_solace-alloc :
      (dest : Bytes) (x : K) (e : State api)
      → is_ok (msg_alloc e.world).0 ≡ true
      → publish_to_solace api dest x e
        ≡ free_message api (msg_alloc e.world).1.0 (
            fill_and_send api
              (msg_alloc e.world).1.0
              dest
              x
              (record { rc = (msg_alloc e.world).0; world = (msg_alloc e.world).1.1 }))
  unfolding publish_to_solace
  publish_to_solace-alloc dest x e alloc = simp alloc

  -- If `publishToSolace` gives the code OK, a message was allocated, its mode and its destination were set,
  -- the object was encoded into its stream with the code OK, and it was sent and freed, each call with OK.
  pub publish_to_solace-Sent :
      (dest : Bytes) (x : K) (e e' : State api) (rc : ℤ)
      → publish_to_solace api dest x e ≡ some (rc, e')
      → is_ok rc ≡ true
      → Sent dest x e.world e'.world
  unfolding publish_to_solace
  publish_to_solace-Sent dest x e e' rc result ok =
      elim (Bool-cases (is_ok (msg_alloc e.world).0)) [
        | inl alloc ↦
            let e1 : State api = record {
              rc = (msg_alloc e.world).0;
              world = (msg_alloc e.world).1.1;
            } in
            let m = (msg_alloc e.world).1.0 in
            let (last, (fill, (fine, (free, world)))) =
              freed m (fill_and_send api m dest x e1) rc e'
                (sym (publish_to_solace-alloc dest x e alloc) ∙ result) ok in
            record {
              alloc = alloc;
              last = last;
              fill = filled api m dest x e1 last fill fine;
              free = free;
              world = world;
            }
        | inr bad ↦ absurd (ground (arith, result, ok, bad))
      ]

  -- What `publishtosolace` has done when it answers without an error.
  pub record Published (p : Publisher api) (topic message : K) (p' : Publisher api) : Type 0 where
    pub initiated : p.initiated ≡ true
    pub text : is_text topic ≡ true
    pub object : is_atom message ≡ false
    pub count : p'.msg_sent ≡ increment p.msg_sent
    pub sent : Sent (topic_name topic) message p.state.world p'.state.world

  answered :
      (p p' : Publisher api) (r : Option (ℤ × State api))
      → answer api p r ≡ (p', nothing)
      → (rc : ℤ) × ((e' : State api) × ((r ≡ some (rc, e'))
            × ((is_ok rc ≡ true)
                × ((p'.msg_sent ≡ increment p.msg_sent) × (p'.state.world ≡ e'.world)))))
  answered p p' none result = absurd cc
  answered p p' (some (rc, e')) result = elim (Bool-cases (is_ok rc)) [
    | inl ok ↦ (rc, (e', (refl, (ok, (ground (arith, ok, result), ground (arith, ok, result))))))
    | inr bad ↦ absurd (ground (arith, result, bad))
  ]

  guarded :
      (initiated text is_object : Bool) (p p' : Publisher api) (q : Publisher api × Reply)
      → (if not initiated
          then (p, error noinit)
          else if not text
          then (p, error topictype)
          else if is_object
          then (p, error messagetype)
          else q)
        ≡ (p', nothing)
      → (initiated ≡ true) × ((text ≡ true) × ((is_object ≡ false) × (q ≡ (p', nothing))))
  guarded true true false p p' q result = (refl, (refl, (refl, result)))
  guarded true true true p p' q result = absurd (ground (arith, result))
  guarded true false b p p' q result = absurd (ground (arith, result))
  guarded false a b p p' q result = absurd (ground (arith, result))

  -- If `publishtosolace` answers without an error, there is a connection, the topic is a char vector,
  -- the message is no atom, the counter of messages has gone up by one, and the message was sent to that topic.
  pub publish-Published :
      (p p' : Publisher api) (topic message : K)
      → publish api p topic message ≡ (p', nothing)
      → Published p topic message p'
  unfolding publish
  publish-Published p p' topic message result =
      let (initiated, (text, (object, answering))) =
        guarded p.initiated (is_text topic) (is_atom message) p p'
          (answer api p (publish_to_solace api (topic_name topic) message p.state)) result in
      let (rc, (e', (gives, (ok, (count, world))))) =
        answered p p' (publish_to_solace api (topic_name topic) message p.state) answering in
      record {
        initiated = initiated;
        text = text;
        object = object;
        count = count;
        sent = rw world (publish_to_solace-Sent (topic_name topic) message p.state e' rc gives ok);
      }

  answered_fails :
      (p p' : Publisher api) (r : Option (ℤ × State api)) (x : Error)
      → answer api p r ≡ (p', error x)
      → p'.msg_sent ≡ p.msg_sent
  answered_fails p p' none x result = absurd cc
  answered_fails p p' (some (rc, e')) x result = elim (Bool-cases (is_ok rc)) [
    | inl ok ↦ absurd (ground (arith, ok, result))
    | inr bad ↦ ground (arith, bad, result)
  ]

  guarded_fails :
      (initiated text is_object : Bool) (p p' : Publisher api) (q : Publisher api × Reply)
      (x : Error)
      → (if not initiated
          then (p, error noinit)
          else if not text
          then (p, error topictype)
          else if is_object
          then (p, error messagetype)
          else q)
        ≡ (p', error x)
      → (q ≡ (p', error x) → p'.msg_sent ≡ p.msg_sent)
      → p'.msg_sent ≡ p.msg_sent
  guarded_fails true true false p p' q x result h = h result
  guarded_fails true true true p p' q x result h = ground (arith, result)
  guarded_fails true false b p p' q x result h = ground (arith, result)
  guarded_fails false a b p p' q x result h = ground (arith, result)

  -- A call of `publishtosolace` that answers with an error does not count its message.
  pub publish_fails :
      (p p' : Publisher api) (topic message : K) (x : Error)
      → publish api p topic message ≡ (p', error x)
      → p'.msg_sent ≡ p.msg_sent
  unfolding publish
  publish_fails p p' topic message x result =
      guarded_fails p.initiated (is_text topic) (is_atom message) p p'
        (answer api p (publish_to_solace api (topic_name topic) message p.state)) x result
        (answered_fails p p' (publish_to_solace api (topic_name topic) message p.state) x)
