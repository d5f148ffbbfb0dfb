-- ===== src/Publish/Freed.antt =====
-- The label `freemessage` of `publishToSolace` of src/solace.c.
use kdb_solace.Base.{
  ◌≡◌, ◌≢◌, refl, ◌∙◌, Bool, true, false, not, Option, none, some, ℤ, Bool-cases, inl, inr,
  if◌then◌else◌,
}
use kdb_solace.Memory.{Bytes}
use kdb_solace.Kdb.{K}
use kdb_solace.Kdb.Objects.{IsObject}
use kdb_solace.Solclient.{is_ok}
use kdb_solace.Client.{Reply, fault}
use kdb_solace.Topics.{is_text, topic_name}
use kdb_solace.Message.{Messages}
use kdb_solace.Encode.{encode}
use kdb_solace.Encode.Faults.Whole.{encode-IsObject}
use kdb_solace.Publish.{
  is_atom, State, checked, encoded, fill_and_send, publish_to_solace, Publisher, answer, publish,
}

module _ (api : Messages) where
  open api use {
    containers, Message, msg_alloc, set_delivery_mode, set_destination, create_attachment_stream,
    send_msg, msg_free,
  }

  -- The label is reached.
  abbrev Reaches : Option (State api) → Type 0
  Reaches r = (e : State api) × (r ≡ some e)

  checked-Reaches :
      (r : ℤ × containers.World) (k : State api → Option (State api))
      → ((e : State api) → Reaches (k e))
      → Reaches (checked api r k)
  checked-Reaches (rc, w) k h = elim (Bool-cases (is_ok rc)) [
    | inl ok ↦ rw ok (h (record { rc = rc; world = w }))
    | inr bad ↦ rw bad (record { rc = rc; world = w }, refl)
  ]

  encoded-Reaches :
      (r : Option (ℤ × State api)) (k : State api → Option (State api))
      → r ≢ none
      → ((e : State api) → Reaches (k e))
      → Reaches (encoded api r k)
  encoded-Reaches none k done h = absurd (done refl)
  encoded-Reaches (some r) k done h = checked-Reaches (r.0, r.1.world) k h

  fill_and_send-Reaches :
      (m : Message) (dest : Bytes) (x : K) (e : State api)
      → IsObject x
      → Reaches (fill_and_send api m dest x e)
  unfolding fill_and_send
  fill_and_send-Reaches m dest x e o = checked-Reaches (set_delivery_mode m e.world) _ λ e1.
      checked-Reaches (set_destination m dest e1.world) _ λ e2.
        let (rc, (stream, w)) = create_attachment_stream m e2.world in
        checked-Reaches (rc, w) _
          λ e3.
            encoded-Reaches (encode containers x stream e3) _
              (encode-IsObject containers x stream e3 o)
              λ e4. checked-Reaches (send_msg m e4.world) _ λ e5. (e5, refl)

  -- The message that is allocated first is freed last, and there is an answer.
  pub publish_to_solace_frees :
      (dest : Bytes) (x : K) (e : State api)
      → IsObject x
      → is_ok (msg_alloc e.world).0 ≡ true
      → (rc : ℤ) × (e' : State api) × (w : containers.World) × (publish_to_solace api dest x e
          ≡ some (rc, e'))
        × (e'.world ≡ (msg_free (msg_alloc e.world).1.0 w).1)
  unfolding publish_to_solace
  publish_to_solace_frees dest x e o got =
      let m = (msg_alloc e.world).1.0 in
      let e1 : State api = record { rc = (msg_alloc e.world).0; world = (msg_alloc e.world).1.1 } in
      let (last, reached) = fill_and_send-Reaches m dest x e1 o in
      let (rc_temp, w) = msg_free m last.world in
      (
        if is_ok rc_temp then last.rc else rc_temp,
        record last { world = w },
        last.world,
        simp (got, reached),
        refl,
      )

  answer-some :
      (p : Publisher api) (r : Option (ℤ × State api)) (rc : ℤ) (e : State api)
      → r ≡ some (rc, e)
      → ((answer api p r).0.state.world ≡ e.world) × ((answer api p r).1 ≢ fault)
  answer-some p r rc e gives = elim (Bool-cases (is_ok rc)) [
    | inl ok ↦ rw gives (rw ok (refl, λ f. cc))
    | inr bad ↦ rw gives (rw bad (refl, λ f. cc))
  ]

  pub past_guards :
      (P : Publisher api × Reply → Type 0) (on text object : Bool) (x y z q : Publisher api × Reply)
      → on ≡ true
      → text ≡ true
      → object ≡ false
      → P q
      → P (if not on then x else if not text then y else if object then z else q)
  past_guards P true true false x y z q is_on is_text' is_object h = h
  past_guards P true true true x y z q is_on is_text' is_object h = absurd cc
  past_guards P true false object x y z q is_on is_text' is_object h = absurd cc
  past_guards P false text object x y z q is_on is_text' is_object h = absurd cc

  -- If `publishtosolace` is called on a connection with a char vector and an object of q that is no atom,
  -- and a message can be allocated, then whatever fails after that, no memory is read that is not there,
  -- and the last call of the client library is to free that message.
  pub publish_frees :
      (p : Publisher api) (topic message : K)
      → IsObject message
      → p.initiated ≡ true
      → is_text topic ≡ true
      → is_atom message ≡ false
      → is_ok (msg_alloc p.state.world).0 ≡ true
      → ((publish api p topic message).1 ≢ fault)
        × ((w : containers.World) × ((publish api p topic message).0.state.world
              ≡ (msg_free (msg_alloc p.state.world).1.0 w).1))
  unfolding publish
  publish_frees p topic message o on text object got =
      let (rc, e', w, gives, freed) =
        publish_to_solace_frees (topic_name topic) message p.state o got in
      let (world, safe) =
        answer-some p (publish_to_solace api (topic_name topic) message p.state) rc e' gives in
      past_guards
        (λ out.
          (out.1 ≢ fault)
          × ((w : containers.World) × (out.0.state.world
                ≡ (msg_free (msg_alloc p.state.world).1.0 w).1)))
        p.initiated (is_text topic) (is_atom message) _ _ _ _ on text object
        (safe, (w, world ∙ freed))
