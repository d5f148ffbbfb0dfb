-- ===== src/Publish/Filled.antt =====
-- The calls of `publishToSolace` of src/solace.c between the allocation of a message and its end.
use kdb_solace.Base.{◌≡◌, refl, Bool, true, false, Option, none, some, ℤ, arith}
use kdb_solace.Memory.{Bytes}
use kdb_solace.Kdb.{K}
use kdb_solace.Solclient.{is_ok}
use kdb_solace.Message.{Messages}
use kdb_solace.Encode.{encode}
use kdb_solace.Publish.{State, checked_by, checked, encoded, fill_and_send}

module _ (api : Messages) where
  open api use {
    containers, Message, msg_alloc, set_delivery_mode, set_destination, create_attachment_stream,
    send_msg, msg_free,
  }

  checked-inverse :
      (r : ℤ × containers.World) (k : State api → Option (State api)) (e : State api)
      → checked api r k ≡ some e
      → is_ok e.rc ≡ true
      → (is_ok r.0 ≡ true) × (k (record { rc = r.0; world = r.1 }) ≡ some e)
  checked-inverse (rc, w) k e result ok = go (is_ok rc) refl result
    where
      go :
          (b : Bool)
          → is_ok rc ≡ b
          → checked_by api b (record { rc = rc; world = w }) k ≡ some e
          → (is_ok rc ≡ true) × (k (record { rc = rc; world = w }) ≡ some e)
      go true is result = (is, result)
      go false is result = absurd (ground (arith, is, result, ok))

  -- Every call from the delivery mode on has succeeded, the sending of the message last.
  pub record Filled (m : Message) (dest : Bytes) (x : K) (w : containers.World) (e' : State api)
      : Type 0 where
    pub mode : is_ok (set_delivery_mode m w).0 ≡ true
    pub destination : is_ok (set_destination m dest (set_delivery_mode m w).1).0 ≡ true
    pub stream : ℤ × (containers.Handle × containers.World)
    pub streams :
        create_attachment_stream m (set_destination m dest (set_delivery_mode m w).1).1 ≡ stream
    pub streams_ok : is_ok stream.0 ≡ true
    pub code : ℤ
    pub encoder : State api
    pub encodes :
        encode containers x stream.1.0 (record { rc = stream.0; world = stream.1.1 })
        ≡ some (code, encoder)
    pub encodes_ok : is_ok code ≡ true
    pub sends : is_ok (send_msg m encoder.world).0 ≡ true
    pub world : e'.world ≡ (send_msg m encoder.world).1

  encoded-inverse :
      (r : Option (ℤ × State api)) (k : State api → Option (State api)) (e : State api)
      → encoded api r k ≡ some e
      → is_ok e.rc ≡ true
      → (code : ℤ) × ((e4 : State api) × ((r ≡ some (code, e4))
            × ((is_ok code ≡ true) × (k (record e4 { rc = code }) ≡ some e))))
  encoded-inverse none k e result ok = absurd cc
  encoded-inverse (some (code, e4)) k e result ok =
      let (is, rest) = checked-inverse (code, e4.world) k e result ok in
      (code, (e4, (refl, (is, rest))))

  pub filled :
      (m : Message) (dest : Bytes) (x : K) (e e' : State api)
      → fill_and_send api m dest x e ≡ some e'
      → is_ok e'.rc ≡ true
      → Filled m dest x e.world e'
  unfolding fill_and_send
  filled m dest x e e' result ok =
      let (mode, r1) = checked-inverse (set_delivery_mode m e.world) _ e' result ok in
      let (destination, r2) =
        checked-inverse (set_destination m dest (set_delivery_mode m e.world).1) _ e' r1 ok in
      let (rc, (h, w)) =
        create_attachment_stream m (set_destination m dest (set_delivery_mode m e.world).1).1 in
      let (created, r3) = checked-inverse (rc, w) _ e' r2 ok in
      let (code, (encoder, (encodes, (encodes_ok, r4)))) =
        encoded-inverse (encode containers x h (record { rc = rc; world = w })) _ e' r3 ok in
      let (sends, r5) = checked-inverse (send_msg m encoder.world) _ e' r4 ok in
      record {
        mode = mode;
        destination = destination;
        stream =
            create_attachment_stream m (set_destination m dest (set_delivery_mode m e.world).1).1;
        streams = refl;
        streams_ok = created;
        code = code;
        encoder = encoder;
        encodes = encodes;
        encodes_ok = encodes_ok;
        sends = sends;
        world = ground (arith, r5);
      }
