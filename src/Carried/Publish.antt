-- ===== src/Carried/Publish.antt =====
-- `publishtosolace` of src/solace_k.c on what can be sent.
use kdb_solace.Base.{
  ◌≡◌, ◌≢◌, refl, sym, ap, ◌∙◌, subst, true, false, Option, none, some, List, [], ◌∷◌, ◌++◌, ℤ,
  if◌then◌else◌,
}
use kdb_solace.Memory.{Bytes}
use kdb_solace.Kdb.{K, list, nil, increment}
use kdb_solace.Solclient.{solclient_ok, is_ok}
use kdb_solace.Client.{nothing}
use kdb_solace.Field.{Field, stream_of, end}
use kdb_solace.Topics.{is_text, topic_name}
use kdb_solace.Message.{Messages}
use kdb_solace.Publish.{
  is_atom, State, checked, encoded, fill_and_send, free_message, publish_to_solace, Publisher,
  answer, publish,
}
use kdb_solace.Publish.Freed.{past_guards}
use kdb_solace.Publish.Sent.{publish_to_solace-alloc}
use kdb_solace.Carried.Store.{IsWithin, put_fields, put_fields-stream, Store}
use kdb_solace.Carried.New.{empty-HasRoom}
use kdb_solace.Carried.Sent.{Contained, IsSendable, message_fields}
use kdb_solace.Carried.Whole.{encode-Fills}

-- The calls with messages, on a session that takes them and as long as the operating system has memory:
-- the stream of a message's own attachment grows with it, and has no limit. `sent` is what it has sent, as destinations and bodies;
-- `IsLive` says that a message is allocated, `IsFor` that it has this destination, and `IsBody` that it has this stream too.
pub record Post (api : Messages) (store : Store api.containers) : Type 1 where
  pub sent : api.containers.World → List (Bytes × Field)
  pub IsLive : api.Message → api.containers.World → Type 0
  pub IsFor : api.Message → Bytes → api.containers.World → Type 0
  pub IsBody : api.Message → Bytes → api.containers.Handle → api.containers.World → Type 0
  pub kept_body :
      {m : api.Message} {dest : Bytes} {h : api.containers.Handle} {w w' : api.containers.World}
      → store.IsKept w w'
      → IsBody m dest h w
      → IsBody m dest h w'
  pub kept_sent : {w w' : api.containers.World} → store.IsKept w w' → sent w' ≡ sent w
  pub alloc_ok :
      (w : api.containers.World)
      → let (rc, (m, w')) = api.msg_alloc w in
        (rc ≡ solclient_ok) × (sent w' ≡ sent w) × IsLive m w'
  pub mode_ok :
      (m : api.Message) (w : api.containers.World)
      → IsLive m w
      → let (rc, w') = api.set_delivery_mode m w in
        (rc ≡ solclient_ok) × (sent w' ≡ sent w) × IsLive m w'
  pub destination_ok :
      (m : api.Message) (dest : Bytes) (w : api.containers.World)
      → IsLive m w
      → let (rc, w') = api.set_destination m dest w in
        (rc ≡ solclient_ok) × (sent w' ≡ sent w) × IsFor m dest w'
  pub attachment_ok :
      (m : api.Message) (dest : Bytes) (w : api.containers.World)
      → IsFor m dest w
      → let (rc, (h, w')) = api.create_attachment_stream m w in
        (rc ≡ solclient_ok)
        × (sent w' ≡ sent w)
        × IsBody m dest h w'
        × store.IsOpen h w'
        × (store.value h w' ≡ stream_of end)
        × (store.limit h w' ≡ none)
  pub send_ok :
      (m : api.Message) (dest : Bytes) (h : api.containers.Handle) (w : api.containers.World)
      → IsBody m dest h w
      → let (rc, w') = api.send_msg m w in
        (rc ≡ solclient_ok) × (sent w' ≡ sent w ++ ((dest, store.value h w) ∷ [])) × IsLive m w'
  pub free_ok :
      (m : api.Message) (w : api.containers.World)
      → IsLive m w
      → ((api.msg_free m w).0 ≡ solclient_ok) × (sent (api.msg_free m w).1 ≡ sent w)

module _ (api : Messages) (store : Store api.containers) (post : Post api store) where
  open api use {
    containers, Message, msg_alloc, set_delivery_mode, set_destination, create_attachment_stream,
    send_msg, msg_free,
  }
  open post use {sent}

  -- The label `freemessage` is reached with the code OK, when just `more` has been sent and the message m is
  -- allocated.
  record Sends (m : Message) (r : Option (State api)) (w : containers.World)
      (more : List (Bytes × Field)) : Type 0 where
    pub last : State api
    pub gives : r ≡ some last
    pub code : last.rc ≡ solclient_ok
    pub log : sent last.world ≡ sent w ++ more
    pub live : post.IsLive m last.world

  checked-Sends :
      {m : Message} (rc : ℤ) (w : containers.World) (k : State api → Option (State api))
      (w0 : containers.World) (more : List (Bytes × Field))
      → rc ≡ solclient_ok
      → Sends m (k (record { rc = solclient_ok; world = w })) w0 more
      → Sends m (checked api (rc, w) k) w0 more
  checked-Sends {m} rc w k w0 more ok s =
      subst (λ rc. Sends m (checked api (rc, w) k) w0 more) (sym ok) s

  fill_and_send-Sends :
      (m : Message) (dest : Bytes) (x : K) (e : State api)
      → IsSendable x
      → x ≢ list nil
      → Contained store.bytes x
      → post.IsLive m e.world
      → Sends m (fill_and_send api m dest x e) e.world ((dest, stream_of (message_fields x)) ∷ [])
  unfolding fill_and_send
  fill_and_send-Sends m dest x e sendable some_x fits live =
      let w1 = (set_delivery_mode m e.world).1 in
      let (mode, same1, live1) = post.mode_ok m e.world live in
      let (rc2, w2) = set_destination m dest w1 in
      let (destination, same2, addressed) = post.destination_ok m dest w1 live1 in
      let (rc3, (h, w3)) = create_attachment_stream m w2 in
      let (attached, same3, body, o, empty, lim) = post.attachment_ok m dest w2 addressed in
      let room =
        empty-HasRoom containers store h w3 (message_fields x) o empty
          (subst (λ l. IsWithin l (store.bytes (stream_of (message_fields x)))) (sym lim) tt) in
      let f =
        encode-Fills containers store x h (record { rc = solclient_ok; world = w3 }) sendable some_x
          fits (refl, room) in
      let w4 = f.last.world in
      let (rc5, w5) = send_msg m w4 in
      let (went, log, live5) = post.send_ok m dest h w4 (post.kept_body f.filled.kept body) in
      let filled : store.value h w4 ≡ stream_of (message_fields x) =
        f.filled.put
        ∙ ap (λ c. put_fields c (message_fields x)) empty
        ∙ put_fields-stream end (message_fields x) in
      let before : sent w4 ≡ sent e.world = post.kept_sent f.filled.kept ∙ same3 ∙ same2 ∙ same1 in
      checked-Sends (set_delivery_mode m e.world).0 w1 _ e.world _ mode (
        checked-Sends rc2 w2 _ e.world _ destination (
          checked-Sends rc3 w3 _ e.world _ attached (
            subst
              (λ r.
                Sends m (encoded api r λ e4. checked api (send_msg m e4.world) λ e5. some e5)
                  e.world ((dest, stream_of (message_fields x)) ∷ []))
              (sym f.gives)
              (checked-Sends rc5 w5 (λ e5. some e5) e.world _ went
                (record {
                  last = record { rc = solclient_ok; world = w5 };
                  gives = refl;
                  code = refl;
                  log =
                      log
                      ∙ ap (λ l. l ++ ((dest, store.value h w4) ∷ [])) before
                      ∙ ap (λ v. sent e.world ++ ((dest, v) ∷ [])) filled;
                  live = live5;
                })))))

  publish_to_solace-Sends :
      (dest : Bytes) (x : K) (e : State api)
      → IsSendable x
      → x ≢ list nil
      → Contained store.bytes x
      → (last : State api) × (publish_to_solace api dest x e ≡ some (solclient_ok, last))
        × (sent last.world ≡ sent e.world ++ ((dest, stream_of (message_fields x)) ∷ []))
  unfolding publish_to_solace
  publish_to_solace-Sends dest x e sendable some_x fits =
      let (rc, (m, w)) = msg_alloc e.world in
      let (got, same, live) = post.alloc_ok e.world in
      let s =
        fill_and_send-Sends m dest x (record { rc = rc; world = w }) sendable some_x fits live in
      let (rc', w') = msg_free m s.last.world in
      let (freed, same') = post.free_ok m s.last.world s.live in
      (
        record s.last { world = w' },
        publish_to_solace-alloc api dest x e (ap is_ok got)
            ∙ ap (free_message api m) s.gives
            ∙ ap (λ c. some (if is_ok c then s.last.rc else c, record s.last { world = w' })) freed
            ∙ ap (λ c. some (c, record s.last { world = w' })) s.code,
        same' ∙ s.log ∙ ap (λ l. l ++ ((dest, stream_of (message_fields x)) ∷ [])) same,
      )

  -- With a client library that takes the calls, `publishtosolace` on a connection of anything that can be
  -- sent, is no atom and is no empty general list, and has in it only containers of at most 1024 bytes, to a
  -- char vector, answers without an error, stays on
  -- the connection, counts one message, and has sent one more: to that topic, with a stream of just the
  -- object's fields.
  pub publish-sends :
      (p : Publisher api) (topic x : K)
      → p.initiated ≡ true
      → is_text topic ≡ true
      → is_atom x ≡ false
      → IsSendable x
      → x ≢ list nil
      → Contained store.bytes x
      → (p' : Publisher api) × (publish api p topic x ≡ (p', nothing))
        × (p'.initiated ≡ true)
        × (p'.msg_sent ≡ increment p.msg_sent)
        × (sent p'.state.world
            ≡ sent p.state.world ++ ((topic_name topic, stream_of (message_fields x)) ∷ []))
  unfolding publish
  publish-sends p topic x on text object sendable some_x fits =
      let (last, gives, log) =
        publish_to_solace-Sends (topic_name topic) x p.state sendable some_x fits in
      let p' : Publisher api = record p {
        msg_sent = increment p.msg_sent;
        state = record last { rc = solclient_ok };
      } in
      (
        p',
        past_guards api (λ out. out ≡ (p', nothing)) p.initiated (is_text topic) (is_atom x) _ _ _ _
            on text object (ap (answer api p) gives),
        on,
        refl,
        log,
      )
