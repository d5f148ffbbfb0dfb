-- ===== src/Events/Follows.antt =====
-- A run of the receiving process as one of `write_to_buffer` and `callback` (src/solace.c, src/solace_k.c).
use kdb_solace.Base.{
  ℕ, ◌≡◌, ◌≢◌, ◌≤◌, ◌+◌, refl, sym, ap, ap₂, subst, ◌∙◌, false, Option, none, some, List, [], ◌∷◌,
  ◌++◌, map, ℤ, length, if◌then◌else◌, arith, inl, inr, le_cases, lt→leb, le→leb, append-nil,
}
use mathlib.Core.List.{map-append}
use kdb_solace.Memory.{Bytes}
use kdb_solace.Kdb.{K, list, Timespec, increment}
use kdb_solace.Solclient.{solclient_ok}
use kdb_solace.Ring.{Outcome, done, fault, and_then}
use kdb_solace.Decode.{decode_from_solace}
use kdb_solace.Wire.{buffer_size, Feed, max_msg_size, write_to_buffer}
use kdb_solace.Wire.Receive.{fields, IsReadable}
use kdb_solace.Wire.Deliver.{Holds, write_to_buffer_overruns}
use kdb_solace.Wire.Trace.Safety.{Trace-Accounted}
use kdb_solace.Wire.Trace.{System, Trace, start, write, drop, look, take}
use kdb_solace.Events.{
  event_list, Header, make_message_list, Session, is_down, into_feed, write_serialized,
  write_message, receive_callback, message_receive_callback,
}
use kdb_solace.Events.Arrivals.{event_text, event_callback-write}
use kdb_solace.Events.Runs.{
  Receiver, Serializes, kept_as, kept, kept_message, Run, begin, event, message, looks, takes,
}

into_feed-inverse :
    (s : Session) (r : Outcome Feed) (s' : Session)
    → into_feed s r ≡ done s'
    → (g : Feed) × (r ≡ done g) × (s'.feed ≡ g)
into_feed-inverse s (done g) s' e = (g, refl, ground (arith, e))
into_feed-inverse s _ s' e = absurd cc

counted-inverse :
    (s : Session) (r : Outcome Feed) (rc : ℤ) (s' : Session)
    → and_then {B = ℤ × Session}
        (into_feed s r)
        (λ s'. done (solclient_ok, record s' { msg_recv = increment s'.msg_recv }))
      ≡ done (rc, s')
    → (g : Feed) × (r ≡ done g) × (s'.feed ≡ g)
counted-inverse s (done g) rc s' e = (g, refl, ground (arith, e))
counted-inverse s _ rc s' e = absurd cc

done-ne-fault : (g : Feed) → done g ≢ fault
done-ne-fault g e = cc

module _ (b9 : K → Option Bytes) (d9 : Bytes → K) (clock : ℕ → Timespec)
    (float_of_uint64 float_of_double : ℕ → ℕ) where
  abbrev system : Receiver → System
  system r = record { feed = r.session.feed; looked = r.looked }

  -- The messages of a run of the two threads that are read as these lists.
  pub record Follows (f : Feed) (y : System) (told : List K) : Type 0 where
    pub sent : List Bytes
    pub trace : Trace d9 clock f y sent
    pub reads : map d9 sent ≡ told

  -- What a call of `write_to_buffer` has got past in a run, `msgbuff` could take.
  copied :
      (f : Feed) (y : System) {sent : List Bytes} (bytes : Bytes) (g : Feed)
      → Holds f []
      → Trace d9 clock f y sent
      → write_to_buffer y.feed bytes ≡ done g
      → length bytes + 8 ≤ buffer_size
  copied f y bytes g h0 trace writes =
      let size = (Trace-Accounted d9 clock f h0 trace).holds.msgbuff in
      elim (le_cases (length bytes + 8) buffer_size) [
        | inl fits ↦ fits
        | inr over ↦
            absurd (done-ne-fault g (sym writes ∙ write_to_buffer_overruns y.feed bytes size over))
      ]

  serialized-Follows :
      (f : Feed) (y : System) (told : List K) (x : K) (g : Feed) (bytes : Bytes)
      → Serializes b9 d9
      → Holds f []
      → Follows f y told
      → x ≡ list (fields x)
      → b9 x ≡ some bytes
      → write_to_buffer y.feed bytes ≡ done g
      → Follows f (record y { feed = g }) (told ++ kept b9 x)
  serialized-Follows f y told x g bytes ok h0 h listed gives writes =
      elim (le_cases max_msg_size (length bytes)) [
        | inl big ↦
            let dropped : kept b9 x ≡ [] =
              ap (kept_as b9 x) gives
              ∙ ap (λ b. if b then [] else x ∷ []) (le→leb max_msg_size (length bytes) big) in
            record {
              sent = h.sent;
              trace = drop bytes g h.trace big (copied f y bytes g h0 h.trace writes) writes;
              reads = h.reads ∙ sym (append-nil told) ∙ ap (λ l. told ++ l) (sym dropped);
            }
        | inr small ↦
            let accepted : kept b9 x ≡ x ∷ [] =
              ap (kept_as b9 x) gives
              ∙ ap (λ b. if b then [] else x ∷ []) (lt→leb max_msg_size (length bytes) small) in
            let reads = ok.reads gives in
            let readable : IsReadable d9 clock bytes = record {
              small = record { some_bytes = ok.some_bytes gives; below = small };
              is_list = reads ∙ listed ∙ ap (λ y. list (fields y)) (sym reads);
            } in
            record {
              sent = h.sent ++ (bytes ∷ []);
              trace = write bytes g h.trace readable writes;
              reads =
                  map-append d9 h.sent (bytes ∷ [])
                  ∙ ap₂ ◌++◌ h.reads (ap (λ y. y ∷ []) reads ∙ sym accepted);
            }
      ]

  -- A list that cannot be serialized changes nothing.
  nothing-Follows :
      (f : Feed) (y : System) (told : List K) (x : K) (g : Feed)
      → b9 x ≡ none
      → Follows f y told
      → g ≡ y.feed
      → Follows f (record y { feed = g }) (told ++ kept b9 x)
  nothing-Follows f y told x g gives h same = record {
    sent = h.sent;
    trace = subst (λ g. Trace d9 clock f (record y { feed = g }) h.sent) (sym same) h.trace;
    reads = h.reads ∙ sym (append-nil told) ∙ ap (λ o. told ++ kept_as b9 x o) (sym gives);
  }

  write-Follows :
      (f : Feed) (s : Session) (q : Option ℤ) (told : List K) (x : K) (s' : Session)
      → Serializes b9 d9
      → Holds f []
      → Follows f (record { feed = s.feed; looked = q }) told
      → x ≡ list (fields x)
      → write_serialized s (b9 x) ≡ done s'
      → Follows f (record { feed = s'.feed; looked = q }) (told ++ kept b9 x)
  write-Follows f s q told x s' ok h0 h listed e = by_bytes (b9 x) refl e
    where
      by_bytes :
          (o : Option Bytes)
          → b9 x ≡ o
          → write_serialized s o ≡ done s'
          → Follows f (record { feed = s'.feed; looked = q }) (told ++ kept b9 x)
      by_bytes none gives e =
          nothing-Follows f (record { feed = s.feed; looked = q }) told x s'.feed gives h
            (ground (arith, e))
      by_bytes (some bytes) gives e =
          let (g, writes, same) = into_feed-inverse s (write_to_buffer s.feed bytes) s' e in
          subst (λ g. Follows f (record { feed = g; looked = q }) (told ++ kept b9 x)) (sym same)
            (serialized-Follows f (record { feed = s.feed; looked = q }) told x g bytes ok h0 h
              listed gives writes)

  message-Follows :
      (f : Feed) (s : Session) (q : Option ℤ) (told : List K) (x : K) (rc : ℤ) (s' : Session)
      → Serializes b9 d9
      → Holds f []
      → Follows f (record { feed = s.feed; looked = q }) told
      → x ≡ list (fields x)
      → write_message s (b9 x) ≡ done (rc, s')
      → Follows f (record { feed = s'.feed; looked = q }) (told ++ kept b9 x)
  message-Follows f s q told x rc s' ok h0 h listed e = by_bytes (b9 x) refl e
    where
      by_bytes :
          (o : Option Bytes)
          → b9 x ≡ o
          → write_message s o ≡ done (rc, s')
          → Follows f (record { feed = s'.feed; looked = q }) (told ++ kept b9 x)
      by_bytes none gives e =
          nothing-Follows f (record { feed = s.feed; looked = q }) told x s'.feed gives h
            (ground (arith, e))
      by_bytes (some bytes) gives e =
          let (g, writes, same) = counted-inverse s (write_to_buffer s.feed bytes) rc s' e in
          subst (λ g. Follows f (record { feed = g; looked = q }) (told ++ kept b9 x)) (sym same)
            (serialized-Follows f (record { feed = s.feed; looked = q }) told x g bytes ok h0 h
              listed gives writes)

  received-Follows :
      (f : Feed) (s : Session) (q : Option ℤ) (told : List K) (m : Header) (x : Option K)
      (now : Timespec) (rc : ℤ) (s' : Session)
      → Serializes b9 d9
      → Holds f []
      → Follows f (record { feed = s.feed; looked = q }) told
      → receive_callback b9 s m x now ≡ done (rc, s')
      → Follows f (record { feed = s'.feed; looked = q }) (told ++ kept_message b9 s m x now)
  unfolding receive_callback make_message_list
  received-Follows f s q told m none now rc s' ok h0 h e = record {
    sent = h.sent;
    trace =
        subst (λ g. Trace d9 clock f (record { feed = g; looked = q }) h.sent) (ground (arith, e))
          h.trace;
    reads = h.reads ∙ sym (append-nil told);
  }
  received-Follows f s q told m (some x) now rc s' ok h0 h e =
      message-Follows f s q told (make_message_list m x s.msg_recv now) rc s' ok h0 h refl e

  -- Every run of events, messages and callbacks is one of `write_to_buffer` and `callback`.
  pub Run-Follows :
      (s0 : Session) {r : Receiver} {told : List K}
      → Serializes b9 d9
      → Holds s0.feed []
      → Run b9 d9 clock float_of_uint64 float_of_double s0 r told
      → Follows s0.feed (system r) told
  unfolding message_receive_callback
  Run-Follows s0 ok h0 begin = record { sent = []; trace = start; reads = refl }
  Run-Follows s0 ok h0 (event {r} {told} e last name ts s run result) =
      write-Follows s0.feed
        (record r.session { initiated = if is_down e then false else r.session.initiated }) r.looked
        told (event_list r.session.msg_recv ts (event_text e last name)) s ok h0
        (Run-Follows s0 ok h0 run) refl
        (sym (event_callback-write b9 r.session e last name ts) ∙ result)
  Run-Follows s0 ok h0 (message {r} {told} m rest got a now rc s run result) =
      received-Follows s0.feed r.session r.looked told m
        (decode_from_solace float_of_uint64 float_of_double rest got a) now rc s ok h0
        (Run-Follows s0 ok h0 run) result
  Run-Follows s0 ok h0 (looks g q run free e) =
      let h = Run-Follows s0 ok h0 run in
      record { sent = h.sent; trace = look g q h.trace free e; reads = h.reads }
  Run-Follows s0 ok h0 (takes g q run under e) =
      let h = Run-Follows s0 ok h0 run in
      record { sent = h.sent; trace = take g q h.trace under e; reads = h.reads }
