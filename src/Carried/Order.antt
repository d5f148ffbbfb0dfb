-- ===== src/Carried/Order.antt =====
-- Many messages: what one process publishes by `publishtosolace`, call by call, against what q is called
-- with in a run of another process (src/solace.c, src/solace_k.c).
mod Tests
use mathlib.Core.List.{map-append, Sublist, sublist-append_left}
use mathlib.Core.List.Sublist
use kdb_solace.Base.{
  ℕ, ◌≡◌, ◌≢◌, refl, sym, ap, ap₂, subst, ◌∙◌, true, false, Option, some, List, [], ◌∷◌, ◌++◌, map,
  append-nil, append_assoc,
}
use kdb_solace.Memory.{Bytes}
use kdb_solace.Kdb.{K, list, nil, Timespec}
use kdb_solace.Client.{Reply, nothing}
use kdb_solace.Field.{Field, stream_of}
use kdb_solace.Topics.{is_text, topic_name}
use kdb_solace.Message.{Messages}
use kdb_solace.Publish.{is_atom, Publisher, publish}
use kdb_solace.Wire.Deliver.{Holds}
use kdb_solace.Wire.Trace.{flatten}
use kdb_solace.Events.{Session}
use kdb_solace.Events.Runs.{Receiver, Serializes}
use kdb_solace.Events.Told.{stamped, Run-stamped}
use kdb_solace.Carried.Store.{Store}
use kdb_solace.Carried.Sent.{Contained, IsSendable, message_fields, arrived_message}
use kdb_solace.Carried.Publish.{Post, publish-sends}
use kdb_solace.Carried.Payloads.{
  body_of, payloads, payloads-append, bodies, Runs, AllSendable, payloads-Sublist,
}

-- A call of `publishtosolace`.
pub record Call : Type 0 where
  pub topic : K
  pub object : K

-- It is for a char vector, and of what can be sent, is no atom and is no empty general list; and what is
-- in it fits into containers of 1024 bytes, when a container takes as many as `bytes` says.
pub record IsPublishable (bytes : Field → ℕ) (c : Call) : Type 0 where
  pub text : is_text c.topic ≡ true
  pub no_atom : is_atom c.object ≡ false
  pub sendable : IsSendable c.object
  pub some_elements : c.object ≢ list nil
  pub contained : Contained bytes c.object

abbrev pub ArePublishable : (Field → ℕ) → List Call → Type 0
ArePublishable bytes [] = Unit {0}
ArePublishable bytes (c ∷ calls) = IsPublishable bytes c × ArePublishable bytes calls

AllSendable-object :
    (bytes : Field → ℕ) (calls : List Call)
    → ArePublishable bytes calls
    → AllSendable (map (λ c. c.object) calls)
AllSendable-object bytes [] all = tt
AllSendable-object bytes (c ∷ calls) (ok, all) = (ok.sendable, AllSendable-object bytes calls all)

-- The message that a call sends.
abbrev pub post_of : Call → Bytes × Field
post_of c = (topic_name c.topic, stream_of (message_fields c.object))

abbrev pub given : Bytes × Field → Option Field
given m = some m.1

given-post_of :
    (calls : List Call) → map given (map post_of calls) ≡ map body_of (map (λ c. c.object) calls)
given-post_of [] = refl
given-post_of (c ∷ calls) = ap (λ l. body_of c.object ∷ l) (given-post_of calls)

arrived-object :
    (f : ℕ → ℕ) (calls : List Call)
    → map (arrived_message f) (map (λ c. c.object) calls)
      ≡ map (λ c. arrived_message f c.object) calls
arrived-object f [] = refl
arrived-object f (c ∷ calls) = ap (λ l. arrived_message f c.object ∷ l) (arrived-object f calls)

module _ (api : Messages) where
  abbrev pub publish_all : Publisher api → List Call → Publisher api × List Reply
  publish_all p [] = (p, [])
  publish_all p (c ∷ calls) =
      let (p', reply) = publish api p c.topic c.object in
      let (p'', replies) = publish_all p' calls in (p'', reply ∷ replies)

  module _ (store : Store api.containers) (post : Post api store) where
    -- The messages of one call after the other are sent in the order of the calls.
    pub publish_all-sends :
        (p : Publisher api) (calls : List Call)
        → p.initiated ≡ true
        → ArePublishable store.bytes calls
        → (p' : Publisher api) × (publish_all p calls ≡ (p', map (λ c. nothing) calls))
          × (post.sent p'.state.world ≡ post.sent p.state.world ++ map post_of calls)
    publish_all-sends p [] on all = (p, refl, sym (append-nil (post.sent p.state.world)))
    publish_all-sends p (c ∷ calls) on (ok, all) =
        let (p1, one, on1, count, log1) =
          publish-sends api store post p c.topic c.object on ok.text ok.no_atom ok.sendable
            ok.some_elements ok.contained in
        let (p2, more, log2) = publish_all-sends p1 calls on1 all in
        (
          p2,
          ap {A = Publisher api × Reply} (λ o. let q = publish_all o.0 calls in (q.0, o.1 ∷ q.1))
                one
              ∙ ap {A = Publisher api × List Reply} (λ q. (q.0, nothing ∷ q.1)) more,
          log2
              ∙ ap (λ l. l ++ map post_of calls) log1
              ∙ append_assoc (post.sent p.state.world) (post_of c ∷ []) (map post_of calls),
        )

    -- One process publishes, on a connection and in several calls, to char vectors, what can be sent, is no
    -- atom and is no empty general list. Each list and dictionary in it takes at most the 1024 bytes that the
    -- code has for it, and the client library takes the calls, as it is documented to do when the names
    -- suit, the memory suffices and the session takes messages. Then the calls answer without an error, and
    -- the messages are sent in the order of the calls. Another process gets messages with their bodies, in
    -- that order, in a run of messages, events and callbacks from an empty queue. Every call in the run has
    -- returned, one of `write_to_buffer` is one step, and so are `callback` up to `cb_size` and `callback`
    -- from there on. Then the messages that q has been called with there are, in order, some of the
    -- published objects, each as what it arrives as: none is there twice, none is changed and none is
    -- overtaken. What `b9` gives has a byte at least, and `d9` reads it back.
    pub payloads-publish_all :
        (b9 : K → Option Bytes) (d9 : Bytes → K) (clock : ℕ → Timespec)
        (float_of_uint64 float_of_double : ℕ → ℕ) (p : Publisher api) (calls : List Call)
        (s0 : Session) {r : Receiver} {told : List K}
        (run : Runs b9 d9 clock float_of_uint64 float_of_double s0 r told)
        → p.initiated ≡ true
        → ArePublishable store.bytes calls
        → Serializes b9 d9
        → Holds s0.feed []
        → bodies b9 d9 clock float_of_uint64 float_of_double run ≡ map given (map post_of calls)
        → (p' : Publisher api) × (handed : List (List K)) × (publish_all p calls
            ≡ (p', map (λ c. nothing) calls))
          × (post.sent p'.state.world ≡ post.sent p.state.world ++ map post_of calls)
          × (r.session.feed.batches ≡ s0.feed.batches ++ map (stamped clock) handed)
          × Sublist
              (payloads (flatten handed))
              (map (λ c. arrived_message float_of_double c.object) calls)
    payloads-publish_all b9 d9 clock float_of_uint64 float_of_double p calls s0 {r} {told} run on
          all ok h same =
        let (p', replies, log) = publish_all-sends p calls on all in
        let (handed, waiting, order, batches) =
          Run-stamped clock d9 b9 float_of_uint64 float_of_double s0 ok h run in
        let objects = map (λ c. c.object) calls in
        let part : Sublist (payloads told) (map (arrived_message float_of_double) objects) =
          payloads-Sublist b9 d9 clock float_of_uint64 float_of_double run objects
            (same ∙ given-post_of calls) (AllSendable-object store.bytes calls all) in
        let first : Sublist (payloads (flatten handed)) (payloads told) =
          subst (λ l. Sublist (payloads (flatten handed)) l)
            (sym (payloads-append (flatten handed) waiting) ∙ ap payloads (sym order))
            (sublist-append_left (payloads (flatten handed)) (payloads waiting)) in
        (
          p',
          handed,
          replies,
          log,
          batches,
          subst (Sublist (payloads (flatten handed))) (arrived-object float_of_double calls)
              (Sublist.trans first part),
        )
