-- ===== src/System/Phases/Acts.antt =====
-- Every act of q and every event of the Solace thread, by the phase it meets.
use kdb_solace.Base.{◌≡◌, refl, sym, ap, ap₂, ◌∙◌, subst, false, Bool-cases, inl, inr}
use kdb_solace.Kdb.{K}
use kdb_solace.Client.{noinit, Reply, error}
use kdb_solace.Topics.{subscribe, unsubscribe}
use kdb_solace.Events.{Event, down_error}
use kdb_solace.Publish.{publish}
use kdb_solace.Api.{Api, solclient_of}
use kdb_solace.System.{
  System, init_end, on_client, publisher_of, on_publisher, Act, starts, ends, disconnects,
  subscribes, unsubscribes, publishes, sets_level, event, act, Enabled,
}
use kdb_solace.System.Calls.{
  subscribe-noinit, unsubscribe-noinit, subscribe-initiated, unsubscribe-initiated,
}
use kdb_solace.System.Runs.{Reach, here, next, IsStart}
use kdb_solace.System.Phases.{
  off, on, phase, phase_of, Step, completes, no_subscribe, no_unsubscribe, no_publish,
  may_subscribe, may_unsubscribe, may_publish, sets, loses, has_lost, forgets_loss, tells, IsTidy,
  Goes, goes,
}
use kdb_solace.System.Phases.Session.{init_start-Goes, sessiondisconnect-Goes}

module _ (api : Api) where
  -- A call on the topics or a message to publish leaves the connection as it is.
  call-Goes :
      (s : System api) (a : Act api) (out : System api × Reply)
      → s.connecting ≡ false
      → out.0.client.initiated ≡ s.client.initiated
      → out.0.connecting ≡ s.connecting
      → (s.client.initiated ≡ false → Step api off a out.1 off)
      → Step api on a out.1 on
      → Goes api s a out
  unfolding phase
  call-Goes s a out quiet same_flag same_init if_off if_on = elim (Bool-cases s.client.initiated) [
    | inl is_on ↦
        goes api s a out (ap₂ phase is_on quiet) (ap₂ phase (same_flag ∙ is_on) (same_init ∙ quiet))
          (λ c. cc) if_on
    | inr is_off ↦
        goes api s a out (ap₂ phase is_off quiet)
          (ap₂ phase (same_flag ∙ is_off) (same_init ∙ quiet)) (λ c. same_flag ∙ is_off)
          (if_off is_off)
  ]

  publish-noinit :
      (s : System api) (x y : K)
      → s.client.initiated ≡ false
      → (publish api.messages (publisher_of api s) x y).1 ≡ error noinit
  unfolding publish
  publish-noinit s x y is_off = simp is_off

  event-Goes :
      (s : System api) (e : Event) → IsTidy api s → Goes api s (event e) (act api s (event e))
  unfolding act phase
  event-Goes s down_error tidy =
      let out = act api s (event down_error) in
      elim (Bool-cases s.connecting) [
        | inl busy ↦
            goes api s (event down_error) out (ap₂ phase (tidy busy) busy) (ap (phase false) busy)
              (λ c. refl) forgets_loss
        | inr quiet ↦ elim (Bool-cases s.client.initiated) [
          | inl is_on ↦
              goes api s (event down_error) out (ap₂ phase is_on quiet) (ap (phase false) quiet)
                (λ c. refl) loses
          | inr is_off ↦
              goes api s (event down_error) out (ap₂ phase is_off quiet) (ap (phase false) quiet)
                (λ c. refl) has_lost
        ]
      ]
  event-Goes s e tidy = goes api s (event e) (act api s (event e)) refl refl tidy (tells refl)

  act-Goes :
      (s : System api) (a : Act api) → IsTidy api s → Enabled api s a → Goes api s a (act api s a)
  unfolding act init_end phase
  act-Goes s (starts x) tidy quiet = init_start-Goes api s x quiet
  act-Goes s ends tidy busy =
      goes api s ends (init_end api s) (ap₂ phase (tidy busy) busy) refl (λ c. cc) completes
  act-Goes s disconnects tidy quiet = sessiondisconnect-Goes api s quiet
  act-Goes s (subscribes x now got) tidy quiet =
      let out = subscribe (solclient_of api) s.client x now got in
      call-Goes s (subscribes x now got) (on_client api s out) quiet
        (subscribe-initiated (solclient_of api) s.client x now got) refl
        (λ is_off. rw (subscribe-noinit (solclient_of api) s.client x now got is_off) no_subscribe)
        may_subscribe
  act-Goes s (unsubscribes x now) tidy (quiet, later) =
      let out = unsubscribe (solclient_of api) s.client x now in
      call-Goes s (unsubscribes x now) (on_client api s out) quiet
        (unsubscribe-initiated (solclient_of api) s.client x now) refl
        (λ is_off. rw (unsubscribe-noinit (solclient_of api) s.client x now is_off) no_unsubscribe)
        may_unsubscribe
  act-Goes s (publishes x y) tidy quiet =
      call-Goes s (publishes x y)
        (on_publisher api s (publish api.messages (publisher_of api s) x y)) quiet refl refl
        (λ is_off.
          subst (λ r. Step api off (publishes x y) r off) (sym (publish-noinit s x y is_off))
            no_publish)
        may_publish
  act-Goes s (sets_level x) tidy quiet =
      goes api s (sets_level x) (act api s (sets_level x)) refl refl tidy sets
  act-Goes s (event e) tidy ok = event-Goes s e tidy

  Reach-IsTidy : {s t : System api} → IsStart api s → Reach api s t → IsTidy api t
  Reach-IsTidy i here = λ c. absurd (cc (c, i.connecting))
  Reach-IsTidy i (next {t} r a ok) = (act-Goes t a (Reach-IsTidy i r) ok).tidy

  -- From the start of the program every act of q and every event leads along an edge of `Step`: without a
  -- connection calls are answered by `noinit` and `nonconnected`; `init` answers without an error if and
  -- only if it has connected, and on a connection it is refused; a connection that is made ends by
  -- `disconnect` or DOWN_ERROR only, and a DOWN_ERROR before the end of `init` is forgotten.
  pub act-Step :
      {s t : System api} (a : Act api)
      → IsStart api s
      → Reach api s t
      → Enabled api t a
      → (phase_of api s ≡ off)
        × Step api (phase_of api t) a (act api t a).1 (phase_of api (act api t a).0)
  unfolding phase
  act-Step {s} {t} a i r ok =
      (ap₂ phase i.initiated i.connecting, (act-Goes t a (Reach-IsTidy i r) ok).edge)
