-- ===== src/System/Phases.antt =====
-- The connection as q and the Solace thread see it: there is none, `init` is at work, or there is one.
pub mod Session
pub mod Acts
use kdb_solace.Base.{ℕ, ◌≡◌, ◌≢◌, sym, subst, Bool, true, false, ℤ}
use kdb_solace.Kdb.{K}
use kdb_solace.Client.{noinit, nonconnected, alreadyinit, return_code, Reply, nothing, error}
use kdb_solace.Events.{Event, down_error, is_down}
use kdb_solace.Api.{Api}
use kdb_solace.System.{
  System, Act, starts, ends, disconnects, subscribes, unsubscribes, publishes, sets_level, event,
}

pub data Phase : Type 0 where
  off starting on : Phase

-- By `initiated`, and by whether `init` has connected and not yet ended.
unfoldable pub phase : Bool → Bool → Phase
phase true connecting = on
phase false true = starting
phase false false = off

module _ (api : Api) where
  abbrev pub phase_of : System api → Phase
  phase_of s = phase s.client.initiated s.connecting

  -- Which act may lead from which phase to which one, with which reply.
  pub data Step : Phase → Act api → Reply → Phase → Type 0 where
    refuses_init : {x : K} → Step on (starts x) (error alreadyinit) on
    cannot_connect : {x : K} {r : Reply} → r ≢ nothing → Step off (starts x) r off
    connects : {x : K} → Step off (starts x) nothing starting
    completes : Step starting ends nothing on
    no_connection : Step off disconnects (error nonconnected) off
    cannot_disconnect : {rc : ℤ} → Step on disconnects (error (return_code rc)) on
    leaves : {r : Reply} → Step on disconnects r off
    no_subscribe :
        {x : K} {now : ℕ} {got : Bool} → Step off (subscribes x now got) (error noinit) off
    no_unsubscribe : {x : K} {now : ℕ} → Step off (unsubscribes x now) (error noinit) off
    no_publish : {x y : K} → Step off (publishes x y) (error noinit) off
    may_subscribe : {x : K} {now : ℕ} {got : Bool} {r : Reply} → Step on (subscribes x now got) r on
    may_unsubscribe : {x : K} {now : ℕ} {r : Reply} → Step on (unsubscribes x now) r on
    may_publish : {x y : K} {r : Reply} → Step on (publishes x y) r on
    sets : {p : Phase} {x : K} {r : Reply} → Step p (sets_level x) r p
    loses : Step on (event down_error) nothing off
    has_lost : Step off (event down_error) nothing off
    forgets_loss : Step starting (event down_error) nothing starting
    tells : {p : Phase} {e : Event} → is_down e ≡ false → Step p (event e) nothing p

  -- `init` at work has cleared `initiated`.
  abbrev pub IsTidy : System api → Type 0
  IsTidy s = s.connecting ≡ true → s.client.initiated ≡ false

  -- An act has led along an edge.
  pub record Goes (s : System api) (a : Act api) (out : System api × Reply) : Type 0 where
    pub edge : Step (phase_of s) a out.1 (phase_of out.0)
    pub tidy : IsTidy out.0

  pub goes :
      {p q : Phase} (s : System api) (a : Act api) (out : System api × Reply)
      → phase_of s ≡ p
      → phase_of out.0 ≡ q
      → IsTidy out.0
      → Step p a out.1 q
      → Goes s a out
  goes {p} {q} s a out from to tidy e = record {
    edge =
        subst (λ p. Step p a out.1 (phase_of out.0)) (sym from)
          (subst (λ q. Step p a out.1 q) (sym to) e);
    tidy = tidy;
  }
