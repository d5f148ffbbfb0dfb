-- ===== src/System/Phases/Session.antt =====
-- `init` and `sessiondisconnect` of src/solace_k.c on the way from one phase to another.
use kdb_solace.Base.{
  ◌≡◌, ◌≢◌, ◌⊎◌, refl, sym, ap₂, subst, true, false, not, List, Option, none, some, if_elim, arith,
  inl, inr,
}
use kdb_solace.Kdb.{K, dict}
use kdb_solace.Solclient.{is_ok}
use kdb_solace.Client.{nonconnected, alreadyinit, Reply, nothing, error, fault}
use kdb_solace.Kopts.{Kopts}
use kdb_solace.Options.{setup_schema, config_opts}
use kdb_solace.Wire.{setup_socket}
use kdb_solace.Api.{Api}
use kdb_solace.Connect.{connect_to_solace}
use kdb_solace.Connect.Codes.{connect_to_solace-Unfinished}
use kdb_solace.System.{
  free_topics, System, feedreset, no_topics, after_connect, configured, with_dict, init_start,
  freed_topics, sessiondisconnect, starts, disconnects,
}
use kdb_solace.System.Phases.{
  off, starting, on, phase, phase_of, Step, refuses_init, cannot_connect, connects, no_connection,
  cannot_disconnect, leaves, Goes, goes,
}

module _ (api : Api) where
  -- What `init` has done behind its first test.
  record Tried (out : System api × Reply) : Type 0 where
    pub initiated : out.0.client.initiated ≡ false
    pub result :
        ((out.0.connecting ≡ true) × (out.1 ≡ nothing))
        ⊎ ((out.0.connecting ≡ false) × (out.1 ≢ nothing))

  after_connect-Tried :
      (s : System api) (o : Kopts)
      → s.connecting ≡ false
      → Tried (after_connect api s (connect_to_solace api o s.props s.client))
  after_connect-Tried s o quiet =
      let u = connect_to_solace-Unfinished api o s.props s.client in
      let (rc, (props, c)) = connect_to_solace api o s.props s.client in
      if_elim Tried (is_ok rc) _ _
        (λ ok. record { initiated = u.initiated; result = inl (refl, refl) })
        (λ bad. record { initiated = u.initiated; result = inr (quiet, λ e. cc) })

  configured-Tried :
      (s : System api) (q : Kopts × Reply)
      → s.client.initiated ≡ false
      → s.connecting ≡ false
      → Tried (configured api s q)
  configured-Tried s (o, fault) idle quiet = record {
    initiated = idle;
    result = inr (quiet, λ e. cc);
  }
  configured-Tried s (o, _) idle quiet =
      after_connect-Tried (record s { opts = o; feed = setup_socket s.feed }) o quiet

  with_dict-Tried :
      (s : System api) (x : K)
      → s.client.initiated ≡ false
      → s.connecting ≡ false
      → Tried (with_dict api s x)
  with_dict-Tried s (dict k v) idle quiet =
      configured-Tried s (config_opts s.opts (dict k v)) idle quiet
  with_dict-Tried s _ idle quiet = record { initiated = idle; result = inr (quiet, λ e. cc) }

  Tried-Goes :
      (s : System api) (x : K) (out : System api × Reply)
      → phase_of api s ≡ off
      → Tried out
      → Goes api s (starts x) out
  unfolding phase
  Tried-Goes s x out from t = elim t.result [
    | inl (busy, quiet) ↦
        goes api s (starts x) out from (ap₂ phase t.initiated busy) (λ c. t.initiated)
          (subst (λ r. Step api off (starts x) r starting) (sym quiet) connects)
    | inr (quiet, bad) ↦
        goes api s (starts x) out from (ap₂ phase t.initiated quiet) (λ c. t.initiated)
          (cannot_connect bad)
  ]

  pub init_start-Goes :
      (s : System api) (x : K) → s.connecting ≡ false → Goes api s (starts x) (init_start api s x)
  unfolding init_start feedreset no_topics setup_schema phase
  init_start-Goes s x quiet =
      let (o, x') = setup_schema s.opts x in
      let s1 : System api = record (no_topics api (feedreset api s)) { opts = o } in
      if_elim (Goes api s (starts x)) s.client.initiated (s, error alreadyinit)
        (with_dict api s1 x')
        (λ is_on.
          goes api s (starts x) (s, error alreadyinit) (ap₂ phase is_on quiet)
            (ap₂ phase is_on quiet) (λ c. cc) refuses_init)
        (λ is_off.
          Tried-Goes s x (with_dict api s1 x') (ap₂ phase is_off quiet)
            (with_dict-Tried s1 x' is_off quiet))

  freed_topics-Goes :
      (s s' : System api) (rest : Option (List _))
      → phase_of api s ≡ on
      → s'.client.initiated ≡ false
      → s'.connecting ≡ false
      → Goes api s disconnects (freed_topics api s' rest)
  unfolding phase
  freed_topics-Goes s s' none from idle quiet =
      goes api s disconnects (s', fault) from (ap₂ phase idle quiet) (λ c. idle) leaves
  freed_topics-Goes s s' (some rest) from idle quiet =
      goes api s disconnects (freed_topics api s' (some rest)) from (ap₂ phase idle quiet)
        (λ c. idle) leaves

  pub sessiondisconnect-Goes :
      (s : System api) → s.connecting ≡ false → Goes api s disconnects (sessiondisconnect api s)
  unfolding sessiondisconnect phase
  sessiondisconnect-Goes s quiet =
      let (rc, w) = api.session_disconnect s.client.world in
      let s' : System api = record s {
        client = record s.client { initiated = false; rc = rc; world = w };
      } in
      if_elim (Goes api s disconnects) (not s.client.initiated) _ _
        (λ is_off.
          let idle : s.client.initiated ≡ false = ground (arith, is_off) in
          let from = ap₂ phase idle quiet in
          goes api {p = off} {q = off} s disconnects (s, error nonconnected) from from (λ c. cc)
            no_connection)
        λ is_on.
          let is_on' : s.client.initiated ≡ true = ground (arith, is_on) in
          if_elim (Goes api s disconnects) (is_ok rc) _ _
            (λ ok.
              freed_topics-Goes s s' (free_topics s.client.index.topics s.client.index.size)
                (ap₂ phase is_on' quiet) refl quiet)
            (λ bad.
              goes api {p = on} {q = on} s disconnects _ (ap₂ phase is_on' quiet)
                (ap₂ phase is_on' quiet) (λ c. cc) cannot_disconnect)
