-- ===== src/System/Sound.antt =====
-- What holds of the library's state in every run, and what follows for the strings of the topics.
use kdb_solace.Base.{
  ℕ, zero, suc, ◌≡◌, ◌≢◌, refl, sym, ap, ◌∙◌, subst, true, false, not, List, [], ◌∷◌, some, length,
  arith, Bool-cases, if_elim, inl, inr,
}
use kdb_solace.Kdb.{K, dict}
use kdb_solace.Solclient.{is_ok}
use kdb_solace.Client.{alreadyinit, Reply, error, fault, Slot, freed, live, TopicIndex}
use kdb_solace.Kopts.{Kopts}
use kdb_solace.Options.{setup_schema, config_opts}
use kdb_solace.Props.{prop_count}
use kdb_solace.Wire.{setup_socket}
use kdb_solace.Topics.{max_topic_count, rows_from}
use kdb_solace.Topics.Rows.{Rows, IsValid}
use kdb_solace.Topics.Find.{rows_cons}
use kdb_solace.Api.{Api}
use kdb_solace.Connect.{connect_to_solace}
use kdb_solace.Connect.Codes.{connect_to_solace-Unfinished}
use kdb_solace.System.{
  free_topics, System, feedreset, no_topics, after_connect, configured, with_dict, init_start,
  freed_topics, sessiondisconnect,
}

module _ (api : Api) where
  -- The arrays have their sizes.
  pub record IsSized (t : TopicIndex) : Type 0 where
    pub topics : length t.topics ≡ max_topic_count
    pub subscribed : length t.subscribed ≡ max_topic_count
    pub unsubscribed : length t.unsubscribed ≡ max_topic_count

  abbrev pub HasRows : TopicIndex → Type 0
  HasRows t = (rows : Rows) × IsValid t rows

  -- On a connection, and while one is made, the index is valid.
  pub record IsSound (s : System api) : Type 0 where
    pub sized : IsSized s.client.index
    pub on : s.client.initiated ≡ true → HasRows s.client.index
    pub made : s.connecting ≡ true → HasRows s.client.index
    pub props : length s.props ≡ prop_count

  pub HasRows-IsSized : (t : TopicIndex) → HasRows t → IsSized t
  HasRows-IsSized t (rows, v) = record {
    topics = v.topics;
    subscribed = v.subscribed;
    unsubscribed = v.unsubscribed;
  }

  no_rows : (t : TopicIndex) → IsSized t → t.size ≡ 0 → HasRows t
  unfolding rows_from
  no_rows t z e = (
    [],
    record {
      read = rw e refl;
      in_use = omega arith;
      topics = z.topics;
      unsubscribed = z.unsubscribed;
      subscribed = z.subscribed;
      distinct = tt;
    },
  )

  -- An index without topics, as `init` leaves it.
  record IsFresh (s : System api) : Type 0 where
    pub sized : IsSized s.client.index
    pub empty : s.client.index.size ≡ 0
    pub props : length s.props ≡ prop_count

  IsFresh-IsSound : (s : System api) → IsFresh s → IsSound s
  IsFresh-IsSound s f =
      let rows = no_rows s.client.index f.sized f.empty in
      record { sized = f.sized; on = λ _. rows; made = λ _. rows; props = f.props }

  after_connect-IsFresh :
      (s : System api) (o : Kopts)
      → IsFresh s
      → IsFresh (after_connect api s (connect_to_solace api o s.props s.client)).0
  after_connect-IsFresh s o f =
      let u = connect_to_solace-Unfinished api o s.props s.client in
      let (rc, (props, c)) = connect_to_solace api o s.props s.client in
      let sized : IsSized c.index = subst IsSized (sym u.index) f.sized in
      let empty : c.index.size ≡ 0 = ap (λ t. t.size) u.index ∙ f.empty in
      elim (Bool-cases (is_ok rc)) [
        | inl ok ↦ rw ok (record { sized = sized; empty = empty; props = u.size ∙ f.props })
        | inr bad ↦ rw bad (record { sized = sized; empty = empty; props = u.size ∙ f.props })
      ]

  configured-IsFresh :
      (s : System api) (q : Kopts × Reply) → IsFresh s → IsFresh (configured api s q).0
  configured-IsFresh s (o, fault) f = record { sized = f.sized; empty = f.empty; props = f.props }
  configured-IsFresh s (o, _) f =
      after_connect-IsFresh (record s { opts = o; feed = setup_socket s.feed }) o
        (record { sized = f.sized; empty = f.empty; props = f.props })

  with_dict-IsFresh : (s : System api) (x : K) → IsFresh s → IsFresh (with_dict api s x).0
  with_dict-IsFresh s (dict k v) f = configured-IsFresh s (config_opts s.opts (dict k v)) f
  with_dict-IsFresh s _ f = f

  pub init_start-IsSound : (s : System api) (x : K) → IsSound s → IsSound (init_start api s x).0
  unfolding init_start feedreset no_topics setup_schema
  init_start-IsSound s x h =
      let (o, x') = setup_schema s.opts x in
      let s1 : System api = record (no_topics api (feedreset api s)) { opts = o } in
      let sized : IsSized s1.client.index = record {
        topics = h.sized.topics;
        subscribed = h.sized.subscribed;
        unsubscribed = h.sized.unsubscribed;
      } in
      let fresh : IsFresh s1 = record { sized = sized; empty = refl; props = h.props } in
      if_elim (λ out. IsSound out.0) s.client.initiated (s, error alreadyinit) (with_dict api s1 x')
        (λ on. h) (λ off. IsFresh-IsSound (with_dict api s1 x').0 (with_dict-IsFresh s1 x' fresh))

  -- The strings of valid rows can be freed, each once.
  free_topics-rows :
      (slots : List Slot) (times : List ℕ) (n : ℕ) (rows : Rows)
      → rows_from slots times n ≡ some rows
      → (rest : List Slot) × (free_topics slots n ≡ some rest) × (length rest ≡ length slots)
  unfolding free_topics
  free_topics-rows slots times zero rows e = (slots, refl, refl)
  free_topics-rows (live s ∷ slots) (u ∷ times) (suc n) rows e =
      let (rs, e', same) = rows_cons s slots u times n rows e in
      let (rest, good, size) = free_topics-rows slots times n rs e' in
      (freed ∷ rest, rw good refl, ap suc size)
  free_topics-rows _ _ (suc n) rows e = unfold rows_from in absurd cc

  -- A sound state and no fault.
  abbrev pub IsFine : System api × Reply → Type 0
  IsFine (s, r) = IsSound s × (r ≢ fault)

  freed_topics-IsFine :
      (s : System api) (rest : List Slot)
      → IsSound s
      → s.client.initiated ≡ false
      → s.connecting ≡ false
      → length rest ≡ length s.client.index.topics
      → IsFine (freed_topics api s (some rest))
  freed_topics-IsFine s rest h off quiet size = (
    record {
      sized = record {
        topics = size ∙ h.sized.topics;
        subscribed = h.sized.subscribed;
        unsubscribed = h.sized.unsubscribed;
      };
      on = λ on. absurd (cc (on, off));
      made = λ made. absurd (cc (made, quiet));
      props = h.props;
    },
    λ e. cc,
  )

  pub sessiondisconnect-IsFine :
      (s : System api) → IsSound s → s.connecting ≡ false → IsFine (sessiondisconnect api s)
  unfolding sessiondisconnect
  sessiondisconnect-IsFine s h quiet =
      let (rc, w) = api.session_disconnect s.client.world in
      let s' : System api = record s {
        client = record s.client { initiated = false; rc = rc; world = w };
      } in
      if_elim IsFine (not s.client.initiated) _ _ (λ off. (h, λ e. cc))
        λ on.
          let (rows, v) = h.on (ground (arith, on)) in
          let (rest, good, size) =
            free_topics-rows s.client.index.topics s.client.index.unsubscribed s.client.index.size
              rows v.read in
          if_elim IsFine (is_ok rc) _ _
            (λ ok. rw good (
              freed_topics-IsFine s' rest
                (record { sized = h.sized; on = λ e. cc; made = h.made; props = h.props }) refl
                quiet size))
            (λ bad.
              (record { sized = h.sized; on = h.on; made = h.made; props = h.props }, λ e. cc))
