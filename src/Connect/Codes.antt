-- ===== src/Connect/Codes.antt =====
-- What the code of `connectToSolace` of src/solace.c says of the calls it made.
use kdb_solace.Base.{
  ◌≡◌, refl, ap, subst, sym, ◌∙◌, Bool, true, false, List, ℤ, length, Bool-cases, inl, inr,
  if◌then◌else◌, arith,
}
use kdb_solace.Solclient.{is_ok}
use kdb_solace.Client.{Client}
use kdb_solace.Kopts.{Kopts}
use kdb_solace.Props.{PropKey, Value, Pointer, prop_count, configure, read_props}
use kdb_solace.Props.Reads.{settings, read_props-configure, length-configure}
use kdb_solace.Api.{Api}
use kdb_solace.Connect.{
  World, receiver, connect_session, create_session, create_context, connect_to_solace,
}

module _ (api : Api) (o : Kopts) where
  open api use {
    initialize, set_filter_level, context_create, session_create, session_connect,
    session_disconnect, cleanup,
  }

  -- The four calls have succeeded, one after the other, the session with the settings `given`.
  pub record Connected (given : List (PropKey × Value)) (w w' : World api) : Type 0 where
    pub initialized : is_ok (initialize w).0 ≡ true
    pub context : ℤ × World api
    pub creates : context_create (set_filter_level o.loglevel (initialize w).1) ≡ context
    pub creates_ok : is_ok context.0 ≡ true
    pub session : ℤ × World api
    pub opens : session_create given (receiver o) context.1 ≡ session
    pub opens_ok : is_ok session.0 ≡ true
    pub connects_ok : is_ok (session_connect session.1).0 ≡ true
    pub world : w' ≡ (session_connect session.1).1

  -- A test on the way: it was passed if the code in the end is OK and giving up has another.
  passed :
      (b : Bool) (x y : ℤ × (List Pointer × Client (World api)))
      → is_ok y.0 ≡ false
      → is_ok (if b then x else y).0 ≡ true
      → (b ≡ true) × ((if b then x else y) ≡ x)
  passed true x y bad ok = (refl, refl)
  passed false x y bad ok = cc

  connect_session-passed :
      (props : List Pointer) (c : Client (World api))
      → is_ok (connect_session api props c).0 ≡ true
      → (is_ok (session_connect c.world).0 ≡ true)
        × ((connect_session api props c).1.1.world ≡ (session_connect c.world).1)
  unfolding connect_session
  connect_session-passed props c ok =
      let (yes', same) = passed (is_ok (session_connect c.world).0) _ _ refl ok in
      (yes', ap (λ r. r.1.1.world) same)

  create_session-passed :
      (props : List Pointer) (c : Client (World api))
      → is_ok (create_session api o props c).0 ≡ true
      → let session = session_create (read_props (configure o props)) (receiver o) c.world in
        (is_ok session.0 ≡ true)
        × (is_ok (session_connect session.1).0 ≡ true)
        × ((create_session api o props c).1.1.world ≡ (session_connect session.1).1)
  unfolding create_session
  create_session-passed props c ok =
      let session = session_create (read_props (configure o props)) (receiver o) c.world in
      let c' : Client (World api) = record c { rc = session.0; world = session.1 } in
      let (opened, same) =
        passed (is_ok session.0) (connect_session api (configure o props) c') _ refl ok in
      let rest =
        connect_session-passed (configure o props) c' (ap (λ r. is_ok r.0) (sym same) ∙ ok) in
      (opened, rest.0, ap (λ r. r.1.1.world) same ∙ rest.1)

  create_context-passed :
      (props : List Pointer) (c : Client (World api))
      → is_ok (create_context api o props c).0 ≡ true
      → let context = context_create (set_filter_level o.loglevel c.world) in
        let session = session_create (read_props (configure o props)) (receiver o) context.1 in
        (is_ok context.0 ≡ true)
        × (is_ok session.0 ≡ true)
        × (is_ok (session_connect session.1).0 ≡ true)
        × ((create_context api o props c).1.1.world ≡ (session_connect session.1).1)
  unfolding create_context
  create_context-passed props c ok =
      let context = context_create (set_filter_level o.loglevel c.world) in
      let c' : Client (World api) = record c { rc = context.0; world = context.1 } in
      let (created, same) = passed (is_ok context.0) (create_session api o props c') _ refl ok in
      let rest = create_session-passed props c' (ap (λ r. is_ok r.0) (sym same) ∙ ok) in
      (created, rest.0, rest.1, ap (λ r. r.1.1.world) same ∙ rest.2)

  -- If `connectToSolace` gives OK, each of its calls has.
  pub connect_to_solace-Connected :
      (props : List Pointer) (c : Client (World api))
      → length props ≡ prop_count
      → is_ok (connect_to_solace api o props c).0 ≡ true
      → Connected (settings o) c.world (connect_to_solace api o props c).1.1.world
  unfolding connect_to_solace
  connect_to_solace-Connected props c size ok =
      let c' : Client (World api) = record c {
        initiated = false;
        rc = (initialize c.world).0;
        world = (initialize c.world).1;
      } in
      elim (Bool-cases (is_ok (initialize c.world).0)) [
        | inl begun ↦
            let same : connect_to_solace api o props c ≡ create_context api o props c' =
              simp begun in
            let rest = create_context-passed props c' (ap (λ r. is_ok r.0) (sym same) ∙ ok) in
            subst (λ given. Connected given c.world (connect_to_solace api o props c).1.1.world)
              (read_props-configure o props size)
              (record {
                initialized = begun;
                context = context_create (set_filter_level o.loglevel (initialize c.world).1);
                creates = refl;
                creates_ok = rest.0;
                session =
                    session_create (read_props (configure o props)) (receiver o)
                      (context_create (set_filter_level o.loglevel (initialize c.world).1)).1;
                opens = refl;
                opens_ok = rest.1;
                connects_ok = rest.2;
                world = ap (λ r. r.1.1.world) same ∙ rest.3;
              })
        | inr bad ↦ absurd (ground (arith, bad, ok))
      ]

  -- Whatever the code, there is no connection yet, the topics are as they were, and the array has its size.
  pub record Unfinished (c : Client (World api)) (props : List Pointer)
      (out : ℤ × (List Pointer × Client (World api))) : Type 0 where
    pub initiated : out.1.1.initiated ≡ false
    pub index : out.1.1.index ≡ c.index
    pub size : length out.1.0 ≡ length props

  pub connect_to_solace-Unfinished :
      (props : List Pointer) (c : Client (World api))
      → Unfinished c props (connect_to_solace api o props c)
  unfolding connect_to_solace create_context create_session connect_session
  connect_to_solace-Unfinished props c = ground (arith, length-configure o props)
