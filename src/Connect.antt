-- ===== src/Connect.antt =====
-- `connectToSolace`, `disconnectFromSolace`, `setSolaceCallback` and `cleanup` of src/solace.c.
pub mod Codes
use kdb_solace.Base.{false, List, ℤ, if◌then◌else◌}
use kdb_solace.Solclient.{solclient_ok, solclient_fail, is_ok}
use kdb_solace.Client.{Client}
use kdb_solace.Kopts.{Kopts}
use kdb_solace.Props.{Pointer, configure, read_props}
use kdb_solace.Api.{Receiver, message_receive_callback, message_receive_callback_dump, Api}

-- `setSolaceCallback`
abbrev pub receiver : Kopts → Receiver
receiver o = if o.dumptoscreen then message_receive_callback_dump else message_receive_callback

module _ (api : Api) where
  open api use {
    messages, initialize, set_filter_level, context_create, session_create, session_connect,
    session_disconnect, cleanup,
  }

  abbrev pub World : Type 0
  World = messages.containers.World

  -- A code and the state that a call has left, into the globals.
  abbrev pub after_call : Client World → ℤ × World → Client World
  after_call c (rc, w) = record c { rc = rc; world = w }

  -- `cleanup()`, and `return SOLCLIENT_FAIL`.
  abbrev pub give_up : List Pointer → Client World → ℤ × (List Pointer × Client World)
  give_up props c = (solclient_fail, (props, after_call c (cleanup c.world)))

  -- From `solClient_session_connect` on.
  unfoldable pub connect_session : List Pointer → Client World → ℤ × (List Pointer × Client World)
  connect_session props c =
      let c' = after_call c (session_connect c.world) in
      if is_ok c'.rc then (solclient_ok, (props, c')) else give_up props c'

  -- From `setSolaceCallback` on.
  unfoldable pub create_session :
      Kopts → List Pointer → Client World → ℤ × (List Pointer × Client World)
  create_session o props c =
      let props' = configure o props in
      let c' = after_call c (session_create (read_props props') (receiver o) c.world) in
      if is_ok c'.rc then connect_session props' c' else give_up props' c'

  -- From `solClient_log_setFilterLevel` on.
  unfoldable pub create_context :
      Kopts → List Pointer → Client World → ℤ × (List Pointer × Client World)
  create_context o props c =
      let c' = after_call c (context_create (set_filter_level o.loglevel c.world)) in
      if is_ok c'.rc then create_session o props c' else give_up props c'

  -- `connectToSolace`, with the array `sessionProps`.
  unfoldable pub connect_to_solace :
      Kopts → List Pointer → Client World → ℤ × (List Pointer × Client World)
  connect_to_solace o props c =
      let c' = after_call (record c { initiated = false }) (initialize c.world) in
      if is_ok c'.rc then create_context o props c' else (c'.rc, (props, c'))

  -- `disconnectFromSolace`
  abbrev pub disconnect_from_solace : Client World → Client World
  disconnect_from_solace c = after_call c (session_disconnect c.world)
