-- ===== src/Wire/Callback.antt =====
-- A whole call of `callback` of src/solace_k.c, from `recv` on, with nothing in between.
use kdb_solace.Base.{
  ℕ, ◌+◌, ◌-◌, ◌<◌, ◌≡◌, ◌≢◌, sym, ap, ◌∙◌, List, [], ◌∷◌, ◌++◌, length, append-nil, arith, ℤ, pos,
}
use kdb_solace.Memory.{Bytes}
use kdb_solace.Kdb.{K, nil, cons, append_element, Timespec}
use kdb_solace.Ring.{cb_size}
use kdb_solace.Ring.Invariant.{contents, size-space}
use kdb_solace.Wire.{Feed, returned, callback_look, callback_take, callback}
use kdb_solace.Wire.Frames.{frames}
use kdb_solace.Wire.Deliver.{Holds}
use kdb_solace.Wire.Receive.{IsReadable, AllReadable, received, all_received}
use kdb_solace.Wire.Delivery.{HandedOver, take_frames}
use kdb_solace.Wire.Trace.Reader.{look_returns}

module _ (d9 : Bytes → K) (clock : ℕ → Timespec) where
  pub append_one_some : (ms : List Bytes) (m : Bytes) → ms ++ (m ∷ []) ≢ []
  append_one_some [] m e = absurd cc
  append_one_some (k ∷ ms) m e = absurd cc

  pub AllReadable-append_one :
      (ms : List Bytes) (m : Bytes)
      → AllReadable d9 clock ms
      → IsReadable d9 clock m
      → AllReadable d9 clock (ms ++ (m ∷ []))
  AllReadable-append_one [] m all r = (r, tt)
  AllReadable-append_one (k ∷ ms) m (r', all) r = (r', AllReadable-append_one ms m all r)

  pub all_received-append_one :
      (i : ℕ) (ms : List Bytes) (m : Bytes)
      → all_received d9 clock i (ms ++ (m ∷ []))
        ≡ append_element (all_received d9 clock i ms) (received d9 clock (i + length ms) m)
  unfolding append_element
  all_received-append_one i [] m = ap (λ n. cons (received d9 clock n m) nil) (omega arith)
  all_received-append_one i (k ∷ ms) m = ap (cons (received d9 clock i k)) (
      all_received-append_one (i + 1) ms m
      ∙ ap (λ n. append_element (all_received d9 clock (i + 1) ms) (received d9 clock n m))
          (omega arith))

  callback-look :
      (f f' : Feed) (q : ℤ)
      → callback_look f ≡ returned (f', q)
      → callback d9 clock f ≡ callback_take d9 clock f' q
  unfolding callback
  callback-look f f' q e = ground (arith, e)

  -- A callback that finds a byte in the socket pair calls q once with all the messages that are queued.
  pub callback_hands :
      (f : Feed) (ms : List Bytes)
      → Holds f ms
      → 0 < f.dots
      → AllReadable d9 clock ms
      → ms ≢ []
      → (g : Feed) × (callback d9 clock f ≡ returned g)
        × HandedOver d9 clock (record f { dots = f.dots - 1 }) ms g
        × (contents g.queue ≡ [])
  unfolding callback
  callback_hands f ms h dots all some_ms =
      let f' : Feed = record f { dots = f.dots - 1 } in
      let (g, takes, handed, left) =
        take_frames d9 clock f' ms [] h.queue (h.bytes ∙ sym (append-nil (frames ms)))
          (omega (arith, h.rbuf, h.cap)) all some_ms in
      let size : cb_size f.queue ≡ pos (length (frames ms)) =
        (size-space f.queue h.queue).0 ∙ ap (λ l. pos (length l)) h.bytes in
      (
        g,
        callback-look f f' (cb_size f.queue) (look_returns f dots)
            ∙ ap (callback_take d9 clock f') size
            ∙ takes,
        handed,
        left,
      )
