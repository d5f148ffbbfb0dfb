-- ===== src/Wire/Delivery.antt =====
-- `callback` of src/solace_k.c on a buffer that `write_to_buffer` of src/solace.c has filled, alone and
-- with the other thread's writes between its look at the size and its read.
use kdb_solace.Base.{
  ℕ, suc, ◌+◌, ◌%◌, ◌^◌, ◌≤◌, ◌<◌, ◌≡◌, ◌≢◌, refl, sym, ap, ◌∙◌, false, List, [], ◌∷◌, ◌++◌, arith,
  length, take, drop, length-append, pos, take-append_left, drop-append_left, drop_all, take_all,
  take-append-drop,
}
use kdb_solace.Memory.{Bytes}
use kdb_solace.Ring.{Cb, done, cb_read}
use kdb_solace.Ring.Invariant.{IsValid, contents, size-space}
use kdb_solace.Ring.Refine.{parts}
use kdb_solace.Ring.Read.{cb_read-done}
use kdb_solace.Kdb.{K, nil, list, Timespec, increment}
use kdb_solace.Wire.{Feed, returned, callback_take, hand_over, drain}
use kdb_solace.Wire.Frames.{frames, frame_bytes, length-frame_bytes}
use kdb_solace.Wire.Receive.{AllReadable, all_received, drain-frames}

module _ (d9 : Bytes → K) (clock : ℕ → Timespec) where
  -- What q is called with for the messages of one read.
  abbrev pub batch : List Bytes → K
  batch ms = list (all_received d9 clock 0 ms)

  -- The state after a read that has taken the messages `ms` out.
  pub record HandedOver (f : Feed) (ms : List Bytes) (g : Feed) : Type 0 where
    pub queue : IsValid g.queue
    pub cap : g.queue.n ≡ f.queue.n
    pub rbuf : length g.rbuf ≡ length f.rbuf
    pub batches : g.batches ≡ f.batches ++ (batch ms ∷ [])
    pub processed : g.msg_processed ≡ (f.msg_processed + length ms) % 2 ^ 32
    pub calls : g.callbackcounter ≡ increment f.callbackcounter
    pub others : (g.dots ≡ f.dots) × (g.socket_room ≡ f.socket_room) × (g.msgbuff ≡ f.msgbuff)

  after_read : Feed → List Bytes → Cb → Bytes → Feed
  after_read f ms c out = record f {
    queue = c;
    rbuf = out;
    msg_processed = (f.msg_processed + length ms) % 2 ^ 32;
    batches = f.batches ++ (batch ms ∷ []);
    callbackcounter = increment f.callbackcounter;
  }

  reads :
      (f : Feed) (ms : List Bytes) (c : Cb) (out : Bytes) {q : ℕ}
      → cb_read f.queue f.rbuf q false ≡ done (c, out)
      → 0 < q
      → drain d9 clock (suc q) out q 0 0 nil ≡ returned (all_received d9 clock 0 ms, 0 + length ms)
      → callback_take d9 clock f (pos q) ≡ returned (after_read f ms c out)
  unfolding callback_take hand_over after_read
  reads f ms c out {q} e some_bytes d = ground (arith, e, d)

  -- `callback` from its read on, when it has seen the frames of the messages `ms`: it calls q once, with
  -- exactly those, and leaves what was written since.
  pub take_frames :
      (f : Feed) (ms : List Bytes) (later : Bytes)
      → IsValid f.queue
      → contents f.queue ≡ frames ms ++ later
      → f.queue.n ≤ length f.rbuf
      → AllReadable d9 clock ms
      → ms ≢ []
      → (g : Feed) × (callback_take d9 clock f (pos (length (frames ms))) ≡ returned g)
        × HandedOver f ms g
        × (contents g.queue ≡ later)
  unfolding after_read
  take_frames f [] later v bytes room all some_ms = absurd (some_ms refl)
  take_frames f (m ∷ ms) later v bytes room all some_ms =
      let (c, out, e, x) = cb_read-done f.queue f.rbuf n false v held inside in
      let (p, q) =
        parts (contents f.queue) out (contents c) n (omega (arith, x.size, inside)) held x.taken in
      (
        after_read f (m ∷ ms) c out,
        reads f (m ∷ ms) c out e
            (omega (arith, length-append (frame_bytes m) (frames ms), length-frame_bytes m))
            (drain-frames d9 clock (m ∷ ms) (suc n) out (drop n out) n 0 0 nil all
              (sym (take-append-drop n out)
                ∙ ap (λ l. l ++ drop n out) (p ∙ ap (take n) bytes ∙ whole))
              (omega arith) (omega arith)),
        record {
          queue = x.valid;
          cap = x.cap;
          rbuf = x.size;
          batches = refl;
          processed = refl;
          calls = refl;
          others = (refl, refl, refl);
        },
        q ∙ ap (drop n) bytes ∙ rest,
      )
    where
      n : ℕ
      n = length (frames (m ∷ ms))

      held : n ≤ length (contents f.queue)
      held = omega (arith, ap length bytes, length-append (frames (m ∷ ms)) later)

      inside : n ≤ length f.rbuf
      inside = omega (arith, held, (size-space f.queue v).2)

      whole : take n (frames (m ∷ ms) ++ later) ≡ frames (m ∷ ms)
      whole =
          take-append_left n (frames (m ∷ ms)) later (omega arith)
          ∙ take_all n (frames (m ∷ ms)) (omega arith)

      rest : drop n (frames (m ∷ ms) ++ later) ≡ later
      rest =
          drop-append_left n (frames (m ∷ ms)) later (omega arith)
          ∙ ap (λ l. l ++ later) (drop_all n (frames (m ∷ ms)) (omega arith))
