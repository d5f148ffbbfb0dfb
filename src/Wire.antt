-- ===== src/Wire.antt =====
-- The way of a message from the Solace thread to q: `write_to_buffer` (src/solace.c) frames it and puts
-- it into the circular buffer, and `callback` (src/solace_k.c) takes all frames out and calls q once.
-- A byte through a socket pair wakes q.
pub mod Frames
pub mod Deliver
pub mod Receive
pub mod Delivery
pub mod Trace
pub mod Callback
pub mod Idle
mod Tests
use kdb_solace.Base.{
  ℕ, zero, suc, ◌+◌, ◌-◌, ◌*◌, ◌/◌, ◌%◌, ◌^◌, Bool, true, false, ◌&&◌, List, [], ◌∷◌, ◌++◌, ℤ, pos,
  negsuc, ltb, leb, ◌==◌, ltb_ℤ, if◌then◌else◌, length, replicate, Option, none, some,
}
use kdb_solace.Memory.{Bytes, memcpy}
use kdb_solace.Ring.{
  Cb, Outcome, done, refused, waits, fault, from_copy, and_then, cb_init, cb_size, cb_write,
  cb_read,
}
use kdb_solace.Kdb.{
  K, Ks, nil, symbols, list, dict, append_element, Timespec, current_time, increment,
}

abbrev pub max_msg_size : ℕ
max_msg_size = 500

-- The size of `msgbuff`, of `rbuf` and of the queue.
abbrev pub buffer_size : ℕ
buffer_size = 1000000

-- A `long` in memory: eight bytes, the lowest first.
unfoldable pub le_bytes : ℕ → ℕ → Bytes
le_bytes zero v = []
le_bytes (suc k) v = v % 256 ∷ le_bytes k (v / 256)

unfoldable pub of_le : Bytes → ℕ
of_le [] = 0
of_le (x ∷ xs) = x + 256 * of_le xs

abbrev pub signed64 : ℕ → ℤ
signed64 v = if ltb v (2 ^ 63) then pos v else negsuc (2 ^ 64 - v - 1)

-- The globals of the two threads. `dots` is the number of bytes in the socket pair, which takes
-- `socket_room` of them; `batches` holds what `k(0, opts.callback, …)` was called with, oldest first.
pub record Feed : Type 0 where
  pub queue : Cb
  pub msgbuff : Bytes
  pub rbuf : Bytes
  pub dots : ℕ
  pub socket_room : ℕ
  pub callbackcounter : ℕ
  pub msg_processed : ℕ
  pub batches : List K

-- `setup_socket`: a new queue and a new socket pair.
unfoldable pub setup_socket : Feed → Feed
setup_socket f = record f { queue = cb_init buffer_size; dots = 0 }

-- `write(fd[0], &dot, 1)`: the socket does not block, and a byte that finds no room is lost.
abbrev pub send_dot : ℕ → ℕ → ℕ
send_dot room dots = if ltb dots room then dots + 1 else dots

-- `write_to_buffer` of a serialized message.
unfoldable pub write_to_buffer : Feed → Bytes → Outcome Feed
write_to_buffer f x = from_copy (memcpy f.msgbuff 0 (le_bytes 8 (length x)) 0 8) λ m.
    from_copy (memcpy m 8 x 0 (length x)) λ m'.
      if leb max_msg_size (length x)
      then done (record f { msgbuff = m' })
      else and_then (cb_write f.queue m' (length x + 8) true)
          λ q. done (record f { msgbuff = m'; queue = q; dots = send_dot f.socket_room f.dots })

-- One round of the loop of `callback`: a frame, a failed `assert`, or a copy out of range.
pub data Frame : Type 0 where
  frame : Bytes → Frame
  bad_size outside : Frame

abbrev pub is_message_size : ℕ → Bool
is_message_size m = ltb_ℤ (pos 0) (signed64 m) && ltb_ℤ (signed64 m) (pos max_msg_size)

abbrev pub as_frame : Option Bytes → Frame
as_frame none = outside
as_frame (some msg) = frame msg

unfoldable pub frame_payload : Bytes → ℕ → ℕ → Frame
frame_payload rbuf offset m =
    if is_message_size m then as_frame (memcpy (replicate m 0) 0 rbuf (offset + 8) m) else bad_size

abbrev pub with_word : Option Bytes → (ℕ → Frame) → Frame
with_word none k = outside
with_word (some word) k = k (of_le word)

unfoldable pub read_frame : Bytes → ℕ → Frame
unfolding frame_payload
read_frame rbuf offset =
    with_word (memcpy (replicate 8 0) 0 rbuf offset 8) (frame_payload rbuf offset)

abbrev pub rec_keys : K
rec_keys = symbols (
    (b't' ∷ b'y' ∷ b'p' ∷ b'e' ∷ [])
    ∷ (b's' ∷ b'e' ∷ b'q' ∷ b'n' ∷ [])
    ∷ (b'd' ∷ b'e' ∷ b's' ∷ b't' ∷ [])
    ∷ (b's' ∷ b'n' ∷ b'd' ∷ b't' ∷ [])
    ∷ (b'r' ∷ b'e' ∷ b'c' ∷ b't' ∷ [])
    ∷ (b's' ∷ b'w' ∷ b'b' ∷ b't' ∷ [])
    ∷ (b'm' ∷ b's' ∷ b'g' ∷ [])
    ∷ (b'e' ∷ b'r' ∷ b'b' ∷ b't' ∷ [])
    ∷ [])

-- `add_rec_time` at a clock reading; `jk` onto anything but a general list is a fault.
unfoldable pub add_rec_time : K → Timespec → Option K
add_rec_time (list xs) now = some (dict rec_keys (list (append_element xs (current_time now))))
add_rec_time _ now = none

-- How `callback` ends: it returns, blocks in `recv`, stops at the `assert`, or faults; `unfinished` is
-- a loop that has used up the model's fuel.
pub data Ended (A : Type 0) : Type 0 where
  returned : A → Ended A
  blocked aborted broken unfinished : Ended A

-- `callback` up to `cb_size`, which takes no lock: the other thread may run before the read.
unfoldable pub callback_look : Feed → Ended (Feed × ℤ)
callback_look f =
    if f.dots == 0 then blocked else returned (record f { dots = f.dots - 1 }, cb_size f.queue)

-- `d9` is kdb+'s; the clock gives the reading that each message gets.
module _ (d9 : Bytes → K) (clock : ℕ → Timespec) where
  -- The loop of `callback` from an offset on; `i` counts the messages so far, `acc` is `dmsgs`.
  unfoldable pub drain : ℕ → Bytes → ℕ → ℕ → ℕ → Ks → Ended (Ks × ℕ)
  drain zero rbuf qsize offset i acc = unfinished
  drain (suc fuel) rbuf qsize offset i acc = elim (ltb offset qsize) [
    | false ↦ returned (acc, i)
    | true ↦ elim (read_frame rbuf offset) [
      | frame msg ↦ elim (add_rec_time (d9 msg) (clock i)) [
        | none ↦ broken
        | some x ↦ drain fuel rbuf qsize (offset + length msg + 8) (i + 1) (append_element acc x)
      ]
      | bad_size ↦ aborted
      | outside ↦ broken
    ]
  ]

  -- The loop, the call of q and the counters, on the arrays that the read has left.
  unfoldable pub hand_over : Feed → Cb → Bytes → ℕ → Ended Feed
  unfolding drain
  hand_over f queue rbuf qsize = elim (drain (suc qsize) rbuf qsize 0 0 nil) [
    | returned (dmsgs, i) ↦ returned (record f {
      queue = queue;
      rbuf = rbuf;
      msg_processed = (f.msg_processed + i) % 2 ^ 32;
      batches = f.batches ++ (list dmsgs ∷ []);
      callbackcounter = increment f.callbackcounter;
    })
    | blocked ↦ blocked
    | aborted ↦ aborted
    | broken ↦ broken
    | unfinished ↦ unfinished
  ]

  -- `callback` from the read of the buffer on. It does not look at what `cb_read` returns.
  unfoldable pub callback_take : Feed → ℤ → Ended Feed
  unfolding hand_over
  callback_take f (negsuc q) = returned (record f { callbackcounter = increment f.callbackcounter })
  callback_take f (pos q) =
      if q == 0
      then returned (record f { callbackcounter = increment f.callbackcounter })
      else elim (cb_read f.queue f.rbuf q false) [
        | done (c, out) ↦ hand_over f c out q
        | refused ↦ hand_over f f.queue f.rbuf q
        | waits ↦ blocked
        | fault ↦ broken
      ]

  -- `callback` with nothing in between.
  unfoldable pub callback : Feed → Ended Feed
  unfolding callback_look callback_take
  callback f = elim (callback_look f) [
    | returned (f', q) ↦ callback_take f' q
    | blocked ↦ blocked
    | aborted ↦ aborted
    | broken ↦ broken
    | unfinished ↦ unfinished
  ]
