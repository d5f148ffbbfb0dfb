-- ===== src/Wire/Deliver.antt =====
-- `write_to_buffer` of src/solace.c, on every branch.
use kdb_solace.Base.{
  ◌⊎◌, inl, inr, le_cases, append-nil, ◌+◌, ◌≤◌, ◌<◌, ◌≡◌, refl, sym, ap, ap₂, ◌∙◌, true, List, [],
  ◌∷◌, ◌++◌, le→leb, lt→leb, arith, length, take, take_all, some,
}
use kdb_solace.Memory.{
  Bytes, overwrite, slice, memcpy, memcpy-some, memcpy-none, length-overwrite,
  take-overwrite_through,
}
use kdb_solace.Ring.{done, waits, fault}
use kdb_solace.Ring.Invariant.{IsValid, contents, contents-init, cap-init, init-IsValid}
use kdb_solace.Ring.Write.{cb_write-done, cb_write-full}
use kdb_solace.Wire.{
  Feed, write_to_buffer, max_msg_size, buffer_size, le_bytes, send_dot, setup_socket,
}
use kdb_solace.Wire.Frames.{IsSmall, frame_bytes, frames, frames-append, length-le_bytes}

-- The buffers have their sizes, and the queue holds the frames of the messages `ms`.
pub record Holds (f : Feed) (ms : List Bytes) : Type 0 where
  pub queue : IsValid f.queue
  pub cap : f.queue.n ≡ buffer_size
  pub msgbuff : length f.msgbuff ≡ buffer_size
  pub rbuf : length f.rbuf ≡ buffer_size
  pub room : 0 < f.socket_room
  pub bytes : contents f.queue ≡ frames ms

-- `msgbuff` once a message has been copied there.
framed : Feed → Bytes → Bytes
framed f x =
    overwrite (overwrite f.msgbuff 0 (slice (le_bytes 8 (length x)) 0 8)) 8 (slice x 0 (length x))

module _ (f : Feed) (x : Bytes) (size : length f.msgbuff ≡ buffer_size)
    (fits : length x + 8 ≤ buffer_size) where
  word : slice (le_bytes 8 (length x)) 0 8 ≡ le_bytes 8 (length x)
  word = take_all 8 (le_bytes 8 (length x)) (omega (arith, length-le_bytes 8 (length x)))

  framed-bytes : take (length x + 8) (framed f x) ≡ frame_bytes x
  unfolding framed frame_bytes
  framed-bytes =
      take-overwrite_through (overwrite f.msgbuff 0 (slice (le_bytes 8 (length x)) 0 8)) 8
        (slice x 0 (length x)) (omega (arith, ap length whole))
        (omega (arith, length-overwrite f.msgbuff 0 (slice (le_bytes 8 (length x)) 0 8)))
      ∙ ap₂ ◌++◌
          (take-overwrite_through f.msgbuff 0 (slice (le_bytes 8 (length x)) 0 8) {k = 8}
              (omega (arith, ap length word, length-le_bytes 8 (length x))) (omega arith)
            ∙ word)
          whole
    where
      whole : slice x 0 (length x) ≡ x
      whole = take_all (length x) x (omega arith)

  length-framed : length (framed f x) ≡ buffer_size
  unfolding framed
  length-framed = omega (
    arith,
    length-overwrite (overwrite f.msgbuff 0 (slice (le_bytes 8 (length x)) 0 8)) 8
        (slice x 0 (length x)),
    length-overwrite f.msgbuff 0 (slice (le_bytes 8 (length x)) 0 8),
  )

  first_copy :
      memcpy f.msgbuff 0 (le_bytes 8 (length x)) 0 8
      ≡ some (overwrite f.msgbuff 0 (slice (le_bytes 8 (length x)) 0 8))
  first_copy =
      memcpy-some f.msgbuff 0 (le_bytes 8 (length x)) 0 8 (omega arith)
        (omega (arith, length-le_bytes 8 (length x)))

  second_copy :
      memcpy (overwrite f.msgbuff 0 (slice (le_bytes 8 (length x)) 0 8)) 8 x 0 (length x)
      ≡ some (framed f x)
  unfolding framed
  second_copy =
      memcpy-some (overwrite f.msgbuff 0 (slice (le_bytes 8 (length x)) 0 8)) 8 x 0 (length x)
        (omega (arith, length-overwrite f.msgbuff 0 (slice (le_bytes 8 (length x)) 0 8)))
        (omega arith)

  -- A message of 500 bytes or more is dropped: queue and socket stay as they were.
  dropped : max_msg_size ≤ length x → write_to_buffer f x ≡ done (record f { msgbuff = framed f x })
  unfolding write_to_buffer
  dropped big = rw (first_copy, second_copy, le→leb max_msg_size (length x) big)

-- A message that fits is framed, appended to the queue and announced by a byte in the socket.
pub write_to_buffer-Holds :
    (f : Feed) (ms : List Bytes) (x : Bytes)
    → Holds f ms
    → IsSmall x
    → length (frames ms) + length x + 8 < buffer_size
    → (g : Feed) × (write_to_buffer f x ≡ done g)
      × Holds g (ms ++ (x ∷ []))
      × (0 < g.dots)
      × (g.batches ≡ f.batches)
unfolding write_to_buffer
write_to_buffer-Holds f ms x h small fits =
    let room : length x + 8 ≤ buffer_size = omega arith in
    let (c, e, w) =
      cb_write-done f.queue (framed f x) (length x + 8) true h.queue
        (omega (arith, length-framed f x h.msgbuff room))
        (omega (arith, ap length h.bytes, h.cap)) in
    (
      record f { msgbuff = framed f x; queue = c; dots = send_dot f.socket_room f.dots },
      rw (
        first_copy f x h.msgbuff room,
        second_copy f x h.msgbuff room,
        lt→leb max_msg_size (length x) small.below,
        e,
      ),
      record {
        queue = w.valid;
        cap = w.cap ∙ h.cap;
        msgbuff = length-framed f x h.msgbuff room;
        rbuf = h.rbuf;
        room = h.room;
        bytes =
            w.bytes
            ∙ ap₂ ◌++◌ h.bytes (framed-bytes f x h.msgbuff room ∙ sym (append-nil (frame_bytes x)))
            ∙ sym (frames-append ms (x ∷ []));
      },
      ground (arith, h.room),
      refl,
    )

-- With too little room left the writer waits, and the buffers are as they were.
pub write_to_buffer-waits :
    (f : Feed) (ms : List Bytes) (x : Bytes)
    → Holds f ms
    → IsSmall x
    → buffer_size ≤ length (frames ms) + length x + 8
    → write_to_buffer f x ≡ waits
unfolding write_to_buffer
write_to_buffer-waits f ms x h small full =
    let room : length x + 8 ≤ buffer_size = omega (arith, small.below) in
    rw (
      first_copy f x h.msgbuff room,
      second_copy f x h.msgbuff room,
      lt→leb max_msg_size (length x) small.below,
      cb_write-full f.queue (framed f x) (length x + 8) true h.queue
          (omega (arith, ap length h.bytes, h.cap)),
    )

-- A message of 500 bytes or more, if `msgbuff` can take it, is dropped without a trace in the queue.
pub write_to_buffer-drops :
    (f : Feed) (ms : List Bytes) (x : Bytes)
    → Holds f ms
    → max_msg_size ≤ length x
    → length x + 8 ≤ buffer_size
    → (g : Feed) × (write_to_buffer f x ≡ done g)
      × Holds g ms
      × (g.queue ≡ f.queue)
      × (g.dots ≡ f.dots)
      × (g.batches ≡ f.batches)
write_to_buffer-drops f ms x h big room = (
  record f { msgbuff = framed f x },
  dropped f x h.msgbuff room big,
  record {
    queue = h.queue;
    cap = h.cap;
    msgbuff = length-framed f x h.msgbuff room;
    rbuf = h.rbuf;
    room = h.room;
    bytes = h.bytes;
  },
  refl,
  refl,
  refl,
)

-- The size is tested only after the copy: a message that `msgbuff` cannot take is copied past its end.
pub write_to_buffer_overruns :
    (f : Feed) (x : Bytes)
    → length f.msgbuff ≡ buffer_size
    → buffer_size < length x + 8
    → write_to_buffer f x ≡ fault
unfolding write_to_buffer
write_to_buffer_overruns f x size long = rw (
  memcpy-some f.msgbuff 0 (le_bytes 8 (length x)) 0 8 (omega arith)
      (omega (arith, length-le_bytes 8 (length x))),
  memcpy-none (overwrite f.msgbuff 0 (slice (le_bytes 8 (length x)) 0 8)) 8 x 0 (length x)
      (omega (arith, length-overwrite f.msgbuff 0 (slice (le_bytes 8 (length x)) 0 8))),
)

-- So a message that `msgbuff` can take is queued, dropped, or waits for room.
pub write_to_buffer_outcomes :
    (f : Feed) (ms : List Bytes) (x : Bytes)
    → Holds f ms
    → 0 < length x
    → length x + 8 ≤ buffer_size
    → ((g : Feed) × (write_to_buffer f x ≡ done g)) ⊎ (write_to_buffer f x ≡ waits)
write_to_buffer_outcomes f ms x h some_bytes fits = elim (le_cases max_msg_size (length x)) [
  | inl big ↦ let r = write_to_buffer-drops f ms x h big fits in inl (r.0, r.1)
  | inr small ↦
      let ok : IsSmall x = record { some_bytes = some_bytes; below = small } in
      elim (le_cases buffer_size (length (frames ms) + length x + 8)) [
        | inl full ↦ inr (write_to_buffer-waits f ms x h ok full)
        | inr room ↦ let r = write_to_buffer-Holds f ms x h ok room in inl (r.0, r.1)
      ]
]

-- `setup_socket` leaves an empty queue of the right size.
pub setup_socket-Holds :
    (f : Feed)
    → length f.msgbuff ≡ buffer_size
    → length f.rbuf ≡ buffer_size
    → 0 < f.socket_room
    → Holds (setup_socket f) []
unfolding setup_socket
setup_socket-Holds f m r room = record {
  queue = (init-IsValid buffer_size (omega arith)).0;
  cap = cap-init buffer_size;
  msgbuff = m;
  rbuf = r;
  room = room;
  bytes = contents-init buffer_size;
}
