-- ===== src/Wire/Tests.antt =====
-- Messages through the queue, and the theorems about them at small inputs.
use kdb_solace.Wire.Idle.{blank, length-blank, first, first-Holds}
use kdb_solace.Base.{
  ℕ, ◌-◌, ◌<◌, ◌≡◌, ◌≢◌, refl, [], ◌∷◌, ◌⊎◌, none, some, arith, length, ap, length-append,
}
use kdb_solace.Memory.{Bytes}
use kdb_solace.Kdb.{K, nil, cons, vector, list, Timespec}
use kdb_solace.Ring.{done, waits, fault, cb_size}
use kdb_solace.Ring.Invariant.{contents}
use kdb_solace.Wire.{
  Feed, returned, unfinished, buffer_size, write_to_buffer, callback_take, callback_look, drain,
}
use kdb_solace.Wire.Frames.{frame_bytes, length-frame_bytes}
use kdb_solace.Wire.Deliver.{write_to_buffer-Holds, write_to_buffer_overruns}
use kdb_solace.Wire.Receive.{IsReadable, drain-ne-unfinished}
use kdb_solace.Wire.Trace.{Trace, start, write, look, Accounted}
use kdb_solace.Wire.Trace.Safety.{
  Trace-Accounted, callback_returns, callback_starts, write_returns_or_waits,
}

-- `d9` of these tests: the bytes as the one element of a list.
abbrev as_list : Bytes → K
as_list m = list (cons (vector 4 m) nil)

abbrev clock : ℕ → Timespec
clock i = record { tv_sec = 1587379630; tv_nsec = i }

abbrev hello : Bytes
hello = 1 ∷ 0 ∷ 0 ∷ 0 ∷ 14 ∷ []

hello-IsReadable : IsReadable as_list clock hello
hello-IsReadable = record { small = omega arith; is_list = refl }

second : Feed
second = (write_to_buffer-Holds first [] hello first-Holds (omega arith) (omega arith)).0

one_write : Trace as_list clock first (record { feed = second; looked = none }) (hello ∷ [])
unfolding second
one_write =
    write hello second start hello-IsReadable
      (write_to_buffer-Holds first [] hello first-Holds (omega arith) (omega arith)).1

Trace-Accounted_example :
    Accounted as_list clock first (record { feed = second; looked = none }) (hello ∷ [])
Trace-Accounted_example = Trace-Accounted as_list clock first first-Holds one_write

second-held : 0 < length (contents second.queue)
unfolding second
second-held =
    let (g, e, h, dots, b) =
      write_to_buffer-Holds first [] hello first-Holds (omega arith) (omega arith) in
    omega (arith, ap length h.bytes, length-frame_bytes hello, length-append (frame_bytes hello) [])

callback_starts_example :
    callback_look second ≡ returned (record second { dots = second.dots - 1 }, cb_size second.queue)
callback_starts_example = callback_starts as_list clock first first-Holds one_write refl second-held

callback_starts_look :
    callback_look second ≡ returned (record second { dots = second.dots - 1 }, cb_size second.queue)
callback_starts_look = callback_starts as_list clock first first-Holds one_write refl second-held

-- A callback that has looked while `hello` was there.
one_look :
    Trace as_list clock first
      (record {
        feed = record second { dots = second.dots - 1 };
        looked = some (cb_size second.queue);
      })
      (hello ∷ [])
one_look =
    look (record second { dots = second.dots - 1 }) (cb_size second.queue) one_write refl
      callback_starts_look

callback_returns_example :
    (g : Feed) × (callback_take as_list clock
        (record second { dots = second.dots - 1 })
        (cb_size second.queue)
      ≡ returned g)
callback_returns_example =
    callback_returns as_list clock first (cb_size second.queue) first-Holds one_look refl

write_returns_or_waits_example :
    ((g : Feed) × (write_to_buffer second hello ≡ done g)) ⊎ (write_to_buffer second hello ≡ waits)
write_returns_or_waits_example =
    write_returns_or_waits as_list clock first hello first-Holds one_write (omega arith)
      (omega arith)

-- A message of a million bytes.
write_to_buffer_overruns_example : write_to_buffer first (blank buffer_size) ≡ fault
write_to_buffer_overruns_example =
    write_to_buffer_overruns first (blank buffer_size) first-Holds.msgbuff
      (omega (arith, length-blank buffer_size))

drain-ne-unfinished_example : drain as_list clock 4 (9 ∷ 9 ∷ 9 ∷ []) 3 0 0 nil ≢ unfinished
drain-ne-unfinished_example =
    drain-ne-unfinished as_list clock 4 (9 ∷ 9 ∷ 9 ∷ []) 3 0 0 nil (omega arith) (omega arith)
