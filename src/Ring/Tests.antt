-- ===== src/Ring/Tests.antt =====
-- The buffer of src/cb.c on small inputs, and its theorems at them.
use kdb_solace.Base.{
  some, none, ◌+◌, ◌-◌, ◌≤◌, ◌≡◌, refl, true, false, List, [], ◌∷◌, pos, arith, length,
}
use kdb_solace.Memory.{Bytes, memcpy, overwrite}
use kdb_solace.Fifo
use kdb_solace.Fifo.{Call, put, get, Reply, stored, waiting, got}
use kdb_solace.Ring.{
  Cb, done, refused, waits, cb_size, cb_space, cb_write, cb_read, write_first, write_rest,
}
use kdb_solace.Ring.Invariant.{IsValid, contents, size-space}
use kdb_solace.Ring.Refine.{run, step, run_refines}
use kdb_solace.Ring.Write.{Wrote, cb_write-done, cb_write-full}
use kdb_solace.Ring.Read.{Took, cb_read-done, cb_read-short}
use kdb_solace.Ring.Threads.{torn_size}
use kdb_solace.Ring.Signals.{Pending, Shared, write_or_sleep, resume, read_and_signal}
use kdb_solace.Ring.Signals.Wakes.{Run, begin, writes, Run-resume}

-- 7, 8 and then 9, round the end of a storage of four bytes.
abbrev wrapped : Cb
wrapped = record { d = 9 ∷ 0 ∷ 7 ∷ 8 ∷ []; h = 2; t = 1; n = 4 }

-- One byte in the last but one place.
abbrev nearly : Cb
nearly = record { d = 1 ∷ 2 ∷ 3 ∷ 4 ∷ 5 ∷ []; h = 3; t = 4; n = 5 }

abbrev script : List Call
script = put (1 ∷ []) true ∷ get 2 false ∷ put (4 ∷ 5 ∷ []) true ∷ get 3 false ∷ get 1 false ∷ []

wrapped-IsValid : IsValid wrapped
wrapped-IsValid = omega arith

nearly-IsValid : IsValid nearly
nearly-IsValid = omega arith

contents-wrapped : contents wrapped ≡ 7 ∷ 8 ∷ 9 ∷ []
unfolding contents
contents-wrapped = refl

run-wrapped :
    run wrapped script
    ≡ waiting ∷ got (7 ∷ 8 ∷ []) ∷ stored ∷ got (9 ∷ 4 ∷ 5 ∷ []) ∷ Reply.refused ∷ []
unfolding run step cb_write cb_read memcpy overwrite
run-wrapped = refl

-- A write that ends just at the end of the storage leaves the tail at 0.
write_to_end :
    cb_write nearly (6 ∷ []) 1 false
    ≡ done (record { d = 1 ∷ 2 ∷ 3 ∷ 4 ∷ 6 ∷ []; h = 3; t = 0; n = 5 })
unfolding cb_write memcpy overwrite
write_to_end = refl

run_refines_example : run wrapped script ≡ Fifo.run 4 (contents wrapped) script
run_refines_example = run_refines script wrapped wrapped-IsValid

cb_write-done_example :
    (c : Cb) × (cb_write nearly (6 ∷ 7 ∷ []) 2 true ≡ done c) × Wrote nearly (6 ∷ 7 ∷ []) c
cb_write-done_example =
    cb_write-done nearly (6 ∷ 7 ∷ []) 2 true nearly-IsValid (omega arith)
      (unfold contents in omega arith)

cb_write-full_example : cb_write wrapped (6 ∷ []) 1 false ≡ refused
cb_write-full_example =
    cb_write-full wrapped (6 ∷ []) 1 false wrapped-IsValid (unfold contents in omega arith)

cb_read-done_example :
    (c : Cb) × (out : Bytes) × (cb_read wrapped (0 ∷ 0 ∷ 0 ∷ []) 3 false ≡ done (c, out))
    × Took wrapped (0 ∷ 0 ∷ 0 ∷ []) 3 c out
cb_read-done_example =
    cb_read-done wrapped (0 ∷ 0 ∷ 0 ∷ []) 3 false wrapped-IsValid (unfold contents in omega arith)
      (omega arith)

cb_read-short_example : cb_read wrapped (0 ∷ []) 5 true ≡ waits
cb_read-short_example =
    cb_read-short wrapped (0 ∷ []) 5 true wrapped-IsValid (unfold contents in omega arith)

size-space_example :
    (cb_size wrapped ≡ pos (length (contents wrapped)))
    × (cb_space wrapped ≡ pos (4 - 1 - length (contents wrapped)))
    × (length (contents wrapped) + 1 ≤ 4)
size-space_example = size-space wrapped wrapped-IsValid

-- A writer of three bytes sleeps at once.
abbrev three : Pending
three = record { src = 1 ∷ 2 ∷ 3 ∷ []; k = 3 }

abbrev sleeping : Shared
sleeping = record { buffer = wrapped; asleep = some three; woken = none }

three_sleeps : Run wrapped sleeping
unfolding write_or_sleep cb_write
three_sleeps = writes three sleeping begin refl refl refl

Run-resume_example :
    (s1 : Shared) × (out : Bytes) × (s2 : Shared) × (cb_write wrapped (1 ∷ 2 ∷ 3 ∷ []) 3 true
      ≡ waits)
    × (read_and_signal sleeping (0 ∷ 0 ∷ 0 ∷ []) (length (contents wrapped)) ≡ done (s1, out))
    × (s1.woken ≡ some three)
    × (resume s1 ≡ done s2)
    × (s2.asleep ≡ none)
    × (contents s2.buffer ≡ 1 ∷ 2 ∷ 3 ∷ [])
Run-resume_example =
    Run-resume three (0 ∷ 0 ∷ 0 ∷ []) three_sleeps refl wrapped-IsValid refl (omega arith)
      (unfold contents in omega arith)

torn_size_example :
    (c : Cb) × (d : Cb) × (write_first nearly (6 ∷ 7 ∷ 8 ∷ []) ≡ done c)
    × (cb_size c ≡ pos (length (contents nearly) + (5 - 4)))
    × (write_rest c (6 ∷ 7 ∷ 8 ∷ []) (5 - 4) (3 - (5 - 4)) ≡ done d)
    × (cb_write nearly (6 ∷ 7 ∷ 8 ∷ []) 3 true ≡ done d)
    × (cb_size d ≡ pos (length (contents nearly) + 3))
torn_size_example =
    torn_size nearly (6 ∷ 7 ∷ 8 ∷ []) 3 nearly-IsValid (omega arith)
      (unfold contents in omega arith) (omega arith)
