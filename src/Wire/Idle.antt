-- ===== src/Wire/Idle.antt =====
-- Buffers of zeros and an empty queue, to try the theorems on.
use kdb_solace.Base.{ℕ, ◌≡◌, [], replicate, length, length-replicate, arith}
use kdb_solace.Memory.{Bytes}
use kdb_solace.Ring.{cb_init}
use kdb_solace.Wire.{Feed, buffer_size, setup_socket}
use kdb_solace.Wire.Deliver.{Holds, setup_socket-Holds}

-- A static array; shut, since it is long.
pub blank : ℕ → Bytes
blank n = replicate n 0

pub length-blank : (n : ℕ) → length (blank n) ≡ n
unfolding blank
length-blank n = length-replicate n 0

abbrev pub before : Feed
before = record {
  queue = cb_init 0;
  msgbuff = blank buffer_size;
  rbuf = blank buffer_size;
  dots = 3;
  socket_room = 278;
  callbackcounter = 0;
  msg_processed = 0;
  batches = [];
}

pub first : Feed
first = setup_socket before

pub first-Holds : Holds first []
unfolding first
first-Holds =
    setup_socket-Holds before (length-blank buffer_size) (length-blank buffer_size) (omega arith)
