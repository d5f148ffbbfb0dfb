-- ===== src/Fifo.antt =====
-- What src/cb.c promises its callers: a first-in first-out queue of bytes that holds fewer than `cap`
-- of them, and the calls by which two threads use it.
use kdb_solace.Base.{ℕ, ◌+◌, Bool, List, [], ◌∷◌, ◌++◌, ltb, leb, if◌then◌else◌, length, take, drop}
use kdb_solace.Memory.{Bytes}

-- A call of either thread; the flag says whether it may wait.
pub data Call : Type 0 where
  put : Bytes → Bool → Call
  get : ℕ → Bool → Call

-- What a call comes back with. `waiting` is a thread that sleeps on the condition.
pub data Reply : Type 0 where
  stored refused waiting broken : Reply
  got : Bytes → Reply

abbrev pub held_up : Bool → Reply
held_up w = if w then waiting else refused

unfoldable pub put_bytes : ℕ → Bytes → Bytes → Bool → Reply × Bytes
put_bytes cap q s w = if ltb (length q + length s) cap then (stored, q ++ s) else (held_up w, q)

unfoldable pub get_bytes : Bytes → ℕ → Bool → Reply × Bytes
get_bytes q k w = if leb k (length q) then (got (take k q), drop k q) else (held_up w, q)

unfoldable pub run : ℕ → Bytes → List Call → List Reply
unfolding put_bytes get_bytes
run cap q [] = []
run cap q (put s w ∷ cs) = let (r, q') = put_bytes cap q s w in r ∷ run cap q' cs
run cap q (get k w ∷ cs) = let (r, q') = get_bytes q k w in r ∷ run cap q' cs
