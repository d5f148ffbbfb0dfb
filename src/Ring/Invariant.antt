-- ===== src/Ring/Invariant.antt =====
-- The representation invariant of src/cb.c, and the bytes that a buffer holds.
use kdb_solace.Base.{
  ℕ, ◌+◌, ◌-◌, ◌≤◌, ◌<◌, ◌≡◌, refl, ◌++◌, [], pos, leb, if◌then◌else◌, arith, length, take, drop,
  length-append, length-take, length-drop, length-replicate, le→leb, lt→leb,
}
use kdb_solace.Memory.{Bytes}
use kdb_solace.Ring.{Cb, cb_init, cb_size, cb_space}

pub record IsValid (b : Cb) : Type 0 where
  pub storage : length b.d ≡ b.n
  pub head : b.h < b.n
  pub tail : b.t < b.n

-- The bytes from the head to the tail, round the end of the storage, oldest first.
unfoldable pub contents : Cb → Bytes
contents b = if leb b.h b.t then take (b.t - b.h) (drop b.h b.d) else drop b.h b.d ++ take b.t b.d

pub contents_straight : (b : Cb) → b.h ≤ b.t → contents b ≡ take (b.t - b.h) (drop b.h b.d)
unfolding contents
contents_straight b p = ground (arith, le→leb b.h b.t p)

pub contents_wrapped : (b : Cb) → b.t < b.h → contents b ≡ drop b.h b.d ++ take b.t b.d
unfolding contents
contents_wrapped b p = ground (arith, lt→leb b.h b.t p)

-- How many bytes are held.
abbrev pub count : Cb → ℕ
count b = if leb b.h b.t then b.t - b.h else b.t + b.n - b.h

pub length-contents : (b : Cb) → IsValid b → length (contents b) ≡ count b
unfolding contents
length-contents b v = ground (
  arith,
  length-take (b.t - b.h) (drop b.h b.d),
  length-drop b.h b.d,
  length-append (drop b.h b.d) (take b.t b.d),
  length-take b.t b.d,
)

pub size-count : (b : Cb) → IsValid b → cb_size b ≡ pos (count b)
unfolding cb_size
size-count b v = ground arith

pub space-count : (b : Cb) → IsValid b → cb_space b ≡ pos (b.n - 1 - count b)
unfolding cb_space
space-count b v = ground arith

pub count-lt : (b : Cb) → IsValid b → count b < b.n
count-lt b v = ground arith

-- `cb_size` is the number of bytes held, and with `cb_space` and one spare byte it makes up the
-- capacity.
pub size-space :
    (b : Cb)
    → IsValid b
    → (cb_size b ≡ pos (length (contents b)))
      × (cb_space b ≡ pos (b.n - 1 - length (contents b)))
      × (length (contents b) + 1 ≤ b.n)
size-space b v = ground (arith, length-contents b v, size-count b v, space-count b v, count-lt b v)

pub init-IsValid : (n : ℕ) → 0 < n → IsValid (cb_init n) × (length (contents (cb_init n)) ≡ 0)
unfolding cb_init contents
init-IsValid n p = (record { storage = length-replicate n 0; head = p; tail = p }, refl)

pub contents-init : (n : ℕ) → contents (cb_init n) ≡ []
unfolding cb_init contents
contents-init n = refl

pub cap-init : (n : ℕ) → (cb_init n).n ≡ n
unfolding cb_init
cap-init n = refl
