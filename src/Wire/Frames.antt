-- ===== src/Wire/Frames.antt =====
-- The frames in the circular buffer: eight bytes of length, then the message.
use kdb_solace.Base.{
  ℕ, zero, suc, ◌+◌, ◌/◌, ◌^◌, ◌≤◌, ◌<◌, ◌≡◌, refl, sym, ap, ◌∙◌, List, [], ◌∷◌, ◌++◌, true, arith,
  length, take, drop, replicate, length-append, length-drop, length-replicate, drop-drop,
  append_assoc, take-append_left, drop-append_right, take_all,
}
use kdb_solace.Memory.{Bytes, overwrite, slice, memcpy-some, overwrite_whole, length-slice}
use kdb_solace.Wire.{
  max_msg_size, le_bytes, of_le, frame, read_frame, frame_payload, is_message_size,
}

pub length-le_bytes : (k v : ℕ) → length (le_bytes k v) ≡ k
unfolding le_bytes
length-le_bytes zero v = refl
length-le_bytes (suc k) v = ap suc (length-le_bytes k (v / 256))

-- The eight bytes of a length read back as that length.
pub of_le-le_bytes : (v : ℕ) → v < 2 ^ 64 → of_le (le_bytes 8 v) ≡ v
unfolding of_le le_bytes
of_le-le_bytes v h = omega arith

-- A message that `write_to_buffer` lets through and `callback` asserts.
pub record IsSmall (m : Bytes) : Type 0 where
  pub some_bytes : 0 < length m
  pub below : length m < max_msg_size

unfoldable pub frame_bytes : Bytes → Bytes
frame_bytes m = le_bytes 8 (length m) ++ m

-- The bytes of the frames of several messages.
abbrev pub frames : List Bytes → Bytes
frames [] = []
frames (m ∷ ms) = frame_bytes m ++ frames ms

pub length-frame_bytes : (m : Bytes) → length (frame_bytes m) ≡ length m + 8
unfolding frame_bytes
length-frame_bytes m =
    omega (arith, length-append (le_bytes 8 (length m)) m, length-le_bytes 8 (length m))

pub frames-append : (ms ks : List Bytes) → frames (ms ++ ks) ≡ frames ms ++ frames ks
frames-append [] ks = refl
frames-append (m ∷ ms) ks =
    ap (λ l. frame_bytes m ++ l) (frames-append ms ks)
    ∙ sym (append_assoc (frame_bytes m) (frames ms) (frames ks))

-- At the start of a frame `callback` reads its message, whatever follows.
pub read_frame-frame :
    (rbuf m rest : Bytes) (offset : ℕ)
    → IsSmall m
    → drop offset rbuf ≡ frame_bytes m ++ rest
    → read_frame rbuf offset ≡ frame m
unfolding read_frame frame_payload
read_frame-frame rbuf m rest offset small at = rw (
  memcpy-some (replicate 8 0) 0 rbuf offset 8 (omega arith) (omega (arith, inside)),
  word,
  of_le-le_bytes (length m) (omega (arith, small.below)),
  accepted,
  memcpy-some (replicate (length m) 0) 0 rbuf (offset + 8) (length m)
      (omega (arith, length-replicate {A = ℕ} (length m) 0)) (omega (arith, inside)),
  payload,
)
  where
    inside : offset + 8 + length m ≤ length rbuf
    inside = omega (
      arith,
      length-drop offset rbuf,
      ap length at,
      length-append (frame_bytes m) rest,
      length-frame_bytes m,
    )

    at' : drop offset rbuf ≡ le_bytes 8 (length m) ++ (m ++ rest)
    at' = at ∙ unfold frame_bytes in append_assoc (le_bytes 8 (length m)) m rest

    word : overwrite (replicate 8 0) 0 (slice rbuf offset 8) ≡ le_bytes 8 (length m)
    word =
        overwrite_whole (replicate 8 0) (slice rbuf offset 8)
          (length-slice rbuf offset 8 (omega (arith, inside)))
        ∙ ap (take 8) at'
        ∙ take-append_left 8 (le_bytes 8 (length m)) (m ++ rest)
            (omega (arith, length-le_bytes 8 (length m)))
        ∙ take_all 8 (le_bytes 8 (length m)) (omega (arith, length-le_bytes 8 (length m)))

    accepted : is_message_size (length m) ≡ true
    accepted = ground (arith, small.below, small.some_bytes)

    behind : drop (offset + 8) rbuf ≡ m ++ rest
    behind =
        ap (λ j. drop j rbuf) {y = 8 + offset} (omega arith)
        ∙ sym (drop-drop 8 offset rbuf)
        ∙ ap (drop 8) at'
        ∙ ap (λ j. drop j (le_bytes 8 (length m) ++ (m ++ rest))) {x = 8}
            {y = length (le_bytes 8 (length m)) + 0} (omega (arith, length-le_bytes 8 (length m)))
        ∙ drop-append_right 0 (le_bytes 8 (length m)) (m ++ rest)

    payload : overwrite (replicate (length m) 0) 0 (slice rbuf (offset + 8) (length m)) ≡ m
    payload =
        overwrite_whole (replicate (length m) 0) (slice rbuf (offset + 8) (length m)) (
          length-slice rbuf (offset + 8) (length m) (omega (arith, inside))
          ∙ sym (length-replicate (length m) 0))
        ∙ ap (take (length m)) behind
        ∙ take-append_left (length m) m rest (omega arith)
        ∙ take_all (length m) m (omega arith)
