-- ===== src/Fifo/Growing.antt =====
-- src/growing_fifo.c: a `fifo_buffer` that is made larger when its room is too short. A size is a
-- 64-bit `size_t`. A `memcpy` through a null pointer and one past the buffer are results of their
-- own; the assertions of the source are not needed for that.
use Prim.Native.Nat.{bit_or}
use mpd_legacy.Common.{
  ℕ, ◌+◌, ◌-◌, ◌%◌, ◌^◌, ◌≤◌, ◌<◌, ◌≡◌, ap, ◌⊎◌, inl, inr, Option, none, some, List, ◌++◌, arith,
  ltb, leb, if◌then◌else◌, if_cases, length, store, slice-cong,
}
use mpd_legacy.Common.Bits.{bit_or_8191}
use mpd_legacy.Fifo.{
  FifoBuffer, contents, new as fifo_new, write as fifo_write, append as fifo_append, available,
  realloc, move, room, clear,
}
use mpd_legacy.Fifo.Inv.{IsValid, write_lem, contents-append, length-contents}

abbrev pub growing_fifo_align : ℕ
growing_fifo_align = 8192

unfoldable pub align : ℕ → ℕ
align size = (bit_or ((size + 2 ^ 64 - 1) % 2 ^ 64) (growing_fifo_align - 1) + 1) % 2 ^ 64

unfoldable pub new : (ℕ → ℕ) → FifoBuffer
new memory = fifo_new memory growing_fifo_align

-- What `memcpy` comes to: the buffer with the bytes, or a write to where there is none.
pub data Filled : Type 0 where
  filled : FifoBuffer → Filled
  through_null past_end : Filled

-- `memcpy` of the bytes to the offset, if it is one and there is room, and the new end.
unfoldable pub fill : List ℕ → Option (ℕ × ℕ) × Option FifoBuffer → Filled
fill bytes (none, b) = through_null
fill bytes (some p, none) = through_null
fill bytes (some (p, max_length), some b) =
    if ltb max_length (length bytes)
    then past_end
    else filled (fifo_append (record b { buffer = store b.buffer p bytes }) (length bytes))

module _ (memory : ℕ → ℕ) where
  -- `*buffer_p` and the pointer where the buffer has grown by `realloc`.
  unfoldable pub grow : FifoBuffer → ℕ → Option (ℕ × ℕ) × Option FifoBuffer
  grow b length =
      let new_size = (available b + length) % 2 ^ 64 in
      elim (realloc memory (some b) (align new_size)) [
        | none ↦ (none, none)
        | some b' ↦ let (r, b'') = fifo_write b' in (r, some b'')
      ]

  -- The offset to write at with the room there, and the buffer.
  unfoldable pub write : FifoBuffer → ℕ → Option (ℕ × ℕ) × Option FifoBuffer
  unfolding grow
  write b length =
      let (r, b') = fifo_write b in
      elim r [
        | none ↦ grow b' length
        | some (p, max_length) ↦
            if leb length max_length then (some (p, max_length), some b') else grow b' length
      ]

  unfoldable pub append : FifoBuffer → List ℕ → Filled
  unfolding write fill
  append b bytes = fill bytes (write b (length bytes))

-- The smallest multiple of 8192 from the size on.
pub align_lem :
    (n : ℕ)
    → 0 < n
    → n ≤ 2 ^ 63
    → (align n % growing_fifo_align ≡ 0) × (n ≤ align n) × (align n < n + growing_fifo_align)
unfolding align
align_lem n h k =
    let e : (n + 2 ^ 64 - 1) % 2 ^ 64 ≡ n - 1 = omega arith in
    rw e (omega (arith, bit_or_8191 (n - 1)))

-- A buffer is there, and holds these bytes.
abbrev pub Holds : Filled → List ℕ → Type 0
Holds through_null bytes = ⊥
Holds past_end bytes = ⊥
Holds (filled b) bytes = IsValid b × (contents b ≡ bytes)

-- Room enough for the bytes: they are stored behind those held.
fill_lem :
    {b : FifoBuffer} (bytes : List ℕ)
    → IsValid b
    → length bytes ≤ b.size - b.end
    → Holds (fill bytes (some (b.end, b.size - b.end), some b)) (contents b ++ bytes)
unfolding fill
fill_lem {b} bytes v h =
    if_cases (λ r. Holds r (contents b ++ bytes)) (ltb (b.size - b.end) (length bytes))
      (λ short. absurd (ground (arith, short)))
      (λ _.
        let inside = v.inside in
        let ordered = v.ordered in
        let fits : b.end + length bytes ≤ b.size = omega arith in
        (
          unfold fifo_append in
              record { ordered = omega arith; inside = omega arith; sized = v.sized },
          contents-append bytes v fits,
        ))

-- The bytes held lie at the start of the buffer or are none, or the buffer is written to its end, or
-- there is room for `length` bytes behind them.
abbrev pub IsSettled : FifoBuffer → ℕ → Type 0
IsSettled b length =
    (b.start ≡ 0) ⊎ ((b.start ≡ b.end) ⊎ ((b.end ≡ b.size) ⊎ (b.end + length ≤ b.size)))

-- Then the bytes are at the start once `fifo_buffer_write` is done, or there is room.
write_start :
    (b : FifoBuffer) (length : ℕ)
    → IsSettled b length
    → let b' = (fifo_write b).1 in (b'.start ≡ 0) ⊎ (b'.end + length ≤ b'.size)
unfolding fifo_write room move clear
write_start b length h = ground arith

module _ (memory : ℕ → ℕ) where
  grown : FifoBuffer → ℕ → FifoBuffer
  grown b n = record b { buffer = λ i. if ltb i b.size then b.buffer i else memory i; size = n }

  grow_parts :
      (b : FifoBuffer) (length : ℕ)
      → b.start ≡ 0
      → b.end ≤ b.size
      → b.size < b.end + length
      → b.end + length ≤ 2 ^ 63
      → let b' = grown b (align (b.end + length)) in
        grow memory b length ≡ (some (b'.end, b'.size - b'.end), some b')
  unfolding grow realloc grown available fifo_write room clear
  grow_parts b length at inside short small = ground (arith, align_lem (b.end + length))

  grow_lem :
      {b : FifoBuffer} (bytes : List ℕ)
      → IsValid b
      → b.start ≡ 0
      → b.size < b.end + length bytes
      → b.end + length bytes ≤ 2 ^ 63
      → Holds (fill bytes (grow memory b (length bytes))) (contents b ++ bytes)
  unfolding grown
  grow_lem {b} bytes v at short small =
      let n = align (b.end + length bytes) in
      let aligned = align_lem (b.end + length bytes) (omega arith) small in
      let v' : IsValid (grown b n) = record {
        ordered = v.ordered;
        inside = omega (arith, v.inside);
        sized = omega arith;
      } in
      let same : contents (grown b n) ≡ contents b =
        slice-cong _ b.buffer b.start b.start (b.end - b.start)
          (λ k lt. ground (arith, v.inside)) in
      rw (grow_parts b (length bytes) at v.inside short small, ← same)
        (fill_lem {b = grown b n} bytes v' (omega arith))

  write_parts :
      (b : FifoBuffer) (length : ℕ) (r : Option (ℕ × ℕ))
      → (fifo_write b).0 ≡ r
      → write memory b length ≡ elim r [
        | none ↦ grow memory (fifo_write b).1 length
        | some (p, max_length) ↦
            if leb length max_length
            then (some (p, max_length), some (fifo_write b).1)
            else grow memory (fifo_write b).1 length
      ]
  unfolding write
  write_parts b length r e =
      ap
        (λ (r : Option (ℕ × ℕ)). elim r as (λ _. Option (ℕ × ℕ) × Option FifoBuffer) [
          | none ↦ grow memory (fifo_write b).1 length
          | some (p, max_length) ↦
              if leb length max_length
              then (some (p, max_length), some (fifo_write b).1)
              else grow memory (fifo_write b).1 length
        ])
        e

  -- `growing_fifo_append` adds the bytes behind those held, if the bytes held lie at the start of the
  -- buffer or are none, or the buffer is written to its end, or there is room behind them.
  pub append_lem :
      {b : FifoBuffer} (bytes : List ℕ)
      → IsValid b
      → IsSettled b (length bytes)
      → 0 < length bytes
      → length (contents b) + length bytes ≤ 2 ^ 63
      → Holds (append memory b bytes) (contents b ++ bytes)
  unfolding append
  append_lem {b} bytes v settled some_bytes small =
      let o = write_lem v in
      let k = o.keeps in
      let b' = (fifo_write b).1 in
      let holds =
        λ (w : Option (ℕ × ℕ) × Option FifoBuffer). Holds (fill bytes w) (contents b ++ bytes) in
      let held = length-contents b in
      let held' = length-contents b' in
      let same = ap length k.contents in
      let more : b'.start ≡ 0
          → b'.size < b'.end + length bytes
          → holds (grow memory b' (length bytes)) =
        λ at short. rw (← k.contents) (grow_lem {b = b'} bytes k.valid at short (omega arith)) in
      elim o.place [
        | inr (e, full) ↦
            rw (write_parts b (length bytes) none e)
              (more (omega (arith, k.valid)) (omega (arith, k.valid)))
        | inl (e, free) ↦ rw (write_parts b (length bytes) _ e) (
            if_cases holds (leb (length bytes) (b'.size - b'.end))
              (λ fits. rw (← k.contents) (fill_lem {b = b'} bytes k.valid (ground (arith, fits))))
              (λ short. elim (write_start b (length bytes) settled) [
                | inl at ↦ more at (ground (arith, short))
                | inr fits ↦ absurd (ground (arith, short, fits))
              ]))
      ]
