-- ===== src/Fifo/Inv.antt =====
-- The invariant of `struct fifo_buffer`, and what each operation does to the bytes held.
use mpd_legacy.Common.{
  ℕ, ◌+◌, ◌-◌, ◌≤◌, ◌<◌, ◌≡◌, refl, ap, ◌∙◌, ◌⊎◌, inl, inr, Option, none, some, ◌&&◌, List, ◌++◌,
  arith, ltb, ◌==◌, if◌then◌else◌, if_cases, slice, length, drop, store, length-slice, slice-cong,
  slice-append, drop-slice, store_outside, slice-store,
}
use mathlib.Core.Path.{ap₂}
use mpd_legacy.Fifo.{FifoBuffer, contents, move, write, room, consume, append, clear}

pub record IsValid (b : FifoBuffer) : Type 0 where
  pub ordered : b.start ≤ b.end
  pub inside : b.end ≤ b.size
  pub sized : 0 < b.size

-- `b'` holds what `b` does, in as many bytes.
pub record Keeps (b b' : FifoBuffer) : Type 0 where
  pub valid : IsValid b'
  pub size : b'.size ≡ b.size
  pub contents : contents b' ≡ contents b

Keeps-refl : {b : FifoBuffer} → IsValid b → Keeps b b
Keeps-refl v = record { valid = v; size = refl; contents = refl }

pub length-contents : (b : FifoBuffer) → length (contents b) ≡ b.end - b.start
length-contents b = length-slice b.buffer b.start (b.end - b.start)

moved_slice :
    (b : FifoBuffer)
    → slice
        (if ltb b.start b.end
          then (λ i. if ltb i (b.end - b.start) then b.buffer (b.start + i) else b.buffer i)
          else b.buffer)
        0
        (b.end - b.start - 0)
      ≡ contents b
moved_slice b =
    let z : b.end - b.start - 0 ≡ b.end - b.start = omega arith in
    rw z (slice-cong _ b.buffer 0 b.start (b.end - b.start) (λ k lt. ground arith))

pub move-Keeps : {b : FifoBuffer} → IsValid b → Keeps b (move b) × ((move b).start ≡ 0)
unfolding move
move-Keeps {b} v =
    if_cases (λ s. Keeps b s × (s.start ≡ 0)) (b.start == 0)
      (λ at. (Keeps-refl v, ground (arith, at)))
      (λ _. (record { valid = omega arith; size = refl; contents = moved_slice b }, refl))

pub clear-Keeps : {b : FifoBuffer} → IsValid b → b.start ≡ b.end → Keeps b (clear b)
unfolding clear
clear-Keeps {b} v e = record {
  valid = omega arith;
  size = refl;
  contents =
      ground (
        arith,
        ap (λ n. slice b.buffer b.start n) (let z : b.end - b.start ≡ 0 = omega arith in z),
      );
}

-- What `fifo_buffer_write` promises: the offset given is the end, and all the room behind it may be
-- used; there is none when the buffer is full. The bytes held stay.
pub record Offers (b : FifoBuffer) (w : Option (ℕ × ℕ) × FifoBuffer) : Type 0 where
  pub keeps : Keeps b w.1
  pub place :
      ((w.0 ≡ some (w.1.end, w.1.size - w.1.end)) × (w.1.end < w.1.size))
      ⊎ ((w.0 ≡ none) × (length (contents b) ≡ b.size))

room-Offers : {b b' : FifoBuffer} → Keeps b b' → b'.end < b'.size → Offers b (room b')
unfolding room
room-Offers k h = record { keeps = k; place = inl (refl, h) }

pub write_lem : {b : FifoBuffer} → IsValid b → Offers b (write b)
unfolding write
write_lem {b} v =
    let (k, at) = move-Keeps v in
    if_cases (Offers b) (b.end == b.size)
      (λ _.
        if_cases (Offers b) ((move b).end == (move b).size)
          (λ full. record {
            keeps = k;
            place = inr (
              refl,
              ground (
                arith,
                full,
                at,
                k.size,
                ap length k.contents,
                length-contents b,
                length-contents (move b),
              ),
            );
          })
          (λ free. room-Offers k (ground (arith, free, k.valid))))
      (λ free.
        if_cases (Offers b) (ltb 0 b.start && b.start == b.end)
          (λ drained.
            room-Offers (clear-Keeps v (ground (arith, drained)))
              (unfold clear in ground (arith, free, v)))
          (λ _. room-Offers (Keeps-refl v) (ground (arith, free, v))))

-- Bytes written at the end and appended.
abbrev pub stored : FifoBuffer → List ℕ → FifoBuffer
stored b bytes = record b { buffer = store b.buffer b.end bytes }

pub contents-append :
    {b : FifoBuffer} (bytes : List ℕ)
    → IsValid b
    → b.end + length bytes ≤ b.size
    → contents (append (stored b bytes) (length bytes)) ≡ contents b ++ bytes
unfolding append
contents-append {b} bytes v h =
    let n = b.end - b.start in
    let e : b.end + length bytes - b.start ≡ n + length bytes = omega arith in
    let e' : b.start + n ≡ b.end = omega arith in
    ap (slice (store b.buffer b.end bytes) b.start) e
    ∙ slice-append (store b.buffer b.end bytes) b.start n (length bytes)
    ∙ ap₂ ◌++◌
        (slice-cong (store b.buffer b.end bytes) b.buffer b.start b.start n
          (λ k lt. store_outside b.buffer b.end (b.start + k) bytes (omega arith)))
        (ap (λ p. slice (store b.buffer b.end bytes) p (length bytes)) e'
          ∙ slice-store b.buffer b.end bytes)

pub contents-consume :
    {b : FifoBuffer} (n : ℕ)
    → IsValid b
    → b.start + n ≤ b.end
    → contents (consume b n) ≡ drop n (contents b)
unfolding consume
contents-consume {b} n v h =
    let e : b.end - (b.start + n) ≡ b.end - b.start - n = omega arith in
    rw (e, drop-slice b.buffer b.start n (b.end - b.start) (omega arith))
