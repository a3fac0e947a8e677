-- ===== src/Fifo.antt =====
-- src/fifo_buffer.c: a buffer of bytes that is written at its end and read at its start.
-- `struct fifo_buffer` is `FifoBuffer`; the prefix `fifo_buffer_` of the functions is the module. A
-- pointer into the buffer is an offset. `memory` is what malloc and realloc leave in new bytes.
use mpd_legacy.Common.{
  ℕ, ◌+◌, ◌-◌, ◌≤◌, ◌<◌, Option, none, some, Bool, ◌&&◌, List, [], ◌∷◌, ltb, leb, ◌==◌,
  if◌then◌else◌, slice,
}
pub mod Inv
pub mod Growing
mod Tests

pub record FifoBuffer : Type 0 where
  pub size : ℕ
  pub start : ℕ
  pub end : ℕ
  pub buffer : ℕ → ℕ

unfoldable pub new : (ℕ → ℕ) → ℕ → FifoBuffer
new memory size = record { size = size; start = 0; end = 0; buffer = memory }

unfoldable pub capacity : FifoBuffer → ℕ
capacity b = b.size

unfoldable pub available : FifoBuffer → ℕ
available b = b.end - b.start

unfoldable pub clear : FifoBuffer → FifoBuffer
clear b = record b { start = 0; end = 0 }

-- The offset of the first byte, and the number of bytes.
unfoldable pub read : FifoBuffer → Option (ℕ × ℕ)
read b = if b.start == b.end then none else some (b.start, b.end - b.start)

unfoldable pub consume : FifoBuffer → ℕ → FifoBuffer
consume b length = record b { start = b.start + length }

-- `memmove` to the start.
unfoldable pub move : FifoBuffer → FifoBuffer
move b =
    let moved : ℕ → ℕ =
      λ i. if ltb i (b.end - b.start) then b.buffer (b.start + i) else b.buffer i in
    let buffer = if ltb b.start b.end then moved else b.buffer in
    if b.start == 0 then b else record b { buffer = buffer; end = b.end - b.start; start = 0 }

-- The offset to write at and the number of bytes that may be written there.
unfoldable pub room : FifoBuffer → Option (ℕ × ℕ) × FifoBuffer
room b = (some (b.end, b.size - b.end), b)

unfoldable pub write : FifoBuffer → Option (ℕ × ℕ) × FifoBuffer
unfolding move clear room
write b =
    let moved = move b in
    if b.end == b.size
    then if moved.end == moved.size then (none, moved) else room moved
    else if ltb 0 b.start && b.start == b.end
    then room (clear b)
    else room b

unfoldable pub append : FifoBuffer → ℕ → FifoBuffer
append b length = record b { end = b.end + length }

unfoldable pub is_empty : FifoBuffer → Bool
is_empty b = b.start == b.end

unfoldable pub is_full : FifoBuffer → Bool
is_full b = b.start == 0 && b.end == b.size

-- `none` is the null pointer.
unfoldable pub realloc : (ℕ → ℕ) → Option FifoBuffer → ℕ → Option FifoBuffer
realloc memory none new_size = if ltb 0 new_size then some (new memory new_size) else none
realloc memory (some b) new_size =
    let b' = if ltb new_size b.end then move b else b in
    let buffer : ℕ → ℕ = λ i. if ltb i b'.size then b'.buffer i else memory i in
    if new_size == 0 then none else some (record b' { buffer = buffer; size = new_size })

-- What the buffer holds.
abbrev pub contents : FifoBuffer → List ℕ
contents b = slice b.buffer b.start (b.end - b.start)
