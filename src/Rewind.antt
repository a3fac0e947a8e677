-- ===== src/Rewind.antt =====
-- src/input/rewind.c: an input stream that keeps the first bytes of another one, to go back to them. The
-- prefix `input_rewind_` of the functions is the module. The stream beneath is an interface: its
-- states, its attributes, and its operations, of bytes that stand at each offset. A failed read is
-- `none`. A seek to an absolute offset is to no negative one.
use mpd_legacy.Common.{
  ℕ, zero, suc, ◌+◌, ◌-◌, ◌*◌, ◌≤◌, ◌<◌, ◌≡◌, Option, none, some, Bool, true, false, ◌&&◌, not,
  List, [], ◌∷◌, ltb, leb, ◌==◌, if◌then◌else◌, slice, store, length,
}
use mpd_legacy.Common.Int.{ℤ}
pub mod Inv
pub mod Reads
mod Tests

pub record Attributes : Type 0 where
  pub ready : Bool
  pub seekable : Bool
  pub size : ℤ
  pub offset : ℕ
  pub mime : Option (List ℕ)

-- SEEK_SET, SEEK_CUR and SEEK_END
pub data Seek : Type 0 where
  seek_set : ℕ → Seek
  seek_cur seek_end : ℤ → Seek

-- The bytes that a read gives are those at the offset, no more than asked for, and the offset goes on
-- behind them; where it fails the offset stays.
unfoldable pub IsRead : (ℕ → ℕ) → ℕ → ℕ → Option (List ℕ) → ℕ → Type 0
IsRead content offset size none offset' = offset' ≡ offset
IsRead content offset size (some bytes) offset' =
    (length bytes ≤ size)
    × (bytes ≡ slice content offset (length bytes))
    × (offset' ≡ offset + length bytes)

pub record Stream (S : Type 0) : Type 0 where
  pub content : ℕ → ℕ
  pub attributes : S → Attributes
  pub read : S → ℕ → Option (List ℕ) × S
  pub seek : S → Seek → Bool × S
  pub eof : S → Bool
  pub available : S → Bool
  pub reads :
      (s : S) (size : ℕ)
      → IsRead content
          (attributes s).offset
          size
          (read s size).0
          (attributes (read s size).1).offset

pub record Rewind (S : Type 0) : Type 0 where
  pub base : Attributes
  pub input : S
  pub head : ℕ
  pub tail : ℕ
  pub buffer : ℕ → ℕ

-- `sizeof(r->buffer)`
abbrev pub buffer_size : ℕ
buffer_size = 64 * 1024

module _ {S : Type 0} (stream : Stream S) where
  unfoldable pub reading_from_buffer : Rewind S → Bool
  reading_from_buffer r = ltb 0 r.tail && ltb r.base.offset (stream.attributes r.input).offset

  -- The MIME type is copied when the stream becomes ready.
  unfoldable pub copy_attributes : Rewind S → Rewind S
  copy_attributes r =
      let src = stream.attributes r.input in
      record r {
        base = record {
          ready = src.ready;
          seekable = src.seekable;
          size = src.size;
          offset = src.offset;
          mime = if not r.base.ready && src.ready then src.mime else r.base.mime;
        };
      }

  unfoldable pub update : Rewind S → Rewind S
  update r = if reading_from_buffer r then r else copy_attributes r

  unfoldable pub available : Rewind S → Bool
  available r = stream.available r.input

  -- A read within the buffer.
  unfoldable pub buffered_read : Rewind S → ℕ → Option (List ℕ) × Rewind S
  buffered_read r size =
      let n = if ltb (r.tail - r.head) size then r.tail - r.head else size in
      (
        some (slice r.buffer r.head n),
        record r { head = r.head + n; base = record (r.base) { offset = r.base.offset + n } },
      )

  -- What a read of the stream beneath adds to the buffer.
  unfoldable pub keep_bytes : Rewind S → List ℕ → Rewind S
  keep_bytes r bytes =
      if ltb buffer_size (stream.attributes r.input).offset
      then record r { tail = 0 }
      else if r.tail == r.base.offset
      then record r { buffer = store r.buffer r.tail bytes; tail = r.tail + length bytes }
      else r

  unfoldable pub after_read : Rewind S → Option (List ℕ) → Option (List ℕ) × Rewind S
  after_read r none = (none, r)
  after_read r (some bytes) = (some bytes, copy_attributes (keep_bytes r bytes))

  unfoldable pub read : Rewind S → ℕ → Option (List ℕ) × Rewind S
  read r size =
      let (got, s) = stream.read r.input size in
      if reading_from_buffer r
      then buffered_read r size
      else after_read (record r { input = s }) got

  unfoldable pub eof : Rewind S → Bool
  eof r = not (reading_from_buffer r) && stream.eof r.input

  -- The seek of the stream beneath, by which the buffer is given up.
  unfoldable pub seek_input : Rewind S → Seek → Bool × Rewind S
  seek_input r target =
      let (moved, s) = stream.seek r.input target in
      (moved, record (copy_attributes (record r { input = s })) { tail = 0 })

  unfoldable pub seek : Rewind S → Seek → Bool × Rewind S
  seek r (seek_set offset) =
      if ltb 0 r.tail && leb offset r.tail
      then (true, record r { head = offset; base = record (r.base) { offset = offset } })
      else seek_input r (seek_set offset)
  seek r (seek_cur distance) = seek_input r (seek_cur distance)
  seek r (seek_end distance) = seek_input r (seek_end distance)

  -- The stream that `input_rewind_open` puts over another one; `memory` is what stands in the new bytes,
  -- and `input_stream_init` clears the attributes.
  unfoldable pub open_over : Rewind S → S → Rewind S
  open_over memory s = record memory {
    base = record { ready = false; seekable = false; size = ℤ.negsuc 0; offset = 0; mime = none };
    tail = 0;
    input = s;
  }
