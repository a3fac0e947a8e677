-- ===== src/Rewind/Tests.antt =====
-- Going back in a stream that gives at most four bytes at a time.
use mpd_legacy.Common.{
  ℕ, ◌+◌, ◌≤◌, ◌≡◌, refl, ap, sym, some, none, true, false, [], ◌∷◌, arith, ltb, if◌then◌else◌,
  slice, length-slice,
}
use mpd_legacy.Common.Int.{negsuc}
use mpd_legacy.Rewind.{
  Attributes, seek_set, IsRead, Stream, Rewind, reading_from_buffer, copy_attributes, buffered_read,
  keep_bytes, after_read, read, seek, open_over,
}
use mpd_legacy.Rewind.Reads.{opened, then_step, reads, seeks, read_lem}

abbrev at_most_four : ℕ → ℕ
at_most_four n = if ltb 4 n then 4 else n

abbrev attributes_at : ℕ → Attributes
attributes_at offset = record {
  ready = true;
  seekable = false;
  size = negsuc 0;
  offset = offset;
  mime = none;
}

at_most_four-IsRead :
    (offset size : ℕ)
    → IsRead
        (λ k. k + 100)
        offset
        size
        (some (slice (λ k. k + 100) offset (at_most_four size)))
        (offset + at_most_four size)
unfolding IsRead
at_most_four-IsRead offset size =
    let long = length-slice (λ k. k + 100) offset (at_most_four size) in
    let few : at_most_four size ≤ size = ground arith in
    (omega (arith, long, few), ap (slice (λ k. k + 100) offset) (sym long), omega (arith, long))

-- The byte at each offset is the offset and 100; it cannot seek.
abbrev slow : Stream ℕ
slow = record {
  content = λ k. k + 100;
  attributes = attributes_at;
  read = λ s size. (some (slice (λ k. k + 100) s (at_most_four size)), s + at_most_four size);
  seek = λ s target. (false, s);
  eof = λ s. false;
  available = λ s. true;
  reads = at_most_four-IsRead;
}

abbrev memory : Rewind ℕ
memory = record { base = attributes_at 7; input = 9; head = 3; tail = 5; buffer = λ k. 0 }

abbrev start : Rewind ℕ
start = open_over slow memory 0

-- Five bytes are asked for twice, and then the stream is set back to 2.
abbrev went_back : Rewind ℕ
went_back = (seek slow (read slow (read slow start 5).1 5).1 (seek_set 2)).1

reads_again : (read slow went_back 10).0 ≡ some (102 ∷ 103 ∷ 104 ∷ 105 ∷ 106 ∷ 107 ∷ [])
unfolding read seek open_over reading_from_buffer buffered_read after_read keep_bytes
    copy_attributes
reads_again = refl

read_example :
    let (got, r') = read slow went_back 10 in
    IsRead (λ k. k + 100) went_back.base.offset 10 got r'.base.offset
read_example = read_lem slow memory went_back 0 10 refl (
    then_step (then_step (then_step opened (reads start 5)) (reads (read slow start 5).1 5))
      (seeks (read slow (read slow start 5).1 5).1 (seek_set 2)))
