-- ===== src/Rewind/Inv.antt =====
-- What src/input/rewind.c keeps: the buffer holds the first bytes of the stream beneath, which stands
-- behind them.
use mpd_legacy.Common.{
  ℕ, zero, suc, ◌+◌, ◌-◌, ◌≤◌, ◌<◌, ◌≡◌, refl, ap, sym, ◌∙◌, inl, inr, Option, Bool, true, false,
  ◌&&◌, List, arith, ltb, leb, ◌==◌, if◌then◌else◌, if_cases, slice, store, update as set_entry,
  store_outside, slice-cong, length-slice, Bool-cases, ltb→lt,
}
use mpd_legacy.Rewind.{
  Seek, seek_set, seek_cur, seek_end, IsRead, Stream, Rewind, buffer_size, reading_from_buffer,
  copy_attributes, update, buffered_read, seek_input, seek, open_over,
}

-- The bytes of the content written where they stand.
pub store-slice :
    (a content : ℕ → ℕ) (p n k : ℕ)
    → p ≤ k
    → k < p + n
    → store a p (slice content p n) k ≡ content k
store-slice a content p zero k h lt = absurd (omega arith)
store-slice a content p (suc n) k h lt = elim (Bool-cases (p == k)) [
  | inl at ↦
      let e : p ≡ k = ground (arith, at) in
      store_outside (set_entry a p (content p)) (suc p) k (slice content (suc p) n)
        (omega (arith, e))
      ∙ ground (arith, at, e)
  | inr other ↦
      store-slice (set_entry a p (content p)) content (suc p) n k (ground (arith, other))
        (omega arith)
]

module _ {S : Type 0} (stream : Stream S) where
  abbrev pub input_offset : Rewind S → ℕ
  input_offset r = (stream.attributes r.input).offset

  pub record IsRewound (r : Rewind S) : Type 0 where
    pub level : r.tail ≡ 0 → r.base.offset ≡ input_offset r
    pub filled : 0 < r.tail → (r.tail ≡ input_offset r) × (r.base.offset ≤ r.tail)
    pub at_head : 0 < r.tail → r.base.offset < r.tail → r.head ≡ r.base.offset
    pub room : r.tail ≤ buffer_size
    pub held : (k : ℕ) → k < r.tail → r.buffer k ≡ stream.content k

  pub open-IsRewound :
      (memory : Rewind S) (s : S)
      → (stream.attributes s).offset ≡ 0
      → IsRewound (open_over stream memory s)
  unfolding open_over
  open-IsRewound memory s start = record {
    level = λ e. sym start;
    filled = λ lt. absurd (omega arith);
    at_head = λ lt. absurd (omega arith);
    room = omega arith;
    held = λ k lt. absurd (omega arith);
  }

  -- Attributes copied where the offsets agree.
  copied-IsRewound :
      (r : Rewind S)
      → IsRewound r
      → r.base.offset ≡ input_offset r
      → IsRewound (copy_attributes stream r)
  unfolding copy_attributes
  copied-IsRewound r v same = record {
    level = λ e. refl;
    filled = λ lt. omega (arith, v.filled lt, same);
    at_head = λ lt below. absurd (omega (arith, v.filled lt, below));
    room = v.room;
    held = v.held;
  }

  inside :
      (r : Rewind S)
      → reading_from_buffer stream r ≡ true
      → IsRewound r
      → (0 < r.tail) × (r.base.offset < r.tail)
  unfolding reading_from_buffer
  inside r e v =
      let some_kept : 0 < r.tail = ground (arith, e) in
      (some_kept, ground (arith, e, v.filled some_kept))

  pub outside :
      (r : Rewind S)
      → reading_from_buffer stream r ≡ false
      → IsRewound r
      → r.base.offset ≡ input_offset r
  unfolding reading_from_buffer
  outside r e v = elim (Bool-cases (ltb 0 r.tail)) [
    | inl kept ↦ ground (arith, e, kept, v.filled (ltb→lt 0 r.tail kept))
    | inr none_kept ↦ v.level (ground (arith, none_kept))
  ]

  pub update-IsRewound : (r : Rewind S) → IsRewound r → IsRewound (update stream r)
  unfolding update
  update-IsRewound r v =
      if_cases IsRewound (reading_from_buffer stream r) (λ e. v)
        (λ e. copied-IsRewound r v (outside r e v))

  seek_input-IsRewound :
      (r : Rewind S) (target : Seek) → IsRewound r → IsRewound (seek_input stream r target).1
  unfolding seek_input copy_attributes
  seek_input-IsRewound r target v = record {
    level = λ e. refl;
    filled = λ lt. absurd (omega arith);
    at_head = λ lt. absurd (omega arith);
    room = omega arith;
    held = λ k lt. absurd (omega arith);
  }

  pub seek-IsRewound :
      (r : Rewind S) (target : Seek) → IsRewound r → IsRewound (seek stream r target).1
  unfolding seek
  seek-IsRewound r (seek_set offset) v =
      if_cases (λ (x : Bool × Rewind S). IsRewound x.1) (ltb 0 r.tail && leb offset r.tail)
        (λ e. record {
          level = λ z. absurd (ground (arith, e, z));
          filled = λ lt. ((v.filled lt).0, ground (arith, e));
          at_head = λ lt below. refl;
          room = v.room;
          held = v.held;
        })
        (λ e. seek_input-IsRewound r (seek_set offset) v)
  seek-IsRewound r (seek_cur distance) v = seek_input-IsRewound r (seek_cur distance) v
  seek-IsRewound r (seek_end distance) v = seek_input-IsRewound r (seek_end distance) v

  -- What a read promises of the offset, the bytes and the state behind it.
  abbrev pub ReadsOn : Rewind S → ℕ → Option (List ℕ) × Rewind S → Type 0
  ReadsOn r size (got, r') =
      IsRead stream.content r.base.offset size got r'.base.offset × IsRewound r'

  pub buffered_read-ReadsOn :
      (r : Rewind S) (size : ℕ)
      → IsRewound r
      → reading_from_buffer stream r ≡ true
      → ReadsOn r size (buffered_read stream r size)
  unfolding buffered_read IsRead
  buffered_read-ReadsOn r size v e =
      let (kept, below) = inside r e v in
      let at_head = v.at_head kept below in
      let n : ℕ = if ltb (r.tail - r.head) size then r.tail - r.head else size in
      let few : n ≤ r.tail - r.base.offset = ground (arith, at_head) in
      let asked : n ≤ size = ground arith in
      let long = length-slice r.buffer r.head n in
      (
        (
          omega (arith, long, asked),
          slice-cong r.buffer stream.content r.head r.base.offset n (λ k lt.
                v.held (r.head + k) (omega (arith, few, at_head, lt, below))
                ∙ ap (λ h. stream.content (h + k)) at_head)
              ∙ ap (slice stream.content r.base.offset) (sym long),
          omega (arith, long),
        ),
        record {
          level = λ z. absurd (omega (arith, z, kept));
          filled = λ lt. ((v.filled lt).0, omega (arith, few, below));
          at_head = λ lt below'. omega (arith, at_head);
          room = v.room;
          held = v.held;
        },
      )
