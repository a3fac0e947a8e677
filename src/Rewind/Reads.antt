-- ===== src/Rewind/Reads.antt =====
-- Reads through src/input/rewind.c give what stands at the offset, whatever was read and sought before.
use mpd_legacy.Common.{
  ℕ, ◌+◌, ◌<◌, ◌≡◌, refl, ap, sym, ◌∙◌, inl, inr, Option, none, some, List, arith, ltb, ◌==◌,
  if_cases, slice, store, length, store_outside, Bool-cases, ltb→lt, ltb→le,
}
use mpd_legacy.Rewind.{
  Seek, IsRead, Stream, Rewind, buffer_size, reading_from_buffer, copy_attributes, update,
  keep_bytes, after_read, read, seek, open_over,
}
use mpd_legacy.Rewind.Inv.{
  store-slice, input_offset, IsRewound, open-IsRewound, outside, update-IsRewound, seek-IsRewound,
  ReadsOn, buffered_read-ReadsOn,
}

kept_held :
    (a content : ℕ → ℕ) (p : ℕ) (bytes : List ℕ) (k : ℕ)
    → ((j : ℕ) → j < p → a j ≡ content j)
    → bytes ≡ slice content p (length bytes)
    → k < p + length bytes
    → store a p bytes k ≡ content k
kept_held a content p bytes k held same lt = elim (Bool-cases (ltb k p)) [
  | inl below ↦ store_outside a p k bytes (ltb→lt k p below) ∙ held k (ltb→lt k p below)
  | inr behind ↦
      ap (λ bs. store a p bs k) same
      ∙ store-slice a content p (length bytes) k (ltb→le k p behind) lt
]

module _ {S : Type 0} (stream : Stream S) where
  -- The bytes of a read of the stream beneath are kept, or the buffer is given up.
  keep_bytes-IsRewound :
      (r : Rewind S) (s : S) (bytes : List ℕ)
      → IsRewound stream r
      → r.base.offset ≡ input_offset stream r
      → bytes ≡ slice stream.content r.base.offset (length bytes)
      → (stream.attributes s).offset ≡ r.base.offset + length bytes
      → IsRewound stream (copy_attributes stream (keep_bytes stream (record r { input = s }) bytes))
  unfolding keep_bytes copy_attributes
  keep_bytes-IsRewound r s bytes v level same on =
      if_cases (λ x. IsRewound stream (copy_attributes stream x))
        (ltb buffer_size (stream.attributes s).offset)
        (λ far. record {
          level = λ e. refl;
          filled = λ lt. absurd (omega arith);
          at_head = λ lt. absurd (omega arith);
          room = omega arith;
          held = λ k lt. absurd (omega arith);
        })
        (λ near.
          if_cases (λ x. IsRewound stream (copy_attributes stream x)) (r.tail == r.base.offset)
            (λ e.
              let at_end : r.tail ≡ r.base.offset = ground (arith, e) in
              record {
                level = λ z. refl;
                filled = λ lt. (omega (arith, at_end, on), omega (arith, at_end, on));
                at_head = λ lt below. absurd (omega (arith, at_end, on, below));
                room =
                    omega (arith, at_end, on, ltb→le buffer_size (stream.attributes s).offset near);
                held = λ k lt.
                    kept_held r.buffer stream.content r.tail bytes k v.held
                      (same ∙ ap (λ o. slice stream.content o (length bytes)) (sym at_end)) lt;
              })
            (λ e. record {
              level = λ z. refl;
              filled = λ lt. absurd (ground (arith, e, v.filled lt, level));
              at_head = λ lt. absurd (ground (arith, e, v.filled lt, level));
              room = v.room;
              held = v.held;
            }))

  copied_offset :
      (r : Rewind S) (bytes : List ℕ)
      → (copy_attributes stream (keep_bytes stream r bytes)).base.offset ≡ input_offset stream r
  unfolding copy_attributes keep_bytes
  copied_offset r bytes =
      if_cases (λ x. (copy_attributes stream x).base.offset ≡ input_offset stream r)
        (ltb buffer_size (stream.attributes r.input).offset) (λ e. refl)
        (λ e.
          if_cases (λ x. (copy_attributes stream x).base.offset ≡ input_offset stream r)
            (r.tail == r.base.offset) (λ f. refl) (λ f. refl))

  -- A read of the stream beneath that fails.
  failed-IsRewound :
      (r : Rewind S) (s : S)
      → IsRewound stream r
      → (stream.attributes s).offset ≡ input_offset stream r
      → IsRewound stream (record r { input = s })
  failed-IsRewound r s v same = record {
    level = λ e. v.level e ∙ sym same;
    filled = λ lt. ((v.filled lt).0 ∙ sym same, (v.filled lt).1);
    at_head = v.at_head;
    room = v.room;
    held = v.held;
  }

  after_read-ReadsOn :
      (r : Rewind S) (size : ℕ) (got : Option (List ℕ)) (s : S)
      → IsRewound stream r
      → r.base.offset ≡ input_offset stream r
      → IsRead stream.content (input_offset stream r) size got (stream.attributes s).offset
      → ReadsOn stream r size (after_read stream (record r { input = s }) got)
  unfolding after_read IsRead
  after_read-ReadsOn r size none s v level stays = (refl, failed-IsRewound r s v stays)
  after_read-ReadsOn r size (some bytes) s v level (few, same, on) = (
    (
      few,
      same ∙ ap (λ o. slice stream.content o (length bytes)) (sym level),
      copied_offset (record r { input = s }) bytes ∙ on ∙ ap (λ o. o + length bytes) (sym level),
    ),
    keep_bytes-IsRewound r s bytes v level
        (same ∙ ap (λ o. slice stream.content o (length bytes)) (sym level))
        (on ∙ ap (λ o. o + length bytes) (sym level)),
  )

  read-ReadsOn :
      (r : Rewind S) (size : ℕ) → IsRewound stream r → ReadsOn stream r size (read stream r size)
  unfolding read
  read-ReadsOn r size v =
      if_cases (ReadsOn stream r size) (reading_from_buffer stream r)
        (λ e. buffered_read-ReadsOn stream r size v e)
        (λ e.
          after_read-ReadsOn r size (stream.read r.input size).0 (stream.read r.input size).1 v
            (outside stream r e v) (stream.reads r.input size))

  -- What is done with a stream.
  pub data Step : Rewind S → Rewind S → Type 0 where
    reads : (r : Rewind S) (size : ℕ) → Step r (read stream r size).1
    seeks : (r : Rewind S) (target : Seek) → Step r (seek stream r target).1
    updates : (r : Rewind S) → Step r (update stream r)

  pub data Steps (r : Rewind S) : Rewind S → Type 0 where
    opened : Steps r r
    then_step : {p q : Rewind S} → Steps r p → Step p q → Steps r q

  Step-IsRewound : {p q : Rewind S} → Step p q → IsRewound stream p → IsRewound stream q
  Step-IsRewound (reads r size) v = (read-ReadsOn r size v).1
  Step-IsRewound (seeks r target) v = seek-IsRewound stream r target v
  Step-IsRewound (updates r) v = update-IsRewound stream r v

  Steps-IsRewound : {p q : Rewind S} → Steps p q → IsRewound stream p → IsRewound stream q
  Steps-IsRewound opened v = v
  Steps-IsRewound (then_step steps step) v = Step-IsRewound step (Steps-IsRewound steps v)

  -- Over a stream that stands at its start, and after whatever sequence of reads, seeks and updates, a
  -- read gives no more bytes than asked for, those that the stream beneath has at the offset, and
  -- the offset goes on behind them, whether they come from the buffer or not; where the read fails,
  -- the offset stays.
  pub read_lem :
      (memory r : Rewind S) (s : S) (size : ℕ)
      → (stream.attributes s).offset ≡ 0
      → Steps (open_over stream memory s) r
      → let (got, r') = read stream r size in
        IsRead stream.content r.base.offset size got r'.base.offset
  read_lem memory r s size start steps =
      (read-ReadsOn r size (Steps-IsRewound steps (open-IsRewound stream memory s start))).0
