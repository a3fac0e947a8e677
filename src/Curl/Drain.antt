-- ===== src/Curl/Drain.antt =====
-- Reads from the queue of buffers of src/input/curl.c, until enough is copied or the queue is empty.
use mathlib.Core.Path.{subst}
use mathlib.Core.List.{append_assoc}
use mpd_legacy.Common.{
  ℕ, zero, suc, ◌+◌, ◌-◌, ◌≤◌, ◌<◌, ◌≡◌, refl, ap, sym, ◌∙◌, ◌⊎◌, inl, inr, Option, some, List, [],
  ◌∷◌, ◌++◌, arith, ltb, if◌then◌else◌, if_cases, slice, length, length-append, slice-append,
  length-slice, All,
}
use mpd_legacy.IcyMetadata.{IcyMetadata, Tags}
use mpd_legacy.IcyMetadata.Split.{Phase, plain, size_byte, music, block, heard, next, split}
use mpd_legacy.IcyMetadata.Inv.{view, IsSplitting}
use mpd_legacy.Curl.{
  Buffer, consume_buffer, total_buffer_size, push_head, put_back, read_from_buffer, Drained,
  add_copied, drain_rest, drain,
}
use mpd_legacy.Curl.Reads.{Splits, Splits-append, take_bytes-Outcome}

-- A buffer in the queue has bytes left.
abbrev pub IsHeld : Buffer → Type 0
IsHeld buffer = buffer.consumed < buffer.size

-- The bytes in the queue.
abbrev pub contents : List Buffer → List ℕ
contents [] = []
contents (buffer ∷ buffers) =
    slice buffer.payload buffer.consumed (buffer.size - buffer.consumed) ++ contents buffers

contents-push :
    (buffer : Buffer) (buffers : List Buffer) (n : ℕ)
    → n ≤ buffer.size - buffer.consumed
    → contents (buffer ∷ buffers)
      ≡ slice buffer.payload buffer.consumed n
        ++ contents (push_head (consume_buffer buffer n) buffers)
unfolding consume_buffer
contents-push buffer buffers n few =
    if_cases
      (λ (b : Option Buffer).
        contents (buffer ∷ buffers)
        ≡ slice buffer.payload buffer.consumed n ++ contents (push_head b buffers))
      (ltb (buffer.consumed + n) buffer.size)
      (λ e.
        let left : ℕ = buffer.size - (buffer.consumed + n) in
        let whole : buffer.size - buffer.consumed ≡ n + left = ground (arith, e) in
        ap (λ k. slice buffer.payload buffer.consumed k ++ contents buffers) whole
        ∙ ap (λ bytes. bytes ++ contents buffers)
            (slice-append buffer.payload buffer.consumed n left)
        ∙ append_assoc (slice buffer.payload buffer.consumed n)
            (slice buffer.payload (buffer.consumed + n) left) (contents buffers))
      (λ e.
        let whole : buffer.size - buffer.consumed ≡ n = ground (arith, e, few) in
        ap (λ k. slice buffer.payload buffer.consumed k ++ contents buffers) whole)

IsHeld-push :
    (buffer : Buffer) (buffers : List Buffer) (n : ℕ)
    → All IsHeld buffers
    → All IsHeld (push_head (consume_buffer buffer n) buffers)
unfolding consume_buffer
IsHeld-push buffer buffers n held =
    if_cases (λ (b : Option Buffer). All IsHeld (push_head b buffers))
      (ltb (buffer.consumed + n) buffer.size) (λ e. (ground (arith, e), held)) (λ e. held)

contents_bound : (buffers : List Buffer) → length (contents buffers) ≤ total_buffer_size buffers
unfolding total_buffer_size
contents_bound [] = omega arith
contents_bound (buffer ∷ buffers) =
    let n = buffer.size - buffer.consumed in
    omega (
      arith,
      length-append (slice buffer.payload buffer.consumed n) (contents buffers),
      length-slice buffer.payload buffer.consumed n,
      contents_bound buffers,
    )

module _ {T : Type 0} (tags : Tags T) where
  heard_bound : (d : ℕ) (phase : Phase) (b : ℕ) → length (heard tags d phase b) ≤ 1
  heard_bound d plain b = omega arith
  heard_bound d size_byte b = omega arith
  heard_bound d (music left) b = omega arith
  heard_bound d (block left got) b = omega arith

  pub split_bound :
      (d : ℕ) (s : Phase × Option T) (xs : List ℕ) → length (split tags d s xs).0 ≤ length xs
  unfolding split
  split_bound d s [] = omega arith
  split_bound d (phase, tag) (b ∷ xs) =
      let rest = (split tags d (next tags d phase tag b) xs).0 in
      omega (
        arith,
        length-append (heard tags d phase b) rest,
        heard_bound d phase b,
        split_bound d (next tags d phase tag b) xs,
      )

  -- A result is there: what was taken from the head of the queue, the music in it, at most as much as
  -- asked for, and what is left.
  pub record Copies (im : IcyMetadata T) (buffers : List Buffer) (size : ℕ) (r : Drained tags)
      : Type 0 where
    pub out : List ℕ
    pub after : IcyMetadata T
    pub left : List Buffer
    pub taken : List ℕ
    pub is : r ≡ some (out, after, left)
    pub cut : contents buffers ≡ taken ++ contents left
    pub splits : Splits tags im taken out after
    pub few : length out ≤ size
    pub held : All IsHeld left

  read_from_buffer-Copies :
      (im : IcyMetadata T) (buffer : Buffer) (buffers : List Buffer) (size : ℕ)
      → IsSplitting tags im
      → All IsHeld (buffer ∷ buffers)
      → 0 < size
      → (c : Copies im (buffer ∷ buffers) size (read_from_buffer tags im (buffer ∷ buffers) size))
        × (0 < length c.taken)
  unfolding read_from_buffer
  read_from_buffer-Copies im buffer buffers size v (has, held) more =
      let hold : ℕ = buffer.size - buffer.consumed in
      let n : ℕ = if ltb hold size then hold else size in
      let some_asked : 0 < n = ground (arith, has, more) in
      let within : n ≤ hold = ground arith in
      let asked : n ≤ size = ground arith in
      let long = length-slice buffer.payload buffer.consumed n in
      let o =
        take_bytes-Outcome tags n (suc n) (omega arith) im buffer n some_asked (omega arith)
          (omega (arith, within, has)) v in
      (
        record {
          out = o.out;
          after = o.after;
          left = push_head (consume_buffer buffer n) buffers;
          taken = slice buffer.payload buffer.consumed n;
          is = ap (put_back tags buffers) o.is;
          cut = contents-push buffer buffers n within;
          splits = o.splits;
          few = omega (
            arith,
            asked,
            long,
            subst (λ r. length r.0 ≤ length (slice buffer.payload buffer.consumed n)) o.splits.same
                (split_bound im.data_size (view tags im) (slice buffer.payload buffer.consumed n)),
          );
          held = IsHeld-push buffer buffers n held;
        },
        omega (arith, long, some_asked),
      )

  drain-Copies :
      (fuel : ℕ) (im : IcyMetadata T) (buffers : List Buffer) (size : ℕ)
      → length (contents buffers) ≤ fuel
      → IsSplitting tags im
      → All IsHeld buffers
      → (c : Copies im buffers size (drain tags fuel im buffers size)) × ((c.left ≡ [])
          ⊎ (length c.out ≡ size))
  unfolding drain drain_rest split
  drain-Copies fuel im [] size enough v held = (
    record {
      out = [];
      after = im;
      left = [];
      taken = [];
      is = refl;
      cut = refl;
      splits = record { same = refl; valid = v; size = refl };
      few = omega arith;
      held = held;
    },
    inl refl,
  )
  drain-Copies fuel im (buffer ∷ buffers) zero enough v held = (
    record {
      out = [];
      after = im;
      left = buffer ∷ buffers;
      taken = [];
      is = refl;
      cut = refl;
      splits = record { same = refl; valid = v; size = refl };
      few = omega arith;
      held = held;
    },
    inr refl,
  )
  drain-Copies zero im (buffer ∷ buffers) (suc size) enough v (has, held) =
      let n = buffer.size - buffer.consumed in
      absurd (
        omega (
          arith,
          enough,
          has,
          length-slice buffer.payload buffer.consumed n,
          length-append (slice buffer.payload buffer.consumed n) (contents buffers),
        ))
  drain-Copies (suc fuel) im (buffer ∷ buffers) (suc size) enough v held =
      let (c, some_taken) =
        read_from_buffer-Copies im buffer buffers (suc size) v held (omega arith) in
      let (d, ended) =
        drain-Copies fuel c.after c.left (suc size - length c.out)
          (omega
            (arith, enough, some_taken, ap length c.cut, length-append c.taken (contents c.left)))
          c.splits.valid c.held in
      let together = length-append c.out d.out in
      (
        record {
          out = c.out ++ d.out;
          after = d.after;
          left = d.left;
          taken = c.taken ++ d.taken;
          is =
              ap (drain_rest tags (drain tags fuel) (suc size)) c.is
              ∙ ap (add_copied tags c.out) d.is;
          cut =
              c.cut
              ∙ ap (λ rest. c.taken ++ rest) d.cut
              ∙ sym (append_assoc c.taken d.taken (contents d.left));
          splits = Splits-append tags c.splits d.splits;
          few = omega (arith, together, c.few, d.few);
          held = d.held;
        },
        elim ended [ inl e ↦ inl e | inr e ↦ inr (omega (arith, together, e, c.few)) ],
      )

  -- Where the state of the metadata is in order and every buffer in the queue has bytes left, the
  -- inner loop of input_curl_read ends within as many rounds as the buffers have bytes. It takes bytes
  -- from the head of the queue and copies what of them is music, as the stream is described byte by
  -- byte, however it was cut into buffers and blocks were cut between them; no byte is lost, the tag
  -- is that of the last block that is complete, and the loop stops where the size asked for is reached
  -- or the queue is empty.
  pub drain_lem :
      (im : IcyMetadata T) (buffers : List Buffer) (size : ℕ)
      → IsSplitting tags im
      → All IsHeld buffers
      → (c : Copies im buffers size (drain tags (total_buffer_size buffers) im buffers size))
        × ((c.left ≡ []) ⊎ (length c.out ≡ size))
  drain_lem im buffers size v held =
      drain-Copies (total_buffer_size buffers) im buffers size (contents_bound buffers) v held
