-- ===== src/Curl/Pieces.antt =====
-- The pieces that libcurl delivers to src/input/curl.c, from the write to the read.
use mathlib.Core.Path.{subst}
use mathlib.Core.List.{append_assoc, append-nil}
use mpd_legacy.Common.{
  ℕ, ◌+◌, ◌-◌, ◌≤◌, ◌<◌, ◌≡◌, refl, ap, sym, ◌∙◌, inl, inr, Option, some, List, [], ◌∷◌, ◌++◌,
  arith, leb, ◌==◌, if_cases, slice, store, length, length-append, slice-store, All,
}
use mpd_legacy.IcyMetadata.{IcyMetadata, Tags}
use mpd_legacy.IcyMetadata.Split.{Phase, split}
use mpd_legacy.IcyMetadata.Inv.{view, IsSplitting}
use mpd_legacy.Curl.{
  Buffer, total_buffer_size, drain, InputCurl, Network, max_buffered, writefunction,
}
use mpd_legacy.Curl.Drain.{IsHeld, contents, split_bound, drain_lem}

abbrev new_buffer : (ℕ → ℕ) → List ℕ → Buffer
new_buffer memory bytes = record {
  size = length bytes;
  consumed = 0;
  payload = store memory 0 bytes;
}

contents-last :
    (buffers : List Buffer) (memory : ℕ → ℕ) (bytes : List ℕ)
    → contents (buffers ++ (new_buffer memory bytes ∷ [])) ≡ contents buffers ++ bytes
contents-last [] memory bytes =
    let whole : length bytes - 0 ≡ length bytes = omega arith in
    append-nil (slice (store memory 0 bytes) 0 (length bytes - 0))
    ∙ ap (slice (store memory 0 bytes) 0) whole
    ∙ slice-store memory 0 bytes
contents-last (buffer ∷ buffers) memory bytes =
    let first = slice buffer.payload buffer.consumed (buffer.size - buffer.consumed) in
    ap (λ rest. first ++ rest) (contents-last buffers memory bytes)
    ∙ sym (append_assoc first (contents buffers) bytes)

IsHeld-last :
    (buffers : List Buffer) (buffer : Buffer)
    → All IsHeld buffers
    → IsHeld buffer
    → All IsHeld (buffers ++ (buffer ∷ []))
IsHeld-last [] buffer held more = (more, held)
IsHeld-last (b ∷ buffers) buffer (first, held) more = (first, IsHeld-last buffers buffer held more)

size-last :
    (buffers : List Buffer) (buffer : Buffer)
    → total_buffer_size (buffers ++ (buffer ∷ [])) ≡ total_buffer_size buffers + buffer.size
unfolding total_buffer_size
size-last [] buffer = omega arith
size-last (b ∷ buffers) buffer = omega (arith, size-last buffers buffer)

abbrev pub joined : List (List ℕ) → List ℕ
joined [] = []
joined (piece ∷ pieces) = piece ++ joined pieces

module _ {T : Type 0} (network : Network T) where
  -- One call for each piece.
  abbrev pub writes : InputCurl T → (ℕ → ℕ) → List (List ℕ) → InputCurl T
  writes c memory [] = c
  writes c memory (piece ∷ pieces) = writes (writefunction network c memory piece).1 memory pieces

  -- The queue holds the bytes of before and those that came, and nothing else changed.
  record Holds (c : InputCurl T) (bytes : List ℕ) (c' : InputCurl T) : Type 0 where
    whole : contents c'.buffers ≡ contents c.buffers ++ bytes
    held : All IsHeld c'.buffers
    size : total_buffer_size c'.buffers ≡ total_buffer_size c.buffers + length bytes
    same : c'.icy_metadata ≡ c.icy_metadata

  writefunction-Holds :
      (c : InputCurl T) (memory : ℕ → ℕ) (bytes : List ℕ)
      → All IsHeld c.buffers
      → total_buffer_size c.buffers + length bytes < max_buffered
      → Holds c bytes (writefunction network c memory bytes).1
  unfolding writefunction
  writefunction-Holds c memory [] held room = record {
    whole = sym (append-nil (contents c.buffers));
    held = held;
    size = omega arith;
    same = refl;
  }
  writefunction-Holds c memory (b ∷ bytes) held room =
      if_cases (λ (r : ℕ × InputCurl T). Holds c (b ∷ bytes) r.1) (length (b ∷ bytes) == 0)
        (λ e. absurd (ground (arith, e)))
        (λ e.
          if_cases (λ (r : ℕ × InputCurl T). Holds c (b ∷ bytes) r.1)
            (leb max_buffered (total_buffer_size c.buffers + length (b ∷ bytes)))
            (λ f. absurd (ground (arith, f, room)))
            (λ f. record {
              whole = contents-last c.buffers memory (b ∷ bytes);
              held = IsHeld-last c.buffers (new_buffer memory (b ∷ bytes)) held (omega arith);
              size = size-last c.buffers (new_buffer memory (b ∷ bytes));
              same = refl;
            }))

  writes-Holds :
      (c : InputCurl T) (memory : ℕ → ℕ) (pieces : List (List ℕ))
      → All IsHeld c.buffers
      → total_buffer_size c.buffers + length (joined pieces) < max_buffered
      → Holds c (joined pieces) (writes c memory pieces)
  writes-Holds c memory [] held room = record {
    whole = sym (append-nil (contents c.buffers));
    held = held;
    size = omega arith;
    same = refl;
  }
  writes-Holds c memory (piece ∷ pieces) held room =
      let together = length-append piece (joined pieces) in
      let first = writefunction-Holds c memory piece held (omega (arith, room, together)) in
      let c' = (writefunction network c memory piece).1 in
      let rest =
        writes-Holds c' memory pieces first.held (omega (arith, room, together, first.size)) in
      record {
        whole =
            rest.whole
            ∙ ap (λ bytes. bytes ++ joined pieces) first.whole
            ∙ append_assoc (contents c.buffers) piece (joined pieces);
        held = rest.held;
        size = omega (arith, rest.size, first.size, together);
        same = rest.same ∙ first.same;
      }

none_yet : All IsHeld []
none_yet = tt

no_size : total_buffer_size [] ≡ 0
unfolding total_buffer_size
no_size = refl

module _ {T : Type 0} (tags : Tags T) (network : Network T) where
  -- Into an empty queue, where the state of the metadata is in order, and whatever pieces a stream
  -- comes in, as long as they stay below CURL_MAX_BUFFERED together: the inner loop of
  -- input_curl_read, asked for more than that, empties the queue and copies the music of all bytes, as
  -- the stream is described byte by byte, with the tag that this gives.
  pub writes-drain :
      (c : InputCurl T) (memory : ℕ → ℕ) (pieces : List (List ℕ)) (size : ℕ)
      → c.buffers ≡ []
      → IsSplitting tags c.icy_metadata
      → length (joined pieces) < max_buffered
      → length (joined pieces) < size
      → let c' = writes network c memory pieces in
        let (out, s) =
          split tags c.icy_metadata.data_size (view tags c.icy_metadata) (joined pieces) in
        (after : IcyMetadata T) × (drain tags
            (total_buffer_size c'.buffers)
            c'.icy_metadata
            c'.buffers
            size
          ≡ some (out, after, []))
        × (view tags after ≡ s)
        × IsSplitting tags after
  writes-drain c memory pieces size fresh v room more =
      let c' = writes network c memory pieces in
      let h =
        writes-Holds network c memory pieces (subst (All IsHeld) (sym fresh) none_yet)
          (omega (arith, room, ap total_buffer_size fresh, no_size)) in
      let (d, ended) =
        drain_lem tags c'.icy_metadata c'.buffers size (subst (IsSplitting tags) (sym h.same) v)
          h.held in
      let all_bytes : contents c'.buffers ≡ joined pieces =
        h.whole ∙ ap (λ (bs : List Buffer). contents bs ++ joined pieces) fresh in
      let short : length d.out ≤ length d.taken =
        subst (λ (r : List ℕ × (Phase × Option T)). length r.0 ≤ length d.taken) d.splits.same
          (split_bound tags c'.icy_metadata.data_size (view tags c'.icy_metadata) d.taken) in
      let all_taken : d.left ≡ [] = elim ended [
        | inl e ↦ e
        | inr e ↦ absurd (
            omega (
              arith,
              e,
              short,
              more,
              ap length d.cut,
              ap length all_bytes,
              length-append d.taken (contents d.left),
            ))
      ] in
      let took : d.taken ≡ joined pieces =
        sym (append-nil d.taken)
        ∙ ap (λ (bs : List Buffer). d.taken ++ contents bs) (sym all_taken)
        ∙ sym d.cut
        ∙ all_bytes in
      let same =
        ap (λ im. split tags im.data_size (view tags im) (joined pieces)) (sym h.same)
        ∙ ap (split tags c'.icy_metadata.data_size (view tags c'.icy_metadata)) (sym took)
        ∙ d.splits.same in
      (
        d.after,
        d.is
            ∙ ap (λ bs. some (d.out, d.after, bs)) all_taken
            ∙ ap (λ out. some (out, d.after, [])) (sym (ap (λ r. r.0) same)),
        sym (ap (λ r. r.1) same),
        d.splits.valid,
      )
