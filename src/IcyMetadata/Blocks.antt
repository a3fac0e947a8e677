-- ===== src/IcyMetadata/Blocks.antt =====
-- The blocks of metadata that src/input/icy_metadata.c collects.
use mpd_legacy.Common.{
  ℕ, zero, suc, ◌+◌, ◌-◌, ◌*◌, ◌≤◌, ◌<◌, ◌≡◌, refl, ap, sym, ◌∙◌, Option, some, true, List, [],
  ◌++◌, arith, ltb, ◌==◌, if◌then◌else◌, if_cases, slice, store, slice-append, slice-cong,
  store_outside, slice-store, length-slice,
}
use mpd_legacy.IcyMetadata.{IcyMetadata, Tags, c_text, parse_tag, end_meta, copy_meta, meta}
use mpd_legacy.IcyMetadata.Split.{Phase, music, block, after_block, after_size, split, split-block}
use mpd_legacy.IcyMetadata.Inv.{phase_of-block, phase_of-size, phase_of-music, IsSplitting, Took}

module _ {T : Type 0} (tags : Tags T) where
  stored :
      (a p : ℕ → ℕ) (at i n : ℕ)
      → slice a 0 at ++ slice p i n ≡ slice (store a at (slice p i n)) 0 (at + n)
  stored a p at i n =
      let z : 0 + at ≡ at = omega arith in
      sym (
        slice-append (store a at (slice p i n)) 0 at n
        ∙ ap (λ k. slice (store a at (slice p i n)) 0 at ++ slice (store a at (slice p i n)) k n) z
        ∙ ap (λ xs. xs ++ slice (store a at (slice p i n)) at n)
            (slice-cong (store a at (slice p i n)) a 0 0 at (λ k lt.
              let z : 0 + k ≡ k = omega arith in rw z (store_outside a at k (slice p i n) lt)))
        ∙ ap (λ xs. slice a 0 at ++ xs)
            (ap (slice (store a at (slice p i n)) at) (sym (length-slice p i n))
              ∙ slice-store a at (slice p i n)))

  after_block-phase :
      (d left : ℕ) (got : List ℕ) (tag : Option T)
      → 0 < left
      → after_block tags d left got tag ≡ (block left got, tag)
  after_block-phase d zero got tag more = absurd (omega arith)
  after_block-phase d (suc left) got tag more = refl

  copy_meta-Took :
      (im : IcyMetadata T) (p : ℕ → ℕ) (i length : ℕ)
      → 0 < im.data_size
      → im.data_rest ≡ 0
      → im.meta_position < im.meta_size
      → Took tags im p i length (λ n. []) (copy_meta tags im p i length)
  unfolding copy_meta end_meta
  copy_meta-Took im p i length at rest inside =
      let left : ℕ = im.meta_size - im.meta_position in
      let n : ℕ = if ltb left length then left else length in
      let few : n ≤ length = ground arith in
      let within : n ≤ left = ground arith in
      let a : ℕ → ℕ = store im.meta_data im.meta_position (slice p i n) in
      let blk : Phase = block left (slice im.meta_data 0 im.meta_position) in
      let read =
        ap (λ ph. split tags im.data_size (ph, im.tag) (slice p i n))
          (phase_of-block im.data_size im.data_rest im.meta_size blk at rest (omega arith))
        ∙ split-block tags im.data_size left (slice im.meta_data 0 im.meta_position) im.tag p i n
            (left - n) (omega (arith, within)) (omega arith)
        ∙ ap (λ got. ([], after_block tags im.data_size (left - n) got im.tag))
            (stored im.meta_data p im.meta_position i n) in
      if_cases (λ x. Took tags im p i length (λ k. []) (n, x))
        (im.meta_position + n == im.meta_size)
        (λ e.
          let full : im.meta_position + n ≡ im.meta_size = ground (arith, e) in
          let none_left : left - n ≡ 0 = omega (arith, full) in
          record {
            few = few;
            same =
                read
                ∙ ap
                    (λ l. (
                      [],
                      after_block tags im.data_size l (slice a 0 (im.meta_position + n)) im.tag,
                    ))
                    none_left
                ∙ ap (λ k. ([], (music im.data_size, some (parse_tag tags (c_text (slice a 0 k))))))
                    full
                ∙ ap (λ ph. ([], (ph, some (parse_tag tags (c_text (slice a 0 im.meta_size))))))
                    (sym (
                      phase_of-music im.data_size im.data_size 0
                        (block (0 - (im.meta_position + n)) (slice a 0 (im.meta_position + n))) at
                        at));
            valid = record { no_block = λ lt. refl; in_block = λ lt. absurd (omega arith) };
            size = refl;
          })
        (λ e.
          let less : im.meta_position + n < im.meta_size = ground (arith, e, within) in
          let some_left : left - n ≡ im.meta_size - (im.meta_position + n) = omega arith in
          record {
            few = few;
            same =
                read
                ∙ ap (λ s. ([], s))
                    (after_block-phase im.data_size (left - n) (slice a 0 (im.meta_position + n))
                      im.tag (omega (arith, less)))
                ∙ ap (λ l. ([], (block l (slice a 0 (im.meta_position + n)), im.tag))) some_left
                ∙ ap (λ ph. ([], (ph, im.tag)))
                    (sym (
                      phase_of-block im.data_size im.data_rest im.meta_size
                        (block (im.meta_size - (im.meta_position + n))
                          (slice a 0 (im.meta_position + n)))
                        at rest (omega arith)));
            valid = record { no_block = λ lt. absurd (omega (arith, rest)); in_block = λ lt. less };
            size = refl;
          })

  copy_meta-some :
      (im : IcyMetadata T) (p : ℕ → ℕ) (i length : ℕ)
      → im.meta_position < im.meta_size
      → 0 < length
      → 0 < (copy_meta tags im p i length).0
  unfolding copy_meta
  copy_meta-some im p i length inside more = ground arith

  after_size-phase :
      (d b : ℕ) (tag : Option T)
      → ltb 0 b ≡ true
      → after_size tags d b tag ≡ (block (b * 16) [], tag)
  after_size-phase d zero tag more = absurd (ground (arith, more))
  after_size-phase d (suc b) tag more = refl

  pub meta-Took :
      (im : IcyMetadata T) (p : ℕ → ℕ) (i length : ℕ)
      → IsSplitting tags im
      → 0 < im.data_size
      → im.data_rest ≡ 0
      → 0 < length
      → Took tags im p i length (λ n. []) (meta tags im p i length)
        × (0 < (meta tags im p i length).0)
  unfolding meta split
  meta-Took im p i length v at rest more =
      let begun = record im { meta_size = p i * 16; meta_position = 0 } in
      let Good : ℕ × IcyMetadata T → Type 0 =
        λ r. Took tags im p i length (λ n. []) r × (0 < r.0) in
      let blk : Phase =
        block (im.meta_size - im.meta_position) (slice im.meta_data 0 im.meta_position) in
      if_cases Good (im.meta_size == 0)
        (λ e.
          let fresh =
            phase_of-size im.data_size im.data_rest im.meta_size blk at rest (ground (arith, e)) in
          if_cases Good (p i * 16 == 0)
            (λ f.
              let no_size : p i ≡ 0 = ground (arith, f) in
              (
                record {
                  few = more;
                  same =
                      ap (λ ph. split tags im.data_size (ph, im.tag) (slice p i 1)) fresh
                      ∙ ap (λ b. ([], after_size tags im.data_size b im.tag)) no_size
                      ∙ ap (λ ph. ([], (ph, im.tag)))
                          (sym (phase_of-music im.data_size im.data_size im.meta_size blk at at));
                  valid = record { no_block = λ lt. ground (arith, e); in_block = v.in_block };
                  size = refl;
                },
                omega arith,
              ))
            (λ f.
              let some_size : 0 < p i = ground (arith, f) in
              let took =
                copy_meta-Took begun p (suc i) (length - 1) at rest (omega (arith, some_size)) in
              (
                record {
                  few = omega (arith, took.few);
                  same =
                      let n : ℕ = (copy_meta tags begun p (suc i) (length - 1)).0 in
                      let whole : p i * 16 ≡ p i * 16 - 0 = omega arith in
                      ap (λ ph. split tags im.data_size (ph, im.tag) (slice p i (suc n))) fresh
                      ∙ ap (λ s. split tags im.data_size s (slice p (suc i) n))
                          (after_size-phase im.data_size (p i) im.tag (ground (arith, some_size))
                            ∙ ap (λ k. (block k [], im.tag)) whole
                            ∙ ap (λ ph. (ph, im.tag))
                                (sym (
                                  phase_of-block im.data_size im.data_rest (p i * 16)
                                    (block (p i * 16 - 0) []) at rest (omega (arith, some_size)))))
                      ∙ took.same;
                  valid = took.valid;
                  size = took.size;
                },
                omega arith,
              )))
        (λ e.
          let inside = v.in_block (ground (arith, e)) in
          (copy_meta-Took im p i length at rest inside, copy_meta-some im p i length inside more))
