-- ===== src/IcyMetadata/Inv.antt =====
-- The state of src/input/icy_metadata.c as a place in the stream, and how its operations go on there.
use mpd_legacy.Common.{
  ℕ, zero, suc, ◌+◌, ◌-◌, ◌≤◌, ◌<◌, ◌≡◌, refl, ap, ◌∙◌, Option, not, List, arith, leb, ◌==◌,
  if_cases, slice,
}
use mpd_legacy.IcyMetadata.{IcyMetadata, Tags, defined, data_bytes}
use mpd_legacy.IcyMetadata.Split.{
  Phase, plain, size_byte, music, block, after_music, split, split-plain, split-music,
}

abbrev pub phase_of : ℕ → ℕ → ℕ → Phase → Phase
phase_of zero rest size blk = plain
phase_of (suc d) (suc rest) size blk = music (suc rest)
phase_of (suc d) zero zero blk = size_byte
phase_of (suc d) zero (suc size) blk = blk

pub phase_of-plain : (d rest size : ℕ) (blk : Phase) → d ≡ 0 → phase_of d rest size blk ≡ plain
phase_of-plain zero rest size blk e = refl
phase_of-plain (suc d) rest size blk e = absurd (omega (arith, e))

pub phase_of-block :
    (d rest size : ℕ) (blk : Phase) → 0 < d → rest ≡ 0 → 0 < size → phase_of d rest size blk ≡ blk
phase_of-block zero rest size blk h e more = absurd (omega arith)
phase_of-block (suc d) (suc rest) size blk h e more = absurd (omega (arith, e))
phase_of-block (suc d) zero zero blk h e more = absurd (omega arith)
phase_of-block (suc d) zero (suc size) blk h e more = refl

pub phase_of-size :
    (d rest size : ℕ) (blk : Phase)
    → 0 < d
    → rest ≡ 0
    → size ≡ 0
    → phase_of d rest size blk ≡ size_byte
phase_of-size zero rest size blk h e none_yet = absurd (omega arith)
phase_of-size (suc d) (suc rest) size blk h e none_yet = absurd (omega (arith, e))
phase_of-size (suc d) zero zero blk h e none_yet = refl
phase_of-size (suc d) zero (suc size) blk h e none_yet = absurd (omega (arith, none_yet))

pub phase_of-music :
    (d rest size : ℕ) (blk : Phase) → 0 < d → 0 < rest → phase_of d rest size blk ≡ music rest
phase_of-music zero rest size blk h more = absurd (omega arith)
phase_of-music (suc d) zero size blk h more = absurd (omega arith)
phase_of-music (suc d) (suc rest) size blk h more = refl

module _ {T : Type 0} (tags : Tags T) where
  -- Behind music comes more, or the size of a block.
  after_music-phase :
      (d rest size : ℕ) (blk : Phase) (tag : Option T)
      → 0 < d
      → size ≡ 0
      → after_music tags d rest tag ≡ (phase_of d rest size blk, tag)
  after_music-phase zero rest size blk tag h e = absurd (omega arith)
  after_music-phase (suc d) (suc rest) size blk tag h e = refl
  after_music-phase (suc d) zero zero blk tag h e = refl
  after_music-phase (suc d) zero (suc size) blk tag h e = absurd (omega (arith, e))

  abbrev pub view : IcyMetadata T → Phase × Option T
  view im = (
    phase_of im.data_size im.data_rest im.meta_size
        (block (im.meta_size - im.meta_position) (slice im.meta_data 0 im.meta_position)),
    im.tag,
  )

  -- Music is not left while a block comes, and of a block that has begun something is left.
  pub record IsSplitting (im : IcyMetadata T) : Type 0 where
    pub no_block : 0 < im.data_rest → im.meta_size ≡ 0
    pub in_block : 0 < im.meta_size → im.meta_position < im.meta_size

  -- What an operation took, and what of it is music.
  pub record Took (im : IcyMetadata T) (p : ℕ → ℕ) (i length : ℕ) (out : ℕ → List ℕ)
      (result : ℕ × IcyMetadata T) : Type 0 where
    pub few : result.0 ≤ length
    pub same :
        split tags im.data_size (view im) (slice p i (result.0)) ≡ (out (result.0), view (result.1))
    pub valid : IsSplitting (result.1)
    pub size : result.1.data_size ≡ im.data_size

  pub data_bytes-Took :
      (im : IcyMetadata T) (p : ℕ → ℕ) (i length : ℕ)
      → IsSplitting im
      → Took im p i length (slice p i) (data_bytes im length)
  unfolding data_bytes defined split
  data_bytes-Took im p i length v =
      let blk : Phase =
        block (im.meta_size - im.meta_position) (slice im.meta_data 0 im.meta_position) in
      if_cases (Took im p i length (slice p i)) (not (defined im))
        (λ e.
          let at : im.data_size ≡ 0 = ground (arith, e) in
          record {
            few = omega arith;
            same =
                rw (phase_of-plain im.data_size im.data_rest im.meta_size blk at)
                  (split-plain tags im.data_size im.tag (slice p i length));
            valid = v;
            size = refl;
          })
        (λ e.
          let at : 0 < im.data_size = ground (arith, e) in
          if_cases (Took im p i length (slice p i)) (im.data_rest == 0)
            (λ f. record { few = omega arith; same = refl; valid = v; size = refl })
            (λ f.
              let more : 0 < im.data_rest = ground (arith, f) in
              let heard = λ (n rest : ℕ) (e' : im.data_rest ≡ n + rest).
                ap (λ ph. split tags im.data_size (ph, im.tag) (slice p i n))
                  (phase_of-music im.data_size im.data_rest im.meta_size blk at more)
                ∙ split-music tags im.data_size im.data_rest im.tag p i n rest e' more
                ∙ ap (λ s. (slice p i n, s))
                    (after_music-phase im.data_size rest im.meta_size blk im.tag at
                      (v.no_block more)) in
              if_cases (Took im p i length (slice p i)) (leb im.data_rest length)
                (λ g. record {
                  few = ground (arith, g);
                  same = heard im.data_rest 0 (omega arith);
                  valid = record { no_block = λ lt. absurd (omega arith); in_block = v.in_block };
                  size = refl;
                })
                (λ g. record {
                  few = omega arith;
                  same = heard length (im.data_rest - length) (ground (arith, g));
                  valid = record { no_block = λ lt. v.no_block more; in_block = v.in_block };
                  size = refl;
                })))

  -- Where less music was taken than asked for, metadata follows.
  pub data_bytes-short :
      (im : IcyMetadata T) (length : ℕ)
      → (data_bytes im length).0 < length
      → (0 < (data_bytes im length).1.data_size) × ((data_bytes im length).1.data_rest ≡ 0)
  unfolding data_bytes defined
  data_bytes-short im length short =
      if_cases (λ (r : ℕ × IcyMetadata T). r.0 < length → (0 < r.1.data_size) × (r.1.data_rest ≡ 0))
        (not (defined im)) (λ e lt. absurd (omega arith))
        (λ e.
          let at : 0 < im.data_size = ground (arith, e) in
          if_cases
            (λ (r : ℕ × IcyMetadata T). r.0 < length → (0 < r.1.data_size) × (r.1.data_rest ≡ 0))
            (im.data_rest == 0) (λ f lt. (at, ground (arith, f)))
            (λ f.
              if_cases
                (λ (r : ℕ × IcyMetadata T).
                  r.0 < length → (0 < r.1.data_size) × (r.1.data_rest ≡ 0))
                (leb im.data_rest length) (λ g lt. (at, refl)) (λ g lt. absurd (omega arith))))
        short
