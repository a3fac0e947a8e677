-- ===== src/IcyMetadata/Split.antt =====
-- What src/input/icy_metadata.c makes of a stream, byte by byte: which bytes are music, and which tag
-- was found last.
use mathlib.Core.List.{append_assoc, append-nil}
use mpd_legacy.Common.{
  ℕ, zero, suc, ◌+◌, ◌*◌, ◌<◌, ◌≡◌, refl, ap, sym, ◌∙◌, Option, some, List, [], ◌∷◌, ◌++◌, arith,
  slice,
}
use mpd_legacy.IcyMetadata.{Tags, c_text, parse_tag}

-- What the next byte is: of a stream without metadata; of the music, with how many bytes are left; the
-- size of a block; or of a block, with how many are left and those that came.
pub data Phase : Type 0 where
  plain size_byte : Phase
  music : ℕ → Phase
  block : ℕ → List ℕ → Phase

module _ {T : Type 0} (tags : Tags T) (data_size : ℕ) where
  -- With so many bytes left.
  abbrev pub after_music : ℕ → Option T → Phase × Option T
  after_music zero tag = (size_byte, tag)
  after_music (suc left) tag = (music (suc left), tag)

  abbrev pub after_block : ℕ → List ℕ → Option T → Phase × Option T
  after_block zero got tag = (music data_size, some (parse_tag tags (c_text got)))
  after_block (suc left) got tag = (block (suc left) got, tag)

  abbrev pub after_size : ℕ → Option T → Phase × Option T
  after_size zero tag = (music data_size, tag)
  after_size (suc size) tag = (block (suc size * 16) [], tag)

  abbrev pub next : Phase → Option T → ℕ → Phase × Option T
  next plain tag b = (plain, tag)
  next size_byte tag b = after_size b tag
  next (music zero) tag b = (size_byte, tag)
  next (music (suc left)) tag b = after_music left tag
  next (block zero got) tag b = after_block zero got tag
  next (block (suc left) got) tag b = after_block left (got ++ (b ∷ [])) tag

  abbrev pub heard : Phase → ℕ → List ℕ
  heard plain b = b ∷ []
  heard size_byte b = []
  heard (music left) b = b ∷ []
  heard (block left got) b = []

  -- The music in a sequence of bytes, and what comes next.
  unfoldable pub split : Phase × Option T → List ℕ → List ℕ × (Phase × Option T)
  split s [] = ([], s)
  split (phase, tag) (b ∷ bytes) =
      let (out, s') = split (next phase tag b) bytes in (heard phase b ++ out, s')

  pub split-append :
      (s : Phase × Option T) (xs ys : List ℕ)
      → split s (xs ++ ys)
        ≡ ((split s xs).0 ++ (split (split s xs).1 ys).0, (split (split s xs).1 ys).1)
  unfolding split
  split-append s [] ys = refl
  split-append (phase, tag) (b ∷ xs) ys =
      let rest = split-append (next phase tag b) xs ys in
      ap (λ (r : List ℕ × (Phase × Option T)). (heard phase b ++ r.0, r.1)) rest
      ∙ ap (λ out. (out, (split (split (next phase tag b) xs).1 ys).1))
          (sym (
            append_assoc (heard phase b) (split (next phase tag b) xs).0
              (split (split (next phase tag b) xs).1 ys).0))

  pub split-plain : (tag : Option T) (xs : List ℕ) → split (plain, tag) xs ≡ (xs, (plain, tag))
  unfolding split
  split-plain tag [] = refl
  split-plain tag (b ∷ xs) =
      ap (λ (r : List ℕ × (Phase × Option T)). (b ∷ r.0, r.1)) (split-plain tag xs)

  pub split-music :
      (left : ℕ) (tag : Option T) (p : ℕ → ℕ) (i n rest : ℕ)
      → left ≡ n + rest
      → 0 < left
      → split (music left, tag) (slice p i n) ≡ (slice p i n, after_music rest tag)
  unfolding split
  split-music zero tag p i n rest e more = absurd (omega arith)
  split-music (suc left) tag p i zero rest e more =
      let e' : suc left ≡ rest = omega (arith, e) in ap (λ r. ([], after_music r tag)) e'
  split-music (suc zero) tag p i (suc n) rest e more =
      let at_end : n ≡ 0 = omega (arith, e) in
      let none_left : rest ≡ 0 = omega (arith, e) in rw (at_end, none_left) refl
  split-music (suc (suc left)) tag p i (suc n) rest e more =
      ap (λ (r : List ℕ × (Phase × Option T)). (p i ∷ r.0, r.1))
        (split-music (suc left) tag p (suc i) n rest (omega (arith, e)) (omega arith))

  pub split-block :
      (left : ℕ) (got : List ℕ) (tag : Option T) (p : ℕ → ℕ) (i n rest : ℕ)
      → left ≡ n + rest
      → 0 < left
      → split (block left got, tag) (slice p i n) ≡ ([], after_block rest (got ++ slice p i n) tag)
  unfolding split
  split-block zero got tag p i n rest e more = absurd (omega arith)
  split-block (suc left) got tag p i zero rest e more =
      let e' : suc left ≡ rest = omega (arith, e) in
      ap (λ r. ([], after_block r got tag)) e'
      ∙ ap (λ g. ([], after_block rest g tag)) (sym (append-nil got))
  split-block (suc zero) got tag p i (suc n) rest e more =
      let at_end : n ≡ 0 = omega (arith, e) in
      let none_left : rest ≡ 0 = omega (arith, e) in rw (at_end, none_left) refl
  split-block (suc (suc left)) got tag p i (suc n) rest e more =
      split-block (suc left) (got ++ (p i ∷ [])) tag p (suc i) n rest (omega (arith, e))
        (omega arith)
      ∙ ap (λ g. ([], after_block rest g tag)) (append_assoc got (p i ∷ []) (slice p (suc i) n))
