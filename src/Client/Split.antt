-- ===== src/Client/Split.antt =====
-- The lines of a text, and what follows its last newline: the description that the line reader of
-- client_read.c is compared with.
use mpd_legacy.Common.{
  ℕ, zero, suc, ◌<◌, ◌≡◌, refl, ap, ◌∙◌, inl, inr, none, some, List, [], ◌∷◌, ◌++◌, arith, ◌==◌,
  if◌then◌else◌, length, take, drop, Bool-cases,
}
use mpd_legacy.Client.Read.{newline, memchr, strndup}

-- One more byte in front of the lines of a text, with what follows the last newline.
abbrev pub put_first : ℕ → List (List ℕ) → List ℕ → List (List ℕ) × List ℕ
put_first x [] rest = ([], x ∷ rest)
put_first x (l ∷ ls) rest = ((x ∷ l) ∷ ls, rest)

abbrev pub put_byte : ℕ → List (List ℕ) × List ℕ → List (List ℕ) × List ℕ
put_byte x (ls, rest) = if x == newline then ([] ∷ ls, rest) else put_first x ls rest

-- The lines of a text, and what follows the last newline.
unfoldable pub split : List ℕ → List (List ℕ) × List ℕ
split [] = ([], [])
split (x ∷ xs) = put_byte x (split xs)

abbrev pub then_split : List (List ℕ) × List ℕ → List ℕ → List (List ℕ) × List ℕ
then_split (ls, r) v = (ls ++ (split (r ++ v)).0, (split (r ++ v)).1)

pub put-then_split :
    (x : ℕ) (s : List (List ℕ) × List ℕ) (v : List ℕ)
    → put_byte x (then_split s v) ≡ then_split (put_byte x s) v
unfolding split
put-then_split x ([], r) v = elim (Bool-cases (x == newline)) [ inl e ↦ rw e | inr e ↦ rw e (rw e) ]
put-then_split x (l ∷ ls, r) v = elim (Bool-cases (x == newline)) [ inl e ↦ rw e | inr e ↦ rw e ]

-- What follows the last newline of a text goes before the text that comes next.
pub split-append : (u v : List ℕ) → split (u ++ v) ≡ then_split (split u) v
unfolding split
split-append [] v = refl
split-append (x ∷ u) v = ap (put_byte x) (split-append u v) ∙ put-then_split x (split u) v

pub split-none : (xs : List ℕ) → memchr xs newline ≡ none → split xs ≡ ([], xs)
unfolding split memchr
split-none [] e = refl
split-none (x ∷ xs) e = elim (Bool-cases (x == newline)) [
  | inl at ↦ absurd (ground (arith, at, e))
  | inr out ↦ ground (arith, out, e, split-none xs)
]

pub split-some :
    (xs : List ℕ) (k : ℕ)
    → memchr xs newline ≡ some k
    → let (ls, r) = split (drop (suc k) xs) in (split xs ≡ (take k xs ∷ ls, r)) × (k < length xs)
unfolding split memchr
split-some [] k e = absurd (ground (arith, e))
split-some (x ∷ xs) zero e = ground (arith, e)
split-some (x ∷ xs) (suc k) e = ground (arith, e, split-some xs k)

pub strndup-take :
    (xs : List ℕ) (k : ℕ) → k < length xs → strndup xs k ≡ strndup (take k xs) (length (take k xs))
unfolding strndup
strndup-take [] k h = absurd (omega arith)
strndup-take (x ∷ xs) zero h = refl
strndup-take (x ∷ xs) (suc k) h =
    ap (λ r. if x == 0 then [] else x ∷ r) (strndup-take xs k (omega arith))
