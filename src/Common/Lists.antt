-- ===== src/Common/Lists.antt =====
-- Lists measured and cut by native numbers, under the library's names, and runs of an array.
use Prim.Native.Nat.{ℕ, zero, suc, ◌+◌, ◌-◌, ◌≤◌, ◌<◌}
use mathlib.Core.Path.{◌≡◌, refl, ap}
use mathlib.Core.List.{List, [], ◌∷◌, ◌++◌}
use native.Mathlib.Omega.{arith}
use mpd_legacy.Common.Arrays.{update, slice}

module _ {ℓ} {A : Type ℓ} where
  abbrev pub length : List A → ℕ
  length [] = 0
  length (x ∷ xs) = suc (length xs)

  abbrev pub take : ℕ → List A → List A
  take zero xs = []
  take (suc n) [] = []
  take (suc n) (x ∷ xs) = x ∷ take n xs

  abbrev pub drop : ℕ → List A → List A
  drop zero xs = xs
  drop (suc n) [] = []
  drop (suc n) (x ∷ xs) = drop n xs

  pub length-append : (xs ys : List A) → length (xs ++ ys) ≡ length xs + length ys
  length-append [] ys = omega arith
  length-append (x ∷ xs) ys = omega (arith, length-append xs ys)

  pub length-take : (n : ℕ) (xs : List A) → n ≤ length xs → length (take n xs) ≡ n
  length-take zero xs h = refl
  length-take (suc n) [] h = absurd (omega arith)
  length-take (suc n) (x ∷ xs) h = ap suc (length-take n xs (omega arith))

  pub take-append-drop : (n : ℕ) (xs : List A) → take n xs ++ drop n xs ≡ xs
  take-append-drop zero xs = refl
  take-append-drop (suc n) [] = refl
  take-append-drop (suc n) (x ∷ xs) = ap (λ ys. x ∷ ys) (take-append-drop n xs)

  -- Writing a list into an array.
  abbrev pub store : (ℕ → A) → ℕ → List A → ℕ → A
  store a p [] = a
  store a p (x ∷ xs) = store (update a p x) (suc p) xs

module _ {ℓ} {A : Type ℓ} where
  pub length-slice : (a : ℕ → A) (i n : ℕ) → length (slice a i n) ≡ n
  length-slice a i zero = refl
  length-slice a i (suc n) = ap suc (length-slice a (suc i) n)

  -- Equal entries, possibly at another place.
  pub slice-cong :
      (a b : ℕ → A) (i j n : ℕ)
      → ((k : ℕ) → k < n → a (i + k) ≡ b (j + k))
      → slice a i n ≡ slice b j n
  slice-cong a b i j zero h = refl
  slice-cong a b i j (suc n) h =
      ground (arith, h 0, slice-cong a b (suc i) (suc j) n (λ k lt. ground (arith, h (suc k))))

  pub slice-append : (a : ℕ → A) (i m n : ℕ) → slice a i (m + n) ≡ slice a i m ++ slice a (i + m) n
  slice-append a i zero n = ground arith
  slice-append a i (suc m) n =
      let e : suc m + n ≡ suc (m + n) = omega arith in
      let e' : i + suc m ≡ suc i + m = omega arith in
      rw (e, e') (ap (λ ys. a i ∷ ys) (slice-append a (suc i) m n))

  pub drop-slice : (a : ℕ → A) (i m n : ℕ) → m ≤ n → drop m (slice a i n) ≡ slice a (i + m) (n - m)
  drop-slice a i zero n h = ground arith
  drop-slice a i (suc m) zero h = absurd (omega arith)
  drop-slice a i (suc m) (suc n) h = ground (arith, drop-slice a (suc i) m n)

  pub take-slice : (a : ℕ → A) (i m n : ℕ) → m ≤ n → take m (slice a i n) ≡ slice a i m
  take-slice a i zero n h = refl
  take-slice a i (suc m) zero h = absurd (omega arith)
  take-slice a i (suc m) (suc n) h = ground (arith, take-slice a (suc i) m n)

  pub store_outside : (a : ℕ → A) (p k : ℕ) (xs : List A) → k < p → store a p xs k ≡ a k
  store_outside a p k [] h = refl
  store_outside a p k (x ∷ xs) h = ground (arith, store_outside (update a p x) (suc p) k xs)

  pub slice-store : (a : ℕ → A) (p : ℕ) (xs : List A) → slice (store a p xs) p (length xs) ≡ xs
  slice-store a p [] = refl
  slice-store a p (x ∷ xs) =
      ground
        (arith, slice-store (update a p x) (suc p) xs, store_outside (update a p x) (suc p) p xs)

abbrev pub All {ℓ κ} : {A : Type ℓ} → (A → Type κ) → List A → Type κ
All P [] = Unit
All P (x ∷ xs) = P x × All P xs
