-- ===== src/Common/Pigeonhole.antt =====
-- No injection of a larger range of numbers into a smaller one.
use Prim.Native.Nat.{ℕ, zero, suc, ◌≤◌, ◌<◌}
use mathlib.Core.Path.{◌≡◌}
use mathlib.Core.Logic.{◌≢◌, ◌⊎◌, inl, inr}
use native.Mathlib.Decide.{ℕ_discrete}
use native.Mathlib.Omega.{arith}
use mpd_legacy.Common.Tests.{◌==◌, if◌then◌else◌}

-- Drop the last index, and let the last value stand for the one it took.
abbrev patch : (ℕ → ℕ) → ℕ → ℕ → ℕ → ℕ
patch f n m i = if f i == m then f n else f i

abbrev pub Injects : (ℕ → ℕ) → ℕ → ℕ → Type 0
Injects f n m = ((i : ℕ) → i < n → f i < m) × ((i j : ℕ) → i < n → j < n → f i ≡ f j → i ≡ j)

patch-Injects : (f : ℕ → ℕ) (n m : ℕ) → Injects f (suc n) (suc m) → Injects (patch f n m) n m
patch-Injects f n m (below, inj) = (
  λ i h. ground (arith, below i, below n, inj i n),
  λ i j hi hj e. ground (arith, inj i j, inj i n, inj j n),
)

pub Injects-le : (f : ℕ → ℕ) (n m : ℕ) → Injects f n m → n ≤ m
Injects-le f zero m h = omega arith
Injects-le f (suc n) zero h = absurd (omega (arith, h.0 n (omega arith)))
Injects-le f (suc n) (suc m) h = omega (arith, Injects-le (patch f n m) n m (patch-Injects f n m h))

-- Either some index has the value, or none has.
find_value : (f : ℕ → ℕ) (n p : ℕ) → ((i : ℕ) × (i < n) × (f i ≡ p)) ⊎ ((i : ℕ) → i < n → f i ≢ p)
find_value f zero p = inr (λ i h. absurd (omega arith))
find_value f (suc n) p = elim (ℕ_discrete (f n) p) [
  | yes e ↦ inl (n, omega arith, e)
  | no ne ↦ elim (find_value f n p) [
    | inl (i, h, e) ↦ inl (i, omega arith, e)
    | inr none_below ↦
        inr
          (λ i h. elim (ℕ_discrete i n) [ yes e ↦ rw e ne | no other ↦ none_below i (omega arith) ])
  ]
]

-- Without the value `p` there is room for one less.
abbrev squeeze : (ℕ → ℕ) → ℕ → ℕ → ℕ → ℕ
squeeze f n p i = if f i == n then p else f i

squeeze-Injects :
    (f : ℕ → ℕ) (n p : ℕ)
    → Injects f (suc n) (suc n)
    → p < suc n
    → ((i : ℕ) → i < suc n → f i ≢ p)
    → Injects (squeeze f n p) (suc n) n
squeeze-Injects f n p (below, inj) hp free =
    (λ i h. ground (arith, below i, free i), λ i j hi hj e. ground (arith, inj i j, free i, free j))

-- An injection of a range into itself takes every value.
pub Injects-onto : (f : ℕ → ℕ) (n p : ℕ) → Injects f n n → p < n → (i : ℕ) × (i < n) × (f i ≡ p)
Injects-onto f zero p h hp = absurd (omega arith)
Injects-onto f (suc n) p h hp = elim (find_value f (suc n) p) [
  | inl found ↦ found
  | inr free ↦
      absurd (omega (arith, Injects-le (squeeze f n p) (suc n) n (squeeze-Injects f n p h hp free)))
]
