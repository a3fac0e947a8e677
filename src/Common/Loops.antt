-- ===== src/Common/Loops.antt =====
-- Counted loops, with their invariant rules.
use Prim.Native.Nat.{ℕ, zero, suc, ◌+◌, ◌≤◌, ◌<◌}
use mathlib.Core.Path.{◌≡◌}
use native.Mathlib.Omega.{arith}

-- `for (k = i; k < i + n; k++) s = body k s;`, by the rounds left
unfoldable pub for_up {ℓ} : {S : Type ℓ} → ℕ → ℕ → (ℕ → S → S) → S → S
for_up zero i body s = s
for_up (suc n) i body s = for_up n (suc i) body (body i s)

-- `for (k = i + n - 1; k >= i; k--) s = body k s;`
unfoldable pub for_down {ℓ} : {S : Type ℓ} → ℕ → ℕ → (ℕ → S → S) → S → S
for_down zero i body s = s
for_down (suc n) i body s = for_down n i body (body (i + n) s)

-- The invariant may say which rounds are done; it is kept by each round of the loop.
pub for_up_inv {ℓ κ} :
    {S : Type ℓ} (P : ℕ → S → Type κ) (body : ℕ → S → S) (n i j : ℕ) (s : S)
    → i + n ≡ j
    → ((k : ℕ) (t : S) → i ≤ k → k < j → P k t → P (suc k) (body k t))
    → P i s
    → P j (for_up n i body s)
unfolding for_up
for_up_inv P body zero i j s e keep h = let e' : i ≡ j = omega arith in rw (← e') h
for_up_inv P body (suc n) i j s e keep h =
    for_up_inv P body n (suc i) j (body i s) (omega arith)
      (λ k t lo hi p. keep k t (omega arith) hi p) (keep i s (omega arith) (omega arith) h)

-- Downwards the invariant speaks of the rounds that are left.
pub for_down_inv {ℓ κ} :
    {S : Type ℓ} (P : ℕ → S → Type κ) (body : ℕ → S → S) (n i : ℕ) (s : S)
    → ((k : ℕ) (t : S) → k < n → P (suc k) t → P k (body (i + k) t))
    → P n s
    → P 0 (for_down n i body s)
unfolding for_down
for_down_inv P body zero i s keep h = h
for_down_inv P body (suc n) i s keep h =
    for_down_inv P body n i (body (i + n) s) (λ k t lt p. keep k t (omega arith) p)
      (keep n s (omega arith) h)

-- The same, for an invariant that counts the rounds done.
pub for_up_count {ℓ κ} :
    {S : Type ℓ} (P : ℕ → S → Type κ) (body : ℕ → S → S) (n i : ℕ) (s : S)
    → ((k : ℕ) (t : S) → k < n → P k t → P (suc k) (body (i + k) t))
    → P 0 s
    → P n (for_up n i body s)
unfolding for_up
for_up_count P body zero i s keep h = h
for_up_count P body (suc n) i s keep h =
    let e : i + 0 ≡ i = omega arith in
    for_up_count (λ k. P (suc k)) body n (suc i) (body i s)
      (λ k t lt p.
        let e' : i + suc k ≡ suc i + k = omega arith in rw e' at (keep (suc k) t (omega arith) p))
      (rw e at (keep 0 s (omega arith) h))
