-- ===== src/Common/Arrays.antt =====
-- A C array is a function of the index. That no access leaves the allocated part is stated by the
-- invariants of the components.
use Prim.Native.Nat.{ℕ, zero, suc}
use mathlib.Core.List.{List, [], ◌∷◌}
use mpd_legacy.Common.Tests.{◌==◌, if◌then◌else◌}

-- `a[i] = v`
abbrev pub update {ℓ} : {A : Type ℓ} → (ℕ → A) → ℕ → A → ℕ → A
update a i v j = if i == j then v else a j

-- the `n` entries from index `i` on
abbrev pub slice {ℓ} : {A : Type ℓ} → (ℕ → A) → ℕ → ℕ → List A
slice a i zero = []
slice a i (suc n) = a i ∷ slice a (suc i) n
