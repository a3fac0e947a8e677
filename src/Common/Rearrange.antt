-- ===== src/Common/Rearrange.antt =====
-- An array with the entries of a range put in another sequence.
use Prim.Native.Nat.{ℕ, ◌≤◌, ◌<◌}
use mathlib.Core.Path.{◌≡◌, refl, ap, ◌∙◌}
use mathlib.Core.Logic.{◌⊎◌}
use native.Mathlib.Omega.{arith}
use mpd_legacy.Common.Tests.{◌==◌, if◌then◌else◌}
use mpd_legacy.Common.Arrays.{update}
use mpd_legacy.Common.Pigeonhole.{Injects}

-- Entry `i` of `g` is entry `from i` of `f`; outside [lo, hi) nothing moves.
pub record Rearranges {ℓ} {A : Type ℓ} (lo hi : ℕ) (f g : ℕ → A) : Type ℓ where
  pub from : ℕ → ℕ
  pub inside : (i : ℕ) → lo ≤ i → i < hi → (lo ≤ from i) × (from i < hi)
  pub outside : (i : ℕ) → (i < lo) ⊎ (hi ≤ i) → from i ≡ i
  pub distinct : (i j : ℕ) → from i ≡ from j → i ≡ j
  pub same : (i : ℕ) → g i ≡ f (from i)

module _ {ℓ} {A : Type ℓ} (lo hi : ℕ) where
  pub Rearranges-refl : (f : ℕ → A) → Rearranges lo hi f f
  Rearranges-refl f = record {
    from = λ i. i;
    inside = λ i l h. (l, h);
    outside = λ i o. refl;
    distinct = λ i j e. e;
    same = λ i. refl;
  }

  pub Rearranges-trans :
      {f g h : ℕ → A} → Rearranges lo hi f g → Rearranges lo hi g h → Rearranges lo hi f h
  Rearranges-trans r s = record {
    from = λ i. r.from (s.from i);
    inside = λ i l u. let (l', u') = s.inside i l u in r.inside (s.from i) l' u';
    outside = λ i o. ap r.from (s.outside i o) ∙ r.outside i o;
    distinct = λ i j e. s.distinct i j (r.distinct _ _ e);
    same = λ i. s.same i ∙ r.same (s.from i);
  }

  -- Two entries of the range change places.
  pub Rearranges-swap :
      (f : ℕ → A) (a b : ℕ)
      → lo ≤ a
      → a < hi
      → lo ≤ b
      → b < hi
      → Rearranges lo hi f (update (update f a (f b)) b (f a))
  Rearranges-swap f a b la ha lb hb = record {
    from = λ i. if b == i then a else if a == i then b else i;
    inside = λ i l u. ground arith;
    outside = λ i o. ground arith;
    distinct = λ i j e. ground arith;
    same = λ i. ground arith;
  }

-- A smaller range is part of a larger one.
pub Rearranges-widen {ℓ} :
    {A : Type ℓ} {lo hi lo' hi' : ℕ} {f g : ℕ → A}
    → lo' ≤ lo
    → hi ≤ hi'
    → Rearranges lo hi f g
    → Rearranges lo' hi' f g
Rearranges-widen {lo = lo} {hi = hi} l h r = record {
  from = r.from;
  inside = λ i li hi'. grind (arith, r.inside i, r.outside i);
  outside = λ i o. r.outside i (ground arith);
  distinct = r.distinct;
  same = r.same;
}

-- A permutation of the first numbers stays one.
pub Rearranges-Injects :
    {lo hi n : ℕ} {f g : ℕ → ℕ} → hi ≤ n → Rearranges lo hi f g → Injects f n n → Injects g n n
Rearranges-Injects {lo} {hi} {n} {f} {g} h r v =
    let below : (i : ℕ) → i < n → r.from i < n = λ i lt. from_below i lt in
    (
      λ i lt. ground (arith, r.same i, v.0 (r.from i) (below i lt)),
      λ i j li lj e. r.distinct i j (
          v.1 (r.from i) (r.from j) (below i li) (below j lj) (ground (arith, r.same i, r.same j))),
    )
  where
    from_below : (i : ℕ) → i < n → r.from i < n
    from_below i lt = grind (arith, r.inside i, r.outside i)
