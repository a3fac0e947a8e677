-- ===== src/Queue/Walk.antt =====
-- Addressing songs by position, id and order number, and the walk of `queue_next_order`.
use mpd_legacy.Common.{
  ℕ, zero, suc, ◌+◌, ◌%◌, ◌≤◌, ◌<◌, ◌≡◌, ◌≢◌, ◌⊎◌, inl, inr, Option, some, none, true, false, arith,
  ◌-◌, Bool-cases, ◌==◌, sym, ◌∙◌,
}
use mpd_legacy.Queue.{
  Queue, find_order, position_to_order, id_to_position, position_to_id, next_order,
}
use mpd_legacy.Queue.Inv.{IsValid, order_onto}
use native.Mathlib.Nat.{mod-eq_of_lt, mod-eq-sub-mod}
use mpd_legacy.Common.{ap, not, ◌&&◌, ltb, if◌then◌else◌, ℕ_discrete}

-- The search stops at the first entry that holds the position, or behind the last one.
find_order_cases :
    (n i : ℕ) (q : Queue) (p : ℕ)
    → ((i ≤ find_order n i q p) × (find_order n i q p < i + n) × (q.order (find_order n i q p) ≡ p))
      ⊎ ((k : ℕ) → i ≤ k → k < i + n → q.order k ≢ p)
unfolding find_order
find_order_cases zero i q p = inr (λ k lo hi. absurd (omega arith))
find_order_cases (suc n) i q p = elim (Bool-cases (q.order i == p)) [
  | inl e ↦ inl (ground arith, ground arith, ground arith)
  | inr ne ↦ elim (find_order_cases n (suc i) q p) [
    | inl (lo, hi, e) ↦ inl (ground arith, ground arith, ground arith)
    | inr free ↦ inr (λ k lo hi. ground (arith, free k))
  ]
]

-- In a valid queue `queue_position_to_order` ends, inside the order, at an entry for the position.
pub position_to_order_lem :
    {q : Queue} (p : ℕ)
    → IsValid q
    → p < q.length
    → (position_to_order q p < q.length) × (q.order (position_to_order q p) ≡ p)
unfolding position_to_order
position_to_order_lem {q} p v h = elim (find_order_cases q.length 0 q p) [
  | inl (lo, hi, e) ↦ (omega arith, e)
  | inr free ↦ let (o, ho, e) = order_onto p v h in absurd (free o (omega arith) (omega arith) e)
]

pub position_to_order-order :
    {q : Queue} (o : ℕ) → IsValid q → o < q.length → position_to_order q (q.order o) ≡ o
position_to_order-order {q} o v h =
    let hp = v.ordered.0 o h in
    let (lt, e) = position_to_order_lem (q.order o) v hp in v.ordered.1 _ o lt h e

-- `queue_position_to_order` ends within the order, and undoes `queue_order_to_position`, which
-- undoes it.
pub order_round_trip :
    {q : Queue} (n : ℕ)
    → IsValid q
    → n < q.length
    → (position_to_order q n < q.length)
      × (q.order (position_to_order q n) ≡ n)
      × (position_to_order q (q.order n) ≡ n)
order_round_trip n v h =
    let (lt, e) = position_to_order_lem n v h in (lt, e, position_to_order-order n v h)

pub id_to_position-position_to_id :
    {q : Queue} (p : ℕ) → IsValid q → p < q.length → id_to_position q (position_to_id q p) ≡ some p
unfolding id_to_position position_to_id
id_to_position-position_to_id {q} p v h = ground (arith, v.ids.below p h, v.ids.known p h)

pub walk : Queue → ℕ → ℕ → Option ℕ
walk q zero o = some o
walk q (suc n) o = elim (next_order q o) [ none ↦ none | some o' ↦ walk q n o' ]

-- One step in the four modes that matter to a player.
pub next_order-lt :
    {q : Queue} (o : ℕ) {o' : ℕ}
    → IsValid q
    → o < q.length
    → next_order q o ≡ some o'
    → o' < q.length
unfolding next_order
next_order-lt o v h e = ground arith

next_order-step :
    {q : Queue} (o : ℕ)
    → IsValid q
    → (q.single && q.repeat && not q.consume) ≡ false
    → suc o < q.length
    → next_order q o ≡ some (suc o)
unfolding next_order
next_order-step o v s h = ground arith

next_order-last :
    {q : Queue} (o : ℕ) → IsValid q → q.repeat ≡ false → suc o ≡ q.length → next_order q o ≡ none
unfolding next_order
next_order-last o v r h = ground arith

-- Without "repeat" the walk goes through the orders one by one, and stops behind the last.
pub walk-once :
    {q : Queue} (n o : ℕ)
    → IsValid q
    → q.repeat ≡ false
    → o < q.length
    → walk q n o ≡ (if ltb (o + n) q.length then some (o + n) else none)
unfolding walk
walk-once zero o v r h = ground arith
walk-once {q} (suc n) o v r h = elim (ℕ_discrete (suc o) q.length) [
  | yes last ↦ rw (next_order-last o v r last, walk) (ground arith)
  | no more ↦
      rw (next_order-step o v (ground arith) (omega arith), walk)
        (ground (arith, walk-once n (suc o) v r (omega arith)))
]

next_order-wrap :
    {q : Queue} (o : ℕ)
    → IsValid q
    → q.repeat ≡ true
    → q.single ≡ false
    → q.consume ≡ false
    → suc o ≡ q.length
    → next_order q o ≡ some 0
unfolding next_order
next_order-wrap o v r s c h = ground arith

-- With repeat, and without single and consume, queue_next_order goes round the whole order: in n steps
-- from an order number of the queue it comes to the one n further, modulo the length.
pub walk-round :
    {q : Queue} (n o : ℕ)
    → IsValid q
    → q.repeat ≡ true
    → q.single ≡ false
    → q.consume ≡ false
    → o < q.length
    → walk q n o ≡ some ((o + n) % q.length)
unfolding walk
walk-round zero o v r s c h = ap some (grind (arith, mod-eq_of_lt))
walk-round {q} (suc n) o v r s c h = elim (ℕ_discrete (suc o) q.length) [
  | yes last ↦
      rw (next_order-wrap o v r s c last, walk)
        (walk-round n 0 v r s c (omega arith) ∙ ap some (around last))
  | no more ↦
      rw (next_order-step o v (ground arith) (omega arith), walk)
        (walk-round n (suc o) v r s c (omega arith) ∙ ap (λ k. some (k % q.length)) (omega arith))
]
  where
    around : suc o ≡ q.length → (0 + n) % q.length ≡ (o + suc n) % q.length
    around last =
        let e : o + suc n - q.length ≡ 0 + n = omega arith in
        sym (mod-eq-sub-mod {n = o + suc n} {m = q.length} (omega arith) ∙ ap (λ k. k % q.length) e)
