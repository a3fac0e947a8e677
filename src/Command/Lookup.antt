-- ===== src/Command/Lookup.antt =====
-- `command_lookup` finds what a search of the whole table finds.
use Prim.Native.Nat.{Ordering}
use mpd_legacy.Common.{
  ℕ, zero, suc, ◌+◌, ◌-◌, ◌/◌, ◌≤◌, ◌<◌, ◌≡◌, ◌↔◌, refl, some, Bool, true, false, List, [], ◌∷◌,
  arith, dec_lt, length,
}
use mpd_legacy.Command.{Command, strcmp, search_command, command_lookup, name_at}
use mpd_legacy.Command.Table.{commands}

strcmp_refl : (xs : List ℕ) → strcmp xs xs ≡ Ordering.eq
unfolding strcmp
strcmp_refl [] = refl
strcmp_refl (x ∷ xs) = ground (arith, strcmp_refl xs)

strcmp_eq : (xs ys : List ℕ) → strcmp xs ys ≡ Ordering.eq → xs ≡ ys
unfolding strcmp
strcmp_eq [] [] e = refl
strcmp_eq [] (y ∷ ys) e = absurd (ground (arith, e))
strcmp_eq (x ∷ xs) [] e = absurd (ground (arith, e))
strcmp_eq (x ∷ xs) (y ∷ ys) e = ground (arith, e, strcmp_eq xs ys)

strcmp_asym : (xs ys : List ℕ) → strcmp xs ys ≡ Ordering.lt → strcmp ys xs ≡ Ordering.gt
unfolding strcmp
strcmp_asym [] [] e = absurd (ground (arith, e))
strcmp_asym [] (y ∷ ys) e = refl
strcmp_asym (x ∷ xs) [] e = absurd (ground (arith, e))
strcmp_asym (x ∷ xs) (y ∷ ys) e = ground (arith, e, strcmp_asym xs ys)

-- The names ascend.
abbrev pub Ascends : (ℕ → List ℕ) → ℕ → Type 0
Ascends names n = (i j : ℕ) → i < j → j < n → strcmp (names i) (names j) ≡ Ordering.lt

search_finds :
    (names : ℕ → List ℕ) (n : ℕ) (fuel a b j : ℕ)
    → Ascends names n
    → b ≤ n
    → a ≤ j
    → j < b
    → b - a ≤ fuel
    → search_command names (names j) fuel a b ≡ some j
unfolding search_command
search_finds names n zero a b j up hb ha hj hf = absurd (omega arith)
search_finds names n (suc fuel) a b j up hb ha hj hf =
    let i = (a + b) / 2 in
    elim (dec_lt i j) [
      | yes h ↦ ground (
        arith,
        strcmp_asym (names i) (names j) (up i j h (omega arith)),
        search_finds names n fuel (i + 1) b j up hb,
      )
      | no h ↦ elim (dec_lt j i) [
        | yes h' ↦
            ground
              (arith, up j i h' (omega arith), search_finds names n fuel a i j up (omega arith))
        | no h' ↦
            let e : i ≡ j = omega arith in
            let found : strcmp (names j) (names i) ≡ Ordering.eq = rw e (strcmp_refl (names j)) in
            ground (arith, found, e)
      ]
    ]

search_sound :
    (names : ℕ → List ℕ) (name : List ℕ) (fuel a b j : ℕ)
    → a < b
    → search_command names name fuel a b ≡ some j
    → (a ≤ j) × (j < b) × (names j ≡ name)
unfolding search_command
search_sound names name zero a b j h e = absurd (ground (arith, e))
search_sound names name (suc fuel) a b j h e =
    let i = (a + b) / 2 in
    ground (
      arith,
      strcmp_eq name (names i),
      search_sound names name fuel a i j,
      search_sound names name fuel (i + 1) b j,
    )

-- In a table that ascends, `command_lookup` finds the command that has the name, and no other.
pub command_lookup_lem :
    (table : List Command) (name : List ℕ) (i : ℕ)
    → Ascends (name_at table) (length table)
    → 0 < length table
    → (command_lookup table name ≡ some i) ↔ ((i < length table) × (name_at table i ≡ name))
unfolding command_lookup
command_lookup_lem table name i up h =
    let n = length table in
    (
      λ e. let (_, lt, same) = search_sound (name_at table) name n 0 n i h e in (lt, same),
      λ (lt, e).
          rw (← e) (
            search_finds (name_at table) n n 0 n i up (omega arith) (omega arith) lt (omega arith)),
    )

ascends_from : (ℕ → List ℕ) → ℕ → ℕ → Bool
ascends_from names i zero = true
ascends_from names i (suc n) = elim (strcmp (names i) (names (i + 1))) [
  | Ordering.lt ↦ ascends_from names (i + 1) n
  | _ ↦ false
]

strcmp_trans :
    (xs ys zs : List ℕ)
    → strcmp xs ys ≡ Ordering.lt
    → strcmp ys zs ≡ Ordering.lt
    → strcmp xs zs ≡ Ordering.lt
unfolding strcmp
strcmp_trans [] [] zs e f = absurd (ground (arith, e))
strcmp_trans [] (y ∷ ys) [] e f = absurd (ground (arith, f))
strcmp_trans [] (y ∷ ys) (z ∷ zs) e f = refl
strcmp_trans (x ∷ xs) [] zs e f = absurd (ground (arith, e))
strcmp_trans (x ∷ xs) (y ∷ ys) [] e f = absurd (ground (arith, f))
strcmp_trans (x ∷ xs) (y ∷ ys) (z ∷ zs) e f = ground (arith, e, f, strcmp_trans xs ys zs)

ascends_step :
    (names : ℕ → List ℕ) (i n k : ℕ)
    → ascends_from names i n ≡ true
    → i ≤ k
    → k < i + n
    → strcmp (names k) (names (k + 1)) ≡ Ordering.lt
unfolding ascends_from
ascends_step names i zero k e lo hi = absurd (omega arith)
ascends_step names i (suc n) k e lo hi = elim (dec_lt i k) [
  | yes h ↦ ground (arith, e, ascends_step names (i + 1) n k)
  | no h ↦ let same : i ≡ k = omega arith in ground (arith, e, same)
]

ascends_far :
    (names : ℕ → List ℕ) (n i j : ℕ)
    → ascends_from names 0 n ≡ true
    → i < j
    → j ≤ n
    → strcmp (names i) (names j) ≡ Ordering.lt
ascends_far names n i zero e h hj = absurd (omega arith)
ascends_far names n i (suc j) e h hj =
    let j' : suc j ≡ j + 1 = omega arith in
    let step = ascends_step names 0 n j e (omega arith) (omega arith) in
    rw j' (elim (dec_lt i j) [
      | yes lt ↦
          strcmp_trans (names i) (names j) (names (j + 1))
            (ascends_far names n i j e lt (omega arith)) step
      | no ge ↦ let same : i ≡ j = omega arith in rw same step
    ])

commands_ascend : ascends_from (name_at commands) 0 84 ≡ true
unfolding ascends_from commands strcmp
commands_ascend = refl

-- The names of the table of commands ascend, so `command_lookup` finds every one of them.
pub commands-Ascends : Ascends (name_at commands) 85
commands-Ascends i j h lt = ascends_far (name_at commands) 84 i j commands_ascend h (omega arith)
