-- ===== src/Client/CommandList.antt =====
-- A command list is run as it was sent.
use mathlib.Core.List.{reverse, reverse_aux, reverse-reverse}
use mpd_legacy.Common.{
  ℕ, ◌+◌, ◌≤◌, ◌<◌, ◌≡◌, refl, ap, ◌∙◌, none, some, Bool, true, false, ◌||◌, not, ◌⊎◌, inl, inr,
  if_cases, List, [], ◌∷◌, ◌++◌, arith, ltb, if◌then◌else◌, length, All,
}
use mpd_legacy.Command.{CommandReturn, ok, close, is_text}
use mpd_legacy.Client.Process.{
  Environment, Session, is_close, is_ok, noidle, client_list_mode_begin, client_list_ok_mode_begin,
  client_list_mode_end, process_command_list, answer, end_list, add_to_list, client_process_line,
}

-- A line that a command list can hold.
pub record IsListed (line : List ℕ) : Type 0 where
  pub command : is_text line noidle ≡ false
  pub other : is_text line client_list_mode_end ≡ false

stopped : (fine late : Bool) → (not fine || late) ≡ true → (fine ≡ false) ⊎ (late ≡ true)
stopped false late e = inl refl
stopped true late e = inr e

or_true {ℓ} : {A : Type ℓ} (b : Bool) (x y : A) → (if b || true then x else y) ≡ x
or_true true x y = refl
or_true false x y = refl

ok-is_ok : (ret : CommandReturn) → is_ok ret ≡ true → ret ≡ ok
ok-is_ok CommandReturn.error e = absurd (ground (arith, e))
ok-is_ok ok e = refl
ok-is_ok CommandReturn.kill e = absurd (ground (arith, e))
ok-is_ok close e = absurd (ground (arith, e))

unstopped : (fine late : Bool) → (not fine || late) ≡ false → (fine ≡ true) × (late ≡ false)
unstopped false true e = absurd (ground (arith, e))
unstopped false false e = absurd (ground (arith, e))
unstopped true late e = (refl, e)

-- What the lines add to `cmd_list_size`.
abbrev pub total_size : List (List ℕ) → ℕ
total_size [] = 0
total_size (l ∷ ls) = length l + 1 + total_size ls

-- How a list of commands runs from a command and its number on, with what the last one that ran answered:
-- to its end, or up to the command that fails or behind which the client is expired.
pub data Runs {ℓ} {W : Type ℓ} (env : Environment W) (list_ok : Bool)
    : ℕ → List (List ℕ) → W → CommandReturn × W → Type ℓ where
  all_run : (num : ℕ) (w : W) → Runs env list_ok num [] w (ok, w)
  stops :
      (num : ℕ) (cmd : List ℕ) (cmds : List (List ℕ)) (w w' : W) (ret : CommandReturn)
      → env.command_process num cmd w ≡ (ret, w')
      → ((is_ok ret ≡ false) ⊎ (env.is_expired w' ≡ true))
      → Runs env list_ok num (cmd ∷ cmds) w (ret, w')
  goes_on :
      (num : ℕ) (cmd : List ℕ) (cmds : List (List ℕ)) (w w' : W) (r : CommandReturn × W)
      → env.command_process num cmd w ≡ (ok, w')
      → env.is_expired w' ≡ false
      → Runs env list_ok (num + 1) cmds (if list_ok then env.put_list_ok w' else w') r
      → Runs env list_ok num (cmd ∷ cmds) w r

module _ {ℓ} {W : Type ℓ} (env : Environment W) (client_max_command_list_size : ℕ) where
  -- A session that is not idle and where no command list has begun.
  abbrev pub ready : ℕ → W → Session W
  ready size w = record {
    idle_waiting = false;
    cmd_list_ok = none;
    cmd_list = [];
    cmd_list_size = size;
    world = w;
  }

  abbrev pub in_list : Bool → List (List ℕ) → ℕ → W → Session W
  in_list list_ok cmds size w = record {
    idle_waiting = false;
    cmd_list_ok = some list_ok;
    cmd_list = cmds;
    cmd_list_size = size;
    world = w;
  }

  -- The session after some lines.
  abbrev pub feed : Session W → List (List ℕ) → Session W
  feed c [] = c
  feed c (l ∷ ls) = feed (client_process_line env client_max_command_list_size c l).1 ls

  feed-in_list :
      (list_ok : Bool) (ls cmds : List (List ℕ)) (size : ℕ) (w : W)
      → All IsListed ls
      → size + total_size ls ≤ client_max_command_list_size
      → feed (in_list list_ok cmds size w) ls
        ≡ in_list list_ok (reverse_aux ls cmds) (size + total_size ls) w
  unfolding client_process_line add_to_list
  feed-in_list list_ok [] cmds size w h fits = ap (λ n. in_list list_ok cmds n w) (omega arith)
  feed-in_list list_ok (l ∷ ls) cmds size w (h, hs) fits =
      let small : ltb client_max_command_list_size (size + (length l + 1)) ≡ false = ground arith in
      let sum : size + (length l + 1) + total_size ls ≡ size + (length l + 1 + total_size ls) =
        omega arith in
      rw (h.command, h.other, small)
        (feed-in_list list_ok ls (l ∷ cmds) (size + (length l + 1)) w hs (omega arith)
          ∙ ap (λ n. in_list list_ok (reverse_aux ls (l ∷ cmds)) n w) sum)

  pub begin : Bool → List ℕ
  begin list_ok = if list_ok then client_list_ok_mode_begin else client_list_mode_begin

  begin_lem :
      (list_ok : Bool) (size : ℕ) (w : W)
      → (client_process_line env client_max_command_list_size (ready size w) (begin list_ok)).1
        ≡ in_list list_ok [] size w
  unfolding begin client_process_line is_text
  begin_lem true size w = refl
  begin_lem false size w = refl

  ended :
      (list_ok : Bool) (ls : List (List ℕ)) (size : ℕ) (w : W)
      → let (ret, w') = process_command_list env client_max_command_list_size list_ok 0 ls w in
        client_process_line env client_max_command_list_size
          (in_list list_ok (reverse ls) size w)
          client_list_mode_end
        ≡ (if is_close ret || env.is_expired w'
            then (close, record (in_list list_ok ls size w) { world = w' })
            else (
              ret,
              ready size (env.write_output (if is_ok ret then env.command_success w' else w')),
            ))
  unfolding client_process_line end_list is_text answer
  ended list_ok ls size w = rw (reverse-reverse ls)

  process_command_list-Runs :
      (list_ok : Bool) (num : ℕ) (ls : List (List ℕ)) (w : W)
      → Runs env list_ok num ls w
          (process_command_list env client_max_command_list_size list_ok num ls w)
  unfolding process_command_list
  process_command_list-Runs list_ok num [] w = all_run num w
  process_command_list-Runs list_ok num (cmd ∷ cmds) w =
      let ret = (env.command_process num cmd w).0 in
      let w' = (env.command_process num cmd w).1 in
      if_cases (Runs env list_ok num (cmd ∷ cmds) w) (not (is_ok ret) || env.is_expired w')
        (λ e. stops num cmd cmds w w' ret refl (stopped (is_ok ret) (env.is_expired w') e))
        (λ e.
          let (fine, awake) = unstopped (is_ok ret) (env.is_expired w') e in
          goes_on num cmd cmds w w'
            (process_command_list env client_max_command_list_size list_ok (num + 1) cmds
              (if list_ok then env.put_list_ok w' else w'))
            (ap (λ x. (x, w')) (ok-is_ok ret fine)) awake
            (process_command_list-Runs list_ok (num + 1) cmds
              (if list_ok then env.put_list_ok w' else w')))

  -- The commands behind one, and a round of the loop with what that one answered.
  abbrev later : Bool → ℕ → List (List ℕ) → W → CommandReturn × W
  later list_ok num cmds w' =
      process_command_list env client_max_command_list_size list_ok (num + 1) cmds
        (if list_ok then env.put_list_ok w' else w')

  abbrev round : Bool → ℕ → List (List ℕ) → CommandReturn × W → CommandReturn × W
  round list_ok num cmds (ret, w') =
      if not (is_ok ret) || env.is_expired w' then (ret, w') else later list_ok num cmds w'

  Runs-process_command_list :
      {list_ok : Bool} {num : ℕ} {ls : List (List ℕ)} {w : W} {r : CommandReturn × W}
      → Runs env list_ok num ls w r
      → process_command_list env client_max_command_list_size list_ok num ls w ≡ r
  unfolding process_command_list
  Runs-process_command_list {list_ok} (all_run num w) = refl
  Runs-process_command_list {list_ok} (stops num cmd cmds w w' ret e why) =
      ap (round list_ok num cmds) e ∙ elim why [
        | inl fails ↦
            ap (λ b. if not b || env.is_expired w' then (ret, w') else (later list_ok num cmds w'))
              fails
        | inr late ↦
            ap (λ b. if not (is_ok ret) || b then (ret, w') else (later list_ok num cmds w')) late
            ∙ or_true (not (is_ok ret)) (ret, w') (later list_ok num cmds w')
      ]
  Runs-process_command_list {list_ok} (goes_on num cmd cmds w w' r e awake runs) =
      ap (round list_ok num cmds) e
      ∙ ap (λ b. if b then (ok, w') else (later list_ok num cmds w')) awake
      ∙ Runs-process_command_list runs

  -- The session and the result behind a list that was run.
  abbrev pub run_ended : Bool → List (List ℕ) → ℕ → CommandReturn × W → CommandReturn × Session W
  run_ended list_ok ls size (ret, w') =
      if is_close ret || env.is_expired w'
      then (close, in_list list_ok ls size w')
      else (ret, ready size (env.write_output (if is_ok ret then env.command_success w' else w')))

  -- After the line that begins a command list, with or without list_OK, and lines that are neither noidle
  -- nor the end of a list and fit in client_max_command_list_size, the line that ends it calls
  -- command_process for these lines in the sequence in which they were sent, numbered from 0, with list_OK
  -- put behind each that succeeds if that was asked for, up to the first that fails or behind which the
  -- client is expired. If the last one closes the client or it is expired, the line is answered with close;
  -- otherwise success is told if all succeeded, the output is written, no list is left, and the lines stay
  -- counted in cmd_list_size.
  pub command_list_lem :
      (list_ok : Bool) (ls : List (List ℕ)) (size : ℕ) (w : W)
      → All IsListed ls
      → size + total_size ls ≤ client_max_command_list_size
      → let c = feed (ready size w) (begin list_ok ∷ ls) in
        (r : CommandReturn × W) × Runs env list_ok 0 ls w r
        × (client_process_line env client_max_command_list_size c client_list_mode_end
            ≡ run_ended list_ok ls (size + total_size ls) r)
  command_list_lem list_ok ls size w h fits = (
    process_command_list env client_max_command_list_size list_ok 0 ls w,
    process_command_list-Runs list_ok 0 ls w,
    ap (λ c. client_process_line env client_max_command_list_size c client_list_mode_end)
          (ap (λ c. feed c ls) (begin_lem list_ok size w)
            ∙ feed-in_list list_ok ls [] size w h fits)
        ∙ ended list_ok ls (size + total_size ls) w,
  )

  too_large :
      (list_ok : Bool) (line : List ℕ) (size : ℕ) (w : W)
      → IsListed line
      → client_max_command_list_size < size + (length line + 1)
      → (client_process_line env client_max_command_list_size (in_list list_ok [] size w) line).0
        ≡ close
  unfolding client_process_line add_to_list
  too_large list_ok line size w h over =
      let full : ltb client_max_command_list_size (size + (length line + 1)) ≡ true =
        ground arith in
      rw (h.command, h.other, full)

  feed-append :
      (c : Session W) (ls more : List (List ℕ)) → feed c (ls ++ more) ≡ feed (feed c ls) more
  feed-append c [] more = refl
  feed-append c (l ∷ ls) more =
      feed-append (client_process_line env client_max_command_list_size c l).1 ls more

  -- The lines of a former list are counted against the next one: on a new connection, behind a list that
  -- fits and was run without closing the client, a line in the next list that fits by itself closes
  -- the client where both lists together exceed client_max_command_list_size.
  pub add_to_list-stale :
      (list_ok next_ok : Bool) (ls : List (List ℕ)) (line : List ℕ) (w : W) (r : CommandReturn × W)
      → All IsListed ls
      → total_size ls ≤ client_max_command_list_size
      → Runs env list_ok 0 ls w r
      → (is_close r.0 || env.is_expired r.1) ≡ false
      → IsListed line
      → length line + 1 ≤ client_max_command_list_size
      → client_max_command_list_size < total_size ls + (length line + 1)
      → let former = begin list_ok ∷ ls ++ client_list_mode_end ∷ begin next_ok ∷ [] in
        (client_process_line env client_max_command_list_size (feed (ready 0 w) former) line).0
        ≡ close
  add_to_list-stale list_ok next_ok ls line w r listed held runs stays h fits over =
      let size : ℕ = total_size ls in
      let after : W = env.write_output (if is_ok r.0 then env.command_success r.1 else r.1) in
      let next = client_list_mode_end ∷ begin next_ok ∷ [] in
      let start : 0 + size ≡ size = omega arith in
      let listing : feed (ready 0 w) (begin list_ok ∷ ls) ≡ in_list list_ok (reverse ls) size w =
        ap (λ c. feed c ls) (begin_lem list_ok 0 w)
        ∙ feed-in_list list_ok ls [] 0 w listed (omega (arith, held))
        ∙ ap (λ n. in_list list_ok (reverse ls) n w) start in
      let run =
        ended list_ok ls size w
        ∙ ap (run_ended list_ok ls size) (Runs-process_command_list runs)
        ∙ ap (λ b. if b then (close, in_list list_ok ls size r.1) else (r.0, ready size after))
            stays in
      let former : feed (ready 0 w) (begin list_ok ∷ ls ++ next) ≡ in_list next_ok [] size after =
        feed-append (ready 0 w) (begin list_ok ∷ ls) next
        ∙ ap (λ c. feed c next) listing
        ∙ ap (λ (x : CommandReturn × Session W). feed x.1 (begin next_ok ∷ [])) run
        ∙ begin_lem next_ok size after in
      ap (λ c. (client_process_line env client_max_command_list_size c line).0) former
      ∙ too_large next_ok line size after h over
