-- ===== src/Client/Tests.antt =====
-- The theorems about clients at a few lines.
use mpd_legacy.Common.{
  ℕ, ◌+◌, ◌≡◌, refl, Bool, true, false, List, [], ◌∷◌, ◌++◌, arith, leb, ◌==◌, if◌then◌else◌,
  Bool-cases, inl, inr,
}
use mpd_legacy.Fifo.{new as fifo_new, write as fifo_write}
use mpd_legacy.Command.{CommandReturn, ok, close, codes, strcmp, is_text}
use mpd_legacy.Client.Read.{Client, IoStatus, normal, again, client_read}
use mpd_legacy.Client.Lines.{
  Passes, IsFramed, StaysFramed, taken, delivered, told, client_read-IsFramed,
}
use mpd_legacy.Client.Split.{split}
use mpd_legacy.Client.Process.{Environment, client_process_line, client_list_mode_end}
use mpd_legacy.Client.CommandList.{
  IsListed, Runs, all_run, goes_on, run_ended, total_size, ready, feed, begin, command_list_lem,
  add_to_list-stale,
}

abbrev same : List ℕ → List ℕ
same l = l

abbrev all_ok : List (List ℕ) → CommandReturn
all_ok ls = ok

abbrev never : List (List ℕ) → Bool
never ls = false

-- Twelve bytes, if there is room: a line and the start of another.
abbrev arriving : ℕ → IoStatus
arriving n = if leb 12 n then normal (codes "status\nstats") else again

all_ok-Passes : Passes all_ok never
all_ok-Passes = record { goes_on = λ ls. refl; awake = λ ls. refl }

-- "no" has been received.
abbrev client : Client
client = record {
  input = record (fifo_new (λ i. if i == 0 then b'n' else b'o') 16) { end = 2 };
  lines = [];
}

client-IsFramed : IsFramed same all_ok-Passes (codes "no") client
unfolding fifo_new split
client-IsFramed = record { valid = omega arith; processed = refl; held = refl }

client_read_example :
    let s = taken same all_ok-Passes (fifo_write client.input).0 arriving in
    StaysFramed same all_ok-Passes
      (codes "no" ++ delivered same all_ok-Passes s)
      client
      (told same all_ok-Passes s)
      (client_read same all_ok never client arriving)
client_read_example =
    client_read-IsFramed same all_ok-Passes (codes "no") arriving client-IsFramed (λ n bytes e.
      elim (Bool-cases (leb 12 n)) [
        | inl room ↦ ground (arith, room, e)
        | inr short ↦ absurd (ground (arith, short, e))
      ])

-- A counter of calls as the state; every command succeeds.
abbrev env : Environment ℕ
env = record {
  command_process = λ num line w. (ok, w + 1);
  is_expired = λ w. false;
  put_list_ok = λ w. w + 100;
  command_success = λ w. w + 1000;
  write_output = λ w. w;
}

play-IsListed : IsListed (codes "play")
unfolding is_text strcmp
play-IsListed = record { command = refl; other = refl }

abbrev two_plays : List (List ℕ)
two_plays = codes "play" ∷ codes "play" ∷ []

command_list_example :
    let c = feed env 50 (ready env 50 3 0) (begin env 50 true ∷ two_plays) in
    (r : CommandReturn × ℕ) × Runs env true 0 two_plays 0 r
    × (client_process_line env 50 c client_list_mode_end
        ≡ run_ended env 50 true two_plays (3 + total_size two_plays) r)
command_list_example =
    command_list_lem env 50 true two_plays 3 0 (play-IsListed, (play-IsListed, tt)) (omega arith)

add_to_list_example :
    let former = begin env 12 false ∷ two_plays ++ client_list_mode_end ∷ begin env 12 false ∷ [] in
    (client_process_line env 12 (feed env 12 (ready env 12 0 0) former) (codes "play")).0 ≡ close
add_to_list_example =
    add_to_list-stale env 12 false false two_plays (codes "play") 0 (ok, 2)
      (play-IsListed, (play-IsListed, tt)) (omega arith)
      (goes_on 0 (codes "play") (codes "play" ∷ []) 0 1 (ok, 2) refl refl
        (goes_on 1 (codes "play") [] 1 2 (ok, 2) refl refl (all_run 2 2)))
      refl play-IsListed (omega arith) (omega arith)
