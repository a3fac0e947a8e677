-- ===== src/Client/Process.antt =====
-- src/client_process.c: lines of a client outside and inside command lists, and while it is idle.
-- `command_process`, the time, and the output of the client are an argument, with a state of any type.
use mathlib.Core.List.{reverse}
use mpd_legacy.Common.{
  ℕ, ◌+◌, Option, none, some, Bool, true, false, ◌||◌, not, List, [], ◌∷◌, ltb, if◌then◌else◌,
  length,
}
use mpd_legacy.Command.{CommandReturn, ok, close, codes, is_text}

pub record Environment {ℓ} (W : Type ℓ) : Type ℓ where
  pub command_process : ℕ → List ℕ → W → CommandReturn × W
  pub is_expired : W → Bool
  pub put_list_ok : W → W
  pub command_success : W → W
  pub write_output : W → W

-- `cmd_list_ok` is `none` for -1. The commands of a list are prepended.
pub record Session {ℓ} (W : Type ℓ) : Type ℓ where
  pub idle_waiting : Bool
  pub cmd_list_ok : Option Bool
  pub cmd_list : List (List ℕ)
  pub cmd_list_size : ℕ
  pub world : W

abbrev pub is_ok : CommandReturn → Bool
is_ok CommandReturn.ok = true
is_ok _ = false

abbrev pub is_close : CommandReturn → Bool
is_close CommandReturn.close = true
is_close _ = false

abbrev pub noidle : List ℕ
noidle = codes "noidle"

abbrev pub client_list_mode_begin : List ℕ
client_list_mode_begin = codes "command_list_begin"

abbrev pub client_list_ok_mode_begin : List ℕ
client_list_ok_mode_begin = codes "command_list_ok_begin"

abbrev pub client_list_mode_end : List ℕ
client_list_mode_end = codes "command_list_end"

module _ {ℓ} {W : Type ℓ} (env : Environment W) (client_max_command_list_size : ℕ) where
  -- The loop of `client_process_command_list`, from a command and its number on.
  unfoldable pub process_command_list : Bool → ℕ → List (List ℕ) → W → CommandReturn × W
  process_command_list list_ok num [] w = (ok, w)
  process_command_list list_ok num (cmd ∷ cmds) w =
      let (ret, w') = env.command_process num cmd w in
      let rest =
        process_command_list list_ok (num + 1) cmds (if list_ok then env.put_list_ok w' else w') in
      if not (is_ok ret) || env.is_expired w' then (ret, w') else rest

  -- What follows a command or a list of them, unless the client is closed then.
  unfoldable pub answer : CommandReturn × W → W
  answer (ret, w) = env.write_output (if is_ok ret then env.command_success w else w)

  unfoldable pub end_list : Session W → Bool → CommandReturn × Session W
  unfolding process_command_list answer
  end_list c list_ok =
      let list = reverse c.cmd_list in
      let (ret, w) = process_command_list list_ok 0 list c.world in
      if is_close ret || env.is_expired w
      then (close, record c { cmd_list = list; world = w })
      else (ret, record c { cmd_list = []; cmd_list_ok = none; world = answer (ret, w) })

  unfoldable pub add_to_list : Session W → List ℕ → CommandReturn × Session W
  add_to_list c line =
      let size = c.cmd_list_size + (length line + 1) in
      let c' = record c { cmd_list_size = size } in
      if ltb client_max_command_list_size size
      then (close, c')
      else (ok, record c' { cmd_list = line ∷ c.cmd_list })

  unfoldable pub single_command : Session W → List ℕ → CommandReturn × Session W
  unfolding answer
  single_command c line =
      let (ret, w) = env.command_process 0 line c.world in
      if is_close ret || env.is_expired w
      then (close, record c { world = w })
      else (ret, record c { world = answer (ret, w) })

  unfoldable pub client_process_line : Session W → List ℕ → CommandReturn × Session W
  unfolding is_text end_list add_to_list single_command
  client_process_line c line =
      let awake = record c {
        idle_waiting = false;
        world = env.write_output (env.command_success c.world);
      } in
      if is_text line noidle
      then (ok, if c.idle_waiting then awake else c)
      else if c.idle_waiting
      then (close, c)
      else elim c.cmd_list_ok [
        | some list_ok ↦
            if is_text line client_list_mode_end then end_list c list_ok else add_to_list c line
        | none ↦
            if is_text line client_list_mode_begin
            then (ok, record c { cmd_list_ok = some false })
            else if is_text line client_list_ok_mode_begin
            then (ok, record c { cmd_list_ok = some true })
            else single_command c line
      ]
