-- ===== src/Command.antt =====
-- src/command.c: how a line of the protocol becomes the call of a command handler. The handlers are
-- an argument: the handler of the command with an index in the table gets the words of the line and
-- changes a state of any type, where the client's output is, too. GLib's character classes are
-- parameters, as in Tokenizer. `ENABLE_STICKER` is on.
use Prim.Native.Nat.{compare, Ordering, bit_and}
use Prim.Native.Char.{code}
use Prim.Native.String.{String}
use mpd_legacy.Common.{
  ℕ, zero, suc, ◌+◌, ◌-◌, ◌*◌, ◌/◌, Option, none, some, Bool, true, false, ◌&&◌, ◌||◌, not, List,
  [], ◌∷◌, ltb, leb, ◌==◌, if◌then◌else◌, length,
}
use mpd_legacy.Tokenizer.{Token, word, null, cmd_quote, next_word, next_param}
pub mod Table
pub mod Lookup
pub mod Request
pub mod Tests

-- `min` and `max` are `none` for -1.
pub record Command : Type 0 where
  pub cmd : List ℕ
  pub permission : ℕ
  pub min : Option ℕ
  pub max : Option ℕ

-- What `command_error` is told.
pub data Ack : Type 0 where
  no_command_given too_many_arguments_on_line invalid_unquoted_character unknown_command : Ack
  no_permission wrong_number_of_arguments too_few_arguments too_many_arguments : Ack

pub data CommandReturn : Type 0 where
  error ok kill close : CommandReturn

abbrev pub codes : String → List ℕ
codes String.[] = []
codes (String.◌∷◌ c s) = code c ∷ codes s

-- C's `strcmp`
unfoldable pub strcmp : List ℕ → List ℕ → Ordering
strcmp [] [] = Ordering.eq
strcmp [] (y ∷ ys) = Ordering.lt
strcmp (x ∷ xs) [] = Ordering.gt
strcmp (x ∷ xs) (y ∷ ys) = elim (compare x y) [
  | Ordering.eq ↦ strcmp xs ys
  | Ordering.lt ↦ Ordering.lt
  | Ordering.gt ↦ Ordering.gt
]

-- `strcmp(a, b) == 0`
unfoldable pub is_text : List ℕ → List ℕ → Bool
unfolding strcmp
is_text a b = elim (strcmp a b) [ Ordering.eq ↦ true | _ ↦ false ]

-- The entries of a table from an index on, and what lies behind it.
abbrev pub entry_at : List Command → ℕ → Option Command
entry_at [] i = none
entry_at (c ∷ cs) zero = some c
entry_at (c ∷ cs) (suc i) = entry_at cs i

abbrev pub name_at : List Command → ℕ → List ℕ
name_at [] i = []
name_at (c ∷ cs) zero = c.cmd
name_at (c ∷ cs) (suc i) = name_at cs i

-- The binary search of `command_lookup` between two indices, by the index of the command found. The
-- test comes behind the body.
unfoldable pub search_command : (ℕ → List ℕ) → List ℕ → ℕ → ℕ → ℕ → Option ℕ
unfolding strcmp
search_command names name zero a b = none
search_command names name (suc fuel) a b =
    let i = (a + b) / 2 in
    let below = search_command names name fuel a i in
    let above = search_command names name fuel (i + 1) b in
    elim (strcmp name (names i)) [
      | Ordering.eq ↦ some i
      | Ordering.lt ↦ if ltb a i then below else none
      | Ordering.gt ↦ if ltb (i + 1) b then above else none
    ]

unfoldable pub command_lookup : List Command → List ℕ → Option ℕ
unfolding search_command
command_lookup table name = search_command (name_at table) name (length table) 0 (length table)

abbrev pub plus_one : Option ℕ → ℕ
plus_one none = 0
plus_one (some n) = n + 1

-- `none` where the request is allowed.
unfoldable pub command_check_request : Command → ℕ → ℕ → Option Ack
command_check_request cmd permission argc =
    let min = plus_one cmd.min in
    let max = plus_one cmd.max in
    if not (cmd.permission == bit_and permission cmd.permission)
    then some no_permission
    else if min == 0
    then none
    else if min == max && not (max == argc)
    then some wrong_number_of_arguments
    else if ltb argc min
    then some too_few_arguments
    else if ltb max argc && not (max == 0)
    then some too_many_arguments
    else none

-- `print_error2` with `PTR_ERR` of what is no word; for the null pointer that is no error.
unfoldable pub print_error : Token → CommandReturn × Option Ack
print_error (word text) = (ok, none)
print_error null = (ok, none)
print_error cmd_quote = (error, some invalid_unquoted_character)

-- `2 + TAG_NUM_OF_ITEM_TYPES * 2`
abbrev pub command_argv_max : ℕ
command_argv_max = 2 + 18 * 2

module _ (g_ascii_isspace g_ascii_isalpha g_ascii_isalnum : ℕ → Bool) where
  -- A round of the loop over the parameters.
  abbrev pub add_param :
      (List ℕ → List (List ℕ) × Token × List ℕ) → Token × List ℕ → List (List ℕ) × Token × List ℕ
  add_param next (word text, rest) = let (argv, t, rest') = next rest in (text ∷ argv, t, rest')
  add_param next (null, rest) = ([], null, rest)
  add_param next (cmd_quote, rest) = ([], cmd_quote, rest)

  -- The parameters, at most `room`, what ended them, and the rest of the line.
  unfoldable pub read_params : ℕ → List ℕ → List (List ℕ) × Token × List ℕ
  unfolding next_param
  read_params zero line = ([], null, line)
  read_params (suc room) line =
      add_param (read_params room) (next_param g_ascii_isspace g_ascii_isalpha g_ascii_isalnum line)

  module _ {ℓ} {W : Type ℓ} (table : List Command)
      (handler : ℕ → List (List ℕ) → W → CommandReturn × W) where
    -- `command_checked_lookup`, and the call of the handler.
    unfoldable pub invoke : ℕ → List ℕ → List (List ℕ) → W → CommandReturn × Option Ack × W
    unfolding command_lookup command_check_request
    invoke permission name params w =
        let allowed : ℕ → Option Ack = λ i. elim (entry_at table i) [
          | none ↦ none
          | some cmd ↦ command_check_request cmd permission (suc (length params))
        ] in
        elim (command_lookup table name) [
          | none ↦ (error, some unknown_command, w)
          | some i ↦ elim (allowed i) [
            | some ack ↦ (error, some ack, w)
            | none ↦ let (ret, w') = handler i (name ∷ params) w in (ret, none, w')
          ]
        ]

    abbrev pub wrong : W → Token → CommandReturn × Option Ack × W
    wrong w t = let (ret, ack) = print_error t in (ret, ack, w)

    -- What follows the loop over the parameters.
    unfoldable pub process_params :
        ℕ → List ℕ → W → List (List ℕ) × Token × List ℕ → CommandReturn × Option Ack × W
    process_params permission name w (params, t, []) =
        if leb command_argv_max (suc (length params))
        then (error, some too_many_arguments_on_line, w)
        else invoke permission name params w
    process_params permission name w (params, t, c ∷ s) =
        if leb command_argv_max (suc (length params))
        then (error, some too_many_arguments_on_line, w)
        else wrong w t

    -- What follows the first word.
    unfoldable pub process_word : ℕ → W → Token × List ℕ → CommandReturn × Option Ack × W
    unfolding process_params
    process_word permission w (word name, rest) =
        process_params permission name w (read_params (command_argv_max - 1) rest)
    process_word permission w (t, []) = (error, some no_command_given, w)
    process_word permission w (t, c ∷ s) = wrong w t

    -- The result, what `command_error` is told here, and the state.
    unfoldable pub command_process : ℕ → List ℕ → W → CommandReturn × Option Ack × W
    unfolding process_word
    command_process permission line w =
        process_word permission w (next_word g_ascii_isspace g_ascii_isalpha g_ascii_isalnum line)
