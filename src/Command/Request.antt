-- ===== src/Command/Request.antt =====
-- Which requests are allowed, and how a line reaches its handler or is refused.
use Prim.Native.Nat.{bit_and}
use mpd_legacy.Common.{
  ℕ, zero, suc, ◌-◌, ◌≤◌, ◌<◌, ◌≡◌, ◌↔◌, refl, ap, ◌∙◌, Option, none, some, Bool, true, false, ◌&&◌,
  not, List, [], ◌∷◌, ◌++◌, arith, ltb, ◌==◌, if◌then◌else◌, length, All,
}
use mpd_legacy.Tokenizer.{
  word, null, quote, unclosed, unquote, after_quote, next_word, next_param, next_string,
  next_unquoted, scan, valid_word_first_char, valid_word_char, strchug_fast,
}
use mpd_legacy.Tokenizer.Quote.{IsAscii, parameters, start, next_param-quoted, scan-parameters}
use mpd_legacy.Command.{
  Command, CommandReturn, ok, command_check_request, command_process, read_params, invoke,
  process_word, process_params, entry_at, name_at, plus_one, command_argv_max, print_error,
}
use mpd_legacy.Command.Lookup.{Ascends, command_lookup_lem}

-- The number of arguments is within the bounds of a command; `none` is no bound.
abbrev pub Within : Option ℕ → Option ℕ → ℕ → Type 0
Within none max n = Unit
Within (some m) none n = m ≤ n
Within (some m) (some k) n = (m ≤ n) × (n ≤ k)

within_lem :
    (min max : Option ℕ) (n : ℕ)
    → let low = plus_one min in
      let high = plus_one max in
      ((if low == 0
          then true
          else if low == high && not (high == suc n)
          then false
          else if ltb (suc n) low
          then false
          else if ltb high (suc n) && not (high == 0)
          then false
          else true)
        ≡ true)
      ↔ Within min max n
within_lem none max n = (λ _. tt, λ _. refl)
within_lem (some m) none n = (λ e. ground (arith, e), λ h. ground (arith, h))
within_lem (some m) (some k) n = (λ e. ground (arith, e), λ h. ground (arith, h))

-- A request is allowed if the client has all permissions of the command and the number of arguments
-- is within its bounds, and otherwise it is refused.
pub command_check_request_lem :
    (cmd : Command) (permission n : ℕ)
    → (command_check_request cmd permission (suc n) ≡ none)
      ↔ ((cmd.permission ≡ bit_and permission cmd.permission) × Within cmd.min cmd.max n)
unfolding command_check_request
command_check_request_lem cmd permission n = (
  λ e. (ground (arith, e), (within_lem cmd.min cmd.max n).0 (ground (arith, e))),
  λ h. let w = (within_lem cmd.min cmd.max n).1 h.1 in ground (arith, w, h.0),
)

module _ (isspace isalpha isalnum : ℕ → Bool) (ascii : IsAscii isspace) where
  read_params-start :
      (room : ℕ) (args : List (List ℕ))
      → length args ≤ room
      → read_params isspace isalpha isalnum room (start args) ≡ (args, null, [])
  unfolding read_params
  read_params-start zero [] h = refl
  read_params-start zero (a ∷ args) h = absurd (omega arith)
  read_params-start (suc room) [] h = unfold next_param next_unquoted in refl
  read_params-start (suc room) (a ∷ args) h = rw (
    next_param-quoted isspace isalpha isalnum ascii a args,
    read_params-start room args (omega arith),
  )

  -- A word that can be the name of a command.
  pub record IsName (name : List ℕ) : Type 0 where
    pub first : ℕ
    pub others : List ℕ
    pub parts : name ≡ first ∷ others
    pub letter : isalpha first ≡ true
    pub letters :
        All (λ c. (valid_word_char isspace isalpha isalnum c ≡ true) × (isspace c ≡ false)) others

  next_word-parameters :
      {name : List ℕ} (args : List (List ℕ))
      → IsName name
      → next_word isspace isalpha isalnum (name ++ parameters args) ≡ (word name, start args)
  unfolding next_word valid_word_first_char
  next_word-parameters args n = rw (
    n.parts,
    n.letter,
    scan-parameters isspace isalpha isalnum ascii (valid_word_char isspace isalpha isalnum) n.others
        args n.letters,
  )

  read_params-unclosed :
      (room : ℕ) (s : List ℕ) {rest : List ℕ} {c : ℕ}
      → unquote quote s ≡ unclosed (c ∷ rest)
      → read_params isspace isalpha isalnum (suc room) (quote ∷ s) ≡ ([], null, c ∷ rest)
  unfolding read_params next_param next_string after_quote
  read_params-unclosed room s e = rw e

  scan-quote :
      (valid : ℕ → Bool) (name s : List ℕ)
      → All (λ c. (valid c ≡ true) × (isspace c ≡ false)) name
      → scan isspace isalpha isalnum valid (name ++ b' ' ∷ quote ∷ s) ≡ (some name, quote ∷ s)
  unfolding scan strchug_fast
  scan-quote valid [] s h = rw (ascii.space, ascii.mark)
  scan-quote valid (c ∷ name) s h = rw (h.0.0, h.0.1, scan-quote valid name s h.1)

  next_word-quote :
      {name : List ℕ} (s : List ℕ)
      → IsName name
      → next_word isspace isalpha isalnum (name ++ b' ' ∷ quote ∷ s) ≡ (word name, quote ∷ s)
  unfolding next_word valid_word_first_char
  next_word-quote s n =
      rw (
        n.parts,
        n.letter,
        scan-quote (valid_word_char isspace isalpha isalnum) n.others s n.letters,
      )

  module _ {ℓ} {W : Type ℓ} (table : List Command)
      (handler : ℕ → List (List ℕ) → W → CommandReturn × W) where
    process_words :
        {name : List ℕ} (permission : ℕ) (args : List (List ℕ)) (w : W)
        → IsName name
        → length args < command_argv_max - 1
        → command_process isspace isalpha isalnum table handler permission
            (name ++ parameters args)
            w
          ≡ invoke isspace isalpha isalnum table handler permission name args w
    unfolding command_process process_word process_params
    process_words {name} permission args w n h =
        ap (process_word isspace isalpha isalnum table handler permission w)
          (next_word-parameters args n)
        ∙ ap (process_params isspace isalpha isalnum table handler permission name w)
            (read_params-start (command_argv_max - 1) args (omega arith))
        ∙ ground arith

    -- A line with the name of a command, in a table that ascends, whose permission the client has, and with
    -- parameters in quotes, as many as the command takes and fewer than command_argv_max - 1, calls the
    -- handler with the name and the parameters as they were before they were quoted, and nothing else is
    -- said.
    pub command_process-calls :
        {name : List ℕ} (permission : ℕ) (args : List (List ℕ)) (w : W) (i : ℕ) (cmd : Command)
        → IsName name
        → length args < command_argv_max - 1
        → Ascends (name_at table) (length table)
        → i < length table
        → name_at table i ≡ name
        → entry_at table i ≡ some cmd
        → (cmd.permission ≡ bit_and permission cmd.permission)
          × Within cmd.min cmd.max (length args)
        → let (ret, w') = handler i (name ∷ args) w in
          command_process isspace isalpha isalnum table handler permission
            (name ++ parameters args)
            w
          ≡ (ret, none, w')
    unfolding invoke
    command_process-calls {name} permission args w i cmd n h up lt e at allowed =
        let found = (command_lookup_lem table name i up (omega arith)).1 (lt, e) in
        let fine = (command_check_request_lem cmd permission (length args)).1 allowed in
        process_words permission args w n h ∙ rw (found, at, fine, invoke) refl

    -- A line that begins with no letter is answered as if it had succeeded: the result is OK, no error
    -- is told, and no handler is called.
    pub command_process-no_letter :
        (permission : ℕ) (w : W) (c : ℕ) (s : List ℕ)
        → isalpha c ≡ false
        → command_process isspace isalpha isalnum table handler permission (c ∷ s) w ≡ (ok, none, w)
    unfolding command_process process_word next_word valid_word_first_char print_error
    command_process-no_letter permission w c s e = rw e

    -- A command whose first parameter has no closing quote is answered as if it had succeeded: the
    -- result is OK, no error is told, and no handler is called.
    pub command_process-unclosed :
        {name : List ℕ} (permission : ℕ) (w : W) (s rest : List ℕ) (c : ℕ)
        → IsName name
        → unquote quote s ≡ unclosed (c ∷ rest)
        → command_process isspace isalpha isalnum table handler permission
            (name ++ b' ' ∷ quote ∷ s)
            w
          ≡ (ok, none, w)
    unfolding command_process process_word process_params print_error
    command_process-unclosed {name} permission w s rest c n e =
        ap (process_word isspace isalpha isalnum table handler permission w) (next_word-quote s n)
        ∙ ap (process_params isspace isalpha isalnum table handler permission name w)
            (read_params-unclosed 36 s e)
