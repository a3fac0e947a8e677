-- ===== src/Tokenizer.antt =====
-- src/tokenizer.c and `strchug_fast` of src/string_util.c: the words of a line of the protocol.
-- A text is the list of its bytes before the zero byte; `*input_p` is what is left of the line. The
-- words are built in place there; here they are lists of their own. GLib's character classes are
-- parameters.
use mpd_legacy.Common.{
  ℕ, ◌≤◌, ◌<◌, Option, none, some, Bool, true, false, ◌&&◌, ◌||◌, not, List, [], ◌∷◌, ltb, ◌==◌,
  if◌then◌else◌,
}
pub mod Quote

-- A word, the null pointer, or `ERR_PTR(-CMD_QUOTE)`.
pub data Token : Type 0 where
  word : List ℕ → Token
  null cmd_quote : Token

abbrev pub quote : ℕ
quote = b'"'

abbrev pub backslash : ℕ
backslash = b'\\'

-- A text in quotes without its escapes and what follows the closing quote, or what `*input_p` is set
-- to when there is no such quote.
pub data Unquoted : Type 0 where
  closed : List ℕ → List ℕ → Unquoted
  unclosed : List ℕ → Unquoted

abbrev pub copy : ℕ → Unquoted → Unquoted
copy c (closed text rest) = closed (c ∷ text) rest
copy c (unclosed rest) = unclosed rest

-- The loop of `tokenizer_next_string`; `last` is the byte before the input.
unfoldable pub unquote : ℕ → List ℕ → Unquoted
unquote last [] = unclosed (last ∷ [])
unquote last (c ∷ []) = if c == quote then closed [] [] else unclosed (c ∷ [])
unquote last (c ∷ d ∷ s) =
    let escaped = copy d (unquote d s) in
    let plain = copy c (unquote c (d ∷ s)) in
    if c == quote then closed [] (d ∷ s) else if c == backslash then escaped else plain

module _ (g_ascii_isspace g_ascii_isalpha g_ascii_isalnum : ℕ → Bool) where
  unfoldable pub strchug_fast : List ℕ → List ℕ
  strchug_fast [] = []
  strchug_fast (c ∷ s) = if g_ascii_isspace c then strchug_fast s else c ∷ s

  unfoldable pub valid_word_first_char : ℕ → Bool
  valid_word_first_char ch = g_ascii_isalpha ch

  unfoldable pub valid_word_char : ℕ → Bool
  valid_word_char ch = g_ascii_isalnum ch || ch == b'_'

  unfoldable pub valid_unquoted_char : ℕ → Bool
  valid_unquoted_char ch = ltb 0x20 ch && not (ch == quote) && not (ch == b'\'')

  -- The loop over the other characters: the rest of the word, or `none` at an invalid one, and where
  -- the input is then.
  unfoldable pub scan : (ℕ → Bool) → List ℕ → Option (List ℕ) × List ℕ
  unfolding strchug_fast
  scan valid [] = (some [], [])
  scan valid (c ∷ s) =
      let (w, rest) = scan valid s in
      let longer : Option (List ℕ) × List ℕ =
        (elim w [ none ↦ none | some text ↦ some (c ∷ text) ], rest) in
      if g_ascii_isspace c
      then (some [], strchug_fast s)
      else if valid c
      then longer
      else (none, c ∷ s)

  unfoldable pub next_word : List ℕ → Token × List ℕ
  unfolding scan valid_word_first_char valid_word_char
  next_word [] = (null, [])
  next_word (c ∷ s) =
      let (w, rest) = scan valid_word_char s in
      if not (valid_word_first_char c)
      then (null, c ∷ s)
      else (elim w [ none ↦ null | some text ↦ word (c ∷ text) ], rest)

  unfoldable pub next_unquoted : List ℕ → Token × List ℕ
  unfolding scan valid_unquoted_char
  next_unquoted [] = (null, [])
  next_unquoted (c ∷ s) =
      let (w, rest) = scan valid_unquoted_char s in
      if not (valid_unquoted_char c)
      then (cmd_quote, c ∷ s)
      else (elim w [ none ↦ cmd_quote | some text ↦ word (c ∷ text) ], rest)

  -- What must follow the closing quote.
  unfoldable pub after_quote : Unquoted → Token × List ℕ
  unfolding strchug_fast
  after_quote (unclosed rest) = (null, rest)
  after_quote (closed text []) = (word text, [])
  after_quote (closed text (c ∷ s)) =
      if g_ascii_isspace c then (word text, strchug_fast (c ∷ s)) else (null, c ∷ s)

  unfoldable pub next_string : List ℕ → Token × List ℕ
  unfolding after_quote unquote
  next_string [] = (null, [])
  next_string (c ∷ s) = if c == quote then after_quote (unquote c s) else (null, c ∷ s)

  unfoldable pub next_param : List ℕ → Token × List ℕ
  unfolding next_string next_unquoted
  next_param [] = next_unquoted []
  next_param (c ∷ s) = if c == quote then next_string (c ∷ s) else next_unquoted (c ∷ s)
