-- ===== src/Tokenizer/Quote.antt =====
-- Parameters written in quotes are read back.
use mpd_legacy.Common.{
  ℕ, ◌<◌, ◌≡◌, refl, ap, ◌∙◌, some, Bool, true, false, ◌||◌, List, [], ◌∷◌, ◌++◌, arith, All, ◌==◌,
  if◌then◌else◌, length, Bool-cases, inl, inr, length-append,
}
use mpd_legacy.Tokenizer.{
  word, quote, backslash, closed, copy, unquote, strchug_fast, scan, next_param, after_quote,
}

-- A text with a backslash before each quote and each backslash.
abbrev pub escape : List ℕ → List ℕ
escape [] = []
escape (c ∷ s) = if c == quote || c == backslash then backslash ∷ c ∷ escape s else c ∷ escape s

-- As a client writes a parameter before the rest of the line.
abbrev pub quoted : List ℕ → List ℕ → List ℕ
quoted s rest = quote ∷ escape s ++ quote ∷ rest

-- The parameters of a command, each after a space.
abbrev pub parameters : List (List ℕ) → List ℕ
parameters [] = []
parameters (a ∷ args) = b' ' ∷ quoted a (parameters args)

-- The same, behind the first space.
abbrev pub start : List (List ℕ) → List ℕ
start [] = []
start (a ∷ args) = quoted a (parameters args)

unquote_plain :
    (last c : ℕ) (s : List ℕ)
    → (c == quote || c == backslash) ≡ false
    → 0 < length s
    → unquote last (c ∷ s) ≡ copy c (unquote c s)
unfolding unquote
unquote_plain last c [] e h = absurd (omega arith)
unquote_plain last c (d ∷ s) e h = ground (arith, e)

unquote-escape :
    (s rest : List ℕ) (last : ℕ) → unquote last (escape s ++ quote ∷ rest) ≡ closed s rest
unfolding unquote
unquote-escape [] [] last = refl
unquote-escape [] (d ∷ rest) last = refl
unquote-escape (c ∷ s) rest last = elim (Bool-cases (c == quote || c == backslash)) [
  | inl special ↦ rw special (ap (copy c) (unquote-escape s rest c))
  | inr plain ↦ rw plain (
      unquote_plain last c (escape s ++ quote ∷ rest) plain
        (omega (arith, length-append (escape s) (quote ∷ rest)))
      ∙ ap (copy c) (unquote-escape s rest c))
]

-- What is used of `g_ascii_isspace`.
pub record IsAscii (g_ascii_isspace : ℕ → Bool) : Type 0 where
  pub space : g_ascii_isspace b' ' ≡ true
  pub mark : g_ascii_isspace quote ≡ false

module _ (g_ascii_isspace g_ascii_isalpha g_ascii_isalnum : ℕ → Bool)
    (ascii : IsAscii g_ascii_isspace) where
  strchug_fast-parameters :
      (args : List (List ℕ))
      → strchug_fast g_ascii_isspace g_ascii_isalpha g_ascii_isalnum (parameters args) ≡ start args
  unfolding strchug_fast
  strchug_fast-parameters [] = refl
  strchug_fast-parameters (a ∷ args) = rw (ascii.space, ascii.mark)

  after_quote-parameters :
      (a : List ℕ) (args : List (List ℕ))
      → after_quote g_ascii_isspace g_ascii_isalpha g_ascii_isalnum (closed a (parameters args))
        ≡ (word a, start args)
  unfolding after_quote
  after_quote-parameters a [] = refl
  after_quote-parameters a (b ∷ args) = rw (ascii.space, ascii.mark)

  -- A parameter in quotes is read as the text that was put there, whatever bytes it has, and the input
  -- is then at the next parameter.
  pub next_param-quoted :
      (a : List ℕ) (args : List (List ℕ))
      → next_param g_ascii_isspace g_ascii_isalpha g_ascii_isalnum (quoted a (parameters args))
        ≡ (word a, start args)
  unfolding next_param
  next_param-quoted a args =
      rw (unquote-escape a (parameters args) quote) (after_quote-parameters a args)

  pub scan-parameters :
      (valid : ℕ → Bool) (s : List ℕ) (args : List (List ℕ))
      → All (λ c. (valid c ≡ true) × (g_ascii_isspace c ≡ false)) s
      → scan g_ascii_isspace g_ascii_isalpha g_ascii_isalnum valid (s ++ parameters args)
        ≡ (some s, start args)
  unfolding scan
  scan-parameters valid [] [] h = refl
  scan-parameters valid [] (a ∷ args) h = rw (ascii.space, ascii.mark)
  scan-parameters valid (c ∷ s) args h = rw (h.0.0, h.0.1, scan-parameters valid s args h.1)
