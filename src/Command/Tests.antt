-- ===== src/Command/Tests.antt =====
-- The theorems about commands at lines of the protocol.
use Prim.Native.Nat.{bit_and}
use mpd_legacy.Common.{
  ℕ, ◌+◌, ◌<◌, ◌≡◌, ◌↔◌, refl, none, some, Bool, ◌&&◌, ◌||◌, List, [], ◌∷◌, ◌++◌, arith, leb, ◌==◌,
  length,
}
use mpd_legacy.Tokenizer.{word, next_param, quote, unquote, valid_word_char}
use mpd_legacy.Tokenizer.Quote.{IsAscii, quoted, parameters, start, next_param-quoted}
use mpd_legacy.Command.{CommandReturn, ok, codes, command_lookup, command_process, name_at}
use mpd_legacy.Command.Table.{commands, permission_control}
use mpd_legacy.Command.Lookup.{commands-Ascends, command_lookup_lem}
use mpd_legacy.Command.Request.{IsName, Within, command_process-calls, command_process-unclosed}

abbrev pub isspace : ℕ → Bool
isspace c = c == b' ' || (c == b'\t' || c == b'\n')

abbrev pub isalpha : ℕ → Bool
isalpha c = (leb b'a' c && leb c b'z') || (leb b'A' c && leb c b'Z')

abbrev pub isalnum : ℕ → Bool
isalnum c = isalpha c || (leb b'0' c && leb c b'9')

pub isspace-IsAscii : IsAscii isspace
isspace-IsAscii = record { space = refl; mark = refl }

next_param_example :
    next_param isspace isalpha isalnum (quoted (codes "a \"b\" \\c") (parameters (codes "d" ∷ [])))
    ≡ (word (codes "a \"b\" \\c"), start (codes "d" ∷ []))
next_param_example =
    next_param-quoted isspace isalpha isalnum isspace-IsAscii (codes "a \"b\" \\c") (codes "d" ∷ [])

-- "delete" is the command at 13.
command_lookup_example :
    (command_lookup commands (codes "delete") ≡ some 13)
    ↔ ((13 < length commands) × (name_at commands 13 ≡ codes "delete"))
unfolding commands
command_lookup_example =
    command_lookup_lem commands (codes "delete") 13 commands-Ascends (omega arith)

abbrev handler : ℕ → List (List ℕ) → ℕ → CommandReturn × ℕ
handler i argv w = (ok, w + i)

delete-IsName : IsName isspace isalpha isalnum isspace-IsAscii (codes "delete")
unfolding valid_word_char
delete-IsName = record {
  first = b'd';
  others = codes "elete";
  parts = refl;
  letter = refl;
  letters = ((refl, refl), ((refl, refl), ((refl, refl), ((refl, refl), ((refl, refl), tt)))));
}

delete_allowed : (permission_control ≡ bit_and 15 permission_control) × Within (some 1) (some 1) 1
delete_allowed = (refl, omega arith)

-- `delete "1"` by a client with all permissions.
command_process_example :
    let (ret, w') = handler 13 (codes "delete" ∷ codes "1" ∷ []) 40 in
    command_process isspace isalpha isalnum commands handler 15
      (codes "delete" ++ parameters (codes "1" ∷ []))
      40
    ≡ (ret, none, w')
unfolding commands
command_process_example =
    command_process-calls isspace isalpha isalnum isspace-IsAscii commands handler 15
      (codes "1" ∷ []) 40 13
      (record { cmd = codes "delete"; permission = permission_control; min = some 1; max = some 1 })
      delete-IsName (omega arith) commands-Ascends (omega arith) refl refl delete_allowed

-- `delete "1`
unclosed_example :
    command_process isspace isalpha isalnum commands handler 15
      (codes "delete" ++ b' ' ∷ quote ∷ codes "1")
      40
    ≡ (ok, none, 40)
unfolding unquote
unclosed_example =
    command_process-unclosed isspace isalpha isalnum isspace-IsAscii commands handler 15 40
      (codes "1") [] b'1' delete-IsName refl
