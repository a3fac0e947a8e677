-- ===== src/Client/Read.antt =====
-- src/client_read.c: bytes arrive from a socket in pieces, and the lines in them are processed one by
-- one. `client_process_line` and `client_is_expired` are arguments; they may depend on the lines
-- processed so far. GLib's `g_io_channel_read_chars` is one, too, as what it
-- returns for a length, and so is `g_strchomp`.
use mpd_legacy.Common.{
  ℕ, zero, suc, ◌+◌, ◌-◌, Option, none, some, Bool, true, false, List, [], ◌∷◌, ◌++◌, ◌==◌,
  if◌then◌else◌, slice, length, store,
}
use mpd_legacy.Command.{CommandReturn, ok, close}
use mpd_legacy.Fifo.{FifoBuffer, read as fifo_read, write as fifo_write, consume, append}

pub data IoStatus : Type 0 where
  normal : List ℕ → IoStatus
  again eof io_error : IoStatus

-- `lines` is what has been processed, on which what a line does may depend.
pub record Client : Type 0 where
  pub input : FifoBuffer
  pub lines : List (List ℕ)

abbrev pub newline : ℕ
newline = b'\n'

-- C's `memchr`, by the offset of the first such byte.
unfoldable pub memchr : List ℕ → ℕ → Option ℕ
memchr [] c = none
memchr (x ∷ xs) c =
    if x == c then some 0 else elim (memchr xs c) [ none ↦ none | some k ↦ some (suc k) ]

-- C's `strndup` of that many bytes: the text ends at a zero byte.
unfoldable pub strndup : List ℕ → ℕ → List ℕ
strndup xs zero = []
strndup [] (suc n) = []
strndup (x ∷ xs) (suc n) = if x == 0 then [] else x ∷ strndup xs n

abbrev pub ends_client : CommandReturn → Bool
ends_client CommandReturn.kill = true
ends_client CommandReturn.close = true
ends_client _ = false

module _ (g_strchomp : List ℕ → List ℕ) where
  unfoldable pub read_line : FifoBuffer → Option (List ℕ) × FifoBuffer
  read_line b = elim (fifo_read b) [
    | none ↦ (none, b)
    | some (p, length) ↦
        let bytes = slice b.buffer p length in
        elim (memchr bytes newline) [
          | none ↦ (none, b)
          | some k ↦ (some (g_strchomp (strndup bytes k)), consume b (k + 1))
        ]
  ]

module _ (g_strchomp : List ℕ → List ℕ) (process_line : List (List ℕ) → CommandReturn)
    (is_expired : List (List ℕ) → Bool) where
  -- A round of the loop over the lines, with what `client_read_line` returned.
  unfoldable pub after_line :
      (Client → Option (CommandReturn × Client))
      → Client
      → Option (List ℕ) × FifoBuffer
      → Option (CommandReturn × Client)
  after_line next c (none, b) = some (ok, record c { input = b })
  after_line next c (some text, b) =
      let lines = c.lines ++ text ∷ [] in
      let c' = record c { input = b; lines = lines } in
      let ret = process_line lines in
      if ends_client ret
      then some (ret, c')
      else if is_expired lines
      then some (close, c')
      else next c'

  -- The loop; `none` when the fuel runs out.
  unfoldable pub process_lines : ℕ → Client → Option (CommandReturn × Client)
  unfolding after_line
  process_lines zero c = none
  process_lines (suc fuel) c = after_line (process_lines fuel) c (read_line g_strchomp c.input)

  -- `bytes` have been put behind the end of the input.
  unfoldable pub input_received : Client → List ℕ → Option (CommandReturn × Client)
  input_received c bytes =
      let b = append c.input (length bytes) in
      process_lines (suc (b.end - b.start)) (record c { input = b })

  -- What has been read to an offset.
  unfoldable pub after_chars : Client → ℕ → IoStatus → Option (CommandReturn × Client)
  unfolding input_received
  after_chars c p (normal bytes) =
      let b = record (c.input) { buffer = store c.input.buffer p bytes } in
      input_received (record c { input = b }) bytes
  after_chars c p again = some (ok, c)
  after_chars c p eof = some (close, c)
  after_chars c p io_error = some (close, c)

  unfoldable pub client_read : Client → (ℕ → IoStatus) → Option (CommandReturn × Client)
  unfolding after_chars
  client_read c read_chars =
      let (r, b) = fifo_write c.input in
      let c' = record c { input = b } in
      elim r [
        | none ↦ some (close, c')
        | some (p, max_length) ↦ after_chars c' p (read_chars max_length)
      ]
