-- ===== src/Client/Lines.antt =====
-- The lines that a client has sent do not depend on the pieces in which they arrive.
use mpd_legacy.Common.{
  ℕ, zero, suc, ◌+◌, ◌-◌, ◌≤◌, ◌<◌, ◌≡◌, refl, sym, ap, ◌∙◌, ◌⊎◌, inl, inr, Option, none, some,
  Bool, false, List, [], ◌∷◌, ◌++◌, map, arith, ◌==◌, if_cases, slice, length, take, drop,
  Option-cases,
}
use mathlib.Core.Path.{subst}
use mathlib.Core.List.{append_assoc, append-nil, map-append}
use mpd_legacy.Fifo.{FifoBuffer, contents, read as fifo_read, write as fifo_write, consume, append}
use mpd_legacy.Fifo.Inv.{
  IsValid, write_lem, contents-append, contents-consume, length-contents, stored,
}
use mpd_legacy.Command.{CommandReturn, ok, close}
use mpd_legacy.Client.Read.{
  IoStatus, normal, again, eof, io_error, Client, newline, memchr, strndup, read_line,
  process_lines, after_line, input_received, client_read, after_chars, ends_client,
}
use mpd_legacy.Client.Split.{split, then_split, split-append, split-none, split-some, strndup-take}

module _ (g_strchomp : List ℕ → List ℕ) where
  -- The text of a line: up to a zero byte, with the white space at its end cut off.
  abbrev pub text : List ℕ → List ℕ
  text l = g_strchomp (strndup l (length l))

  -- What `client_read_line` does once it knows where the first newline is.
  abbrev after_search : FifoBuffer → List ℕ → Option ℕ → Option (List ℕ) × FifoBuffer
  after_search b bytes none = (none, b)
  after_search b bytes (some k) = (some (g_strchomp (strndup bytes k)), consume b (k + 1))

  after_search_lem :
      (b : FifoBuffer) (bytes : List ℕ) (r : Option ℕ)
      → elim r as (λ _. Option (List ℕ) × FifoBuffer) [
        | none ↦ (none, b)
        | some k ↦ (some (g_strchomp (strndup bytes k)), consume b (k + 1))
      ]
        ≡ after_search b bytes r
  after_search_lem b bytes none = refl
  after_search_lem b bytes (some k) = refl

  read_line_parts :
      (b : FifoBuffer) (r : Option ℕ)
      → memchr (contents b) newline ≡ r
      → read_line g_strchomp b ≡ after_search b (contents b) r
  unfolding read_line fifo_read memchr
  read_line_parts b r e =
      if_cases
        (λ (x : Option (ℕ × ℕ)).
          elim x as (λ _. Option (List ℕ) × FifoBuffer) [
            | none ↦ (none, b)
            | some (p, l) ↦
                let bytes = slice b.buffer p l in
                elim (memchr bytes newline) [
                  | none ↦ (none, b)
                  | some k ↦ (some (g_strchomp (strndup bytes k)), consume b (k + 1))
                ]
          ]
          ≡ after_search b (contents b) r)
        (b.start == b.end)
        (λ empty.
          let z : b.end - b.start ≡ 0 = ground (arith, empty) in
          ap (after_search b (contents b))
            (sym (ap (λ n. memchr (slice b.buffer b.start n) newline) z) ∙ e))
        (λ _.
          ap
            (λ (m : Option ℕ). elim m as (λ _. Option (List ℕ) × FifoBuffer) [
              | none ↦ (none, b)
              | some k ↦ (some (g_strchomp (strndup (contents b) k)), consume b (k + 1))
            ])
            e
          ∙ after_search_lem b (contents b) r)

  -- One line less in the input, or none is there.
  read_line_lem :
      {b : FifoBuffer}
      → IsValid b
      → let (ls, r) = split (contents b) in
        ((read_line g_strchomp b ≡ (none, b)) × (split (contents b) ≡ ([], contents b)))
        ⊎ ((l : List ℕ) × (b' : FifoBuffer) × (read_line g_strchomp b ≡ (some (text l), b'))
            × IsValid b'
            × (b'.size ≡ b.size)
            × (length (contents b') < length (contents b))
            × (split (contents b) ≡ (l ∷ (split (contents b')).0, (split (contents b')).1)))
  read_line_lem {b} v = elim (Option-cases (memchr (contents b) newline)) [
    | inl e ↦ inl (read_line_parts b none e, split-none (contents b) e)
    | inr (k, e) ↦
        let (parts, h) = split-some (contents b) k e in
        let held = length-contents b in
        let fits : b.start + (k + 1) ≤ b.end = omega (arith, v) in
        let e' : k + 1 ≡ suc k = omega arith in
        let rest : contents (consume b (k + 1)) ≡ drop (suc k) (contents b) =
          contents-consume (k + 1) v fits ∙ ap (λ n. drop n (contents b)) e' in
        inr (
          take k (contents b),
          consume b (k + 1),
          read_line_parts b (some k) e
              ∙ ap (λ t. (some (g_strchomp t), consume b (k + 1))) (strndup-take (contents b) k h),
          unfold consume in record { ordered = omega arith; inside = v.inside; sized = v.sized },
          unfold consume in refl,
          unfold consume in omega (arith, length-contents (consume b (k + 1)), held, v),
          rw rest parts,
        )
  ]

-- `client_process_line` and the time let every line pass.
pub record Passes (process_line : List (List ℕ) → CommandReturn) (is_expired : List (List ℕ) → Bool)
    : Type 0 where
  pub goes_on : (ls : List (List ℕ)) → ends_client (process_line ls) ≡ false
  pub awake : (ls : List (List ℕ)) → is_expired ls ≡ false

module _ (g_strchomp : List ℕ → List ℕ) {process_line : List (List ℕ) → CommandReturn}
    {is_expired : List (List ℕ) → Bool} (passes : Passes process_line is_expired) where
  -- The client goes on with this input, and these lines have been processed.
  abbrev Done : Client → List (List ℕ) → List ℕ → Option (CommandReturn × Client) → Type 0
  Done c ls rest none = ⊥
  Done c ls rest (some (ret, c')) =
      (ret ≡ ok)
      × IsValid c'.input
      × (c'.input.size ≡ c.input.size)
      × (c'.lines ≡ c.lines ++ map (text g_strchomp) ls)
      × (contents c'.input ≡ rest)

  Done-cons :
      (c : Client) (l : List ℕ) (ls : List (List ℕ)) (rest : List ℕ) (b : FifoBuffer)
      (r : Option (CommandReturn × Client))
      → b.size ≡ c.input.size
      → Done (record c { input = b; lines = c.lines ++ text g_strchomp l ∷ [] }) ls rest r
      → Done c (l ∷ ls) rest r
  Done-cons c l ls rest b none size d = d
  Done-cons c l ls rest b (some (ret, c')) size (e, v, s, lines, held) = (
    e,
    v,
    s ∙ size,
    lines ∙ append_assoc c.lines (text g_strchomp l ∷ []) (map (text g_strchomp) ls),
    held,
  )

  process_lines_lem :
      (fuel : ℕ) (c : Client)
      → IsValid c.input
      → length (contents c.input) < fuel
      → let (ls, rest) = split (contents c.input) in
        Done c ls rest (process_lines g_strchomp process_line is_expired fuel c)
  unfolding process_lines
  process_lines_lem zero c v h = absurd (omega arith)
  process_lines_lem (suc fuel) c v h =
      let next = process_lines g_strchomp process_line is_expired fuel in
      let round = after_line g_strchomp process_line is_expired next c in
      let rounds = λ (ls : List (List ℕ)) (rest : List ℕ) (x : Option (List ℕ) × FifoBuffer).
        Done c ls rest (round x) in
      elim (read_line_lem g_strchomp v) [
        | inl (e, none_left) ↦ rw (e, none_left) (refl, v, refl, sym (append-nil _), refl)
        | inr (l, b, e, v', size, less, parts) ↦
            let lines = c.lines ++ text g_strchomp l ∷ [] in
            let c' = record c { input = b; lines = lines } in
            let ih = process_lines_lem fuel c' v' (omega arith) in
            rw (e, parts)
              (if_cases (Done c (l ∷ (split (contents b)).0) (split (contents b)).1)
                (ends_client (process_line lines))
                (λ ends. absurd (ground (arith, ends, passes.goes_on lines)))
                (λ _.
                  if_cases (Done c (l ∷ (split (contents b)).0) (split (contents b)).1)
                    (is_expired lines) (λ late. absurd (ground (arith, late, passes.awake lines)))
                    (λ _. Done-cons c l _ _ b (next c') size ih)))
      ]

  -- Of the bytes received so far, the lines have been processed, and what follows the last newline is
  -- in the buffer.
  pub record IsFramed (received : List ℕ) (c : Client) : Type 0 where
    pub valid : IsValid c.input
    pub processed : c.lines ≡ map (text g_strchomp) (split received).0
    pub held : contents c.input ≡ (split received).1

  -- A result is there, with this value: the client is in order for the bytes received, and its buffer
  -- has the size that it had.
  abbrev pub StaysFramed :
      List ℕ → Client → CommandReturn → Option (CommandReturn × Client) → Type 0
  StaysFramed received c ret none = ⊥
  StaysFramed received c ret (some (ret', c')) =
      (ret' ≡ ret) × IsFramed received c' × (c'.input.size ≡ c.input.size)

  -- The client with more bytes in its input.
  abbrev fed : Client → List ℕ → Client
  fed c bytes = record c { input = append (stored c.input bytes) (length bytes) }

  input_received_lem :
      (received : List ℕ) (c : Client) (bytes : List ℕ)
      → IsFramed received c
      → c.input.end + length bytes ≤ c.input.size
      → let (ls, rest) = split (contents c.input ++ bytes) in
        let c' = record c { input = stored c.input bytes } in
        Done (fed c bytes) ls rest (input_received g_strchomp process_line is_expired c' bytes)
  unfolding input_received
  input_received_lem received c bytes f h =
      let b = append (stored c.input bytes) (length bytes) in
      let v : IsValid b =
        unfold append in
        record { ordered = omega (arith, f.valid); inside = h; sized = f.valid.sized } in
      rw (← contents-append bytes f.valid h) (
        process_lines_lem (suc (b.end - b.start)) (fed c bytes) v
          (omega (arith, length-contents b)))

  framed :
      (received : List ℕ) (c : Client) (bytes : List ℕ) (r : Option (CommandReturn × Client))
      → IsFramed received c
      → let (ls, rest) = split (contents c.input ++ bytes) in
        Done (fed c bytes) ls rest r → StaysFramed (received ++ bytes) c ok r
  unfolding append
  framed received c bytes none f d = d
  framed received c bytes (some (ret, c')) f (e, v, size, lines, rest) =
      let parts : split (received ++ bytes)
          ≡ then_split ((split received).0, contents c.input) bytes =
        split-append received bytes
        ∙ ap (λ r. then_split ((split received).0, r) bytes) (sym f.held) in
      (
        e,
        record {
          valid = v;
          processed =
              lines
              ∙ ap (λ ls. ls ++ map (text g_strchomp) (split (contents c.input ++ bytes)).0)
                  f.processed
              ∙ sym (map-append (text g_strchomp) (split received).0 _)
              ∙ sym (ap (λ s. map (text g_strchomp) s.0) parts);
          held = rest ∙ sym (ap (λ s. s.1) parts);
        },
        size,
      )

  -- The bytes that were delivered, and what the result tells of them.
  abbrev pub delivered : IoStatus → List ℕ
  delivered (normal bytes) = bytes
  delivered again = []
  delivered eof = []
  delivered io_error = []

  abbrev pub told : IoStatus → CommandReturn
  told (normal bytes) = ok
  told again = ok
  told eof = close
  told io_error = close

  nothing_more :
      (received : List ℕ) (c : Client) → IsFramed received c → IsFramed (received ++ []) c
  nothing_more received c f = subst (λ bytes. IsFramed bytes c) (sym (append-nil received)) f

  after_chars-IsFramed :
      (received : List ℕ) (c : Client) (s : IoStatus)
      → IsFramed received c
      → ((bytes : List ℕ) → s ≡ normal bytes → c.input.end + length bytes ≤ c.input.size)
      → StaysFramed
          (received ++ delivered s)
          c
          (told s)
          (after_chars g_strchomp process_line is_expired c c.input.end s)
  unfolding after_chars
  after_chars-IsFramed received c (normal bytes) f h =
      framed received c bytes _ f (input_received_lem received c bytes f (h bytes refl))
  after_chars-IsFramed received c again f h = (refl, nothing_more received c f, refl)
  after_chars-IsFramed received c eof f h = (refl, nothing_more received c f, refl)
  after_chars-IsFramed received c io_error f h = (refl, nothing_more received c f, refl)

  StaysFramed-size :
      (received : List ℕ) (c c' : Client) (ret : CommandReturn)
      (r : Option (CommandReturn × Client))
      → c'.input.size ≡ c.input.size
      → StaysFramed received c' ret r
      → StaysFramed received c ret r
  StaysFramed-size received c c' ret none e s = s
  StaysFramed-size received c c' ret (some (ret', d)) e (same, f, size) = (same, f, size ∙ e)

  client_read_parts :
      (c : Client) (read_chars : ℕ → IoStatus) (r : Option (ℕ × ℕ))
      → (fifo_write c.input).0 ≡ r
      → let c' = record c { input = (fifo_write c.input).1 } in
        client_read g_strchomp process_line is_expired c read_chars ≡ elim r [
          | none ↦ some (close, c')
          | some (p, max_length) ↦
              after_chars g_strchomp process_line is_expired c' p (read_chars max_length)
        ]
  unfolding client_read
  client_read_parts c read_chars r e =
      let c' = record c { input = (fifo_write c.input).1 } in
      ap
        (λ (r : Option (ℕ × ℕ)). elim r as (λ _. Option (CommandReturn × Client)) [
          | none ↦ some (close, c')
          | some (p, max_length) ↦
              after_chars g_strchomp process_line is_expired c' p (read_chars max_length)
        ])
        e

  -- What `client_read` takes from the socket: nothing where its buffer has no room.
  abbrev pub taken : Option (ℕ × ℕ) → (ℕ → IoStatus) → IoStatus
  taken none read_chars = io_error
  taken (some (p, max_length)) read_chars = read_chars max_length

  -- client_read ends with a result, while the lines leave the client open and it does not expire: behind
  -- the bytes received before stand those that the socket delivers into the room offered, the lines
  -- processed are those of all these bytes, whatever pieces they came in, and the buffer holds what
  -- follows the last newline. The result is to close where the buffer is full, at the end of the stream
  -- and at an error, and OK otherwise.
  pub client_read-IsFramed :
      {c : Client} (received : List ℕ) (read_chars : ℕ → IoStatus)
      → IsFramed received c
      → ((n : ℕ) (bytes : List ℕ) → read_chars n ≡ normal bytes → length bytes ≤ n)
      → let s = taken (fifo_write c.input).0 read_chars in
        StaysFramed
          (received ++ delivered s)
          c
          (told s)
          (client_read g_strchomp process_line is_expired c read_chars)
  client_read-IsFramed {c} received read_chars f honest =
      let o = write_lem f.valid in
      let b = (fifo_write c.input).1 in
      let c' = record c { input = b } in
      let f' : IsFramed received c' = record {
        valid = o.keeps.valid;
        processed = f.processed;
        held = o.keeps.contents ∙ f.held;
      } in
      elim o.place [
        | inr (e, _) ↦
            rw (client_read_parts c read_chars none e, e)
              (refl, nothing_more received c' f', o.keeps.size)
        | inl (e, free) ↦
            let s = read_chars (b.size - b.end) in
            rw (client_read_parts c read_chars _ e, e)
              (StaysFramed-size (received ++ delivered s) c c' (told s)
                (after_chars g_strchomp process_line is_expired c' b.end s) o.keeps.size
                (after_chars-IsFramed received c' s f'
                  (λ bytes at. omega (arith, honest (b.size - b.end) bytes at))))
      ]
