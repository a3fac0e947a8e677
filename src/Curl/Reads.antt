-- ===== src/Curl/Reads.antt =====
-- A read from the buffers of src/input/curl.c gives the music in what it takes from them, the metadata
-- cut out, and loses nothing.
use mathlib.Core.Path.{subst}
use mpd_legacy.Common.{
  ℕ, zero, suc, ◌+◌, ◌-◌, ◌≤◌, ◌<◌, ◌≡◌, refl, ap, sym, ◌∙◌, inl, inr, Option, none, some, true,
  ◌&&◌, List, [], ◌++◌, arith, ltb, ◌==◌, if◌then◌else◌, if_cases, slice, length, slice-append,
  Bool-cases,
}
use mpd_legacy.IcyMetadata.{IcyMetadata, Tags, data_bytes, meta}
use mpd_legacy.IcyMetadata.Split.{split, split-append}
use mpd_legacy.IcyMetadata.Inv.{view, IsSplitting, data_bytes-Took, data_bytes-short}
use mpd_legacy.IcyMetadata.Blocks.{meta-Took}
use mpd_legacy.Curl.{Buffer, consume_buffer, Taken, prepend, next_round, take_meta, take_bytes}

-- The buffer behind its next bytes.
abbrev pub advance : Buffer → ℕ → Buffer
advance buffer n = record buffer { consumed = buffer.consumed + n }

consume-advance :
    (buffer : Buffer) (n length : ℕ)
    → n ≤ length
    → consume_buffer (advance buffer n) (length - n) ≡ consume_buffer buffer length
unfolding consume_buffer
consume-advance buffer n length few =
    let e : buffer.consumed + n + (length - n) ≡ buffer.consumed + length = omega (arith, few) in
    ap (λ c. if ltb c buffer.size then some (record buffer { consumed = c }) else none) e

-- Where bytes are left, the pointer is not null.
consume-some :
    (buffer : Buffer) (n : ℕ)
    → buffer.consumed + n < buffer.size
    → consume_buffer buffer n ≡ some (advance buffer n)
unfolding consume_buffer
consume-some buffer n lt = ground (arith, lt)

module _ {T : Type 0} (tags : Tags T) where
  -- Bytes that were passed over, with what of them is music.
  pub record Splits (im : IcyMetadata T) (bytes out : List ℕ) (im' : IcyMetadata T) : Type 0 where
    pub same : split tags im.data_size (view tags im) bytes ≡ (out, view tags im')
    pub valid : IsSplitting tags im'
    pub size : im'.data_size ≡ im.data_size

  pub Splits-append :
      {a b c : IcyMetadata T} {xs ys out more : List ℕ}
      → Splits a xs out b
      → Splits b ys more c
      → Splits a (xs ++ ys) (out ++ more) c
  Splits-append {a = a} {b = b} {c = c} {xs = xs} {ys = ys} {out = out} s t = record {
    same =
        split-append tags a.data_size (view tags a) xs ys
        ∙ ap (λ r. (r.0 ++ (split tags a.data_size r.1 ys).0, (split tags a.data_size r.1 ys).1))
            s.same
        ∙ ap (λ d. (out ++ (split tags d (view tags b) ys).0, (split tags d (view tags b) ys).1))
            (sym s.size)
        ∙ ap (λ r. (out ++ r.0, r.1)) t.same;
    valid = t.valid;
    size = t.size ∙ s.size;
  }

  -- The loop ends, the bytes are used up, and what is left of the buffer is behind them.
  pub record Outcome (im : IcyMetadata T) (buffer : Buffer) (length : ℕ) (r : Taken tags)
      : Type 0 where
    pub out : List ℕ
    pub after : IcyMetadata T
    pub is : r ≡ some (out, after, consume_buffer buffer length)
    pub splits : Splits im (slice buffer.payload buffer.consumed length) out after

  abbrev pub Goes : (IcyMetadata T → Buffer → ℕ → Taken tags) → ℕ → Type 0
  Goes again bound =
      (im : IcyMetadata T) (buffer : Buffer) (length : ℕ)
      → 0 < length
      → length < bound
      → buffer.consumed + length ≤ buffer.size
      → IsSplitting tags im
      → Outcome im buffer length (again im buffer length)

  -- What one operation passes over, and then the rest.
  then_rest :
      {im im' : IcyMetadata T} {first : List ℕ} (buffer : Buffer) (length n : ℕ) (r : Taken tags)
      → n ≤ length
      → Splits im (slice buffer.payload buffer.consumed n) first im'
      → (o : Outcome im' (advance buffer n) (length - n) r)
      → Outcome im buffer length (prepend tags first r)
  then_rest {im = im} {first = first} buffer length n r few s o =
      let together : n + (length - n) ≡ length = omega (arith, few) in
      record {
        out = first ++ o.out;
        after = o.after;
        is =
            ap (prepend tags first) o.is
            ∙ ap (λ b. some (first ++ o.out, o.after, b)) (consume-advance buffer n length few);
        splits =
            subst (λ bytes. Splits im bytes (first ++ o.out) o.after)
              (sym (slice-append buffer.payload buffer.consumed n (length - n))
                ∙ ap (slice buffer.payload buffer.consumed) together)
              (Splits-append s o.splits);
      }

  prepend-nothing : (r : Taken tags) → prepend tags [] r ≡ r
  prepend-nothing none = refl
  prepend-nothing (some x) = refl

  next_round-end :
      (again : IcyMetadata T → Buffer → ℕ → Taken tags) (im : IcyMetadata T) (left : Option Buffer)
      → next_round tags again im left 0 ≡ some ([], im, left)
  unfolding next_round
  next_round-end again im none = refl
  next_round-end again im (some buffer) = refl

  next_round-again :
      (again : IcyMetadata T → Buffer → ℕ → Taken tags) (im : IcyMetadata T) (buffer : Buffer)
      (length : ℕ)
      → 0 < length
      → next_round tags again im (some buffer) length ≡ again im buffer length
  unfolding next_round
  next_round-again again im buffer zero more = absurd (omega arith)
  next_round-again again im buffer (suc length) more = refl

  next_round-Outcome :
      (again : IcyMetadata T → Buffer → ℕ → Taken tags) (im im' : IcyMetadata T) (buffer : Buffer)
      (length n : ℕ)
      → Goes again length
      → 0 < n
      → n ≤ length
      → buffer.consumed + length ≤ buffer.size
      → Splits im (slice buffer.payload buffer.consumed n) [] im'
      → Outcome im buffer length (next_round tags again im' (consume_buffer buffer n) (length - n))
  next_round-Outcome again im im' buffer length n goes more few fits s =
      elim (Bool-cases (n == length)) [
        | inl e ↦
            let all : n ≡ length = ground (arith, e) in
            let none_left : length - n ≡ 0 = omega (arith, all) in
            record {
              out = [];
              after = im';
              is =
                  ap (next_round tags again im' (consume_buffer buffer n)) none_left
                  ∙ next_round-end again im' (consume_buffer buffer n)
                  ∙ ap (λ k. some ([], im', consume_buffer buffer k)) all;
              splits = subst (λ k. Splits im (slice buffer.payload buffer.consumed k) [] im') all s;
            }
        | inr e ↦
            let less : n < length = ground (arith, e, few) in
            let o =
              goes im' (advance buffer n) (length - n) (omega (arith, less))
                (omega (arith, less, more)) (omega (arith, fits, less)) s.valid in
            subst (Outcome im buffer length)
              (prepend-nothing (again im' (advance buffer n) (length - n))
                ∙ sym (
                    ap (λ b. next_round tags again im' b (length - n))
                      (consume-some buffer n (omega (arith, fits, less)))
                    ∙ next_round-again again im' (advance buffer n) (length - n)
                        (omega (arith, less))))
              (then_rest buffer length n (again im' (advance buffer n) (length - n)) few s o)
      ]

  take_meta-Outcome :
      (again : IcyMetadata T → Buffer → ℕ → Taken tags) (im : IcyMetadata T) (buffer : Buffer)
      (length : ℕ)
      → Goes again length
      → 0 < length
      → buffer.consumed + length ≤ buffer.size
      → IsSplitting tags im
      → 0 < im.data_size
      → im.data_rest ≡ 0
      → Outcome im buffer length (take_meta tags again im (some buffer) length)
  unfolding take_meta
  take_meta-Outcome again im buffer length goes more fits v at rest =
      let (took, some_taken) =
        meta-Took tags im buffer.payload buffer.consumed length v at rest more in
      let r = meta tags im buffer.payload buffer.consumed length in
      if_cases (Outcome im buffer length) (ltb 0 r.0)
        (λ e.
          next_round-Outcome again im r.1 buffer length r.0 goes some_taken took.few fits
            (record { same = took.same; valid = took.valid; size = took.size }))
        (λ e. absurd (ground (arith, e, some_taken)))

  -- The pointer to the buffer behind the music.
  left_over :
      (buffer : Buffer) (n length : ℕ)
      → n < length
      → buffer.consumed + length ≤ buffer.size
      → (if ltb 0 n then consume_buffer buffer n else some buffer) ≡ some (advance buffer n)
  left_over buffer n length less fits =
      if_cases (λ b. b ≡ some (advance buffer n)) (ltb 0 n)
        (λ e. consume-some buffer n (omega (arith, less, fits)))
        (λ e.
          let stays : buffer.consumed ≡ buffer.consumed + n = ground (arith, e) in
          ap (λ c. some (record buffer { consumed = c })) stays)

  pub take_bytes-Outcome : (fuel bound : ℕ) → bound ≤ suc fuel → Goes (take_bytes tags fuel) bound
  unfolding take_bytes
  take_bytes-Outcome zero bound enough im buffer length more lt fits v = absurd (omega arith)
  take_bytes-Outcome (suc fuel) bound enough im buffer length more lt fits v =
      let took = data_bytes-Took tags im buffer.payload buffer.consumed length v in
      let n : ℕ = (data_bytes im length).0 in
      let im' : IcyMetadata T = (data_bytes im length).1 in
      let s : Splits im (slice buffer.payload buffer.consumed n)
          (slice buffer.payload buffer.consumed n) im' =
        record { same = took.same; valid = took.valid; size = took.size } in
      let left : Option Buffer = if ltb 0 n then consume_buffer buffer n else some buffer in
      if_cases (Outcome im buffer length) (ltb 0 n && (length - n == 0))
        (λ e.
          let some_taken : ltb 0 n ≡ true = ground (arith, e) in
          let all : n ≡ length = ground (arith, e, took.few) in
          record {
            out = slice buffer.payload buffer.consumed n;
            after = im';
            is =
                ap
                  (λ b. some (
                    slice buffer.payload buffer.consumed n,
                    im',
                    (if b then consume_buffer buffer n else some buffer),
                  ))
                  some_taken
                ∙ ap
                    (λ k.
                      some (slice buffer.payload buffer.consumed n, im', consume_buffer buffer k))
                    all;
            splits =
                subst
                  (λ k.
                    Splits im (slice buffer.payload buffer.consumed k)
                      (slice buffer.payload buffer.consumed n) im')
                  all s;
          })
        (λ e.
          let less : n < length = ground (arith, e, took.few, more) in
          let (at, rest) = data_bytes-short tags im length less in
          subst
            (λ b. Outcome im buffer length (
              prepend tags (slice buffer.payload buffer.consumed n)
                (take_meta tags (take_bytes tags fuel) im' b (length - n))))
            (sym (left_over buffer n length less fits))
            (then_rest buffer length n
              (take_meta tags (take_bytes tags fuel) im' (some (advance buffer n)) (length - n))
              took.few s
              (take_meta-Outcome (take_bytes tags fuel) im' (advance buffer n) (length - n)
                (take_bytes-Outcome fuel (length - n) (omega (arith, lt, enough)))
                (omega (arith, less)) (omega (arith, fits, less)) s.valid at rest)))
