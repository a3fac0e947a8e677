-- ===== src/Curl/Answers.antt =====
-- What a read from src/input/curl.c answers, and what the network thread adds to the queue.
use mathlib.Core.Path.{subst}
use mpd_legacy.Common.{
  ℕ, zero, suc, ◌≡◌, refl, ap, sym, ◌∙◌, ◌⊎◌, inl, inr, none, some, Bool, true, false, ◌&&◌, not,
  List, [], ◌∷◌, arith, if◌then◌else◌, if_cases, length,
}
use mpd_legacy.Common.Int.{ℤ, pos}
use mpd_legacy.IcyMetadata.{IcyMetadata, Tags}
use mpd_legacy.Curl.{
  Buffer, total_buffer_size, drain, InputCurl, Network, is_empty, is_success, fill_buffer,
  after_drain, read_round, input_curl_read, Answer,
}

not-true : {b : Bool} → not b ≡ true → b ≡ false
not-true {b = true} e = sym e
not-true {b = false} e = refl

module _ {T : Type 0} (tags : Tags T) (network : Network T) where
  -- What a read does: nothing came, and the loop runs on; there was an error; or the answer is 1, no
  -- byte is copied, and there are some in the queue.
  pub data IsIdle (c : InputCurl T) : Answer tags network → Type 0 where
    runs_on : (fill_buffer tags network c).1.buffers ≡ [] → IsIdle c none
    fails :
        (error : ℤ) (c' : InputCurl T) → is_success error ≡ false → IsIdle c (some (error, [], c'))
    answers_one : (c' : InputCurl T) → is_empty c'.buffers ≡ false → IsIdle c (some (pos 1, [], c'))

  pub data Fills : ℤ × InputCurl T → Type 0 where
    failed : (error : ℤ) (c : InputCurl T) → is_success error ≡ false → Fills (error, c)
    nothing : (c : InputCurl T) → c.buffers ≡ [] → Fills (pos 0, c)
    filled : (c : InputCurl T) → is_empty c.buffers ≡ false → Fills (pos 1, c)

  fills :
      (c : InputCurl T) (buffers : List Buffer)
      → c.buffers ≡ buffers
      → Fills (if is_empty buffers then pos 0 else pos 1, c)
  fills c [] e = nothing c e
  fills c (buffer ∷ buffers) e = filled c (ap is_empty e)

  fill_buffer-Fills : (c : InputCurl T) → Fills (fill_buffer tags network c)
  unfolding fill_buffer
  fill_buffer-Fills c =
      let c' = if c.connected && is_empty c.buffers then network.wait c else c in
      if_cases Fills (not (is_success c'.postponed_error))
        (λ e. failed c'.postponed_error (record c' { postponed_error = pos 0 }) (not-true e))
        (λ e. fills c' c'.buffers refl)

  again-IsIdle :
      {c c' : InputCurl T} {r : Answer tags network}
      → (fill_buffer tags network c).1.buffers ≡ []
      → IsIdle c' r
      → IsIdle c r
  again-IsIdle none_filled (runs_on e) = runs_on none_filled
  again-IsIdle none_filled (fails error c' e) = fails error c' e
  again-IsIdle none_filled (answers_one c' e) = answers_one c' e

  drain_nothing :
      (im : IcyMetadata T) (buffers : List Buffer) (size : ℕ)
      → buffers ≡ []
      → drain tags (total_buffer_size buffers) im buffers size ≡ some ([], im, [])
  unfolding drain total_buffer_size
  drain_nothing im [] size e = refl
  drain_nothing im (buffer ∷ buffers) size e = absurd (omega (arith, ap length e))

  -- A round behind fill_buffer
  filled-IsIdle :
      (again : InputCurl T → ℕ → Answer tags network) (c : InputCurl T) (size : ℕ)
      (good : (c' : InputCurl T) → (again c' size ≡ none) ⊎ IsIdle c' (again c' size))
      (r : ℤ × InputCurl T)
      → fill_buffer tags network c ≡ r
      → Fills r
      → IsIdle c (
          if not (is_success r.0)
          then some (r.0, [], r.1)
          else after_drain tags network again r.1 size
              (drain tags (total_buffer_size r.1.buffers) r.1.icy_metadata r.1.buffers size))
  unfolding after_drain
  filled-IsIdle again c size good r at (failed error c' e) = rw e (fails error c' e)
  filled-IsIdle again c size good r at (nothing c' e) =
      let none_filled : (fill_buffer tags network c).1.buffers ≡ [] =
        ap (λ (x : ℤ × InputCurl T). x.1.buffers) at ∙ e in
      subst (λ x. IsIdle c (after_drain tags network again c' size x))
        (sym (drain_nothing c'.icy_metadata c'.buffers size e))
        (elim (good (record c' { icy_metadata = c'.icy_metadata; buffers = [] })) [
          | inl e' ↦ subst (IsIdle c) (sym e') (runs_on none_filled)
          | inr idle ↦ again-IsIdle none_filled idle
        ])
  filled-IsIdle again c size good r at (filled c' e) = answers_one c' e

  -- input_curl_read never copies a byte. A call either runs out of its fuel, whatever that is, and
  -- then the queue is empty behind the first wait; or it returns an error that is not MPD_SUCCESS; or
  -- it returns 1, while there are bytes in the queue.
  pub input_curl_read-IsIdle :
      (fuel : ℕ) (c : InputCurl T) (size : ℕ)
      → IsIdle c (input_curl_read tags network (suc fuel) c size)
  unfolding input_curl_read read_round
  input_curl_read-IsIdle zero c size =
      filled-IsIdle (input_curl_read tags network zero) c size (λ c'. inl refl)
        (fill_buffer tags network c) refl (fill_buffer-Fills c)
  input_curl_read-IsIdle (suc fuel) c size =
      filled-IsIdle (input_curl_read tags network (suc fuel)) c size
        (λ c'. inr (input_curl_read-IsIdle fuel c' size)) (fill_buffer tags network c) refl
        (fill_buffer-Fills c)
