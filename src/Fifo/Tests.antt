-- ===== src/Fifo/Tests.antt =====
-- The theorems about the buffers of bytes at small buffers.
use mpd_legacy.Common.{ℕ, ◌+◌, refl, inl, [], ◌∷◌, ◌++◌, arith}
use mpd_legacy.Fifo.{FifoBuffer, contents}
use mpd_legacy.Fifo.Inv.{IsValid}
use mpd_legacy.Fifo.Growing.{append, Holds, append_lem}

abbrev memory : ℕ → ℕ
memory i = 7

-- Two bytes are held at the start of four.
abbrev short : FifoBuffer
short = record { size = 4; start = 0; end = 2; buffer = λ i. i + 10 }

-- A full buffer but for its last byte, the first byte of which has been consumed.
abbrev consumed : FifoBuffer
consumed = record { size = 8192; start = 1; end = 8191; buffer = λ i. i }

short-IsValid : IsValid short
short-IsValid = omega arith

append_example : Holds (append memory short (1 ∷ 2 ∷ 3 ∷ [])) (contents short ++ 1 ∷ 2 ∷ 3 ∷ [])
append_example =
    append_lem memory (1 ∷ 2 ∷ 3 ∷ []) short-IsValid (inl refl) (omega arith) (omega arith)
