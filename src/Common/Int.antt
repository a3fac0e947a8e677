-- ===== src/Common/Int.antt =====
-- C's `int`, where the sign matters.
use mpd_legacy.Common.{ℕ}

-- `negsuc n` is -(n + 1).
pub data ℤ : Type 0 where
  pos : ℕ → ℤ
  negsuc : ℕ → ℤ
