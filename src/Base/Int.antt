-- ===== src/Base/Int.antt =====
-- C's signed integers: integers over the native numbers, and their tests against natural numbers.
use serveez.Base.{Bool, leb, ltb, true, ℕ}

-- `negsuc n` is -(n + 1).
pub data ℤ : Type 0 where
  pos : ℕ → ℤ
  negsuc : ℕ → ℤ

-- `z <= n` and `z < n`.
abbrev pub leb_ℤ : ℤ → ℕ → Bool
leb_ℤ (pos k) n = leb k n
leb_ℤ (negsuc k) n = true

abbrev pub ltb_ℤ : ℤ → ℕ → Bool
ltb_ℤ (pos k) n = ltb k n
ltb_ℤ (negsuc k) n = true
