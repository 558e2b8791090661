-- ===== src/Hash/Keys.antt =====
-- hash.c: the callbacks of a table, with what hash.h asks of them.
use serveez.Base.{Bool, true, ℕ, ◌≡◌}

pub record Keys (K : Type 0) : Type 0 where
  pub code : K → ℕ
  -- The callback returned 0.
  pub equals : K → K → Bool
  -- The copy of `keylen (key)` bytes that the table keeps.
  pub copy : K → K
  pub equals_refl : (a : K) → equals a a ≡ true
  pub equals_symm : (a b : K) → equals a b ≡ true → equals b a ≡ true
  pub equals_trans : (a b c : K) → equals a b ≡ true → equals b c ≡ true → equals a c ≡ true
  pub code-equals : (a b : K) → equals a b ≡ true → code a ≡ code b
  pub equals-copy : (a : K) → equals (copy a) a ≡ true
