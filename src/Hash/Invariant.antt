-- ===== src/Hash/Invariant.antt =====
-- hash.c: what holds of a table between two calls.
use native.Mathlib.Nat.{one-le-pow, mod-lt}
use serveez.Base.{arith, length, true, ℕ, ◌%◌, ◌+◌, ◌-◌, ◌<◌, ◌^◌, ◌≡◌, ◌≤◌}
use serveez.Base.Bits.{bit_and_mask}
use serveez.Hash.{SvzHash, hash_bucket}
use serveez.Hash.Keys.{Keys}
use serveez.Hash.Ops.{matches}
use serveez.Hash.Rehash.{Done}
use serveez.Hash.Table.{total}

module _ {K : Type 0} ⦃ops : Keys K⦄ where
  -- There are 2 ^ k buckets, at least 4; every entry stands in the bucket of its code; a key is
  -- there once at most. 2 ^ 60 buckets exceed an address space.
  pub record IsTable (h : SvzHash K) (k : ℕ) : Type 0 where
    pub power : h.buckets ≡ 2 ^ k
    pub some_buckets : 4 ≤ h.buckets
    pub small : h.buckets < 2 ^ 60
    pub width : length h.table ≡ h.buckets
    pub placed : (n : ℕ) → Done h n
    pub once : (key : K) → total (matches key) h.table ≤ 1

  -- And `keys` counts the entries.
  pub record IsValid (h : SvzHash K) (k : ℕ) : Type 0 where
    pub table : IsTable h k
    pub counted : total (λ e. true) h.table ≡ h.keys

-- With 2 ^ k buckets the mask is the remainder.
pub hash_bucket_lem : (code k : ℕ) → 2 ^ k < 2 ^ 60 → hash_bucket code (2 ^ k) ≡ code % 2 ^ k
unfolding hash_bucket
hash_bucket_lem code k small =
    let pos : 0 < 2 ^ k = one-le-pow k 2 (omega arith) in
    let mask : (2 ^ k + (2 ^ 64 - 1)) % 2 ^ 64 ≡ 2 ^ k - 1 = omega (arith, pos, small) in
    rw mask (bit_and_mask k code)

pub hash_bucket-lt : (c b k : ℕ) → b ≡ 2 ^ k → b < 2 ^ 60 → hash_bucket c b < b
hash_bucket-lt c b k power small =
    let pos : 0 < 2 ^ k = one-le-pow k 2 (omega arith) in
    rw power (rw (hash_bucket_lem c k (rw (← power) small)) (mod-lt c pos))
