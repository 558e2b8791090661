-- ===== src/Hash.antt =====
-- libserveez/hash.c: chained hash tables with a power of two of buckets.
-- A key is a value of `K` under the three callbacks of the table; a value is a pointer, a
-- number with 0 for NULL. A bucket is the list of its entries, so its `size` is its length.
-- `size_t` arithmetic wraps at 2 ^ 64. Allocation does not fail.
pub mod Keys
pub mod Ops
pub mod Table
pub mod Bucket
pub mod Rehash
pub mod Invariant
pub mod View
pub mod Methods
pub mod Iterate
pub mod Create
pub mod Strings
use Prim.Native.Nat.{bit_and}
use mathlib.Core.Option
use serveez.Base.{
  Bool, List, Option, [], drop, false, get_elem?, get_or, if◌then◌else◌, length, ltb, none,
  replicate, set, some, suc, take, true, zero, ℕ, ◌%◌, ◌*◌, ◌++◌, ◌+◌, ◌-◌, ◌/◌, ◌==◌, ◌^◌, ◌∷◌,
}

-- `struct svz_hash_entry`
pub record Entry (K : Type 0) : Type 0 where
  pub code : ℕ
  pub key : K
  pub value : ℕ

abbrev pub Bucket : Type 0 → Type 0
Bucket K = List (Entry K)

-- `struct svz_hash`; the callbacks `code`, `equals` and `keylen` are an instance of `Keys`.
pub record SvzHash (K : Type 0) : Type 0 where
  pub buckets : ℕ
  pub fill : ℕ
  pub keys : ℕ
  pub destroy : Bool
  pub table : List (Bucket K)

-- The limits of `fill`, and the bucket of a code.
abbrev pub hash_shrink_limit : ℕ → ℕ
hash_shrink_limit buckets = buckets / 4

abbrev pub hash_expand_limit : ℕ → ℕ
hash_expand_limit buckets = buckets / 2 + buckets / 4

unfoldable pub hash_bucket : ℕ → ℕ → ℕ
hash_bucket code buckets = bit_and code ((buckets + (2 ^ 64 - 1)) % 2 ^ 64)

module _ {K : Type 0} where
  abbrev pub bucket_at : SvzHash K → ℕ → Bucket K
  bucket_at h n = get_or h.table n []

  -- An entry is copied behind the last one of bucket `n`; `fill` counts a bucket that was empty.
  unfoldable pub append_entry : SvzHash K → ℕ → Entry K → SvzHash K
  append_entry h n e = record h {
    table = set h.table n (bucket_at h n ++ (e ∷ []));
    fill = if length (bucket_at h n) == 0 then (h.fill + 1) % 2 ^ 64 else h.fill;
  }

  -- The last entry takes the place of entry `i`, and the bucket is shortened.
  unfoldable pub swap_remove : Bucket K → ℕ → Bucket K
  swap_remove l i = elim (get_elem? l (length l - 1)) [
    | none ↦ []
    | some last ↦ take (length l - 1) (set l i last)
  ]

  -- `fill` no longer counts a bucket that became empty.
  unfoldable pub remove_entry : SvzHash K → ℕ → ℕ → SvzHash K
  remove_entry h n i =
      let rest = swap_remove (bucket_at h n) i in
      record h {
        table = set h.table n rest;
        fill = if length rest == 0 then (h.fill + (2 ^ 64 - 1)) % 2 ^ 64 else h.fill;
      }

  -- The entries of bucket `n` from index `e` on, of which there are `left`. After a removal
  -- `e--` and `e++` cancel, so each round takes one entry.
  pub expand_bucket : ℕ → SvzHash K → ℕ → ℕ → SvzHash K
  expand_bucket zero h n e = h
  expand_bucket (suc left) h n e = elim (get_elem? (bucket_at h n) e) [
    | none ↦ h
    | some entry ↦ elim (n == hash_bucket entry.code h.buckets) [
      | true ↦ expand_bucket left h n (e + 1)
      | false ↦
          expand_bucket left
            (remove_entry (append_entry h (hash_bucket entry.code h.buckets) entry) n e) n e
    ]
  ]

  -- Buckets `n`, `n + 1`, … of which there are `left`.
  pub expand_buckets : ℕ → SvzHash K → ℕ → SvzHash K
  expand_buckets zero h n = h
  expand_buckets (suc left) h n =
      expand_buckets left (expand_bucket (length (bucket_at h n)) h n 0) (n + 1)

  -- Doubles the table and relocates the entries.
  pub rehash_expand : SvzHash K → SvzHash K
  rehash_expand h =
      let n = h.buckets * 2 % 2 ^ 64 in
      let wide = record h { buckets = n; table = h.table ++ replicate (n - n / 2) [] } in
      expand_buckets (n / 2) wide 0

  -- The entries of an upper bucket are copied to the lower half.
  pub shrink_bucket : SvzHash K → Bucket K → SvzHash K
  shrink_bucket h [] = h
  shrink_bucket h (e ∷ es) = shrink_bucket (append_entry h (hash_bucket e.code h.buckets) e) es

  -- The upper buckets in order. `fill--` runs for each of them, whether it is empty or not.
  pub shrink_buckets : SvzHash K → List (Bucket K) → SvzHash K
  shrink_buckets h [] = h
  shrink_buckets h (b ∷ bs) =
      let moved = shrink_bucket h b in
      shrink_buckets (record moved { fill = (moved.fill + (2 ^ 64 - 1)) % 2 ^ 64 }) bs

  -- Halves a table of more than 4 buckets.
  pub rehash_shrink : SvzHash K → SvzHash K
  rehash_shrink h =
      let half = h.buckets / 2 in
      let narrow = shrink_buckets (record h { buckets = half }) (drop half h.table) in
      if ltb 4 h.buckets then record narrow { table = take half narrow.table } else h

  -- The loop over a bucket: the index of the first entry that passes a test.
  pub find_index : (Entry K → Bool) → Bucket K → Option ℕ
  find_index test [] = none
  find_index test (e ∷ l) = if test e then some 0 else Option.map suc (find_index test l)
