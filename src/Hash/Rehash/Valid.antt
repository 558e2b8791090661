-- ===== src/Hash/Rehash/Valid.antt =====
-- hash.c, `rehash`: both directions keep the table valid and its entries.
use native.Mathlib.Nat.{pow-suc, mod-mod_of_dvd, mod-eq_of_lt, dvd-mul_right, one-le-pow}
use mathlib.Core.Path.{subst}
use serveez.Base.{
  All, Bool, List, [], ap, arith, drop, get_or, get_or-take, get_or_beyond, inl, inr, length,
  length-append, length-replicate, length-take, ltb_cases, lt→ltb, refl, replicate, suc, sym, take,
  take-append-drop, zero, ℕ, ◌%◌, ◌*◌, ◌++◌, ◌-◌, ◌/◌, ◌<◌, ◌^◌, ◌∙◌, ◌∷◌, ◌≡◌, ◌≤◌,
}
use serveez.Hash.{
  Bucket, Entry, SvzHash, bucket_at, hash_bucket, rehash_expand, rehash_shrink, shrink_buckets,
}
use serveez.Hash.Invariant.{IsTable, hash_bucket-lt, hash_bucket_lem}
use serveez.Hash.Keys.{Keys}
use serveez.Hash.Ops.{matches}
use serveez.Hash.Rehash.{Done-eq, IsRanged}
use serveez.Hash.Rehash.Expand.{expand_buckets-AllSwept}
use serveez.Hash.Rehash.Shrink.{Fits, shrink_buckets-Lowered}
use serveez.Hash.Table.{total, total-append, total-replicate}

mod-mod-double : (m a : ℕ) → a % (m * 2) % m ≡ a % m
mod-mod-double m a = mod-mod_of_dvd m a (dvd-mul_right m 2)

four-le-pow : (k : ℕ) → 2 < 2 ^ k → 4 ≤ 2 ^ k
four-le-pow zero h = absurd (omega arith)
four-le-pow (suc zero) h = absurd (omega arith)
four-le-pow (suc (suc k)) h =
    omega (arith, pow-suc 2 (suc k), pow-suc 2 k, one-le-pow k 2 (omega arith))

module _ {K : Type 0} ⦃ops : Keys K⦄ where
  -- A valid table again, with the same entries and the same count of keys.
  pub record Rehashed (h r : SvzHash K) (k : ℕ) : Type 0 where
    pub valid : IsTable r k
    pub keys : r.keys ≡ h.keys
    pub entries : (test : Entry K → Bool) → total test r.table ≡ total test h.table

  get_or-wide :
      (t : List (Bucket K)) (n j : ℕ) → length t ≤ j → get_or (t ++ replicate n []) j [] ≡ []
  get_or-wide [] zero j h = refl
  get_or-wide [] (suc n) zero h = refl
  get_or-wide [] (suc n) (suc j) h = get_or-wide [] n j (omega arith)
  get_or-wide (l ∷ t) n zero h = absurd (omega arith)
  get_or-wide (l ∷ t) n (suc j) h = get_or-wide t n j (omega arith)

  -- Below 2 ^ 59 buckets, doubling a valid table gives a valid table of twice the buckets, with the
  -- same entries, each in the bucket of its code.
  pub rehash_expand-Rehashed :
      (h : SvzHash K) (k : ℕ)
      → IsTable h k
      → h.buckets < 2 ^ 59
      → Rehashed h (rehash_expand h) (suc k)
  unfolding rehash_expand
  rehash_expand-Rehashed h k v small =
      let n = h.buckets * 2 % 2 ^ 64 in
      let empty : Bucket K = [] in
      let double : n ≡ h.buckets * 2 = omega arith in
      let power : n ≡ 2 ^ suc k = omega (arith, pow-suc 2 k, v.power) in
      let wide = record h { buckets = n; table = h.table ++ replicate (n - n / 2) [] } in
      let width : length wide.table ≡ n = omega (
        arith,
        v.width,
        length-append h.table (replicate (n - n / 2) []),
        length-replicate (n - n / 2) empty,
      ) in
      let ranged : IsRanged wide = λ c. rw width (hash_bucket-lt c n (suc k) power (omega arith)) in
      let swept = expand_buckets-AllSwept (n / 2) wide 0 ranged (omega (arith, width)) in
      let entries : (test : Entry K → Bool) → total test wide.table ≡ total test h.table = λ test.
        omega (
          arith,
          total-append test h.table (replicate (n - n / 2) []),
          total-replicate test (n - n / 2),
        ) in
      let all = λ (test : Entry K → Bool). swept.moved.entries test ∙ entries test in
      record {
        valid = record {
          power = swept.moved.buckets ∙ power;
          some_buckets = omega (arith, swept.moved.buckets, v.some_buckets);
          small = omega (arith, swept.moved.buckets);
          width = swept.moved.width ∙ width ∙ sym swept.moved.buckets;
          placed = λ j. elim (ltb_cases j (n / 2)) [
            | inl (_, lo) ↦ swept.done j (omega arith) (omega arith)
            | inr (_, hi) ↦ swept.others j (
                subst (All (λ (e : Entry K). hash_bucket e.code n ≡ j))
                  (sym (get_or-wide h.table (n - n / 2) j (omega (arith, v.width)))) tt)
          ];
          once = λ key. omega (arith, all (matches key), v.once key);
        };
        keys = swept.moved.keys;
        entries = all;
      }

  -- What stood in the lower half of the wide table belongs there in the narrow one.
  halved-placed :
      (h : SvzHash K) (k j : ℕ) (l : Bucket K)
      → h.buckets ≡ 2 ^ suc k
      → h.buckets < 2 ^ 60
      → j < 2 ^ k
      → All (λ (e : Entry K). hash_bucket e.code h.buckets ≡ j) l
      → All (λ (e : Entry K). hash_bucket e.code (2 ^ k) ≡ j) l
  halved-placed h k j [] power small lo done = tt
  halved-placed h k j (e ∷ l) power small lo (here, done) =
      let wide : e.code % 2 ^ suc k ≡ j =
        sym (hash_bucket_lem e.code (suc k) (omega (arith, power)))
        ∙ ap (hash_bucket e.code) (sym power)
        ∙ here in
      let narrow : e.code % 2 ^ k ≡ j =
        sym (mod-mod-double (2 ^ k) e.code)
        ∙ ap (λ m. e.code % m % 2 ^ k) (sym (pow-suc 2 k))
        ∙ ap (λ n. n % 2 ^ k) wide
        ∙ mod-eq_of_lt lo in
      (
        hash_bucket_lem e.code k (omega (arith, power, pow-suc 2 k)) ∙ narrow,
        halved-placed h k j l power small lo done,
      )

  -- Halving a valid table of more than 4 buckets gives a valid table of half the buckets, with the
  -- same entries, each in the bucket of its code.
  pub rehash_shrink-Rehashed :
      (h : SvzHash K) (k : ℕ) → IsTable h (suc k) → 4 < h.buckets → Rehashed h (rehash_shrink h) k
  unfolding rehash_shrink
  rehash_shrink-Rehashed h k v more =
      let half = h.buckets / 2 in
      let power : half ≡ 2 ^ k = omega (arith, pow-suc 2 k, v.power) in
      let start = record h { buckets = half } in
      let narrow = shrink_buckets start (drop half h.table) in
      let fits : Fits half start =
        (λ c. hash_bucket-lt c half k power (omega (arith, v.small)), omega (arith, v.width)) in
      let lowered = shrink_buckets-Lowered half start (drop half h.table) fits in
      let all : (test : Entry K → Bool) → total test (take half narrow.table) ≡ total test h.table =
        λ test.
          lowered.entries test
          ∙ sym (total-append test (take half h.table) (drop half h.table))
          ∙ ap (total test) (take-append-drop half h.table) in
      let width : length (take half narrow.table) ≡ half =
        omega (arith, length-take half narrow.table, lowered.width, v.width) in
      rw (lt→ltb _ _ more) (record {
        valid = record {
          power = lowered.buckets ∙ power;
          some_buckets = omega (
            arith,
            lowered.buckets,
            four-le-pow k (omega (arith, power, more, pow-suc 2 k, v.power)),
            power,
          );
          small = omega (arith, lowered.buckets, v.small);
          width = width ∙ sym lowered.buckets;
          placed = λ j. elim (ltb_cases j half) [
            | inl (_, lo) ↦
                Done-eq narrow (record narrow { table = take half narrow.table }) j refl
                  (get_or-take half j narrow.table [] lo)
                  (lowered.others j (
                    subst (λ b. All (λ (e : Entry K). hash_bucket e.code b ≡ j) (bucket_at h j))
                      (sym power)
                      (halved-placed h k j (bucket_at h j) v.power v.small (rw power at lo)
                        (v.placed j))))
            | inr (_, hi) ↦
                subst (All (λ (e : Entry K). hash_bucket e.code narrow.buckets ≡ j))
                  (sym (get_or_beyond (take half narrow.table) j [] (omega (arith, width)))) tt
          ];
          once = λ key. omega (arith, all (matches key), v.once key);
        };
        keys = lowered.keys;
        entries = all;
      })
