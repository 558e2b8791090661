-- ===== src/Hash/Methods/Facts.antt =====
-- hash.c: how a table whose entries changed by one answers for every key.
use serveez.Base.{
  All-get, All-set, Bool, Bool-cases, [], ap, arith, get_elem?, get_or-set, if◌then◌else◌, inl, inr,
  length, length-set, set, some, true, ℕ, ◌+◌, ◌<◌, ◌∙◌, ◌≡◌, ◌≤◌,
}
use serveez.Hash.{Entry, SvzHash, bucket_at, hash_bucket}
use serveez.Hash.Invariant.{IsTable}
use serveez.Hash.Keys.{Keys}
use serveez.Hash.Methods.{matches-differ, matches-equal}
use serveez.Hash.Ops.{matches}
use serveez.Hash.Table.{count-set, to_nat, total, total-set}
use serveez.Hash.View.{holds, view, view_of_total, view_same}

module _ {K : Type 0} ⦃ops : Keys K⦄ where
  -- The table after `total test r + test x ≡ total test h + test y` for entries of one key.
  module _ (h r : SvzHash K) (k j : ℕ) (key : K) (p : IsTable h k) (q : IsTable r j) where
    pub replaced_views :
        (x y : Entry K)
        → matches key x ≡ true
        → matches key y ≡ true
        → ((test : Entry K → Bool) → to_nat (test x) ≤ total test h.table)
        → ((test : Entry K → Bool)
            → total test r.table + to_nat (test x) ≡ total test h.table + to_nat (test y))
        → (c : K) → view r c ≡ (if ops.equals key c then some y.value else view h c)
    replaced_views x y hx hy inside totals c = elim (Bool-cases (ops.equals key c)) [
      | inl same ↦
          let hit : to_nat (holds c y.value y) ≡ 1 = ground (arith, matches-equal key c y same) in
          rw same (
            view_of_total r j c y.value q
              (omega (arith, totals (holds c y.value), inside (holds c y.value), hit)))
      | inr differ ↦
          let x_off = matches-differ key c x differ hx in
          let y_off = matches-differ key c y differ hy in
          rw differ (
            view_same h r k j c p q
              (omega (arith, totals (matches c), ap to_nat x_off, ap to_nat y_off))
              (λ v.
                let x_none : to_nat (holds c v x) ≡ 0 = ground (arith, x_off) in
                let y_none : to_nat (holds c v y) ≡ 0 = ground (arith, y_off) in
                omega (arith, totals (holds c v), x_none, y_none)))
    ]

    -- The table after an entry of a new key was added.
    pub added_views :
        (y : Entry K)
        → matches key y ≡ true
        → ((test : Entry K → Bool) → total test r.table ≡ total test h.table + to_nat (test y))
        → (c : K) → view r c ≡ (if ops.equals key c then some y.value else view h c)
    added_views y hy totals c = elim (Bool-cases (ops.equals key c)) [
      | inl same ↦
          let hit : to_nat (holds c y.value y) ≡ 1 = ground (arith, matches-equal key c y same) in
          rw same (view_of_total r j c y.value q (omega (arith, totals (holds c y.value), hit)))
      | inr differ ↦
          let off = matches-differ key c y differ hy in
          rw differ (
            view_same h r k j c p q (omega (arith, totals (matches c), ap to_nat off)) (λ v.
              let none_held : to_nat (holds c v y) ≡ 0 = ground (arith, off) in
              omega (arith, totals (holds c v), none_held)))
    ]

  -- What `replace_value` does to the table of a bucket that has an entry of the key at `i`.
  abbrev pub replaced : SvzHash K → ℕ → ℕ → Entry K → SvzHash K
  replaced h b i y = record h { table = set h.table b (set (bucket_at h b) i y) }

  pub replaced-IsTable :
      (h : SvzHash K) (k b i : ℕ) (x y : Entry K)
      → IsTable h k
      → b < length h.table
      → get_elem? (bucket_at h b) i ≡ some x
      → y.code ≡ x.code
      → ((c : K) → matches c y ≡ matches c x)
      → IsTable (replaced h b i y) k
        × ((test : Entry K → Bool)
            → total test (replaced h b i y).table + to_nat (test x)
              ≡ total test h.table + to_nat (test y))
  replaced-IsTable h k b i x y v inside here code same =
      let l = set (bucket_at h b) i y in
      let totals : (test : Entry K → Bool)
          → total test (set h.table b l) + to_nat (test x) ≡ total test h.table + to_nat (test y) =
        λ test.
          omega
            (arith, total-set test h.table b l inside, count-set test (bucket_at h b) i x y here) in
      (
        record {
          power = v.power;
          some_buckets = v.some_buckets;
          small = v.small;
          width = length-set h.table b l ∙ v.width;
          placed = λ n. elim (get_or-set h.table b n l [] inside) [
            | inl (at_b, is_l) ↦
                let belongs = All-get _ (bucket_at h b) i x (v.placed b) here in
                rw (is_l, ← at_b)
                  (All-set _ (bucket_at h b) i y (v.placed b)
                    (ap (λ c. hash_bucket c h.buckets) code ∙ belongs))
            | inr (_, kept) ↦ rw kept (v.placed n)
          ];
          once = λ c. omega (arith, totals (matches c), ap to_nat (same c), v.once c);
        },
        totals,
      )
