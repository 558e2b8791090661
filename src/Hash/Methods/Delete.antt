-- ===== src/Hash/Methods/Delete.antt =====
-- hash.c, `svz_hash_delete`.
use mathlib.Core.Path.{subst, subst₂}
use serveez.Base.{
  ==_cases, All, Bool, Bool-cases, ap, arith, get_elem?, get_elem?-some, if◌then◌else◌, inl, inr,
  length, ltb, ltb_cases, none, refl, some, suc, sym, true, zero, ℕ, ◌%◌, ◌+◌, ◌-◌, ◌<◌, ◌==◌, ◌^◌,
  ◌∙◌, ◌≡◌, ◌≤◌,
}
use serveez.Hash.{
  Bucket, Entry, SvzHash, bucket_at, hash_bucket, hash_shrink_limit, rehash_shrink, remove_entry,
}
use serveez.Hash.Bucket.{All-swap_remove, remove_entry_facts}
use serveez.Hash.Invariant.{IsTable, IsValid}
use serveez.Hash.Keys.{Keys}
use serveez.Hash.Methods.{Updates, matches-differ, matches-equal, or_null}
use serveez.Hash.Methods.Put.{IsTable-keys, home-lt, total-equal}
use serveez.Hash.Ops.{drop_entry, home, matches, search_home, shrink_if_empty, svz_hash_delete}
use serveez.Hash.Rehash.{Done, Done-eq}
use serveez.Hash.Rehash.Valid.{Rehashed, rehash_shrink-Rehashed}
use serveez.Hash.Table.{to_nat, total}
use serveez.Hash.View.{holds, search_cases, view, view_of_none, view_same}

module _ {K : Type 0} ⦃ops : Keys K⦄ where
  delete_found :
      (h : SvzHash K) (key : K) (i : ℕ) (x : Entry K)
      → search_home h key ≡ some i
      → get_elem? (bucket_at h (home h key)) i ≡ some x
      → svz_hash_delete h key ≡ (x.value, drop_entry h (home h key) i)
  unfolding svz_hash_delete
  delete_found h key i x found here = rw (found, svz_hash_delete, here)

  delete_missing :
      (h : SvzHash K) (key : K) → search_home h key ≡ none → svz_hash_delete h key ≡ (0, h)
  unfolding svz_hash_delete
  delete_missing h key e = rw (e, svz_hash_delete)

  Done-bucket :
      (h r : SvzHash K) (b n : ℕ) {l : Bucket K}
      → r.buckets ≡ h.buckets
      → b ≡ n
      → bucket_at r b ≡ l
      → All (λ (e : Entry K). hash_bucket e.code h.buckets ≡ b) l
      → Done r n
  Done-bucket h r b n same at_b is_l p =
      subst (Done r) at_b
        (subst₂ (λ m l. All (λ (e : Entry K). hash_bucket e.code m ≡ b) l) (sym same) (sym is_l) p)

  removed-IsTable :
      (h : SvzHash K) (k b i : ℕ) (x : Entry K)
      → IsTable h k
      → b < length h.table
      → get_elem? (bucket_at h b) i ≡ some x
      → IsTable (remove_entry h b i) k
  removed-IsTable h k b i x v inside here =
      let (gone, others, width, totals) = remove_entry_facts h b i x inside here in
      let same : (remove_entry h b i).buckets ≡ h.buckets = unfold remove_entry in refl in
      record {
        power = same ∙ v.power;
        some_buckets = omega (arith, same, v.some_buckets);
        small = omega (arith, same, v.small);
        width = width ∙ v.width ∙ sym same;
        placed = λ n. elim (==_cases b n) [
          | inl (_, at_b) ↦ Done-bucket h (remove_entry h b i) b n same at_b gone (
              All-swap_remove _ (bucket_at h b) i (get_elem?-some (bucket_at h b) i x here)
                (v.placed b))
          | inr (_, ne) ↦ Done-eq h (remove_entry h b i) n same (others n ne) (v.placed n)
        ];
        once = λ c. omega (arith, totals (matches c), v.once c);
      }

  shrink_any : (h : SvzHash K) (k : ℕ) → IsTable h k → (j : ℕ) × Rehashed h (rehash_shrink h) j
  shrink_any h zero v = absurd (omega (arith, v.power, v.some_buckets))
  shrink_any h (suc k) v = elim (ltb_cases 4 h.buckets) [
    | inl (_, more) ↦ (k, rehash_shrink-Rehashed h k v more)
    | inr (e, _) ↦ (
      suc k,
      unfold rehash_shrink in rw e (record { valid = v; keys = refl; entries = λ test. refl }),
    )
  ]

  shrink-Rehashed :
      (h : SvzHash K) (k : ℕ) → IsTable h k → (j : ℕ) × Rehashed h (shrink_if_empty h) j
  unfolding shrink_if_empty
  shrink-Rehashed h k v = elim (Bool-cases (ltb h.fill (hash_shrink_limit h.buckets))) [
    | inl e ↦ rw e (shrink_any h k v)
    | inr e ↦ (k, rw e (record { valid = v; keys = refl; entries = λ test. refl }))
  ]

  -- The entry of a key is gone, all others are as before.
  removed_views :
      (h r : SvzHash K) (k j : ℕ) (key : K) (x : Entry K)
      → IsTable h k
      → IsTable r j
      → matches key x ≡ true
      → ((test : Entry K → Bool) → total test r.table + to_nat (test x) ≡ total test h.table)
      → (c : K) → view r c ≡ (if ops.equals key c then none else view h c)
  removed_views h r k j key x p q hit totals c = elim (Bool-cases (ops.equals key c)) [
    | inl same ↦
        let one : to_nat (matches c x) ≡ 1 = ground (arith, matches-equal key c x same) in
        rw same (view_of_none r j c q (omega (arith, totals (matches c), one, p.once c)))
    | inr differ ↦
        let off = matches-differ key c x differ hit in
        rw differ (
          view_same h r k j c p q (omega (arith, totals (matches c), ap to_nat off)) (λ v.
            let none_held : to_nat (holds c v x) ≡ 0 = ground (arith, off) in
            omega (arith, totals (holds c v), none_held)))
  ]

  drop_entry-Updates :
      (h : SvzHash K) (k : ℕ) (key : K) (i : ℕ) (x : Entry K)
      → IsValid h k
      → h.keys < 2 ^ 60
      → get_elem? (bucket_at h (home h key)) i ≡ some x
      → matches key x ≡ true
      → view h key ≡ some x.value
      → Updates h (drop_entry h (home h key) i) key none
  unfolding drop_entry
  drop_entry-Updates h k key i x v few here hit there =
      let b = home h key in
      let less = remove_entry h b i in
      let inside = home-lt h k key v.table in
      let (_, _, _, totals) = remove_entry_facts h b i x inside here in
      let table = removed-IsTable h k b i x v.table inside here in
      let (j, shrunk) = shrink-Rehashed less k table in
      let keys : less.keys ≡ h.keys = unfold remove_entry in refl in
      let settle : (fit : SvzHash K) (j : ℕ)
          → Rehashed less fit j
          → Updates h (record fit { keys = (fit.keys + (2 ^ 64 - 1)) % 2 ^ 64 }) key none =
        λ fit j done.
          let n = (fit.keys + (2 ^ 64 - 1)) % 2 ^ 64 in
          let all = λ (test : Entry K → Bool).
            ap (λ t. t + to_nat (test x)) (done.entries test) ∙ totals test in
          let one : 1 ≤ h.keys = omega (arith, v.counted, all (λ z. true)) in
          let down : n + 1 ≡ h.keys = omega (arith, done.keys, keys, one) in
          record {
            power = j;
            valid = record {
              table = IsTable-keys fit j n done.valid;
              counted = omega (arith, all (λ z. true), v.counted, down);
            };
            views =
                removed_views h (record fit { keys = n }) k j key x v.table
                  (IsTable-keys fit j n done.valid) hit all;
            size = rw there (omega (arith, down));
          } in
      elim (Bool-cases (length (bucket_at h b) == 1)) [
        | inl t ↦ rw t (settle (shrink_if_empty less) j shrunk)
        | inr f ↦
            rw f (settle less k (record { valid = table; keys = refl; entries = λ test. refl }))
      ]

  -- `svz_hash_delete` returns the value that the key had, or NULL; then the key and every equal
  -- one is absent, all others are as before, and the count falls by one if the key was there.
  -- The table stays valid, also where it is halved.
  pub delete-Updates :
      (h : SvzHash K) (k : ℕ) (key : K)
      → IsValid h k
      → h.keys < 2 ^ 60
      → ((svz_hash_delete h key).0 ≡ or_null (view h key))
        × Updates h (svz_hash_delete h key).1 key none
  delete-Updates h k key v few = elim (search_cases h k key v.table) [
    | inl (e, absent, empty) ↦ rw (delete_missing h key e) (
      rw absent,
      record {
        power = k;
        valid = v;
        views = λ q. elim (Bool-cases (ops.equals key q)) [
          | inl same ↦
              rw same (view_of_none h k q v.table (sym (total-equal key q h.table same) ∙ empty))
          | inr differ ↦ rw differ
        ];
        size = rw absent;
      },
    )
    | inr (i, x, e, here, hit, there, _) ↦
        rw (delete_found h key i x e here)
          (rw there, drop_entry-Updates h k key i x v few here hit there)
  ]
