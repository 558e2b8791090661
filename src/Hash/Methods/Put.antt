-- ===== src/Hash/Methods/Put.antt =====
-- hash.c, `svz_hash_put`.
use mathlib.Core.Path.{fun_ext}
use serveez.Base.{
  Bool, Bool-cases, List, ap, arith, get_elem?, inl, inr, length, ltb, none, refl, set, some, suc,
  true, ℕ, ◌%◌, ◌+◌, ◌<◌, ◌==◌, ◌^◌, ◌∙◌, ◌≡◌,
}
use serveez.Hash.{Bucket, Entry, SvzHash, append_entry, bucket_at, hash_expand_limit}
use serveez.Hash.Bucket.{append_entry_facts}
use serveez.Hash.Invariant.{IsTable, IsValid, hash_bucket-lt}
use serveez.Hash.Keys.{Keys}
use serveez.Hash.Methods.{Updates, le_one, matches-differ, matches-equal, new_matches, or_null}
use serveez.Hash.Methods.Facts.{added_views, replaced, replaced-IsTable, replaced_views}
use serveez.Hash.Ops.{
  grow_if_filled, home, matches, new_entry, put_new, replace_value, search_home, svz_hash_put,
}
use serveez.Hash.Rehash.{append_entry-Done}
use serveez.Hash.Rehash.Valid.{Rehashed, rehash_expand-Rehashed}
use serveez.Hash.Table.{count-le-total, to_nat, total}
use serveez.Hash.View.{count_at, search_cases, view}

module _ {K : Type 0} ⦃ops : Keys K⦄ where
  pub IsTable-keys : (h : SvzHash K) (k n : ℕ) → IsTable h k → IsTable (record h { keys = n }) k
  IsTable-keys h k n v = record {
    power = v.power;
    some_buckets = v.some_buckets;
    small = v.small;
    width = v.width;
    placed = v.placed;
    once = v.once;
  }

  replace_value_lem :
      (l : Bucket K) (i value : ℕ) (x : Entry K)
      → get_elem? l i ≡ some x
      → replace_value l i value ≡ set l i (record x { value = value })
  unfolding replace_value
  replace_value_lem l i value x here = rw (here, replace_value)

  put_found :
      (h : SvzHash K) (key : K) (value i : ℕ) (x : Entry K)
      → search_home h key ≡ some i
      → get_elem? (bucket_at h (home h key)) i ≡ some x
      → svz_hash_put h key value ≡ (x.value, replaced h (home h key) i (record x { value = value }))
  unfolding svz_hash_put
  put_found h key value i x found here =
      rw (found, svz_hash_put, here)
        (ap (λ l. (x.value, record h { table = set h.table (home h key) l }))
          (replace_value_lem (bucket_at h (home h key)) i value x here))

  put_missing :
      (h : SvzHash K) (key : K) (value : ℕ)
      → search_home h key ≡ none
      → svz_hash_put h key value ≡ (0, put_new h key value)
  unfolding svz_hash_put
  put_missing h key value e = rw (e, svz_hash_put)

  pub home-lt : (h : SvzHash K) (k : ℕ) (key : K) → IsTable h k → home h key < length h.table
  home-lt h k key v = rw v.width (hash_bucket-lt (ops.code key) h.buckets k v.power v.small)

  pub total-equal :
      (a b : K) (t : List (Bucket K))
      → ops.equals a b ≡ true
      → total (matches a) t ≡ total (matches b) t
  total-equal a b t same = ap (λ p. total p t) (fun_ext λ e. matches-equal a b e same)

  appended-IsTable :
      (h : SvzHash K) (k : ℕ) (key : K) (value : ℕ)
      → IsTable h k
      → total (matches key) h.table ≡ 0
      → IsTable (append_entry h (home h key) (new_entry key value)) k
  appended-IsTable h k key value v absent =
      let e = new_entry key value in
      let (_, _, width, totals) = append_entry_facts h (home h key) e (home-lt h k key v) in
      record {
        power = unfold append_entry in v.power;
        some_buckets = unfold append_entry in v.some_buckets;
        small = unfold append_entry in v.small;
        width = width ∙ unfold append_entry in v.width;
        placed = λ n. append_entry-Done h e n (home-lt h k key v) (v.placed n);
        once = λ c. elim (Bool-cases (ops.equals key c)) [
          | inl same ↦
              omega
                (arith, totals (matches c), total-equal key c h.table same, le_one (matches c e))
          | inr differ ↦
              let off = matches-differ key c e differ (new_matches key value) in
              omega (arith, totals (matches c), ap to_nat off, v.once c)
        ];
      }

  grow-Rehashed :
      (h : SvzHash K) (k : ℕ)
      → IsTable h k
      → h.buckets < 2 ^ 59
      → (j : ℕ) × Rehashed h (grow_if_filled h) j
  unfolding grow_if_filled
  grow-Rehashed h k v small = elim (Bool-cases (ltb (hash_expand_limit h.buckets) h.fill)) [
    | inl e ↦ (suc k, rw e (rehash_expand-Rehashed h k v small))
    | inr e ↦ (k, rw e (record { valid = v; keys = refl; entries = λ test. refl }))
  ]

  put_new-Updates :
      (h : SvzHash K) (k : ℕ) (key : K) (value : ℕ)
      → IsValid h k
      → h.buckets < 2 ^ 59
      → h.keys < 2 ^ 60
      → view h key ≡ none
      → total (matches key) h.table ≡ 0
      → Updates h (put_new h key value) key (some value)
  unfolding put_new
  put_new-Updates h k key value v small few absent empty =
      let b = home h key in
      let e = new_entry key value in
      let more = append_entry h b e in
      let n = (h.keys + 1) % 2 ^ 64 in
      let counted = record more { keys = n } in
      let table = IsTable-keys more k n (appended-IsTable h k key value v.table empty) in
      let (_, _, _, totals) = append_entry_facts h b e (home-lt h k key v.table) in
      let (j, grown) = grow-Rehashed counted k table (unfold append_entry in small) in
      let settle : (r : SvzHash K) (j : ℕ) → Rehashed counted r j → Updates h r key (some value) =
        λ r j done.
          let all = λ (test : Entry K → Bool). done.entries test ∙ totals test in
          record {
            power = j;
            valid = record {
              table = done.valid;
              counted = all (λ x. true) ∙ omega (arith, v.counted, done.keys);
            };
            views = added_views h r k j key v.table done.valid e (new_matches key value) all;
            size = rw absent (omega (arith, done.keys));
          } in
      elim (Bool-cases (length (bucket_at h b) == 0)) [
        | inl t ↦ rw t (settle (grow_if_filled counted) j grown)
        | inr f ↦
            rw f (settle counted k (record { valid = table; keys = refl; entries = λ test. refl }))
      ]

  -- `svz_hash_put` returns the value that the key had, or NULL; then the key, and every equal
  -- one, has the new value, all others are as before, and the count grows by one if the key is
  -- new. The table stays valid, also where it is doubled.
  pub put-Updates :
      (h : SvzHash K) (k : ℕ) (key : K) (value : ℕ)
      → IsValid h k
      → h.buckets < 2 ^ 59
      → h.keys < 2 ^ 60
      → ((svz_hash_put h key value).0 ≡ or_null (view h key))
        × Updates h (svz_hash_put h key value).1 key (some value)
  put-Updates h k key value v small few = elim (search_cases h k key v.table) [
    | inl (e, absent, empty) ↦
        rw (put_missing h key value e)
          (rw absent, put_new-Updates h k key value v small few absent empty)
    | inr (i, x, e, here, hit, there, _) ↦
        let b = home h key in
        let y = record x { value = value } in
        let (table, totals) =
          replaced-IsTable h k b i x y v.table (home-lt h k key v.table) here refl (λ c. refl) in
        rw (put_found h key value i x e here) (
          rw there,
          record {
            power = k;
            valid = record {
              table = table;
              counted = omega (arith, totals (λ z. true), v.counted);
            };
            views =
                replaced_views h (replaced h b i y) k k key v.table table x y hit hit
                  (λ test.
                    omega (
                      arith,
                      count_at test (bucket_at h b) i x here,
                      count-le-total test h.table b,
                    ))
                  totals;
            size = rw there;
          },
        )
  ]
