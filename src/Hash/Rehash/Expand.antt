-- ===== src/Hash/Rehash/Expand.antt =====
-- hash.c, `rehash` with SVZ_HASH_EXPAND.
use mathlib.Core.Path.{subst, subst₂}
use native.Mathlib.Numerals.{add-one}
use serveez.Base.{
  ==_cases, All, All-append, Option-cases, [], ap, arith, get_elem?, get_elem?-none, inl, inr,
  length, refl, some, suc, sym, take, take-snoc, take_all, zero, ℕ, ◌++◌, ◌+◌, ◌<◌, ◌∙◌, ◌∷◌, ◌≡◌,
  ◌≢◌, ◌≤◌,
}
use serveez.Hash.{
  Entry, SvzHash, append_entry, bucket_at, expand_bucket, expand_buckets, hash_bucket, remove_entry,
  swap_remove,
}
use serveez.Hash.Bucket.{append_entry_facts, remove_entry_facts, swap_remove_facts}
use serveez.Hash.Rehash.{
  Done, Done-eq, IsRanged, Moved, Moved-IsRanged, Moved-refl, Moved-trans, append_entry-Done,
}

module _ {K : Type 0} where
  -- One relocation: entry `e` of bucket `n` goes to another bucket.
  abbrev relocate : SvzHash K → ℕ → ℕ → Entry K → SvzHash K
  relocate h n i e = remove_entry (append_entry h (hash_bucket e.code h.buckets) e) n i

  relocate_facts :
      (h : SvzHash K) (n i : ℕ) (e : Entry K)
      → IsRanged h
      → n < length h.table
      → get_elem? (bucket_at h n) i ≡ some e
      → n ≢ hash_bucket e.code h.buckets
      → Moved h (relocate h n i e)
        × (bucket_at (relocate h n i e) n ≡ swap_remove (bucket_at h n) i)
        × ((j : ℕ) → n ≢ j → Done h j → Done (relocate h n i e) j)
  relocate_facts h n i e ranged inside found ne =
      let b = hash_bucket e.code h.buckets in
      let mid = append_entry h b e in
      let (_, there, width, more) = append_entry_facts h b e (ranged e.code) in
      let same : bucket_at mid n ≡ bucket_at h n = there n (λ q. ne (sym q)) in
      let (gone, others, width', less) =
        remove_entry_facts mid n i e (rw width inside) (rw same found) in
      (
        record {
          buckets = unfold remove_entry append_entry in refl;
          keys = unfold remove_entry append_entry in refl;
          width = width' ∙ width;
          entries = λ test. omega (arith, more test, less test);
        },
        gone ∙ ap (λ l. swap_remove l i) same,
        λ j nj d.
            Done-eq mid (relocate h n i e) j (unfold remove_entry in refl) (others j nj)
              (append_entry-Done h e j (ranged e.code) d),
      )

  module _ (h : SvzHash K) (r : SvzHash K) where
    -- The result `r` of the loop over bucket `n` of `h`.
    pub record Swept (n : ℕ) : Type 0 where
      pub moved : Moved h r
      pub done : Done r n
      pub others : (j : ℕ) → Done h j → Done r j

  pub expand_bucket-Swept :
      (left : ℕ) (h : SvzHash K) (n i : ℕ)
      → IsRanged h
      → n < length h.table
      → length (bucket_at h n) ≤ i + left
      → All (λ (e : Entry K). hash_bucket e.code h.buckets ≡ n) (take i (bucket_at h n))
      → Swept h (expand_bucket left h n i) n
  unfolding expand_bucket
  expand_bucket-Swept zero h n i ranged inside few done = record {
    moved = Moved-refl h;
    done = rw (take_all i (bucket_at h n) (omega arith)) at done;
    others = λ j d. d;
  }
  expand_bucket-Swept (suc left) h n i ranged inside few done =
      elim (Option-cases (get_elem? (bucket_at h n) i)) [
        | inl e ↦
            rw (e, expand_bucket)
              (record {
                moved = Moved-refl h;
                done = rw (take_all i (bucket_at h n) (get_elem?-none (bucket_at h n) i e)) at done;
                others = λ j d. d;
              })
        | inr (e, found) ↦ elim (==_cases n (hash_bucket e.code h.buckets)) [
          | inl (t, stays) ↦
              let longer : take (i + 1) (bucket_at h n) ≡ take i (bucket_at h n) ++ (e ∷ []) =
                ap (λ k. take k (bucket_at h n)) (add-one i)
                ∙ take-snoc i (bucket_at h n) e found in
              rw (found, t, expand_bucket)
                (expand_bucket-Swept left h n (i + 1) ranged inside (omega arith) (
                  subst (All (λ (x : Entry K). hash_bucket x.code h.buckets ≡ n)) (sym longer)
                    (All-append _ (take i (bucket_at h n)) (e ∷ []) done (sym stays, tt))))
          | inr (f, leaves) ↦
              let (moved, gone, others) = relocate_facts h n i e ranged inside found leaves in
              let (shorter, front, _) = swap_remove_facts (bucket_at h n) i e found in
              let rest =
                expand_bucket-Swept left (relocate h n i e) n i (Moved-IsRanged moved ranged)
                  (rw moved.width inside) (omega (arith, ap length gone, shorter))
                  (subst₂ (λ b l. All (λ (x : Entry K). hash_bucket x.code b ≡ n) l)
                    (sym moved.buckets) (sym (ap (take i) gone ∙ front)) done) in
              rw (found, f, expand_bucket)
                (record {
                  moved = Moved-trans moved rest.moved;
                  done = rest.done;
                  others = λ j d. elim (==_cases n j) [
                    | inl (_, same) ↦
                        subst (Done (expand_bucket left (relocate h n i e) n i)) same rest.done
                    | inr (_, other) ↦ rest.others j (others j other d)
                  ];
                })
        ]
      ]

  -- The result `r` of the loop over the buckets from `n` on: each is done, and what was done stays.
  pub record AllSwept (h r : SvzHash K) (n last : ℕ) : Type 0 where
    pub moved : Moved h r
    pub done : (j : ℕ) → n ≤ j → j < last → Done r j
    pub others : (j : ℕ) → Done h j → Done r j

  pub expand_buckets-AllSwept :
      (left : ℕ) (h : SvzHash K) (n : ℕ)
      → IsRanged h
      → n + left ≤ length h.table
      → AllSwept h (expand_buckets left h n) n (n + left)
  unfolding expand_buckets
  expand_buckets-AllSwept zero h n ranged inside = record {
    moved = Moved-refl h;
    done = λ j lo hi. absurd (omega arith);
    others = λ j d. d;
  }
  expand_buckets-AllSwept (suc left) h n ranged inside =
      let one =
        expand_bucket-Swept (length (bucket_at h n)) h n 0 ranged (omega arith) (omega arith) tt in
      let mid = expand_bucket (length (bucket_at h n)) h n 0 in
      let rest =
        expand_buckets-AllSwept left mid (n + 1) (Moved-IsRanged one.moved ranged)
          (omega (arith, one.moved.width)) in
      record {
        moved = Moved-trans one.moved rest.moved;
        done = λ j lo hi. elim (==_cases n j) [
          | inl (_, same) ↦ rest.others j (subst (Done mid) same one.done)
          | inr (_, other) ↦ rest.done j (omega arith) (omega arith)
        ];
        others = λ j d. rest.others j (one.others j d);
      }
