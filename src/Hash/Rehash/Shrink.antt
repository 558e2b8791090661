-- ===== src/Hash/Rehash/Shrink.antt =====
-- hash.c, `rehash` with SVZ_HASH_SHRINK: the loop over the upper half.
use serveez.Base.{
  Bool, List, [], ap, arith, get_or-take, length, length-take, refl, take, take-set, ℕ, ◌%◌, ◌++◌,
  ◌+◌, ◌-◌, ◌<◌, ◌^◌, ◌∙◌, ◌∷◌, ◌≡◌, ◌≤◌,
}
use serveez.Hash.{
  Bucket, Entry, SvzHash, append_entry, bucket_at, hash_bucket, shrink_bucket, shrink_buckets,
}
use serveez.Hash.Bucket.{append_entry_facts}
use serveez.Hash.Rehash.{Done, append_entry-Done}
use serveez.Hash.Table.{count, count-append, to_nat, total, total-set}

module _ {K : Type 0} (half : ℕ) where
  abbrev low : (Entry K → Bool) → SvzHash K → ℕ
  low test h = total test (take half h.table)

  -- Entries were added to the lower half, each to its bucket, and nothing there was moved.
  pub record Lowered (h r : SvzHash K) (added : (Entry K → Bool) → ℕ) : Type 0 where
    pub buckets : r.buckets ≡ h.buckets
    pub keys : r.keys ≡ h.keys
    pub width : length r.table ≡ length h.table
    pub entries : (test : Entry K → Bool) → low test r ≡ low test h + added test
    pub others : (j : ℕ) → Done h j → Done r j

  append_entry-low :
      (h : SvzHash K) (b : ℕ) (e : Entry K) (test : Entry K → Bool)
      → b < half
      → half ≤ length h.table
      → low test (append_entry h b e) ≡ low test h + to_nat (test e)
  unfolding append_entry count
  append_entry-low h b e test inside wide =
      let t = take half h.table in
      let l = bucket_at h b ++ (e ∷ []) in
      ap (total test) (take-set half b h.table l)
      ∙ omega (
        arith,
        total-set test t b l (omega (arith, length-take half h.table)),
        ap (count test) (get_or-take half b h.table [] inside),
        count-append test (bucket_at h b) (e ∷ []),
      )

  -- Every code has a bucket in the lower half.
  abbrev pub Fits : SvzHash K → Type 0
  Fits h = ((c : ℕ) → hash_bucket c h.buckets < half) × (half ≤ length h.table)

  shrink_bucket-Lowered :
      (h : SvzHash K) (l : Bucket K) → Fits h → Lowered h (shrink_bucket h l) (λ test. count test l)
  unfolding shrink_bucket count
  shrink_bucket-Lowered h [] fits = record {
    buckets = refl;
    keys = refl;
    width = refl;
    entries = λ test. omega arith;
    others = λ j d. d;
  }
  shrink_bucket-Lowered h (e ∷ l) (range, wide) =
      let b = hash_bucket e.code h.buckets in
      let mid = append_entry h b e in
      let inside : b < length h.table = omega (arith, range e.code) in
      let (_, _, width, _) = append_entry_facts h b e inside in
      let same : mid.buckets ≡ h.buckets = unfold append_entry in refl in
      let rest = shrink_bucket-Lowered mid l (rw same range, omega (arith, width)) in
      record {
        buckets = rest.buckets ∙ same;
        keys = rest.keys ∙ unfold append_entry in refl;
        width = rest.width ∙ width;
        entries = λ test.
            omega (arith, rest.entries test, append_entry-low h b e test (range e.code) wide);
        others = λ j d. rest.others j (append_entry-Done h e j inside d);
      }

  pub shrink_buckets-Lowered :
      (h : SvzHash K) (bs : List (Bucket K))
      → Fits h
      → Lowered h (shrink_buckets h bs) (λ test. total test bs)
  unfolding shrink_buckets total
  shrink_buckets-Lowered h [] fits = record {
    buckets = refl;
    keys = refl;
    width = refl;
    entries = λ test. omega arith;
    others = λ j d. d;
  }
  shrink_buckets-Lowered h (l ∷ bs) fits =
      let moved = shrink_bucket h l in
      let one = shrink_bucket-Lowered h l fits in
      let mid = record moved { fill = (moved.fill + (2 ^ 64 - 1)) % 2 ^ 64 } in
      let rest =
        shrink_buckets-Lowered mid bs (rw one.buckets fits.0, omega (arith, fits.1, one.width)) in
      record {
        buckets = rest.buckets ∙ one.buckets;
        keys = rest.keys ∙ one.keys;
        width = rest.width ∙ one.width;
        entries = λ test. omega (arith, rest.entries test, one.entries test);
        others = λ j d. rest.others j (one.others j d);
      }
