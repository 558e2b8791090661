-- ===== src/Hash/Rehash.antt =====
-- hash.c, `rehash`: the two loops keep every entry and put each into the bucket of its code.
pub mod Expand
pub mod Shrink
pub mod Valid
use mathlib.Core.Path.{subst₂}
use serveez.Base.{
  ==_cases, All, All-append, Bool, [], inl, inr, length, refl, sym, ℕ, ◌<◌, ◌∙◌, ◌∷◌, ◌≡◌,
}
use serveez.Hash.{Entry, SvzHash, append_entry, bucket_at, hash_bucket}
use serveez.Hash.Bucket.{append_entry_facts}
use serveez.Hash.Table.{total}

module _ {K : Type 0} where
  -- Every entry of bucket `i` belongs there.
  abbrev pub Done : SvzHash K → ℕ → Type 0
  Done h i = All (λ (e : Entry K). hash_bucket e.code h.buckets ≡ i) (bucket_at h i)

  pub Done-eq :
      (h r : SvzHash K) (j : ℕ)
      → r.buckets ≡ h.buckets
      → bucket_at r j ≡ bucket_at h j
      → Done h j
      → Done r j
  Done-eq h r j same here d =
      subst₂ (λ b l. All (λ (e : Entry K). hash_bucket e.code b ≡ j) l) (sym same) (sym here) d

  -- Every code has a bucket.
  abbrev pub IsRanged : SvzHash K → Type 0
  IsRanged h = (c : ℕ) → hash_bucket c h.buckets < length h.table

  -- The same entries, as often, in a table of the same shape.
  pub record Moved (h r : SvzHash K) : Type 0 where
    pub buckets : r.buckets ≡ h.buckets
    pub keys : r.keys ≡ h.keys
    pub width : length r.table ≡ length h.table
    pub entries : (test : Entry K → Bool) → total test r.table ≡ total test h.table

  pub Moved-refl : (h : SvzHash K) → Moved h h
  Moved-refl h = record { buckets = refl; keys = refl; width = refl; entries = λ test. refl }

  pub Moved-trans : {h r s : SvzHash K} → Moved h r → Moved r s → Moved h s
  Moved-trans p q = record {
    buckets = q.buckets ∙ p.buckets;
    keys = q.keys ∙ p.keys;
    width = q.width ∙ p.width;
    entries = λ test. q.entries test ∙ p.entries test;
  }

  pub Moved-IsRanged : {h r : SvzHash K} → Moved h r → IsRanged h → IsRanged r
  Moved-IsRanged m ranged c = rw (m.buckets, m.width) (ranged c)

  -- Appending an entry to its bucket leaves what is in place.
  pub append_entry-Done :
      (h : SvzHash K) (e : Entry K) (i : ℕ)
      → hash_bucket e.code h.buckets < length h.table
      → Done h i
      → Done (append_entry h (hash_bucket e.code h.buckets) e) i
  append_entry-Done h e i inside done =
      let b = hash_bucket e.code h.buckets in
      let (here, there, _, _) = append_entry_facts h b e inside in
      let kept : (append_entry h b e).buckets ≡ h.buckets = unfold append_entry in refl in
      elim (==_cases b i) [
        | inl (_, same) ↦
            rw (kept, ← same, here)
              (All-append _ (bucket_at h b) (e ∷ []) (rw same done) (refl, tt))
        | inr (_, ne) ↦ rw (kept, there i ne) done
      ]
