-- ===== src/Hash/Iterate.antt =====
-- hash.c: the functions that walk the whole table.
use serveez.Base.{
  List, Option, [], ap, arith, if◌then◌else◌, inl, inr, length, ltb, ltb_cases, map, none, refl,
  some, sym, true, ℕ, ◌++◌, ◌+◌, ◌==◌, ◌↔◌, ◌∷◌, ◌≡◌,
}
use serveez.Hash.{Bucket, Entry, SvzHash}
use serveez.Hash.Table.{count, total}

module _ {K : Type 0} where
  abbrev pair : Entry K → K × ℕ
  pair e = (e.key, e.value)

  -- The buckets from one on, with `i` entries visited before. The callback is called on each
  -- pair in order.
  foreach_buckets : ℕ → ℕ → List (Bucket K) → List (K × ℕ)
  foreach_buckets keys i [] = []
  foreach_buckets keys i (b ∷ bs) =
      let rest = map pair b ++ foreach_buckets keys (i + length b) bs in
      if ltb i keys then rest else []

  pub svz_hash_foreach : SvzHash K → List (K × ℕ)
  svz_hash_foreach h = foreach_buckets h.keys 0 h.table

  -- `svz_free` on a key, `destroy` on a value if the callback is set.
  destroy_buckets : List (Bucket K) → List (K × ℕ)
  destroy_buckets [] = []
  destroy_buckets (b ∷ bs) = map pair b ++ destroy_buckets bs

  -- The keys that are freed, and the values that are destroyed.
  pub svz_hash_destroy : Option (SvzHash K) → List K × List ℕ
  svz_hash_destroy none = ([], [])
  svz_hash_destroy (some h) =
      let all = destroy_buckets h.table in
      (map (λ p. p.0) all, if h.destroy then map (λ p. p.1) all else [])

  unfoldable pub svz_hash_size : Option (SvzHash K) → ℕ
  svz_hash_size none = 0
  svz_hash_size (some h) = h.keys

  contains_bucket : ℕ → Bucket K → Option K
  contains_bucket value [] = none
  contains_bucket value (e ∷ l) = if e.value == value then some e.key else contains_bucket value l

  contains_buckets : ℕ → List (Bucket K) → Option K
  contains_buckets value [] = none
  contains_buckets value (b ∷ bs) = elim (contains_bucket value b) [
    | none ↦ contains_buckets value bs
    | some key ↦ some key
  ]

  pub svz_hash_contains : SvzHash K → ℕ → Option K
  svz_hash_contains h value = contains_buckets value h.table

  flatten_empty : (t : List (Bucket K)) → total (λ e. true) t ≡ 0 → destroy_buckets t ≡ []
  unfolding destroy_buckets total count
  flatten_empty [] h = refl
  flatten_empty ([] ∷ t) h = flatten_empty t (omega arith)
  flatten_empty ((e ∷ l) ∷ t) h = absurd (omega arith)

  count_all : (l : Bucket K) → count (λ e. true) l ≡ length l
  unfolding count
  count_all [] = refl
  count_all (e ∷ l) = omega (arith, count_all l)

  foreach_buckets_lem :
      (keys i : ℕ) (t : List (Bucket K))
      → i + total (λ e. true) t ≡ keys
      → foreach_buckets keys i t ≡ destroy_buckets t
  unfolding foreach_buckets destroy_buckets total
  foreach_buckets_lem keys i [] h = refl
  foreach_buckets_lem keys i (b ∷ bs) h = elim (ltb_cases i keys) [
    | inl (e, _) ↦ rw e (
        ap (λ l. map pair b ++ l)
          (foreach_buckets_lem keys (i + length b) bs (omega (arith, count_all b))))
    | inr (e, le) ↦ rw e (sym (flatten_empty (b ∷ bs) (unfold total in omega arith)))
  ]

  -- The loop of `svz_hash_foreach` stops when it has seen `keys` entries, and skips none: it
  -- visits the pairs whose keys `svz_hash_destroy` frees and whose values it destroys, in the
  -- same order.
  pub foreach-destroy :
      (h : SvzHash K)
      → total (λ e. true) h.table ≡ h.keys
      → svz_hash_destroy (some h) ≡ (
        map (λ p. p.0) (svz_hash_foreach h),
        if h.destroy then map (λ p. p.1) (svz_hash_foreach h) else [],
      )
  unfolding svz_hash_foreach svz_hash_destroy
  foreach-destroy h counted = rw (foreach_buckets_lem h.keys 0 h.table (omega arith))

  contains_bucket_lem :
      (value : ℕ) (l : Bucket K)
      → (contains_bucket value l ≡ none) ↔ (count (λ e. e.value == value) l ≡ 0)
  unfolding contains_bucket count
  contains_bucket_lem value [] = (λ h. refl, λ h. refl)
  contains_bucket_lem value (e ∷ l) = ground (arith, contains_bucket_lem value l)

  contains_buckets_lem :
      (value : ℕ) (t : List (Bucket K))
      → (contains_buckets value t ≡ none) ↔ (total (λ e. e.value == value) t ≡ 0)
  unfolding contains_buckets total
  contains_buckets_lem value [] = (λ h. refl, λ h. refl)
  contains_buckets_lem value (b ∷ bs) =
      ground (arith, contains_bucket_lem value b, contains_buckets_lem value bs)

  -- `svz_hash_contains` returns NULL exactly when no entry has the value.
  pub contains-none :
      (h : SvzHash K) (value : ℕ)
      → (svz_hash_contains h value ≡ none) ↔ (total (λ e. e.value == value) h.table ≡ 0)
  unfolding svz_hash_contains
  contains-none h value = contains_buckets_lem value h.table
