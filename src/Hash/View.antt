-- ===== src/Hash/View.antt =====
-- hash.c: the map from keys to values that a table stands for, and how it follows from counts.
use mathlib.Core.Option
use serveez.Base.{
  ==_cases, ==_iff, All, Bool, Bool-cases, List, Option, Option-cases, [], ap, arith, get_elem?,
  inl, inr, none, refl, some, suc, sym, true, zero, ℕ, ◌&&◌, ◌<◌, ◌==◌, ◌∙◌, ◌∷◌, ◌≡◌, ◌≢◌, ◌≤◌,
  ◌⊎◌,
}
use serveez.Hash.{Bucket, Entry, SvzHash, bucket_at, find_index, hash_bucket}
use serveez.Hash.Invariant.{IsTable}
use serveez.Hash.Keys.{Keys}
use serveez.Hash.Ops.{home, matches, search_home}
use serveez.Hash.Table.{count, count-le-total, to_nat, total, total_only}

module _ {A : Type 0} where
  -- A test that is stronger counts no more.
  pub count_mono :
      (p q : A → Bool) (l : List A) → ((x : A) → p x ≡ true → q x ≡ true) → count p l ≤ count q l
  unfolding count
  count_mono p q [] h = omega arith
  count_mono p q (x ∷ l) h = ground (arith, h x, count_mono p q l h)

  pub count_at :
      (p : A → Bool) (l : List A) (i : ℕ) (x : A)
      → get_elem? l i ≡ some x
      → to_nat (p x) ≤ count p l
  unfolding count
  count_at p [] i x h = cc
  count_at p (y ∷ l) zero x h = ground arith
  count_at p (y ∷ l) (suc i) x h = omega (arith, count_at p l i x h)

suc-ne-zero : (o : Option ℕ) → Option.map suc o ≡ some 0 → ⊥
suc-ne-zero none h = cc
suc-ne-zero (some n) h = ground arith

zero-ne-suc : (i : ℕ) → ◌≡◌ {A = Option ℕ} (some 0) (some (suc i)) → ⊥
zero-ne-suc i h = ground arith

suc-injective_map : (o : Option ℕ) (i : ℕ) → Option.map suc o ≡ some (suc i) → o ≡ some i
suc-injective_map none i h = cc
suc-injective_map (some n) i h = ground arith

module _ {K : Type 0} where
  pub find_index-none :
      (test : Entry K → Bool) (l : Bucket K) → find_index test l ≡ none → count test l ≡ 0
  unfolding find_index count
  find_index-none test [] h = refl
  find_index-none test (e ∷ l) h = ground (arith, find_index-none test l)

  pub find_index-some :
      (test : Entry K → Bool) (l : Bucket K) (i : ℕ)
      → find_index test l ≡ some i
      → (e : Entry K) × (get_elem? l i ≡ some e) × (test e ≡ true)
  unfolding find_index
  find_index-some test [] i h = cc
  find_index-some test (e ∷ l) zero h = elim (Bool-cases (test e)) [
    | inl t ↦ (e, refl, t)
    | inr f ↦ absurd (suc-ne-zero (find_index test l) (rw f at h))
  ]
  find_index-some test (e ∷ l) (suc i) h = elim (Bool-cases (test e)) [
    | inl t ↦ absurd (zero-ne-suc i (rw t at h))
    | inr f ↦ find_index-some test l i (suc-injective_map (find_index test l) i (rw f at h))
  ]

  -- The first hit is the only one, so what holds of some hit holds of it.
  pub find_index-only :
      (test p : Entry K → Bool) (l : Bucket K)
      → count test l ≤ 1
      → 0 < count (λ e. test e && p e) l
      → (i : ℕ) × (e : Entry K) × (find_index test l ≡ some i)
        × (get_elem? l i ≡ some e)
        × (p e ≡ true)
  unfolding find_index count
  find_index-only test p [] few hit = absurd (omega arith)
  find_index-only test p (e ∷ l) few hit = elim (Bool-cases (test e)) [
    | inl t ↦
        let rest : count (λ x. test x && p x) l ≤ count test l =
          count_mono (λ x. test x && p x) test l (λ x b. ground arith) in
        (0, e, rw t, refl, ground arith)
    | inr f ↦
        let (i, x, found, here, holds) = find_index-only test p l (ground arith) (ground arith) in
        (suc i, x, rw (f, found), here, holds)
  ]

module _ {K : Type 0} ⦃ops : Keys K⦄ where
  -- The value that a table gives a key.
  pub view : SvzHash K → K → Option ℕ
  view h key = elim (search_home h key) [
    | none ↦ none
    | some i ↦ Option.map (λ (e : Entry K). e.value) (get_elem? (bucket_at h (home h key)) i)
  ]

  view_missing : (h : SvzHash K) (key : K) → search_home h key ≡ none → view h key ≡ none
  unfolding view
  view_missing h key e = rw (e, view)

  view_found :
      (h : SvzHash K) (key : K) (i : ℕ) (e : Entry K)
      → search_home h key ≡ some i
      → get_elem? (bucket_at h (home h key)) i ≡ some e
      → view h key ≡ some e.value
  unfolding view
  view_found h key i e found here = rw (found, view, here)

  -- An entry gives the key this value.
  abbrev pub holds : K → ℕ → Entry K → Bool
  holds key v e = matches key e && e.value == v

  count_elsewhere :
      (h : SvzHash K) (key : K) (n : ℕ) (l : Bucket K)
      → home h key ≢ n
      → All (λ (e : Entry K). hash_bucket e.code h.buckets ≡ n) l
      → count (matches key) l ≡ 0
  unfolding count
  count_elsewhere h key n [] ne done = refl
  count_elsewhere h key n (e ∷ l) ne (here, done) = elim (==_cases e.code (ops.code key)) [
    | inl (_, same) ↦ absurd (ne (ap (λ c. hash_bucket c h.buckets) (sym same) ∙ here))
    | inr (f, _) ↦ rw f (omega (arith, count_elsewhere h key n l ne done))
  ]

  -- All entries of a key stand in its bucket.
  total-home :
      (h : SvzHash K) (k : ℕ) (key : K) (p : Entry K → Bool)
      → IsTable h k
      → ((e : Entry K) → p e ≡ true → matches key e ≡ true)
      → total p h.table ≡ count p (bucket_at h (home h key))
  total-home h k key p v stronger = total_only p h.table (home h key) λ n ne. omega (
    arith,
    count_mono p (matches key) (bucket_at h n) stronger,
    count_elsewhere h key n (bucket_at h n) (λ q. ne (sym q)) (v.placed n),
  )

  pub view_of_total :
      (h : SvzHash K) (k : ℕ) (key : K) (v : ℕ)
      → IsTable h k
      → 0 < total (holds key v) h.table
      → view h key ≡ some v
  view_of_total h k key v table hit =
      let l = bucket_at h (home h key) in
      let one = total-home h k key (holds key v) table (λ e b. ground arith) in
      let all = total-home h k key (matches key) table (λ e b. b) in
      let (i, e, found, here, same) =
        find_index-only (matches key) (λ e. e.value == v) l (omega (arith, all, table.once key))
          (omega (arith, one)) in
      view_found h key i e found here ∙ ap some ((==_iff e.value v).0 same)

  pub view_of_none :
      (h : SvzHash K) (k : ℕ) (key : K)
      → IsTable h k
      → total (matches key) h.table ≡ 0
      → view h key ≡ none
  view_of_none h k key table empty = elim (Option-cases (search_home h key)) [
    | inl e ↦ view_missing h key e
    | inr (i, found) ↦
        let l = bucket_at h (home h key) in
        let (e, here, hit) = find_index-some (matches key) l i found in
        let more : to_nat (matches key e) ≡ 1 = ap to_nat hit in
        absurd (
          omega (
            arith,
            more,
            count_at (matches key) l i e here,
            count-le-total (matches key) h.table (home h key),
          ))
  ]

  -- What the search finds is an entry of the key, and the totals say so.
  pub search_cases :
      (h : SvzHash K) (k : ℕ) (key : K)
      → IsTable h k
      → ((search_home h key ≡ none) × (view h key ≡ none) × (total (matches key) h.table ≡ 0))
        ⊎ ((i : ℕ) × (e : Entry K) × (search_home h key ≡ some i)
            × (get_elem? (bucket_at h (home h key)) i ≡ some e)
            × (matches key e ≡ true)
            × (view h key ≡ some e.value)
            × (0 < total (holds key e.value) h.table))
  search_cases h k key table = elim (Option-cases (search_home h key)) [
    | inl e ↦
        let all = total-home h k key (matches key) table (λ x b. b) in
        inl (e, view_missing h key e, omega (arith, all, find_index-none _ _ e))
    | inr (i, found) ↦
        let l = bucket_at h (home h key) in
        let (e, here, hit) = find_index-some (matches key) l i found in
        let held : to_nat (holds key e.value e) ≡ 1 = ground (arith, hit) in
        inr (
          i,
          e,
          found,
          here,
          hit,
          view_found h key i e found here,
          omega (
            arith,
            held,
            count_at (holds key e.value) l i e here,
            count-le-total (holds key e.value) h.table (home h key),
          ),
        )
  ]

  -- Tables with the same entries give a key the same value.
  pub view_same :
      (h r : SvzHash K) (k j : ℕ) (key : K)
      → IsTable h k
      → IsTable r j
      → total (matches key) r.table ≡ total (matches key) h.table
      → ((v : ℕ) → total (holds key v) r.table ≡ total (holds key v) h.table)
      → view r key ≡ view h key
  view_same h r k j key p q all each = elim (search_cases h k key p) [
    | inl (_, none_there, empty) ↦ view_of_none r j key q (all ∙ empty) ∙ sym none_there
    | inr (i, e, _, _, _, there, hit) ↦
        view_of_total r j key e.value q (omega (arith, each e.value)) ∙ sym there
  ]
