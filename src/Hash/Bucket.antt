-- ===== src/Hash/Bucket.antt =====
-- hash.c: what appending and removing an entry does to a bucket and to the table.
use mathlib.Core.Path.{subst}
use serveez.Base.{
  ==_cases, All, All-get, All-set, All-take, Bool, [], ap, arith, get_elem?, get_elem?-set_ne,
  get_elem?-set_self, get_elem?_inside, get_elem?-some, get_or-set_ne, get_or-set_self, inl, inr,
  length, length-set, length-take, set, some, suc, sym, take, take-set_before, take-take_le, ℕ,
  ◌++◌, ◌+◌, ◌-◌, ◌<◌, ◌∙◌, ◌∷◌, ◌≡◌, ◌≢◌,
}
use serveez.Hash.{Bucket, Entry, SvzHash, append_entry, bucket_at, remove_entry, swap_remove}
use serveez.Hash.Table.{count, count-append, count-set, count-take_last, to_nat, total, total-set}

module _ {K : Type 0} where
  swap_remove_lem :
      (l : Bucket K) (i : ℕ) (last : Entry K)
      → get_elem? l (length l - 1) ≡ some last
      → swap_remove l i ≡ take (length l - 1) (set l i last)
  unfolding swap_remove
  swap_remove_lem l i last h = rw (h, swap_remove)

  pub swap_remove_facts :
      (l : Bucket K) (i : ℕ) (x : Entry K)
      → get_elem? l i ≡ some x
      → (length (swap_remove l i) + 1 ≡ length l)
        × (take i (swap_remove l i) ≡ take i l)
        × ((test : Entry K → Bool) → count test (swap_remove l i) + to_nat (test x) ≡ count test l)
  swap_remove_facts l i x h =
      let inside = get_elem?-some l i x h in
      let n = length l - 1 in
      let size : length l ≡ suc n = omega arith in
      let (last, found) = get_elem?_inside l n (omega arith) in
      let written : length (set l i last) ≡ suc n = length-set l i last ∙ size in
      let end : get_elem? (set l i last) n ≡ some last = elim (==_cases i n) [
        | inl (_, e) ↦ ap (get_elem? (set l i last)) (sym e) ∙ get_elem?-set_self l i last inside
        | inr (_, ne) ↦ get_elem?-set_ne l i n last ne ∙ found
      ] in
      rw (swap_remove_lem l i last found) (
        omega (arith, length-take n (set l i last)),
        take-take_le i n (set l i last) (omega arith) ∙ take-set_before i l last,
        λ test. omega (
          arith,
          count-take_last test (set l i last) n last written end,
          count-set test l i x last h,
        ),
      )

  pub All-swap_remove :
      (P : Entry K → Type 0) (l : Bucket K) (i : ℕ)
      → i < length l
      → All P l
      → All P (swap_remove l i)
  All-swap_remove P l i inside p =
      let n = length l - 1 in
      let (last, found) = get_elem?_inside l n (omega arith) in
      subst (All P) (sym (swap_remove_lem l i last found))
        (All-take P n (set l i last) (All-set P l i last p (All-get P l n last p found)))

  -- Bucket `b` with the entry behind its others; the rest of the table as it was.
  pub append_entry_facts :
      (h : SvzHash K) (b : ℕ) (e : Entry K)
      → b < length h.table
      → (bucket_at (append_entry h b e) b ≡ bucket_at h b ++ (e ∷ []))
        × ((i : ℕ) → b ≢ i → bucket_at (append_entry h b e) i ≡ bucket_at h i)
        × (length (append_entry h b e).table ≡ length h.table)
        × ((test : Entry K → Bool)
            → total test (append_entry h b e).table ≡ total test h.table + to_nat (test e))
  unfolding append_entry count
  append_entry_facts h b e inside = (
    get_or-set_self h.table b _ [] inside,
    λ i ne. get_or-set_ne h.table b i _ [] ne,
    length-set h.table b _,
    λ test. omega (
      arith,
      total-set test h.table b (bucket_at h b ++ (e ∷ [])) inside,
      count-append test (bucket_at h b) (e ∷ []),
    ),
  )

  pub remove_entry_facts :
      (h : SvzHash K) (b i : ℕ) (e : Entry K)
      → b < length h.table
      → get_elem? (bucket_at h b) i ≡ some e
      → (bucket_at (remove_entry h b i) b ≡ swap_remove (bucket_at h b) i)
        × ((j : ℕ) → b ≢ j → bucket_at (remove_entry h b i) j ≡ bucket_at h j)
        × (length (remove_entry h b i).table ≡ length h.table)
        × ((test : Entry K → Bool)
            → total test (remove_entry h b i).table + to_nat (test e) ≡ total test h.table)
  unfolding remove_entry
  remove_entry_facts h b i e inside found = (
    get_or-set_self h.table b _ [] inside,
    λ j ne. get_or-set_ne h.table b j _ [] ne,
    length-set h.table b _,
    λ test. omega (
      arith,
      total-set test h.table b (swap_remove (bucket_at h b) i) inside,
      (swap_remove_facts (bucket_at h b) i e found).2 test,
    ),
  )
