-- ===== src/Hash/Table.antt =====
-- hash.c: the entries of a table counted by a test, which no relocation may change.
use serveez.Base.{
  Bool, List, [], arith, false, get_elem?, get_or, length, refl, replicate, set, some, suc, take,
  true, zero, ℕ, ◌++◌, ◌+◌, ◌<◌, ◌∷◌, ◌≡◌, ◌≢◌, ◌≤◌,
}

abbrev pub to_nat : Bool → ℕ
to_nat true = 1
to_nat false = 0

module _ {A : Type 0} (test : A → Bool) where
  -- How many elements of a list pass the test, and how many in a list of lists.
  unfoldable pub count : List A → ℕ
  count [] = 0
  count (x ∷ l) = to_nat (test x) + count l

  unfoldable pub total : List (List A) → ℕ
  total [] = 0
  total (l ∷ t) = count l + total t

  pub count-append : (l m : List A) → count (l ++ m) ≡ count l + count m
  unfolding count
  count-append [] m = omega arith
  count-append (x ∷ l) m = omega (arith, count-append l m)

  pub total-append : (t u : List (List A)) → total (t ++ u) ≡ total t + total u
  unfolding total
  total-append [] u = omega arith
  total-append (l ∷ t) u = omega (arith, total-append t u)

  pub total-replicate : (n : ℕ) → total (replicate n []) ≡ 0
  unfolding total count
  total-replicate zero = refl
  total-replicate (suc n) = omega (arith, total-replicate n)

  pub total-set :
      (t : List (List A)) (i : ℕ) (l : List A)
      → i < length t
      → total (set t i l) + count (get_or t i []) ≡ total t + count l
  unfolding total
  total-set [] i l h = absurd (omega arith)
  total-set (m ∷ t) zero l h = omega arith
  total-set (m ∷ t) (suc i) l h = omega (arith, total-set t i l (omega arith))

  pub count-set :
      (l : List A) (i : ℕ) (x y : A)
      → get_elem? l i ≡ some x
      → count (set l i y) + to_nat (test x) ≡ count l + to_nat (test y)
  unfolding count
  count-set [] i x y h = cc
  count-set (z ∷ l) zero x y h = ground arith
  count-set (z ∷ l) (suc i) x y h = omega (arith, count-set l i x y h)

  -- A list is its first elements and its last one.
  pub count-take_last :
      (l : List A) (n : ℕ) (x : A)
      → length l ≡ suc n
      → get_elem? l n ≡ some x
      → count (take n l) + to_nat (test x) ≡ count l
  unfolding count
  count-take_last [] n x len h = cc
  count-take_last (y ∷ []) zero x len h = ground arith
  count-take_last (y ∷ []) (suc n) x len h = cc
  count-take_last (y ∷ (z ∷ l)) zero x len h = absurd (omega arith)
  count-take_last (y ∷ (z ∷ l)) (suc n) x len h =
      omega (arith, count-take_last (z ∷ l) n x (omega arith) h)

  total_none : (t : List (List A)) → ((i : ℕ) → count (get_or t i []) ≡ 0) → total t ≡ 0
  unfolding total
  total_none [] h = refl
  total_none (l ∷ t) h = omega (arith, h 0, total_none t (λ i. h (suc i)))

  -- If only list `j` has such elements, it has all of them.
  pub total_only :
      (t : List (List A)) (j : ℕ)
      → ((i : ℕ) → i ≢ j → count (get_or t i []) ≡ 0)
      → total t ≡ count (get_or t j [])
  unfolding total count
  total_only [] j h = refl
  total_only (l ∷ t) zero h = omega (arith, total_none t (λ i. h (suc i) (omega arith)))
  total_only (l ∷ t) (suc j) h =
      omega (arith, h 0 (omega arith), total_only t j (λ i n. h (suc i) (omega arith)))

  pub count-le-total : (t : List (List A)) (i : ℕ) → count (get_or t i []) ≤ total t
  unfolding total count
  count-le-total [] i = omega arith
  count-le-total (l ∷ t) zero = omega arith
  count-le-total (l ∷ t) (suc i) = omega (arith, count-le-total t i)
