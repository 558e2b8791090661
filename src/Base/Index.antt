-- ===== src/Base/Index.antt =====
-- Lists read and written at an index, in range and out of it.
use Prim.Native.Nat.{ℕ, zero, suc, ◌≤◌, ◌<◌}
use mathlib.Core.Path.{◌≡◌, refl, ap, subst}
use mathlib.Core.Logic.{◌≢◌, ◌⊎◌, inl, inr}
use mathlib.Core.List.{List, [], ◌∷◌, ◌++◌}
use mathlib.Core.Option.{none, some, some-injective}
use native.Mathlib.Omega.{arith}
use serveez.Base.Tests.{==_cases}
use serveez.Base.Lists.{
  length, get_elem?, get_or, set, take, erase_idx, All, get_or-set_self, get_or-set_ne,
}

module _ {ℓ} {A : Type ℓ} where
  pub get_or_beyond : (xs : List A) (i : ℕ) (d : A) → length xs ≤ i → get_or xs i d ≡ d
  get_or_beyond [] i d h = refl
  get_or_beyond (x ∷ xs) zero d h = absurd (omega arith)
  get_or_beyond (x ∷ xs) (suc i) d h = get_or_beyond xs i d (omega arith)

  pub set_beyond : (xs : List A) (i : ℕ) (v : A) → length xs ≤ i → set xs i v ≡ xs
  set_beyond [] i v h = refl
  set_beyond (x ∷ xs) zero v h = absurd (omega arith)
  set_beyond (x ∷ xs) (suc i) v h = ap (λ l. x ∷ l) (set_beyond xs i v (omega arith))

  pub erase_idx_beyond : (xs : List A) (i : ℕ) → length xs ≤ i → erase_idx xs i ≡ xs
  erase_idx_beyond [] i h = refl
  erase_idx_beyond (x ∷ xs) zero h = absurd (omega arith)
  erase_idx_beyond (x ∷ xs) (suc i) h = ap (λ l. x ∷ l) (erase_idx_beyond xs i (omega arith))

  pub erase_idx_last :
      (n : ℕ) (xs : List A) → n < length xs → erase_idx (take (suc n) xs) n ≡ take n xs
  erase_idx_last n [] h = absurd (omega arith)
  erase_idx_last zero (x ∷ xs) h = refl
  erase_idx_last (suc n) (x ∷ xs) h = ap (λ l. x ∷ l) (erase_idx_last n xs (omega arith))

  pub take-take_le : (k n : ℕ) (xs : List A) → k ≤ n → take k (take n xs) ≡ take k xs
  take-take_le zero n xs h = refl
  take-take_le (suc k) zero xs h = absurd (omega arith)
  take-take_le (suc k) (suc n) [] h = refl
  take-take_le (suc k) (suc n) (x ∷ xs) h = ap (λ l. x ∷ l) (take-take_le k n xs (omega arith))

  pub get_or-append_mid : (xs ys : List A) (y d : A) → get_or (xs ++ (y ∷ ys)) (length xs) d ≡ y
  get_or-append_mid [] ys y d = refl
  get_or-append_mid (x ∷ xs) ys y d = get_or-append_mid xs ys y d

  pub erase_idx-append_mid :
      (xs ys : List A) (y : A) → erase_idx (xs ++ (y ∷ ys)) (length xs) ≡ xs ++ ys
  erase_idx-append_mid [] ys y = refl
  erase_idx-append_mid (x ∷ xs) ys y = ap (λ l. x ∷ l) (erase_idx-append_mid xs ys y)

  pub length-erase_idx : (xs : List A) (i : ℕ) → length (erase_idx xs i) ≤ length xs
  length-erase_idx [] i = omega arith
  length-erase_idx (x ∷ xs) zero = omega arith
  length-erase_idx (x ∷ xs) (suc i) = omega (arith, length-erase_idx xs i)

  pub get_or-set :
      (xs : List A) (i j : ℕ) (v d : A)
      → i < length xs
      → ((i ≡ j) × (get_or (set xs i v) j d ≡ v))
        ⊎ ((i ≢ j) × (get_or (set xs i v) j d ≡ get_or xs j d))
  get_or-set xs i j v d h = elim (==_cases i j) [
    | inl (_, e) ↦ inl (e, rw (← e) (get_or-set_self xs i v d h))
    | inr (_, n) ↦ inr (n, get_or-set_ne xs i j v d n)
  ]

  pub get_elem?-set_self :
      (xs : List A) (i : ℕ) (v : A) → i < length xs → get_elem? (set xs i v) i ≡ some v
  get_elem?-set_self [] i v h = absurd (omega arith)
  get_elem?-set_self (x ∷ xs) zero v h = refl
  get_elem?-set_self (x ∷ xs) (suc i) v h = get_elem?-set_self xs i v (omega arith)

  pub get_elem?-set_ne :
      (xs : List A) (i j : ℕ) (v : A) → i ≢ j → get_elem? (set xs i v) j ≡ get_elem? xs j
  get_elem?-set_ne [] i j v h = refl
  get_elem?-set_ne (x ∷ xs) zero zero v h = absurd (h refl)
  get_elem?-set_ne (x ∷ xs) zero (suc j) v h = refl
  get_elem?-set_ne (x ∷ xs) (suc i) zero v h = refl
  get_elem?-set_ne (x ∷ xs) (suc i) (suc j) v h = get_elem?-set_ne xs i j v (λ e. h (ap suc e))

  pub get_elem?_inside : (xs : List A) (i : ℕ) → i < length xs → (x : A) × (get_elem? xs i ≡ some x)
  get_elem?_inside [] i h = absurd (omega arith)
  get_elem?_inside (x ∷ xs) zero h = (x, refl)
  get_elem?_inside (x ∷ xs) (suc i) h = get_elem?_inside xs i (omega arith)

  pub get_elem?-some : (xs : List A) (i : ℕ) (x : A) → get_elem? xs i ≡ some x → i < length xs
  get_elem?-some [] i x h = cc
  get_elem?-some (y ∷ xs) zero x h = omega arith
  get_elem?-some (y ∷ xs) (suc i) x h = omega (arith, get_elem?-some xs i x h)

  pub get_elem?-none : (xs : List A) (i : ℕ) → get_elem? xs i ≡ none → length xs ≤ i
  get_elem?-none [] i h = omega arith
  get_elem?-none (y ∷ xs) zero h = cc
  get_elem?-none (y ∷ xs) (suc i) h = omega (arith, get_elem?-none xs i h)

  -- A write at index `i` leaves the elements before it.
  pub take-set_before : (i : ℕ) (xs : List A) (v : A) → take i (set xs i v) ≡ take i xs
  take-set_before zero xs v = refl
  take-set_before (suc i) [] v = refl
  take-set_before (suc i) (x ∷ xs) v = ap (λ l. x ∷ l) (take-set_before i xs v)

  pub take-snoc :
      (i : ℕ) (xs : List A) (x : A)
      → get_elem? xs i ≡ some x
      → take (suc i) xs ≡ take i xs ++ (x ∷ [])
  take-snoc i [] x h = cc
  take-snoc zero (y ∷ xs) x h = cc
  take-snoc (suc i) (y ∷ xs) x h = ap (λ l. y ∷ l) (take-snoc i xs x h)

  pub take_all : (n : ℕ) (xs : List A) → length xs ≤ n → take n xs ≡ xs
  take_all zero [] h = refl
  take_all zero (x ∷ xs) h = absurd (omega arith)
  take_all (suc n) [] h = refl
  take_all (suc n) (x ∷ xs) h = ap (λ l. x ∷ l) (take_all n xs (omega arith))

  pub All-append {κ} : (P : A → Type κ) (xs ys : List A) → All P xs → All P ys → All P (xs ++ ys)
  All-append P [] ys p q = q
  All-append P (x ∷ xs) ys (p, ps) q = (p, All-append P xs ys ps q)

  pub All-set {κ} :
      (P : A → Type κ) (xs : List A) (i : ℕ) (v : A) → All P xs → P v → All P (set xs i v)
  All-set P [] i v p q = p
  All-set P (x ∷ xs) zero v (p, ps) q = (q, ps)
  All-set P (x ∷ xs) (suc i) v (p, ps) q = (p, All-set P xs i v ps q)

  pub All-get {κ} :
      (P : A → Type κ) (xs : List A) (i : ℕ) (x : A) → All P xs → get_elem? xs i ≡ some x → P x
  All-get P [] i x p h = absurd (none-ne-some h)
    where
      none-ne-some : none ≡ some x → ⊥
      none-ne-some e = cc
  All-get P (y ∷ xs) zero x (p, ps) h = subst P (some-injective y x h) p
  All-get P (y ∷ xs) (suc i) x (p, ps) h = All-get P xs i x ps h

  pub All-take {κ} : (P : A → Type κ) (n : ℕ) (xs : List A) → All P xs → All P (take n xs)
  All-take P zero xs p = tt
  All-take P (suc n) [] p = p
  All-take P (suc n) (x ∷ xs) (p, ps) = (p, All-take P n xs ps)
