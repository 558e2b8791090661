-- ===== src/Core/Valid.antt =====
-- server-core.c: what `validate_list_of_socks` checks, and more: the list, the table and the flags
-- agree.
use mathlib.Core.Path.{subst}
use serveez.Base.{
  All, List, [], ap, inl, inr, length, refl, some, sym, true, ℕ, ◌++◌, ◌∷◌, ◌≡◌, ◌≢◌, ◌⊎◌,
}
use serveez.Chain.{Absent, IsChain}
use serveez.Core.{Socks, entry}

-- An element of the list.
abbrev pub Present : ℕ → List ℕ → Type 0
Present x [] = ⊥
Present x (y ∷ ys) = (x ≡ y) ⊎ Present x ys

pub record IsValid (s : Socks) (ids : List ℕ) : Type 0 where
  pub chain : IsChain s.links ids
  pub width : length s.socktab ≡ s.sock_limit
  pub found : All (λ x. (s.enqueued x ≡ true) × (entry s (s.id x) ≡ some x)) ids
  pub listed : (x : ℕ) → s.enqueued x ≡ true → Present x ids
  pub owned : (i x : ℕ) → entry s i ≡ some x → (s.enqueued x ≡ true) × (s.id x ≡ i)

pub Present-append_right : (x : ℕ) (xs ys : List ℕ) → Present x ys → Present x (xs ++ ys)
Present-append_right x [] ys h = h
Present-append_right x (y ∷ xs) ys h = inr (Present-append_right x xs ys h)

pub Present-append_left : (x : ℕ) (xs ys : List ℕ) → Present x xs → Present x (xs ++ ys)
Present-append_left x [] ys h = absurd h
Present-append_left x (y ∷ xs) ys (inl e) = inl e
Present-append_left x (y ∷ xs) ys (inr h) = inr (Present-append_left x xs ys h)

-- Where an element stands.
pub split_at :
    (x : ℕ) (ids : List ℕ) → Present x ids → (xs : List ℕ) × (ys : List ℕ) × (ids ≡ xs ++ x ∷ ys)
split_at x [] h = absurd h
split_at x (y ∷ ids) (inl e) = ([], ids, ap (λ z. z ∷ ids) (sym e))
split_at x (y ∷ ids) (inr h) = let (xs, ys, e) = split_at x ids h in (y ∷ xs, ys, ap (λ l. y ∷ l) e)

-- Another element is still there when one is taken out.
pub Present-remove :
    (z x : ℕ) (xs ys : List ℕ) → z ≢ x → Present z (xs ++ x ∷ ys) → Present z (xs ++ ys)
Present-remove z x [] ys ne (inl e) = absurd (ne e)
Present-remove z x [] ys ne (inr h) = h
Present-remove z x (y ∷ xs) ys ne (inl e) = inl e
Present-remove z x (y ∷ xs) ys ne (inr h) = inr (Present-remove z x xs ys ne h)

-- A predicate of the elements.
pub All-map : (P Q : ℕ → Type 0) (xs : List ℕ) → ((x : ℕ) → P x → Q x) → All P xs → All Q xs
All-map P Q [] f h = tt
All-map P Q (x ∷ xs) f (p, h) = (f x p, All-map P Q xs f h)

pub All-Present : (P : ℕ → Type 0) (x : ℕ) (xs : List ℕ) → All P xs → Present x xs → P x
All-Present P x [] h k = absurd k
All-Present P x (y ∷ xs) (p, h) (inl e) = subst P (sym e) p
All-Present P x (y ∷ xs) (p, h) (inr k) = All-Present P x xs h k

pub Present-All : (P : ℕ → Type 0) (xs : List ℕ) → ((x : ℕ) → Present x xs → P x) → All P xs
Present-All P [] f = tt
Present-All P (x ∷ xs) f = (f x (inl refl), Present-All P xs (λ y h. f y (inr h)))

pub Absent-Present : (x y : ℕ) (xs : List ℕ) → Absent x xs → Present y xs → x ≢ y
Absent-Present x y xs h k = All-Present (λ z. x ≢ z) y xs h k

pub Present-insert : (z x : ℕ) (xs ys : List ℕ) → Present z (xs ++ ys) → Present z (xs ++ x ∷ ys)
Present-insert z x [] ys h = inr h
Present-insert z x (y ∷ xs) ys (inl e) = inl e
Present-insert z x (y ∷ xs) ys (inr h) = inr (Present-insert z x xs ys h)
