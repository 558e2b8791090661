-- ===== src/Chain/Segment.antt =====
-- Segments of doubly linked lists: cutting, joining, and writes beside and at their ends.
use mathlib.Core.Path.{fun_ext}
use serveez.Base.{
  ==_cases, All, List, Option, [], inl, inr, none, refl, some, sym, ℕ, ◌++◌, ◌∙◌, ◌∷◌, ◌≡◌, ◌≢◌,
}
use serveez.Chain.{Absent, AbsentIf, Distinct, Segment, assign, assign_if, head_or, last_or}

pub assign_self {ℓ} : {A : Type ℓ} (f : ℕ → A) (p : ℕ) (v : A) → assign f p v p ≡ v
unfolding assign
assign_self f p v = elim (==_cases p p) [ inl (e, _) ↦ rw e refl | inr (_, ne) ↦ absurd (ne refl) ]

pub assign_other {ℓ} : {A : Type ℓ} (f : ℕ → A) (p q : ℕ) (v : A) → p ≢ q → assign f p v q ≡ f q
unfolding assign
assign_other f p q v ne = elim (==_cases p q) [
  | inl (_, e) ↦ absurd (ne e)
  | inr (e, _) ↦ rw e refl
]

-- Writes to different places in either order.
pub assign_comm {ℓ} :
    {A : Type ℓ} (f : ℕ → A) (p q : ℕ) (v w : A)
    → p ≢ q
    → assign (assign f p v) q w ≡ assign (assign f q w) p v
assign_comm f p q v w ne = fun_ext (λ i. elim (==_cases p i) [
  | inl (_, e) ↦ rw (← e) (
      assign_other (assign f p v) q p w (λ h. ne (sym h))
      ∙ assign_self f p v
      ∙ sym (assign_self (assign f q w) p v))
  | inr (_, other) ↦ elim (==_cases q i) [
    | inl (_, e) ↦ rw (← e) (
        assign_self (assign f p v) q w
        ∙ sym (assign_self f q w)
        ∙ sym (assign_other (assign f q w) p q v ne))
    | inr (_, away) ↦
        assign_other (assign f p v) q i w away
        ∙ assign_other f p i v other
        ∙ sym (assign_other f q i w away)
        ∙ sym (assign_other (assign f q w) p i v other)
  ]
])

pub last_or-append :
    (b : Option ℕ) (xs ys : List ℕ) → last_or b (xs ++ ys) ≡ last_or (last_or b xs) ys
last_or-append b [] ys = refl
last_or-append b (x ∷ xs) ys = last_or-append (some x) xs ys

pub head_or-append :
    (xs ys : List ℕ) (a : Option ℕ) → head_or (xs ++ ys) a ≡ head_or xs (head_or ys a)
head_or-append [] ys a = refl
head_or-append (x ∷ xs) ys a = refl

pub Segment-cut :
    (n p : ℕ → Option ℕ) (b : Option ℕ) (xs ys : List ℕ) (a : Option ℕ)
    → Segment n p b (xs ++ ys) a
    → Segment n p b xs (head_or ys a) × Segment n p (last_or b xs) ys a
Segment-cut n p b [] ys a s = (tt, s)
Segment-cut n p b (x ∷ xs) ys a (e, f, s) =
    let (l, r) = Segment-cut n p (some x) xs ys a s in ((e ∙ head_or-append xs ys a, f, l), r)

pub Segment-join :
    (n p : ℕ → Option ℕ) (b : Option ℕ) (xs ys : List ℕ) (a : Option ℕ)
    → Segment n p b xs (head_or ys a)
    → Segment n p (last_or b xs) ys a
    → Segment n p b (xs ++ ys) a
Segment-join n p b [] ys a l r = r
Segment-join n p b (x ∷ xs) ys a (e, f, l) r =
    (e ∙ sym (head_or-append xs ys a), f, Segment-join n p (some x) xs ys a l r)

-- A write beside the segment.
pub Segment-assign_next :
    (n p : ℕ → Option ℕ) (b : Option ℕ) (xs : List ℕ) (a q v : Option ℕ)
    → AbsentIf q xs
    → Segment n p b xs a
    → Segment (assign_if n q v) p b xs a
Segment-assign_next n p b xs a none v away s = s
Segment-assign_next n p b [] a (some q) v away s = tt
Segment-assign_next n p b (x ∷ xs) a (some q) v (ne, away) (e, f, s) =
    (assign_other n q x v ne ∙ e, f, Segment-assign_next n p (some x) xs a (some q) v away s)

pub Segment-assign_prev :
    (n p : ℕ → Option ℕ) (b : Option ℕ) (xs : List ℕ) (a q v : Option ℕ)
    → AbsentIf q xs
    → Segment n p b xs a
    → Segment n (assign_if p q v) b xs a
Segment-assign_prev n p b xs a none v away s = s
Segment-assign_prev n p b [] a (some q) v away s = tt
Segment-assign_prev n p b (x ∷ xs) a (some q) v (ne, away) (e, f, s) =
    (e, assign_other p q x v ne ∙ f, Segment-assign_prev n p (some x) xs a (some q) v away s)

-- The last element is not one that is absent.
pub last-ne :
    (n : ℕ → Option ℕ) (x y : ℕ) (r : List ℕ) (v : Option ℕ)
    → Absent x (y ∷ r)
    → assign_if n (last_or (some y) r) v x ≡ n x
last-ne n x y [] v (ne, _) = assign_other n y x v (λ e. ne (sym e))
last-ne n x y (z ∷ r) v (_, away) = last-ne n x z r v away

-- A new pointer at either end.
pub Segment-end :
    (n p : ℕ → Option ℕ) (b : Option ℕ) (xs : List ℕ) (a v : Option ℕ)
    → Distinct xs
    → Segment n p b xs a
    → Segment (assign_if n (last_or none xs) v) p b xs v
Segment-end n p b [] a v d s = tt
Segment-end n p b (x ∷ []) a v d (e, f, s) = (assign_self n x v, f, tt)
Segment-end n p b (x ∷ (y ∷ r)) a v (away, d) (e, f, s) =
    (last-ne n x y r v away ∙ e, f, Segment-end n p (some x) (y ∷ r) a v d s)

pub Segment-start :
    (n p : ℕ → Option ℕ) (b : Option ℕ) (xs : List ℕ) (a v : Option ℕ)
    → Distinct xs
    → Segment n p b xs a
    → Segment n (assign_if p (head_or xs none) v) v xs a
Segment-start n p b [] a v d s = tt
Segment-start n p b (x ∷ xs) a v (away, d) (e, f, s) =
    (e, assign_self p x v, Segment-assign_prev n p (some x) xs a (some x) v away s)

pub Absent-append : (x : ℕ) (xs ys : List ℕ) → Absent x (xs ++ ys) → Absent x xs × Absent x ys
Absent-append x [] ys h = (tt, h)
Absent-append x (y ∷ xs) ys (ne, h) = let r = Absent-append x xs ys h in ((ne, r.0), r.1)

pub Absent-join : (x : ℕ) (xs ys : List ℕ) → Absent x xs → Absent x ys → Absent x (xs ++ ys)
Absent-join x [] ys h k = k
Absent-join x (y ∷ xs) ys (ne, h) k = (ne, Absent-join x xs ys h k)

-- No element of one list stands in the other.
abbrev pub Apart : List ℕ → List ℕ → Type 0
Apart xs ys = All (λ y. Absent y xs) ys

pub Apart-cons : (x : ℕ) (xs ys : List ℕ) → Absent x ys → Apart xs ys → Apart (x ∷ xs) ys
Apart-cons x xs [] h k = tt
Apart-cons x xs (y ∷ ys) (ne, h) (away, k) = ((λ e. ne (sym e), away), Apart-cons x xs ys h k)

pub Distinct-cut : (xs ys : List ℕ) → Distinct (xs ++ ys) → Distinct xs × Distinct ys × Apart xs ys
Distinct-cut [] ys d = (tt, d, all_apart ys)
  where
    all_apart : (zs : List ℕ) → Apart [] zs
    all_apart [] = tt
    all_apart (z ∷ zs) = (tt, all_apart zs)
Distinct-cut (x ∷ xs) ys (away, d) =
    let (l, r, apart) = Distinct-cut xs ys d in
    let (in_xs, in_ys) = Absent-append x xs ys away in
    ((in_xs, l), r, Apart-cons x xs ys in_ys apart)

pub Distinct-join : (xs ys : List ℕ) → Distinct xs → Distinct ys → Apart xs ys → Distinct (xs ++ ys)
Distinct-join [] ys l r apart = r
Distinct-join (x ∷ xs) ys (away, l) r apart =
    let (in_ys, rest) = split_apart ys apart in
    (Absent-join x xs ys away in_ys, Distinct-join xs ys l r rest)
  where
    split_apart : (zs : List ℕ) → Apart (x ∷ xs) zs → Absent x zs × Apart xs zs
    split_apart [] h = (tt, tt)
    split_apart (z ∷ zs) ((ne, away), h) =
        let r = split_apart zs h in ((λ e. ne (sym e), r.0), (away, r.1))

-- The ends of a segment do not stand in one that is apart.
pub head-Apart : (xs ys : List ℕ) → Apart xs ys → AbsentIf (head_or ys none) xs
head-Apart xs [] h = tt
head-Apart xs (y ∷ ys) h = h.0

pub last-Apart : (xs ys : List ℕ) → Apart xs ys → AbsentIf (last_or none xs) ys
last-Apart [] ys h = tt
last-Apart (x ∷ []) ys h = first_away ys h
  where
    first_away : (zs : List ℕ) → Apart (x ∷ []) zs → Absent x zs
    first_away [] h = tt
    first_away (z ∷ zs) ((ne, _), h) = (λ e. ne (sym e), first_away zs h)
last-Apart (x ∷ (y ∷ xs)) ys h = last-Apart (y ∷ xs) ys (drop_first ys h)
  where
    drop_first : (zs : List ℕ) → Apart (x ∷ (y ∷ xs)) zs → Apart (y ∷ xs) zs
    drop_first [] h = tt
    drop_first (z ∷ zs) ((_, away), h) = (away, drop_first zs h)

pub Apart-cut : (xs ys zs : List ℕ) → Apart xs (ys ++ zs) → Apart xs ys × Apart xs zs
Apart-cut xs [] zs h = (tt, h)
Apart-cut xs (y ∷ ys) zs (here, h) = let r = Apart-cut xs ys zs h in ((here, r.0), r.1)
