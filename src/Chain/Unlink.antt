-- ===== src/Chain/Unlink.antt =====
-- Taking an element out of a doubly linked list.
use mathlib.Core.List.{append-nil}
use serveez.Base.{List, Option, [], ap, none, refl, some, sym, ℕ, ◌++◌, ◌∙◌, ◌∷◌, ◌≡◌}
use serveez.Chain.{
  Absent, AbsentIf, Distinct, IsChain, Links, Segment, assign, assign_if, head_or, last_or,
}
use serveez.Chain.Segment.{
  Absent-append, Absent-join, Apart, Distinct-cut, Distinct-join, Segment-assign_next,
  Segment-assign_prev, Segment-cut, Segment-end, Segment-join, Segment-start, assign_other,
  head-Apart, last-Apart, last_or-append,
}

-- `if (x->next) x->next->prev = x->prev; else last = x->prev;`
unfoldable pub close_next : Links → ℕ → Links
close_next l x = elim (l.next x) [
  | none ↦ record l { last = l.prev x }
  | some y ↦ record l { prev = assign l.prev y (l.prev x) }
]

-- `if (x->prev) x->prev->next = x->next; else first = x->next;`
unfoldable pub close_prev : Links → ℕ → Links
close_prev l x = elim (l.prev x) [
  | none ↦ record l { first = l.next x }
  | some z ↦ record l { next = assign l.next z (l.next x) }
]

-- The neighbours of an element in the middle.
pub record Around (l : Links) (xs : List ℕ) (x : ℕ) (ys : List ℕ) : Type 0 where
  pub next : l.next x ≡ head_or ys none
  pub prev : l.prev x ≡ last_or none xs
  pub before : Segment l.next l.prev none xs (some x)
  pub after : Segment l.next l.prev (some x) ys none
  pub fresh : Absent x (xs ++ ys)
  pub distinct : Distinct (xs ++ ys)
  pub apart : Apart xs ys

pub IsChain-Around :
    (l : Links) (xs : List ℕ) (x : ℕ) (ys : List ℕ) → IsChain l (xs ++ x ∷ ys) → Around l xs x ys
IsChain-Around l xs x ys c =
    let (left, (n, p, right)) = Segment-cut l.next l.prev none xs (x ∷ ys) none c.linked in
    let (dl, (dx, dr), (ax, apart)) = Distinct-cut xs (x ∷ ys) c.distinct in
    record {
      next = n;
      prev = p;
      before = left;
      after = right;
      fresh = Absent-join x xs ys ax dx;
      distinct = Distinct-join xs ys dl dr apart;
      apart = apart;
    }

-- What the two writes leave, by what the links of the element were.
abbrev pub by_link {ℓ} : {A : Type ℓ} → Option ℕ → A → A → A
by_link none a b = a
by_link (some x) a b = b

abbrev unlinked : Links → Option ℕ → Option ℕ → Links
unlinked l n p = record {
  first = by_link p n l.first;
  last = by_link n p l.last;
  next = assign_if l.next p n;
  prev = assign_if l.prev n p;
}

pub by_last {ℓ} :
    {A : Type ℓ} (x : ℕ) (xs : List ℕ) (a b : A) → by_link (last_or (some x) xs) a b ≡ b
by_last x [] a b = refl
by_last x (y ∷ xs) a b = by_last y xs a b

unlinked_starts :
    (l : Links) (xs : List ℕ) (x : ℕ) (ys : List ℕ)
    → IsChain l (xs ++ x ∷ ys)
    → by_link (last_or none xs) (head_or ys none) l.first ≡ head_or (xs ++ ys) none
unlinked_starts l [] x ys c = refl
unlinked_starts l (z ∷ xs) x ys c = by_last z xs (head_or ys none) l.first ∙ c.starts

unlinked_ends :
    (l : Links) (xs : List ℕ) (x : ℕ) (ys : List ℕ)
    → IsChain l (xs ++ x ∷ ys)
    → by_link (head_or ys none) (last_or none xs) l.last ≡ last_or none (xs ++ ys)
unlinked_ends l xs x [] c = ap (last_or none) (sym (append-nil xs))
unlinked_ends l xs x (y ∷ ys) c =
    c.ends ∙ last_or-append none xs (x ∷ (y ∷ ys)) ∙ sym (last_or-append none xs (y ∷ ys))

pub unlinked-IsChain :
    (l : Links) (xs : List ℕ) (x : ℕ) (ys : List ℕ)
    → IsChain l (xs ++ x ∷ ys)
    → IsChain (unlinked l (head_or ys none) (last_or none xs)) (xs ++ ys)
unlinked-IsChain l xs x ys c =
    let a = IsChain-Around l xs x ys c in
    let (dl, dr, _) = Distinct-cut xs ys a.distinct in
    let n = head_or ys none in
    let p = last_or none xs in
    let left : Segment (assign_if l.next p n) (assign_if l.prev n p) none xs n =
      Segment-assign_prev (assign_if l.next p n) l.prev none xs n n p (head-Apart xs ys a.apart)
        (Segment-end l.next l.prev none xs (some x) n dl a.before) in
    let right : Segment (assign_if l.next p n) (assign_if l.prev n p) p ys none =
      Segment-assign_next l.next (assign_if l.prev n p) p ys none p n (last-Apart xs ys a.apart)
        (Segment-start l.next l.prev (some x) ys none p dr a.after) in
    record {
      starts = unlinked_starts l xs x ys c;
      ends = unlinked_ends l xs x ys c;
      linked = Segment-join _ _ none xs ys none left right;
      distinct = a.distinct;
    }

-- The writes one by one.
close_next_lem :
    (l : Links) (x : ℕ) (n p : Option ℕ)
    → l.next x ≡ n
    → l.prev x ≡ p
    → close_next l x ≡ record l { last = by_link n p l.last; prev = assign_if l.prev n p }
unfolding close_next
close_next_lem l x none p e f = rw (e, close_next) (ap (λ q. record l { last = q }) f)
close_next_lem l x (some y) p e f =
    rw (e, close_next) (ap (λ q. record l { prev = assign l.prev y q }) f)

close_prev_lem :
    (l : Links) (x : ℕ) (n p : Option ℕ)
    → l.next x ≡ n
    → l.prev x ≡ p
    → close_prev l x ≡ record l { first = by_link p n l.first; next = assign_if l.next p n }
unfolding close_prev
close_prev_lem l x n none e f = rw (f, close_prev) (ap (λ q. record l { first = q }) e)
close_prev_lem l x n (some z) e f =
    rw (f, close_prev) (ap (λ q. record l { next = assign l.next z q }) e)

pub assign_beside :
    (f : ℕ → Option ℕ) (n v : Option ℕ) (x : ℕ) → AbsentIf n (x ∷ []) → assign_if f n v x ≡ f x
assign_beside f none v x away = refl
assign_beside f (some y) v x (ne, _) = assign_other f y x v ne

-- Both, in either order.
pub next_prev-unlinked :
    (l : Links) (x : ℕ) (n p : Option ℕ)
    → l.next x ≡ n
    → l.prev x ≡ p
    → AbsentIf n (x ∷ [])
    → close_prev (close_next l x) x ≡ unlinked l n p
next_prev-unlinked l x n p e f away =
    let s = record l { last = by_link n p l.last; prev = assign_if l.prev n p } in
    ap (λ r. close_prev r x) (close_next_lem l x n p e f)
    ∙ close_prev_lem s x n p e (assign_beside l.prev n p x away ∙ f)

pub prev_next-unlinked :
    (l : Links) (x : ℕ) (n p : Option ℕ)
    → l.next x ≡ n
    → l.prev x ≡ p
    → AbsentIf p (x ∷ [])
    → close_next (close_prev l x) x ≡ unlinked l n p
prev_next-unlinked l x n p e f away =
    let s = record l { first = by_link p n l.first; next = assign_if l.next p n } in
    ap (λ r. close_next r x) (close_prev_lem l x n p e f)
    ∙ close_next_lem s x n p (assign_beside l.next p n x away ∙ e) f

-- The neighbours of an element differ from it.
pub next_beside :
    (x : ℕ) (xs ys : List ℕ) → Absent x (xs ++ ys) → AbsentIf (head_or ys none) (x ∷ [])
next_beside x xs [] h = tt
next_beside x xs (y ∷ ys) h = let r = Absent-append x xs (y ∷ ys) h in (λ e. r.1.0 (sym e), tt)

pub prev_beside :
    (x : ℕ) (xs ys : List ℕ) → Absent x (xs ++ ys) → AbsentIf (last_or none xs) (x ∷ [])
prev_beside x xs ys h = last_beside xs (Absent-append x xs ys h).0
  where
    last_beside : (zs : List ℕ) → Absent x zs → AbsentIf (last_or none zs) (x ∷ [])
    last_beside [] k = tt
    last_beside (z ∷ []) (ne, _) = (λ e. ne (sym e), tt)
    last_beside (z ∷ (w ∷ zs)) (_, k) = last_beside (w ∷ zs) k

pub close_next_prev-IsChain :
    (l : Links) (xs : List ℕ) (x : ℕ) (ys : List ℕ)
    → IsChain l (xs ++ x ∷ ys)
    → IsChain (close_prev (close_next l x) x) (xs ++ ys)
close_next_prev-IsChain l xs x ys c =
    let a = IsChain-Around l xs x ys c in
    rw
      (next_prev-unlinked l x (head_or ys none) (last_or none xs) a.next a.prev
        (next_beside x xs ys a.fresh))
      (unlinked-IsChain l xs x ys c)

pub close_prev_next-IsChain :
    (l : Links) (xs : List ℕ) (x : ℕ) (ys : List ℕ)
    → IsChain l (xs ++ x ∷ ys)
    → IsChain (close_next (close_prev l x) x) (xs ++ ys)
close_prev_next-IsChain l xs x ys c =
    let a = IsChain-Around l xs x ys c in
    rw
      (prev_next-unlinked l x (head_or ys none) (last_or none xs) a.next a.prev
        (prev_beside x xs ys a.fresh))
      (unlinked-IsChain l xs x ys c)
