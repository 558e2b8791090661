-- ===== src/Core/Dequeue.antt =====
-- server-core.c: `dequeue` keeps the sockets valid.
use mathlib.Core.Bool.{false≢true}
use mathlib.Core.Path.{subst}
use native.Mathlib.Nat.{div-eq_of_lt}
use serveez.Base.{
  ==_cases, Bool, Bool-cases, List, ap, arith, false, get_or-set_ne, get_or-set_self, get_or_beyond,
  inl, inr, length-set, ltb_cases, none, refl, set, some, sym, true, ℕ, ◌++◌, ◌/◌, ◌<◌, ◌∙◌, ◌∷◌,
  ◌≡◌, ◌≢◌, ◌⊎◌,
}
use serveez.Chain.{IsChain, assign}
use serveez.Chain.Segment.{assign_other, assign_self}
use serveez.Chain.Unlink.{IsChain-Around, close_next, close_next_prev-IsChain, close_prev}
use serveez.Core.{Socks, dequeue, entry, svz_sock_find, taken}
use serveez.Core.Valid.{
  Absent-Present, All-Present, IsValid, Present, Present-All, Present-append_right, Present-insert,
  Present-remove, split_at,
}

abbrev removed : Socks → ℕ → Socks
removed s x = record s {
  links = close_prev (close_next s.links x) x;
  enqueued = assign s.enqueued x false;
  socktab = set s.socktab (s.id x) none;
}

module _ (s : Socks) (x : ℕ) (xs ys : List ℕ) (v : IsValid s (xs ++ x ∷ ys))
    (inside : s.id x < s.sock_limit) (at : entry s (s.id x) ≡ some x) where
  own_entry : entry (removed s x) (s.id x) ≡ none
  own_entry = get_or-set_self s.socktab (s.id x) none none (omega (arith, v.width))

  other_entry : (i : ℕ) → s.id x ≢ i → entry (removed s x) i ≡ entry s i
  other_entry i ne = get_or-set_ne s.socktab (s.id x) i none none ne

  chain : IsChain (removed s x).links (xs ++ ys)
  chain = close_next_prev-IsChain s.links xs x ys v.chain

  kept :
      (y : ℕ)
      → Present y (xs ++ ys)
      → (assign s.enqueued x false y ≡ true) × (entry (removed s x) (s.id y) ≡ some y)
  kept y there =
      let around = IsChain-Around s.links xs x ys v.chain in
      let ne : x ≢ y = Absent-Present x y (xs ++ ys) around.fresh there in
      let (mark, slot) =
        All-Present (λ z. (s.enqueued z ≡ true) × (entry s (s.id z) ≡ some z)) y (xs ++ x ∷ ys)
          v.found (Present-insert y x xs ys there) in
      let apart : s.id x ≢ s.id y = λ e. ne (cc (sym at ∙ ap (entry s) e ∙ slot)) in
      (assign_other s.enqueued x y false ne ∙ mark, other_entry (s.id y) apart ∙ slot)

  listed : (y : ℕ) → assign s.enqueued x false y ≡ true → Present y (xs ++ ys)
  listed y mark = elim (==_cases x y) [
    | inl (_, e) ↦ absurd (
        false≢true (sym (assign_self s.enqueued x false) ∙ ap (assign s.enqueued x false) e ∙ mark))
    | inr (_, ne) ↦
        Present-remove y x xs ys (λ e. ne (sym e))
          (v.listed y (sym (assign_other s.enqueued x y false ne) ∙ mark))
  ]

  owned :
      (i y : ℕ)
      → entry (removed s x) i ≡ some y
      → (assign s.enqueued x false y ≡ true) × (s.id y ≡ i)
  owned i y slot = elim (==_cases (s.id x) i) [
    | inl (_, e) ↦ cc (sym own_entry, ap (entry (removed s x)) e, slot)
    | inr (_, ne) ↦
        let old = v.owned i y (sym (other_entry i ne) ∙ slot) in
        let other : x ≢ y = λ e. ne (ap s.id e ∙ old.1) in
        (assign_other s.enqueued x y false other ∙ old.0, old.1)
  ]

  removed-IsValid : IsValid (removed s x) (xs ++ ys)
  removed-IsValid = record {
    chain = chain;
    width = length-set s.socktab (s.id x) none ∙ v.width;
    found = Present-All _ (xs ++ ys) kept;
    listed = listed;
    owned = owned;
  }

  removed_lost : svz_sock_find (removed s x) (s.id x) none ≡ none
  unfolding svz_sock_find
  removed_lost =
      let small : s.id x / s.sock_limit ≡ 0 = div-eq_of_lt inside in
      rw (small, own_entry, svz_sock_find) refl

-- Taking out a socket whose place is known.
pub dequeue-removed :
    (usable : ℕ → Bool) (s : Socks) (x : ℕ) (xs ys : List ℕ)
    → IsValid s (xs ++ x ∷ ys)
    → usable x ≡ true
    → IsValid (dequeue usable s x).1 (xs ++ ys) × ((dequeue usable s x).1.killed ≡ s.killed)
unfolding dequeue
dequeue-removed usable s x xs ys v good =
    let (marked, at) =
      All-Present (λ z. (s.enqueued z ≡ true) × (entry s (s.id z) ≡ some z)) x (xs ++ x ∷ ys)
        v.found (Present-append_right x xs (x ∷ ys) (inl refl)) in
    let eq : dequeue usable s x ≡ (false, removed s x) =
      unfold dequeue in rw (good, at, marked) refl in
    let inside : s.id x < s.sock_limit = elim (ltb_cases (s.id x) s.sock_limit) [
      | inl (_, h) ↦ h
      | inr (_, h) ↦ cc (at, get_or_beyond s.socktab (s.id x) none (omega (arith, v.width)))
    ] in
    rw eq (removed-IsValid s x xs ys v inside at, refl)

-- What `dequeue` does: it refuses, or it takes the socket out.
abbrev pub Dequeues : (ℕ → Bool) → Socks → List ℕ → ℕ → Type 0
Dequeues usable s ids x =
    ((dequeue usable s x ≡ (true, s)) × ((usable x ≡ false) ⊎ (s.enqueued x ≡ false)))
    ⊎ (((dequeue usable s x).0 ≡ false)
        × ((xs : List ℕ) × (ys : List ℕ) × (ids ≡ xs ++ x ∷ ys)
            × IsValid (dequeue usable s x).1 (xs ++ ys))
        × (svz_sock_find (dequeue usable s x).1 (s.id x) none ≡ none))

-- `dequeue` either refuses a socket and leaves everything as it was, and then its descriptors are
-- unusable or it is not enqueued; or it takes the socket out of the list, wherever it stands, keeps
-- the order of the others, and does not find its id any more.
pub dequeue-IsValid :
    (usable : ℕ → Bool) (s : Socks) (ids : List ℕ) (x : ℕ) → IsValid s ids → Dequeues usable s ids x
unfolding dequeue
dequeue-IsValid usable s ids x v = elim (Bool-cases (usable x)) [
  | inr bad ↦ inl (rw bad refl, inl bad)
  | inl good ↦ elim (Bool-cases (s.enqueued x)) [
    | inr unmarked ↦ inl (
      elim (Bool-cases (taken (entry s (s.id x)))) [
        | inl there ↦ rw (good, there, unmarked) refl
        | inr gone ↦ rw (good, gone) refl
      ],
      inr unmarked,
    )
    | inl marked ↦
        let there = v.listed x marked in
        let (_, at) =
          All-Present (λ z. (s.enqueued z ≡ true) × (entry s (s.id z) ≡ some z)) x ids v.found
            there in
        let (xs, ys, e) = split_at x ids there in
        let eq : dequeue usable s x ≡ (false, removed s x) =
          unfold dequeue in rw (good, at, marked) refl in
        let w : IsValid s (xs ++ x ∷ ys) = subst (IsValid s) e v in
        let inside : s.id x < s.sock_limit = elim (ltb_cases (s.id x) s.sock_limit) [
          | inl (_, h) ↦ h
          | inr (_, h) ↦ cc (at, get_or_beyond s.socktab (s.id x) none (omega (arith, v.width)))
        ] in
        inr (
          ap (λ r. r.0) eq,
          (xs, ys, e, rw eq (removed-IsValid s x xs ys w inside at)),
          rw eq (removed_lost s x xs ys w inside at),
        )
  ]
]
