-- ===== src/Core/Enqueue.antt =====
-- server-core.c: `svz_sock_enqueue` keeps the sockets valid.
use mathlib.Core.Bool.{false≢true}
use native.Mathlib.Nat.{div-eq_of_lt}
use serveez.Base.{
  ==_cases, ==_iff, All-append, Bool, Bool-cases, List, Option-cases, [], ap, arith, false,
  get_or-set_ne, get_or-set_self, inl, inr, length-set, none, refl, set, some, sym, true, ℕ, ◌++◌,
  ◌/◌, ◌<◌, ◌∙◌, ◌∷◌, ◌≡◌, ◌≢◌, ◌⊎◌,
}
use serveez.Chain.{Absent, assign}
use serveez.Chain.Push.{push_back, push_back-IsChain}
use serveez.Chain.Segment.{assign_other, assign_self}
use serveez.Core.{Socks, entry, svz_sock_enqueue, svz_sock_find, taken}
use serveez.Core.Valid.{All-map, IsValid, Present, Present-append_left, Present-append_right}

abbrev enlisted : Socks → ℕ → Socks
enlisted s x = record s {
  links = push_back s.links x;
  enqueued = assign s.enqueued x true;
  socktab = set s.socktab (s.id x) (some x);
}

-- A socket that is not marked is not in the list.
unmarked-Absent :
    (s : Socks) (ids : List ℕ) (x : ℕ) → IsValid s ids → s.enqueued x ≡ false → Absent x ids
unmarked-Absent s ids x v e =
    All-map (λ y. (s.enqueued y ≡ true) × (entry s (s.id y) ≡ some y)) (λ y. x ≢ y) ids
      (λ y p same. absurd (false≢true (sym e ∙ ap s.enqueued same ∙ p.0))) v.found

module _ (s : Socks) (ids : List ℕ) (x : ℕ) (v : IsValid s ids) (inside : s.id x < s.sock_limit)
    (free : entry s (s.id x) ≡ none) (unmarked : s.enqueued x ≡ false) where
  own_entry : entry (enlisted s x) (s.id x) ≡ some x
  own_entry = get_or-set_self s.socktab (s.id x) (some x) none (omega (arith, v.width))

  other_entry : (i : ℕ) → s.id x ≢ i → entry (enlisted s x) i ≡ entry s i
  other_entry i ne = get_or-set_ne s.socktab (s.id x) i (some x) none ne

  -- A socket of the list keeps its mark and its entry.
  kept :
      (y : ℕ)
      → (s.enqueued y ≡ true) × (entry s (s.id y) ≡ some y)
      → (assign s.enqueued x true y ≡ true) × (entry (enlisted s x) (s.id y) ≡ some y)
  kept y (mark, at) =
      let ne : x ≢ y = λ e. false≢true (sym unmarked ∙ ap s.enqueued e ∙ mark) in
      let apart : s.id x ≢ s.id y = λ e. cc (sym free ∙ ap (entry s) e ∙ at) in
      (assign_other s.enqueued x y true ne ∙ mark, other_entry (s.id y) apart ∙ at)

  listed : (y : ℕ) → assign s.enqueued x true y ≡ true → Present y (ids ++ x ∷ [])
  listed y mark = elim (==_cases x y) [
    | inl (_, e) ↦ Present-append_right y ids (x ∷ []) (inl (sym e))
    | inr (_, ne) ↦
        Present-append_left y ids (x ∷ [])
          (v.listed y (sym (assign_other s.enqueued x y true ne) ∙ mark))
  ]

  owned :
      (i y : ℕ)
      → entry (enlisted s x) i ≡ some y
      → (assign s.enqueued x true y ≡ true) × (s.id y ≡ i)
  owned i y at = elim (==_cases (s.id x) i) [
    | inl (_, e) ↦
        let same : x ≡ y = cc (sym own_entry, ap (entry (enlisted s x)) e, at) in
        (rw (← same) (assign_self s.enqueued x true), rw (← same) e)
    | inr (_, ne) ↦
        let old = v.owned i y (sym (other_entry i ne) ∙ at) in
        let other : x ≢ y = λ e. false≢true (sym unmarked ∙ ap s.enqueued e ∙ old.0) in
        (assign_other s.enqueued x y true other ∙ old.0, old.1)
  ]

  enlisted-IsValid : IsValid (enlisted s x) (ids ++ x ∷ [])
  enlisted-IsValid = record {
    chain = push_back-IsChain s.links ids x v.chain (unmarked-Absent s ids x v unmarked);
    width = length-set s.socktab (s.id x) (some x) ∙ v.width;
    found =
        All-append _ ids (x ∷ []) (All-map _ _ ids kept v.found)
          ((assign_self s.enqueued x true, own_entry), tt);
    listed = listed;
    owned = owned;
  }

  enlisted_found : svz_sock_find (enlisted s x) (s.id x) (some (s.version x)) ≡ some x
  unfolding svz_sock_find
  enlisted_found =
      let small : s.id x / s.sock_limit ≡ 0 = div-eq_of_lt inside in
      let same = (==_iff (s.version x) (s.version x)).1 refl in
      rw (small, own_entry, svz_sock_find) (rw same refl)

-- What `svz_sock_enqueue` does: it refuses, or it enlists the socket.
abbrev pub Enqueues : (ℕ → Bool) → Socks → List ℕ → ℕ → Type 0
Enqueues usable s ids x =
    ((svz_sock_enqueue usable s x ≡ (true, s))
      × ((usable x ≡ false) ⊎ (taken (entry s (s.id x)) ≡ true) ⊎ (s.enqueued x ≡ true)))
    ⊎ (((svz_sock_enqueue usable s x).0 ≡ false)
        × IsValid (svz_sock_enqueue usable s x).1 (ids ++ x ∷ [])
        × (svz_sock_find (svz_sock_enqueue usable s x).1 (s.id x) (some (s.version x)) ≡ some x))

-- For a socket whose id lies inside the lookup table, `svz_sock_enqueue` either refuses it and
-- leaves everything as it was, and then its descriptors are unusable, its id is taken or it is
-- already enqueued; or it puts it at the end of the list, and finds it by its id and version.
pub enqueue-IsValid :
    (usable : ℕ → Bool) (s : Socks) (ids : List ℕ) (x : ℕ)
    → IsValid s ids
    → s.id x < s.sock_limit
    → Enqueues usable s ids x
unfolding svz_sock_enqueue
enqueue-IsValid usable s ids x v inside = elim (Bool-cases (usable x)) [
  | inr bad ↦ inl (rw bad refl, inl bad)
  | inl good ↦ elim (Option-cases (entry s (s.id x))) [
    | inr (y, at) ↦ inl (rw (good, at) refl, inr (inl (rw at refl)))
    | inl free ↦ elim (Bool-cases (s.enqueued x)) [
      | inl marked ↦ inl (rw (good, free, marked) refl, inr (inr marked))
      | inr unmarked ↦
          let eq : svz_sock_enqueue usable s x ≡ (false, enlisted s x) =
            unfold svz_sock_enqueue in rw (good, free, unmarked) refl in
          inr (
            ap (λ r. r.0) eq,
            rw eq (enlisted-IsValid s ids x v inside free unmarked),
            rw eq (enlisted_found s ids x v inside free unmarked),
          )
    ]
  ]
]
