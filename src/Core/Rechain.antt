-- ===== src/Core/Rechain.antt =====
-- server-core.c: `rechain_list_of_socks`, which moves the last socket before the sockets that are
-- neither listeners nor of priority.
use mathlib.Core.Path.{subst}
use mathlib.Core.List.{append_assoc}
use serveez.Base.{
  ==_cases, ==_iff, Bool, Bool-cases, List, Option, [], ap, arith, false, if◌then◌else◌, inl, inr,
  length, none, not, refl, some, suc, sym, true, zero, ℕ, ◌&&◌, ◌++◌, ◌<◌, ◌==◌, ◌||◌, ◌∙◌, ◌∷◌,
  ◌≡◌, ◌≢◌, ◌⊎◌,
}
use serveez.Chain.{Absent, IsChain, Links, Segment, assign, assign_if, head_or, last_or}
use serveez.Chain.Move.{Segment-last, moved, moved-IsChain}
use serveez.Chain.Segment.{Absent-append, Distinct-cut, Segment-cut, assign_comm, last_or-append}
use serveez.Chain.Unlink.{by_link}
use serveez.Core.{Socks}
use serveez.Core.Valid.{
  All-Present, IsValid, Present, Present-All, Present-append_left, Present-append_right,
}

abbrev pub passes : Socks → ℕ → ℕ → Bool
passes s x y = (s.listening y || s.priority y) && not (s.listening x)

-- The loop that looks for the first socket that does not pass; `none` without enough fuel.
unfoldable pub first_other : Socks → ℕ → ℕ → Option ℕ → Option (Option ℕ)
first_other s x zero cur = none
first_other s x (suc fuel) none = some none
first_other s x (suc fuel) (some y) = elim (not (y == x) && passes s x y) [
  | true ↦ first_other s x fuel (s.links.next y)
  | false ↦ some (some y)
]

-- The last socket `x` goes before `m`, behind the socket before that one or to the root.
unfoldable pub put_before : Links → ℕ → ℕ → Links
put_before l x m = elim (l.prev m) [
  | some p ↦ record l {
    next = assign (assign l.next x (l.next p)) p (some x);
    prev = assign (assign_if l.prev (l.next p) (some x)) x (some p);
  }
  | none ↦ record l {
    first = some x;
    next = assign l.next x l.first;
    prev = assign_if (assign l.prev x none) l.first (some x);
  }
]

abbrev pub end_at : Links → ℕ → Links
end_at l e = record l { last = some e; next = assign l.next e none }

-- What happens with the socket that the loop found.
abbrev pub move_last : Socks → ℕ → ℕ → Option (Option ℕ) → Option Socks
move_last s x e none = none
move_last s x e (some none) = some s
move_last s x e (some (some m)) =
    if x == m then some s else some (record s { links = end_at (put_before s.links x m) e })

abbrev pub move_behind : ℕ → Socks → ℕ → Option ℕ → Option Socks
move_behind fuel s x none = some s
move_behind fuel s x (some e) = move_last s x e (first_other s x fuel s.links.first)

abbrev pub move_sock : ℕ → Socks → Option ℕ → Option Socks
move_sock fuel s none = some s
move_sock fuel s (some x) = move_behind fuel s x (s.links.prev x)

unfoldable pub rechain_list_of_socks : ℕ → Socks → Option Socks
rechain_list_of_socks fuel s = move_sock fuel s s.links.last

-- The order that the list gets.
abbrev pub insert_behind : (ℕ → Bool) → ℕ → List ℕ → List ℕ
insert_behind pass x [] = x ∷ []
insert_behind pass x (y ∷ ys) = if pass y then y ∷ insert_behind pass x ys else x ∷ (y ∷ ys)

-- Where the search ends.
abbrev SearchEnd : Socks → ℕ → ℕ → Option ℕ → List ℕ → Type 0
SearchEnd s x fuel cur zs =
    ((first_other s x fuel cur ≡ some (some x)) × (insert_behind (passes s x) x zs ≡ zs ++ x ∷ []))
    ⊎ ((ls : List ℕ) × (m : ℕ) × (ms : List ℕ) × (zs ≡ ls ++ m ∷ ms)
        × (first_other s x fuel cur ≡ some (some m))
        × (insert_behind (passes s x) x zs ≡ ls ++ x ∷ (m ∷ ms)))

search_end :
    (s : Socks) (x : ℕ) (fuel : ℕ) (b : Option ℕ) (zs : List ℕ)
    → Segment s.links.next s.links.prev b (zs ++ x ∷ []) none
    → Absent x zs
    → length zs < fuel
    → SearchEnd s x fuel (head_or (zs ++ x ∷ []) none) zs
unfolding first_other
search_end s x zero b zs c away h = absurd (omega (arith, h))
search_end s x (suc fuel) b [] c away h =
    let same = (==_iff x x).1 refl in inl (rw (same, first_other) refl, refl)
search_end s x (suc fuel) b (z ∷ zs) (e, _, c) (ne, away) h =
    let differ : (z == x) ≡ false = elim (==_cases z x) [
      | inl (_, same) ↦ absurd (ne (sym same))
      | inr (d, _) ↦ d
    ] in
    elim (Bool-cases (passes s x z)) [
      | inr stop ↦ inr ([], z, zs, refl, rw (differ, first_other) (rw stop refl), rw stop refl)
      | inl go ↦
          let step : first_other s x (suc fuel) (some z)
              ≡ first_other s x fuel (head_or (zs ++ x ∷ []) none) =
            rw (differ, first_other) (rw (go, first_other) (ap (first_other s x fuel) e)) in
          elim (search_end s x fuel (some z) zs c away (omega (arith, h))) [
            | inl (f, i) ↦ inl (step ∙ f, rw go (ap (λ r. z ∷ r) i))
            | inr (ls, m, ms, q, f, i) ↦
                inr (z ∷ ls, m, ms, ap (λ r. z ∷ r) q, step ∙ f, rw go (ap (λ r. z ∷ r) i))
          ]
    ]

-- The link to the element behind `p`, or to the first one.
abbrev link_behind : Links → Option ℕ → Option ℕ
link_behind l none = l.first
link_behind l (some q) = l.next q

put_before_lem :
    (l : Links) (x m : ℕ) (p : Option ℕ)
    → l.prev m ≡ p
    → link_behind l p ≡ some m
    → m ≢ x
    → put_before l x m ≡ record l {
      first = by_link p (some x) l.first;
      next = assign_if (assign l.next x (some m)) p (some x);
      prev = assign (assign l.prev m (some x)) x p;
    }
unfolding put_before
put_before_lem l x m none e f ne =
    rw (e, put_before)
      (ap
          (λ q. record l {
            first = some x;
            next = assign l.next x q;
            prev = assign_if (assign l.prev x none) q (some x);
          })
          f
        ∙ ap (λ q. record l { first = some x; next = assign l.next x (some m); prev = q })
            (assign_comm l.prev x m none (some x) (λ h. ne (sym h))))
put_before_lem l x m (some z) e f ne =
    rw (e, put_before)
      (ap
        (λ q. record l {
          next = assign (assign l.next x q) z (some x);
          prev = assign (assign_if l.prev q (some x)) x (some z);
        })
        f)

last_some : (m : ℕ) (ms : List ℕ) → (e : ℕ) × (last_or (some m) ms ≡ some e)
last_some m [] = (m, refl)
last_some m (y ∷ ms) = last_some y ms

link_behind_lem :
    (l : Links) (ls : List ℕ) (m : ℕ) (r : List ℕ)
    → IsChain l (ls ++ m ∷ r)
    → link_behind l (last_or none ls) ≡ some m
link_behind_lem l [] m r c = c.starts
link_behind_lem l (y ∷ ls) m r c =
    let (e, h) = last_some y ls in
    let (left, _) = Segment-cut l.next l.prev none (y ∷ ls) (m ∷ r) none c.linked in
    rw h (Segment-last l.next l.prev none (y ∷ ls) (some m) e left h)

module _ (s : Socks) (x : ℕ) (ls : List ℕ) (m : ℕ) (ms : List ℕ)
    (c : IsChain s.links (ls ++ (m ∷ (ms ++ x ∷ [])))) where
  x_beside : m ≢ x
  x_beside =
      let (_, (d, _), _) = Distinct-cut ls (m ∷ (ms ++ x ∷ [])) c.distinct in
      (Absent-append m ms (x ∷ []) d).1.0

  placed :
      (e : ℕ)
      → last_or (some m) ms ≡ some e
      → end_at (put_before s.links x m) e
        ≡ moved s.links (last_or none ls) x m (last_or (some m) ms)
  placed e h =
      let (_, (_, before, _)) =
        Segment-cut s.links.next s.links.prev none ls (m ∷ (ms ++ x ∷ [])) none c.linked in
      rw h (
        ap (λ l. end_at l e)
          (put_before_lem s.links x m (last_or none ls) before
            (link_behind_lem s.links ls m (ms ++ x ∷ []) c) x_beside))

  placed-IsChain :
      (e : ℕ)
      → last_or (some m) ms ≡ some e
      → IsChain (end_at (put_before s.links x m) e) (ls ++ x ∷ (m ∷ ms))
  placed-IsChain e h = rw (placed e h) (moved-IsChain s.links ls m ms x c)

Present-move :
    (z x : ℕ) (xs ys : List ℕ) → Present z ((xs ++ ys) ++ x ∷ []) → Present z (xs ++ x ∷ ys)
Present-move z x [] [] h = h
Present-move z x [] (y ∷ ys) (inl e) = inr (inl e)
Present-move z x [] (y ∷ ys) (inr h) = elim (Present-move z x [] ys h) [
  | inl e ↦ inl e
  | inr k ↦ inr (inr k)
]
Present-move z x (y ∷ xs) ys (inl e) = inl e
Present-move z x (y ∷ xs) ys (inr h) = inr (Present-move z x xs ys h)

Present-back :
    (z x : ℕ) (xs ys : List ℕ) → Present z (xs ++ x ∷ ys) → Present z ((xs ++ ys) ++ x ∷ [])
Present-back z x [] [] h = h
Present-back z x [] (y ∷ ys) (inl e) = inr (Present-append_right z ys (x ∷ []) (inl e))
Present-back z x [] (y ∷ ys) (inr (inl e)) = inl e
Present-back z x [] (y ∷ ys) (inr (inr h)) = inr (Present-append_left z ys (x ∷ []) h)
Present-back z x (y ∷ xs) ys (inl e) = inl e
Present-back z x (y ∷ xs) ys (inr h) = inr (Present-back z x xs ys h)

placed-IsValid :
    (s : Socks) (x : ℕ) (zs ls : List ℕ) (m : ℕ) (ms : List ℕ) (e : ℕ)
    → IsValid s (zs ++ x ∷ [])
    → zs ≡ ls ++ m ∷ ms
    → last_or (some m) ms ≡ some e
    → IsValid (record s { links = end_at (put_before s.links x m) e }) (ls ++ x ∷ (m ∷ ms))
placed-IsValid s x zs ls m ms e v q h =
    let w : IsValid s ((ls ++ m ∷ ms) ++ x ∷ []) = subst (λ r. IsValid s (r ++ x ∷ [])) q v in
    let c : IsChain s.links (ls ++ (m ∷ (ms ++ x ∷ []))) =
      subst (IsChain s.links) (append_assoc ls (m ∷ ms) (x ∷ [])) w.chain in
    record {
      chain = placed-IsChain s x ls m ms c e h;
      width = w.width;
      found = Present-All _ (ls ++ x ∷ (m ∷ ms)) (λ z there.
          All-Present _ z ((ls ++ m ∷ ms) ++ x ∷ []) w.found (Present-back z x ls (m ∷ ms) there));
      listed = λ z mark. Present-move z x ls (m ∷ ms) (w.listed z mark);
      owned = w.owned;
    }

-- For valid sockets of which `x` is the last, and fuel for the others: `rechain_list_of_socks`
-- ends, the sockets stay valid, and `x` stands before the first socket that is neither a listener
-- nor of priority, or before all others if it is a listener itself.
pub rechain-IsValid :
    (fuel : ℕ) (s : Socks) (xs : List ℕ) (x : ℕ)
    → IsValid s (xs ++ x ∷ [])
    → length xs < fuel
    → (r : Socks) × (rechain_list_of_socks fuel s ≡ some r)
      × IsValid r (insert_behind (passes s x) x xs)
unfolding rechain_list_of_socks
rechain-IsValid fuel s [] x v h =
    let (_, before, _) = v.chain.linked in
    (s, ap (move_sock fuel s) v.chain.ends ∙ ap (move_behind fuel s x) before, v)
rechain-IsValid fuel s (y ∷ ys) x v h =
    let (e, last) = last_some y ys in
    let ends : s.links.last ≡ some x = v.chain.ends ∙ last_or-append none (y ∷ ys) (x ∷ []) in
    let (_, (_, before, _)) =
      Segment-cut s.links.next s.links.prev none (y ∷ ys) (x ∷ []) none v.chain.linked in
    let (_, _, (away, _)) = Distinct-cut (y ∷ ys) (x ∷ []) v.chain.distinct in
    let step : (o : Option (Option ℕ))
        → first_other s x fuel (some y) ≡ o
        → rechain_list_of_socks fuel s ≡ move_last s x e o =
      λ o f.
        unfold rechain_list_of_socks in
        ap (move_sock fuel s) ends
        ∙ ap (move_behind fuel s x) (before ∙ last)
        ∙ ap (move_last s x e) (ap (first_other s x fuel) v.chain.starts ∙ f) in
    elim (search_end s x fuel none (y ∷ ys) v.chain.linked away h) [
      | inl (f, i) ↦
          let same = (==_iff x x).1 refl in (s, step (some (some x)) f ∙ rw same refl, rw i v)
      | inr (ls, m, ms, q, f, i) ↦
          let w : IsValid s ((ls ++ m ∷ ms) ++ x ∷ []) = subst (λ r. IsValid s (r ++ x ∷ [])) q v in
          let c : IsChain s.links (ls ++ (m ∷ (ms ++ x ∷ []))) =
            subst (IsChain s.links) (append_assoc ls (m ∷ ms) (x ∷ [])) w.chain in
          let differ : (x == m) ≡ false = elim (==_cases x m) [
            | inl (_, e) ↦ absurd (x_beside s x ls m ms c (sym e))
            | inr (d, _) ↦ d
          ] in
          let end : last_or (some m) ms ≡ some e =
            sym (last_or-append none ls (m ∷ ms)) ∙ sym (ap (last_or none) q) ∙ last in
          (
            record s { links = end_at (put_before s.links x m) e },
            step (some (some m)) f ∙ rw differ refl,
            rw i (placed-IsValid s x (y ∷ ys) ls m ms e v q end),
          )
    ]
