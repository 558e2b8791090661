-- ===== src/Cache/Order.antt =====
-- http-cache.c: the order of the entries.
use mathlib.Core.Path.{subst}
use mathlib.Core.List.{append_assoc}
use serveez.Base.{
  ==_cases, ==_iff, List, Option, [], ap, arith, false, inl, inr, length, none, refl, some, suc,
  sym, zero, ℕ, ◌++◌, ◌+◌, ◌<◌, ◌==◌, ◌∙◌, ◌∷◌, ◌≡◌, ◌≢◌,
}
use serveez.Cache.{HttpCache, front_links, http_cache_urgency, http_urgent_cache, urgency_loop}
use serveez.Chain.{Absent, IsChain, Links, Segment, assign, assign_if, head_or, last_or}
use serveez.Chain.Push.{push_front, push_front-IsChain, push_front_lem}
use serveez.Chain.Segment.{Distinct-cut, assign_comm}
use serveez.Chain.Unlink.{IsChain-Around, close_next, close_prev, close_prev_next-IsChain}

-- The two orders of the writes to `prev`.
front_links-push_front :
    (l : Links) (x y : ℕ) (ys : List ℕ)
    → IsChain (close_next (close_prev l x) x) (y ∷ ys)
    → x ≢ y
    → front_links l x ≡ push_front (close_next (close_prev l x) x) x
unfolding front_links push_front
front_links-push_front l x y ys c ne =
    let out = close_next (close_prev l x) x in
    ap {A = Option ℕ}
      (λ f. record out {
        first = some x;
        next = assign out.next x f;
        prev = assign (assign_if out.prev f (some x)) x none;
      })
      c.starts
    ∙ ap {A = ℕ → Option ℕ}
        (λ p. record out { first = some x; next = assign out.next x (some y); prev = p })
        (assign_comm out.prev y x (some x) none (λ e. ne (sym e)))
    ∙ sym (push_front_lem out x (some y) c.starts)

-- The entry is the first one afterwards.
pub urgent_links :
    (l : Links) (y : ℕ) (xs : List ℕ) (x : ℕ) (ys : List ℕ)
    → IsChain l ((y ∷ xs) ++ x ∷ ys)
    → IsChain (front_links l x) (x ∷ ((y ∷ xs) ++ ys))
urgent_links l y xs x ys c =
    let a = IsChain-Around l (y ∷ xs) x ys c in
    let out = close_prev_next-IsChain l (y ∷ xs) x ys c in
    rw (front_links-push_front l x y (xs ++ ys) out a.fresh.0)
      (push_front-IsChain (close_next (close_prev l x) x) ((y ∷ xs) ++ ys) x out a.fresh)

prev_some : (y : ℕ) (xs : List ℕ) → (p : ℕ) × (last_or (some y) xs ≡ some p)
prev_some y [] = (y, refl)
prev_some y (z ∷ xs) = prev_some z xs

urgent_lem :
    {T : Type 0} (c : HttpCache T) (x p : ℕ)
    → c.links.prev x ≡ some p
    → http_urgent_cache c x ≡ record c { links = front_links c.links x }
unfolding http_urgent_cache
urgent_lem c x p e = rw (e, http_urgent_cache) refl

urgent_first :
    {T : Type 0} (c : HttpCache T) (x : ℕ) → c.links.prev x ≡ none → http_urgent_cache c x ≡ c
unfolding http_urgent_cache
urgent_first c x e = rw (e, http_urgent_cache) refl

-- `http_urgent_cache` takes an entry to the front of the list, wherever it stands, and keeps the
-- order of the others.
pub urgent_cache-IsChain :
    {T : Type 0} (c : HttpCache T) (xs : List ℕ) (x : ℕ) (ys : List ℕ)
    → IsChain c.links (xs ++ x ∷ ys)
    → IsChain (http_urgent_cache c x).links (x ∷ (xs ++ ys))
urgent_cache-IsChain c [] x ys h =
    let a = IsChain-Around c.links [] x ys h in rw (urgent_first c x a.prev) h
urgent_cache-IsChain c (y ∷ xs) x ys h =
    let a = IsChain-Around c.links (y ∷ xs) x ys h in
    let (p, e) = prev_some y xs in
    rw (urgent_lem c x p (a.prev ∙ e)) (urgent_links c.links y xs x ys h)

-- The loop counts the entries before the one it looks for.
urgency_lem :
    (l : Links) (fuel x n : ℕ) (b : Option ℕ) (xs ys : List ℕ)
    → Segment l.next l.prev b (xs ++ x ∷ ys) none
    → Absent x xs
    → length xs < fuel
    → urgency_loop l fuel x n (head_or (xs ++ x ∷ ys) none) ≡ some (some (n + length xs))
unfolding urgency_loop
urgency_lem l zero x n b xs ys s away le = absurd (omega (arith, le))
urgency_lem l (suc fuel) x n b [] ys s away le =
    let same = (==_iff x x).1 refl in
    rw (same, urgency_loop) (ap (λ k. some (some k)) (let e : n ≡ n + 0 = omega arith in e))
urgency_lem l (suc fuel) x n b (y ∷ xs) ys (e, _, s) (ne, away) le =
    let differ : (y == x) ≡ false = elim (==_cases y x) [
      | inl (_, same) ↦ absurd (ne (sym same))
      | inr (d, _) ↦ d
    ] in
    let count : n + 1 + length xs ≡ n + suc (length xs) = omega arith in
    rw (differ, urgency_loop)
      (ap (urgency_loop l fuel x (n + 1)) e
        ∙ urgency_lem l fuel x (n + 1) (some y) xs ys s away (omega (arith, le))
        ∙ ap (λ k. some (some k)) count)

-- `http_cache_urgency` is the number of entries before the given one.
pub urgency_at :
    {T : Type 0} (fuel : ℕ) (c : HttpCache T) (xs : List ℕ) (x : ℕ) (ys : List ℕ)
    → IsChain c.links (xs ++ x ∷ ys)
    → length xs < fuel
    → http_cache_urgency fuel c x ≡ some (some (length xs))
unfolding http_cache_urgency
urgency_at fuel c xs x ys h le =
    let (_, _, apart) = Distinct-cut xs (x ∷ ys) h.distinct in
    ap (urgency_loop c.links fuel x 0) h.starts
    ∙ urgency_lem c.links fuel x 0 none xs ys h.linked apart.0 le
    ∙ ap (λ k. some (some k)) (let e : 0 + length xs ≡ length xs = omega arith in e)

next_urgency :
    {T : Type 0} (fuel : ℕ) (c : HttpCache T) (x : ℕ) (zs us : List ℕ) (z : ℕ)
    → IsChain c.links (x ∷ ((zs ++ z ∷ us)))
    → length zs + 1 < fuel
    → http_cache_urgency fuel c z ≡ some (some (suc (length zs)))
next_urgency fuel c x zs us z h le = urgency_at fuel c (x ∷ zs) z us h (omega (arith, le))

-- After `http_urgent_cache` the urgency of the entry is 0, and that of an entry that stood before
-- it is one more than it was, when the fuel is more than the number of entries.
pub urgent_cache-urgency :
    {T : Type 0} (fuel : ℕ) (c : HttpCache T) (xs : List ℕ) (z : ℕ) (zs : List ℕ) (x : ℕ)
    (ys : List ℕ)
    → IsChain c.links (xs ++ z ∷ (zs ++ x ∷ ys))
    → length xs + 1 < fuel
    → (http_cache_urgency fuel (http_urgent_cache c x) x ≡ some (some 0))
      × (http_cache_urgency fuel c z ≡ some (some (length xs)))
      × (http_cache_urgency fuel (http_urgent_cache c x) z ≡ some (some (length xs + 1)))
urgent_cache-urgency fuel c xs z zs x ys h le =
    let before : IsChain c.links ((xs ++ z ∷ zs) ++ x ∷ ys) =
      subst (IsChain c.links) (sym (append_assoc xs (z ∷ zs) (x ∷ ys))) h in
    let after = urgent_cache-IsChain c (xs ++ z ∷ zs) x ys before in
    let d = http_urgent_cache c x in
    let after2 : IsChain d.links (x ∷ (xs ++ z ∷ (zs ++ ys))) =
      subst (λ l. IsChain d.links (x ∷ l)) (append_assoc xs (z ∷ zs) ys) after in
    (
      urgency_at fuel d [] x ((xs ++ z ∷ zs) ++ ys) after (omega (arith, le)),
      urgency_at fuel c xs z (zs ++ x ∷ ys) h (omega (arith, le)),
      next_urgency fuel d x xs (zs ++ ys) z after2 le
          ∙ ap (λ k. some (some k)) (let e : suc (length xs) ≡ length xs + 1 = omega arith in e),
    )
