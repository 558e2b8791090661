-- ===== src/Chain/Push.antt =====
-- Putting an element at the end, at the start, or in the middle of a doubly linked list.
use mathlib.Core.List.{append-nil}
use serveez.Base.{List, Option, [], ap, none, refl, some, sym, ℕ, ◌++◌, ◌∙◌, ◌∷◌, ◌≡◌}
use serveez.Chain.{Absent, Distinct, IsChain, Links, Segment, assign, assign_if, last_or}
use serveez.Chain.Segment.{
  Distinct-join, Segment-assign_next, Segment-assign_prev, Segment-end, Segment-join, Segment-start,
  assign_other, assign_self, last_or-append,
}
use serveez.Chain.Unlink.{assign_beside, by_link, prev_beside}

-- The element behind the last one.
unfoldable pub push_back : Links → ℕ → Links
push_back l x =
    let clear = record l { next = assign l.next x none; prev = assign l.prev x none } in
    let linked : Links = elim l.first [
      | none ↦ record clear { first = some x }
      | some y ↦ record clear {
        next = assign_if clear.next l.last (some x);
        prev = assign clear.prev x l.last;
      }
    ] in
    record linked { last = some x }

-- The element before the first one, which the list may not have.
unfoldable pub push_front : Links → ℕ → Links
push_front l x =
    let clear = record l { next = assign l.next x l.first; prev = assign l.prev x none } in
    let linked : Links = elim l.first [
      | none ↦ record clear { last = some x }
      | some y ↦ record clear { prev = assign clear.prev y (some x) }
    ] in
    record linked { first = some x }

Distinct-snoc : (ids : List ℕ) (x : ℕ) → Distinct ids → Absent x ids → Distinct (ids ++ x ∷ [])
Distinct-snoc ids x d h = Distinct-join ids (x ∷ []) d (tt, tt) (h, tt)

pub push_back-IsChain :
    (l : Links) (ids : List ℕ) (x : ℕ)
    → IsChain l ids
    → Absent x ids
    → IsChain (push_back l x) (ids ++ x ∷ [])
unfolding push_back
push_back-IsChain l [] x c away =
    rw (c.starts, push_back)
      (record {
        starts = refl;
        ends = refl;
        linked = (assign_self l.next x none, assign_self l.prev x none, tt);
        distinct = (tt, tt);
      })
push_back-IsChain l (y ∷ ys) x c away =
    let n = assign l.next x none in
    let e = last_or (some y) ys in
    let s : Segment n l.prev none (y ∷ ys) none =
      Segment-assign_next l.next l.prev none (y ∷ ys) none (some x) none away c.linked in
    let t : Segment (assign_if n e (some x)) l.prev none (y ∷ ys) (some x) =
      Segment-end n l.prev none (y ∷ ys) none (some x) c.distinct s in
    let p = assign (assign l.prev x none) x e in
    let u : Segment (assign_if n e (some x)) p none (y ∷ ys) (some x) =
      Segment-assign_prev _ (assign l.prev x none) none (y ∷ ys) (some x) (some x) e away
        (Segment-assign_prev _ l.prev none (y ∷ ys) (some x) (some x) none away t) in
    let beside = assign_beside n e (some x) x (prev_beside x (y ∷ ys) [] (rw append-nil away)) in
    rw (c.starts, c.ends, push_back)
      (record {
        starts = c.starts;
        ends = sym (last_or-append none (y ∷ ys) (x ∷ []));
        linked =
            Segment-join (assign_if n e (some x)) p none (y ∷ ys) (x ∷ []) none u
              (beside ∙ assign_self l.next x none, assign_self (assign l.prev x none) x e, tt);
        distinct = Distinct-snoc (y ∷ ys) x c.distinct away;
      })

pub push_front_lem :
    (l : Links) (x : ℕ) (f : Option ℕ)
    → l.first ≡ f
    → push_front l x ≡ record {
      first = some x;
      last = by_link f (some x) l.last;
      next = assign l.next x f;
      prev = assign_if (assign l.prev x none) f (some x);
    }
unfolding push_front
push_front_lem l x none e =
    rw (e, push_front)
      (ap
        (λ f. record {
          first = some x;
          last = some x;
          next = assign l.next x f;
          prev = assign l.prev x none;
        })
        e)
push_front_lem l x (some y) e =
    rw (e, push_front)
      (ap
        (λ f. record {
          first = some x;
          last = l.last;
          next = assign l.next x f;
          prev = assign (assign l.prev x none) y (some x);
        })
        e)

pub push_front-IsChain :
    (l : Links) (ids : List ℕ) (x : ℕ)
    → IsChain l ids
    → Absent x ids
    → IsChain (push_front l x) (x ∷ ids)
push_front-IsChain l [] x c away = rw (push_front_lem l x none c.starts) (record {
  starts = refl;
  ends = refl;
  linked = (assign_self l.next x none, assign_self l.prev x none, tt);
  distinct = (tt, tt);
})
push_front-IsChain l (y ∷ ys) x c away =
    let f : Option ℕ = some y in
    let n = assign l.next x f in
    let p = assign l.prev x none in
    let s : Segment n p none (y ∷ ys) none =
      Segment-assign_next l.next p none (y ∷ ys) none (some x) f away
        (Segment-assign_prev l.next l.prev none (y ∷ ys) none (some x) none away c.linked) in
    let t : Segment n (assign p y (some x)) (some x) (y ∷ ys) none =
      Segment-start n p none (y ∷ ys) none (some x) c.distinct s in
    rw (push_front_lem l x f c.starts) (record {
      starts = refl;
      ends = c.ends;
      linked = (
        assign_self l.next x f,
        assign_other p y x (some x) (λ e. away.0 (sym e)) ∙ assign_self l.prev x none,
        t,
      );
      distinct = (away, c.distinct);
    })
