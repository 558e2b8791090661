-- ===== src/Chain/Move.antt =====
-- Moving the last element of a doubly linked list to another place.
use serveez.Base.{List, Option, [], none, refl, some, sym, ℕ, ◌++◌, ◌∙◌, ◌∷◌, ◌≡◌}
use serveez.Chain.{Absent, AbsentIf, IsChain, Links, Segment, assign, assign_if, head_or, last_or}
use serveez.Chain.Segment.{
  Apart, Apart-cut, Distinct-cut, Distinct-join, Segment-assign_next, Segment-assign_prev,
  Segment-cut, Segment-end, Segment-join, Segment-start, assign_self, last-Apart, last_or-append,
}
use serveez.Chain.Unlink.{assign_beside, by_last, by_link}

-- The links when `x`, the last element, stands behind `p`, or first, and `m` follows it; `e` is the
-- new end.
abbrev pub moved : Links → Option ℕ → ℕ → ℕ → Option ℕ → Links
moved l p x m e = record {
  first = by_link p (some x) l.first;
  last = e;
  next = assign_if (assign_if (assign l.next x (some m)) p (some x)) e none;
  prev = assign (assign l.prev m (some x)) x p;
}

-- The pointer of the last element of a segment.
pub Segment-last :
    (n p : ℕ → Option ℕ) (b : Option ℕ) (xs : List ℕ) (a : Option ℕ) (z : ℕ)
    → Segment n p b xs a
    → last_or none xs ≡ some z
    → n z ≡ a
Segment-last n p b [] a z s e = cc
Segment-last n p b (x ∷ []) a z (e, _, _) f = let same : x ≡ z = cc in rw (← same) e
Segment-last n p b (x ∷ (y ∷ xs)) a z (_, _, s) f = Segment-last n p (some x) (y ∷ xs) a z s f

-- The last element of a part that is apart is absent.
AbsentIf-last :
    (xs ys : List ℕ) (m : ℕ) → Absent m xs → Apart xs ys → AbsentIf (last_or (some m) ys) xs
AbsentIf-last xs [] m h k = h
AbsentIf-last xs (y ∷ ys) m h (here, k) = AbsentIf-last xs ys y here k

moved_starts :
    (l : Links) (ls : List ℕ) (m x : ℕ) (r q : List ℕ)
    → l.first ≡ head_or (ls ++ (m ∷ r)) none
    → by_link (last_or none ls) (some x) l.first ≡ head_or (ls ++ x ∷ q) none
moved_starts l [] m x r q e = refl
moved_starts l (y ∷ ls) m x r q e = by_last y ls (some x) l.first ∙ e

pub moved-IsChain :
    (l : Links) (ls : List ℕ) (m : ℕ) (ms : List ℕ) (x : ℕ)
    → IsChain l (ls ++ (m ∷ (ms ++ x ∷ [])))
    → IsChain (moved l (last_or none ls) x m (last_or (some m) ms)) (ls ++ x ∷ (m ∷ ms))
moved-IsChain l ls m ms x c =
    let p = last_or none ls in
    let e = last_or (some m) ms in
    let r = m ∷ (ms ++ x ∷ []) in
    let (dl, dr, apart) = Distinct-cut ls r c.distinct in
    let (dm, dx, away) = Distinct-cut (m ∷ ms) (x ∷ []) dr in
    let (left, rest) = Segment-cut l.next l.prev none ls r none c.linked in
    let (mid, _) = Segment-cut l.next l.prev p (m ∷ ms) (x ∷ []) none rest in
    let x_mid : Absent x (m ∷ ms) = away.0 in
    let (apart_mid, (x_left, _)) = Apart-cut ls (m ∷ ms) (x ∷ []) apart in
    let m_left : Absent m ls = apart_mid.0 in
    let e_left : AbsentIf e ls = AbsentIf-last ls ms m m_left apart_mid.1 in
    let p_mid : AbsentIf p (m ∷ ms) = last-Apart ls (m ∷ ms) apart_mid in
    let x_p : AbsentIf p (x ∷ []) = last-Apart ls (x ∷ []) (x_left, tt) in
    let x_e : AbsentIf e (x ∷ []) = last-Apart (m ∷ ms) (x ∷ []) (x_mid, tt) in
    let n1 = assign l.next x (some m) in
    let n2 = assign_if n1 p (some x) in
    let n3 = assign_if n2 e none in
    let p1 = assign l.prev m (some x) in
    let p2 = assign p1 x p in
    let left2 : Segment n2 l.prev none ls (some x) =
      Segment-end n1 l.prev none ls (some m) (some x) dl
        (Segment-assign_next l.next l.prev none ls (some m) (some x) (some m) x_left left) in
    let left3 : Segment n3 p2 none ls (some x) =
      Segment-assign_prev n3 p1 none ls (some x) (some x) p x_left (
        Segment-assign_prev n3 l.prev none ls (some x) (some m) (some x) m_left
          (Segment-assign_next n2 l.prev none ls (some x) e none e_left left2)) in
    let mid2 : Segment n2 l.prev p (m ∷ ms) (some x) =
      Segment-assign_next n1 l.prev p (m ∷ ms) (some x) p (some x) p_mid
        (Segment-assign_next l.next l.prev p (m ∷ ms) (some x) (some x) (some m) x_mid mid) in
    let mid3 : Segment n3 p2 (some x) (m ∷ ms) none =
      Segment-assign_prev n3 p1 (some x) (m ∷ ms) none (some x) p x_mid (
        Segment-start n3 l.prev p (m ∷ ms) none (some x) dm
          (Segment-end n2 l.prev p (m ∷ ms) (some x) none dm mid2)) in
    let next_x : n3 x ≡ some m =
      assign_beside n2 e none x x_e
      ∙ assign_beside n1 p (some x) x x_p
      ∙ assign_self l.next x (some m) in
    record {
      starts = moved_starts l ls m x (ms ++ x ∷ []) (m ∷ ms) c.starts;
      ends = sym (last_or-append none ls (x ∷ (m ∷ ms)));
      linked =
          Segment-join n3 p2 none ls (x ∷ (m ∷ ms)) none left3 (next_x, assign_self p1 x p, mid3);
      distinct = Distinct-join ls (x ∷ (m ∷ ms)) dl (x_mid, dm) (x_left, apart_mid);
    }
