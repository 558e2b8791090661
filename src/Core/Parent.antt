-- ===== src/Core/Parent.antt =====
-- server-core.c: references from one socket to another, which end when that one goes.
use native.Mathlib.Nat.{div-eq_of_lt}
use serveez.Base.{
  ==_cases, ==_iff, Bool-cases, List, Option, Option-cases, arith, false, get_or_beyond, inl, inr,
  ltb_cases, none, refl, some, sym, true, ℕ, ◌/◌, ◌<◌, ◌==◌, ◌∙◌, ◌≡◌, ◌≢◌, ◌⊎◌,
}
use serveez.Chain.{assign}
use serveez.Chain.Segment.{assign_self}
use serveez.Core.{Socks, entry, minus_one, svz_sock_find}
use serveez.Core.Valid.{All-Present, IsValid, Present}

-- `none` is NULL, for which nothing happens.
unfoldable pub svz_sock_setparent : Socks → Option ℕ → Option ℕ → Socks
svz_sock_setparent s none parent = s
svz_sock_setparent s (some child) none = s
svz_sock_setparent s (some child) (some parent) = record s {
  parent_id = assign s.parent_id child (some (s.id parent));
  parent_version = assign s.parent_version child (some (s.version parent));
}

-- No id is -1 in the table, so `svz_sock_find` returns NULL for it.
abbrev pub find_reference : Socks → Option ℕ → Option ℕ → Option ℕ
find_reference s none version = none
find_reference s (some id) version = svz_sock_find s id version

unfoldable pub svz_sock_getparent : Socks → Option ℕ → Option ℕ
svz_sock_getparent s none = none
svz_sock_getparent s (some child) = find_reference s (s.parent_id child) (s.parent_version child)

unfoldable pub svz_sock_setreferrer : Socks → ℕ → Option ℕ → Socks
svz_sock_setreferrer s x none = record s {
  referrer_id = assign s.referrer_id x none;
  referrer_version = assign s.referrer_version x none;
}
svz_sock_setreferrer s x (some referrer) = record s {
  referrer_id = assign s.referrer_id x (some (s.id referrer));
  referrer_version = assign s.referrer_version x (some (s.version referrer));
}

unfoldable pub svz_sock_getreferrer : Socks → Option ℕ → Option ℕ
svz_sock_getreferrer s none = none
svz_sock_getreferrer s (some x) = find_reference s (s.referrer_id x) (s.referrer_version x)

unfoldable pub svz_sock_portcfg : Socks → Option ℕ → Option ℕ
svz_sock_portcfg s x = elim (svz_sock_getparent s x) [ none ↦ none | some parent ↦ s.port parent ]

not_equal : (a b : ℕ) → a ≢ b → (a == b) ≡ false
not_equal a b h = elim (==_cases a b) [ inl (_, same) ↦ absurd (h same) | inr (e, _) ↦ e ]

-- What `svz_sock_find` returns has the id and the version.
find_sound :
    (s : Socks) (ids : List ℕ) (i v q : ℕ)
    → IsValid s ids
    → v ≢ minus_one
    → svz_sock_find s i (some v) ≡ some q
    → (s.id q ≡ i) × (s.version q ≡ v) × Present q ids
unfolding svz_sock_find
find_sound s ids i v q w counts e = elim (Bool-cases (i / s.sock_limit == 0)) [
  | inr out ↦ cc (e, svz_sock_find_out out)
  | inl small ↦ elim (Option-cases (entry s i)) [
    | inl gone ↦ cc (e, svz_sock_find_gone small gone)
    | inr (x, at) ↦ elim (==_cases (s.version x) v) [
      | inl (t, same) ↦
          let found : svz_sock_find s i (some v) ≡ some x =
            unfold svz_sock_find in
            rw (small, svz_sock_find) (rw (at, svz_sock_find) (rw t refl)) in
          let here : x ≡ q = cc (sym found ∙ e) in
          let (mark, id) = w.owned i x at in rw (← here) (id, same, w.listed x mark)
      | inr (f, _) ↦
          let checked : (v == minus_one) ≡ false = not_equal v minus_one counts in
          let lost : svz_sock_find s i (some v) ≡ none =
            unfold svz_sock_find in
            rw (small, svz_sock_find) (rw (at, svz_sock_find) (rw (f, checked) refl)) in
          cc (sym lost ∙ e)
    ]
  ]
]
  where
    svz_sock_find_out : (i / s.sock_limit == 0) ≡ false → svz_sock_find s i (some v) ≡ none
    svz_sock_find_out h = rw (h, svz_sock_find) refl

    svz_sock_find_gone :
        (i / s.sock_limit == 0) ≡ true → entry s i ≡ none → svz_sock_find s i (some v) ≡ none
    svz_sock_find_gone h k = rw (h, svz_sock_find) (rw (k, svz_sock_find) refl)

-- An enqueued socket is found by its id and its version.
find-Present :
    (s : Socks) (ids : List ℕ) (x : ℕ)
    → IsValid s ids
    → Present x ids
    → svz_sock_find s (s.id x) (some (s.version x)) ≡ some x
unfolding svz_sock_find
find-Present s ids x v there =
    let (_, at) =
      All-Present (λ z. (s.enqueued z ≡ true) × (entry s (s.id z) ≡ some z)) x ids v.found there in
    let inside : s.id x < s.sock_limit = elim (ltb_cases (s.id x) s.sock_limit) [
      | inl (_, h) ↦ h
      | inr (_, h) ↦ cc (at, get_or_beyond s.socktab (s.id x) none (omega (arith, v.width)))
    ] in
    let small : s.id x / s.sock_limit ≡ 0 = div-eq_of_lt inside in
    let same = (==_iff (s.version x) (s.version x)).1 refl in
    rw (small, svz_sock_find) (rw (at, svz_sock_find) (rw same refl))

-- No parent, or an enqueued socket with the id and the version of this one.
abbrev pub NoneOrSame : Socks → ℕ → Socks → List ℕ → Option ℕ → Type 0
NoneOrSame s parent t ids found =
    (found ≡ none)
    ⊎ ((q : ℕ) × (found ≡ some q)
        × (t.id q ≡ s.id parent)
        × (t.version q ≡ s.version parent)
        × Present q ids)

-- For an enqueued parent, `svz_sock_getparent` returns it after `svz_sock_setparent`. As long as the
-- child keeps the reference, in whatever valid state the sockets are later, it returns NULL or an
-- enqueued socket with the same id and version, so never one that only took over the id and has got
-- another version. A version is the 32 bits of an `int`, given out in turns; that of the parent is not
-- -1, for which `svz_sock_find` does not check.
pub getparent-setparent :
    (s t : Socks) (ids later : List ℕ) (child parent : ℕ)
    → IsValid s ids
    → Present parent ids
    → s.version parent ≢ minus_one
    → IsValid t later
    → t.parent_id child ≡ (svz_sock_setparent s (some child) (some parent)).parent_id child
    → t.parent_version child
      ≡ (svz_sock_setparent s (some child) (some parent)).parent_version child
    → (svz_sock_getparent (svz_sock_setparent s (some child) (some parent)) (some child)
        ≡ some parent)
      × NoneOrSame s parent t later (svz_sock_getparent t (some child))
unfolding svz_sock_setparent svz_sock_getparent svz_sock_find
getparent-setparent s t ids later child parent v there counts w e f =
    let r = svz_sock_setparent s (some child) (some parent) in
    let id = assign_self s.parent_id child (some (s.id parent)) in
    let version = assign_self s.parent_version child (some (s.version parent)) in
    let now : svz_sock_getparent r (some child)
        ≡ find_reference s (some (s.id parent)) (some (s.version parent)) =
      rw (id, version) refl in
    let then_ : svz_sock_getparent t (some child)
        ≡ find_reference t (some (s.id parent)) (some (s.version parent)) =
      rw (e ∙ id, f ∙ version) refl in
    (
      now ∙ find-Present s ids parent v there,
      elim (Option-cases (svz_sock_getparent t (some child))) [
        | inl gone ↦ inl gone
        | inr (q, found) ↦
            let (same, new, listed) =
              find_sound t later (s.id parent) (s.version parent) q w counts (sym then_ ∙ found) in
            inr (q, found, same, new, listed)
      ],
    )
