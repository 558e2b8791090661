-- ===== src/Socket/Boundary.antt =====
-- socket.c: where a packet boundary stands in the data, and where the search for it stops.
use mathlib.Core.List.{append_assoc, append-nil}
use mathlib.Core.Bool.{false≢true}
use serveez.Base.{
  ==_cases, Bool-cases, List, [], ap, arith, false, inl, inr, leb_cases, length, length-append,
  refl, sym, take, true, ℕ, ◌++◌, ◌<◌, ◌∙◌, ◌∷◌, ◌≡◌, ◌≤◌, ◌⊎◌,
}
use serveez.Socket.Split.{find_boundary, has_room, starts_with}

-- The boundary begins at no place of `l`, when `tail` follows.
abbrev pub NoneIn : List ℕ → List ℕ → List ℕ → Type 0
NoneIn boundary [] tail = Unit
NoneIn boundary (c ∷ l) tail =
    (starts_with boundary (c ∷ (l ++ tail)) ≡ false) × NoneIn boundary l tail

-- The boundary ends the packet, and begins nowhere before.
pub record IsPacket (boundary packet : List ℕ) : Type 0 where
  pub content : List ℕ
  pub ended : packet ≡ content ++ boundary
  pub first : NoneIn boundary content boundary

pub starts_with-short : (b l : List ℕ) → length l < length b → starts_with b l ≡ false
unfolding starts_with
starts_with-short [] l h = absurd (omega arith)
starts_with-short (x ∷ b) [] h = refl
starts_with-short (x ∷ b) (c ∷ l) h = ground (arith, starts_with-short b l (omega arith))

pub starts_with-append :
    (b l r : List ℕ) → length b ≤ length l → starts_with b (l ++ r) ≡ starts_with b l
unfolding starts_with
starts_with-append [] l r h = refl
starts_with-append (x ∷ b) [] r h = absurd (omega arith)
starts_with-append (x ∷ b) (c ∷ l) r h = ground (arith, starts_with-append b l r (omega arith))

pub starts_with-take : (b l : List ℕ) → starts_with b l ≡ true → take (length b) l ≡ b
unfolding starts_with
starts_with-take [] l h = refl
starts_with-take (x ∷ b) [] h = absurd (false≢true h)
starts_with-take (x ∷ b) (c ∷ l) h = elim (==_cases x c) [
  | inl (e, same) ↦ cc (same, starts_with-take b l (rw e at h))
  | inr (e, _) ↦ absurd (false≢true (rw e at h))
]

pub NoneIn-short : (b l : List ℕ) → length l < length b → NoneIn b l []
NoneIn-short b [] h = tt
NoneIn-short b (c ∷ l) h = (
  starts_with-short b (c ∷ (l ++ [])) (omega (arith, length-append l [])),
  NoneIn-short b l (omega arith),
)

pub NoneIn-append : (b l r : List ℕ) → NoneIn b l r → NoneIn b r [] → NoneIn b (l ++ r) []
NoneIn-append b [] r h k = k
NoneIn-append b (c ∷ l) r (here, h) k = (rw (append-nil (l ++ r)) here, NoneIn-append b l r h k)

-- A boundary that is found ends a packet.
pub NoneIn-boundary : (b l r : List ℕ) → NoneIn b l (b ++ r) → NoneIn b l b
NoneIn-boundary b [] r h = tt
NoneIn-boundary b (c ∷ l) r (here, h) = (
  sym (starts_with-append b (c ∷ (l ++ b)) r (omega (arith, length-append l b)))
      ∙ ap (λ m. starts_with b (c ∷ m)) (append_assoc l b r)
      ∙ here,
  NoneIn-boundary b l r h,
)

-- Where the inner loop stops: it passed `passed`, and stands at a boundary or has no room for one.
pub record Stop (boundary seen rest : List ℕ) : Type 0 where
  pub passed : List ℕ
  pub at : List ℕ
  pub result : find_boundary boundary seen rest ≡ (seen ++ passed, at)
  pub split : rest ≡ passed ++ at
  pub none_passed : NoneIn boundary passed at
  pub why :
      ((has_room boundary at ≡ true) × (starts_with boundary at ≡ true))
      ⊎ (length at < length boundary)

find_boundary_on :
    (b seen : List ℕ) (c : ℕ) (rest : List ℕ)
    → has_room b (c ∷ rest) ≡ true
    → starts_with b (c ∷ rest) ≡ false
    → find_boundary b seen (c ∷ rest) ≡ find_boundary b (seen ++ (c ∷ [])) rest
unfolding find_boundary
find_boundary_on b seen c rest room differs = rw (room, differs) refl

pub find_boundary-Stop :
    (boundary seen rest : List ℕ) → 0 < length boundary → Stop boundary seen rest
unfolding find_boundary
find_boundary-Stop b seen [] h = record {
  passed = [];
  at = [];
  result = rw (append-nil seen) refl;
  split = refl;
  none_passed = tt;
  why = inr h;
}
find_boundary-Stop b seen (c ∷ rest) h = elim (leb_cases (length b) (length (c ∷ rest))) [
  | inl (room, _) ↦ elim (Bool-cases (starts_with b (c ∷ rest))) [
    | inl hit ↦ record {
      passed = [];
      at = c ∷ rest;
      result = rw (room, hit, append-nil seen) refl;
      split = refl;
      none_passed = tt;
      why = inl (room, hit);
    }
    | inr differs ↦
        let next = find_boundary-Stop b (seen ++ (c ∷ [])) rest h in
        record {
          passed = c ∷ next.passed;
          at = next.at;
          result =
              find_boundary_on b seen c rest room differs
              ∙ next.result
              ∙ ap (λ l. (l, next.at)) (append_assoc seen (c ∷ []) next.passed);
          split = ap (λ l. c ∷ l) next.split;
          none_passed = (rw (← next.split) differs, next.none_passed);
          why = next.why;
        }
  ]
  | inr (room, short) ↦ record {
    passed = [];
    at = c ∷ rest;
    result = rw (room, append-nil seen) refl;
    split = refl;
    none_passed = tt;
    why = inr short;
  }
]
