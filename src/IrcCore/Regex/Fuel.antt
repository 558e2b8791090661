-- ===== src/IrcCore/Regex/Fuel.antt =====
-- irc-core.c: the loop of `irc_string_regex` ends.
use mathlib.Core.Bool.{false≢true}
use serveez.Base.{
  Bool, Bool-cases, List, Option, [], arith, false, inl, inr, length, none, refl, some, suc, true,
  zero, ℕ, ◌<◌, ◌==◌, ◌∷◌, ◌≡◌, ◌≤◌,
}
use serveez.IrcCore.Regex.{
  match_plain, match_round, match_wildcard, regex_loop, single_free, skip_marks, wildcard,
}

-- At most so much of the pattern is left.
abbrev AtMost : ℕ → Option (List ℕ × List ℕ) → Type 0
AtMost n none = Unit
AtMost n (some (ts, rs)) = length rs ≤ n

AtMost-mono : (m n : ℕ) (o : Option (List ℕ × List ℕ)) → m ≤ n → AtMost m o → AtMost n o
AtMost-mono m n none le h = tt
AtMost-mono m n (some (ts, rs)) le h = omega (arith, le, h)

plain-AtMost :
    (lcset : ℕ → ℕ) (text regex : List ℕ) → AtMost (length regex) (match_plain lcset text regex)
unfolding match_plain
plain-AtMost lcset text [] = omega arith
plain-AtMost lcset [] (r ∷ regex) = omega arith
plain-AtMost lcset (t ∷ text) (r ∷ regex) = elim (Bool-cases (wildcard r)) [
  | inl w ↦ rw (w, match_plain) (omega arith)
  | inr w ↦ elim (Bool-cases (lcset t == lcset r)) [
    | inl same ↦
        rw (w, match_plain)
          (rw (same, match_plain)
            (AtMost-mono (length regex) (suc (length regex)) _ (omega arith)
              (plain-AtMost lcset text regex)))
    | inr differ ↦ rw (w, match_plain) (rw (differ, match_plain) tt)
  ]
]

skip_marks-length : (rs : List ℕ) → length (skip_marks rs) ≤ length rs
unfolding skip_marks
skip_marks-length [] = omega arith
skip_marks-length (r ∷ rs) = elim (Bool-cases (r == b'?')) [
  | inl e ↦ rw (e, skip_marks) (omega (arith, skip_marks-length rs))
  | inr e ↦ rw (e, skip_marks) (omega arith)
]

single-AtMost : (text rs : List ℕ) → AtMost (length rs) (single_free text rs)
single-AtMost [] rs = tt
single-AtMost (t ∷ ts) rs = omega arith

wildcard-AtMost :
    (lcset : ℕ → ℕ) (text rs : List ℕ) (r : ℕ)
    → wildcard r ≡ true
    → AtMost (length rs) (match_wildcard lcset text (r ∷ rs))
unfolding match_wildcard
wildcard-AtMost lcset text rs r w = elim (Bool-cases (r == b'?')) [
  | inl e ↦ rw e (single-AtMost text rs)
  | inr f ↦ elim (Bool-cases (r == b'*')) [
    | inl e ↦ rw (f, e) (skip_marks-length rs)
    | inr e ↦ absurd (false≢true (rw (← w) (rw (e, f) refl)))
  ]
]

any-AtMost :
    (lcset : ℕ → ℕ) (text regex : List ℕ) → AtMost (length regex) (match_wildcard lcset text regex)
unfolding match_wildcard
any-AtMost lcset text [] = omega arith
any-AtMost lcset text (r ∷ rs) = elim (Bool-cases (r == b'?')) [
  | inl e ↦ rw e (AtMost-mono (length rs) (suc (length rs)) _ (omega arith) (single-AtMost text rs))
  | inr f ↦ elim (Bool-cases (r == b'*')) [
    | inl e ↦ rw (f, e) (omega (arith, skip_marks-length rs))
    | inr e ↦ rw (f, e) (omega arith)
  ]
]

after_plain :
    (lcset : ℕ → ℕ) (n : ℕ) (o : Option (List ℕ × List ℕ))
    → AtMost n o
    → AtMost n (elim o [ none ↦ none | some (ts, rs) ↦ match_wildcard lcset ts rs ])
after_plain lcset n none h = tt
after_plain lcset n (some (ts, rs)) h = AtMost-mono (length rs) n _ h (any-AtMost lcset ts rs)

-- A round takes a character of the pattern.
round-AtMost :
    (lcset : ℕ → ℕ) (t r : ℕ) (ts rs : List ℕ)
    → AtMost (length rs) (match_round lcset (t ∷ ts) (r ∷ rs))
unfolding match_round match_plain
round-AtMost lcset t r ts rs = elim (Bool-cases (wildcard r)) [
  | inl w ↦ rw (w, match_round) (wildcard-AtMost lcset (t ∷ ts) rs r w)
  | inr w ↦ elim (Bool-cases (lcset t == lcset r)) [
    | inl same ↦
        rw (w, match_round)
          (rw (same, match_round) (after_plain lcset (length rs) _ (plain-AtMost lcset ts rs)))
    | inr differ ↦ rw (w, match_round) (rw (differ, match_round) tt)
  ]
]

pub loop-ends :
    (lcset : ℕ → ℕ) (fuel : ℕ) (text regex : List ℕ)
    → length regex < fuel
    → (b : Bool) × (regex_loop lcset fuel text regex ≡ some b)
unfolding regex_loop
loop-ends lcset zero text regex h = absurd (omega (arith, h))
loop-ends lcset (suc fuel) [] [] h = (true, refl)
loop-ends lcset (suc fuel) [] (r ∷ rs) h = (false, refl)
loop-ends lcset (suc fuel) (t ∷ ts) [] h = (false, refl)
loop-ends lcset (suc fuel) (t ∷ ts) (r ∷ rs) h =
    after (match_round lcset (t ∷ ts) (r ∷ rs)) (round-AtMost lcset t r ts rs)
      (loop-ends lcset fuel)
  where
    after :
        (o : Option (List ℕ × List ℕ))
        → AtMost (length rs) o
        → ((text regex : List ℕ)
            → length regex < fuel
            → (b : Bool) × (regex_loop lcset fuel text regex ≡ some b))
        → (b : Bool) × (elim o [
          | none ↦ some false
          | some (text, regex) ↦ regex_loop lcset fuel text regex
        ]
            ≡ some b)
    after none k f = (false, refl)
    after (some (text, regex)) k f = f text regex (omega (arith, h, k))
