-- ===== src/IrcCore/Regex/Marks.antt =====
-- irc-core.c: `irc_string_regex` for patterns without `*`.
use mathlib.Core.Path.{subst}
use serveez.Base.{
  ==_cases, All, Bool, Bool-cases, List, Option, [], ap, arith, false, inl, inr, length, none, refl,
  some, suc, true, zero, ℕ, ◌&&◌, ◌+◌, ◌==◌, ◌||◌, ◌∙◌, ◌∷◌, ◌≡◌, ◌≢◌,
}
use serveez.IrcCore.Regex.{
  irc_string_regex, match_plain, match_round, match_wildcard, regex_loop, single_free,
}
use serveez.IrcCore.Regex.Fuel.{loop-ends}

-- Character by character, where `?` is like any other.
unfoldable pub equal_marks : (ℕ → ℕ) → List ℕ → List ℕ → Bool
equal_marks lcset [] [] = true
equal_marks lcset [] (r ∷ rs) = false
equal_marks lcset (t ∷ ts) [] = false
equal_marks lcset (t ∷ ts) (r ∷ rs) =
    ((r == b'?') || (lcset t == lcset r)) && equal_marks lcset ts rs

abbrev pub StarFree : List ℕ → Type 0
StarFree rs = All (λ r. r ≢ b'*') rs

-- The rest decides as what was there before.
abbrev Keeps : (ℕ → ℕ) → Bool → Option (List ℕ × List ℕ) → Type 0
Keeps lcset b none = b ≡ false
Keeps lcset b (some (ts, rs)) = (equal_marks lcset ts rs ≡ b) × StarFree rs

not_star : (r : ℕ) → r ≢ b'*' → (r == b'*') ≡ false
not_star r ne = elim (==_cases r b'*') [ inl (_, e) ↦ absurd (ne e) | inr (e, _) ↦ e ]

plain-Keeps :
    (lcset : ℕ → ℕ) (text regex : List ℕ)
    → StarFree regex
    → Keeps lcset (equal_marks lcset text regex) (match_plain lcset text regex)
unfolding match_plain equal_marks
plain-Keeps lcset text [] h = (refl, tt)
plain-Keeps lcset [] (r ∷ regex) h = (refl, h)
plain-Keeps lcset (t ∷ text) (r ∷ regex) (ne, h) =
    let star = not_star r ne in
    elim (Bool-cases (r == b'?')) [
      | inl w ↦ rw (star, w, match_plain) (rw w refl, (ne, h))
      | inr w ↦ elim (Bool-cases (lcset t == lcset r)) [
        | inl same ↦
            rw (star, w, match_plain) (rw (same, match_plain) (plain-Keeps lcset text regex h))
        | inr differ ↦ rw (star, w, match_plain) (rw (differ, match_plain) refl)
      ]
    ]

single-Keeps :
    (lcset : ℕ → ℕ) (text rs : List ℕ) (r : ℕ)
    → (r == b'?') ≡ true
    → StarFree rs
    → Keeps lcset (equal_marks lcset text (r ∷ rs)) (single_free text rs)
unfolding equal_marks
single-Keeps lcset [] rs r e h = refl
single-Keeps lcset (t ∷ ts) rs r e h = (rw e refl, h)

wildcard-Keeps :
    (lcset : ℕ → ℕ) (text regex : List ℕ)
    → StarFree regex
    → Keeps lcset (equal_marks lcset text regex) (match_wildcard lcset text regex)
unfolding match_wildcard
wildcard-Keeps lcset text [] h = (refl, tt)
wildcard-Keeps lcset text (r ∷ rs) (ne, h) = elim (Bool-cases (r == b'?')) [
  | inl w ↦ rw w (single-Keeps lcset text rs r w h)
  | inr w ↦ rw (w, not_star r ne) (refl, (ne, h))
]

round-Keeps :
    (lcset : ℕ → ℕ) (text regex : List ℕ)
    → StarFree regex
    → Keeps lcset (equal_marks lcset text regex) (match_round lcset text regex)
unfolding match_round
round-Keeps lcset text regex h =
    after (equal_marks lcset text regex) (match_plain lcset text regex)
      (plain-Keeps lcset text regex h)
  where
    after :
        (b : Bool) (o : Option (List ℕ × List ℕ))
        → Keeps lcset b o
        → Keeps lcset b (elim o [ none ↦ none | some (ts, rs) ↦ match_wildcard lcset ts rs ])
    after b none k = k
    after b (some (ts, rs)) (e, free) =
        subst (λ c. Keeps lcset c (match_wildcard lcset ts rs)) e (wildcard-Keeps lcset ts rs free)

loop-marks :
    (lcset : ℕ → ℕ) (fuel : ℕ) (text regex : List ℕ) (b : Bool)
    → StarFree regex
    → regex_loop lcset fuel text regex ≡ some b
    → b ≡ equal_marks lcset text regex
unfolding regex_loop equal_marks
loop-marks lcset zero text regex b h e = cc
loop-marks lcset (suc fuel) [] [] b h e = cc
loop-marks lcset (suc fuel) [] (r ∷ rs) b h e = cc
loop-marks lcset (suc fuel) (t ∷ ts) [] b h e = cc
loop-marks lcset (suc fuel) (t ∷ ts) (r ∷ rs) b h e =
    after (equal_marks lcset (t ∷ ts) (r ∷ rs)) (match_round lcset (t ∷ ts) (r ∷ rs))
      (round-Keeps lcset (t ∷ ts) (r ∷ rs) h) (loop-marks lcset fuel) e
  where
    after :
        (c : Bool) (o : Option (List ℕ × List ℕ))
        → Keeps lcset c o
        → ((text regex : List ℕ) (b : Bool)
            → StarFree regex
            → regex_loop lcset fuel text regex ≡ some b
            → b ≡ equal_marks lcset text regex)
        → elim o [ none ↦ some false | some (text, regex) ↦ regex_loop lcset fuel text regex ]
          ≡ some b
        → b ≡ c
    after c none k f g = cc
    after c (some (text, regex)) (k, free) f g = f text regex b free g ∙ k

-- For a pattern without `*`, `irc_string_regex` is the comparison character by character in which a
-- `?` is like any character.
pub string_regex-equal_marks :
    (lcset : ℕ → ℕ) (text regex : List ℕ)
    → StarFree regex
    → irc_string_regex lcset text regex ≡ some (equal_marks lcset text regex)
unfolding irc_string_regex
string_regex-equal_marks lcset text regex h =
    let (b, e) = loop-ends lcset (length regex + 1) text regex (omega arith) in
    e ∙ ap some (loop-marks lcset (length regex + 1) text regex b h e)
