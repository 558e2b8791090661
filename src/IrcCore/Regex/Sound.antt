-- ===== src/IrcCore/Regex/Sound.antt =====
-- irc-core.c: every match that `irc_string_regex` finds is one.
use mathlib.Core.Path.{subst}
use mathlib.Core.List.{append_assoc, append-nil}
use serveez.Base.{
  ==_cases, Bool-cases, List, Option, [], ap, false, get_or, inl, inr, none, refl, some, suc, sym,
  true, zero, ℕ, ◌++◌, ◌==◌, ◌∙◌, ◌∷◌, ◌≡◌,
}
use serveez.IrcCore.Regex.{
  last_like, match_plain, match_round, match_wildcard, regex_loop, single_free, skip_marks,
  skip_star, skip_to, wildcard,
}

-- What the wildcards mean: `?` is any character, and `*`, with the `?`s behind it, any text.
pub data Glob (lcset : ℕ → ℕ) : List ℕ → List ℕ → Type 0 where
  ended : Glob lcset [] []
  plain :
      (t r : ℕ) (ts rs : List ℕ)
      → lcset t ≡ lcset r
      → Glob lcset ts rs
      → Glob lcset (t ∷ ts) (r ∷ rs)
  single : (t : ℕ) (ts rs : List ℕ) → Glob lcset ts rs → Glob lcset (t ∷ ts) (b'?' ∷ rs)
  star :
      (skipped ts rs : List ℕ)
      → Glob lcset ts (skip_marks rs)
      → Glob lcset (skipped ++ ts) (b'*' ∷ rs)

-- A match of what one round leaves is a match of what it began with.
abbrev Reaches : (ℕ → ℕ) → List ℕ → List ℕ → Option (List ℕ × List ℕ) → Type 0
Reaches lcset text regex none = Unit
Reaches lcset text regex (some (ts, rs)) = Glob lcset ts rs → Glob lcset text regex

Reaches-map :
    (lcset : ℕ → ℕ) (a b c d : List ℕ) (o : Option (List ℕ × List ℕ))
    → (Glob lcset a b → Glob lcset c d)
    → Reaches lcset a b o
    → Reaches lcset c d o
Reaches-map lcset a b c d none f h = tt
Reaches-map lcset a b c d (some (ts, rs)) f h = λ g. f (h g)

plain-Reaches :
    (lcset : ℕ → ℕ) (text regex : List ℕ) → Reaches lcset text regex (match_plain lcset text regex)
unfolding match_plain
plain-Reaches lcset text [] = λ g. g
plain-Reaches lcset [] (r ∷ regex) = λ g. g
plain-Reaches lcset (t ∷ text) (r ∷ regex) = elim (Bool-cases (wildcard r)) [
  | inl w ↦ rw (w, match_plain) (λ g. g)
  | inr w ↦ elim (==_cases (lcset t) (lcset r)) [
    | inl (same, q) ↦
        rw (w, match_plain)
          (rw (same, match_plain)
            (Reaches-map lcset text regex (t ∷ text) (r ∷ regex) _ (λ g. plain t r text regex q g)
              (plain-Reaches lcset text regex)))
    | inr (differ, _) ↦ rw (w, match_plain) (rw (differ, match_plain) tt)
  ]
]

-- What is left of a text when something before it is skipped.
abbrev Skips : List ℕ → List ℕ → Type 0
Skips text ts = (skipped : List ℕ) × (text ≡ skipped ++ ts)

Skips-trans : (a b c : List ℕ) → Skips a b → Skips b c → Skips a c
Skips-trans a b c (p, e) (q, f) = (p ++ q, e ∙ ap (λ l. p ++ l) f ∙ sym (append_assoc p q c))

skip_to-Skips : (lcset : ℕ → ℕ) (c : ℕ) (text : List ℕ) → Skips text (skip_to lcset c text)
unfolding skip_to
skip_to-Skips lcset c [] = ([], refl)
skip_to-Skips lcset c (t ∷ ts) = elim (Bool-cases (lcset c == lcset t)) [
  | inl e ↦ rw (e, skip_to) ([], refl)
  | inr e ↦ let (p, q) = skip_to-Skips lcset c ts in rw (e, skip_to) (t ∷ p, ap (λ l. t ∷ l) q)
]

last_like-Skips :
    (lcset : ℕ → ℕ) (c : ℕ) (text found ts : List ℕ)
    → Skips text found
    → Skips text ts
    → Skips text (last_like lcset c found ts)
unfolding last_like
last_like-Skips lcset c text found [] h k = h
last_like-Skips lcset c text found (t ∷ ts) h k =
    let rest : Skips text ts = Skips-trans text (t ∷ ts) ts k (t ∷ [], refl) in
    elim (Bool-cases (lcset t == lcset c)) [
      | inl e ↦ rw e (last_like-Skips lcset c text (t ∷ ts) ts k rest)
      | inr e ↦ rw e (last_like-Skips lcset c text found ts h rest)
    ]

skip_all : (text : List ℕ) → Skips text []
skip_all text = (text, sym (append-nil text))

skip_star-Skips : (lcset : ℕ → ℕ) (text : List ℕ) → Skips text (skip_star lcset text)
unfolding skip_star
skip_star-Skips lcset [] = ([], refl)
skip_star-Skips lcset (t ∷ ts) = elim (Bool-cases (lcset 0 == lcset t)) [
  | inl e ↦ rw e (skip_all (t ∷ ts))
  | inr e ↦ rw e (last_like-Skips lcset t (t ∷ ts) (t ∷ ts) ts ([], refl) (t ∷ [], refl))
]

single-Reaches :
    (lcset : ℕ → ℕ) (text rs : List ℕ) → Reaches lcset text (b'?' ∷ rs) (single_free text rs)
single-Reaches lcset [] rs = tt
single-Reaches lcset (t ∷ ts) rs = λ g. single t ts rs g

wildcard-Reaches :
    (lcset : ℕ → ℕ) (text regex : List ℕ)
    → Reaches lcset text regex (match_wildcard lcset text regex)
unfolding match_wildcard
wildcard-Reaches lcset text [] = λ g. g
wildcard-Reaches lcset text (r ∷ rs) = elim (==_cases r b'?') [
  | inl (e, q) ↦ rw e (
      subst (λ c. Reaches lcset text (c ∷ rs) (single_free text rs)) (sym q)
        (single-Reaches lcset text rs))
  | inr (f, _) ↦ elim (==_cases r b'*') [
    | inl (e, q) ↦
        let c = get_or (skip_marks rs) 0 0 in
        let (skipped, h) =
          Skips-trans text (skip_to lcset c text) (skip_star lcset (skip_to lcset c text))
            (skip_to-Skips lcset c text) (skip_star-Skips lcset (skip_to lcset c text)) in
        rw (f, e)
          (λ g.
            subst (Glob lcset text) (ap (λ d. d ∷ rs) (sym q))
              (subst (λ l. Glob lcset l (b'*' ∷ rs)) (sym h) (star skipped _ rs g)))
    | inr (e, _) ↦ rw (f, e) (λ g. g)
  ]
]

round-Reaches :
    (lcset : ℕ → ℕ) (text regex : List ℕ) → Reaches lcset text regex (match_round lcset text regex)
unfolding match_round
round-Reaches lcset text regex =
    after (match_plain lcset text regex) (plain-Reaches lcset text regex)
  where
    after :
        (o : Option (List ℕ × List ℕ))
        → Reaches lcset text regex o
        → Reaches lcset text regex
            (elim o [ none ↦ none | some (ts, rs) ↦ match_wildcard lcset ts rs ])
    after none h = tt
    after (some (ts, rs)) h =
        Reaches-map lcset ts rs text regex (match_wildcard lcset ts rs) h
          (wildcard-Reaches lcset ts rs)

pub loop-Glob :
    (lcset : ℕ → ℕ) (fuel : ℕ) (text regex : List ℕ)
    → regex_loop lcset fuel text regex ≡ some true
    → Glob lcset text regex
unfolding regex_loop
loop-Glob lcset zero text regex e = cc
loop-Glob lcset (suc fuel) [] [] e = ended
loop-Glob lcset (suc fuel) [] (r ∷ rs) e = cc
loop-Glob lcset (suc fuel) (t ∷ ts) [] e = cc
loop-Glob lcset (suc fuel) (t ∷ ts) (r ∷ rs) e =
    after (match_round lcset (t ∷ ts) (r ∷ rs)) (round-Reaches lcset (t ∷ ts) (r ∷ rs))
      (loop-Glob lcset fuel) e
  where
    after :
        (o : Option (List ℕ × List ℕ))
        → Reaches lcset (t ∷ ts) (r ∷ rs) o
        → ((text regex : List ℕ)
            → regex_loop lcset fuel text regex ≡ some true
            → Glob lcset text regex)
        → elim o [ none ↦ some false | some (text, regex) ↦ regex_loop lcset fuel text regex ]
          ≡ some true
        → Glob lcset (t ∷ ts) (r ∷ rs)
    after none h g k = cc
    after (some (text, regex)) h g k = h (g text regex k)
