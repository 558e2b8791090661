-- ===== src/IrcCore/Regex.antt =====
-- irc-core.c: matching a text with a pattern of `?` and `*`.
pub mod Sound
pub mod Fuel
pub mod Marks
use serveez.Base.{
  Bool, List, Option, [], false, get_or, if◌then◌else◌, length, none, some, suc, true, zero, ℕ, ◌+◌,
  ◌==◌, ◌||◌, ◌∷◌,
}

abbrev pub wildcard : ℕ → Bool
wildcard c = (c == b'*') || (c == b'?')

-- Up to the end of a string or to a wildcard; `none` for a difference.
unfoldable pub match_plain : (ℕ → ℕ) → List ℕ → List ℕ → Option (List ℕ × List ℕ)
match_plain lcset text [] = some (text, [])
match_plain lcset [] (r ∷ rs) = some ([], r ∷ rs)
match_plain lcset (t ∷ ts) (r ∷ rs) = elim (wildcard r) [
  | true ↦ some (t ∷ ts, r ∷ rs)
  | false ↦ elim (lcset t == lcset r) [ true ↦ match_plain lcset ts rs | false ↦ none ]
]

-- The `?`s behind a `*`.
unfoldable pub skip_marks : List ℕ → List ℕ
skip_marks [] = []
skip_marks (r ∷ rs) = elim (r == b'?') [ true ↦ skip_marks rs | false ↦ r ∷ rs ]

-- Up to the first character like `c`.
unfoldable pub skip_to : (ℕ → ℕ) → ℕ → List ℕ → List ℕ
skip_to lcset c [] = []
skip_to lcset c (t ∷ ts) = elim (lcset c == lcset t) [ true ↦ t ∷ ts | false ↦ skip_to lcset c ts ]

-- From the last character like `c`, or else what `found` is.
unfoldable pub last_like : (ℕ → ℕ) → ℕ → List ℕ → List ℕ → List ℕ
last_like lcset c found [] = found
last_like lcset c found (t ∷ ts) =
    last_like lcset c (if lcset t == lcset c then t ∷ ts else found) ts

-- The search for the last occurrence starts at the NUL.
unfoldable pub skip_star : (ℕ → ℕ) → List ℕ → List ℕ
skip_star lcset [] = []
skip_star lcset (t ∷ ts) = if lcset 0 == lcset t then [] else last_like lcset t (t ∷ ts) ts

abbrev pub single_free : List ℕ → List ℕ → Option (List ℕ × List ℕ)
single_free [] rs = none
single_free (t ∷ ts) rs = some (ts, rs)

unfoldable pub match_wildcard : (ℕ → ℕ) → List ℕ → List ℕ → Option (List ℕ × List ℕ)
match_wildcard lcset text [] = some (text, [])
match_wildcard lcset text (r ∷ rs) =
    if r == b'?'
    then single_free text rs
    else if r == b'*'
    then some (skip_star lcset (skip_to lcset (get_or (skip_marks rs) 0 0) text), skip_marks rs)
    else some (text, r ∷ rs)

-- One round of the loop.
unfoldable pub match_round : (ℕ → ℕ) → List ℕ → List ℕ → Option (List ℕ × List ℕ)
match_round lcset text regex = elim (match_plain lcset text regex) [
  | none ↦ none
  | some (ts, rs) ↦ match_wildcard lcset ts rs
]

-- The loop; `none` without enough fuel. At its end both strings must have ended.
unfoldable pub regex_loop : (ℕ → ℕ) → ℕ → List ℕ → List ℕ → Option Bool
regex_loop lcset zero text regex = none
regex_loop lcset (suc fuel) [] [] = some true
regex_loop lcset (suc fuel) [] (r ∷ rs) = some false
regex_loop lcset (suc fuel) (t ∷ ts) [] = some false
regex_loop lcset (suc fuel) (t ∷ ts) (r ∷ rs) = elim (match_round lcset (t ∷ ts) (r ∷ rs)) [
  | none ↦ some false
  | some (text, regex) ↦ regex_loop lcset fuel text regex
]

-- `some true` for a return value that is not 0. Each round takes a character of the pattern.
unfoldable pub irc_string_regex : (ℕ → ℕ) → List ℕ → List ℕ → Option Bool
irc_string_regex lcset text regex = regex_loop lcset (length regex + 1) text regex
