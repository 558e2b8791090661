-- ===== src/IrcCore/Compare.antt =====
-- irc-core.c: the lower case character set and the comparison by it.
use mathlib.Core.Bool.{false≢true}
use serveez.Base.{
  ==_cases, Bool, List, [], false, inl, inr, map, refl, sym, true, ℕ, ◌==◌, ◌↔◌, ◌∙◌, ◌∷◌, ◌≡◌,
}
use serveez.Chain.{assign}

unfoldable pub irc_create_lcset : (ℕ → ℕ) → ℕ → ℕ
irc_create_lcset tolower = assign (assign (assign tolower b'[' b'{') b']' b'}') b'|' b'\\'

-- `true` for the return value 0.
unfoldable pub irc_string_equal : (ℕ → ℕ) → List ℕ → List ℕ → Bool
irc_string_equal lcset [] [] = true
irc_string_equal lcset [] (y ∷ ys) = false
irc_string_equal lcset (x ∷ xs) [] = false
irc_string_equal lcset (x ∷ xs) (y ∷ ys) = elim (lcset x == lcset y) [
  | true ↦ irc_string_equal lcset xs ys
  | false ↦ false
]

-- The two strings are equal by the character set when `irc_string_equal` finds no difference, and
-- only then.
pub string_equal-map :
    (lcset : ℕ → ℕ) (xs ys : List ℕ)
    → (irc_string_equal lcset xs ys ≡ true) ↔ (map lcset xs ≡ map lcset ys)
unfolding irc_string_equal
string_equal-map lcset [] [] = (λ _. refl, λ _. refl)
string_equal-map lcset [] (y ∷ ys) = (λ e. absurd (false≢true e), λ e. cc)
string_equal-map lcset (x ∷ xs) [] = (λ e. absurd (false≢true e), λ e. cc)
string_equal-map lcset (x ∷ xs) (y ∷ ys) =
    let rest = string_equal-map lcset xs ys in
    elim (==_cases (lcset x) (lcset y)) [
      | inl (t, e) ↦
          let step : irc_string_equal lcset (x ∷ xs) (y ∷ ys) ≡ irc_string_equal lcset xs ys =
            rw (t, irc_string_equal) refl in
          (λ h. cc (e, rest.0 (sym step ∙ h)), λ h. step ∙ rest.1 (tail_eq h))
      | inr (f, ne) ↦
          let step : irc_string_equal lcset (x ∷ xs) (y ∷ ys) ≡ false =
            rw (f, irc_string_equal) refl in
          (λ h. absurd (false≢true (sym step ∙ h)), λ h. absurd (ne (cc h)))
    ]
  where
    tail_eq : map lcset (x ∷ xs) ≡ map lcset (y ∷ ys) → map lcset xs ≡ map lcset ys
    tail_eq h = cc h
