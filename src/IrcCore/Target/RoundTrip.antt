-- ===== src/IrcCore/Target/RoundTrip.antt =====
-- irc-core.c: the targets that `irc_parse_target` reads back.
use mathlib.Core.Path.{subst}
use mathlib.Core.List.{append_assoc, append-nil}
use serveez.Base.{
  ==_iff, All, Bool, List, [], ap, arith, false, if◌then◌else◌, inl, inr, leb, leb_cases, length,
  length-append, map, none, refl, some, suc, sym, true, zero, ℕ, ◌++◌, ◌+◌, ◌<◌, ◌==◌, ◌∙◌, ◌∷◌,
  ◌≡◌,
}
use serveez.IrcCore.Target.{
  Target, c_string, ends_user, if_fitting, irc_parse_target, is_comma, no_target, parse_host,
  parse_one, parse_targets, skip_comma, targets_fit, until,
}

-- What a parameter can address.
pub data Address : Type 0 where
  local : List ℕ → Address
  servers : List ℕ → Address
  channel : List ℕ → Address
  person : ℕ → List ℕ → Address
  login : List ℕ → List ℕ → Address

unfoldable pub print_address : Address → List ℕ
print_address (local w) = b'&' ∷ w
print_address (servers w) = b'$' ∷ w
print_address (channel w) = b'#' ∷ w
print_address (person c w) = c ∷ w
print_address (login u h) = u ++ b'@' ∷ h

unfoldable pub address_target : Address → Target
address_target (local w) = record no_target { channel = b'&' ∷ w }
address_target (servers w) = record no_target { mask = b'$' ∷ w }
address_target (channel w) = record no_target { mask = b'#' ∷ w; channel = b'#' ∷ w }
address_target (person c w) = record no_target { user = c ∷ w; nick = c ∷ w }
address_target (login u h) = record no_target { user = u; host = h }

-- Separated by commas.
abbrev pub print_addresses : List Address → List ℕ
print_addresses [] = []
print_addresses (a ∷ []) = print_address a
print_addresses (a ∷ (b ∷ more)) = print_address a ++ b',' ∷ print_addresses (b ∷ more)

abbrev pub CommaFree : List ℕ → Type 0
CommaFree w = All (λ c. is_comma c ≡ false) w

abbrev pub IsUser : List ℕ → Type 0
IsUser w = All (λ c. ends_user c ≡ false) w

-- The first character is not that of another kind.
abbrev pub StartsUser : List ℕ → Type 0
StartsUser [] = Unit
StartsUser (c ∷ cs) = ((c == b'&') ≡ false) × ((c == b'$') ≡ false) × ((c == b'#') ≡ false)

abbrev pub IsAddress : Address → Type 0
IsAddress (local w) = CommaFree w
IsAddress (servers w) = CommaFree w
IsAddress (channel w) = CommaFree w
IsAddress (person c w) = StartsUser (c ∷ w) × IsUser (c ∷ w)
IsAddress (login u h) = StartsUser u × IsUser u × CommaFree h

abbrev pub Stops : (ℕ → Bool) → List ℕ → Type 0
Stops stop [] = Unit
Stops stop (c ∷ cs) = stop c ≡ true

-- The loop copies a word up to where it stops.
pub until_lem :
    (stop : ℕ → Bool) (w r : List ℕ)
    → All (λ c. stop c ≡ false) w
    → Stops stop r
    → until stop (w ++ r) ≡ (w, r)
unfolding until
until_lem stop [] [] h s = refl
until_lem stop [] (c ∷ r) h s = rw (s, until) refl
until_lem stop (c ∷ w) r (f, h) s =
    let rest = until_lem stop w r h s in rw (f, until) (rw rest refl)

comma-ends_user : (r : List ℕ) → Stops is_comma r → Stops ends_user r
comma-ends_user [] s = tt
comma-ends_user (c ∷ r) s = rw s refl

parse_host_comma :
    (u r : List ℕ)
    → Stops is_comma r
    → parse_host u r ≡ (record no_target { user = u; nick = u }, r)
unfolding parse_host
parse_host_comma u [] s = refl
parse_host_comma u (c ∷ r) s = let comma : c ≡ b',' = (==_iff c b',').0 s in rw comma refl

-- One target, before a comma or the end.
OneTarget : Address → List ℕ → Type 0
OneTarget a r =
    (c : ℕ) × (cs : List ℕ) × (print_address a ++ r ≡ c ∷ cs)
    × (parse_one c (c ∷ cs) ≡ (address_target a, r))

one_target : (a : Address) (r : List ℕ) → IsAddress a → Stops is_comma r → OneTarget a r
unfolding OneTarget print_address address_target parse_one parse_host
one_target (local w) r h s =
    (b'&', w ++ r, refl, rw (until_lem is_comma (b'&' ∷ w) r (refl, h) s) refl)
one_target (servers w) r h s =
    (b'$', w ++ r, refl, rw (until_lem is_comma (b'$' ∷ w) r (refl, h) s) refl)
one_target (channel w) r h s =
    (b'#', w ++ r, refl, rw (until_lem is_comma (b'#' ∷ w) r (refl, h) s) refl)
one_target (person c w) r ((a, b, d), h) s = (
  c,
  w ++ r,
  refl,
  rw (a, b, d)
      (rw (until_lem ends_user (c ∷ w) r h (comma-ends_user r s)) (parse_host_comma (c ∷ w) r s)),
)
one_target (login [] g) r (f, h, k) s = (
  b'@',
  g ++ r,
  refl,
  rw (until_lem ends_user [] (b'@' ∷ (g ++ r)) tt refl) (rw (until_lem is_comma g r k s) refl),
)
one_target (login (c ∷ u) g) r ((a, b, d), h, k) s = (
  c,
  u ++ b'@' ∷ (g ++ r),
  ap (λ l. c ∷ l) (append_assoc u (b'@' ∷ g) r),
  rw (a, b, d)
      (rw (until_lem ends_user (c ∷ u) (b'@' ∷ (g ++ r)) h refl)
        (rw (until_lem is_comma g r k s) refl)),
)

targets_step :
    (fuel : ℕ) (text : List ℕ) (c : ℕ) (cs : List ℕ) (t : Target) (r : List ℕ) (ts : List Target)
    → text ≡ c ∷ cs
    → parse_one c (c ∷ cs) ≡ (t, r)
    → parse_targets fuel (skip_comma r) ≡ some ts
    → parse_targets (suc fuel) text ≡ some (t ∷ ts)
unfolding parse_targets
targets_step fuel text c cs t r ts e f g = rw e (rw f (rw g refl))

targets_end : (fuel : ℕ) → 0 < fuel → parse_targets fuel [] ≡ some []
unfolding parse_targets
targets_end zero h = absurd (omega (arith, h))
targets_end (suc fuel) h = refl

targets_lem :
    (fuel : ℕ) (more : List Address)
    → All IsAddress more
    → length (print_addresses more) < fuel
    → parse_targets fuel (print_addresses more) ≡ some (map address_target more)
unfolding skip_comma OneTarget
targets_lem zero more h le = absurd (omega (arith, le))
targets_lem (suc fuel) [] h le = targets_end (suc fuel) (omega arith)
targets_lem (suc fuel) (a ∷ []) (h, _) le =
    let (c, cs, e, f) = one_target a [] h tt in
    let text : print_address a ≡ c ∷ cs = sym (append-nil (print_address a)) ∙ e in
    let size : length (print_address a) ≡ suc (length cs) = ap length text in
    targets_step fuel (print_address a) c cs (address_target a) [] [] text f
      (targets_end fuel (omega (arith, le, size)))
targets_lem (suc fuel) (a ∷ (b ∷ more)) (h, k) le =
    let r = b',' ∷ print_addresses (b ∷ more) in
    let (c, cs, e, f) = one_target a r h refl in
    let size : length (print_address a) + length r ≡ suc (length cs) =
      sym (length-append (print_address a) r) ∙ ap length e in
    let total : length (print_addresses (a ∷ (b ∷ more))) ≡ length (print_address a) + length r =
      length-append (print_address a) r in
    targets_step fuel (print_address a ++ r) c cs (address_target a) r
      (map address_target (b ∷ more)) e f (targets_lem fuel (b ∷ more) k (omega (arith, le, total)))

-- At most 64 addresses without commas, of which none holds a NUL or looks like one of another kind, and
-- whose words fit into the arrays of a target, 15 bytes for a nick and 255 for the others, come back from the parameter in which they stand separated by commas.
pub parse_target-print_addresses :
    (more : List Address) (paras : List (List ℕ))
    → All IsAddress more
    → All (λ c. (c == 0) ≡ false) (print_addresses more)
    → targets_fit (map address_target more) ≡ true
    → irc_parse_target (print_addresses more ∷ paras) 0 ≡ some (map address_target more)
unfolding irc_parse_target c_string
parse_target-print_addresses more paras h z small =
    let text = print_addresses more in
    let whole : until (λ c. c == 0) text ≡ (text, []) =
      subst (λ l. until (λ c. c == 0) l ≡ (text, [])) (append-nil text)
        (until_lem (λ c. c == 0) text [] z tt) in
    let there : leb (suc (length paras)) 0 ≡ false = elim (leb_cases (suc (length paras)) 0) [
      | inl (_, e) ↦ absurd (omega (arith, e))
      | inr (e, _) ↦ e
    ] in
    rw there (
      ap (λ r. if_fitting (parse_targets (length r.0 + 1) r.0)) whole
      ∙ ap if_fitting (targets_lem (length text + 1) more h (omega arith))
      ∙ ap (λ b. if b then some (map address_target more) else none) small)
