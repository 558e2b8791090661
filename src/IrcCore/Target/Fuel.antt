-- ===== src/IrcCore/Target/Fuel.antt =====
-- irc-core.c: the loop of `irc_parse_target` ends.
use serveez.Base.{
  ==_cases, Bool, Bool-cases, List, [], ap, arith, false, get_or, inl, inr, leb, length, refl, some,
  suc, zero, ℕ, ◌+◌, ◌<◌, ◌==◌, ◌∷◌, ◌≡◌, ◌≤◌,
}
use serveez.IrcCore.Target.{
  Target, c_string, ends_user, if_fitting, irc_parse_target, is_comma, parse_host, parse_one,
  parse_targets, skip_comma, until,
}

until-length : (stop : ℕ → Bool) (text : List ℕ) → length (until stop text).1 ≤ length text
unfolding until
until-length stop [] = omega arith
until-length stop (c ∷ cs) = elim (Bool-cases (stop c)) [
  | inl e ↦ rw (e, until) (omega arith)
  | inr e ↦ rw (e, until) (omega (arith, until-length stop cs))
]

-- A character that does not stop the loop is copied.
until_go :
    (stop : ℕ → Bool) (c : ℕ) (cs : List ℕ)
    → stop c ≡ false
    → length (until stop (c ∷ cs)).1 ≤ length cs
unfolding until
until_go stop c cs e = rw (e, until) (until-length stop cs)

parse_host-length : (u text : List ℕ) → length (parse_host u text).1 ≤ length text
unfolding parse_host
parse_host-length u [] = omega arith
parse_host-length u (c ∷ cs) = elim (Bool-cases (c == b'@')) [
  | inl e ↦ rw (e, parse_host) (omega (arith, until-length is_comma cs))
  | inr e ↦ rw (e, parse_host) (omega arith)
]

skip_comma-length : (text : List ℕ) → length (skip_comma text) ≤ length text
unfolding skip_comma
skip_comma-length [] = omega arith
skip_comma-length (c ∷ cs) = elim (Bool-cases (is_comma c)) [
  | inl e ↦ rw e (omega arith)
  | inr e ↦ rw e (omega arith)
]

-- The user name is empty before a comma or an `@`, and these are passed.
user-length :
    (c : ℕ) (cs : List ℕ)
    → length (skip_comma (parse_host (until ends_user (c ∷ cs)).0 (until ends_user (c ∷ cs)).1).1)
      ≤ length cs
unfolding until parse_host skip_comma
user-length c cs = elim (==_cases c b',') [
  | inl (e, q) ↦ rw (e, until) (rw q (omega arith))
  | inr (f, _) ↦ elim (Bool-cases (c == b'@')) [
    | inl e ↦
        rw (f, e, until)
          (rw (e, parse_host)
            (omega (arith, until-length is_comma cs, skip_comma-length (until is_comma cs).1)))
    | inr e ↦
        let u = until ends_user (c ∷ cs) in
        omega (
          arith,
          skip_comma-length (parse_host u.0 u.1).1,
          parse_host-length u.0 u.1,
          until_go ends_user c cs (rw (f, e) refl),
        )
  ]
]

-- A round takes a character.
one-length : (c : ℕ) (cs : List ℕ) → length (skip_comma (parse_one c (c ∷ cs)).1) ≤ length cs
unfolding parse_one
one-length c cs =
    let r = (until is_comma (c ∷ cs)).1 in
    let word : is_comma c ≡ false → length (skip_comma r) ≤ length cs =
      λ f. omega (arith, skip_comma-length r, until_go is_comma c cs f) in
    elim (==_cases c b'&') [
      | inl (e, q) ↦ rw e (word (rw q refl))
      | inr (e, _) ↦ elim (==_cases c b'$') [
        | inl (f, q) ↦ rw (e, f) (word (rw q refl))
        | inr (f, _) ↦ elim (==_cases c b'#') [
          | inl (g, q) ↦ rw (e, f, g) (word (rw q refl))
          | inr (g, _) ↦ rw (e, f, g) (user-length c cs)
        ]
      ]
    ]

targets_end :
    (fuel : ℕ) (text : List ℕ)
    → length text < fuel
    → (ts : List Target) × (parse_targets fuel text ≡ some ts)
unfolding parse_targets
targets_end zero text h = absurd (omega (arith, h))
targets_end (suc fuel) [] h = ([], refl)
targets_end (suc fuel) (c ∷ cs) h =
    let one = parse_one c (c ∷ cs) in
    let (ts, e) = targets_end fuel (skip_comma one.1) (omega (arith, h, one-length c cs)) in
    (one.0 ∷ ts, rw e refl)

parse_target_ends :
    (paras : List (List ℕ)) (para : ℕ)
    → (ts : List Target) × (irc_parse_target paras para ≡ if_fitting (some ts))
unfolding irc_parse_target
parse_target_ends paras para =
    let text = c_string (get_or paras para []) in
    elim (Bool-cases (leb (length paras) para)) [
      | inl e ↦ ([], rw e refl)
      | inr e ↦
          let (ts, f) = targets_end (length text + 1) text (omega arith) in
          (ts, rw e (ap if_fitting f))
    ]
