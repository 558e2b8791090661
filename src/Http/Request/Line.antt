-- ===== src/Http/Request/Line.antt =====
-- http-proto.c: how `http_handle_request` reads the first line of a request in print.
use mathlib.Core.Bool.{false≢true}
use serveez.Base.{
  ==_cases, All, All-append, Bool, List, [], ap, arith, false, if◌then◌else◌, inl, inr, none, not,
  refl, some, sym, true, ℕ, ◌&&◌, ◌++◌, ◌==◌, ◌∙◌, ◌∷◌, ◌≡◌, ◌≢◌,
}
use serveez.Http.Property.{is_empty}
use serveez.Http.Property.RoundTrip.{Property, eol, print_properties}
use serveez.Http.Request.{
  around, has_prefix, http_name, last_blank, read_line, read_parts, read_rest, to_blank, to_cr,
  to_nul,
}

-- The version 1.0 or 1.1.
abbrev pub minor : Bool → ℕ
minor false = b'0'
minor true = b'1'

abbrev pub version_text : Bool → List ℕ
version_text later = http_name ++ b'1' ∷ b'.' ∷ minor later ∷ []

abbrev pub print_request : List ℕ → List ℕ → Bool → List Property → List ℕ
print_request request uri later ps =
    request ++ b' ' ∷ b'/' ∷ ((uri ++ b' ' ∷ version_text later) ++ (eol ++ print_properties ps))

pub blank_lem :
    (request p : List ℕ) (c : ℕ)
    → All (λ d. d ≢ b' ') request
    → to_blank (request ++ b' ' ∷ c ∷ p) ≡ (request, b' ' ∷ c ∷ p)
unfolding to_blank
blank_lem [] p c h = refl
blank_lem (d ∷ request) p c (h, hs) = elim (==_cases d b' ') [
  | inl (e, same) ↦ absurd (h same)
  | inr (e, differ) ↦
      rw (e, some_more request, to_blank) (ap (λ r. (d ∷ r.0, r.1)) (blank_lem request p c hs))
]
  where
    some_more : (xs : List ℕ) → is_empty (xs ++ b' ' ∷ c ∷ p) ≡ false
    some_more [] = refl
    some_more (x ∷ xs) = refl

cr_lem : (text p : List ℕ) → All (λ d. d ≢ 13) text → to_cr (text ++ 13 ∷ p) ≡ (text, 13 ∷ p)
unfolding to_cr
cr_lem [] p h = refl
cr_lem (d ∷ text) p (h, hs) = elim (==_cases d 13) [
  | inl (e, same) ↦ absurd (h same)
  | inr (e, differ) ↦ rw (e, to_cr) (ap (λ r. (d ∷ r.0, r.1)) (cr_lem text p hs))
]

pub nul_lem : (p : List ℕ) → All (λ d. d ≢ 0) p → to_nul p ≡ p
unfolding to_nul
nul_lem [] h = refl
nul_lem (d ∷ p) (h, hs) = elim (==_cases d 0) [
  | inl (e, same) ↦ absurd (h same)
  | inr (e, differ) ↦ rw (e, to_nul) (ap (λ r. d ∷ r) (nul_lem p hs))
]

no_blank : (p : List ℕ) → All (λ d. (d ≢ b' ') × (d ≢ 0)) p → last_blank p ≡ none
unfolding last_blank
no_blank [] h = refl
no_blank (d ∷ p) ((h, k), hs) = elim (==_cases d b' ') [
  | inl (e, same) ↦ absurd (h same)
  | inr (e, _) ↦ elim (==_cases d 0) [
    | inl (f, same) ↦ absurd (k same)
    | inr (f, _) ↦ rw (no_blank p hs, e, f, last_blank) refl
  ]
]

last_lem :
    (u p : List ℕ) → All (λ d. (d ≢ b' ') × (d ≢ 0)) p → last_blank (u ++ b' ' ∷ p) ≡ some (u, p)
unfolding last_blank
last_lem [] p h = rw (no_blank p h, last_blank) refl
last_lem (c ∷ u) p h = rw (last_lem u p h, last_blank) refl

printable : ℕ → Bool
printable d = not (d == b' ') && not (d == 0) && not (d == 13)

pub all_printable : List ℕ → Bool
all_printable [] = true
all_printable (d ∷ p) = printable d && all_printable p

pub printable_lem :
    (p : List ℕ) → all_printable p ≡ true → All (λ d. (d ≢ b' ') × (d ≢ 0)) p × All (λ d. d ≢ 13) p
unfolding all_printable printable
printable_lem [] h = (tt, tt)
printable_lem (d ∷ p) h = elim (==_cases d b' ') [
  | inl (e, _) ↦ absurd (false≢true (sym (rw e refl) ∙ h))
  | inr (e, a) ↦ elim (==_cases d 0) [
    | inl (f, _) ↦ absurd (false≢true (sym (rw (e, f) refl) ∙ h))
    | inr (f, b) ↦ elim (==_cases d 13) [
      | inl (g, _) ↦ absurd (false≢true (sym (rw (e, f, g) refl) ∙ h))
      | inr (g, c) ↦
          let (x, y) = printable_lem p (sym (rw (e, f, g) refl) ∙ h) in (((a, b), x), (c, y))
    ]
  ]
]

pub version_printable : (later : Bool) → all_printable (version_text later) ≡ true
unfolding all_printable printable
version_printable false = refl
version_printable true = refl

and_false : (b : Bool) → (b && false) ≡ false
and_false true = refl
and_false false = refl

parts_lem :
    (request text uri p : List ℕ) (later : Bool)
    → read_parts request text (eol ++ p) (b'/' ∷ uri, version_text later)
      ≡ some (to_nul (b'/' ∷ uri), false, (1, minor later), p)
unfolding has_prefix
parts_lem request text uri p false =
    rw (and_false (has_prefix (b'G' ∷ b'E' ∷ b'T' ∷ []) request)) refl
parts_lem request text uri p true =
    rw (and_false (has_prefix (b'G' ∷ b'E' ∷ b'T' ∷ []) request)) refl

read_line_lem :
    (request uri p : List ℕ) (later : Bool)
    → read_line request (b'/' ∷ (uri ++ b' ' ∷ version_text later)) (eol ++ p)
      ≡ some (to_nul (b'/' ∷ uri), false, (1, minor later), p)
read_line_lem request uri p later =
    let text = b'/' ∷ (uri ++ b' ' ∷ version_text later) in
    let free = (printable_lem (version_text later) (version_printable later)).0 in
    ap (λ o. read_parts request text (eol ++ p) (around text o))
      (last_lem (b'/' ∷ uri) (version_text later) free)
    ∙ parts_lem request text uri p later

-- The first line in print is read.
pub read_rest_lem :
    (request uri : List ℕ) (later : Bool) (ps : List Property)
    → All (λ d. d ≢ 13) uri
    → read_rest request
        (b' ' ∷ b'/' ∷ ((uri ++ b' ' ∷ version_text later) ++ (eol ++ print_properties ps)))
      ≡ some (to_nul (b'/' ∷ uri), false, (1, minor later), print_properties ps)
read_rest_lem request uri later ps h =
    let free = (printable_lem (version_text later) (version_printable later)).1 in
    let text = b'/' ∷ (uri ++ b' ' ∷ version_text later) in
    let all : All (λ d. d ≢ 13) text = (
      (λ e. omega (arith, e)),
      All-append (λ d. d ≢ 13) uri (b' ' ∷ version_text later) h ((λ e. omega (arith, e)), free),
    ) in
    ap (λ r. if not (is_empty r.1) then read_line request r.0 r.1 else none)
      (cr_lem text (10 ∷ print_properties ps) all)
    ∙ read_line_lem request uri (print_properties ps) later
