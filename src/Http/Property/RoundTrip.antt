-- ===== src/Http/Property/RoundTrip.antt =====
-- http-core.c: properties in print come back from `http_parse_property` and are found.
use mathlib.Core.List.{append_assoc}
use serveez.Base.{
  ==_cases, All, List, [], ap, arith, drop, false, if◌then◌else◌, inl, inr, leb, length, refl, suc,
  zero, ℕ, ◌++◌, ◌<◌, ◌∙◌, ◌∷◌, ◌≡◌, ◌≢◌, ◌≤◌,
}
use serveez.Http.Property.{
  Found, body, eol1, http_find_property, http_parse_property, max_http_properties, null, parse_loop,
  parse_round, same_start, strncpy, to_colon, to_eol,
}

abbrev pub eol : List ℕ
eol = 13 ∷ 10 ∷ []

-- A name and a body.
abbrev pub Property : Type 0
Property = List ℕ × List ℕ

abbrev pub print_property : Property → List ℕ
print_property p = p.0 ++ b':' ∷ b' ' ∷ (p.1 ++ eol)

abbrev pub print_properties : List Property → List ℕ
print_properties [] = eol
print_properties (p ∷ ps) = print_property p ++ print_properties ps

abbrev pub flat : List Property → List (List ℕ)
flat [] = []
flat (p ∷ ps) = p.0 ∷ p.1 ∷ flat ps

-- No NUL is in the name and the body, no colon and no carriage return in the name, no carriage
-- return in the body, which is not empty.
abbrev pub IsText : List ℕ → Type 0
IsText w = All (λ c. c ≢ 0) w

abbrev pub IsProperty : Property → Type 0
IsProperty p =
    (All (λ c. (c ≢ b':') × (c ≢ 13)) p.0 × All (λ c. c ≢ 13) p.1 × (0 < length p.1))
    × IsText p.0
    × IsText p.1

strncpy_all : (w : List ℕ) → IsText w → strncpy w ≡ w
unfolding strncpy
strncpy_all [] h = refl
strncpy_all (c ∷ w) (h, hs) = elim (==_cases c 0) [
  | inl (e, same) ↦ absurd (h same)
  | inr (e, differ) ↦ rw (e, strncpy) (ap (λ r. c ∷ r) (strncpy_all w hs))
]

colon_lem :
    (name p : List ℕ)
    → All (λ c. (c ≢ b':') × (c ≢ 13)) name
    → to_colon (name ++ b':' ∷ p) ≡ (name, b':' ∷ p)
unfolding to_colon
colon_lem [] p h = refl
colon_lem (c ∷ name) p ((h, _), hs) = elim (==_cases c b':') [
  | inl (e, same) ↦ absurd (h same)
  | inr (e, differ) ↦ rw (e, to_colon) (ap (λ r. (c ∷ r.0, r.1)) (colon_lem name p hs))
]

eol1_other : (c : ℕ) (p : List ℕ) → c ≢ 13 → eol1 (c ∷ p) ≡ false
eol1_other c p h = elim (==_cases c 13) [
  | inl (e, same) ↦ absurd (h same)
  | inr (e, differ) ↦ rw e refl
]

eol_lem :
    (value p : List ℕ) → All (λ c. c ≢ 13) value → to_eol (value ++ (eol ++ p)) ≡ (value, eol ++ p)
unfolding to_eol
eol_lem [] p h = refl
eol_lem (c ∷ value) p (h, hs) =
    rw (eol1_other c (value ++ (eol ++ p)) h, to_eol)
      (ap (λ r. (c ∷ r.0, r.1)) (eol_lem value p hs))

start_lem :
    (name p : List ℕ) → All (λ c. (c ≢ b':') × (c ≢ 13)) name → eol1 (name ++ b':' ∷ p) ≡ false
start_lem [] p h = refl
start_lem (c ∷ name) p (h, hs) = eol1_other c (name ++ b':' ∷ p) h.1

not_short : (n : ℕ) → 0 < n → leb (suc (suc n)) 2 ≡ false
not_short n h = ground arith

parse_step :
    (left c d : ℕ) (request name at before after : List ℕ)
    → eol1 request ≡ false
    → to_colon request ≡ (name, c ∷ at)
    → to_eol (c ∷ at) ≡ (before, d ∷ after)
    → leb (length before) 2 ≡ false
    → parse_loop (suc left) request
      ≡ strncpy name ∷ strncpy (drop 2 before) ∷ parse_loop left (drop 2 (d ∷ after))
unfolding parse_loop
parse_step left c d request name at before after e f g h =
    ap (λ b. parse_round (parse_loop left) b (to_colon request) (to_eol (to_colon request).1)) e
    ∙ ap (λ n. parse_round (parse_loop left) false n (to_eol n.1)) f
    ∙ ap (λ b. parse_round (parse_loop left) false (name, c ∷ at) b) g
    ∙ rw (h, parse_round) refl

one_property :
    (left : ℕ) (name value p : List ℕ)
    → IsProperty (name, value)
    → parse_loop (suc left) (name ++ b':' ∷ b' ' ∷ (value ++ (eol ++ p)))
      ≡ name ∷ value ∷ parse_loop left p
one_property left name value p ((h, k, some_byte), text, body_text) =
    let at = b' ' ∷ (value ++ (eol ++ p)) in
    parse_step left b':' 13 (name ++ b':' ∷ at) name at (b':' ∷ b' ' ∷ value) (10 ∷ p)
      (start_lem name at h) (colon_lem name at h)
      (eol_lem (b':' ∷ b' ' ∷ value) p ((λ e. omega (arith, e)), ((λ e. omega (arith, e)), k)))
      (not_short (length value) some_byte)
    ∙ rw (strncpy_all name text, strncpy_all value body_text) refl

no_more : (left : ℕ) (p : List ℕ) → parse_loop left (eol ++ p) ≡ []
unfolding parse_loop
no_more zero p = refl
no_more (suc left) p = refl

-- Properties in print, at most as many as `left`, are read, whatever follows the empty line.
pub parse_loop-print :
    (left : ℕ) (ps : List Property) (p : List ℕ)
    → length ps ≤ left
    → All IsProperty ps
    → parse_loop left (print_properties ps ++ p) ≡ flat ps
parse_loop-print left [] p h k = no_more left p
parse_loop-print zero (q ∷ ps) p h k = absurd (omega arith)
parse_loop-print (suc left) ((name, value) ∷ ps) p h (k, ks) =
    let rest = print_properties ps ++ p in
    ap (parse_loop (suc left)) (shape name value (print_properties ps) p)
    ∙ one_property left name value rest k
    ∙ ap (λ t. name ∷ value ∷ t) (parse_loop-print left ps p (omega arith) ks)
  where
    shape :
        (a b c d : List ℕ)
        → ((a ++ b':' ∷ b' ' ∷ (b ++ eol)) ++ c) ++ d ≡ a ++ b':' ∷ b' ' ∷ (b ++ (eol ++ (c ++ d)))
    shape a b c d =
        append_assoc (a ++ b':' ∷ b' ' ∷ (b ++ eol)) c d
        ∙ append_assoc a (b':' ∷ b' ' ∷ (b ++ eol)) (c ++ d)
        ∙ ap (λ t. a ++ b':' ∷ b' ' ∷ t) (append_assoc b eol (c ++ d))

-- The body of the first property whose name begins with the key, in the character set.
abbrev pub first_with : (ℕ → ℕ) → List Property → List ℕ → Found
first_with tolower [] key = null
first_with tolower (p ∷ ps) key =
    let rest = first_with tolower ps key in if same_start tolower p.0 key then body p.1 else rest

find_flat :
    (tolower : ℕ → ℕ) (ps : List Property) (key : List ℕ)
    → http_find_property tolower (flat ps) key ≡ first_with tolower ps key
unfolding http_find_property
find_flat tolower [] key = refl
find_flat tolower (p ∷ ps) key =
    ap (λ r. if same_start tolower p.0 key then body p.1 else r) (find_flat tolower ps key)

-- For at most 31 properties in print, with names without colons, bodies that are not empty, and no
-- carriage returns and NULs: `http_parse_property` reads exactly them, and `http_find_property` gives the body
-- of the first one whose name begins with the key, or NULL, and never reads behind the array.
pub find-parse_property :
    (tolower : ℕ → ℕ) (ps : List Property) (p key : List ℕ)
    → length ps < max_http_properties
    → All IsProperty ps
    → (http_parse_property (print_properties ps ++ p) ≡ flat ps)
      × (http_find_property tolower (http_parse_property (print_properties ps ++ p)) key
          ≡ first_with tolower ps key)
unfolding http_parse_property
find-parse_property tolower ps p key h k =
    let read = parse_loop-print 31 ps p (omega arith) k in
    (read, ap (λ l. http_find_property tolower l key) read ∙ find_flat tolower ps key)
