-- ===== src/Http/Uri.antt =====
-- http-core.c: `http_process_uri`, which decodes the bytes that a URI has in hexadecimal digits.
use mathlib.Core.Bool.{false≢true}
use Prim.Native.Nat.{bit_or}
use serveez.Base.{
  ==_cases, ==_iff, All, Bool, Bool-cases, List, [], ap, arith, false, if◌then◌else◌, inl, inr, leb,
  refl, suc, sym, true, zero, ℕ, ◌%◌, ◌&&◌, ◌*◌, ◌++◌, ◌+◌, ◌-◌, ◌/◌, ◌<◌, ◌==◌, ◌^◌, ◌∙◌, ◌∷◌, ◌≡◌,
  ◌≢◌,
}

-- ASC_TO_HEX: another byte than a digit stays.
abbrev pub asc_to_hex : ℕ → ℕ
asc_to_hex c =
    if leb b'0' c && leb c b'9'
    then c - b'0'
    else if leb b'a' c && leb c b'f'
    then c - (b'a' - 10)
    else if leb b'A' c && leb c b'F'
    then c - (b'A' - 10)
    else c

-- `(char) ((h << 4) | l)`
abbrev pub hex_byte : ℕ → ℕ → ℕ
hex_byte h l = bit_or (asc_to_hex h * 16) (asc_to_hex l) % 2 ^ 8

-- The bytes from `uri` on, where each round of the loop goes on behind the byte it has written; a '%'
-- with fewer than two bytes behind it ends the loop.
unfoldable pub http_process_uri : List ℕ → List ℕ
http_process_uri [] = []
http_process_uri (c ∷ []) = c ∷ []
http_process_uri (c ∷ h ∷ []) = c ∷ h ∷ []
http_process_uri (c ∷ h ∷ l ∷ uri) = elim (c == b'%') [
  | true ↦ hex_byte h l ∷ http_process_uri uri
  | false ↦ c ∷ http_process_uri (h ∷ l ∷ uri)
]

-- How a client writes bytes: those that are marked by a '%' and two digits.
abbrev pub hex_digit : Bool → ℕ → ℕ
hex_digit upper n = if leb n 9 then n + b'0' else if upper then n + (b'A' - 10) else n + (b'a' - 10)

abbrev pub print_byte : Bool → Bool → ℕ → List ℕ
print_byte marked upper c =
    if marked then b'%' ∷ hex_digit upper (c / 16) ∷ hex_digit upper (c % 16) ∷ [] else c ∷ []

abbrev pub print_uri : (ℕ → Bool) → Bool → List ℕ → List ℕ
print_uri marks upper [] = []
print_uri marks upper (c ∷ cs) = print_byte (marks c) upper c ++ print_uri marks upper cs

asc_to_hex-digit : (upper : Bool) (n : ℕ) → n < 16 → asc_to_hex (hex_digit upper n) ≡ n
asc_to_hex-digit true n h = ground arith
asc_to_hex-digit false n h = ground arith

-- A property of all numbers below a bound, tested.
below : ℕ → (ℕ → Bool) → Bool
below zero test = true
below (suc n) test = test n && below n test

below_lem : (n : ℕ) (test : ℕ → Bool) (k : ℕ) → below n test ≡ true → k < n → test k ≡ true
unfolding below
below_lem zero test k h less = absurd (omega arith)
below_lem (suc n) test k h less = elim (Bool-cases (test n)) [
  | inl e ↦ elim (==_cases k n) [
    | inl (_, same) ↦ rw same e
    | inr (_, differ) ↦ below_lem n test k (sym (rw e refl) ∙ h) (omega (arith, differ, less))
  ]
  | inr e ↦ absurd (false≢true (sym (rw e refl) ∙ h))
]

pairs : below 16 (λ h. below 16 (λ l. bit_or (h * 16) l == h * 16 + l)) ≡ true
unfolding below
pairs = refl

or_add : (h l : ℕ) → h < 16 → l < 16 → bit_or (h * 16) l ≡ h * 16 + l
or_add h l p q = (==_iff (bit_or (h * 16) l) (h * 16 + l)).0 (
    below_lem 16 (λ n. bit_or (h * 16) n == h * 16 + n) l
      (below_lem 16 (λ m. below 16 (λ n. bit_or (m * 16) n == m * 16 + n)) h pairs p) q)

hex_byte-print :
    (upper : Bool) (c : ℕ)
    → c < 2 ^ 8
    → hex_byte (hex_digit upper (c / 16)) (hex_digit upper (c % 16)) ≡ c
hex_byte-print upper c h =
    let high : c / 16 < 16 = omega arith in
    let low : c % 16 < 16 = omega arith in
    let sum : (c / 16 * 16 + c % 16) % 2 ^ 8 ≡ c = omega arith in
    rw (asc_to_hex-digit upper (c / 16) high, asc_to_hex-digit upper (c % 16) low)
      (ap (λ n. n % 2 ^ 8) (or_add (c / 16) (c % 16) high low) ∙ sum)

process_nothing : http_process_uri [] ≡ []
unfolding http_process_uri
process_nothing = refl

pub process_plain :
    (c : ℕ) (u : List ℕ) → c ≢ b'%' → http_process_uri (c ∷ u) ≡ c ∷ http_process_uri u
unfolding http_process_uri
process_plain c [] h = refl
process_plain c (d ∷ []) h = refl
process_plain c (d ∷ e ∷ u) h = elim (==_cases c b'%') [
  | inl (x, same) ↦ absurd (h same)
  | inr (x, differ) ↦ rw (x, http_process_uri) refl
]

process_coded :
    (h l : ℕ) (u : List ℕ) → http_process_uri (b'%' ∷ h ∷ l ∷ u) ≡ hex_byte h l ∷ http_process_uri u
unfolding http_process_uri
process_coded h l u = refl

pub process_uri-print_uri :
    (marks : ℕ → Bool) (upper : Bool) (uri : List ℕ)
    → marks b'%' ≡ true
    → All (λ c. c < 2 ^ 8) uri
    → http_process_uri (print_uri marks upper uri) ≡ uri
process_uri-print_uri marks upper [] m h = process_nothing
process_uri-print_uri marks upper (c ∷ uri) m (h, hs) =
    let rest = process_uri-print_uri marks upper uri m hs in
    elim (Bool-cases (marks c)) [
      | inl e ↦
          rw
            (
              e,
              process_coded (hex_digit upper (c / 16)) (hex_digit upper (c % 16))
                  (print_uri marks upper uri),
              hex_byte-print upper c h,
              rest,
            )
            refl
      | inr e ↦ rw e (
          process_plain c (print_uri marks upper uri)
            (λ same. false≢true (sym e ∙ ap marks same ∙ m))
          ∙ ap (λ u. c ∷ u) rest)
    ]
