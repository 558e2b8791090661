-- ===== src/Http/Range.antt =====
-- http-core.c: `http_get_range` and `http_check_range`, for the part of a file that a client wants.
-- A number is the 64 bits of an `off_t`, and wraps as those do.
use serveez.Base.{
  ==_cases, ==_iff, Bool, List, Option, [], ap, arith, drop, false, get_or, if◌then◌else◌, inl, inr,
  leb, ltb, none, not, refl, some, suc, true, zero, ℕ, ◌%◌, ◌&&◌, ◌*◌, ◌++◌, ◌+◌, ◌-◌, ◌/◌, ◌<◌,
  ◌==◌, ◌^◌, ◌||◌, ◌∙◌, ◌∷◌, ◌≡◌,
}
use serveez.Http.Property.{is_empty}
use serveez.Http.Request.{has_prefix}
use serveez.Number.{is_digit, itoa_loop}

pub record HttpRange : Type 0 where
  pub first : ℕ
  pub last : ℕ
  pub length : ℕ

-- One number, which may have no digits, and what stands behind it.
unfoldable pub read_number : ℕ → List ℕ → ℕ × List ℕ
read_number n [] = (n, [])
read_number n (c ∷ p) =
    let more = read_number ((n * 10 + (c - b'0')) % 2 ^ 64) p in
    elim (is_digit c) [ true ↦ more | false ↦ (n, c ∷ p) ]

-- The number behind the byte `c`, if that comes next, and 0 otherwise, which ends the line.
abbrev pub number_after : ℕ → List ℕ → ℕ × List ℕ
number_after c p = if get_or p 0 0 == c then read_number 0 (drop 1 p) else (0, [])

-- "bytes"
abbrev pub http_bytes : List ℕ
http_bytes = b'b' ∷ b'y' ∷ b't' ∷ b'e' ∷ b's' ∷ []

-- The three numbers one behind the other, by what is read as the first, the last and the length.
abbrev pub with_length : ℕ → ℕ × List ℕ → HttpRange
with_length first last = record {
  first = first;
  last = last.0;
  length = (number_after b'/' last.1).0;
}

abbrev pub with_last : ℕ × List ℕ → HttpRange
with_last first = with_length first.0 (number_after b'-' first.1)

-- `none` for the return value -1. A line of fewer than five bytes is not refused; what it reads behind
-- its end is taken as empty here.
unfoldable pub http_get_range : List ℕ → Option HttpRange
http_get_range line =
    if not (is_empty (drop 4 line)) && not (has_prefix http_bytes line)
    then none
    else some (with_last (number_after b'=' (drop 5 line)))

-- `true` for the return value -1; the numbers are not negative.
unfoldable pub http_check_range : HttpRange → ℕ → Bool
http_check_range range filesize =
    leb range.first 0
    || (not (range.last == 0) && leb range.last range.first)
    || (leb filesize range.last || ltb filesize range.length)

-- The digits of a number, as `svz_itoa` writes them, in front of `p`.
abbrev pub print_number : ℕ → List ℕ → List ℕ
print_number n p = elim (itoa_loop (suc n) n p) [ none ↦ [] | some s ↦ s ]

abbrev pub print_range : HttpRange → List ℕ
print_range r =
    http_bytes
    ++ b'=' ∷ print_number r.first (b'-' ∷ print_number r.last (b'/' ∷ print_number r.length []))

read_digit :
    (n d : ℕ) (p : List ℕ)
    → d < 10
    → n * 10 + d < 2 ^ 64
    → read_number n ((d + b'0') ∷ p) ≡ read_number (n * 10 + d) p
unfolding read_number
read_digit n d p h small =
    let digit : is_digit (d + b'0') ≡ true = ground arith in
    let same : (n * 10 + (d + b'0' - b'0')) % 2 ^ 64 ≡ n * 10 + d = omega (arith, small) in
    rw (digit, read_number) (ap (λ m. read_number m p) same)

itoa_read :
    (fuel i : ℕ) (p : List ℕ)
    → i < fuel
    → i < 2 ^ 63
    → (s : List ℕ) × (itoa_loop fuel i p ≡ some s) × (read_number 0 s ≡ read_number i p)
unfolding itoa_loop
itoa_read zero i p h bound = absurd (omega arith)
itoa_read (suc fuel) i p h bound = elim (==_cases (i / 10) 0) [
  | inl (e, small) ↦ (
    (i % 10 + b'0') ∷ p,
    rw (e, itoa_loop) refl,
    read_digit 0 (i % 10) p (omega arith) (omega arith)
        ∙ ap (λ m. read_number m p) (omega (arith, small)),
  )
  | inr (e, large) ↦
      let (s, run, reads) =
        itoa_read fuel (i / 10) ((i % 10 + b'0') ∷ p) (omega (arith, large))
          (omega (arith, bound)) in
      (
        s,
        rw (e, itoa_loop) run,
        reads
            ∙ read_digit (i / 10) (i % 10) p (omega arith) (omega (arith, bound))
            ∙ ap (λ m. read_number m p) (omega arith),
      )
]

read-print_number :
    (n : ℕ) (p : List ℕ) → n < 2 ^ 63 → read_number 0 (print_number n p) ≡ read_number n p
read-print_number n p bound =
    let (s, run, reads) = itoa_read (suc n) n p (omega arith) bound in
    ap (λ o. read_number 0 (elim o [ none ↦ [] | some s ↦ s ])) run ∙ reads

after_lem :
    (c n : ℕ) (p : List ℕ) → n < 2 ^ 63 → number_after c (c ∷ print_number n p) ≡ read_number n p
after_lem c n p bound =
    let found : c == c ≡ true = (==_iff c c).1 refl in rw found (read-print_number n p bound)

stop_lem : (n c : ℕ) (p : List ℕ) → is_digit c ≡ false → read_number n (c ∷ p) ≡ (n, c ∷ p)
unfolding read_number
stop_lem n c p h = rw (h, read_number) refl

read_nothing : (n : ℕ) → read_number n [] ≡ (n, [])
unfolding read_number
read_nothing n = refl

-- A range in print, with all its three numbers, each of them below 2 ^ 63, so that an `off_t` holds
-- it, comes back from `http_get_range`.
pub get_range-print_range :
    (r : HttpRange)
    → r.first < 2 ^ 63
    → r.last < 2 ^ 63
    → r.length < 2 ^ 63
    → http_get_range (print_range r) ≡ some r
unfolding http_get_range has_prefix
get_range-print_range r f l n =
    let end : read_number r.length [] ≡ (r.length, []) = read_nothing r.length in
    let rest : List ℕ = b'/' ∷ print_number r.length [] in
    let whole : List ℕ = b'-' ∷ print_number r.last rest in
    let first =
      after_lem b'=' r.first whole f ∙ stop_lem r.first b'-' (print_number r.last rest) refl in
    let last =
      after_lem b'-' r.last rest l ∙ stop_lem r.last b'/' (print_number r.length []) refl in
    ap (λ m. some (with_last m)) first
    ∙ ap (λ m. some (with_length r.first m)) last
    ∙ ap (λ m. some (record { first = r.first; last = r.last; length = m.0 }))
        (after_lem b'/' r.length [] n ∙ end)
