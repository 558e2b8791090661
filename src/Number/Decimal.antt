-- ===== src/Number/Decimal.antt =====
-- util.c: `svz_atoi` reads what `svz_itoa` prints.
use native.Mathlib.Nat.{pow-suc}
use serveez.Base.{
  ==_cases, List, [], ap, arith, false, inl, inr, length, refl, some, suc, true, zero, ℕ, ◌%◌, ◌*◌,
  ◌++◌, ◌+◌, ◌-◌, ◌/◌, ◌<◌, ◌==◌, ◌^◌, ◌∙◌, ◌∷◌, ◌≡◌, ◌≤◌,
}
use serveez.Number.{atoi_loop, is_digit, itoa_loop, svz_atoi, svz_itoa}

-- The text that follows is not read.
abbrev pub NoDigit : List ℕ → Type 0
NoDigit [] = Unit
NoDigit (c ∷ s) = is_digit c ≡ false

atoi_loop_stop : (i : ℕ) (rest : List ℕ) → NoDigit rest → atoi_loop i rest ≡ i
unfolding atoi_loop
atoi_loop_stop i [] h = refl
atoi_loop_stop i (c ∷ s) h = rw h

atoi_loop_digit :
    (i d : ℕ) (s : List ℕ)
    → d < 10
    → i * 10 + d < 2 ^ 32
    → atoi_loop i ((d + b'0') ∷ s) ≡ atoi_loop (i * 10 + d) s
unfolding atoi_loop
atoi_loop_digit i d s h small =
    let digit : is_digit (d + b'0') ≡ true = ground arith in
    let next : (i * 10 % 2 ^ 32 + (d + b'0' - b'0')) % 2 ^ 32 ≡ i * 10 + d = omega arith in
    rw (digit, next)

all_read : (i : ℕ) → i / 10 ≡ 0 → 0 * 10 + i % 10 ≡ i
all_read i h = omega arith

read_on : (i : ℕ) → i / 10 * 10 + i % 10 ≡ i
read_on i = omega arith

-- The loop stands before the digits `p` that it has written, which `svz_atoi` reads on from `i`.
itoa_loop_lem :
    (f i : ℕ) (p : List ℕ)
    → i < 10 ^ suc f
    → i < 2 ^ 32
    → (s : List ℕ) × (itoa_loop (suc f) i p ≡ some s)
      × ((rest : List ℕ) → atoi_loop 0 (s ++ rest) ≡ atoi_loop i (p ++ rest))
      × (length s ≤ length p + suc f)
unfolding itoa_loop
itoa_loop_lem zero i p h small =
    let digits = (i % 10 + b'0') ∷ p in
    let last : (i / 10 == 0) ≡ true = ground arith in
    (
      digits,
      rw (last, itoa_loop),
      λ rest.
          atoi_loop_digit 0 (i % 10) (p ++ rest) (omega arith) (omega arith)
          ∙ ap (λ n. atoi_loop n (p ++ rest)) (all_read i (omega arith)),
      omega arith,
    )
itoa_loop_lem (suc f) i p h small =
    let digits = (i % 10 + b'0') ∷ p in
    elim (==_cases (i / 10) 0) [
      | inl (e, last) ↦ (
        digits,
        rw (e, itoa_loop),
        λ rest.
            atoi_loop_digit 0 (i % 10) (p ++ rest) (omega arith) (omega arith)
            ∙ ap (λ n. atoi_loop n (p ++ rest)) (all_read i last),
        omega arith,
      )
      | inr (e, more) ↦
          let (s, run, reads, short) =
            itoa_loop_lem f (i / 10) digits (omega (arith, pow-suc 10 (suc f))) (omega arith) in
          (
            s,
            rw (e, itoa_loop) run,
            λ rest.
                reads rest
                ∙ atoi_loop_digit (i / 10) (i % 10) (p ++ rest) (omega arith) (omega arith)
                ∙ ap (λ n. atoi_loop n (p ++ rest)) (read_on i),
            omega (arith, short),
          )
    ]

-- For every `unsigned int` the loop of `svz_itoa` ends, prints at most ten digits, far less than
-- its buffer of 32 bytes holds, and `svz_atoi` reads the number back, whatever follows it that
-- does not begin with a digit.
pub atoi-itoa :
    (i : ℕ) (rest : List ℕ)
    → i < 2 ^ 32
    → NoDigit rest
    → (s : List ℕ) × (svz_itoa i ≡ some s) × (length s ≤ 10) × (svz_atoi (s ++ rest) ≡ i)
unfolding svz_itoa svz_atoi
atoi-itoa i rest h stop =
    let (s, run, reads, short) = itoa_loop_lem 9 i [] (omega arith) h in
    let same : i % 2 ^ 32 ≡ i = omega arith in
    (s, rw same run, short, reads rest ∙ atoi_loop_stop i rest stop)
