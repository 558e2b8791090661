-- ===== src/Number.antt =====
-- libserveez/util.c: `svz_itoa` and `svz_atoi`, decimal numbers as the bytes of C strings.
pub mod Decimal
use serveez.Base.{
  Bool, List, Option, [], false, if◌then◌else◌, leb, none, some, suc, true, zero, ℕ, ◌%◌, ◌&&◌, ◌*◌,
  ◌+◌, ◌-◌, ◌/◌, ◌==◌, ◌^◌, ◌∷◌,
}

-- The loop of `svz_itoa`, which writes digits from the end of its buffer. It takes fuel, `none`
-- if that is used up; the list is what stands from `p` on.
unfoldable pub itoa_loop : ℕ → ℕ → List ℕ → Option (List ℕ)
itoa_loop zero i p = none
itoa_loop (suc fuel) i p =
    let digits = (i % 10 + b'0') ∷ p in
    elim (i / 10 == 0) [ true ↦ some digits | false ↦ itoa_loop fuel (i / 10) digits ]

-- An `unsigned int` of 32 bits has ten digits at most.
unfoldable pub svz_itoa : ℕ → Option (List ℕ)
unfolding itoa_loop
svz_itoa i = itoa_loop 10 (i % 2 ^ 32) []

-- `c >= '0' && c <= '9'`
abbrev pub is_digit : ℕ → Bool
is_digit c = leb b'0' c && leb c b'9'

-- The loop of `svz_atoi`, with `i` read; the list ends where the NUL stands.
pub atoi_loop : ℕ → List ℕ → ℕ
atoi_loop i [] = i
atoi_loop i (c ∷ str) =
    let rest = atoi_loop ((i * 10 % 2 ^ 32 + (c - b'0')) % 2 ^ 32) str in
    if is_digit c then rest else i

unfoldable pub svz_atoi : List ℕ → ℕ
unfolding atoi_loop
svz_atoi str = atoi_loop 0 str
