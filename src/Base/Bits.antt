-- ===== src/Base/Bits.antt =====
-- C's `&` and `^` on unsigned numbers: the equation for the lowest digit, low masks as
-- remainders, and `^` as its own inverse.
use Prim.Native.Nat.{bit_and, bit_xor, digits, differ, min, bit_and-bitwise, bit_xor-bitwise}
use native.Mathlib.Nat.{
  pow-suc, one-le-pow, mod-eq_of_lt, mod-lt, add-mul-mod_self_left, div-add-mod,
}
use mathlib.Core.WellFounded
use serveez.Base.{
  ==_cases, ap, arith, inl, inr, refl, suc, sym, zero, ℕ, ◌%◌, ◌*◌, ◌+◌, ◌-◌, ◌/◌, ◌<◌, ◌^◌, ◌∙◌,
  ◌≡◌, ◌≤◌, ◌⊎◌,
}
use serveez.Base.Order.{lt_wf}

module _ (rest : ℕ → ℕ) (op : ℕ → ℕ → ℕ) where
  -- The count of digits to go matters only as a bound on the first number.
  any_count : (b a m n : ℕ) → a ≤ m → a ≤ n → digits rest op m a b ≡ digits rest op n a b
  any_count b zero zero zero p q = refl
  any_count b zero zero (suc n) p q = refl
  any_count b zero (suc m) zero p q = refl
  any_count b zero (suc m) (suc n) p q = refl
  any_count b (suc a) zero n p q = absurd (omega arith)
  any_count b (suc a) (suc m) zero p q = absurd (omega arith)
  any_count b (suc a) (suc m) (suc n) p q =
      ap (λ t. t * 2 + op (suc a % 2) (b % 2))
        (any_count (b / 2) (suc a / 2) m n (omega arith) (omega arith))

pub bit_and_low : (a b : ℕ) → bit_and a b ≡ bit_and (a / 2) (b / 2) * 2 + min (a % 2) (b % 2)
bit_and_low zero b = simp bit_and-bitwise (omega arith)
bit_and_low (suc a) b = simp bit_and-bitwise (
    ap (λ t. t * 2 + min (suc a % 2) (b % 2))
      (any_count (λ _. 0) min (b / 2) (suc a / 2) a (suc a / 2) (omega arith) (omega arith)))

pub bit_xor_low : (a b : ℕ) → bit_xor a b ≡ bit_xor (a / 2) (b / 2) * 2 + differ (a % 2) (b % 2)
bit_xor_low zero b = simp bit_xor-bitwise (omega arith)
bit_xor_low (suc a) b = simp bit_xor-bitwise (
    ap (λ t. t * 2 + differ (suc a % 2) (b % 2))
      (any_count (λ y. y) differ (b / 2) (suc a / 2) a (suc a / 2) (omega arith) (omega arith)))

double_mod : (m a : ℕ) → 0 < m → a / 2 % m * 2 + a % 2 ≡ a % (m * 2)
double_mod m a pos =
    let low : ℕ = a / 2 % m * 2 + a % 2 in
    let split : a ≡ low + m * 2 * (a / 2 / m) =
      omega (arith, div-add-mod (a / 2) m, div-add-mod a 2) in
    let small : low < m * 2 = omega (arith, mod-lt (a / 2) pos) in
    sym (
      ap (λ t. t % (m * 2)) split
      ∙ add-mul-mod_self_left low (m * 2) (a / 2 / m)
      ∙ mod-eq_of_lt small)

-- `a & (2 ^ k - 1)` is the remainder by `2 ^ k`.
pub bit_and_mask : (k a : ℕ) → bit_and a (2 ^ k - 1) ≡ a % 2 ^ k
bit_and_mask zero a = bit_and-none a ∙ omega arith
  where
    bit_and-none : (n : ℕ) → bit_and n 0 ≡ 0
    bit_and-none n =
        WellFounded.induction lt_wf {C = λ k. bit_and k 0 ≡ 0} n
          λ k ih. ground (arith, bit_and_low k 0, ih (k / 2), bit_and-bitwise 0 0)
bit_and_mask (suc k) a =
    let pos : 0 < 2 ^ k = one-le-pow k 2 (omega arith) in
    let half = bit_and_mask k (a / 2) in
    let power = pow-suc 2 k in
    let halved : (2 ^ suc k - 1) / 2 ≡ 2 ^ k - 1 = omega (arith, power, pos) in
    let odd : (2 ^ suc k - 1) % 2 ≡ 1 = omega (arith, power, pos) in
    let first : bit_and a (2 ^ suc k - 1) ≡ a / 2 % 2 ^ k * 2 + a % 2 =
      bit_and_low a (2 ^ suc k - 1) ∙ rw (halved, odd, half) (omega arith) in
    first ∙ double_mod (2 ^ k) a pos ∙ ap (λ t. a % t) (sym power)

digit_cases : (n : ℕ) → (n % 2 ≡ 0) ⊎ (n % 2 ≡ 1)
digit_cases n = elim (==_cases (n % 2) 0) [ inl (_, e) ↦ inl e | inr (_, e) ↦ inr (omega arith) ]

differ_facts :
    (a b : ℕ) → (differ (a % 2) (b % 2) < 2) × (differ (differ (a % 2) (b % 2)) (b % 2) ≡ a % 2)
differ_facts a b = elim (digit_cases a) [
  | inl p ↦ elim (digit_cases b) [
    | inl q ↦ rw (p, q) (omega arith)
    | inr q ↦ rw (p, q) (omega arith)
  ]
  | inr p ↦ elim (digit_cases b) [
    | inl q ↦ rw (p, q) (omega arith)
    | inr q ↦ rw (p, q) (omega arith)
  ]
]

xor_fuel : (n a b : ℕ) → a + b ≤ n → bit_xor (bit_xor a b) b ≡ a
xor_fuel zero zero zero h = refl
xor_fuel zero zero (suc b) h = absurd (omega arith)
xor_fuel zero (suc a) b h = absurd (omega arith)
xor_fuel (suc n) zero zero h = refl
xor_fuel (suc n) a b h =
    let c = bit_xor a b in
    let (small, twice) = differ_facts a b in
    let low = bit_xor_low a b in
    let half : c / 2 ≡ bit_xor (a / 2) (b / 2) = omega (arith, low, small) in
    let last : c % 2 ≡ differ (a % 2) (b % 2) = omega (arith, low, small) in
    let again = xor_fuel n (a / 2) (b / 2) (omega arith) in
    bit_xor_low c b ∙ rw (half, last, again, twice) (omega arith)

pub bit_xor_twice : (a b : ℕ) → bit_xor (bit_xor a b) b ≡ a
bit_xor_twice a b = xor_fuel (a + b) a b (omega arith)

-- A bit set in neither number is set in neither's `^`: bytes stay bytes.
pub bit_xor-lt : (k a b : ℕ) → a < 2 ^ k → b < 2 ^ k → bit_xor a b < 2 ^ k
bit_xor-lt zero zero zero p q = omega (arith, bit_xor-bitwise 0 0)
bit_xor-lt zero zero (suc b) p q = absurd (omega arith)
bit_xor-lt zero (suc a) b p q = absurd (omega arith)
bit_xor-lt (suc k) a b p q =
    let power = pow-suc 2 k in
    omega (
      arith,
      power,
      bit_xor_low a b,
      (differ_facts a b).0,
      bit_xor-lt k (a / 2) (b / 2) (omega (arith, power)) (omega (arith, power)),
    )
