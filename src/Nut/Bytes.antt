-- ===== src/Nut/Bytes.antt =====
-- nut-server/nut-core.h: byte order, and `memcpy` between numbers and memory. Memory is a list
-- of bytes; `big` is WORDS_BIGENDIAN of the host.
use mathlib.Core.List.{append_assoc}
use serveez.Base.{
  Bool, List, Option, [], arith, drop, false, get_or, if◌then◌else◌, inl, inr, leb, leb_cases,
  length, length-append, none, not, refl, some, true, ℕ, ◌%◌, ◌*◌, ◌++◌, ◌+◌, ◌/◌, ◌<◌, ◌^◌, ◌∷◌,
  ◌≡◌, ◌≤◌,
}

-- `__BSWAP_16` and `__BSWAP_32`: the masks pick the bytes, and the shifted bytes do not overlap.
unfoldable pub bswap_16 : ℕ → ℕ
bswap_16 x = x / 2 ^ 8 % 2 ^ 8 + x % 2 ^ 8 * 2 ^ 8

unfoldable pub bswap_32 : ℕ → ℕ
bswap_32 x =
    x / 2 ^ 24 % 2 ^ 8
    + x % 2 ^ 8 * 2 ^ 24
    + x / 2 ^ 8 % 2 ^ 8 * 2 ^ 16
    + x / 2 ^ 16 % 2 ^ 8 * 2 ^ 8

-- `ltohs` and `htols`, `ltohl` and `htoll`: little endian to host order and back.
unfoldable pub order_s : Bool → ℕ → ℕ
order_s true x = bswap_16 x
order_s false x = x

unfoldable pub order_l : Bool → ℕ → ℕ
order_l true x = bswap_32 x
order_l false x = x

-- `memcpy (data, &uint16, SIZEOF_UINT16)` and `memcpy (data, &uint32, SIZEOF_UINT32)`
unfoldable pub store_16 : Bool → ℕ → List ℕ
store_16 true x = (x / 2 ^ 8 % 2 ^ 8) ∷ (x % 2 ^ 8) ∷ []
store_16 false x = (x % 2 ^ 8) ∷ (x / 2 ^ 8 % 2 ^ 8) ∷ []

unfoldable pub store_32 : Bool → ℕ → List ℕ
store_32 true x =
    (x / 2 ^ 24 % 2 ^ 8) ∷ (x / 2 ^ 16 % 2 ^ 8) ∷ (x / 2 ^ 8 % 2 ^ 8) ∷ (x % 2 ^ 8) ∷ []
store_32 false x =
    (x % 2 ^ 8) ∷ (x / 2 ^ 8 % 2 ^ 8) ∷ (x / 2 ^ 16 % 2 ^ 8) ∷ (x / 2 ^ 24 % 2 ^ 8) ∷ []

-- The other direction, from the bytes at a place.
unfoldable pub load_16 : Bool → List ℕ → ℕ
load_16 true m = get_or m 0 0 * 2 ^ 8 + get_or m 1 0
load_16 false m = get_or m 0 0 + get_or m 1 0 * 2 ^ 8

unfoldable pub load_32 : Bool → List ℕ → ℕ
load_32 true m = get_or m 0 0 * 2 ^ 24 + get_or m 1 0 * 2 ^ 16 + get_or m 2 0 * 2 ^ 8 + get_or m 3 0
load_32 false m =
    get_or m 0 0 + get_or m 1 0 * 2 ^ 8 + get_or m 2 0 * 2 ^ 16 + get_or m 3 0 * 2 ^ 24

-- The bytes of a number in little endian order, as they are sent.
abbrev pub little_16 : ℕ → List ℕ
little_16 x = store_16 false x

abbrev pub little_32 : ℕ → List ℕ
little_32 x = store_32 false x

pub bswap_16_twice : (x : ℕ) → x < 2 ^ 16 → bswap_16 (bswap_16 x) ≡ x
unfolding bswap_16
bswap_16_twice x h = omega arith

pub load_16-store_16 :
    (big : Bool) (x : ℕ) (rest : List ℕ) → x < 2 ^ 16 → load_16 big (store_16 big x ++ rest) ≡ x
unfolding load_16 store_16
load_16-store_16 true x rest h = omega arith
load_16-store_16 false x rest h = omega arith

pub load_32-store_32 :
    (big : Bool) (x : ℕ) (rest : List ℕ) → x < 2 ^ 32 → load_32 big (store_32 big x ++ rest) ≡ x
unfolding load_32 store_32
load_32-store_32 true x rest h = omega arith
load_32-store_32 false x rest h = omega arith

pub bswap_16-lt : (x : ℕ) → bswap_16 x < 2 ^ 16
unfolding bswap_16
bswap_16-lt x = omega arith

bswap_32-lt : (x : ℕ) → bswap_32 x < 2 ^ 32
unfolding bswap_32
bswap_32-lt x = omega arith

bswap_32_twice : (x : ℕ) → x < 2 ^ 32 → bswap_32 (bswap_32 x) ≡ x
unfolding bswap_32
bswap_32_twice x h = omega arith

-- A number stored after a change of order is read back by the same change.
pub read_s :
    (big : Bool) (x : ℕ) (rest : List ℕ)
    → x < 2 ^ 16
    → order_s big (load_16 big (store_16 big (order_s big x) ++ rest)) ≡ x
unfolding order_s
read_s true x rest h =
    rw (load_16-store_16 true (bswap_16 x) rest (bswap_16-lt x)) (bswap_16_twice x h)
read_s false x rest h = load_16-store_16 false x rest h

pub read_l :
    (big : Bool) (x : ℕ) (rest : List ℕ)
    → x < 2 ^ 32
    → order_l big (load_32 big (store_32 big (order_l big x) ++ rest)) ≡ x
unfolding order_l
read_l true x rest h =
    rw (load_32-store_32 true (bswap_32 x) rest (bswap_32-lt x)) (bswap_32_twice x h)
read_l false x rest h = load_32-store_32 false x rest h

pub read_n :
    (big : Bool) (x : ℕ) (rest : List ℕ)
    → x < 2 ^ 16
    → bswap_16 (load_16 big (store_16 big (bswap_16 x) ++ rest)) ≡ x
read_n big x rest h =
    rw (load_16-store_16 big (bswap_16 x) rest (bswap_16-lt x)) (bswap_16_twice x h)

-- Stored in the order of the wire, a number has the same bytes on every host.
pub store-order_s : (big : Bool) (x : ℕ) → store_16 big (order_s big x) ≡ little_16 x
unfolding store_16 order_s bswap_16
store-order_s true x =
    let a : (x / 2 ^ 8 % 2 ^ 8 + x % 2 ^ 8 * 2 ^ 8) / 2 ^ 8 % 2 ^ 8 ≡ x % 2 ^ 8 = omega arith in
    let b : (x / 2 ^ 8 % 2 ^ 8 + x % 2 ^ 8 * 2 ^ 8) % 2 ^ 8 ≡ x / 2 ^ 8 % 2 ^ 8 = omega arith in
    rw (a, b)
store-order_s false x = refl

pub store-order_l : (big : Bool) (x : ℕ) → store_32 big (order_l big x) ≡ little_32 x
store-order_l true x =
    let s = bswap_32 x in
    let a : s / 2 ^ 24 % 2 ^ 8 ≡ x % 2 ^ 8 = unfold bswap_32 in omega arith in
    let b : s / 2 ^ 16 % 2 ^ 8 ≡ x / 2 ^ 8 % 2 ^ 8 = unfold bswap_32 in omega arith in
    let c : s / 2 ^ 8 % 2 ^ 8 ≡ x / 2 ^ 16 % 2 ^ 8 = unfold bswap_32 in omega arith in
    let d : s % 2 ^ 8 ≡ x / 2 ^ 24 % 2 ^ 8 = unfold bswap_32 in omega arith in
    unfold store_32 order_l in rw (a, b, c, d)
store-order_l false x = unfold order_l in refl

-- What follows a stored number.
pub drop-store_16 : (big : Bool) (x : ℕ) (rest : List ℕ) → drop 2 (store_16 big x ++ rest) ≡ rest
unfolding store_16
drop-store_16 true x rest = refl
drop-store_16 false x rest = refl

pub drop-store_32 : (big : Bool) (x : ℕ) (rest : List ℕ) → drop 4 (store_32 big x ++ rest) ≡ rest
unfolding store_32
drop-store_32 true x rest = refl
drop-store_32 false x rest = refl

pub length-store_16 : (big : Bool) (x : ℕ) → length (store_16 big x) ≡ 2
unfolding store_16
length-store_16 true x = refl
length-store_16 false x = refl

pub length-store_32 : (big : Bool) (x : ℕ) → length (store_32 big x) ≡ 4
unfolding store_32
length-store_32 true x = refl
length-store_32 false x = refl

-- What is read from memory of `n` bytes at least, `none` if there are fewer.
unfoldable pub when_long {ℓ} : {A : Type ℓ} → ℕ → List ℕ → A → Option A
when_long n m a = if leb n (length m) then some a else none

pub when_long_lem {ℓ} :
    {A : Type ℓ} (n : ℕ) (m : List ℕ) (a : A) → n ≤ length m → when_long n m a ≡ some a
unfolding when_long
when_long_lem n m a h = elim (leb_cases n (length m)) [
  | inl (e, _) ↦ rw e refl
  | inr (_, short) ↦ absurd (omega arith)
]

-- A port in network byte order.
abbrev pub htons : Bool → ℕ → ℕ
htons big port = order_s (not big) port

pub bswap_htons : (big : Bool) (x : ℕ) → x < 2 ^ 16 → bswap_16 (htons big x) ≡ order_s big x
unfolding order_s
bswap_htons true x h = refl
bswap_htons false x h = bswap_16_twice x h

-- The four bytes of an address in network byte order.
abbrev pub address : ℕ → ℕ → ℕ → ℕ → List ℕ
address a b c d = a ∷ b ∷ c ∷ d ∷ []

pub store_32-load_32 :
    (big : Bool) (a b c d : ℕ)
    → a < 256
    → b < 256
    → c < 256
    → d < 256
    → store_32 big (load_32 big (address a b c d)) ≡ address a b c d
unfolding load_32 store_32
store_32-load_32 true a b c d ha hb hc hd =
    let x = a * 2 ^ 24 + b * 2 ^ 16 + c * 2 ^ 8 + d in
    let p : x / 2 ^ 24 % 2 ^ 8 ≡ a = omega arith in
    let q : x / 2 ^ 16 % 2 ^ 8 ≡ b = omega arith in
    let r : x / 2 ^ 8 % 2 ^ 8 ≡ c = omega arith in
    let s : x % 2 ^ 8 ≡ d = omega arith in rw (p, q, r, s) refl
store_32-load_32 false a b c d ha hb hc hd =
    let x = a + b * 2 ^ 8 + c * 2 ^ 16 + d * 2 ^ 24 in
    let p : x / 2 ^ 24 % 2 ^ 8 ≡ d = omega arith in
    let q : x / 2 ^ 16 % 2 ^ 8 ≡ c = omega arith in
    let r : x / 2 ^ 8 % 2 ^ 8 ≡ b = omega arith in
    let s : x % 2 ^ 8 ≡ a = omega arith in rw (p, q, r, s) refl

pub ruleset memory = (append_assoc, drop-store_16, drop-store_32)

pub ruleset lengths = (length-append, length-store_16, length-store_32)
