-- ===== src/Raw/Checksum.antt =====
-- raw-socket.c: the checksum is the one's complement of the one's complement sum.
use serveez.Base.{
  All, Bool, List, [], arith, false, inl, inr, length, length-take, ltb_cases, refl, some, suc,
  take, true, ℕ, ◌%◌, ◌*◌, ◌+◌, ◌-◌, ◌/◌, ◌<◌, ◌==◌, ◌^◌, ◌∙◌, ◌∷◌, ◌≡◌, ◌≤◌,
}
use serveez.Nut.Bytes.{htons}
use serveez.Raw.Header.{add_words, fold_checksum, svz_raw_ip_checksum}

fold_stop : (fuel sum : ℕ) → sum < 2 ^ 16 → fold_checksum (suc fuel) sum ≡ some sum
unfolding fold_checksum
fold_stop fuel sum h =
    let done : (sum / 2 ^ 16 == 0) ≡ true = ground arith in rw (done, fold_checksum) refl

fold_step :
    (fuel sum : ℕ)
    → 2 ^ 16 ≤ sum
    → fold_checksum (suc fuel) sum ≡ fold_checksum fuel ((sum % 2 ^ 16 + sum / 2 ^ 16) % 2 ^ 32)
unfolding fold_checksum
fold_step fuel sum h =
    let more : (sum / 2 ^ 16 == 0) ≡ false = ground arith in rw (more, fold_checksum) refl

-- Folding ends within three tests, and keeps the sum modulo 65535.
fold_checksum_lem :
    (sum : ℕ)
    → sum < 2 ^ 32
    → (r : ℕ) × (fold_checksum 3 sum ≡ some r) × (r < 2 ^ 16) × (r % 65535 ≡ sum % 65535)
fold_checksum_lem sum h = elim (ltb_cases sum (2 ^ 16)) [
  | inl (_, small) ↦ (sum, fold_stop 2 sum small, small, refl)
  | inr (_, large) ↦
      let once = (sum % 2 ^ 16 + sum / 2 ^ 16) % 2 ^ 32 in
      elim (ltb_cases once (2 ^ 16)) [
        | inl (_, small) ↦
            (once, fold_step 2 sum large ∙ fold_stop 1 once small, small, omega arith)
        | inr (_, over) ↦
            let twice = (once % 2 ^ 16 + once / 2 ^ 16) % 2 ^ 32 in
            (
              twice,
              fold_step 2 sum large ∙ fold_step 1 once over ∙ fold_stop 0 twice (omega arith),
              omega arith,
              omega arith,
            )
      ]
]

-- The sum of the words, the first byte of each the low one, without a bound.
abbrev word_sum : List ℕ → ℕ
word_sum [] = 0
word_sum (a ∷ []) = a
word_sum (a ∷ (b ∷ m)) = a + b * 256 + word_sum m

abbrev pub IsByte : ℕ → Type 0
IsByte c = c < 256

word_sum_bound : (m : List ℕ) → All IsByte m → word_sum m ≤ length m * 2 ^ 16
word_sum_bound [] h = omega arith
word_sum_bound (a ∷ []) (h, _) = omega arith
word_sum_bound (a ∷ (b ∷ m)) (h, (k, hs)) = omega (arith, word_sum_bound m hs)

add_words_lem :
    (c : ℕ) (m : List ℕ) → All IsByte m → c + word_sum m < 2 ^ 32 → add_words c m ≡ c + word_sum m
unfolding add_words
add_words_lem c [] h small = omega arith
add_words_lem c (a ∷ []) (h, _) small = omega arith
add_words_lem c (a ∷ (b ∷ m)) (h, (k, hs)) small =
    let next : (c + (a + b * 2 ^ 8)) % 2 ^ 32 ≡ c + (a + b * 256) = omega arith in
    rw next (add_words_lem (c + (a + b * 256)) m hs (omega arith) ∙ omega arith)

-- For at most 2 ^ 15 bytes the sum does not wrap, three rounds are enough, and the checksum is, in
-- network byte order, the complement of a number of 16 bits that is the sum of the words modulo
-- 65535.
ip_checksum_lem :
    (big : Bool) (m : List ℕ) (len : ℕ)
    → All IsByte (take len m)
    → len ≤ 2 ^ 15
    → (r : ℕ) × (svz_raw_ip_checksum 3 big m len ≡ some (htons big (65535 - r)))
      × (r < 2 ^ 16)
      × (r % 65535 ≡ word_sum (take len m) % 65535)
unfolding svz_raw_ip_checksum
ip_checksum_lem big m len bytes short =
    let few : length (take len m) ≤ 2 ^ 15 = omega (arith, length-take len m) in
    let bound : word_sum (take len m) < 2 ^ 32 = omega (arith, word_sum_bound (take len m) bytes) in
    let sum : add_words 0 (take len m) ≡ word_sum (take len m) =
      add_words_lem 0 (take len m) bytes (omega (arith, bound)) ∙ omega arith in
    let (r, run, small, same) = fold_checksum_lem (word_sum (take len m)) bound in
    let complement : (2 ^ 32 - 1 - r) % 2 ^ 16 ≡ 65535 - r = omega arith in
    (r, rw (sum, run, complement) refl, small, same)
