-- ===== src/Irc/Crypt/RoundTrip.antt =====
-- irc-crypt.c: what is decrypted is the text that was encrypted.
use Prim.Native.Nat.{bit_xor}
use native.Mathlib.Nat.{mod-eq_of_lt}
use mathlib.Core.Option
use serveez.Base.{
  ==_cases, All, All-append, List, [], ap, arith, false, inl, inr, length, length-append, ltb,
  ltb_cases, lt→ltb, refl, some, true, ℕ, ◌%◌, ◌*◌, ◌++◌, ◌+◌, ◌-◌, ◌<◌, ◌==◌, ◌∙◌, ◌∷◌, ◌≡◌, ◌≢◌,
  ◌≤◌, ◌⊎◌,
}
use serveez.Base.Bits.{bit_xor-lt, bit_xor_twice}
use serveez.Irc.Crypt.{
  decrypt_loop, encrypt_code, encrypt_loop, in_array, irc_crypt_prefix, irc_decrypt_text,
  irc_encrypt_text,
}
use serveez.IrcCore.Target.{max_msg_len}

-- A byte of a C string.
abbrev pub IsByte : ℕ → Type 0
IsByte c = (0 < c) × (c < 256)

-- The byte that comes out of an escaped code, and out of a plain one.
decrypt_escaped :
    (code key : ℕ) (rest : List ℕ)
    → code < 256
    → (code < 0x20) ⊎ (code ≡ irc_crypt_prefix)
    → decrypt_loop (encrypt_code code ++ rest) key
      ≡ Option.map (λ r. bit_xor code key % 256 ∷ r) (decrypt_loop rest key)
unfolding decrypt_loop encrypt_code
decrypt_escaped code key rest byte (inl low) =
    let e : ((code + 35) % 256 + 256 - 35) % 256 ≡ code = omega arith in rw (lt→ltb _ _ low, e)
decrypt_escaped code key rest byte (inr same) = rw same

decrypt_plain :
    (code key : ℕ) (rest : List ℕ)
    → 0x20 ≤ code
    → code ≢ irc_crypt_prefix
    → decrypt_loop (encrypt_code code ++ rest) key
      ≡ Option.map (λ r. bit_xor code key % 256 ∷ r) (decrypt_loop rest key)
unfolding decrypt_loop encrypt_code
decrypt_plain code key [] high other =
    let e : ltb code 0x20 ≡ false = ground arith in
    let f : (code == irc_crypt_prefix) ≡ false = ground arith in rw (e, f) (rw f)
decrypt_plain code key (d ∷ rest) high other =
    let e : ltb code 0x20 ≡ false = ground arith in
    let f : (code == irc_crypt_prefix) ≡ false = ground arith in rw (e, f) (rw f)

encrypt_code_shape :
    (code : ℕ)
    → code < 256
    → All (λ c. 0 < c) (encrypt_code code) × (length (encrypt_code code) ≤ 2)
unfolding encrypt_code
encrypt_code_shape code byte = elim (ltb_cases code 0x20) [
  | inl (e, low) ↦ rw e (omega arith)
  | inr (e, high) ↦ elim (==_cases code irc_crypt_prefix) [
    | inl (_, same) ↦ rw same (omega arith)
    | inr (f, other) ↦ rw (e, f) (omega arith)
  ]
]

-- The loops, without the sizes of their arrays.
decrypt_loop-encrypt :
    (text : List ℕ) (key : ℕ)
    → All IsByte text
    → key < 256
    → decrypt_loop (encrypt_loop text key) key ≡ some text
unfolding encrypt_loop
decrypt_loop-encrypt [] key bytes small = unfold decrypt_loop in refl
decrypt_loop-encrypt (t ∷ text) key ((_, byte), bytes) small =
    let code = bit_xor t key % 256 in
    let cut : code ≡ bit_xor t key = mod-eq_of_lt (bit_xor-lt 8 t key byte small) in
    let back : bit_xor code key % 256 ≡ t =
      ap (λ c. bit_xor c key % 256) cut
      ∙ ap (λ c. c % 256) (bit_xor_twice t key)
      ∙ mod-eq_of_lt byte in
    let rest = encrypt_loop text key in
    let one : decrypt_loop (encrypt_code code ++ rest) key
        ≡ Option.map (λ r. bit_xor code key % 256 ∷ r) (decrypt_loop rest key) =
      elim (ltb_cases code 0x20) [
        | inl (_, low) ↦ decrypt_escaped code key rest (omega arith) (inl low)
        | inr (_, high) ↦ elim (==_cases code irc_crypt_prefix) [
          | inl (_, same) ↦ decrypt_escaped code key rest (omega arith) (inr same)
          | inr (_, other) ↦ decrypt_plain code key rest high other
        ]
      ] in
    one ∙ rw (decrypt_loop-encrypt text key bytes small, back)

-- What is encrypted is at most twice as long, and no byte of it is the NUL.
encrypt_text_shape :
    (text : List ℕ) (key : ℕ)
    → All (λ c. 0 < c) (encrypt_loop text key) × (length (encrypt_loop text key) ≤ 2 * length text)
unfolding encrypt_loop
encrypt_text_shape [] key = (tt, omega arith)
encrypt_text_shape (t ∷ text) key =
    let code = bit_xor t key % 256 in
    let (nonzero, short) = encrypt_text_shape text key in
    let (here, two) = encrypt_code_shape code (omega arith) in
    (
      All-append _ (encrypt_code code) (encrypt_loop text key) here nonzero,
      omega (arith, length-append (encrypt_code code) (encrypt_loop text key), two, short),
    )

in_array_lem : (text : List ℕ) → length text < max_msg_len → in_array text ≡ some text
in_array_lem text h = let e : ltb (length text) max_msg_len ≡ true = lt→ltb _ _ h in rw e refl

-- For a text of fewer than 256 bytes other than NUL, which fits into the array of `irc_encrypt_text` even where every
-- byte is escaped, and every key: the encrypted text has no NUL inside, and `irc_decrypt_text` with the
-- same key gives the text back; neither writes beyond its array.
pub decrypt-encrypt :
    (text : List ℕ) (key : ℕ)
    → All IsByte text
    → key < 256
    → length text < 256
    → (crypt : List ℕ) × (irc_encrypt_text text key ≡ some crypt)
      × All (λ c. 0 < c) crypt
      × (irc_decrypt_text crypt key ≡ some text)
unfolding irc_encrypt_text irc_decrypt_text
decrypt-encrypt text key bytes small short =
    let crypt = encrypt_loop text key in
    let (nonzero, twice) = encrypt_text_shape text key in
    (
      crypt,
      in_array_lem crypt (omega (arith, twice, short)),
      nonzero,
      rw (decrypt_loop-encrypt text key bytes small, irc_decrypt_text)
          (in_array_lem text (omega (arith, short))),
    )
