-- ===== src/Irc/Crypt.antt =====
-- irc-server/irc-crypt.c. A text is the list of its bytes before the NUL; a `char` is taken as
-- the byte with its bits, since every result is cut to 8 bits.
pub mod RoundTrip
use Prim.Native.Nat.{bit_xor}
use mathlib.Core.Option
use serveez.Base.{
  List, Option, [], if◌then◌else◌, length, ltb, none, some, ℕ, ◌%◌, ◌++◌, ◌+◌, ◌-◌, ◌==◌, ◌||◌, ◌∷◌,
}
use serveez.IrcCore.Regex.Sound.{plain}
use serveez.IrcCore.Target.{max_msg_len}

abbrev pub irc_crypt_byte : ℕ
irc_crypt_byte = 42

abbrev pub irc_crypt_prefix : ℕ
irc_crypt_prefix = b'#'

-- A text with its NUL in the array `crypt` or `text` of the two functions; `none` where a loop writes beyond the end.
abbrev pub in_array : List ℕ → Option (List ℕ)
in_array text = if ltb (length text) max_msg_len then some text else none

-- The loop of `irc_gen_key`, with `n` bytes read.
gen_key_from : ℕ → ℕ → List ℕ → ℕ
gen_key_from key n [] = key
gen_key_from key n (p ∷ pass) =
    gen_key_from ((key + bit_xor (p + n) irc_crypt_byte % 256) % 256) (n + 1) pass

unfoldable pub irc_gen_key : List ℕ → ℕ
unfolding gen_key_from
irc_gen_key pass = gen_key_from 0 0 pass

-- The bytes for one code: control codes and the prefix itself are escaped.
unfoldable pub encrypt_code : ℕ → List ℕ
encrypt_code code =
    if ltb code 0x20 || code == irc_crypt_prefix
    then irc_crypt_prefix ∷ ((code + irc_crypt_prefix) % 256) ∷ []
    else code ∷ []

unfoldable pub encrypt_loop : List ℕ → ℕ → List ℕ
encrypt_loop [] key = []
encrypt_loop (t ∷ text) key = encrypt_code (bit_xor t key % 256) ++ encrypt_loop text key

-- The result is also copied over the text, in an array of the caller.
unfoldable pub irc_encrypt_text : List ℕ → ℕ → Option (List ℕ)
irc_encrypt_text text key = in_array (encrypt_loop text key)

-- `none`: a prefix is the last byte, and the loop runs past the NUL.
unfoldable pub decrypt_loop : List ℕ → ℕ → Option (List ℕ)
decrypt_loop [] key = some []
decrypt_loop (c ∷ []) key = if c == irc_crypt_prefix then none else some (bit_xor c key % 256 ∷ [])
decrypt_loop (c ∷ (d ∷ crypt)) key =
    let escaped =
      Option.map (λ r. bit_xor ((d + 256 - irc_crypt_prefix) % 256) key % 256 ∷ r)
        (decrypt_loop crypt key) in
    let plain = Option.map (λ r. bit_xor c key % 256 ∷ r) (decrypt_loop (d ∷ crypt) key) in
    if c == irc_crypt_prefix then escaped else plain

unfoldable pub irc_decrypt_text : List ℕ → ℕ → Option (List ℕ)
irc_decrypt_text crypt key = elim (decrypt_loop crypt key) [
  | none ↦ none
  | some text ↦ in_array text
]
