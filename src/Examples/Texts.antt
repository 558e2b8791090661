-- ===== src/Examples/Texts.antt =====
-- Texts: the theorems at concrete strings.
use serveez.Base.{All, List, [], arith, length, refl, some, ℕ, ◌++◌, ◌<◌, ◌∷◌, ◌≡◌, ◌≤◌}
use serveez.Irc.Crypt.{irc_decrypt_text, irc_encrypt_text}
use serveez.Irc.Crypt.RoundTrip.{decrypt-encrypt}
use serveez.Number.{svz_atoi, svz_itoa}
use serveez.Number.Decimal.{atoi-itoa}

decrypt-encrypt_example :
    (crypt : List ℕ) × (irc_encrypt_text (104 ∷ 105 ∷ 58 ∷ []) 58 ≡ some crypt)
    × All (λ c. 0 < c) crypt
    × (irc_decrypt_text crypt 58 ≡ some (104 ∷ 105 ∷ 58 ∷ []))
decrypt-encrypt_example =
    decrypt-encrypt (104 ∷ 105 ∷ 58 ∷ []) 58
      ((omega arith, omega arith), ((omega arith, omega arith), ((omega arith, omega arith), tt)))
      (omega arith) (omega arith)

atoi-itoa_example :
    (s : List ℕ) × (svz_itoa 4070 ≡ some s) × (length s ≤ 10) × (svz_atoi (s ++ (46 ∷ [])) ≡ 4070)
atoi-itoa_example = atoi-itoa 4070 (46 ∷ []) (omega arith) refl
