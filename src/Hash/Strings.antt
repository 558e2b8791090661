-- ===== src/Hash/Strings.antt =====
-- hash.c: the default callbacks, on C strings as the lists of their bytes before the NUL.
use Prim.Native.Nat.{bit_xor}
use mathlib.Core.Path.{subst}
use mathlib.Core.Bool.{false≢true}
use serveez.Base.{
  ==_cases, Bool, List, [], ap, arith, false, if◌then◌else◌, inl, inr, length, ltb, refl, sym, take,
  take_all, true, ℕ, ◌%◌, ◌*◌, ◌+◌, ◌-◌, ◌==◌, ◌^◌, ◌↔◌, ◌∙◌, ◌∷◌, ◌≡◌,
}
use serveez.Hash.Keys.{Keys}

-- A `char` in an `unsigned long` expression: bytes from 128 on are negative and sign-extended.
abbrev pub sign_extend : ℕ → ℕ
sign_extend c = if ltb c 128 then c else c + (2 ^ 64 - 256)

-- The loop `code = (code << 1) ^ *p`.
hash_code_from : ℕ → List ℕ → ℕ
hash_code_from code [] = code
hash_code_from code (c ∷ s) = hash_code_from (bit_xor (code * 2 % 2 ^ 64) (sign_extend c)) s

unfoldable pub hash_code : List ℕ → ℕ
unfolding hash_code_from
hash_code s = hash_code_from 0 s

-- Zero, here `true`, if both strings end together. (The test for one pointer given twice only
-- saves time.)
unfoldable pub hash_equal : List ℕ → List ℕ → Bool
hash_equal [] [] = true
hash_equal [] (d ∷ t) = false
hash_equal (c ∷ s) [] = false
hash_equal (c ∷ s) (d ∷ t) = if c == d then hash_equal s t else false

unfoldable pub hash_key_length : List ℕ → ℕ
hash_key_length [] = 1
hash_key_length (c ∷ s) = hash_key_length s + 1

-- The string in the `hash_key_length` bytes that `svz_hash_put` copies, the last of them the NUL.
unfoldable pub copy_key : List ℕ → List ℕ
copy_key s = take (hash_key_length s - 1) s

hash_key_length_lem : (s : List ℕ) → hash_key_length s ≡ length s + 1
unfolding hash_key_length
hash_key_length_lem [] = omega arith
hash_key_length_lem (c ∷ s) = omega (arith, hash_key_length_lem s)

hash_equal→eq : (s t : List ℕ) → hash_equal s t ≡ true → s ≡ t
unfolding hash_equal
hash_equal→eq [] [] h = refl
hash_equal→eq [] (d ∷ t) h = cc
hash_equal→eq (c ∷ s) [] h = cc
hash_equal→eq (c ∷ s) (d ∷ t) h = elim (==_cases c d) [
  | inl (e, same) ↦ cc (same, hash_equal→eq s t (rw e at h))
  | inr (e, _) ↦ absurd (false≢true (rw e at h))
]

pub hash_equal_refl : (s : List ℕ) → hash_equal s s ≡ true
unfolding hash_equal
hash_equal_refl [] = refl
hash_equal_refl (c ∷ s) = ground (arith, hash_equal_refl s)

-- The default callbacks meet what a table asks of them: `hash_equal` decides equality of
-- strings, and the bytes copied are the whole string.
pub string_callbacks : (s t : List ℕ) → ((hash_equal s t ≡ true) ↔ (s ≡ t)) × (copy_key s ≡ s)
string_callbacks s t =
    ((hash_equal→eq s t, λ e. subst (λ u. hash_equal s u ≡ true) e (hash_equal_refl s)), copied s)
  where
    copied : (u : List ℕ) → copy_key u ≡ u
    copied u =
        unfold copy_key in take_all (hash_key_length u - 1) u (omega (arith, hash_key_length_lem u))

instance abbrev pub string_keys : Keys (List ℕ)
string_keys = record {
  code = hash_code;
  equals = hash_equal;
  copy = copy_key;
  equals_refl = hash_equal_refl;
  equals_symm = λ a b h. (string_callbacks b a).0.1 (sym ((string_callbacks a b).0.0 h));
  equals_trans = λ a b c h k.
      (string_callbacks a c).0.1 ((string_callbacks a b).0.0 h ∙ (string_callbacks b c).0.0 k);
  code-equals = λ a b h. ap hash_code ((string_callbacks a b).0.0 h);
  equals-copy = λ a. (string_callbacks (copy_key a) a).0.1 (string_callbacks a a).1;
}
