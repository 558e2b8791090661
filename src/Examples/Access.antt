-- ===== src/Examples/Access.antt =====
-- server-core.c: the theorem on `svz_sock_check_access` at concrete addresses.
use serveez.Base.{Bool, List, [], ap, false, map, refl, some, sym, true, ℕ, ◌↔◌, ◌∙◌, ◌∷◌, ◌≡◌}
use serveez.Core.Access.{AccessLists, ListedIf, check_access_iff, svz_sock_check_access}
use serveez.IrcCore.Compare.{irc_string_equal, string_equal-map}

-- Equality of strings, as a function.
abbrev pub same_string : List ℕ → List ℕ → Bool
same_string = irc_string_equal (λ c. c)

map_id : (a : List ℕ) → map (λ c. c) a ≡ a
map_id [] = refl
map_id (c ∷ a) = ap (λ l. c ∷ l) (map_id a)

pub same_string_iff : (a b : List ℕ) → (same_string a b ≡ true) ↔ (a ≡ b)
same_string_iff a b =
    let both = string_equal-map (λ c. c) a b in
    (λ e. sym (map_id a) ∙ both.0 e ∙ map_id b, λ e. both.1 (ap (map (λ c. c)) e))

abbrev lists : AccessLists
lists = record { deny = some ((1 ∷ []) ∷ []); allow = some ((2 ∷ []) ∷ (3 ∷ []) ∷ []) }

check_access_iff_example :
    (svz_sock_check_access same_string (some lists) (3 ∷ []) ≡ false)
    ↔ ((¬ ListedIf lists.deny ⊥ (3 ∷ [])) × ListedIf lists.allow Unit (3 ∷ []))
check_access_iff_example = check_access_iff same_string same_string_iff lists (3 ∷ [])
