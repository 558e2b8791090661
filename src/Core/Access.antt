-- ===== src/Core/Access.antt =====
-- server-core.c: `svz_sock_check_access`. `strcmp` of the C library is a parameter, `true` for 0; an
-- address is a string, and the printed remote address of the child is an argument.
use mathlib.Core.Bool.{false≢true}
use serveez.Base.{
  Bool, Bool-cases, List, Option, [], ap, false, if◌then◌else◌, inl, inr, none, not, refl, some,
  sym, true, ℕ, ◌↔◌, ◌∙◌, ◌∷◌, ◌≡◌, ◌⊎◌,
}

-- The lists of a port configuration; `none` is NULL.
pub record AccessLists : Type 0 where
  pub deny : Option (List (List ℕ))
  pub allow : Option (List (List ℕ))

module _ (strcmp : List ℕ → List ℕ → Bool) where
  -- The first loop, which returns at a match.
  unfoldable pub denies : List (List ℕ) → List ℕ → Bool
  denies [] remote = false
  denies (ip ∷ ips) remote = elim (strcmp ip remote) [ true ↦ true | false ↦ denies ips remote ]

  -- The second loop with its `ret`, which goes on; `true` stands for -1.
  unfoldable pub allow_loop : Bool → List (List ℕ) → List ℕ → Bool
  allow_loop ret [] remote = ret
  allow_loop ret (ip ∷ ips) remote = allow_loop (if strcmp ip remote then false else ret) ips remote

  abbrev pub check_deny : Option (List (List ℕ)) → List ℕ → Bool
  check_deny none remote = false
  check_deny (some ips) remote = denies ips remote

  abbrev pub check_allow : Option (List (List ℕ)) → List ℕ → Bool
  check_allow none remote = false
  check_allow (some ips) remote = allow_loop true ips remote

  -- `true` for -1. The lists are those of the parent's port configuration, if there are a parent, a
  -- child and a configuration.
  unfoldable pub svz_sock_check_access : Option AccessLists → List ℕ → Bool
  svz_sock_check_access none remote = false
  svz_sock_check_access (some port) remote =
      if check_deny port.deny remote then true else check_allow port.allow remote

-- The address is in the list.
abbrev pub Listed : List ℕ → List (List ℕ) → Type 0
Listed a [] = ⊥
Listed a (b ∷ bs) = (b ≡ a) ⊎ Listed a bs

abbrev pub ListedIf : Option (List (List ℕ)) → Type 0 → List ℕ → Type 0
ListedIf none otherwise a = otherwise
ListedIf (some ips) otherwise a = Listed a ips

module _ (strcmp : List ℕ → List ℕ → Bool)
    (equal : (a b : List ℕ) → (strcmp a b ≡ true) ↔ (a ≡ b)) where
  denies_lem :
      (ips : List (List ℕ)) (a : List ℕ)
      → ((denies strcmp ips a ≡ true) × Listed a ips)
        ⊎ ((denies strcmp ips a ≡ false) × ¬ Listed a ips)
  unfolding denies
  denies_lem [] a = inr (refl, λ h. h)
  denies_lem (ip ∷ ips) a = elim (Bool-cases (strcmp ip a)) [
    | inl e ↦ inl (rw (e, denies) refl, inl ((equal ip a).0 e))
    | inr f ↦ elim (denies_lem ips a) [
      | inl (e, h) ↦ inl (rw (f, denies) e, inr h)
      | inr (e, missing) ↦ inr (
        rw (f, denies) e,
        λ h. elim h [ inl same ↦ false≢true (sym f ∙ (equal ip a).1 same) | inr k ↦ missing k ],
      )
    ]
  ]

  allow_false : (ips : List (List ℕ)) (a : List ℕ) → allow_loop strcmp false ips a ≡ false
  unfolding allow_loop
  allow_false [] a = refl
  allow_false (ip ∷ ips) a = elim (Bool-cases (strcmp ip a)) [
    | inl e ↦ rw e (allow_false ips a)
    | inr e ↦ rw e (allow_false ips a)
  ]

  allow_denies :
      (ips : List (List ℕ)) (a : List ℕ) → allow_loop strcmp true ips a ≡ not (denies strcmp ips a)
  unfolding allow_loop denies
  allow_denies [] a = refl
  allow_denies (ip ∷ ips) a = elim (Bool-cases (strcmp ip a)) [
    | inl e ↦ rw (e, denies) (allow_false ips a)
    | inr e ↦ rw (e, denies) (allow_denies ips a)
  ]

  check_deny_lem :
      (ips : Option (List (List ℕ))) (a : List ℕ)
      → ((check_deny strcmp ips a ≡ true) × ListedIf ips ⊥ a)
        ⊎ ((check_deny strcmp ips a ≡ false) × ¬ ListedIf ips ⊥ a)
  check_deny_lem none a = inr (refl, λ h. h)
  check_deny_lem (some ips) a = denies_lem ips a

  check_allow_lem :
      (ips : Option (List (List ℕ))) (a : List ℕ)
      → ((check_allow strcmp ips a ≡ false) × ListedIf ips Unit a)
        ⊎ ((check_allow strcmp ips a ≡ true) × ¬ ListedIf ips Unit a)
  check_allow_lem none a = inl (refl, tt)
  check_allow_lem (some ips) a = elim (denies_lem ips a) [
    | inl (e, h) ↦ inl (allow_denies ips a ∙ ap not e, h)
    | inr (e, missing) ↦ inr (allow_denies ips a ∙ ap not e, missing)
  ]

  -- Where `strcmp` decides equality: `svz_sock_check_access` lets a child in exactly if its address is
  -- not in the list of denied ones, if there is one, and is in that of allowed ones, if there is one.
  pub check_access_iff :
      (port : AccessLists) (a : List ℕ)
      → (svz_sock_check_access strcmp (some port) a ≡ false)
        ↔ ((¬ ListedIf port.deny ⊥ a) × ListedIf port.allow Unit a)
  unfolding svz_sock_check_access
  check_access_iff port a = elim (check_deny_lem port.deny a) [
    | inl (e, denied) ↦ (λ h. absurd (false≢true (sym h ∙ rw e refl)), λ h. absurd (h.0 denied))
    | inr (e, free) ↦ elim (check_allow_lem port.allow a) [
      | inl (f, allowed) ↦ (λ h. (free, allowed), λ h. rw e f)
      | inr (f, missing) ↦ (λ h. absurd (false≢true (sym h ∙ rw e f)), λ h. absurd (missing h.1))
    ]
  ]
