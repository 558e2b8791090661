-- ===== src/Irc/Swap.antt =====
-- irc-server/irc-proto.c: taking an element out of an array by moving the last one into its place, as
-- `irc_leave_channel` does it.
use mathlib.Core.Path.{subst}
use serveez.Base.{
  ==_cases, List, [], if◌then◌else◌, inl, inr, sym, ℕ, ◌++◌, ◌==◌, ◌↔◌, ◌∙◌, ◌∷◌, ◌≡◌, ◌≢◌, ◌⊎◌,
}

-- The elements behind the one that is taken out, with the last one in front.
abbrev pub last_of {ℓ} : {A : Type ℓ} → A → List A → A
last_of a [] = a
last_of a (b ∷ bs) = last_of b bs

abbrev pub init_of {ℓ} : {A : Type ℓ} → A → List A → List A
init_of a [] = []
init_of a (b ∷ bs) = a ∷ init_of b bs

abbrev pub last_to_front {ℓ} : {A : Type ℓ} → List A → List A
last_to_front [] = []
last_to_front (a ∷ cs) = last_of a cs ∷ init_of a cs

module _ {ℓ} {A : Type ℓ} (key : A → ℕ) where
  -- Without the first element that has the key.
  unfoldable pub move_last_into : ℕ → List A → List A
  move_last_into x [] = []
  move_last_into x (a ∷ rest) =
      let more = move_last_into x rest in if key a == x then last_to_front rest else a ∷ more

  abbrev pub In : ℕ → List A → Type 0
  In x [] = ⊥
  In x (a ∷ rest) = (key a ≡ x) ⊎ In x rest

  -- No key twice.
  abbrev pub Once : List A → Type 0
  Once [] = Unit
  Once (a ∷ rest) = (¬ In (key a) rest) × Once rest

  In-last :
      (y : ℕ) (a : A) (rest : List A) → In y (last_of a rest ∷ init_of a rest) ↔ In y (a ∷ rest)
  In-last y a [] = (λ h. h, λ h. h)
  In-last y a (b ∷ rest) =
      let more = In-last y b rest in
      (
        λ h. elim h [
          | inl e ↦ inr (more.0 (inl e))
          | inr t ↦ elim t [ inl e ↦ inl e | inr u ↦ inr (more.0 (inr u)) ]
        ],
        λ h. elim h [
          | inl e ↦ inr (inl e)
          | inr t ↦ elim (more.1 t) [ inl e ↦ inl e | inr u ↦ inr (inr u) ]
        ],
      )

  Once-last : (a : A) (rest : List A) → Once (a ∷ rest) → Once (last_of a rest ∷ init_of a rest)
  Once-last a [] h = h
  Once-last a (b ∷ rest) (away, h) =
      let (apart, once) = Once-last b rest h in
      let both = In-last (key a) b rest in
      (
        λ t. elim t [ inl e ↦ away (both.0 (inl (sym e))) | inr u ↦ apart u ],
        (λ u. away (both.0 (inr u)), once),
      )

  In-move : (y : ℕ) (rest : List A) → In y (last_to_front rest) ↔ In y rest
  In-move y [] = (λ h. h, λ h. h)
  In-move y (a ∷ rest) = In-last y a rest

  -- Where no key is there twice, exactly the element with the key is gone.
  pub In-move_last_into :
      (x y : ℕ) (xs : List A) → Once xs → In y (move_last_into x xs) ↔ (In y xs × (y ≢ x))
  unfolding move_last_into
  In-move_last_into x y [] h = (λ t. absurd t, λ t. t.0)
  In-move_last_into x y (a ∷ rest) (away, h) = elim (==_cases (key a) x) [
    | inl (e, same) ↦
        let both = In-move y rest in
        rw e (
          λ t. (inr (both.0 t), λ eq. away (subst (λ z. In z rest) (eq ∙ sym same) (both.0 t))),
          λ t. elim t.0 [ inl f ↦ absurd (t.1 (sym f ∙ same)) | inr u ↦ both.1 u ],
        )
    | inr (e, differ) ↦
        let more = In-move_last_into x y rest h in
        rw e (
          λ t. elim t [
            | inl f ↦ (inl f, λ eq. differ (f ∙ eq))
            | inr u ↦ let (v, w) = more.0 u in (inr v, w)
          ],
          λ t. elim t.0 [ inl f ↦ inl f | inr u ↦ inr (more.1 (u, t.1)) ],
        )
  ]

  pub Once-move_last_into : (x : ℕ) (xs : List A) → Once xs → Once (move_last_into x xs)
  unfolding move_last_into
  Once-move_last_into x [] h = h
  Once-move_last_into x (a ∷ rest) (away, h) = elim (==_cases (key a) x) [
    | inl (e, same) ↦ rw e (moved rest h)
    | inr (e, differ) ↦
        rw e (λ t. away ((In-move_last_into x (key a) rest h).0 t).0, Once-move_last_into x rest h)
  ]
    where
      moved : (cs : List A) → Once cs → Once (last_to_front cs)
      moved [] k = k
      moved (b ∷ bs) k = Once-last b bs k

  pub In-snoc : (y : ℕ) (xs : List A) (a : A) → In y (xs ++ a ∷ []) ↔ (In y xs ⊎ (key a ≡ y))
  In-snoc y [] a = (
    λ t. elim t [ inl e ↦ inr e | inr n ↦ absurd n ],
    λ t. elim t [ inl n ↦ absurd n | inr e ↦ inl e ],
  )
  In-snoc y (b ∷ xs) a =
      let more = In-snoc y xs a in
      (
        λ t. elim t [
          | inl e ↦ inl (inl e)
          | inr u ↦ elim (more.0 u) [ inl v ↦ inl (inr v) | inr e ↦ inr e ]
        ],
        λ t. elim t [
          | inl u ↦ elim u [ inl e ↦ inl e | inr v ↦ inr (more.1 (inl v)) ]
          | inr e ↦ inr (more.1 (inr e))
        ],
      )

  pub Once-snoc : (xs : List A) (a : A) → Once xs → ¬ In (key a) xs → Once (xs ++ a ∷ [])
  Once-snoc [] a h n = (λ t. t, tt)
  Once-snoc (b ∷ xs) a (away, h) n = (
    λ t. elim ((In-snoc (key b) xs a).0 t) [ inl u ↦ away u | inr e ↦ n (inl (sym e)) ],
    Once-snoc xs a h (λ u. n (inr u)),
  )
