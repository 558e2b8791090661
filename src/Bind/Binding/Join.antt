-- ===== src/Bind/Binding/Join.antt =====
-- binding.c: `add_server` and `adjoin` as operations on the set of pairs of a server and a port.
use mathlib.Core.Option.{some-injective}
use serveez.Base.{
  Bool, List, Option, [], inl, inr, none, refl, some, sym, true, ℕ, ◌++◌, ◌↔◌, ◌∙◌, ◌∷◌, ◌≡◌, ◌⊎◌,
}
use serveez.Bind.{PortCfg}
use serveez.Bind.Binding.{Binding, add_server, find_binding, items, join, make_binding}
use serveez.Bind.Binding.Has.{Has, Has-append, Unique, Unique-snoc, find_lem}
use serveez.Bind.Equal.Key.{Key, key}
use serveez.Bind.Expand.{svz_portcfg_dup}

-- The pair is the one of a server and a port.
abbrev pub IsPair : ℕ → PortCfg → ℕ → Key → Type 0
IsPair server port s k = (server ≡ s) × (key port ≡ some k)

Has-one :
    (bs : List Binding) (b : Binding) (server : ℕ) (k : Key)
    → Has (bs ++ b ∷ []) server k ↔ (Has bs server k ⊎ IsPair b.server b.port server k)
Has-one bs b server k =
    let both = Has-append bs (b ∷ []) server k in
    (
      λ h. elim (both.0 h) [
        | inl x ↦ inl x
        | inr x ↦ elim x [ inl pair ↦ inr pair | inr nothing ↦ absurd nothing ]
      ],
      λ h. elim h [ inl x ↦ both.1 (inl x) | inr pair ↦ both.1 (inr (inl pair)) ],
    )

-- A pair that is there already adds nothing.
Has-again :
    (bs : List Binding) (server : ℕ) (port : PortCfg) (k : Key)
    → key port ≡ some k
    → Has bs server k
    → (s : ℕ) (j : Key) → IsPair server port s j
    → Has bs s j
Has-again bs server port k e h s j (same, f) = rw (← same, ← some-injective k j (sym e ∙ f)) h

module _ (strcmp : List ℕ → List ℕ → Bool)
    (decides : (a b : List ℕ) → (strcmp a b ≡ true) ↔ (a ≡ b)) where
  -- What one step of `add_server` or of the loop of `adjoin` does to the bindings.
  abbrev pub Adds : List Binding → List Binding → ℕ → PortCfg → Type 0
  Adds bs cs server port =
      ((s : ℕ) (k : Key) → Has cs s k ↔ (Has bs s k ⊎ IsPair server port s k))
      × (Unique bs → Unique cs)

  kept :
      (bs : List Binding) (server : ℕ) (port : PortCfg) (k : Key)
      → key port ≡ some k
      → Has bs server k
      → Adds bs bs server port
  kept bs server port k e h = (
    λ s j. (
      λ x. inl x,
      λ x. elim x [ inl x ↦ x | inr pair ↦ Has-again bs server port k e h s j pair ],
    ),
    λ u. u,
  )

  extended :
      (bs : List Binding) (server : ℕ) (port : PortCfg)
      → ((k : Key) → key port ≡ some k → ¬ Has bs server k)
      → Adds bs (bs ++ make_binding server port ∷ []) server port
  extended bs server port missing = (
    λ s k. Has-one bs (make_binding server port) s k,
    λ u. Unique-snoc bs (make_binding server port) u missing,
  )

  -- Where `strcmp` decides equality: after `add_server`, the socket has the bindings it had, and one
  -- of the server to what identifies the port; no server is bound twice to one port if none was.
  pub add_server-Adds :
      (bindings : Option (List Binding)) (server : ℕ) (port : PortCfg)
      → Adds (items bindings) (items (add_server strcmp bindings server port).1) server port
  unfolding add_server
  add_server-Adds none server port = extended [] server port (λ k e h. h)
  add_server-Adds (some bs) server port = elim (find_lem strcmp decides bs server port) [
    | inl (b, e, k, f, h) ↦ rw (e, items) (kept bs server port k f h)
    | inr (e, missing) ↦ rw (e, items) (extended bs server port missing)
  ]

  join_found :
      (bs old : List Binding) (b c : Binding)
      → find_binding strcmp bs b.server b.port ≡ some c
      → join strcmp bs (b ∷ old) ≡ join strcmp bs old
  unfolding join
  join_found bs old b c e = rw (e, join) refl

  join_missing :
      (bs old : List Binding) (b : Binding)
      → find_binding strcmp bs b.server b.port ≡ none
      → join strcmp bs (b ∷ old)
        ≡ join strcmp (bs ++ make_binding b.server (svz_portcfg_dup b.port) ∷ []) old
  unfolding join
  join_missing bs old b e = rw (e, join) refl

  -- The bindings are those of two lists together.
  abbrev pub Unites : List Binding → List Binding → List Binding → Type 0
  Unites bs old ds =
      ((s : ℕ) (k : Key) → Has ds s k ↔ (Has bs s k ⊎ Has old s k)) × (Unique bs → Unique ds)

  one_more :
      (bs cs ds old : List Binding) (b : Binding)
      → Adds bs cs b.server b.port
      → Unites cs old ds
      → Unites bs (b ∷ old) ds
  one_more bs cs ds old b one rest = (
    λ s k. (
      λ x. elim ((rest.0 s k).0 x) [
        | inl y ↦ elim ((one.0 s k).0 y) [ inl z ↦ inl z | inr pair ↦ inr (inl pair) ]
        | inr y ↦ inr (inr y)
      ],
      λ x. (rest.0 s k).1 (elim x [
        | inl y ↦ inl ((one.0 s k).1 (inl y))
        | inr y ↦ elim y [ inl pair ↦ inl ((one.0 s k).1 (inr pair)) | inr z ↦ inr z ]
      ]),
    ),
    λ u. rest.1 (one.1 u),
  )

  join_nothing : (bs : List Binding) → Unites bs [] (join strcmp bs [])
  unfolding join
  join_nothing bs =
      (λ s k. (λ x. inl x, λ x. elim x [ inl x ↦ x | inr nothing ↦ absurd nothing ]), λ u. u)

  -- Where `strcmp` decides equality: `adjoin` makes the union of both sets of bindings, without a
  -- second binding of a server to one port if the first one had none.
  pub join-Unites : (bs old : List Binding) → Unites bs old (join strcmp bs old)
  join-Unites bs [] = join_nothing bs
  join-Unites bs (b ∷ old) = elim (find_lem strcmp decides bs b.server b.port) [
    | inl (c, e, k, f, h) ↦ rw (join_found bs old b c e) (
        one_more bs bs (join strcmp bs old) old b (kept bs b.server b.port k f h)
          (join-Unites bs old))
    | inr (e, missing) ↦
        let cs = bs ++ make_binding b.server (svz_portcfg_dup b.port) ∷ [] in
        rw (join_missing bs old b e) (
          one_more bs cs (join strcmp cs old) old b
            (extended bs b.server (svz_portcfg_dup b.port) missing) (join-Unites cs old))
  ]
