-- ===== src/Bind/Binding/Has.antt =====
-- binding.c: what bindings there are, as pairs of a server and what identifies a port; how the
-- searches and the additions of single bindings act on them.
use mathlib.Core.Bool.{false≢true}
use serveez.Base.{
  ==_cases, Bool, Bool-cases, List, [], inl, inr, none, refl, some, sym, true, ℕ, ◌++◌, ◌↔◌, ◌∙◌,
  ◌∷◌, ◌≡◌, ◌⊎◌,
}
use serveez.Bind.{PortCfg}
use serveez.Bind.Binding.{Binding, find_binding, is_equal, portcfg_exactly_equal}
use serveez.Bind.Equal.{Match, conflict, equal, matching, nomatch, svz_portcfg_equal, undefined}
use serveez.Bind.Equal.Key.{Key, SameKey, key, portcfg_equal_iff}

-- A binding of the server to a port with the key.
abbrev pub Has : List Binding → ℕ → Key → Type 0
Has [] server k = ⊥
Has (b ∷ bs) server k = ((b.server ≡ server) × (key b.port ≡ some k)) ⊎ Has bs server k

-- No server has two bindings to ports with one key.
abbrev pub Unique : List Binding → Type 0
Unique [] = Unit
Unique (b ∷ bs) = ((k : Key) → key b.port ≡ some k → ¬ Has bs b.server k) × Unique bs

pub Has-append :
    (bs cs : List Binding) (server : ℕ) (k : Key)
    → Has (bs ++ cs) server k ↔ (Has bs server k ⊎ Has cs server k)
Has-append [] cs server k = (λ h. inr h, λ h. elim h [ inl e ↦ absurd e | inr h ↦ h ])
Has-append (b ∷ bs) cs server k =
    let rest = Has-append bs cs server k in
    (
      λ h. elim h [
        | inl e ↦ inl (inl e)
        | inr t ↦ elim (rest.0 t) [ inl x ↦ inl (inr x) | inr x ↦ inr x ]
      ],
      λ h. elim h [
        | inl t ↦ elim t [ inl e ↦ inl e | inr x ↦ inr (rest.1 (inl x)) ]
        | inr x ↦ inr (rest.1 (inr x))
      ],
    )

pub Unique-snoc :
    (bs : List Binding) (b : Binding)
    → Unique bs
    → ((k : Key) → key b.port ≡ some k → ¬ Has bs b.server k)
    → Unique (bs ++ b ∷ [])
Unique-snoc [] b u h = (λ k e x. x, tt)
Unique-snoc (c ∷ bs) b (apart, u) h = (
  λ k e x. elim ((Has-append bs (b ∷ []) c.server k).0 x) [
    | inl old ↦ apart k e old
    | inr new ↦ elim new [ inl both ↦ h k both.1 (inl (sym both.0, e)) | inr nothing ↦ nothing ]
  ],
  Unique-snoc bs b u (λ k e x. h k e (inr x)),
)

module _ (strcmp : List ℕ → List ℕ → Bool)
    (decides : (a b : List ℕ) → (strcmp a b ≡ true) ↔ (a ≡ b)) where
  is_equal_lem : (r : Match) → (is_equal r ≡ true) ↔ (r ≡ equal)
  is_equal_lem nomatch = (λ e. cc, λ e. cc)
  is_equal_lem equal = (λ e. refl, λ e. refl)
  is_equal_lem matching = (λ e. cc, λ e. cc)
  is_equal_lem conflict = (λ e. cc, λ e. cc)
  is_equal_lem undefined = (λ e. cc, λ e. cc)

  exactly_lem :
      (a b : PortCfg) → (portcfg_exactly_equal strcmp a b ≡ true) ↔ SameKey (key a) (key b)
  exactly_lem a b =
      let first = is_equal_lem (svz_portcfg_equal strcmp a b) in
      let second = portcfg_equal_iff strcmp decides a b in
      (λ e. second.0 (first.0 e), λ h. first.1 (second.1 h))

  -- The search finds a binding exactly if there is one of the server with the key of the port.
  pub find_lem :
      (bs : List Binding) (server : ℕ) (port : PortCfg)
      → ((b : Binding) × (find_binding strcmp bs server port ≡ some b)
          × (k : Key) × (key port ≡ some k)
          × Has bs server k)
        ⊎ ((find_binding strcmp bs server port ≡ none)
            × ((k : Key) → key port ≡ some k → ¬ Has bs server k))
  unfolding find_binding
  find_lem [] server port = inr (refl, λ k e h. h)
  find_lem (b ∷ bs) server port =
      let rest = find_lem bs server port in
      elim (==_cases b.server server) [
        | inl (e, same) ↦ elim (Bool-cases (portcfg_exactly_equal strcmp b.port port)) [
          | inl f ↦
              let (k, x, y) = (exactly_lem b.port port).0 f in
              inl (b, rw (e, f) refl, k, y, inl (same, x))
          | inr f ↦ elim rest [
            | inl (c, g, k, y, h) ↦ inl (c, rw (e, f) g, k, y, inr h)
            | inr (g, missing) ↦ inr (
              rw (e, f) g,
              λ k y h. elim h [
                | inl both ↦ false≢true (sym f ∙ (exactly_lem b.port port).1 (k, both.1, y))
                | inr t ↦ missing k y t
              ],
            )
          ]
        ]
        | inr (e, differ) ↦ elim rest [
          | inl (c, g, k, y, h) ↦ inl (c, rw e g, k, y, inr h)
          | inr (g, missing) ↦
              inr (rw e g, λ k y h. elim h [ inl both ↦ differ both.0 | inr t ↦ missing k y t ])
        ]
      ]
