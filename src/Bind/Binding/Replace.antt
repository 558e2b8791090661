-- ===== src/Bind/Binding/Replace.antt =====
-- binding.c: the listeners that match a port configuration, which a more general one replaces in
-- `svz_server_bind`, and those that stay.
use serveez.Base.{
  ==_cases, ==_iff, All, Bool, Bool-cases, List, Option, [], ap, false, if◌then◌else◌, inl, inr,
  refl, sym, true, ℕ, ◌==◌, ◌↔◌, ◌∙◌, ◌∷◌, ◌≡◌, ◌≢◌, ◌⊎◌,
}
use serveez.Bind.{PortCfg}
use serveez.Bind.Binding.{
  Binding, Listener, adjoin, adjoin_all, items, portcfg_matching_or_equal, shutdown_all,
  shutdown_listener, sockets_with_portcfg,
}
use serveez.Bind.Binding.Has.{Has, Unique}
use serveez.Bind.Binding.Join.{join-Unites}
use serveez.Bind.Binding.Listeners.{Bound, grow_right, socks}
use serveez.Bind.Equal.Key.{Key}
use serveez.Chain.{Absent, Distinct}

shutdown-Absent :
    (ls : List Listener) (sock : ℕ) → Absent sock (socks ls) → shutdown_listener ls sock ≡ ls
unfolding shutdown_listener
shutdown-Absent [] sock h = refl
shutdown-Absent (l ∷ ls) sock (h, hs) = elim (==_cases l.sock sock) [
  | inl (e, same) ↦ absurd (h (sym same))
  | inr (e, differ) ↦ rw e (ap (λ t. l ∷ t) (shutdown-Absent ls sock hs))
]

shutdown_head :
    (l : Listener) (ls : List Listener)
    → Absent l.sock (socks ls)
    → shutdown_listener (l ∷ ls) l.sock ≡ ls
unfolding shutdown_listener
shutdown_head l ls h =
    let found : l.sock == l.sock ≡ true = (==_iff l.sock l.sock).1 refl in
    rw found (shutdown-Absent ls l.sock h)

shutdown_tail :
    (l : Listener) (ls : List Listener) (sock : ℕ)
    → l.sock ≢ sock
    → shutdown_listener (l ∷ ls) sock ≡ l ∷ shutdown_listener ls sock
unfolding shutdown_listener
shutdown_tail l ls sock h = elim (==_cases l.sock sock) [
  | inl (e, same) ↦ absurd (h same)
  | inr (e, differ) ↦ rw e refl
]

shutdown_all_tail :
    (old : List Listener) (l : Listener) (ls : List Listener)
    → Absent l.sock (socks old)
    → shutdown_all (l ∷ ls) old ≡ l ∷ shutdown_all ls old
shutdown_all_tail [] l ls h = refl
shutdown_all_tail (x ∷ old) l ls (h, hs) =
    rw (shutdown_tail l ls x.sock h) (shutdown_all_tail old l (shutdown_listener ls x.sock) hs)

module _ (strcmp : List ℕ → List ℕ → Bool) where
  -- The listeners that do not match.
  abbrev pub others : List Listener → PortCfg → List Listener
  others [] port = []
  others (l ∷ ls) port =
      let rest = others ls port in
      if portcfg_matching_or_equal strcmp l.port port then rest else l ∷ rest

  Absent-some :
      (ls : List Listener) (port : PortCfg) (x : ℕ)
      → Absent x (socks ls)
      → Absent x (socks (sockets_with_portcfg strcmp ls port))
  unfolding sockets_with_portcfg
  Absent-some [] port x h = tt
  Absent-some (l ∷ ls) port x (h, hs) =
      elim (Bool-cases (portcfg_matching_or_equal strcmp l.port port)) [
        | inl e ↦ rw e (h, Absent-some ls port x hs)
        | inr e ↦ rw e (Absent-some ls port x hs)
      ]

  -- With different sockets, shutting down those that match leaves the others.
  pub shutdown-others :
      (ls : List Listener) (port : PortCfg)
      → Distinct (socks ls)
      → shutdown_all ls (sockets_with_portcfg strcmp ls port) ≡ others ls port
  unfolding sockets_with_portcfg
  shutdown-others [] port d = refl
  shutdown-others (l ∷ ls) port (h, d) =
      elim (Bool-cases (portcfg_matching_or_equal strcmp l.port port)) [
        | inl e ↦ rw e (
            ap (λ t. shutdown_all t (sockets_with_portcfg strcmp ls port)) (shutdown_head l ls h)
            ∙ shutdown-others ls port d)
        | inr e ↦
            rw
              (
                e,
                shutdown_all_tail (sockets_with_portcfg strcmp ls port) l ls
                    (Absent-some ls port l.sock h),
              )
              (ap (λ t. l ∷ t) (shutdown-others ls port d))
      ]

  pub others-nomatch :
      (ls : List Listener) (port : PortCfg)
      → All (λ l. portcfg_matching_or_equal strcmp l.port port ≡ false) (others ls port)
  others-nomatch [] port = tt
  others-nomatch (l ∷ ls) port = elim (Bool-cases (portcfg_matching_or_equal strcmp l.port port)) [
    | inl e ↦ rw e (others-nomatch ls port)
    | inr e ↦ rw e (e, others-nomatch ls port)
  ]

  -- What holds of all listeners holds of those that stay.
  pub others-All {κ} :
      (P : Listener → Type κ) (ls : List Listener) (port : PortCfg)
      → All P ls
      → All P (others ls port)
  others-All P [] port h = h
  others-All P (l ∷ ls) port (h, hs) =
      elim (Bool-cases (portcfg_matching_or_equal strcmp l.port port)) [
        | inl e ↦ rw e (others-All P ls port hs)
        | inr e ↦ rw e (h, others-All P ls port hs)
      ]

  -- The bindings of both parts are those of the whole.
  pub Bound-others :
      (ls : List Listener) (port : PortCfg) (s : ℕ) (k : Key)
      → Bound ls s k
        ↔ (Bound (others ls port) s k ⊎ Bound (sockets_with_portcfg strcmp ls port) s k)
  unfolding sockets_with_portcfg
  Bound-others [] port s k = (λ h. absurd h, λ h. elim h [ inl e ↦ e | inr e ↦ e ])
  Bound-others (l ∷ ls) port s k =
      let rest = Bound-others ls port s k in
      elim (Bool-cases (portcfg_matching_or_equal strcmp l.port port)) [
        | inl e ↦ rw e (
          λ h. elim h [
            | inl x ↦ inr (inl x)
            | inr t ↦ elim (rest.0 t) [ inl x ↦ inl x | inr x ↦ inr (inr x) ]
          ],
          λ h. elim h [
            | inl x ↦ inr (rest.1 (inl x))
            | inr t ↦ elim t [ inl x ↦ inl x | inr x ↦ inr (rest.1 (inr x)) ]
          ],
        )
        | inr e ↦ rw e (grow_right rest)
      ]

  pub adjoin_all_lem :
      (decides : (a b : List ℕ) → (strcmp a b ≡ true) ↔ (a ≡ b)) (ls : List Listener)
      (bindings : Option (List Binding))
      → ((s : ℕ) (k : Key)
          → Has (items (adjoin_all strcmp bindings ls)) s k
            ↔ (Has (items bindings) s k ⊎ Bound ls s k))
        × (Unique (items bindings) → Unique (items (adjoin_all strcmp bindings ls)))
  unfolding adjoin_all
  adjoin_all_lem decides [] bindings =
      (λ s k. (λ x. inl x, λ x. elim x [ inl x ↦ x | inr nothing ↦ absurd nothing ]), λ u. u)
  adjoin_all_lem decides (l ∷ ls) bindings =
      let (all, unique) = adjoin_all_lem decides ls (adjoin strcmp bindings l) in
      let (one, first) = join-Unites strcmp decides (items bindings) (items l.bindings) in
      (
        λ s k. (
          λ x. elim ((all s k).0 x) [
            | inl y ↦ elim ((one s k).0 y) [ inl z ↦ inl z | inr z ↦ inr (inl z) ]
            | inr y ↦ inr (inr y)
          ],
          λ x. (all s k).1 (elim x [
            | inl y ↦ inl ((one s k).1 (inl y))
            | inr y ↦ elim y [ inl z ↦ inl ((one s k).1 (inr z)) | inr z ↦ inr z ]
          ]),
        ),
        λ u. unique (first u),
      )
