-- ===== src/Bind/Binding/Correct.antt =====
-- binding.c: `svz_server_bind` keeps the listeners apart and binds the server to each copy of the port,
-- without losing a binding.
use serveez.Base.{
  All, Bool, Bool-cases, List, Option, Option-cases, [], false, inl, inr, none, refl, some, true, ℕ,
  ◌++◌, ◌↔◌, ◌∷◌, ◌≡◌, ◌⊎◌,
}
use serveez.Bind.{PortCfg}
use serveez.Bind.Binding.{
  Binding, Listener, add_server, adjoin_all, items, portcfg_matching_or_equal, set_bindings,
  shutdown_all, sockets_with_portcfg,
}
use serveez.Bind.Binding.Has.{Has, Unique}
use serveez.Bind.Binding.Join.{IsPair, add_server-Adds}
use serveez.Bind.Binding.Listeners.{Bound, Bound-append, Bound-set, Member, socks}
use serveez.Bind.Binding.Replace.{
  Bound-others, adjoin_all_lem, others, others-nomatch, shutdown-others,
}
use serveez.Bind.Binding.Rounds.{
  All-map, AsCopy, Member-All, WellFormed, WellFormed-snoc, others-WellFormed, set-WellFormed,
  socket_with_lem,
}
use serveez.Bind.Binding.Server.{bind_copy, listen_new}
use serveez.Bind.Equal.Key.{Key}
use serveez.Chain.{Absent}

module _ (strcmp : List ℕ → List ℕ → Bool) (svz_server_create : List Listener → PortCfg → Option ℕ)
    (decides : (a b : List ℕ) → (strcmp a b ≡ true) ↔ (a ≡ b))
    (fresh : (ls : List Listener) (p : PortCfg) (sock : ℕ)
      → svz_server_create ls p ≡ some sock
      → Absent sock (socks ls)) where
  abbrev round : PortCfg → ℕ → List Listener → PortCfg → List Listener
  round = bind_copy strcmp svz_server_create

  abbrev start : List Listener → Option (List Binding) → ℕ → PortCfg → List Listener
  start = listen_new strcmp svz_server_create

  abbrev added : Option (List Binding) → ℕ → PortCfg → Option (List Binding)
  added bindings server copy = (add_server strcmp bindings server copy).1

  abbrev matched : List Listener → PortCfg → List Listener
  matched = sockets_with_portcfg strcmp

  start_works :
      (ls : List Listener) (bindings : Option (List Binding)) (server : ℕ) (copy : PortCfg)
      (sock : ℕ)
      → svz_server_create ls copy ≡ some sock
      → start ls bindings server copy
        ≡ ls ++ record { sock = sock; port = copy; bindings = added bindings server copy } ∷ []
  start_works ls bindings server copy sock e = rw (e, start, listen_new) refl

  start_fails :
      (ls : List Listener) (bindings : Option (List Binding)) (server : ℕ) (copy : PortCfg)
      → svz_server_create ls copy ≡ none
      → start ls bindings server copy ≡ ls
  start_fails ls bindings server copy e = rw (e, start, listen_new) refl

  -- The three ways a round goes.
  round_cases :
      (port : PortCfg) (server : ℕ) (ls : List Listener) (copy : PortCfg)
      → ((round port server ls copy ≡ start ls none server copy)
          × All (λ l. portcfg_matching_or_equal strcmp l.port copy ≡ false) ls)
        ⊎ ((copy.flag_any ≡ true)
            × (round port server ls copy
                ≡ start
                    (shutdown_all ls (matched ls port))
                    (adjoin_all strcmp none (matched ls port))
                    server
                    copy))
        ⊎ ((l : Listener) × (round port server ls copy
              ≡ set_bindings ls l.sock (added l.bindings server copy))
            × Member l ls)
  unfolding bind_copy
  round_cases port server ls copy = elim (socket_with_lem strcmp ls copy) [
    | inr (e, apart) ↦ inl (rw (e, round, bind_copy) refl, apart)
    | inl (l, e, m) ↦ elim (Bool-cases copy.flag_any) [
      | inl f ↦ elim (Bool-cases l.port.flag_any) [
        | inl g ↦ inr (inr (l, rw (e, f, g, round, bind_copy) refl, m))
        | inr g ↦ inr (inl (f, rw (e, f, g, round, bind_copy) refl))
      ]
      | inr f ↦ inr (inr (l, rw (e, f, round, bind_copy) refl, m))
    ]
  ]

  start-WellFormed :
      (ls : List Listener) (bindings : Option (List Binding)) (server : ℕ) (copy : PortCfg)
      → WellFormed strcmp ls
      → All (λ l. portcfg_matching_or_equal strcmp l.port copy ≡ false) ls
      → Unique (items bindings)
      → WellFormed strcmp (start ls bindings server copy)
  start-WellFormed ls bindings server copy w apart u =
      elim (Option-cases (svz_server_create ls copy)) [
        | inl e ↦ rw (start_fails ls bindings server copy e) w
        | inr (sock, e) ↦ rw (start_works ls bindings server copy sock e) (
            WellFormed-snoc strcmp ls
              (record { sock = sock; port = copy; bindings = added bindings server copy }) w
              (fresh ls copy sock e) apart
              ((add_server-Adds strcmp decides bindings server copy).1 u))
      ]

  pub round-WellFormed :
      (port : PortCfg) (server : ℕ) (ls : List Listener) (copy : PortCfg)
      → WellFormed strcmp ls
      → (copy.flag_any ≡ true → AsCopy strcmp port copy)
      → WellFormed strcmp (round port server ls copy)
  round-WellFormed port server ls copy w same = elim (round_cases port server ls copy) [
    | inl (e, apart) ↦ rw e (start-WellFormed ls none server copy w apart tt)
    | inr more ↦ elim more [
      | inl (f, e) ↦
          let stay = others-WellFormed strcmp ls port w in
          let apart = others-nomatch strcmp ls port in
          rw (e, shutdown-others strcmp ls port w.distinct)
            (start-WellFormed (others strcmp ls port) (adjoin_all strcmp none (matched ls port))
              server copy stay (All-map (λ l. same f l.port) (others strcmp ls port) apart)
              ((adjoin_all_lem strcmp decides (matched ls port) none).1 tt))
      | inr (l, e, m) ↦ rw e (
          set-WellFormed strcmp ls l.sock (added l.bindings server copy) w (
            (add_server-Adds strcmp decides l.bindings server copy).1
              (Member-All (λ x. Unique (items x.bindings)) ls l m w.unique)))
    ]
  ]

  -- Where the new socket can be opened, it takes the bindings over and adds its own.
  Bound-start :
      (ls : List Listener) (bindings : Option (List Binding)) (server : ℕ) (copy : PortCfg)
      (sock s : ℕ) (k : Key)
      → svz_server_create ls copy ≡ some sock
      → Bound (start ls bindings server copy) s k
        ↔ ((Bound ls s k ⊎ Has (items bindings) s k) ⊎ IsPair server copy s k)
  Bound-start ls bindings server copy sock s k e =
      let l : Listener = record {
        sock = sock;
        port = copy;
        bindings = added bindings server copy;
      } in
      let all = Bound-append ls (l ∷ []) s k in
      let adds = (add_server-Adds strcmp decides bindings server copy).0 s k in
      rw (start_works ls bindings server copy sock e) (
        λ x. elim (all.0 x) [
          | inl y ↦ inl (inl y)
          | inr y ↦ elim y [
            | inl z ↦ elim (adds.0 z) [ inl u ↦ inl (inr u) | inr pair ↦ inr pair ]
            | inr nothing ↦ absurd nothing
          ]
        ],
        λ x. all.1 (elim x [
          | inl y ↦ elim y [ inl z ↦ inl z | inr z ↦ inr (inl (adds.1 (inl z))) ]
          | inr pair ↦ inr (inl (adds.1 (inr pair)))
        ]),
      )

  -- Where a socket can be opened for the copy, a round adds one binding and loses none.
  pub Bound-round :
      (port : PortCfg) (server : ℕ) (ls : List Listener) (copy : PortCfg) (s : ℕ) (k : Key)
      → WellFormed strcmp ls
      → ((ms : List Listener) → (sock : ℕ) × (svz_server_create ms copy ≡ some sock))
      → Bound (round port server ls copy) s k ↔ (Bound ls s k ⊎ IsPair server copy s k)
  Bound-round port server ls copy s k w works = elim (round_cases port server ls copy) [
    | inl (e, apart) ↦
        let (sock, f) = works ls in
        let grown = Bound-start ls none server copy sock s k f in
        rw e (
          λ x. elim (grown.0 x) [
            | inl y ↦ elim y [ inl z ↦ inl z | inr nothing ↦ absurd nothing ]
            | inr pair ↦ inr pair
          ],
          λ x. grown.1 (elim x [ inl y ↦ inl (inl y) | inr pair ↦ inr pair ]),
        )
    | inr more ↦ elim more [
      | inl (f, e) ↦
          let stay = others strcmp ls port in
          let joined = adjoin_all strcmp none (matched ls port) in
          let (sock, g) = works stay in
          let grown = Bound-start stay joined server copy sock s k g in
          let whole = Bound-others strcmp ls port s k in
          let parts = (adjoin_all_lem strcmp decides (matched ls port) none).0 s k in
          rw (e, shutdown-others strcmp ls port w.distinct)
            (
              λ x. elim (grown.0 x) [
                | inl y ↦ inl (
                    whole.1 (elim y [
                      | inl z ↦ inl z
                      | inr z ↦ elim (parts.0 z) [ inl nothing ↦ absurd nothing | inr u ↦ inr u ]
                    ]))
                | inr pair ↦ inr pair
              ],
              λ x. grown.1 (elim x [
                | inl y ↦ inl (elim (whole.0 y) [ inl z ↦ inl z | inr z ↦ inr (parts.1 (inr z)) ])
                | inr pair ↦ inr pair
              ]),
            )
      | inr (l, e, m) ↦ rw e (
          Bound-set ls l (added l.bindings server copy) s k (IsPair server copy s k) w.distinct m
            ((add_server-Adds strcmp decides l.bindings server copy).0 s k))
    ]
  ]
