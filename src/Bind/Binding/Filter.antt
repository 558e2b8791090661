-- ===== src/Bind/Binding/Filter.antt =====
-- binding.c: `svz_binding_filter`, which says to which of its servers a listener may give a connection,
-- by the local address and port of the connection.
use serveez.Base.{
  ==_cases, All, Bool, Bool-cases, List, Option, [], ap, false, if◌then◌else◌, inl, inr, none, refl,
  some, sym, true, ℕ, ◌==◌, ◌||◌, ◌∙◌, ◌∷◌, ◌≡◌,
}
use serveez.Base.Int.{pos, ℤ}
use serveez.Bind.{Net, PortCfg, Protocol, icmp, raw, svz_portcfg_addr, svz_portcfg_create, tcp}
use serveez.Bind.Binding.{Binding, items, portcfg_matching_or_equal}
use serveez.Bind.Equal.{equal_protocols, svz_portcfg_equal}

-- The protocols without ports, RAW and ICMP.
abbrev pub portless : Protocol → Bool
portless p = elim p [ raw n ↦ true | icmp n t ↦ true | _ ↦ false ]

-- A binding of no network port, which no network listener has, is not accepted.
abbrev pub accepts : ℕ → ℕ → PortCfg → Bool
accepts addr port cfg = elim (svz_portcfg_addr cfg) [
  | none ↦ false
  | some n ↦
      if n.s_addr == addr || (cfg.flag_any || cfg.flag_device)
      then portless cfg.protocol || n.sin_port == port
      else false
]

unfoldable pub filter_net : List Binding → ℕ → ℕ → List Binding
filter_net [] addr port = []
filter_net (b ∷ bs) addr port =
    let rest = filter_net bs addr port in if accepts addr port b.port then b ∷ rest else rest

-- `svz_array_destroy_zero` makes an empty array NULL.
abbrev pub destroy_zero {ℓ} : {A : Type ℓ} → List A → Option (List A)
destroy_zero [] = none
destroy_zero (x ∷ xs) = some (x ∷ xs)

-- `local` is what `local_info` finds, and `none` where there is no connection.
unfoldable pub svz_binding_filter :
    Bool → Option (List Binding) → Option (ℕ × ℕ) → Option (List Binding)
svz_binding_filter piped bindings local = elim piped [
  | true ↦ destroy_zero (items bindings)
  | false ↦ elim local [ none ↦ none | some l ↦ destroy_zero (filter_net (items bindings) l.0 l.1) ]
]

-- The bindings whose port matches or equals the configuration.
abbrev pub matching_bindings : (List ℕ → List ℕ → Bool) → List Binding → PortCfg → List Binding
matching_bindings strcmp [] probe = []
matching_bindings strcmp (b ∷ bs) probe =
    let rest = matching_bindings strcmp bs probe in
    if portcfg_matching_or_equal strcmp b.port probe then b ∷ rest else rest

-- A TCP port configuration without a device.
abbrev pub IsTcp : PortCfg → Type 0
IsTcp cfg =
    (port : ℕ) × (n : Net) × (backlog : ℤ) × (cfg.protocol ≡ tcp port n backlog)
    × (cfg.flag_device ≡ false)

-- The TCP port configuration of one address and port.
abbrev pub tcp_at : ℕ → ℕ → PortCfg
tcp_at addr port =
    let net : Net = record { ipaddr = none; sin_port = port; s_addr = addr; device = none } in
    record svz_portcfg_create { protocol = tcp port net (pos 0) }

module _ (strcmp : List ℕ → List ℕ → Bool) where
  accepts_lem :
      (cfg : PortCfg) (addr port : ℕ)
      → IsTcp cfg
      → portcfg_matching_or_equal strcmp cfg (tcp_at addr port) ≡ accepts addr port cfg
  unfolding svz_portcfg_equal equal_protocols
  accepts_lem cfg addr port (p, n, k, e, f) = elim (==_cases n.sin_port port) [
    | inl (x, _) ↦ elim (==_cases n.s_addr addr) [
      | inl (y, _) ↦ rw (e, f, x, y) refl
      | inr (y, _) ↦ elim (Bool-cases cfg.flag_any) [
        | inl z ↦ rw (e, f, x, y, z) refl
        | inr z ↦ rw (e, f, x, y, z) refl
      ]
    ]
    | inr (x, _) ↦ elim (==_cases n.s_addr addr) [
      | inl (y, _) ↦ rw (e, f, x, y) refl
      | inr (y, _) ↦ elim (Bool-cases cfg.flag_any) [
        | inl z ↦ rw (e, f, x, y, z) refl
        | inr z ↦ rw (e, f, x, y, z) refl
      ]
    ]
  ]

  -- For TCP bindings without a device, `filter_net` accepts, for a connection to a local address and
  -- port, exactly the bindings that `svz_portcfg_equal` finds to equal or match the TCP port
  -- configuration of that address and port.
  pub filter_net-matching :
      (bs : List Binding) (addr port : ℕ)
      → All (λ b. IsTcp b.port) bs
      → filter_net bs addr port ≡ matching_bindings strcmp bs (tcp_at addr port)
  unfolding filter_net
  filter_net-matching [] addr port h = refl
  filter_net-matching (b ∷ bs) addr port (h, hs) =
      ap (λ t. if t then b ∷ filter_net bs addr port else filter_net bs addr port)
        (sym (accepts_lem b.port addr port h))
      ∙ ap (λ l. if portcfg_matching_or_equal strcmp b.port (tcp_at addr port) then b ∷ l else l)
          (filter_net-matching bs addr port hs)
