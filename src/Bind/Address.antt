-- ===== src/Bind/Address.antt =====
-- portcfg.c: `svz_portcfg_mkaddr`, which fills in the address of a port configuration from its strings;
-- pipe-socket.c: the users and groups of a pipe. The interfaces, the C library and the system are
-- parameters; log messages and `sin_family`, a constant, are left out.
use serveez.Base.{
  Bool, Bool-cases, List, Option, Option-cases, [], false, if◌then◌else◌, inl, inr, none, not, refl,
  some, true, ℕ, ◌&&◌, ◌||◌, ◌∷◌, ◌≡◌,
}
use serveez.Base.Int.{leb_ℤ}
use serveez.Bind.{Net, Pipe, PortCfg, Protocol, icmp, pipe, raw, tcp, udp, unset}

abbrev pub svz_portcfg_any : List ℕ
svz_portcfg_any = 97 ∷ 110 ∷ 121 ∷ []

abbrev pub svz_portcfg_noip : List ℕ
svz_portcfg_noip = 42 ∷ []

-- What the address of a network port is found to be: whether there is an error, the flags that are
-- set, and the address.
pub record Resolved : Type 0 where
  pub failed : Bool
  pub sets_any : Bool
  pub sets_all : Bool
  pub sets_device : Bool
  pub address : ℕ

-- The users and groups of the system: ids by name, and names by id; a user has a primary group.
pub record Accounts : Type 0 where
  pub getpwnam : List ℕ → Option (ℕ × ℕ)
  pub getpwuid : ℕ → Option (List ℕ × ℕ)
  pub getgrnam : List ℕ → Option ℕ
  pub getgrgid : ℕ → Option (List ℕ)

-- INADDR_ANY is 0.
abbrev plain : Bool → ℕ → Resolved
plain failed address = record {
  failed = failed;
  sets_any = false;
  sets_all = false;
  sets_device = false;
  address = address;
}

-- `svz_pipe_check_user`, which returns 0 in all cases; `none` for the user id -1.
abbrev pub svz_pipe_check_user : Accounts → Pipe → Pipe
svz_pipe_check_user system p = elim p.user [
  | some user ↦ elim (system.getpwnam user) [
    | none ↦ p
    | some entry ↦ record p { uid = some entry.0; pgid = entry.1 }
  ]
  | none ↦ elim p.uid [
    | none ↦ p
    | some uid ↦ elim (system.getpwuid uid) [
      | none ↦ p
      | some entry ↦ record p { user = some entry.0; pgid = entry.1 }
    ]
  ]
]

abbrev pub svz_pipe_check_group : Accounts → Pipe → Pipe
svz_pipe_check_group system p = elim p.group [
  | some group ↦ elim (system.getgrnam group) [ none ↦ p | some gid ↦ record p { gid = some gid } ]
  | none ↦ elim p.gid [
    | none ↦ p
    | some gid ↦ elim (system.getgrgid gid) [
      | none ↦ p
      | some group ↦ record p { group = some group }
    ]
  ]
]

-- Of three flags, at most one is set.
abbrev pub OneFlag : Bool → Bool → Bool → Type 0
OneFlag a b c = (a ≡ true → (b ≡ false) × (c ≡ false)) × (b ≡ true → c ≡ false)

-- The address is INADDR_ANY where a flag is set.
abbrev pub IsResolved : Resolved → Type 0
IsResolved r =
    OneFlag r.sets_any r.sets_all r.sets_device
    × ((r.sets_any || r.sets_all || r.sets_device) ≡ true → (r.address ≡ 0) × (r.failed ≡ false))

plain-IsResolved : (failed : Bool) (a : ℕ) → IsResolved (plain failed a)
plain-IsResolved failed a = ((λ e. cc, λ e. cc), λ e. cc)

module _ (strcmp : List ℕ → List ℕ → Bool) (svz_interface_search : List ℕ → Option ℕ)
    (svz_inet_aton : List ℕ → Option ℕ) where
  abbrev pub convert_addr : List ℕ → Option ℕ
  convert_addr str = elim (svz_interface_search str) [
    | some ip ↦ some ip
    | none ↦ svz_inet_aton str
  ]

  -- The address that a string gives; the one before the call stays if it gives none.
  abbrev resolve_ip : ℕ → List ℕ → Resolved
  resolve_ip before ip = elim (convert_addr ip) [
    | none ↦ plain true before
    | some a ↦ plain false a
  ]

  -- The strings "any" and "*" have a meaning for TCP and UDP only, where `wild` is set.
  unfoldable pub resolve : Bool → Net → Resolved
  resolve wild n = elim n.device [
    | some device ↦ record (plain false 0) { sets_device = true }
    | none ↦ elim n.ipaddr [
      | none ↦ plain true n.s_addr
      | some ip ↦
          if wild && strcmp svz_portcfg_any ip
          then record (plain false 0) { sets_any = true }
          else if wild && strcmp svz_portcfg_noip ip
          then record (plain false 0) { sets_all = true }
          else resolve_ip n.s_addr ip
    ]
  ]

  abbrev with_flags : PortCfg → Resolved → Protocol → PortCfg
  with_flags port r protocol = record port {
    protocol = protocol;
    flag_any = port.flag_any || r.sets_any;
    flag_all = port.flag_all || r.sets_all;
    flag_device = port.flag_device || r.sets_device;
  }

  module _ (htons : ℕ → ℕ) (somaxconn : ℕ) (system : Accounts) where
    abbrev check_pipe : Pipe → Pipe
    check_pipe p = elim p.name [
      | none ↦ p
      | some name ↦ svz_pipe_check_group system (svz_pipe_check_user system p)
    ]

    abbrev unnamed : Pipe → Bool
    unnamed p = elim p.name [ none ↦ true | some name ↦ false ]

    -- `true` for the return value -1.
    abbrev mkaddr_as : PortCfg → Protocol → Bool × PortCfg
    mkaddr_as port unset = (false, port)
    mkaddr_as port (tcp p n k) =
        let r = resolve true n in
        (
          r.failed || not (leb_ℤ k somaxconn),
          with_flags port r (tcp p (record n { s_addr = r.address; sin_port = htons p }) k),
        )
    mkaddr_as port (udp p n) =
        let r = resolve true n in
        (r.failed, with_flags port r (udp p (record n { s_addr = r.address; sin_port = htons p })))
    mkaddr_as port (icmp n t) =
        let r = resolve false n in
        (r.failed, with_flags port r (icmp (record n { s_addr = r.address }) t))
    mkaddr_as port (raw n) =
        let r = resolve false n in
        (r.failed, with_flags port r (raw (record n { s_addr = r.address })))
    mkaddr_as port (pipe r s) =
        (unnamed r || unnamed s, record port { protocol = pipe (check_pipe r) (check_pipe s) })

    unfoldable pub svz_portcfg_mkaddr : PortCfg → Bool × PortCfg
    svz_portcfg_mkaddr port = mkaddr_as port port.protocol

  resolve_ip-IsResolved : (before : ℕ) (ip : List ℕ) → IsResolved (resolve_ip before ip)
  resolve_ip-IsResolved before ip = elim (Option-cases (convert_addr ip)) [
    | inl e ↦ rw (e, resolve_ip) (plain-IsResolved true before)
    | inr (a, e) ↦ rw (e, resolve_ip) (plain-IsResolved false a)
  ]

  resolve-IsResolved : (wild : Bool) (n : Net) → IsResolved (resolve wild n)
  unfolding resolve
  resolve-IsResolved wild n = elim (Option-cases n.device) [
    | inr (device, e) ↦ rw e ((λ h. cc, λ h. cc), λ h. (refl, refl))
    | inl e ↦ elim (Option-cases n.ipaddr) [
      | inl f ↦ rw (e, f) (plain-IsResolved true n.s_addr)
      | inr (ip, f) ↦ elim (Bool-cases (wild && strcmp svz_portcfg_any ip)) [
        | inl g ↦ rw (e, f, g) ((λ h. (refl, refl), λ h. refl), λ h. (refl, refl))
        | inr g ↦ elim (Bool-cases (wild && strcmp svz_portcfg_noip ip)) [
          | inl h ↦ rw (e, f, g, h) ((λ x. cc, λ x. refl), λ x. (refl, refl))
          | inr h ↦ rw (e, f, g, h) (resolve_ip-IsResolved n.s_addr ip)
        ]
      ]
    ]
  ]

  abbrev FlagsOf : PortCfg → Type 0
  FlagsOf port = OneFlag port.flag_any port.flag_all port.flag_device

  abbrev NoFlag : PortCfg → Type 0
  NoFlag port = (port.flag_any ≡ false) × (port.flag_all ≡ false) × (port.flag_device ≡ false)

  with_flags-OneFlag :
      (port : PortCfg) (r : Resolved) (p : Protocol)
      → NoFlag port
      → IsResolved r
      → FlagsOf (with_flags port r p)
  with_flags-OneFlag port r p (e, f, g) h = rw (e, f, g) h.0

  none-OneFlag : (port : PortCfg) → NoFlag port → FlagsOf port
  none-OneFlag port (e, f, g) = (λ h. (f, g), λ h. g)

  module _ (htons : ℕ → ℕ) (somaxconn : ℕ) (system : Accounts) where
    as-OneFlag :
        (port : PortCfg) (p : Protocol)
        → NoFlag port
        → FlagsOf (mkaddr_as htons somaxconn system port p).1
    as-OneFlag port unset h = none-OneFlag port h
    as-OneFlag port (tcp p n k) h =
        with_flags-OneFlag port (resolve true n) unset h (resolve-IsResolved true n)
    as-OneFlag port (udp p n) h =
        with_flags-OneFlag port (resolve true n) unset h (resolve-IsResolved true n)
    as-OneFlag port (icmp n t) h =
        with_flags-OneFlag port (resolve false n) unset h (resolve-IsResolved false n)
    as-OneFlag port (raw n) h =
        with_flags-OneFlag port (resolve false n) unset h (resolve-IsResolved false n)
    as-OneFlag port (pipe r s) h = none-OneFlag port h

    -- For a port configuration without flags: after `svz_portcfg_mkaddr`, at most one of the flags for
    -- any address, for all interfaces and for a device is set, whether it reports an error or not.
    pub mkaddr-OneFlag :
        (port : PortCfg) → NoFlag port → FlagsOf (svz_portcfg_mkaddr htons somaxconn system port).1
    unfolding svz_portcfg_mkaddr
    mkaddr-OneFlag port h = as-OneFlag port port.protocol h
