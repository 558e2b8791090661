-- ===== src/Bind/Prepare/Same.antt =====
-- portcfg.c: `svz_portcfg_prepare` and `svz_portcfg_dup` do not change which ports a port configuration
-- is equal to or matches.
use serveez.Base.{Bool, List, ap, if◌then◌else◌, none, refl, some, ℕ, ◌==◌, ◌∙◌, ◌≡◌}
use serveez.Bind.{
  Net, PortCfg, Protocol, icmp, network, pipe, protocol_device, raw, svz_portcfg_device, tcp, udp,
  unset,
}
use serveez.Bind.Equal.{compare_device, compare_port, equal_protocols, nomatch, svz_portcfg_equal}
use serveez.Bind.Equal.Key.{key, protocol_key}
use serveez.Bind.Expand.{svz_portcfg_dup}
use serveez.Bind.Prepare.{backlog_in_range, svz_portcfg_prepare}

network_same : (m : ℕ) (p : Protocol) → network (backlog_in_range m p) ≡ network p
network_same m unset = refl
network_same m (tcp port n backlog) = refl
network_same m (udp port n) = refl
network_same m (icmp n type) = refl
network_same m (raw n) = refl
network_same m (pipe recv send) = refl

device_same : (m : ℕ) (p : Protocol) → protocol_device (backlog_in_range m p) ≡ protocol_device p
device_same m p = ap (λ o. elim o [ none ↦ none | some n ↦ n.device ]) (network_same m p)

module _ (strcmp : List ℕ → List ℕ → Bool) where
  -- Two configurations whose flags and device are the same.
  abbrev Alike : PortCfg → PortCfg → Type 0
  Alike b c =
      (b.flag_any ≡ c.flag_any)
      × (b.flag_device ≡ c.flag_device)
      × (svz_portcfg_device b ≡ svz_portcfg_device c)

  port-Alike :
      (a b c : PortCfg) (m n : Net)
      → Alike b c
      → compare_port strcmp a b m n ≡ compare_port strcmp a c m n
  port-Alike a b c m n (e, f, g) = rw (e, f, g) refl

  device-Alike :
      (a b c : PortCfg) (m n : Net)
      → Alike b c
      → compare_device strcmp a b m n ≡ compare_device strcmp a c m n
  device-Alike a b c m n (e, f, g) = rw (e, f, g) refl

  abbrev Compares : PortCfg → PortCfg → PortCfg → Protocol → Protocol → Type 0
  Compares a b c p q = equal_protocols strcmp a b p q ≡ equal_protocols strcmp a c p q

  protocols-Alike : (a b c : PortCfg) (p q : Protocol) → Alike b c → Compares a b c p q
  unfolding equal_protocols
  protocols-Alike a b c unset q h = refl
  protocols-Alike a b c (tcp p m k) q h = elim q as (λ u. Compares a b c (tcp p m k) u) [
    | tcp _ n _ ↦ port-Alike a b c m n h
    | _ ↦ refl
  ]
  protocols-Alike a b c (udp p m) q h = elim q as (λ u. Compares a b c (udp p m) u) [
    | udp _ n ↦ port-Alike a b c m n h
    | _ ↦ refl
  ]
  protocols-Alike a b c (icmp m t) q h = elim q as (λ u. Compares a b c (icmp m t) u) [
    | icmp n u ↦ ap (λ r. if t == u then r else nomatch) (device-Alike a b c m n h)
    | _ ↦ refl
  ]
  protocols-Alike a b c (raw m) q h = elim q as (λ u. Compares a b c (raw m) u) [
    | raw n ↦ device-Alike a b c m n h
    | _ ↦ refl
  ]
  protocols-Alike a b c (pipe r s) q h = elim q as (λ u. Compares a b c (pipe r s) u) [
    | pipe u v ↦ refl
    | _ ↦ refl
  ]

  abbrev Keeps : ℕ → PortCfg → PortCfg → Protocol → Protocol → Type 0
  Keeps m a b p q =
      equal_protocols strcmp a b p (backlog_in_range m q) ≡ equal_protocols strcmp a b p q

  backlog_alike : (m : ℕ) (a b : PortCfg) (p q : Protocol) → Keeps m a b p q
  unfolding equal_protocols
  backlog_alike m a b unset q = refl
  backlog_alike m a b (tcp p x k) q = elim q as (λ u. Keeps m a b (tcp p x k) u) [
    | unset ↦ refl
    | _ ↦ refl
  ]
  backlog_alike m a b (udp p x) q = elim q as (λ u. Keeps m a b (udp p x) u) [
    | unset ↦ refl
    | _ ↦ refl
  ]
  backlog_alike m a b (icmp x t) q = elim q as (λ u. Keeps m a b (icmp x t) u) [
    | unset ↦ refl
    | _ ↦ refl
  ]
  backlog_alike m a b (raw x) q = elim q as (λ u. Keeps m a b (raw x) u) [ unset ↦ refl | _ ↦ refl ]
  backlog_alike m a b (pipe r s) q = elim q as (λ u. Keeps m a b (pipe r s) u) [
    | unset ↦ refl
    | _ ↦ refl
  ]

  -- The comparison with a prepared copy is that with the port itself.
  pub equal-prepare :
      (m : ℕ) (a b : PortCfg)
      → svz_portcfg_equal strcmp a (svz_portcfg_prepare m (svz_portcfg_dup b))
        ≡ svz_portcfg_equal strcmp a b
  unfolding svz_portcfg_equal svz_portcfg_prepare
  equal-prepare m a b =
      protocols-Alike a (svz_portcfg_prepare m (svz_portcfg_dup b)) b a.protocol
        (backlog_in_range m b.protocol) (refl, refl, device_same m b.protocol)
      ∙ backlog_alike m a b a.protocol b.protocol

protocol_key_same :
    (m : ℕ) (b c : PortCfg) (q : Protocol)
    → b.flag_device ≡ c.flag_device
    → svz_portcfg_device b ≡ svz_portcfg_device c
    → protocol_key b (backlog_in_range m q) ≡ protocol_key c q
protocol_key_same m b c unset e f = refl
protocol_key_same m b c (tcp p n k) e f = rw (e, f) refl
protocol_key_same m b c (udp p n) e f = rw (e, f) refl
protocol_key_same m b c (icmp n t) e f = rw (e, f) refl
protocol_key_same m b c (raw n) e f = rw (e, f) refl
protocol_key_same m b c (pipe r s) e f = refl

pub key-prepare : (m : ℕ) (b : PortCfg) → key (svz_portcfg_prepare m b) ≡ key b
unfolding svz_portcfg_prepare
key-prepare m b =
    protocol_key_same m (svz_portcfg_prepare m b) b b.protocol refl (device_same m b.protocol)
