-- ===== src/Bind/Expand.antt =====
-- portcfg.c: copies of a port configuration, one for each network interface where it asks for all.
-- The addresses of interface.c and `svz_inet_ntoa` are parameters.
use serveez.Base.{Bool, List, [], false, if◌then◌else◌, map, none, not, some, true, ℕ, ◌&&◌, ◌∷◌}
use serveez.Bind.{PortCfg, Protocol, icmp, pipe, raw, svz_portcfg_addr, tcp, udp, unset}

abbrev pub svz_portcfg_dup : PortCfg → PortCfg
svz_portcfg_dup port = record port { accepted = none }

-- The change of both values of the network part: `addr->sin_addr.s_addr` and `set_ipaddr`.
abbrev pub readdress : ℕ → List ℕ → Protocol → Protocol
readdress ip str unset = unset
readdress ip str (tcp p n k) = tcp p (record n { s_addr = ip; ipaddr = some str }) k
readdress ip str (udp p n) = udp p (record n { s_addr = ip; ipaddr = some str })
readdress ip str (icmp n t) = icmp (record n { s_addr = ip; ipaddr = some str }) t
readdress ip str (raw n) = raw (record n { s_addr = ip; ipaddr = some str })
readdress ip str (pipe r s) = pipe r s

abbrev pub networked : PortCfg → Bool
networked port = elim (svz_portcfg_addr port) [ none ↦ false | some n ↦ true ]

module _ (interfaces : List ℕ) (svz_inet_ntoa : ℕ → List ℕ) where
  abbrev pub expand_internal : PortCfg → ℕ → PortCfg
  expand_internal this ip = record (svz_portcfg_dup this) {
    protocol = readdress ip (svz_inet_ntoa ip) this.protocol;
  }

  unfoldable pub svz_portcfg_expand : PortCfg → List PortCfg
  svz_portcfg_expand this =
      if networked this && this.flag_all && not this.flag_device
      then map (expand_internal this) interfaces
      else svz_portcfg_dup this ∷ []
