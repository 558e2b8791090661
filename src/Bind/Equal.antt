-- ===== src/Bind/Equal.antt =====
-- portcfg.c: `svz_portcfg_equal`, which compares two port configurations. `strcmp` of the C library is
-- a parameter, `true` for 0.
pub mod Symmetric
pub mod Key
use serveez.Base.{Bool, List, Option, [], if◌then◌else◌, none, some, ℕ, ◌&&◌, ◌==◌, ◌||◌}
use serveez.Bind.{Net, PortCfg, Protocol, icmp, pipe, raw, svz_portcfg_device, tcp, udp, unset}

-- The return values SVZ_PORTCFG_NOMATCH, _EQUAL, _MATCH and _CONFLICT, and `undefined` for a `strcmp` of
-- NULL.
pub data Match : Type 0 where
  nomatch : Match
  equal : Match
  matching : Match
  conflict : Match
  undefined : Match

-- NULL reads as the empty string in `same_devices`.
abbrev pub or_empty : Option (List ℕ) → List ℕ
or_empty none = []
or_empty (some s) = s

-- The two last tests of a network protocol.
abbrev pub compare_addr : PortCfg → PortCfg → Net → Net → Match
compare_addr a b m n =
    if m.s_addr == n.s_addr then equal else if a.flag_any || b.flag_any then matching else nomatch

module _ (strcmp : List ℕ → List ℕ → Bool) where
  abbrev pub same_devices : PortCfg → PortCfg → Bool
  same_devices a b = strcmp (or_empty (svz_portcfg_device a)) (or_empty (svz_portcfg_device b))

  -- TCP and UDP: two different devices do not match.
  abbrev pub compare_port : PortCfg → PortCfg → Net → Net → Match
  compare_port a b m n =
      if m.sin_port == n.sin_port
      then (if a.flag_device || b.flag_device
          then (if a.flag_device && b.flag_device
              then (if same_devices a b then equal else nomatch)
              else conflict)
          else compare_addr a b m n)
      else nomatch

  -- ICMP and raw sockets: two different devices conflict.
  abbrev pub compare_device : PortCfg → PortCfg → Net → Net → Match
  compare_device a b m n =
      if a.flag_device || b.flag_device
      then (if a.flag_device && b.flag_device && same_devices a b then equal else conflict)
      else compare_addr a b m n

  -- `strcmp` of two files, one of which may have no name.
  abbrev pub compare_names : Option (List ℕ) → Option (List ℕ) → Match → Match
  compare_names none o same = undefined
  compare_names (some a) none same = undefined
  compare_names (some a) (some b) same = if strcmp a b then same else nomatch

  unfoldable pub equal_protocols : PortCfg → PortCfg → Protocol → Protocol → Match
  equal_protocols a b (tcp p m k) q = elim q [ tcp _ n _ ↦ compare_port a b m n | _ ↦ nomatch ]
  equal_protocols a b (udp p m) q = elim q [ udp _ n ↦ compare_port a b m n | _ ↦ nomatch ]
  equal_protocols a b (icmp m t) q = elim q [
    | icmp n u ↦ if t == u then compare_device a b m n else nomatch
    | _ ↦ nomatch
  ]
  equal_protocols a b (raw m) q = elim q [ raw n ↦ compare_device a b m n | _ ↦ nomatch ]
  equal_protocols a b (pipe r s) q = elim q [
    | pipe u v ↦ compare_names r.name u.name (compare_names s.name v.name equal)
    | _ ↦ nomatch
  ]
  equal_protocols a b unset q = nomatch

  unfoldable pub svz_portcfg_equal : PortCfg → PortCfg → Match
  svz_portcfg_equal a b = equal_protocols a b a.protocol b.protocol
