-- ===== src/Bind.antt =====
-- libserveez/portcfg.h: port configurations. A string is a list of bytes and NULL is `none`; the
-- flags of PORTCFG_FLAG_ are booleans, and numbers in network byte order are kept as they are.
pub mod Equal
pub mod Prepare
pub mod Expand
pub mod Address
pub mod Binding
use serveez.Base.{Bool, List, Option, [], false, none, some, ℕ}
use serveez.Base.Int.{pos, ℤ}

pub record Net : Type 0 where
  pub ipaddr : Option (List ℕ)
  pub sin_port : ℕ
  pub s_addr : ℕ
  pub device : Option (List ℕ)

pub record Pipe : Type 0 where
  pub name : Option (List ℕ)
  pub user : Option (List ℕ)
  pub uid : Option ℕ
  pub pgid : ℕ
  pub group : Option (List ℕ)
  pub gid : Option ℕ

-- The union with its tag `proto`; `unset` is the tag 0 of `svz_portcfg_create`.
pub data Protocol : Type 0 where
  unset : Protocol
  tcp : (port : ℕ) → Net → (backlog : ℤ) → Protocol
  udp : (port : ℕ) → Net → Protocol
  icmp : Net → (type : ℕ) → Protocol
  raw : Net → Protocol
  pipe : (recv : Pipe) → (send : Pipe) → Protocol

pub record PortCfg : Type 0 where
  pub name : List ℕ
  pub protocol : Protocol
  pub flag_any : Bool
  pub flag_all : Bool
  pub flag_device : Bool
  pub detection_fill : ℤ
  pub detection_wait : ℤ
  pub send_buffer_size : ℤ
  pub recv_buffer_size : ℤ
  pub connect_freq : ℤ
  pub accepted : Option ℕ
  pub deny : Option (List (List ℕ))
  pub allow : Option (List (List ℕ))

-- The network part, which `svz_portcfg_addr`, `svz_portcfg_ipaddr` and `svz_portcfg_device` read.
abbrev pub network : Protocol → Option Net
network unset = none
network (tcp port n backlog) = some n
network (udp port n) = some n
network (icmp n type) = some n
network (raw n) = some n
network (pipe recv send) = none

abbrev pub svz_portcfg_addr : PortCfg → Option Net
svz_portcfg_addr port = network port.protocol

abbrev pub protocol_device : Protocol → Option (List ℕ)
protocol_device protocol = elim (network protocol) [ none ↦ none | some n ↦ n.device ]

abbrev pub svz_portcfg_device : PortCfg → Option (List ℕ)
svz_portcfg_device port = protocol_device port.protocol

abbrev pub svz_portcfg_port : PortCfg → ℕ
svz_portcfg_port port = elim port.protocol [ tcp p n k ↦ p | udp p n ↦ p | _ ↦ 0 ]

-- A structure filled with zeros.
abbrev pub svz_portcfg_create : PortCfg
svz_portcfg_create = record {
  name = [];
  protocol = unset;
  flag_any = false;
  flag_all = false;
  flag_device = false;
  detection_fill = pos 0;
  detection_wait = pos 0;
  send_buffer_size = pos 0;
  recv_buffer_size = pos 0;
  connect_freq = pos 0;
  accepted = none;
  deny = none;
  allow = none;
}
