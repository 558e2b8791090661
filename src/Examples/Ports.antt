-- ===== src/Examples/Ports.antt =====
-- portcfg.c and binding.c: the theorems at concrete port configurations and listeners.
use mathlib.Core.Bool.{false≢true}
use mathlib.Core.Option.{some-injective}
use mathlib.Core.Path.{subst}
use serveez.Base.{
  All, Bool, Bool-cases, List, Option, [], arith, false, inl, inr, length, map, none, refl, some,
  sym, true, ℕ, ◌+◌, ◌<◌, ◌==◌, ◌↔◌, ◌∙◌, ◌∷◌, ◌≡◌, ◌≢◌, ◌⊎◌,
}
use serveez.Base.Int.{negsuc, pos}
use serveez.Bind.{Net, PortCfg, svz_portcfg_create, tcp, unset}
use serveez.Bind.Address.{
  Accounts, OneFlag, mkaddr-OneFlag, resolve, svz_portcfg_any, svz_portcfg_mkaddr,
}
use serveez.Bind.Binding.{
  Listener, add_server, adjoin_all, contains_server, find_binding, items, join, make_binding,
  set_bindings, shutdown_listener, socket_with_portcfg, sockets_with_portcfg,
}
use serveez.Bind.Binding.Filter.{filter_net, filter_net-matching, matching_bindings, tcp_at}
use serveez.Bind.Binding.Listeners.{Bound, socks}
use serveez.Bind.Binding.Rounds.{WellFormed}
use serveez.Bind.Binding.Server.{bind_copy, svz_server_bind}
use serveez.Bind.Binding.Unbind.Clients.{
  Any, IsClient, Peer, find_listener, server_unbind, server_unbind-Bound, unbind_clients,
}
use serveez.Bind.Binding.Whole.{AnyKey, Bound-server_bind, bind-WellFormed}
use serveez.Bind.Equal.{equal, equal_protocols, matching, svz_portcfg_equal}
use serveez.Bind.Equal.Key.{Key, SameKey, at_addr, key, portcfg_equal_iff, tcp_key}
use serveez.Bind.Expand.{svz_portcfg_expand}
use serveez.Bind.Prepare.{IsPrepared, prepare-IsPrepared, svz_portcfg_prepare}
use serveez.Chain.{Absent}
use serveez.Examples.Access.{same_string, same_string_iff}
use serveez.IrcCore.Compare.{irc_string_equal}

-- Port 80 of an address, of any address, and of all interfaces.
abbrev net_of : ℕ → Net
net_of ip = record { ipaddr = none; sin_port = 80; s_addr = ip; device = none }

abbrev specific : PortCfg
specific = record svz_portcfg_create { protocol = tcp 80 (net_of 7) (pos 5) }

abbrev general : PortCfg
general = record svz_portcfg_create { protocol = tcp 80 (net_of 0) (negsuc 2); flag_any = true }

abbrev everywhere : PortCfg
everywhere = record svz_portcfg_create { protocol = tcp 80 (net_of 0) (pos 5); flag_all = true }

general_matches : svz_portcfg_equal same_string general specific ≡ matching
unfolding svz_portcfg_equal equal_protocols
general_matches = refl

portcfg_equal_iff_example :
    (svz_portcfg_equal same_string specific specific ≡ equal)
    ↔ SameKey (key specific) (key specific)
portcfg_equal_iff_example = portcfg_equal_iff same_string same_string_iff specific specific

same_string_sym : (a b : List ℕ) → same_string a b ≡ same_string b a
same_string_sym a b = elim (Bool-cases (same_string a b)) [
  | inl e ↦ e ∙ sym ((same_string_iff b a).1 (sym ((same_string_iff a b).0 e)))
  | inr e ↦ elim (Bool-cases (same_string b a)) [
    | inl f ↦
        absurd (false≢true (sym e ∙ (same_string_iff a b).1 (sym ((same_string_iff b a).0 f))))
    | inr f ↦ e ∙ sym f
  ]
]

set_protocol : general.protocol ≢ unset
set_protocol e = cc

prepare-IsPrepared_example : IsPrepared 128 (svz_portcfg_prepare 128 general)
prepare-IsPrepared_example = prepare-IsPrepared 128 general (omega arith) set_protocol

abbrev no_addresses : List ℕ → Option ℕ
no_addresses str = none

abbrev no_accounts : Accounts
no_accounts = record {
  getpwnam = λ name. none;
  getpwuid = λ uid. none;
  getgrnam = λ name. none;
  getgrgid = λ gid. none;
}

abbrev asking_any : PortCfg
asking_any = record svz_portcfg_create {
  protocol = tcp 80 (record (net_of 3) { ipaddr = some svz_portcfg_any }) (pos 5);
}

abbrev made : Bool × PortCfg
made = svz_portcfg_mkaddr same_string no_addresses no_addresses (λ p. p) 128 no_accounts asking_any

made_any : (made.0 ≡ false) × (made.1.flag_any ≡ true)
unfolding svz_portcfg_mkaddr resolve irc_string_equal
made_any = (refl, refl)

mkaddr-OneFlag_example : OneFlag made.1.flag_any made.1.flag_all made.1.flag_device
mkaddr-OneFlag_example =
    mkaddr-OneFlag same_string no_addresses no_addresses (λ p. p) 128 no_accounts asking_any
      (refl, refl, refl)

-- The sockets of the listeners, added up, and one more are a socket that is not among them.
abbrev sum : List ℕ → ℕ
sum [] = 0
sum (x ∷ xs) = x + sum xs

abbrev create_next : List Listener → PortCfg → Option ℕ
create_next ls p = some (sum (socks ls) + 1)

sum-Absent : (xs : List ℕ) (n : ℕ) → sum xs < n → Absent n xs
sum-Absent [] n h = tt
sum-Absent (x ∷ xs) n h = ((λ e. absurd (omega (arith, e, h))), sum-Absent xs n (omega (arith, h)))

create_next_fresh :
    (ls : List Listener) (p : PortCfg) (sock : ℕ)
    → create_next ls p ≡ some sock
    → Absent sock (socks ls)
create_next_fresh ls p sock e =
    subst (λ n. Absent n (socks ls)) (some-injective (sum (socks ls) + 1) sock e)
      (sum-Absent (socks ls) (sum (socks ls) + 1) (omega arith))

abbrev first_server : ℕ
first_server = 1

abbrev second_server : ℕ
second_server = 2

abbrev bind_example : List Listener → ℕ → PortCfg → List Listener
bind_example = svz_server_bind same_string create_next 128 (7 ∷ 9 ∷ []) (λ ip. [])

-- Server 1 on the addresses of both interfaces, and then server 2 on any address.
abbrev two_listeners : List Listener
two_listeners = bind_example [] 1 everywhere

nothing-WellFormed : WellFormed same_string []
nothing-WellFormed = record { distinct = tt; separate = tt; unique = tt }

two-WellFormed : WellFormed same_string two_listeners
two-WellFormed =
    bind-WellFormed same_string create_next 128 (7 ∷ 9 ∷ []) (λ ip. []) same_string_iff
      create_next_fresh [] 1 everywhere nothing-WellFormed (λ e. cc)

one_left : length (bind_example two_listeners 2 general) ≡ 1
unfolding svz_server_bind bind_copy svz_portcfg_expand svz_portcfg_prepare socket_with_portcfg
    sockets_with_portcfg svz_portcfg_equal equal_protocols add_server find_binding join adjoin_all
    shutdown_listener set_bindings
one_left = refl

bind-WellFormed_example : WellFormed same_string (bind_example two_listeners 2 general)
bind-WellFormed_example =
    bind-WellFormed same_string create_next 128 (7 ∷ 9 ∷ []) (λ ip. []) same_string_iff
      create_next_fresh two_listeners 2 general two-WellFormed (λ e. refl)

Bound-server_bind_example :
    Bound (bind_example two_listeners 2 general) 1 (tcp_key 80 (at_addr 7)) ↔ (
      Bound two_listeners 1 (tcp_key 80 (at_addr 7))
      ⊎ ((second_server ≡ first_server)
          × AnyKey (svz_portcfg_expand (7 ∷ 9 ∷ []) (λ ip. []) general) (tcp_key 80 (at_addr 7))))
Bound-server_bind_example =
    Bound-server_bind same_string create_next 128 (7 ∷ 9 ∷ []) (λ ip. []) same_string_iff
      create_next_fresh (λ ls p. (sum (socks ls) + 1, refl)) two_listeners 2 general 1
      (tcp_key 80 (at_addr 7)) two-WellFormed (λ e. refl)

abbrev shared : List Listener
shared =
    record {
      sock = 3;
      port = specific;
      bindings = some (make_binding 1 specific ∷ make_binding 2 specific ∷ []);
    }
    ∷ []

-- The client 8 came from the listener, the client 9 from none.
abbrev peers : List Peer
peers =
    record { sock = 3; listening = true; parent = none }
    ∷ record { sock = 8; listening = false; parent = some 3 }
    ∷ record { sock = 9; listening = false; parent = none }
    ∷ []

client_scheduled : unbind_clients shared 1 peers ≡ 8 ∷ []
unfolding unbind_clients find_listener contains_server
client_scheduled = refl

server_unbind-Bound_example :
    (clients : List ℕ) × (rs : List (Listener × Bool)) × (server_unbind 3 peers shared 1
      ≡ some (clients, rs))
    × ((x : ℕ) → Any (λ y. y ≡ x) clients ↔ Any (λ c. (c.sock ≡ x) × IsClient shared 1 c) peers)
    × ((s : ℕ) (k : Key) → Bound (map (λ r. r.0) rs) s k ↔ (Bound shared s k × (s ≢ 1)))
    × All (λ r. r.1 ≡ (length (items r.0.bindings) == 0)) rs
server_unbind-Bound_example = server_unbind-Bound 3 peers shared 1 (omega arith, tt)

filter_net-matching_example :
    filter_net (make_binding 1 specific ∷ make_binding 2 general ∷ []) 7 80
    ≡ matching_bindings same_string
        (make_binding 1 specific ∷ make_binding 2 general ∷ [])
        (tcp_at 7 80)
filter_net-matching_example =
    filter_net-matching same_string (make_binding 1 specific ∷ make_binding 2 general ∷ []) 7 80
      ((80, net_of 7, pos 5, refl, refl), ((80, net_of 0, negsuc 2, refl, refl), tt))
