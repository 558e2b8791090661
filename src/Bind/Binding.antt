-- ===== src/Bind/Binding.antt =====
-- libserveez/binding.c: the servers bound to the listening sockets. The listening sockets are those
-- that `svz_sock_foreach_listener` goes through, in its order, each with its entry in `all_ears`; a
-- socket and a server are pointers. `strcmp` is a parameter.
pub mod Server
pub mod Has
pub mod Join
pub mod Listeners
pub mod Replace
pub mod Rounds
pub mod Correct
pub mod Whole
pub mod Unbind
pub mod Filter
use serveez.Base.{
  Bool, List, Option, [], false, if◌then◌else◌, map, none, some, true, ℕ, ◌&&◌, ◌++◌, ◌==◌, ◌||◌,
  ◌∷◌,
}
use serveez.Bind.{PortCfg}
use serveez.Bind.Equal.{Match, conflict, equal, matching, nomatch, svz_portcfg_equal, undefined}
use serveez.Bind.Expand.{svz_portcfg_dup}

pub record Binding : Type 0 where
  pub server : ℕ
  pub port : PortCfg

-- `bindings` is `none` for NULL.
pub record Listener : Type 0 where
  pub sock : ℕ
  pub port : PortCfg
  pub bindings : Option (List Binding)

-- What `svz_array_foreach` goes through.
abbrev pub items {ℓ} : {A : Type ℓ} → Option (List A) → List A
items none = []
items (some xs) = xs

abbrev pub is_equal : Match → Bool
is_equal nomatch = false
is_equal equal = true
is_equal matching = false
is_equal conflict = false
is_equal undefined = false

abbrev pub is_match : Match → Bool
is_match nomatch = false
is_match equal = true
is_match matching = true
is_match conflict = false
is_match undefined = false

abbrev pub make_binding : ℕ → PortCfg → Binding
make_binding server port = record { server = server; port = port }

-- The servers of bindings.
unfoldable pub contains_server : List Binding → ℕ → Bool
contains_server [] server = false
contains_server (b ∷ bs) server = b.server == server || contains_server bs server

abbrev pub svz_binding_contains_server : Listener → ℕ → Bool
svz_binding_contains_server l server = contains_server (items l.bindings) server

unfoldable pub svz_server_listeners : List Listener → ℕ → List Listener
svz_server_listeners [] server = []
svz_server_listeners (l ∷ ls) server =
    let rest = svz_server_listeners ls server in
    if svz_binding_contains_server l server then l ∷ rest else rest

unfoldable pub from_server : List Binding → ℕ → List Binding
from_server [] server = []
from_server (b ∷ bs) server =
    let rest = from_server bs server in if b.server == server then b ∷ rest else rest

unfoldable pub svz_server_portcfgs : List Listener → ℕ → List PortCfg
svz_server_portcfgs [] server = []
svz_server_portcfgs (l ∷ ls) server =
    map (λ b. b.port) (from_server (items l.bindings) server) ++ svz_server_portcfgs ls server

abbrev pub svz_sock_servers : Listener → List ℕ
svz_sock_servers l = map (λ b. b.server) (items l.bindings)

module _ (strcmp : List ℕ → List ℕ → Bool) where
  abbrev pub portcfg_exactly_equal : PortCfg → PortCfg → Bool
  portcfg_exactly_equal a b = is_equal (svz_portcfg_equal strcmp a b)

  abbrev pub portcfg_matching_or_equal : PortCfg → PortCfg → Bool
  portcfg_matching_or_equal a b = is_match (svz_portcfg_equal strcmp a b)

  unfoldable pub socket_with_portcfg : List Listener → PortCfg → Option Listener
  socket_with_portcfg [] port = none
  socket_with_portcfg (l ∷ ls) port =
      let rest = socket_with_portcfg ls port in
      if portcfg_matching_or_equal l.port port then some l else rest

  unfoldable pub sockets_with_portcfg : List Listener → PortCfg → List Listener
  sockets_with_portcfg [] port = []
  sockets_with_portcfg (l ∷ ls) port =
      let rest = sockets_with_portcfg ls port in
      if portcfg_matching_or_equal l.port port then l ∷ rest else rest

  -- `find_binding`, and `bindings_contain` as whether there is one.
  unfoldable pub find_binding : List Binding → ℕ → PortCfg → Option Binding
  find_binding [] server port = none
  find_binding (b ∷ bs) server port =
      let rest = find_binding bs server port in
      if b.server == server && portcfg_exactly_equal b.port port then some b else rest

  abbrev pub bindings_contain : List Binding → Binding → Bool
  bindings_contain bs b = elim (find_binding bs b.server b.port) [ none ↦ false | some c ↦ true ]

  -- `true` for the return value -1.
  unfoldable pub add_server : Option (List Binding) → ℕ → PortCfg → Bool × Option (List Binding)
  add_server none server port = (false, some (make_binding server port ∷ []))
  add_server (some bs) server port = elim (find_binding bs server port) [
    | none ↦ (false, some (bs ++ make_binding server port ∷ []))
    | some b ↦ (true, some bs)
  ]

  -- The loop of `adjoin`.
  unfoldable pub join : List Binding → List Binding → List Binding
  join bs [] = bs
  join bs (b ∷ old) = elim (bindings_contain bs b) [
    | true ↦ join bs old
    | false ↦ join (bs ++ make_binding b.server (svz_portcfg_dup b.port) ∷ []) old
  ]

  abbrev pub adjoin : Option (List Binding) → Listener → Option (List Binding)
  adjoin bindings l = some (join (items bindings) (items l.bindings))

  -- The bindings of the listeners that a more general one replaces.
  unfoldable pub adjoin_all : Option (List Binding) → List Listener → Option (List Binding)
  adjoin_all bindings [] = bindings
  adjoin_all bindings (l ∷ ls) = adjoin_all (adjoin bindings l) ls

-- What server-core.c and server-socket.c do to the list of listeners. `svz_sock_shutdown`:
unfoldable pub shutdown_listener : List Listener → ℕ → List Listener
shutdown_listener [] sock = []
shutdown_listener (l ∷ ls) sock =
    let rest = shutdown_listener ls sock in if l.sock == sock then rest else l ∷ rest

abbrev pub shutdown_all : List Listener → List Listener → List Listener
shutdown_all ls [] = ls
shutdown_all ls (x ∷ xs) = shutdown_all (shutdown_listener ls x.sock) xs

-- A change of the bindings of one socket.
unfoldable pub set_bindings : List Listener → ℕ → Option (List Binding) → List Listener
set_bindings [] sock bindings = []
set_bindings (l ∷ ls) sock bindings =
    let rest = set_bindings ls sock bindings in
    (if l.sock == sock then record l { bindings = bindings } else l) ∷ rest
