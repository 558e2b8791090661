-- ===== src/Bind/Binding/Server.antt =====
-- binding.c: `svz_server_bind`. `svz_server_create`, which opens a socket of the system, is a
-- parameter, with the listeners that have a port at that time; it returns the new socket.
use serveez.Base.{Bool, List, Option, [], if◌then◌else◌, none, not, some, ℕ, ◌&&◌, ◌++◌, ◌∷◌}
use serveez.Bind.{PortCfg}
use serveez.Bind.Binding.{
  Binding, Listener, add_server, adjoin_all, set_bindings, shutdown_all, socket_with_portcfg,
  sockets_with_portcfg,
}
use serveez.Bind.Expand.{svz_portcfg_expand}
use serveez.Bind.Prepare.{svz_portcfg_prepare}

module _ (strcmp : List ℕ → List ℕ → Bool)
    (svz_server_create : List Listener → PortCfg → Option ℕ) where
  -- `make_listener_socket` and what follows it, with the bindings that the new socket takes over.
  abbrev pub listen_new : List Listener → Option (List Binding) → ℕ → PortCfg → List Listener
  listen_new ls bindings server copy = elim (svz_server_create ls copy) [
    | none ↦ ls
    | some sock ↦
        ls
        ++ record {
          sock = sock;
          port = copy;
          bindings = (add_server strcmp bindings server copy).1;
        }
          ∷ []
  ]

  -- One round of the loop, for a prepared copy.
  unfoldable pub bind_copy : PortCfg → ℕ → List Listener → PortCfg → List Listener
  bind_copy port server ls copy = elim (socket_with_portcfg strcmp ls copy) [
    | none ↦ listen_new ls none server copy
    | some l ↦
        if copy.flag_any && not l.port.flag_any
        then (let sockets = sockets_with_portcfg strcmp ls port in
            listen_new (shutdown_all ls sockets) (adjoin_all strcmp none sockets) server copy)
        else set_bindings ls l.sock (add_server strcmp l.bindings server copy).1
  ]

module _ (strcmp : List ℕ → List ℕ → Bool) (svz_server_create : List Listener → PortCfg → Option ℕ)
    (somaxconn : ℕ) (interfaces : List ℕ) (svz_inet_ntoa : ℕ → List ℕ) where
  abbrev pub bind_copies : PortCfg → ℕ → List Listener → List PortCfg → List Listener
  bind_copies port server ls [] = ls
  bind_copies port server ls (copy ∷ copies) =
      bind_copies port server
        (bind_copy strcmp svz_server_create port server ls (svz_portcfg_prepare somaxconn copy))
        copies

  unfoldable pub svz_server_bind : List Listener → ℕ → PortCfg → List Listener
  svz_server_bind ls server port =
      bind_copies port server ls (svz_portcfg_expand interfaces svz_inet_ntoa port)
