-- ===== src/Bind/Binding/Whole.antt =====
-- binding.c: `svz_server_bind` as a whole.
use serveez.Base.{
  All, Bool, Bool-cases, List, Option, [], ap, false, inl, inr, map, not, some, sym, true, ℕ, ◌&&◌,
  ◌↔◌, ◌∙◌, ◌∷◌, ◌≡◌, ◌⊎◌,
}
use serveez.Bind.{PortCfg}
use serveez.Bind.Binding.{Listener, is_match}
use serveez.Bind.Binding.Correct.{Bound-round, round-WellFormed}
use serveez.Bind.Binding.Listeners.{Bound, socks}
use serveez.Bind.Binding.Rounds.{AsCopy, WellFormed}
use serveez.Bind.Binding.Server.{bind_copies, bind_copy, svz_server_bind}
use serveez.Bind.Equal.Key.{Key, key}
use serveez.Bind.Expand.{expand_internal, networked, svz_portcfg_expand}
use serveez.Bind.Prepare.{svz_portcfg_prepare}
use serveez.Bind.Prepare.Same.{equal-prepare, key-prepare}
use serveez.Chain.{Absent}

-- One of the configurations has the key.
abbrev pub AnyKey : List PortCfg → Key → Type 0
AnyKey [] k = ⊥
AnyKey (p ∷ ps) k = (key p ≡ some k) ⊎ AnyKey ps k

All-expanded :
    (P : PortCfg → Type 0) (ips : List ℕ) (f : ℕ → PortCfg)
    → ((ip : ℕ) → P (f ip))
    → All P (map f ips)
All-expanded P [] f h = tt
All-expanded P (ip ∷ ips) f h = (h ip, All-expanded P ips f h)

false_any : (b : Bool) → b ≡ false → b ≡ true → ⊥
false_any b e f = cc

module _ (strcmp : List ℕ → List ℕ → Bool) (svz_server_create : List Listener → PortCfg → Option ℕ)
    (somaxconn : ℕ) (interfaces : List ℕ) (svz_inet_ntoa : ℕ → List ℕ)
    (decides : (a b : List ℕ) → (strcmp a b ≡ true) ↔ (a ≡ b))
    (fresh : (ls : List Listener) (p : PortCfg) (sock : ℕ)
      → svz_server_create ls p ≡ some sock
      → Absent sock (socks ls)) where
  abbrev bind : List Listener → ℕ → PortCfg → List Listener
  bind = svz_server_bind strcmp svz_server_create somaxconn interfaces svz_inet_ntoa

  abbrev bind_all : PortCfg → ℕ → List Listener → List PortCfg → List Listener
  bind_all = bind_copies strcmp svz_server_create somaxconn interfaces svz_inet_ntoa

  abbrev GoodCopy : PortCfg → PortCfg → Type 0
  GoodCopy port copy =
      copy.flag_any ≡ true → AsCopy strcmp port (svz_portcfg_prepare somaxconn copy)

  good_copies :
      (port : PortCfg)
      → (port.flag_any ≡ true → port.flag_all ≡ false)
      → All (GoodCopy port) (svz_portcfg_expand interfaces svz_inet_ntoa port)
  unfolding svz_portcfg_expand
  good_copies port single =
      elim (Bool-cases (networked port && port.flag_all && not port.flag_device)) [
        | inl e ↦ rw e (
            All-expanded (GoodCopy port) interfaces (expand_internal interfaces svz_inet_ntoa port)
              (λ ip any.
                absurd (not_all (networked port) port.flag_all port.flag_device e (single any))))
        | inr e ↦ rw e ((λ any p h. ap is_match (equal-prepare strcmp somaxconn p port) ∙ h), tt)
      ]
    where
      not_all : (a b c : Bool) → (a && b && not c) ≡ true → b ≡ false → ⊥
      not_all true true c e f = cc
      not_all true false c e f = cc
      not_all false b c e f = cc

  bind_all-WellFormed :
      (port : PortCfg) (server : ℕ) (ls : List Listener) (copies : List PortCfg)
      → WellFormed strcmp ls
      → All (GoodCopy port) copies
      → WellFormed strcmp (bind_all port server ls copies)
  unfolding svz_portcfg_prepare
  bind_all-WellFormed port server ls [] w good = w
  bind_all-WellFormed port server ls (copy ∷ copies) w (g, good) =
      let ready = svz_portcfg_prepare somaxconn copy in
      bind_all-WellFormed port server (bind_copy strcmp svz_server_create port server ls ready)
        copies (round-WellFormed strcmp svz_server_create decides fresh port server ls ready w g)
        good

  -- Where `strcmp` decides equality, `svz_server_create` returns a socket that is not yet among the
  -- listeners or fails, and the port has not both flags for the addresses "any" and "*": if the
  -- listeners are different sockets, no two of them match, and none has two bindings of one server to
  -- one port, then the same holds after `svz_server_bind`.
  pub bind-WellFormed :
      (ls : List Listener) (server : ℕ) (port : PortCfg)
      → WellFormed strcmp ls
      → (port.flag_any ≡ true → port.flag_all ≡ false)
      → WellFormed strcmp (bind ls server port)
  unfolding svz_server_bind
  bind-WellFormed ls server port w single =
      bind_all-WellFormed port server ls (svz_portcfg_expand interfaces svz_inet_ntoa port) w
        (good_copies port single)

  module _
      (works : (ls : List Listener) (p : PortCfg)
        → (sock : ℕ) × (svz_server_create ls p ≡ some sock)) where
    Bound-All :
        (port : PortCfg) (server : ℕ) (ls : List Listener) (copies : List PortCfg) (s : ℕ) (k : Key)
        → WellFormed strcmp ls
        → All (GoodCopy port) copies
        → Bound (bind_all port server ls copies) s k
          ↔ (Bound ls s k ⊎ ((server ≡ s) × AnyKey copies k))
    unfolding svz_portcfg_prepare
    Bound-All port server ls [] s k w good =
        (λ x. inl x, λ x. elim x [ inl y ↦ y | inr (_, nothing) ↦ absurd nothing ])
    Bound-All port server ls (copy ∷ copies) s k w (g, good) =
        let ready = svz_portcfg_prepare somaxconn copy in
        let next = bind_copy strcmp svz_server_create port server ls ready in
        let one =
          Bound-round strcmp svz_server_create decides fresh port server ls ready s k w
            (λ ms. works ms ready) in
        let kept =
          round-WellFormed strcmp svz_server_create decides fresh port server ls ready w g in
        let rest = Bound-All port server next copies s k kept good in
        let same = key-prepare somaxconn copy in
        (
          λ x. elim (rest.0 x) [
            | inl y ↦ elim (one.0 y) [ inl z ↦ inl z | inr (e, f) ↦ inr (e, inl (sym same ∙ f)) ]
            | inr (e, later) ↦ inr (e, inr later)
          ],
          λ x. rest.1 (elim x [
            | inl y ↦ inl (one.1 (inl y))
            | inr (e, now) ↦ elim now [
              | inl f ↦ inl (one.1 (inr (e, same ∙ f)))
              | inr later ↦ inr (e, later)
            ]
          ]),
        )

    -- Where also `svz_server_create` always opens a socket: after `svz_server_bind` the listeners bind
    -- the servers to the ports that they did before, and the given server to each port that its
    -- configuration expands to; no binding is lost when a more general listener replaces others.
    pub Bound-server_bind :
        (ls : List Listener) (server : ℕ) (port : PortCfg) (s : ℕ) (k : Key)
        → WellFormed strcmp ls
        → (port.flag_any ≡ true → port.flag_all ≡ false)
        → Bound (bind ls server port) s k ↔ (
            Bound ls s k
            ⊎ ((server ≡ s) × AnyKey (svz_portcfg_expand interfaces svz_inet_ntoa port) k))
    unfolding svz_server_bind
    Bound-server_bind ls server port s k w single =
        Bound-All port server ls (svz_portcfg_expand interfaces svz_inet_ntoa port) s k w
          (good_copies port single)
