-- ===== src/Bind/Binding/Unbind/Clients.antt =====
-- server.c: `server_unbind`, with its first loop, which shuts the clients of the server down. The results
-- tell for which sockets `svz_sock_schedule_for_shutdown` is called; it marks the socket and the children
-- of a listener, and changes neither the list of sockets nor the bindings.
use mathlib.Core.Bool.{false≢true}
use serveez.Base.{
  ==_cases, All, Bool, Bool-cases, List, Option, Option-cases, [], ap, false, if◌then◌else◌, inl,
  inr, length, map, none, not, refl, some, sym, true, ℕ, ◌&&◌, ◌==◌, ◌↔◌, ◌∙◌, ◌∷◌, ◌≡◌, ◌≢◌, ◌⊎◌,
}
use serveez.Bind.Binding.{Binding, Listener, contains_server, items, svz_binding_contains_server}
use serveez.Bind.Binding.Listeners.{Bound}
use serveez.Bind.Binding.Unbind.{Enough, unbind_listeners, unbind_listeners-Bound}
use serveez.Bind.Equal.Key.{Key}

-- A socket that `svz_sock_foreach` goes through; `parent` is what `svz_sock_getparent` returns.
pub record Peer : Type 0 where
  pub sock : ℕ
  pub listening : Bool
  pub parent : Option ℕ

-- The listener at this pointer, if it is a socket that listens and has a port.
unfoldable pub find_listener : List Listener → ℕ → Option Listener
find_listener [] p = none
find_listener (l ∷ ls) p = let rest = find_listener ls p in if l.sock == p then some l else rest

-- The tests of the first loop, for what `find_listener` gives.
abbrev pub serves : ℕ → Option Listener → Bool
serves server none = false
serves server (some l) = svz_binding_contains_server l server

abbrev pub parent_serves : List Listener → ℕ → Option ℕ → Bool
parent_serves ls server none = false
parent_serves ls server (some p) = serves server (find_listener ls p)

-- The sockets that the first loop schedules.
unfoldable pub unbind_clients : List Listener → ℕ → List Peer → List ℕ
unbind_clients ls server [] = []
unbind_clients ls server (c ∷ cs) =
    let rest = unbind_clients ls server cs in
    if not c.listening && parent_serves ls server c.parent then c.sock ∷ rest else rest

-- The sockets of the first loop, and what the second one leaves.
unfoldable pub server_unbind :
    ℕ → List Peer → List Listener → ℕ → Option (List ℕ × List (Listener × Bool))
server_unbind fuel cs ls server = elim (unbind_listeners fuel ls server) [
  | none ↦ none
  | some rs ↦ some (unbind_clients ls server cs, rs)
]

abbrev pub Any {ℓ} : {A : Type ℓ} → (A → Type 0) → List A → Type 0
Any P [] = ⊥
Any P (x ∷ xs) = P x ⊎ Any P xs

-- A socket that does not listen, and whose parent is a listener with a binding of the server.
abbrev pub IsClient : List Listener → ℕ → Peer → Type 0
IsClient ls server c =
    (c.listening ≡ false)
    × ((p : ℕ) × (l : Listener) × (c.parent ≡ some p)
        × (find_listener ls p ≡ some l)
        × Any (λ b. b.server ≡ server) (items l.bindings))

contains_server_iff :
    (bs : List Binding) (server : ℕ)
    → (contains_server bs server ≡ true) ↔ Any (λ b. b.server ≡ server) bs
unfolding contains_server
contains_server_iff [] server = (λ e. false≢true e, λ h. absurd h)
contains_server_iff (b ∷ bs) server =
    let more = contains_server_iff bs server in
    elim (==_cases b.server server) [
      | inl (e, same) ↦ rw e (λ _. inl same, λ _. refl)
      | inr (e, differ) ↦
          rw e (λ h. inr (more.0 h), λ h. elim h [ inl f ↦ absurd (differ f) | inr t ↦ more.1 t ])
    ]

parent_serves_iff :
    (ls : List Listener) (server : ℕ) (parent : Option ℕ)
    → (parent_serves ls server parent ≡ true) ↔ (
        (p : ℕ) × (l : Listener) × (parent ≡ some p)
        × (find_listener ls p ≡ some l)
        × Any (λ b. b.server ≡ server) (items l.bindings))
parent_serves_iff ls server none = (λ e. absurd (false≢true e), λ h. let (p, l, e, f, g) = h in cc)
parent_serves_iff ls server (some p) = (
  λ e. elim (Option-cases (find_listener ls p)) [
    | inl f ↦ absurd (false≢true (sym (ap (serves server) f) ∙ e))
    | inr (l, f) ↦ (
      p,
      l,
      refl,
      f,
      (contains_server_iff (items l.bindings) server).0 (sym (ap (serves server) f) ∙ e),
    )
  ],
  λ h.
      let (q, l, e, f, g) = h in
      let same : p ≡ q = cc in
      ap (λ x. serves server (find_listener ls x)) same
      ∙ ap (serves server) f
      ∙ (contains_server_iff (items l.bindings) server).1 g,
)

unbind_clients_iff :
    (ls : List Listener) (server : ℕ) (cs : List Peer) (x : ℕ)
    → Any (λ y. y ≡ x) (unbind_clients ls server cs)
      ↔ Any (λ c. (c.sock ≡ x) × IsClient ls server c) cs
unfolding unbind_clients
unbind_clients_iff ls server [] x = (λ h. h, λ h. h)
unbind_clients_iff ls server (c ∷ cs) x =
    let more = unbind_clients_iff ls server cs x in
    let parent = parent_serves_iff ls server c.parent in
    elim (Bool-cases c.listening) [
      | inl e ↦
          rw (e, unbind_clients)
            (
              λ h. inr (more.0 h),
              λ h. elim h [ inl (_, (f, _)) ↦ absurd (false≢true (sym f)) | inr t ↦ more.1 t ],
            )
      | inr e ↦ elim (Bool-cases (parent_serves ls server c.parent)) [
        | inl f ↦
            rw (e, f, unbind_clients)
              (
                λ h. elim h [ inl g ↦ inl (g, (refl, parent.0 f)) | inr t ↦ inr (more.0 t) ],
                λ h. elim h [ inl (g, _) ↦ inl g | inr t ↦ inr (more.1 t) ],
              )
        | inr f ↦
            rw (e, f, unbind_clients)
              (
                λ h. inr (more.0 h),
                λ h. elim h [
                  | inl (_, (_, g)) ↦ absurd (false≢true (sym f ∙ parent.1 g))
                  | inr t ↦ more.1 t
                ],
              )
      ]
    ]

-- Where the rounds of its loops are enough, `server_unbind` ends. Its first loop calls
-- `svz_sock_schedule_for_shutdown` exactly for the sockets that do not listen and whose parent is a
-- listener with a binding of the server. After the second one no listener has a binding of the server,
-- every binding of another server stays, and it is called exactly for the listeners without bindings.
pub server_unbind-Bound :
    (fuel : ℕ) (cs : List Peer) (ls : List Listener) (server : ℕ)
    → Enough fuel ls
    → (clients : List ℕ) × (rs : List (Listener × Bool)) × (server_unbind fuel cs ls server
        ≡ some (clients, rs))
      × ((x : ℕ) → Any (λ y. y ≡ x) clients ↔ Any (λ c. (c.sock ≡ x) × IsClient ls server c) cs)
      × ((s : ℕ) (k : Key) → Bound (map (λ r. r.0) rs) s k ↔ (Bound ls s k × (s ≢ server)))
      × All (λ r. r.1 ≡ (length (items r.0.bindings) == 0)) rs
unfolding server_unbind
server_unbind-Bound fuel cs ls server h =
    let (rs, e, bound, scheduled) = unbind_listeners-Bound fuel ls server h in
    (
      unbind_clients ls server cs,
      rs,
      rw (e, server_unbind) refl,
      unbind_clients_iff ls server cs,
      bound,
      scheduled,
    )
