-- ===== src/Bind/Binding/Unbind.antt =====
-- binding.c: `svz_sock_bindings_zonk_server`, which takes a server from a socket, and the loop of
-- `server_unbind` of server.c over the listeners.
pub mod Clients
use mathlib.Core.List.{append_assoc}
use serveez.Base.{
  ==_cases, All, Bool, Bool-cases, List, Option, [], ap, arith, erase_idx, erase_idx-append_mid,
  false, get_elem?, if◌then◌else◌, inl, inr, length, length-append, map, none, refl, some, suc, sym,
  true, zero, ℕ, ◌++◌, ◌<◌, ◌==◌, ◌↔◌, ◌∙◌, ◌∷◌, ◌≡◌, ◌≢◌,
}
use serveez.Bind.Binding.{Binding, Listener, items}
use serveez.Bind.Binding.Has.{Has}
use serveez.Bind.Binding.Listeners.{Bound}
use serveez.Bind.Equal.Key.{Key}

-- The loop goes on at the same index after a deletion; `fuel` counts its rounds, and none is left over
-- when the index reaches the end.
unfoldable pub zonk : ℕ → List Binding → ℕ → ℕ → Option (List Binding)
zonk zero bs i server = none
zonk (suc fuel) bs i server = elim (get_elem? bs i) [
  | none ↦ some bs
  | some b ↦ elim (b.server == server) [
    | true ↦ zonk fuel (erase_idx bs i) i server
    | false ↦ zonk fuel bs (suc i) server
  ]
]

-- The bindings of the other servers.
abbrev pub without : List Binding → ℕ → List Binding
without [] server = []
without (b ∷ bs) server =
    let rest = without bs server in if b.server == server then rest else b ∷ rest

get_elem?-append_mid {ℓ} :
    {A : Type ℓ} (xs ys : List A) (y : A) → get_elem? (xs ++ y ∷ ys) (length xs) ≡ some y
get_elem?-append_mid [] ys y = refl
get_elem?-append_mid (x ∷ xs) ys y = get_elem?-append_mid xs ys y

get_elem?-end {ℓ} : {A : Type ℓ} (xs : List A) → get_elem? (xs ++ []) (length xs) ≡ none
get_elem?-end [] = refl
get_elem?-end (x ∷ xs) = get_elem?-end xs

zonk_lem :
    (fuel : ℕ) (bs cs : List Binding) (server : ℕ)
    → length cs < fuel
    → zonk fuel (bs ++ cs) (length bs) server ≡ some (bs ++ without cs server)
unfolding zonk
zonk_lem zero bs cs server h = absurd (omega arith)
zonk_lem (suc fuel) bs [] server h = rw (get_elem?-end bs, zonk) refl
zonk_lem (suc fuel) bs (c ∷ cs) server h = elim (Bool-cases (c.server == server)) [
  | inl e ↦
      rw (get_elem?-append_mid bs cs c, e, erase_idx-append_mid bs cs c, zonk)
        (zonk_lem fuel bs cs server (omega arith))
  | inr e ↦
      let next = zonk_lem fuel (bs ++ c ∷ []) cs server (omega arith) in
      let longer : length (bs ++ c ∷ []) ≡ suc (length bs) =
        omega (arith, length-append bs (c ∷ [])) in
      rw (get_elem?-append_mid bs cs c, e, zonk)
        (ap (λ n. zonk fuel (bs ++ c ∷ cs) n server) (sym longer)
          ∙ ap (λ l. zonk fuel l (length (bs ++ c ∷ [])) server) (sym (append_assoc bs (c ∷ []) cs))
          ∙ next
          ∙ ap some (append_assoc bs (c ∷ []) (without cs server)))
]

-- `none` where the rounds do not suffice; a NULL array is left.
abbrev pub svz_sock_bindings_zonk_server :
    ℕ → Option (List Binding) → ℕ → Option (Option (List Binding))
svz_sock_bindings_zonk_server fuel none server = some none
svz_sock_bindings_zonk_server fuel (some bs) server = elim (zonk fuel bs 0 server) [
  | none ↦ none
  | some cs ↦ some (some cs)
]

-- One listener with its new bindings, and whether it is scheduled for shutdown.
abbrev pub unbound :
    Listener
    → Option (Option (List Binding))
    → Option (List (Listener × Bool))
    → Option (List (Listener × Bool))
unbound l none rest = none
unbound l (some bindings) none = none
unbound l (some bindings) (some rest) =
    some ((record l { bindings = bindings }, length (items bindings) == 0) ∷ rest)

-- The second loop of `server_unbind`, over the listeners.
unfoldable pub unbind_listeners : ℕ → List Listener → ℕ → Option (List (Listener × Bool))
unbind_listeners fuel [] server = some []
unbind_listeners fuel (l ∷ ls) server =
    unbound l (svz_sock_bindings_zonk_server fuel l.bindings server)
      (unbind_listeners fuel ls server)

-- The rounds suffice for every listener.
abbrev pub Enough : ℕ → List Listener → Type 0
Enough fuel ls = All (λ l. length (items l.bindings) < fuel) ls

abbrev pub left : ℕ → Listener → Listener × Bool
left server l = (
  record l { bindings = elim l.bindings [ none ↦ none | some bs ↦ some (without bs server) ] },
  length (without (items l.bindings) server) == 0,
)

-- What the loop leaves, with enough rounds.
pub unbind_listeners_lem :
    (fuel : ℕ) (ls : List Listener) (server : ℕ)
    → Enough fuel ls
    → unbind_listeners fuel ls server ≡ some (map (left server) ls)
unfolding unbind_listeners
unbind_listeners_lem fuel [] server h = refl
unbind_listeners_lem fuel (l ∷ ls) server (h, hs) =
    ap (unbound l (svz_sock_bindings_zonk_server fuel l.bindings server))
      (unbind_listeners_lem fuel ls server hs)
    ∙ one l.bindings h
  where
    one :
        (bindings : Option (List Binding))
        → length (items bindings) < fuel
        → unbound l
            (svz_sock_bindings_zonk_server fuel bindings server)
            (some (map (left server) ls))
          ≡ some (left server (record l { bindings = bindings }) ∷ map (left server) ls)
    one none enough = refl
    one (some bs) enough =
        rw (zonk_lem fuel [] bs server enough, svz_sock_bindings_zonk_server, unbound) refl

without-Has :
    (bs : List Binding) (server s : ℕ) (k : Key)
    → Has (without bs server) s k ↔ (Has bs s k × (s ≢ server))
without-Has [] server s k = (λ h. absurd h, λ h. h.0)
without-Has (b ∷ bs) server s k =
    let rest = without-Has bs server s k in
    elim (==_cases b.server server) [
      | inl (e, same) ↦ rw e (
        λ h. let (x, y) = rest.0 h in (inr x, y),
        λ h. elim h.0 [ inl both ↦ absurd (h.1 (sym both.0 ∙ same)) | inr t ↦ rest.1 (t, h.1) ],
      )
      | inr (e, differ) ↦ rw e (
        λ h. elim h [
          | inl both ↦ (inl both, λ x. differ (both.0 ∙ x))
          | inr t ↦ let (x, y) = rest.0 t in (inr x, y)
        ],
        λ h. elim h.0 [ inl both ↦ inl both | inr t ↦ inr (rest.1 (t, h.1)) ],
      )
    ]

-- Where the rounds of its loops are enough, the loop ends, without a binding of the server on
-- any listener; every binding of another server stays, and exactly the listeners without bindings are
-- scheduled for shutdown.
pub unbind_listeners-Bound :
    (fuel : ℕ) (ls : List Listener) (server : ℕ)
    → Enough fuel ls
    → (rs : List (Listener × Bool)) × (unbind_listeners fuel ls server ≡ some rs)
      × ((s : ℕ) (k : Key) → Bound (map (λ r. r.0) rs) s k ↔ (Bound ls s k × (s ≢ server)))
      × All (λ r. r.1 ≡ (length (items r.0.bindings) == 0)) rs
unbind_listeners-Bound fuel ls server h =
    (map (left server) ls, unbind_listeners_lem fuel ls server h, λ s k. stays ls s k, scheduled ls)
  where
    items_left :
        (l : Listener) → items (left server l).0.bindings ≡ without (items l.bindings) server
    items_left l =
        elim l.bindings
          as (λ o.
            items (elim o [ none ↦ none | some bs ↦ some (without bs server) ])
            ≡ without (items o) server) [ none ↦ refl | some bs ↦ refl ]

    stays :
        (ms : List Listener) (s : ℕ) (k : Key)
        → Bound (map (λ r. r.0) (map (left server) ms)) s k ↔ (Bound ms s k × (s ≢ server))
    stays [] s k = (λ x. absurd x, λ x. x.0)
    stays (l ∷ ms) s k =
        let rest = stays ms s k in
        let one = without-Has (items l.bindings) server s k in
        rw (items_left l) (
          λ x. elim x [
            | inl y ↦ let (a, b) = one.0 y in (inl a, b)
            | inr y ↦ let (a, b) = rest.0 y in (inr a, b)
          ],
          λ x. elim x.0 [ inl y ↦ inl (one.1 (y, x.1)) | inr y ↦ inr (rest.1 (y, x.1)) ],
        )

    scheduled :
        (ms : List Listener)
        → All (λ r. r.1 ≡ (length (items r.0.bindings) == 0)) (map (left server) ms)
    scheduled [] = tt
    scheduled (l ∷ ms) = (ap (λ bs. length bs == 0) (sym (items_left l)), scheduled ms)
