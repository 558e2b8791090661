-- ===== src/Bind/Binding/Rounds.antt =====
-- binding.c: the rounds of `svz_server_bind`, one for each copy of the port configuration: what they
-- keep true of the listeners, and which bindings they add.
use mathlib.Core.Path.{subst}
use serveez.Base.{
  All, All-append, Bool, Bool-cases, List, Option, [], ap, false, inl, inr, map, none, refl, some,
  ℕ, ◌++◌, ◌==◌, ◌∷◌, ◌≡◌, ◌≢◌, ◌⊎◌,
}
use serveez.Bind.{PortCfg}
use serveez.Bind.Binding.{
  Binding, Listener, items, portcfg_matching_or_equal, set_bindings, socket_with_portcfg,
}
use serveez.Bind.Binding.Has.{Unique}
use serveez.Bind.Binding.Listeners.{Member, ports-set, socks}
use serveez.Bind.Binding.Replace.{others, others-All}
use serveez.Chain.{Absent, Distinct}
use serveez.Chain.Segment.{Distinct-join}

-- No configuration matches a later one.
abbrev pub Separate : (PortCfg → PortCfg → Bool) → List PortCfg → Type 0
Separate matches [] = Unit
Separate matches (p ∷ ps) = All (λ q. matches p q ≡ false) ps × Separate matches ps

-- The listeners are different sockets, no two of them match, and none has two bindings of one server
-- to one port.
pub record WellFormed (strcmp : List ℕ → List ℕ → Bool) (ls : List Listener) : Type 0 where
  pub distinct : Distinct (socks ls)
  pub separate : Separate (portcfg_matching_or_equal strcmp) (map (λ l. l.port) ls)
  pub unique : All (λ l. Unique (items l.bindings)) ls

Separate-snoc :
    (matches : PortCfg → PortCfg → Bool) (ps : List PortCfg) (q : PortCfg)
    → Separate matches ps
    → All (λ p. matches p q ≡ false) ps
    → Separate matches (ps ++ q ∷ [])
Separate-snoc matches [] q s h = (tt, tt)
Separate-snoc matches (p ∷ ps) q (apart, s) (h, hs) = (
  All-append (λ r. matches p r ≡ false) ps (q ∷ []) apart (h, tt),
  Separate-snoc matches ps q s hs,
)

map-snoc {ℓ κ} :
    {A : Type ℓ} {B : Type κ} (f : A → B) (xs : List A) (x : A)
    → map f (xs ++ x ∷ []) ≡ map f xs ++ f x ∷ []
map-snoc f [] x = refl
map-snoc f (y ∷ xs) x = ap (λ t. f y ∷ t) (map-snoc f xs x)

All-ports :
    (P : PortCfg → Type 0) (ls : List Listener)
    → All (λ l. P l.port) ls
    → All P (map (λ l. l.port) ls)
All-ports P [] h = tt
All-ports P (l ∷ ls) (h, hs) = (h, All-ports P ls hs)

All-socks : (P : ℕ → Type 0) (ls : List Listener) → All (λ l. P l.sock) ls → All P (socks ls)
All-socks P [] h = tt
All-socks P (l ∷ ls) (h, hs) = (h, All-socks P ls hs)

All-from_ports :
    (P : PortCfg → Type 0) (ls : List Listener)
    → All P (map (λ l. l.port) ls)
    → All (λ l. P l.port) ls
All-from_ports P [] h = tt
All-from_ports P (l ∷ ls) (h, hs) = (h, All-from_ports P ls hs)

All-from_socks : (P : ℕ → Type 0) (ls : List Listener) → All P (socks ls) → All (λ l. P l.sock) ls
All-from_socks P [] h = tt
All-from_socks P (l ∷ ls) (h, hs) = (h, All-from_socks P ls hs)

module _ (strcmp : List ℕ → List ℕ → Bool) where
  -- A new listener that nothing matches.
  pub WellFormed-snoc :
      (ls : List Listener) (l : Listener)
      → WellFormed strcmp ls
      → Absent l.sock (socks ls)
      → All (λ m. portcfg_matching_or_equal strcmp m.port l.port ≡ false) ls
      → Unique (items l.bindings)
      → WellFormed strcmp (ls ++ l ∷ [])
  WellFormed-snoc ls l w fresh apart u = record {
    distinct =
        rw (map-snoc (λ m. m.sock) ls l)
          (Distinct-join (socks ls) (l.sock ∷ []) w.distinct (tt, tt) (fresh, tt));
    separate = rw (map-snoc (λ m. m.port) ls l) (
        Separate-snoc (portcfg_matching_or_equal strcmp) (map (λ m. m.port) ls) l.port w.separate
          (All-ports (λ p. portcfg_matching_or_equal strcmp p l.port ≡ false) ls apart));
    unique = All-append (λ m. Unique (items m.bindings)) ls (l ∷ []) w.unique (u, tt);
  }

  others-Distinct :
      (ls : List Listener) (port : PortCfg)
      → Distinct (socks ls)
      → Distinct (socks (others strcmp ls port))
  others-Distinct [] port d = d
  others-Distinct (l ∷ ls) port (h, d) =
      elim (Bool-cases (portcfg_matching_or_equal strcmp l.port port)) [
        | inl e ↦ rw e (others-Distinct ls port d)
        | inr e ↦ rw e (
          All-socks (λ y. l.sock ≢ y) (others strcmp ls port)
              (others-All strcmp (λ m. l.sock ≢ m.sock) ls port
                (All-from_socks (λ y. l.sock ≢ y) ls h)),
          others-Distinct ls port d,
        )
      ]

  abbrev ApartFrom : PortCfg → PortCfg → Type 0
  ApartFrom p q = portcfg_matching_or_equal strcmp p q ≡ false

  others-Separate :
      (ls : List Listener) (port : PortCfg)
      → Separate (portcfg_matching_or_equal strcmp) (map (λ l. l.port) ls)
      → Separate (portcfg_matching_or_equal strcmp) (map (λ l. l.port) (others strcmp ls port))
  others-Separate [] port s = s
  others-Separate (l ∷ ls) port (h, s) =
      elim (Bool-cases (portcfg_matching_or_equal strcmp l.port port)) [
        | inl e ↦ rw e (others-Separate ls port s)
        | inr e ↦ rw e (
          All-ports (ApartFrom l.port) (others strcmp ls port) (
              others-All strcmp (λ m. ApartFrom l.port m.port) ls port
                (All-from_ports (ApartFrom l.port) ls h)),
          others-Separate ls port s,
        )
      ]

  pub others-WellFormed :
      (ls : List Listener) (port : PortCfg)
      → WellFormed strcmp ls
      → WellFormed strcmp (others strcmp ls port)
  others-WellFormed ls port w = record {
    distinct = others-Distinct ls port w.distinct;
    separate = others-Separate ls port w.separate;
    unique = others-All strcmp (λ l. Unique (items l.bindings)) ls port w.unique;
  }

  set-Unique :
      (ls : List Listener) (sock : ℕ) (bindings : Option (List Binding))
      → All (λ l. Unique (items l.bindings)) ls
      → Unique (items bindings)
      → All (λ l. Unique (items l.bindings)) (set_bindings ls sock bindings)
  unfolding set_bindings
  set-Unique [] sock bindings h u = tt
  set-Unique (l ∷ ls) sock bindings (h, hs) u = elim (Bool-cases (l.sock == sock)) [
    | inl e ↦ rw e (u, set-Unique ls sock bindings hs u)
    | inr e ↦ rw e (h, set-Unique ls sock bindings hs u)
  ]

  pub set-WellFormed :
      (ls : List Listener) (sock : ℕ) (bindings : Option (List Binding))
      → WellFormed strcmp ls
      → Unique (items bindings)
      → WellFormed strcmp (set_bindings ls sock bindings)
  set-WellFormed ls sock bindings w u =
      let (same_ports, same_socks) = ports-set ls sock bindings in
      record {
        distinct = rw same_socks w.distinct;
        separate = rw same_ports w.separate;
        unique = set-Unique ls sock bindings w.unique u;
      }

  -- The search for a listener finds one of them, or none matches.
  pub socket_with_lem :
      (ls : List Listener) (port : PortCfg)
      → ((l : Listener) × (socket_with_portcfg strcmp ls port ≡ some l) × Member l ls)
        ⊎ ((socket_with_portcfg strcmp ls port ≡ none)
            × All (λ l. portcfg_matching_or_equal strcmp l.port port ≡ false) ls)
  unfolding socket_with_portcfg
  socket_with_lem [] port = inr (refl, tt)
  socket_with_lem (l ∷ ls) port = elim (Bool-cases (portcfg_matching_or_equal strcmp l.port port)) [
    | inl e ↦ inl (l, rw e refl, inl refl)
    | inr e ↦ elim (socket_with_lem ls port) [
      | inl (x, f, m) ↦ inl (x, rw e f, inr m)
      | inr (f, h) ↦ inr (rw e f, (e, h))
    ]
  ]

  -- The port and its copy are matched by the same listeners.
  abbrev pub AsCopy : PortCfg → PortCfg → Type 0
  AsCopy port copy =
      (p : PortCfg)
      → portcfg_matching_or_equal strcmp p port ≡ false
      → portcfg_matching_or_equal strcmp p copy ≡ false

pub Member-All {κ} :
    (P : Listener → Type κ) (ls : List Listener) (l : Listener) → Member l ls → All P ls → P l
Member-All P [] l m h = absurd m
Member-All P (x ∷ ls) l m (h, hs) = elim m [ inl e ↦ subst P e h | inr t ↦ Member-All P ls l t hs ]

pub All-map :
    {P Q : Listener → Type 0}
    → ((l : Listener) → P l → Q l)
    → (ls : List Listener) → All P ls
    → All Q ls
All-map f [] h = tt
All-map f (l ∷ ls) (h, hs) = (f l h, All-map f ls hs)
