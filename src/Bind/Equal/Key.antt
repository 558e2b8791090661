-- ===== src/Bind/Equal/Key.antt =====
-- portcfg.c: what two port configurations have in common that `svz_portcfg_equal` finds equal.
use mathlib.Core.Bool.{false≢true}
use mathlib.Core.Path.{subst}
use serveez.Base.{
  ==_cases, Bool, Bool-cases, List, Option, ap, false, if◌then◌else◌, inl, inr, none, refl, some,
  sym, true, ℕ, ◌&&◌, ◌==◌, ◌||◌, ◌↔◌, ◌∙◌, ◌≡◌, ◌≢◌,
}
use serveez.Bind.{Net, PortCfg, Protocol, icmp, pipe, raw, svz_portcfg_device, tcp, udp, unset}
use serveez.Bind.Equal.{
  Match, compare_device, compare_names, compare_port, conflict, equal, equal_protocols, matching,
  nomatch, or_empty, same_devices, svz_portcfg_equal,
}

-- The place a network port listens at.
pub data Place : Type 0 where
  on_device : List ℕ → Place
  at_addr : ℕ → Place

-- What identifies a port: its protocol with its number or type, and its place; the files of a pipe.
pub data Key : Type 0 where
  tcp_key : ℕ → Place → Key
  udp_key : ℕ → Place → Key
  icmp_key : ℕ → Place → Key
  raw_key : Place → Key
  pipe_key : List ℕ → List ℕ → Key

abbrev pub place : PortCfg → Net → Place
place port n =
    if port.flag_device then on_device (or_empty (svz_portcfg_device port)) else at_addr n.s_addr

-- A pipe without the name of a file has no key.
abbrev pub file_key : Option (List ℕ) → Option (List ℕ) → Option Key
file_key none s = none
file_key (some r) none = none
file_key (some r) (some s) = some (pipe_key r s)

abbrev pub protocol_key : PortCfg → Protocol → Option Key
protocol_key port unset = none
protocol_key port (tcp p n k) = some (tcp_key n.sin_port (place port n))
protocol_key port (udp p n) = some (udp_key n.sin_port (place port n))
protocol_key port (icmp n t) = some (icmp_key t (place port n))
protocol_key port (raw n) = some (raw_key (place port n))
protocol_key port (pipe r s) = file_key r.name s.name

abbrev pub key : PortCfg → Option Key
key port = protocol_key port port.protocol

-- Two configurations have the same key.
abbrev pub SameKey : Option Key → Option Key → Type 0
SameKey o u = (k : Key) × (o ≡ some k) × (u ≡ some k)

module _ (strcmp : List ℕ → List ℕ → Bool)
    (decides : (a b : List ℕ) → (strcmp a b ≡ true) ↔ (a ≡ b)) where
  -- A comparison that is `equal` exactly if `P`.
  abbrev Decides : Match → Type 0 → Type 0
  Decides r P = (r ≡ equal) ↔ P

  addr_lem :
      (u v : ℕ) (f : Bool)
      → Decides (if u == v then equal else if f then matching else nomatch) (u ≡ v)
  addr_lem u v f = elim (==_cases u v) [
    | inl (e, same) ↦ (λ _. same, λ _. rw e refl)
    | inr (e, differ) ↦ rw e (elim f as (λ g. Decides (if g then matching else nomatch) (u ≡ v)) [
      | true ↦ (λ h. cc, λ h. absurd (differ h))
      | false ↦ (λ h. cc, λ h. absurd (differ h))
    ])
  ]

  place_lem :
      (other : Match) (x y f : Bool) (d e : List ℕ) (u v : ℕ)
      → other ≢ equal
      → Decides
          (if x || y
            then (if x && y then (if strcmp d e then equal else other) else conflict)
            else if u == v
            then equal
            else if f
            then matching
            else nomatch)
          ((if x then on_device d else at_addr u) ≡ (if y then on_device e else at_addr v))
  place_lem other true true f d e u v apart = elim (Bool-cases (strcmp d e)) [
    | inl h ↦ rw h (λ _. ap on_device ((decides d e).0 h), λ _. refl)
    | inr h ↦ rw h (λ e. absurd (apart e), λ k. absurd (false≢true (sym h ∙ (decides d e).1 cc)))
  ]
  place_lem other true false f d e u v apart = (λ h. cc, λ h. cc)
  place_lem other false true f d e u v apart = (λ h. cc, λ h. cc)
  place_lem other false false f d e u v apart =
      let both = addr_lem u v f in (λ h. ap at_addr (both.0 h), λ h. both.1 cc)

  nested :
      (x y s : Bool)
      → (if x && y && s then equal else conflict)
        ≡ (if x && y then (if s then equal else conflict) else conflict)
  nested true true s = refl
  nested true false s = refl
  nested false y s = refl

  conflict≢equal : conflict ≢ equal
  conflict≢equal e = cc

  nomatch≢equal : nomatch ≢ equal
  nomatch≢equal e = cc

  device_lem :
      (a b : PortCfg) (m n : Net) → Decides (compare_device strcmp a b m n) (place a m ≡ place b n)
  device_lem a b m n = rw (nested a.flag_device b.flag_device (same_devices strcmp a b)) (
      place_lem conflict a.flag_device b.flag_device (a.flag_any || b.flag_any)
        (or_empty (svz_portcfg_device a)) (or_empty (svz_portcfg_device b)) m.s_addr n.s_addr
        conflict≢equal)

  port_lem :
      (a b : PortCfg) (m n : Net)
      → Decides (compare_port strcmp a b m n) ((m.sin_port ≡ n.sin_port) × (place a m ≡ place b n))
  port_lem a b m n = elim (==_cases m.sin_port n.sin_port) [
    | inl (e, same) ↦
        let both =
          place_lem nomatch a.flag_device b.flag_device (a.flag_any || b.flag_any)
            (or_empty (svz_portcfg_device a)) (or_empty (svz_portcfg_device b)) m.s_addr n.s_addr
            nomatch≢equal in
        rw e (λ h. (same, both.0 h), λ h. both.1 h.1)
    | inr (e, differ) ↦ rw e (λ h. cc, λ h. absurd (differ h.0))
  ]

  -- Only a pipe has the key of a pipe.
  abbrev OnlyPipe : Option Key → Type 0
  OnlyPipe none = Unit
  OnlyPipe (some (tcp_key n p)) = ⊥
  OnlyPipe (some (udp_key n p)) = ⊥
  OnlyPipe (some (icmp_key n p)) = ⊥
  OnlyPipe (some (raw_key p)) = ⊥
  OnlyPipe (some (pipe_key r s)) = Unit

  file_pipe : (r s : Option (List ℕ)) → OnlyPipe (file_key r s)
  file_pipe none s = tt
  file_pipe (some r) none = tt
  file_pipe (some r) (some s) = tt

  apart_file : (o : Option Key) (r s : Option (List ℕ)) → ¬ OnlyPipe o → ¬ SameKey o (file_key r s)
  apart_file o r s other (k, e, f) = other (subst OnlyPipe (f ∙ sym e) (file_pipe r s))

  file_apart : (o : Option Key) (r s : Option (List ℕ)) → ¬ OnlyPipe o → ¬ SameKey (file_key r s) o
  file_apart o r s other (k, e, f) = other (subst OnlyPipe (e ∙ sym f) (file_pipe r s))

  abbrev Finds : PortCfg → PortCfg → Protocol → Protocol → Type 0
  Finds a b p q =
      Decides (equal_protocols strcmp a b p q) (SameKey (protocol_key a p) (protocol_key b q))

  files_lem :
      (r s u v : Option (List ℕ))
      → Decides
          (compare_names strcmp r u (compare_names strcmp s v equal))
          (SameKey (file_key r s) (file_key u v))
  files_lem none s u v = (λ e. cc, λ w. let (x, e, f) = w in cc)
  files_lem (some a) s none v = (λ e. cc, λ w. let (x, e, f) = w in cc)
  files_lem (some a) none (some b) v = elim (Bool-cases (strcmp a b)) [
    | inl h ↦ rw h (λ e. cc, λ w. let (x, e, f) = w in cc)
    | inr h ↦ rw h (λ e. cc, λ w. let (x, e, f) = w in cc)
  ]
  files_lem (some a) (some c) (some b) none = elim (Bool-cases (strcmp a b)) [
    | inl h ↦ rw h (λ e. cc, λ w. let (x, e, f) = w in cc)
    | inr h ↦ rw h (λ e. cc, λ w. let (x, e, f) = w in cc)
  ]
  files_lem (some a) (some c) (some b) (some d) = elim (Bool-cases (strcmp a b)) [
    | inr h ↦
        rw h (λ e. cc, λ w. let (x, e, f) = w in absurd (false≢true (sym h ∙ (decides a b).1 cc)))
    | inl h ↦ elim (Bool-cases (strcmp c d)) [
      | inl k ↦
          rw (h, k)
            (λ _. (pipe_key a c, refl, rw ((decides a b).0 h, (decides c d).0 k) refl), λ _. refl)
      | inr k ↦
          rw (h, k)
            (λ e. cc, λ w. let (x, e, f) = w in absurd (false≢true (sym k ∙ (decides c d).1 cc)))
    ]
  ]

  protocols_lem : (a b : PortCfg) (p q : Protocol) → Finds a b p q
  unfolding equal_protocols
  protocols_lem a b unset q = (λ e. cc, λ h. let (k, e, f) = h in cc)
  protocols_lem a b (tcp p m k) q = elim q as (λ u. Finds a b (tcp p m k) u) [
    | tcp x n y ↦ (
      λ e.
          let (f, g) = (port_lem a b m n).0 e in
          (tcp_key m.sin_port (place a m), refl, rw (f, g) refl),
      λ h. let (k, e, f) = h in (port_lem a b m n).1 (cc, cc),
    )
    | pipe u v ↦ (λ e. cc, λ h. absurd (apart_file _ u.name v.name (λ t. t) h))
    | _ ↦ (λ e. cc, λ h. let (k, e, f) = h in cc)
  ]
  protocols_lem a b (udp p m) q = elim q as (λ u. Finds a b (udp p m) u) [
    | udp x n ↦ (
      λ e.
          let (f, g) = (port_lem a b m n).0 e in
          (udp_key m.sin_port (place a m), refl, rw (f, g) refl),
      λ h. let (k, e, f) = h in (port_lem a b m n).1 (cc, cc),
    )
    | pipe u v ↦ (λ e. cc, λ h. absurd (apart_file _ u.name v.name (λ t. t) h))
    | _ ↦ (λ e. cc, λ h. let (k, e, f) = h in cc)
  ]
  protocols_lem a b (icmp m t) q = elim q as (λ u. Finds a b (icmp m t) u) [
    | icmp n u ↦ elim (==_cases t u) [
      | inl (g, same) ↦ rw g (
        λ e. (icmp_key t (place a m), refl, rw (same, (device_lem a b m n).0 e) refl),
        λ h. let (k, e, f) = h in (device_lem a b m n).1 cc,
      )
      | inr (g, differ) ↦ rw g (λ e. cc, λ h. let (k, e, f) = h in absurd (differ cc))
    ]
    | pipe u v ↦ (λ e. cc, λ h. absurd (apart_file _ u.name v.name (λ t. t) h))
    | _ ↦ (λ e. cc, λ h. let (k, e, f) = h in cc)
  ]
  protocols_lem a b (raw m) q = elim q as (λ u. Finds a b (raw m) u) [
    | raw n ↦ (
      λ e. (raw_key (place a m), refl, rw ((device_lem a b m n).0 e) refl),
      λ h. let (k, e, f) = h in (device_lem a b m n).1 cc,
    )
    | pipe u v ↦ (λ e. cc, λ h. absurd (apart_file _ u.name v.name (λ t. t) h))
    | _ ↦ (λ e. cc, λ h. let (k, e, f) = h in cc)
  ]
  protocols_lem a b (pipe r s) q = elim q as (λ u. Finds a b (pipe r s) u) [
    | pipe u v ↦ files_lem r.name s.name u.name v.name
    | unset ↦ (λ e. cc, λ h. let (k, e, f) = h in cc)
    | tcp x n y ↦ (λ e. cc, λ h. absurd (file_apart _ r.name s.name (λ t. t) h))
    | udp x n ↦ (λ e. cc, λ h. absurd (file_apart _ r.name s.name (λ t. t) h))
    | icmp n x ↦ (λ e. cc, λ h. absurd (file_apart _ r.name s.name (λ t. t) h))
    | raw n ↦ (λ e. cc, λ h. absurd (file_apart _ r.name s.name (λ t. t) h))
  ]

  -- Where `strcmp` decides equality: `svz_portcfg_equal` finds two port configurations equal exactly
  -- if they have the same protocol, the same port number or type, and the same place, which is the
  -- device where the flag for it is set and the address where it is not; for pipes, the same files. So
  -- a configuration without a protocol, and a pipe without the name of a file, is equal to none, not
  -- even to itself, which the comment at the function leaves out.
  pub portcfg_equal_iff :
      (a b : PortCfg) → (svz_portcfg_equal strcmp a b ≡ equal) ↔ SameKey (key a) (key b)
  unfolding svz_portcfg_equal
  portcfg_equal_iff a b = protocols_lem a b a.protocol b.protocol
