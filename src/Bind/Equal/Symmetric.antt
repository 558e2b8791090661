-- ===== src/Bind/Equal/Symmetric.antt =====
-- portcfg.c: `svz_portcfg_equal` does not depend on the order of its arguments.
use serveez.Base.{
  Bool, List, Option, ap, arith, false, none, refl, some, true, ℕ, ◌&&◌, ◌==◌, ◌||◌, ◌∙◌, ◌≡◌,
}
use serveez.Bind.{Net, PortCfg, Protocol, icmp, pipe, raw, svz_portcfg_device, tcp, udp, unset}
use serveez.Bind.Equal.{
  Match, compare_addr, compare_device, compare_names, compare_port, equal, equal_protocols,
  or_empty, svz_portcfg_equal,
}

==_sym : (m n : ℕ) → (m == n) ≡ (n == m)
==_sym m n = ground arith

||_sym : (a b : Bool) → (a || b) ≡ (b || a)
||_sym true true = refl
||_sym true false = refl
||_sym false true = refl
||_sym false false = refl

&&_sym : (a b : Bool) → (a && b) ≡ (b && a)
&&_sym true true = refl
&&_sym true false = refl
&&_sym false true = refl
&&_sym false false = refl

addr_sym : (a b : PortCfg) (m n : Net) → compare_addr a b m n ≡ compare_addr b a n m
addr_sym a b m n = rw (==_sym m.s_addr n.s_addr, ||_sym a.flag_any b.flag_any) refl

module _ (strcmp : List ℕ → List ℕ → Bool)
    (symmetric : (a b : List ℕ) → strcmp a b ≡ strcmp b a) where
  port_sym : (a b : PortCfg) (m n : Net) → compare_port strcmp a b m n ≡ compare_port strcmp b a n m
  port_sym a b m n =
      rw
        (
          ==_sym m.sin_port n.sin_port,
          ||_sym a.flag_device b.flag_device,
          &&_sym a.flag_device b.flag_device,
          symmetric (or_empty (svz_portcfg_device a)) (or_empty (svz_portcfg_device b)),
          addr_sym a b m n,
        )
        refl

  device_sym :
      (a b : PortCfg) (m n : Net) → compare_device strcmp a b m n ≡ compare_device strcmp b a n m
  device_sym a b m n =
      rw
        (
          ||_sym a.flag_device b.flag_device,
          symmetric (or_empty (svz_portcfg_device a)) (or_empty (svz_portcfg_device b)),
          &&_sym a.flag_device b.flag_device,
          addr_sym a b m n,
        )
        refl

  names_sym :
      (a b : Option (List ℕ)) (same : Match)
      → compare_names strcmp a b same ≡ compare_names strcmp b a same
  names_sym none none same = refl
  names_sym none (some b) same = refl
  names_sym (some a) none same = refl
  names_sym (some a) (some b) same = rw (symmetric a b) refl

  protocols_sym :
      (a b : PortCfg) (p q : Protocol)
      → equal_protocols strcmp a b p q ≡ equal_protocols strcmp b a q p
  unfolding equal_protocols
  protocols_sym a b unset q =
      elim q as (λ u. equal_protocols strcmp a b unset u ≡ equal_protocols strcmp b a u unset) [
        | unset ↦ refl
        | _ ↦ refl
      ]
  protocols_sym a b (tcp p m k) q =
      elim q
        as (λ u.
          equal_protocols strcmp a b (tcp p m k) u ≡ equal_protocols strcmp b a u (tcp p m k)) [
            | tcp _ n _ ↦ port_sym a b m n
            | _ ↦ refl
          ]
  protocols_sym a b (udp p m) q =
      elim q
        as (λ u. equal_protocols strcmp a b (udp p m) u ≡ equal_protocols strcmp b a u (udp p m)) [
          | udp _ n ↦ port_sym a b m n
          | _ ↦ refl
        ]
  protocols_sym a b (icmp m t) q =
      elim q
        as (λ u.
          equal_protocols strcmp a b (icmp m t) u ≡ equal_protocols strcmp b a u (icmp m t)) [
            | icmp n u ↦ rw (==_sym t u, device_sym a b m n) refl
            | _ ↦ refl
          ]
  protocols_sym a b (raw m) q =
      elim q as (λ u. equal_protocols strcmp a b (raw m) u ≡ equal_protocols strcmp b a u (raw m)) [
        | raw n ↦ device_sym a b m n
        | _ ↦ refl
      ]
  protocols_sym a b (pipe r s) q =
      elim q
        as (λ u.
          equal_protocols strcmp a b (pipe r s) u ≡ equal_protocols strcmp b a u (pipe r s)) [
            | pipe u v ↦
                names_sym r.name u.name (compare_names strcmp s.name v.name equal)
                ∙ ap (λ m. compare_names strcmp u.name r.name m) (names_sym s.name v.name equal)
            | _ ↦ refl
          ]

  pub portcfg_equal_sym :
      (a b : PortCfg) → svz_portcfg_equal strcmp a b ≡ svz_portcfg_equal strcmp b a
  unfolding svz_portcfg_equal
  portcfg_equal_sym a b = protocols_sym a b a.protocol b.protocol
