-- ===== src/Core/Shutdown.antt =====
-- server-core.c: shutting sockets down, at the end of `svz_loop_one` and in `svz_loop_post`. The
-- callback `disconnected_socket` is a parameter; closing descriptors and freeing memory are left out.
use mathlib.Core.Path.{subst}
use mathlib.Core.List.{append_assoc}
use serveez.Base.{
  Bool, Bool-cases, List, Option, [], ap, arith, if◌then◌else◌, inl, inr, length, none, refl, some,
  suc, sym, true, zero, ℕ, ◌++◌, ◌<◌, ◌∙◌, ◌∷◌, ◌≡◌,
}
use serveez.Chain.{head_or}
use serveez.Chain.Segment.{Segment-cut}
use serveez.Core.{Socks, dequeue}
use serveez.Core.Dequeue.{dequeue-removed}
use serveez.Core.Valid.{IsValid}

module _ (usable : ℕ → Bool) (disconnected_socket : Socks → ℕ → Socks) where
  unfoldable pub svz_sock_shutdown : Socks → ℕ → Socks
  svz_sock_shutdown s x = (dequeue usable (disconnected_socket s x) x).1

  -- The loop over the list, whose next socket is read before one is shut down; `none` without enough
  -- fuel.
  unfoldable pub close_killed : ℕ → Socks → Option ℕ → Option Socks
  close_killed zero s cur = none
  close_killed (suc fuel) s none = some s
  close_killed (suc fuel) s (some x) =
      close_killed fuel (if s.killed x then svz_sock_shutdown s x else s) (s.links.next x)

  -- The loop of `svz_loop_post`.
  unfoldable pub close_all : ℕ → Socks → Option Socks
  close_all zero s = none
  close_all (suc fuel) s = elim s.links.first [
    | none ↦ some (record s { links = record s.links { last = none } })
    | some x ↦ close_all fuel (svz_sock_shutdown s x)
  ]

-- The sockets that are not killed.
abbrev pub survivors : (ℕ → Bool) → List ℕ → List ℕ
survivors killed [] = []
survivors killed (x ∷ xs) = if killed x then survivors killed xs else x ∷ survivors killed xs

module _ (usable : ℕ → Bool) (disconnected_socket : Socks → ℕ → Socks)
    (all_usable : (x : ℕ) → usable x ≡ true)
    (keeps : (s : Socks) (x : ℕ) (ids : List ℕ)
      → IsValid s ids
      → IsValid (disconnected_socket s x) ids × ((disconnected_socket s x).killed ≡ s.killed)) where
  shutdown_lem :
      (s : Socks) (x : ℕ) (xs ys : List ℕ)
      → IsValid s (xs ++ x ∷ ys)
      → IsValid (svz_sock_shutdown usable disconnected_socket s x) (xs ++ ys)
        × ((svz_sock_shutdown usable disconnected_socket s x).killed ≡ s.killed)
  unfolding svz_sock_shutdown
  shutdown_lem s x xs ys v =
      let (w, same) = keeps s x (xs ++ x ∷ ys) v in
      let (r, kept) = dequeue-removed usable (disconnected_socket s x) x xs ys w (all_usable x) in
      (r, kept ∙ same)

  close_lem :
      (fuel : ℕ) (s : Socks) (xs ys : List ℕ)
      → IsValid s (xs ++ ys)
      → length ys < fuel
      → (r : Socks) × (close_killed usable disconnected_socket fuel s (head_or ys none) ≡ some r)
        × IsValid r (xs ++ survivors s.killed ys)
  unfolding close_killed
  close_lem zero s xs ys v le = absurd (omega (arith, le))
  close_lem (suc fuel) s xs [] v le = (s, refl, v)
  close_lem (suc fuel) s xs (y ∷ ys) v le =
      let (_, (next, _, _)) =
        Segment-cut s.links.next s.links.prev none xs (y ∷ ys) none v.chain.linked in
      elim (Bool-cases (s.killed y)) [
        | inl dead ↦
            let t = svz_sock_shutdown usable disconnected_socket s y in
            let (w, same) = shutdown_lem s y xs ys v in
            let (r, e, u) = close_lem fuel t xs ys w (omega (arith, le)) in
            (
              r,
              rw dead (ap (close_killed usable disconnected_socket fuel t) next ∙ e),
              rw dead (subst (λ k. IsValid r (xs ++ survivors k ys)) same u),
            )
        | inr alive ↦
            let w : IsValid s ((xs ++ y ∷ []) ++ ys) =
              subst (IsValid s) (sym (append_assoc xs (y ∷ []) ys)) v in
            let (r, e, u) = close_lem fuel s (xs ++ y ∷ []) ys w (omega (arith, le)) in
            (
              r,
              rw alive (ap (close_killed usable disconnected_socket fuel s) next ∙ e),
              rw alive (subst (IsValid r) (append_assoc xs (y ∷ []) (survivors s.killed ys)) u),
            )
      ]

  all_step :
      (fuel : ℕ) (s : Socks) (o : Option ℕ)
      → s.links.first ≡ o
      → close_all usable disconnected_socket (suc fuel) s ≡ (elim o [
        | none ↦ some (record s { links = record s.links { last = none } })
        | some x ↦
            close_all usable disconnected_socket fuel
              (svz_sock_shutdown usable disconnected_socket s x)
      ])
  unfolding close_all
  all_step fuel s o e =
      ap
        (λ p. elim p [
          | none ↦ some (record s { links = record s.links { last = none } })
          | some x ↦
              close_all usable disconnected_socket fuel
                (svz_sock_shutdown usable disconnected_socket s x)
        ])
        e

  all_lem :
      (fuel : ℕ) (s : Socks) (ids : List ℕ)
      → IsValid s ids
      → length ids < fuel
      → (r : Socks) × (close_all usable disconnected_socket fuel s ≡ some r) × IsValid r []
  all_lem zero s ids v le = absurd (omega (arith, le))
  all_lem (suc fuel) s [] v le = (
    record s { links = record s.links { last = none } },
    all_step fuel s none v.chain.starts,
    record {
      chain = record { starts = v.chain.starts; ends = refl; linked = tt; distinct = tt };
      width = v.width;
      found = tt;
      listed = v.listed;
      owned = v.owned;
    },
  )
  all_lem (suc fuel) s (x ∷ ids) v le =
      let (w, _) = shutdown_lem s x [] ids v in
      let (r, e, u) =
        all_lem fuel (svz_sock_shutdown usable disconnected_socket s x) ids w (omega (arith, le)) in
      (r, all_step fuel s (some x) v.chain.starts ∙ e, u)

  -- For sockets with usable descriptors and callbacks that keep the sockets valid and mark none: the
  -- loop at the end of `svz_loop_one` ends, and exactly the sockets that are not killed stay, in their
  -- order; and the loop of `svz_loop_post` ends with no socket left.
  pub close_killed-survivors :
      (fuel : ℕ) (s : Socks) (ids : List ℕ)
      → IsValid s ids
      → length ids < fuel
      → ((r : Socks) × (close_killed usable disconnected_socket fuel s s.links.first ≡ some r)
          × IsValid r (survivors s.killed ids))
        × ((r : Socks) × (close_all usable disconnected_socket fuel s ≡ some r) × IsValid r [])
  close_killed-survivors fuel s ids v le =
      let (r, e, u) = close_lem fuel s [] ids v le in
      (
        (r, ap (close_killed usable disconnected_socket fuel s) v.chain.starts ∙ e, u),
        all_lem fuel s ids v le,
      )
