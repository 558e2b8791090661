-- ===== src/Array/Purge.antt =====
-- libserveez/socket.c, `svz_sock_prefree`: the list of callbacks that run before a socket is
-- freed. A callback is any value, `same` is the comparison of two pointers, and the loop over
-- the indices runs on fuel, `none` if it is used up.
use mathlib.Core.List.{append_assoc}
use mathlib.Core.Path.{subst}
use serveez.Base.{
  Bool, Bool-cases, List, Option, [], ap, arith, erase_idx, erase_idx-append_mid, false, get_or,
  get_or-append_mid, if◌then◌else◌, inl, inr, length, length-append, ltb, lt→ltb, none, refl, some,
  suc, sym, true, zero, ℕ, ◌++◌, ◌+◌, ◌-◌, ◌<◌, ◌^◌, ◌∙◌, ◌∷◌, ◌≡◌,
}
use serveez.Array.{
  Handle, SvzArray, size_t, svz_array_add, svz_array_create, svz_array_del, svz_array_get,
  svz_array_size,
}
use serveez.Array.Invariant.{IsValid}
use serveez.Array.Refine.Delete.{del-Shows}
use serveez.Array.Refine.Ops.{Shows, add-Shows, contents, get_lem, length-contents}

module _ {ℓ} {F : Type ℓ} (null junk : F) (same : F → F → Bool) where
  -- The subtracting loop from index `i` on. After a removal `i--` and `i++` cancel, also where
  -- `i` is 0 and the decrement wraps.
  pub prefree_loop : ℕ → F → Handle F → ℕ → Option (Handle F)
  prefree_loop zero fn h i = none
  prefree_loop (suc fuel) fn h i = elim (ltb i (svz_array_size h)) [
    | false ↦ some h
    | true ↦ elim (same fn (svz_array_get null h i)) [
      | true ↦
          prefree_loop fuel fn (svz_array_del null h i).1 (size_t (size_t (i + (2 ^ 64 - 1)) + 1))
      | false ↦ prefree_loop fuel fn h (size_t (i + 1))
    ]
  ]

  -- The static array is created by the first call.
  abbrev pub prefree_array : Handle F → Handle F
  prefree_array none = some (svz_array_create junk 1 false)
  prefree_array (some a) = some a

  pub svz_sock_prefree : ℕ → Bool → F → Handle F → Option (Handle F)
  svz_sock_prefree fuel addsub fn prefree =
      let h = prefree_array prefree in
      if addsub then some (svz_array_add junk h fn) else prefree_loop fuel fn h 0

  -- The callbacks that are left.
  abbrev pub without : F → List F → List F
  without fn [] = []
  without fn (x ∷ xs) = if same fn x then without fn xs else x ∷ without fn xs

  prefree_loop_lem :
      (fuel : ℕ) (fn : F) (front rest : List F) (a : SvzArray F)
      → length rest < fuel
      → length front + length rest < 2 ^ 60
      → IsValid a
      → contents a ≡ front ++ rest
      → (r : Handle F) × (prefree_loop fuel fn (some a) (length front) ≡ some r)
        × Shows r (front ++ without fn rest)
  unfolding prefree_loop svz_array_size
  prefree_loop_lem zero fn front rest a few small v same_list = absurd (omega arith)
  prefree_loop_lem (suc fuel) fn front [] a few small v same_list =
      let size : a.size ≡ length front =
        omega (arith, length-contents a v, ap length same_list, length-append front []) in
      let stop : ltb (length front) a.size ≡ false = ground arith in
      (some a, rw (stop, prefree_loop), (a, refl, v, same_list))
  prefree_loop_lem (suc fuel) fn front (x ∷ rest) a few small v same_list =
      let size : a.size ≡ length front + suc (length rest) =
        omega (arith, length-contents a v, ap length same_list, length-append front (x ∷ rest)) in
      let more : ltb (length front) a.size ≡ true = lt→ltb _ _ (omega arith) in
      let read : svz_array_get null (some a) (length front) ≡ x =
        get_lem null a (length front) v
        ∙ ap (λ l. get_or l (length front) null) same_list
        ∙ get_or-append_mid front rest x null in
      elim (Bool-cases (same fn x)) [
        | inl hit ↦
            let back : size_t (size_t (length front + (2 ^ 64 - 1)) + 1) ≡ length front =
              omega arith in
            let (b, deleted, w, same_b) = (del-Shows null a (length front) v).1 in
            rw (more, read, hit, back, deleted, prefree_loop)
              (prefree_loop_lem fuel fn front rest b (omega arith) (omega arith) w (
                same_b
                ∙ ap (λ l. erase_idx l (length front)) same_list
                ∙ erase_idx-append_mid front rest x))
        | inr miss ↦
            let on : size_t (length front + 1) ≡ length (front ++ (x ∷ [])) =
              omega (arith, length-append front (x ∷ [])) in
            rw (more, read, miss, on, prefree_loop)
              (rw (← append_assoc front (x ∷ []) (without fn rest)) (
                prefree_loop_lem fuel fn (front ++ (x ∷ [])) rest a (omega arith)
                  (omega (arith, length-append front (x ∷ []))) v
                  (same_list ∙ sym (append_assoc front (x ∷ []) rest))))
      ]

  -- Subtracting a callback leaves the others, in order, for a list of fewer callbacks than the
  -- fuel; adding one appends it. The first call creates the list.
  pub svz_sock_prefree_lem :
      (fuel : ℕ) (fn : F) (prefree : Handle F) (l : List F)
      → length l < fuel
      → length l < 2 ^ 58
      → Shows (prefree_array prefree) l
      → ((r : Handle F) × (svz_sock_prefree fuel false fn prefree ≡ some r)
          × Shows r (without fn l))
        × ((r : Handle F) × (svz_sock_prefree fuel true fn prefree ≡ some r)
            × Shows r (l ++ (fn ∷ [])))
  unfolding svz_sock_prefree
  svz_sock_prefree_lem fuel fn prefree l few small (a, made, v, same_list) = rw made (
    prefree_loop_lem fuel fn [] l a few (omega arith) v same_list,
    (
      _,
      refl,
      subst (λ k. Shows (svz_array_add junk (some a) fn) (k ++ (fn ∷ []))) same_list
          (add-Shows junk a fn v (omega (arith, length-contents a v, ap length same_list))),
    ),
  )
