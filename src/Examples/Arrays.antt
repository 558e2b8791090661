-- ===== src/Examples/Arrays.antt =====
-- array.c: the theorems at concrete arrays.
use serveez.Base.{[], arith, false, refl, some, true, ℕ, ◌==◌, ◌∷◌, ◌≡◌}
use serveez.Array.{Handle, SvzArray}
use serveez.Array.Invariant.{IsValid}
use serveez.Array.Purge.{svz_sock_prefree, svz_sock_prefree_lem}
use serveez.Array.Refine.Ops.{Shows}
use serveez.Array.Session.{add, array_run, array_run_refines, del, get, list_run}

-- An array of two numbers with room for four.
abbrev pair_array : SvzArray ℕ
pair_array = record { size = 2; capacity = 4; destroy = false; cells = 5 ∷ 6 ∷ 0 ∷ 0 ∷ [] }

pair_array-IsValid : IsValid pair_array
pair_array-IsValid = record {
  allocated = refl;
  fits = omega arith;
  small = omega arith;
  roomy = omega arith;
}

array_run_refines_example :
    array_run 0 99 (some pair_array) (del 0 ∷ add 7 ∷ add 8 ∷ add 9 ∷ get 3 ∷ [])
    ≡ list_run 0 99 (5 ∷ 6 ∷ []) (del 0 ∷ add 7 ∷ add 8 ∷ add 9 ∷ get 3 ∷ [])
array_run_refines_example =
    array_run_refines 0 99 pair_array (del 0 ∷ add 7 ∷ add 8 ∷ add 9 ∷ get 3 ∷ [])
      pair_array-IsValid (omega arith)

svz_sock_prefree_lem_example :
    ((r : Handle ℕ) × (svz_sock_prefree 0 99 (◌==◌) 3 false 5 (some pair_array) ≡ some r)
      × Shows r (6 ∷ []))
    × ((r : Handle ℕ) × (svz_sock_prefree 0 99 (◌==◌) 3 true 5 (some pair_array) ≡ some r)
        × Shows r (5 ∷ 6 ∷ 5 ∷ []))
svz_sock_prefree_lem_example =
    svz_sock_prefree_lem 0 99 (◌==◌) 3 5 (some pair_array) (5 ∷ 6 ∷ []) (omega arith) (omega arith)
      (pair_array, refl, pair_array-IsValid, refl)
