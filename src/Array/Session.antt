-- ===== src/Array/Session.antt =====
-- A client's calls of array.c in order, on the array and on a list.
use serveez.Base.{
  List, [], ap, arith, erase_idx, get_or, length, length-append, length-erase_idx, length-set, refl,
  set, some, sym, ℕ, ◌++◌, ◌+◌, ◌<◌, ◌^◌, ◌∙◌, ◌∷◌, ◌≡◌, ◌≤◌,
}
use serveez.Array.{
  Handle, SvzArray, svz_array_add, svz_array_del, svz_array_get, svz_array_set, svz_array_size,
}
use serveez.Array.Invariant.{IsValid}
use serveez.Array.Refine.Delete.{del-Shows}
use serveez.Array.Refine.Ops.{Shows, add-Shows, contents, get_lem, length-contents, set-Shows}

-- The calls, and what each returns.
pub data Call {ℓ} (A : Type ℓ) : Type ℓ where
  size_of : Call A
  get : ℕ → Call A
  put : ℕ → A → Call A
  add : A → Call A
  del : ℕ → Call A

pub data Reply {ℓ} (A : Type ℓ) : Type ℓ where
  value : A → Reply A
  count : ℕ → Reply A
  done : Reply A

module _ {ℓ} {A : Type ℓ} (null junk : A) where
  pub array_step : Handle A → Call A → Reply A × Handle A
  array_step h (get i) = (value (svz_array_get null h i), h)
  array_step h size_of = (count (svz_array_size h), h)
  array_step h (put i x) = let r = svz_array_set null h i x in (value r.0, r.1)
  array_step h (add x) = (done, svz_array_add junk h x)
  array_step h (del i) = let r = svz_array_del null h i in (value r.0, r.1)

  pub array_run : Handle A → List (Call A) → List (Reply A)
  array_run h [] = []
  array_run h (c ∷ cs) = let r = array_step h c in r.0 ∷ array_run r.1 cs

  -- The same calls on a list: out of range a read is `null` and a write does nothing.
  pub list_step : List A → Call A → Reply A × List A
  list_step l (get i) = (value (get_or l i null), l)
  list_step l size_of = (count (length l), l)
  list_step l (put i x) = (value (get_or l i null), set l i x)
  list_step l (add x) = (done, l ++ (x ∷ []))
  list_step l (del i) = (value (get_or l i null), erase_idx l i)

  pub list_run : List A → List (Call A) → List (Reply A)
  list_run l [] = []
  list_run l (c ∷ cs) = let r = list_step l c in r.0 ∷ list_run r.1 cs

  list_step-length : (l : List A) (c : Call A) → length (list_step l c).1 ≤ length l + 1
  unfolding list_step
  list_step-length l (get i) = omega arith
  list_step-length l size_of = omega arith
  list_step-length l (put i x) = omega (arith, length-set l i x)
  list_step-length l (add x) = omega (arith, length-append l (x ∷ []))
  list_step-length l (del i) = omega (arith, length-erase_idx l i)

  pub array_step_refines :
      (a : SvzArray A) (c : Call A)
      → IsValid a
      → a.size < 2 ^ 58
      → ((array_step (some a) c).0 ≡ (list_step (contents a) c).0)
        × Shows (array_step (some a) c).1 (list_step (contents a) c).1
  unfolding array_step list_step svz_array_size
  array_step_refines a (get i) v h = (ap value (get_lem null a i v), (a, refl, v, refl))
  array_step_refines a size_of v h = (ap count (sym (length-contents a v)), (a, refl, v, refl))
  array_step_refines a (put i x) v h = let r = set-Shows null a i x v in (ap value r.0, r.1)
  array_step_refines a (add x) v h = (refl, add-Shows junk a x v h)
  array_step_refines a (del i) v h = let r = del-Shows null a i v in (ap value r.0, r.1)

  -- From any valid array, every sequence of calls is answered as the list of its elements
  -- answers it, as long as the array stays below 2 ^ 58 elements.
  pub array_run_refines :
      (a : SvzArray A) (calls : List (Call A))
      → IsValid a
      → a.size + length calls < 2 ^ 58
      → array_run (some a) calls ≡ list_run (contents a) calls
  unfolding array_run list_run
  array_run_refines a [] v h = refl
  array_run_refines a (c ∷ cs) v h =
      let (reply, (b, now, w, same)) = array_step_refines a c v (omega arith) in
      let shorter : b.size + length cs < 2 ^ 58 = omega (
        arith,
        length-contents b w,
        ap length same,
        length-contents a v,
        list_step-length (contents a) c,
      ) in
      rw (reply, now)
        (ap (λ r. (list_step (contents a) c).0 ∷ r)
          (array_run_refines b cs w shorter ∙ ap (λ l. list_run l cs) same))
