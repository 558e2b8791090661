-- ===== src/Array/Refine/Delete.antt =====
-- array.c: removal by `memmove`, and copies.
use serveez.Base.{
  ==_cases, List, [], ap, arith, erase_idx, erase_idx_beyond, erase_idx_last, get_or, get_or-take,
  get_or_beyond, inl, inr, leb_cases, length, length-take, refl, some, suc, sym, take,
  take-append_left, take-take, zero, ℕ, ◌+◌, ◌-◌, ◌<◌, ◌∙◌, ◌∷◌, ◌≡◌, ◌≤◌,
}
use serveez.Array.{SvzArray, close_gap, memmove, svz_array_del}
use serveez.Array.Invariant.{IsValid, length-memmove}
use serveez.Array.Refine.Ops.{Shows, contents, length-contents}
use Prim.Native.Nat.sub

module _ {ℓ} {A : Type ℓ} where
  -- Moving the elements behind index `i` down by one removes that element.
  take-memmove :
      (xs : List A) (i n : ℕ)
      → i ≤ n
      → n < length xs
      → take n (memmove xs i (suc i) (n - i)) ≡ erase_idx (take (suc n) xs) i
  take-memmove [] i n h k = absurd (omega arith)
  take-memmove (x ∷ xs) zero n h k =
      rw (sub.zero n)
        (take-append_left n (take n xs) _ (omega (arith, length-take n xs)) ∙ take-take n xs)
  take-memmove (x ∷ xs) (suc i) zero h k = absurd (omega arith)
  take-memmove (x ∷ xs) (suc i) (suc n) h k =
      let less : suc n - suc i ≡ n - i = omega arith in
      let here : suc i + (n - i) ≡ suc (i + (n - i)) = omega arith in
      rw (less, here) (ap (λ l. x ∷ l) (take-memmove xs i n (omega arith) (omega arith)))

  close_gap_shape :
      (a : SvzArray A) (i : ℕ)
      → IsValid a
      → i < a.size
      → (length (close_gap a i) ≡ length a.cells)
        × (take (a.size - 1) (close_gap a i) ≡ erase_idx (contents a) i)
  unfolding close_gap
  close_gap_shape a i v lt =
      let n = a.size - 1 in
      let size : a.size ≡ suc n = omega arith in
      let inside : n < length a.cells = omega (arith, v.allocated, v.fits) in
      elim (==_cases i n) [
        | inl (e, last) ↦ rw e (
          refl,
          sym (
              ap (λ k. erase_idx (take k a.cells) i) size
              ∙ ap (erase_idx (take (suc n) a.cells)) last
              ∙ erase_idx_last n a.cells inside),
        )
        | inr (e, before) ↦
            let next : i + 1 ≡ suc i = omega arith in
            let count : a.size - i - 1 ≡ n - i = omega arith in
            rw (e, next, count)
              (
                length-memmove a.cells i (suc i) (n - i) (omega arith) (omega arith),
                take-memmove a.cells i n (omega arith) inside
                    ∙ ap (λ k. erase_idx (take k a.cells) i) (sym size),
              )
      ]

  pub del-Shows :
      (null : A) (a : SvzArray A) (i : ℕ)
      → IsValid a
      → ((svz_array_del null (some a) i).0 ≡ get_or (contents a) i null)
        × Shows (svz_array_del null (some a) i).1 (erase_idx (contents a) i)
  unfolding svz_array_del
  del-Shows null a i v = elim (leb_cases a.size i) [
    | inl (e, le) ↦
        let beyond : length (contents a) ≤ i = omega (arith, length-contents a v) in
        rw e (
          sym (get_or_beyond (contents a) i null beyond),
          (a, refl, v, sym (erase_idx_beyond (contents a) i beyond)),
        )
    | inr (e, lt) ↦ rw e (
      sym (get_or-take a.size i a.cells null lt),
      (
        _,
        refl,
        record {
          allocated = (close_gap_shape a i v lt).0 ∙ v.allocated;
          fits = omega (arith, v.fits);
          small = v.small;
          roomy = v.roomy;
        },
        (close_gap_shape a i v lt).1,
      ),
    )
  ]
