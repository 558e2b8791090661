-- ===== src/Array/Invariant.antt =====
-- array.c: the representation invariant, and that no access leaves the allocated cells.
use serveez.Base.{
  List, arith, drop, inl, inr, length, length-append, length-drop, length-replicate, length-take,
  ltb_cases, replicate, take, ℕ, ◌*◌, ◌++◌, ◌+◌, ◌<◌, ◌^◌, ◌≡◌, ◌≤◌, ◌⊎◌,
}
use serveez.Array.{SvzArray, grown, memmove, realloc, reserve}

-- The cells are the capacity, the elements fit, and the capacity in bytes is far from
-- wrapping: 2 ^ 60 pointers are more than an address space holds.
pub record IsValid {ℓ} {A : Type ℓ} (a : SvzArray A) : Type 0 where
  pub allocated : length a.cells ≡ a.capacity
  pub fits : a.size ≤ a.capacity
  pub small : a.capacity < 2 ^ 60
  pub roomy : 0 < a.capacity

-- Without a wrap the new capacity is larger by at least one, and at most doubles and one more.
pub grown_bounds : (c : ℕ) → c < 2 ^ 60 → (c < grown c) × (grown c ≤ 2 * c + 1) × (grown c < 2 ^ 61)
unfolding grown
grown_bounds c h = omega arith

module _ {ℓ} {A : Type ℓ} where
  pub length-realloc : (junk : A) (xs : List A) (n : ℕ) → length (realloc junk xs n) ≡ n
  length-realloc junk xs n = omega (
    arith,
    length-take n (xs ++ replicate n junk),
    length-append xs (replicate n junk),
    length-replicate n junk,
  )

  pub length-memmove :
      (xs : List A) (dst src n : ℕ)
      → dst + n ≤ length xs
      → src + n ≤ length xs
      → length (memmove xs dst src n) ≡ length xs
  length-memmove xs dst src n h k = omega (
    arith,
    length-append (take dst xs) (take n (drop src xs) ++ drop (dst + n) xs),
    length-append (take n (drop src xs)) (drop (dst + n) xs),
    length-take dst xs,
    length-take n (drop src xs),
    length-drop src xs,
    length-drop (dst + n) xs,
  )

  pub reserve_shape :
      (junk : A) (a : SvzArray A) (n : ℕ)
      → IsValid a
      → n ≤ a.size + 1
      → (length (reserve junk a n).cells ≡ (reserve junk a n).capacity)
        × (n ≤ (reserve junk a n).capacity)
        × (a.capacity ≤ (reserve junk a n).capacity)
        × (((reserve junk a n).capacity ≤ a.capacity)
            ⊎ ((reserve junk a n).capacity ≤ 2 * a.size + 1))
  unfolding reserve
  reserve_shape junk a n v h = elim (ltb_cases a.capacity n) [
    | inl (e, lt) ↦
        let b = grown_bounds a.capacity v.small in
        rw e (
          length-realloc junk a.cells (grown a.capacity),
          omega (arith, b, v.fits),
          omega (arith, b),
          inr (omega (arith, b.1, v.fits)),
        )
    | inr (e, le) ↦ rw e (v.allocated, ground arith, omega arith, inl (omega arith))
  ]
