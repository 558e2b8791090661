-- ===== src/Array/Refine/Ops.antt =====
-- array.c against lists: one lemma for each operation of a valid array.
use native.Mathlib.Nat.{add_comm}
use native.Mathlib.Numerals.{add-one}
use serveez.Base.{
  Bool, List, [], ap, arith, get_or, get_or-take, get_or_beyond, inl, inr, leb_cases, length,
  length-replicate, length-set, length-take, ltb_cases, refl, replicate, set, set_beyond, some, sym,
  take, take-append_left, take-set, take-set_end, take-take_le, ℕ, ◌++◌, ◌+◌, ◌<◌, ◌^◌, ◌∙◌, ◌∷◌,
  ◌≡◌, ◌≤◌,
}
use serveez.Array.{
  Handle, SvzArray, grown, realloc, reserve, size_t, svz_array_add, svz_array_create, svz_array_get,
  svz_array_set,
}
use serveez.Array.Invariant.{IsValid, grown_bounds, reserve_shape}

-- The elements that a client sees.
abbrev pub contents {ℓ} : {A : Type ℓ} → SvzArray A → List A
contents a = take a.size a.cells

-- The handle is of a valid array with these elements.
abbrev pub Shows {ℓ} : {A : Type ℓ} → Handle A → List A → Type ℓ
Shows h l = (a : _) × (h ≡ some a) × IsValid a × (contents a ≡ l)

module _ {ℓ} {A : Type ℓ} where
  pub length-contents : (a : SvzArray A) → IsValid a → length (contents a) ≡ a.size
  length-contents a v = omega (arith, length-take a.size a.cells)

  pub create-Shows :
      (junk : A) (n : ℕ) (destroy : Bool)
      → n < 2 ^ 60
      → Shows (some (svz_array_create junk n destroy)) []
  unfolding svz_array_create
  create-Shows junk n destroy h = (
    _,
    refl,
    record {
      allocated = length-replicate _ junk;
      fits = omega arith;
      small = ground arith;
      roomy = ground arith;
    },
    refl,
  )

  pub get_lem :
      (null : A) (a : SvzArray A) (i : ℕ)
      → IsValid a
      → svz_array_get null (some a) i ≡ get_or (contents a) i null
  unfolding svz_array_get
  get_lem null a i v = elim (leb_cases a.size i) [
    | inl (e, le) ↦
        rw e (sym (get_or_beyond (contents a) i null (omega (arith, length-contents a v))))
    | inr (e, lt) ↦ rw e (sym (get_or-take a.size i a.cells null lt))
  ]

  pub set-Shows :
      (null : A) (a : SvzArray A) (i : ℕ) (x : A)
      → IsValid a
      → ((svz_array_set null (some a) i x).0 ≡ get_or (contents a) i null)
        × Shows (svz_array_set null (some a) i x).1 (set (contents a) i x)
  unfolding svz_array_set
  set-Shows null a i x v = elim (leb_cases a.size i) [
    | inl (e, le) ↦
        let beyond : length (contents a) ≤ i = omega (arith, length-contents a v) in
        rw e (
          sym (get_or_beyond (contents a) i null beyond),
          (a, refl, v, sym (set_beyond (contents a) i x beyond)),
        )
    | inr (e, lt) ↦ rw e (
      sym (get_or-take a.size i a.cells null lt),
      (
        _,
        refl,
        record {
          allocated = length-set a.cells i x ∙ v.allocated;
          fits = v.fits;
          small = v.small;
          roomy = v.roomy;
        },
        take-set a.size i a.cells x,
      ),
    )
  ]

  take-realloc :
      (junk : A) (xs : List A) (k n : ℕ)
      → k ≤ length xs
      → k ≤ n
      → take k (realloc junk xs n) ≡ take k xs
  take-realloc junk xs k n h le =
      take-take_le k n (xs ++ replicate n junk) le ∙ take-append_left k xs (replicate n junk) h

  -- Reserving room keeps the elements.
  pub reserve-contents :
      (junk : A) (a : SvzArray A) (n : ℕ)
      → IsValid a
      → take a.size (reserve junk a n).cells ≡ contents a
  unfolding reserve
  reserve-contents junk a n v = elim (ltb_cases a.capacity n) [
    | inl (e, lt) ↦
        let b = grown_bounds a.capacity v.small in
        rw e (
          take-realloc junk a.cells a.size (grown a.capacity) (omega (arith, v.allocated, v.fits))
            (omega (arith, b.0, v.fits)))
    | inr (e, le) ↦ rw e
  ]

  pub add-Shows :
      (junk : A) (a : SvzArray A) (x : A)
      → IsValid a
      → a.size < 2 ^ 58
      → Shows (svz_array_add junk (some a) x) (contents a ++ (x ∷ []))
  unfolding svz_array_add
  add-Shows junk a x v h =
      let b = reserve junk a (1 + a.size) in
      let (cells, room, more, bound) = reserve_shape junk a (1 + a.size) v (omega arith) in
      let size : size_t (1 + a.size) ≡ 1 + a.size = omega arith in
      rw size (
        _,
        refl,
        record {
          allocated = length-set b.cells a.size x ∙ cells;
          fits = room;
          small = omega (arith, v.small);
          roomy = omega (arith, v.roomy);
        },
        ap (λ n. take n (set b.cells a.size x)) (add_comm 1 a.size ∙ add-one a.size)
            ∙ take-set_end a.size b.cells x (omega (arith, cells, room))
            ∙ ap (λ l. l ++ (x ∷ [])) (reserve-contents junk a (1 + a.size) v),
      )
