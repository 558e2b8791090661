-- ===== src/Cache/Evict.antt =====
-- http-cache.c: which entry `http_init_cache` gives up.
use mathlib.Core.Option
use mathlib.Core.Path.{subst}
use mathlib.Core.List.{append_assoc, append-nil}
use serveez.Base.{
  All, Bool, Bool-cases, List, Option, [], ap, arith, false, inl, inr, length, length-append,
  ltb_cases, none, refl, some, suc, sym, true, zero, ℕ, ◌++◌, ◌+◌, ◌<◌, ◌∙◌, ◌∷◌, ◌≡◌, ◌≤◌, ◌⊎◌,
}
use serveez.Cache.{
  CacheReader, HttpCache, Names, find_unused, http_cache_destroy_entry, http_cache_reset,
  http_init_cache, insert_entry, reuse, unused,
}
use serveez.Chain.{Absent, IsChain, Segment, last_or}
use serveez.Chain.Push.{push_front-IsChain}
use serveez.Chain.Segment.{Absent-append, Absent-join, Segment-cut, assign_self, last_or-append}
use serveez.Chain.Unlink.{close_prev_next-IsChain}

-- A list is empty or has a last element.
snoc_cases : (xs : List ℕ) → (xs ≡ []) ⊎ ((zs : List ℕ) × (e : ℕ) × (xs ≡ zs ++ e ∷ []))
snoc_cases [] = inl refl
snoc_cases (x ∷ xs) = elim (snoc_cases xs) [
  | inl e ↦ inr ([], x, ap (λ l. x ∷ l) e)
  | inr (zs, e, q) ↦ inr (x ∷ zs, e, ap (λ l. x ∷ l) q)
]

module _ {T : Type 0} where
  abbrev pub AllInUse : HttpCache T → List ℕ → Type 0
  AllInUse c ids = All (λ e. unused c e ≡ false) ids

  -- Where the search ends.
  abbrev SearchEnd : HttpCache T → Option (Option ℕ) → List ℕ → Type 0
  SearchEnd c found ids =
      ((found ≡ some none) × AllInUse c ids)
      ⊎ ((xs : List ℕ) × (e : ℕ) × (ys : List ℕ) × (ids ≡ xs ++ e ∷ ys)
          × (found ≡ some (some e))
          × (unused c e ≡ true)
          × AllInUse c ys)

  search_end :
      (c : HttpCache T) (fuel : ℕ) (xs ys : List ℕ)
      → Segment c.links.next c.links.prev none (xs ++ ys) none
      → AllInUse c ys
      → length xs < fuel
      → SearchEnd c (find_unused c fuel (last_or none xs)) (xs ++ ys)
  unfolding find_unused
  search_end c zero xs ys s busy le = absurd (omega (arith, le))
  search_end c (suc fuel) xs ys s busy le = elim (snoc_cases xs) [
    | inl e ↦ rw e (inl (refl, busy))
    | inr (zs, e, q) ↦
        let whole : xs ++ ys ≡ zs ++ e ∷ ys = ap (λ l. l ++ ys) q ∙ append_assoc zs (e ∷ []) ys in
        let s2 = subst (λ l. Segment c.links.next c.links.prev none l none) whole s in
        let (_, (_, before, _)) = Segment-cut c.links.next c.links.prev none zs (e ∷ ys) none s2 in
        let last : last_or none xs ≡ some e =
          ap (last_or none) q ∙ last_or-append none zs (e ∷ []) in
        let size : length xs ≡ length zs + 1 = ap length q ∙ length-append zs (e ∷ []) in
        rw (whole, last)
          (elim (Bool-cases (unused c e)) [
            | inl free ↦ inr (zs, e, ys, refl, rw (free, find_unused) refl, free, busy)
            | inr used ↦
                let step : find_unused c (suc fuel) (some e)
                    ≡ find_unused c fuel (last_or none zs) =
                  rw (used, find_unused) (ap (find_unused c fuel) before) in
                rw step (search_end c fuel zs (e ∷ ys) s2 (used, busy) (omega (arith, le, size)))
          ])
  ]

module _ {T : Type 0} (table : Names T) where
  -- A valid list with the new entry in front, which the reader fills.
  abbrev pub Starts : List ℕ → ℕ → Option (Bool × HttpCache T × CacheReader) → List ℕ → Type 0
  Starts file slot r rest =
      (d : HttpCache T) × (reader : CacheReader) × (r ≡ some (false, d, reader))
      × IsChain d.links (slot ∷ rest)
      × (d.file slot ≡ file)
      × (d.ready slot ≡ false)
      × (reader.entry ≡ some slot)

  inserted :
      (file : List ℕ) (slot : ℕ) (c : HttpCache T) (r : CacheReader) (ids : List ℕ)
      → IsChain c.links ids
      → Absent slot ids
      → Starts file slot
          (some (false, (insert_entry table file slot c r).0, (insert_entry table file slot c r).1))
          ids
  unfolding insert_entry
  inserted file slot c r ids h away = (
    _,
    _,
    refl,
    push_front-IsChain c.links ids slot h away,
    assign_self c.file slot file,
    assign_self c.ready slot false,
    refl,
  )

  destroyed :
      (c : HttpCache T) (xs : List ℕ) (e : ℕ) (ys : List ℕ)
      → IsChain c.links (xs ++ e ∷ ys)
      → IsChain (http_cache_destroy_entry table c e).links (xs ++ ys)
  unfolding http_cache_destroy_entry
  destroyed c xs e ys h = close_prev_next-IsChain c.links xs e ys h

  -- What `http_init_cache` does on a list of entries.
  abbrev pub Inits : ℕ → List ℕ → ℕ → HttpCache T → CacheReader → List ℕ → Type 0
  Inits fuel file slot c r ids =
      (Starts file slot (http_init_cache table fuel file slot c r) ids
        × (table.svz_hash_size c.names < c.entries))
      ⊎ ((c.entries ≤ table.svz_hash_size c.names)
          × ((AllInUse c ids
                × (http_init_cache table fuel file slot c r ≡ some (true, c, http_cache_reset r)))
              ⊎ ((xs : List ℕ) × (e : ℕ) × (ys : List ℕ) × (ids ≡ xs ++ e ∷ ys)
                  × (unused c e ≡ true)
                  × AllInUse c ys
                  × Starts file slot (http_init_cache table fuel file slot c r) (xs ++ ys))))

  -- `http_init_cache` ends with enough fuel, for a pointer `slot` that no entry of the list has. Below
  -- the limit it puts the new entry in front of the others. At the limit, the new entry goes to the
  -- front and the last of the entries that are not in use goes out, with the others in their order;
  -- if all are in use, the return value is -1 and the cache is unchanged.
  pub init_cache-IsChain :
      (fuel : ℕ) (file : List ℕ) (slot : ℕ) (c : HttpCache T) (r : CacheReader) (ids : List ℕ)
      → IsChain c.links ids
      → Absent slot ids
      → length ids < fuel
      → Inits fuel file slot c r ids
  unfolding http_init_cache
  init_cache-IsChain fuel file slot c r ids h away le =
      elim (ltb_cases (table.svz_hash_size c.names) c.entries) [
        | inl (e, room) ↦ inl (rw e (inserted file slot c r ids h away), room)
        | inr (e, full) ↦
            let s : Segment c.links.next c.links.prev none (ids ++ []) none =
              rw (append-nil ids) h.linked in
            let step : (o : Option ℕ)
                → find_unused c fuel (last_or none ids) ≡ some o
                → http_init_cache table fuel file slot c r ≡ some (reuse table file slot c r o) =
              λ o f.
                unfold http_init_cache in
                rw e (
                  ap (Option.map (reuse table file slot c r))
                    (ap (find_unused c fuel) h.ends ∙ f)) in
            inr (
              full,
              elim (search_end c fuel ids [] s tt le) [
                | inl (f, busy) ↦ inl (subst (AllInUse c) (append-nil ids) busy, step none f)
                | inr (xs, e, ys, q, f, free, busy) ↦
                    let whole : ids ≡ xs ++ e ∷ ys = sym (append-nil ids) ∙ q in
                    let g : IsChain c.links (xs ++ e ∷ ys) = subst (IsChain c.links) whole h in
                    let (in_xs, in_rest) =
                      Absent-append slot xs (e ∷ ys) (subst (Absent slot) whole away) in
                    let d = http_cache_destroy_entry table c e in
                    inr (
                      xs,
                      e,
                      ys,
                      whole,
                      free,
                      busy,
                      rw (step (some e) f) (
                          inserted file slot d r (xs ++ ys) (destroyed c xs e ys g)
                            (Absent-join slot xs ys in_xs in_rest.1)),
                    )
              ],
            )
      ]
