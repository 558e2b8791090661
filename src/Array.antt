-- ===== src/Array.antt =====
-- libserveez/array.c: dynamic arrays of pointers.
-- A handle is an option, `none` for the NULL pointer. An element is any value of `A`, where
-- `null` is the NULL pointer and `junk` is what freshly allocated memory holds. Allocation does
-- not fail (alloc.c aborts instead). `size_t` additions and products wrap at 2 ^ 64.
pub mod Invariant
pub mod Refine
pub mod Session
pub mod Purge
use serveez.Base.{
  Bool, List, Option, [], drop, get_or, if◌then◌else◌, leb, ltb, map, none, replicate, set, some,
  take, true, ℕ, ◌%◌, ◌*◌, ◌++◌, ◌+◌, ◌-◌, ◌/◌, ◌==◌, ◌^◌,
}

-- `struct svz_array`. The callback `destroy` is only ever compared with NULL and called, so
-- it is a flag here and its calls are a list of arguments.
pub record SvzArray {ℓ} (A : Type ℓ) : Type ℓ where
  pub size : ℕ
  pub capacity : ℕ
  pub destroy : Bool
  pub cells : List A

abbrev pub Handle {ℓ} : Type ℓ → Type ℓ
Handle A = Option (SvzArray A)

-- A `size_t` value of a sum or a product.
abbrev pub size_t : ℕ → ℕ
size_t n = n % 2 ^ 64

-- `capacity * 3 / 2 + 1`
unfoldable pub grown : ℕ → ℕ
grown capacity = size_t (size_t (capacity * 3) / 2 + 1)

module _ {ℓ} {A : Type ℓ} where
  -- `memmove (&data[dst], &data[src], n * sizeof (void *))`
  abbrev pub memmove : List A → ℕ → ℕ → ℕ → List A
  memmove xs dst src n = take dst xs ++ (take n (drop src xs) ++ drop (dst + n) xs)

  -- `svz_realloc` to `n` cells: the old ones as far as they fit, then fresh memory.
  abbrev pub realloc : A → List A → ℕ → List A
  realloc junk xs n = take n (xs ++ replicate n junk)

  unfoldable pub svz_array_create : A → ℕ → Bool → SvzArray A
  svz_array_create junk capacity destroy =
      let n = if capacity == 0 then 4 else capacity in
      record { size = 0; capacity = n; destroy = destroy; cells = replicate n junk }

  -- The values that the callback is run on.
  unfoldable pub svz_array_destroy : Handle A → List A
  svz_array_destroy none = []
  svz_array_destroy (some a) = if a.destroy then take a.size a.cells else []

  unfoldable pub svz_array_get : A → Handle A → ℕ → A
  svz_array_get null none index = null
  svz_array_get null (some a) index = if leb a.size index then null else get_or a.cells index null

  unfoldable pub svz_array_set : A → Handle A → ℕ → A → A × Handle A
  svz_array_set null none index value = (null, none)
  svz_array_set null (some a) index value =
      if leb a.size index
      then (null, some a)
      else (get_or a.cells index null, some (record a { cells = set a.cells index value }))

  -- The array with room for `bigger` elements.
  unfoldable pub reserve : A → SvzArray A → ℕ → SvzArray A
  reserve junk a bigger =
      if ltb a.capacity bigger
      then record a { capacity = grown a.capacity; cells = realloc junk a.cells (grown a.capacity) }
      else a

  unfoldable pub svz_array_add : A → Handle A → A → Handle A
  svz_array_add junk none value = none
  svz_array_add junk (some a) value =
      let bigger = size_t (1 + a.size) in
      let b = reserve junk a bigger in
      some (record b { cells = set b.cells a.size value; size = bigger })

  -- The cells once the element at `index` is removed.
  unfoldable pub close_gap : SvzArray A → ℕ → List A
  close_gap a index =
      if index == a.size - 1
      then a.cells
      else memmove a.cells index (index + 1) (a.size - index - 1)

  unfoldable pub svz_array_del : A → Handle A → ℕ → A × Handle A
  svz_array_del null none index = (null, none)
  svz_array_del null (some a) index = if leb a.size index then (null, some a) else (
    get_or a.cells index null,
    some (record a { cells = close_gap a index; size = a.size - 1 }),
  )

  unfoldable pub svz_array_size : Handle A → ℕ
  svz_array_size none = 0
  svz_array_size (some a) = a.size

  -- `memcpy (dup->data, array->data, …)` copies into the fresh cells.
  unfoldable pub svz_array_dup : A → Handle A → Handle A
  svz_array_dup junk none = none
  svz_array_dup junk (some a) =
      let dup = svz_array_create junk a.size a.destroy in
      some (record dup { size = a.size; cells = take a.size a.cells ++ drop a.size dup.cells })

  -- `strdup` is `svz_strdup` of alloc.c on one element.
  unfoldable pub svz_array_strdup : A → (A → A) → Handle A → Handle A
  svz_array_strdup junk strdup none = none
  svz_array_strdup junk strdup (some a) =
      let dup = svz_array_create junk a.size true in
      some (record dup {
        size = a.size;
        cells = map strdup (take a.size a.cells) ++ drop a.size dup.cells;
      })

  -- The handle returned, and the values that the callback is run on.
  unfoldable pub svz_array_destroy_zero : Handle A → Handle A × List A
  svz_array_destroy_zero none = (none, [])
  svz_array_destroy_zero (some a) =
      if a.size == 0 then (none, svz_array_destroy (some a)) else (some a, [])
