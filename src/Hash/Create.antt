-- ===== src/Hash/Create.antt =====
-- hash.c: `svz_hash_create`.
use mathlib.Core.Option
use native.Mathlib.Nat.{pow-suc, add-zero}
use serveez.Base.{
  ==_cases, All, Bool, Option, [], ap, arith, false, get_or, if◌then◌else◌, inl, inr,
  length-replicate, ltb, ltb_cases, none, refl, replicate, some, suc, sym, true, zero, ℕ, ◌%◌, ◌*◌,
  ◌+◌, ◌-◌, ◌/◌, ◌<◌, ◌==◌, ◌^◌, ◌∙◌, ◌≡◌, ◌≤◌, ◌⊎◌,
}
use serveez.Hash.{Bucket, Entry, SvzHash}
use serveez.Hash.Invariant.{IsTable, IsValid}
use serveez.Hash.Keys.{Keys}
use serveez.Hash.Ops.{matches}
use serveez.Hash.Table.{total-replicate}
use serveez.Hash.View.{view, view_of_none}

-- The loop `for (n = size, size = 1; n != 1; n >>= 1) size <<= 1` on fuel, `none` if it is used up.
pub binary_size : ℕ → ℕ → ℕ → Option ℕ
binary_size zero n size = none
binary_size (suc fuel) n size = elim (n == 1) [
  | true ↦ some size
  | false ↦ binary_size fuel (n / 2) (size * 2 % 2 ^ 64)
]

module _ (K : Type 0) where
  abbrev empty_table : ℕ → Bool → SvzHash K
  empty_table size destroy = record {
    buckets = size;
    fill = 0;
    keys = 0;
    destroy = destroy;
    table = replicate size [];
  }

  -- At least `SVZ_HASH_MIN_SIZE` buckets.
  pub svz_hash_create : ℕ → ℕ → Bool → Option (SvzHash K)
  svz_hash_create fuel size destroy =
      Option.map (λ n. empty_table (if ltb n 4 then 4 else n) destroy) (binary_size fuel size 1)

-- For no fuel does the loop end at size 0: it keeps halving 0.
pub binary_size-zero : (fuel size : ℕ) → binary_size fuel 0 size ≡ none
unfolding binary_size
binary_size-zero zero size = refl
binary_size-zero (suc fuel) size = binary_size-zero fuel (size * 2 % 2 ^ 64)

halves : (n : ℕ) → n ≡ n / 2 * 2 + n % 2
halves n = omega arith

predecessor : (n : ℕ) → 0 < n → n ≡ n - 1 + 1
predecessor n h = omega arith

binary_size_step :
    (fuel n s t : ℕ)
    → (n == 1) ≡ false
    → s * 2 % 2 ^ 64 ≡ t
    → binary_size (suc fuel) n s ≡ binary_size fuel (n / 2) t
unfolding binary_size
binary_size_step fuel n s t e double = rw (e, double, binary_size)

binary_size_lem :
    (fuel n i : ℕ)
    → 0 < n
    → n ≤ fuel
    → 2 ^ i * n < 2 ^ 60
    → (j : ℕ) × (binary_size fuel n (2 ^ i) ≡ some (2 ^ (i + j))) × (2 ^ j ≤ n) × (n < 2 ^ suc j)
unfolding binary_size
binary_size_lem zero n i pos enough small = absurd (omega arith)
binary_size_lem (suc fuel) n i pos enough small =
    let m = 2 ^ i in
    let split : m * n ≡ m * (n / 2) * 2 + m * (n % 2) =
      omega (arith, ap (λ (t : ℕ). m * t) (halves n)) in
    let first : m * n ≡ m * (n - 1) + m =
      omega (arith, ap (λ (t : ℕ). m * t) (predecessor n pos)) in
    elim (==_cases n 1) [
      | inl (e, one) ↦ (
        0,
        rw (e, binary_size) (ap (λ t. some (2 ^ t)) (sym (add-zero i))),
        omega (arith, one),
        omega (arith, one),
      )
      | inr (e, more) ↦
          let double : m * 2 % 2 ^ 64 ≡ 2 ^ suc i = omega (arith, pow-suc 2 i, first, small) in
          let (j, run, lo, hi) =
            binary_size_lem fuel (n / 2) (suc i) (omega arith) (omega arith)
              (omega (arith, split, ap (λ (t : ℕ). t * (n / 2)) (pow-suc 2 i))) in
          let place : suc i + j ≡ i + suc j = omega arith in
          (
            suc j,
            binary_size_step fuel n m (2 ^ suc i) e double ∙ run ∙ ap (λ t. some (2 ^ t)) place,
            omega (arith, pow-suc 2 j),
            omega (arith, pow-suc 2 (suc j)),
          )
    ]

module _ {K : Type 0} ⦃ops : Keys K⦄ where
  All-replicate :
      (P : Entry K → Type 0) (n i : ℕ) → All P (get_or {A = Bucket K} (replicate n []) i [])
  All-replicate P zero i = tt
  All-replicate P (suc n) zero = tt
  All-replicate P (suc n) (suc i) = All-replicate P n i

  pub empty-IsValid :
      (n k : ℕ) (destroy : Bool)
      → n ≡ 2 ^ k
      → 4 ≤ n
      → n < 2 ^ 60
      → IsValid (empty_table K n destroy) k × ((q : K) → view (empty_table K n destroy) q ≡ none)
  empty-IsValid n k destroy power four small =
      let table : IsTable (empty_table K n destroy) k = record {
        power = power;
        some_buckets = four;
        small = small;
        width = length-replicate n [];
        placed = λ i. All-replicate _ n i;
        once = λ key. omega (arith, total-replicate (matches key) n);
      } in
      (
        record { table = table; counted = total-replicate (λ e. true) n },
        λ q. view_of_none (empty_table K n destroy) k q table (total-replicate (matches q) n),
      )

  -- For a size from 1 on the loop ends with as much fuel, and the table is valid and empty; its
  -- buckets are the greatest power of two up to the size, or 4 if that is less.
  pub create-IsValid :
      (size : ℕ) (destroy : Bool)
      → 0 < size
      → size < 2 ^ 59
      → (h : SvzHash K) × (k : ℕ) × (svz_hash_create K size size destroy ≡ some h)
        × IsValid h k
        × ((q : K) → view h q ≡ none)
        × (h.buckets ≤ size ⊎ h.buckets ≡ 4)
        × (size < 2 * h.buckets)
  unfolding svz_hash_create
  create-IsValid size destroy pos small =
      let (j, run, lo, hi) = binary_size_lem size size 0 pos (omega arith) (omega arith) in
      let run' : binary_size size size 1 ≡ some (2 ^ j) =
        run ∙ ap (λ t. some (2 ^ t)) (omega arith) in
      elim (ltb_cases (2 ^ j) 4) [
        | inl (e, less) ↦
            let (v, none_there) = empty-IsValid 4 2 destroy refl (omega arith) (omega arith) in
            (
              empty_table K 4 destroy,
              2,
              rw (run', e),
              v,
              none_there,
              inr refl,
              omega (arith, pow-suc 2 j),
            )
        | inr (e, more) ↦
            let (v, none_there) = empty-IsValid (2 ^ j) j destroy refl more (omega arith) in
            (
              empty_table K (2 ^ j) destroy,
              j,
              rw (run', e),
              v,
              none_there,
              inl lo,
              omega (arith, pow-suc 2 j),
            )
      ]
