-- ===== src/Hash/Methods.antt =====
-- hash.c: the operations against the map of a table.
pub mod Facts
pub mod Put
pub mod Delete
use serveez.Base.{
  Bool, Option, arith, false, if◌then◌else◌, inl, inr, none, some, true, ℕ, ◌+◌, ◌≡◌, ◌≤◌,
}
use serveez.Hash.{Entry, SvzHash}
use serveez.Hash.Invariant.{IsTable, IsValid}
use serveez.Hash.Keys.{Keys}
use serveez.Hash.Ops.{matches, new_entry, svz_hash_exists, svz_hash_get}
use serveez.Hash.Table.{to_nat}
use serveez.Hash.View.{search_cases, view}

abbrev pub or_null : Option ℕ → ℕ
or_null none = 0
or_null (some v) = v

abbrev pub present : Option ℕ → ℕ
present none = 0
present (some v) = 1

abbrev is_some : Option ℕ → Bool
is_some none = false
is_some (some v) = true

pub le_one : (b : Bool) → to_nat b ≤ 1
le_one true = omega arith
le_one false = omega arith

module _ {K : Type 0} ⦃ops : Keys K⦄ where
  -- In a valid table `svz_hash_get` returns the value of the key or NULL, and `svz_hash_exists`
  -- tells the two apart.
  pub get-exists-view :
      (h : SvzHash K) (k : ℕ) (key : K)
      → IsTable h k
      → (svz_hash_get h key ≡ or_null (view h key)) × (svz_hash_exists h key ≡ is_some (view h key))
  get-exists-view h k key table = elim (search_cases h k key table) [
    | inl (e, there, _) ↦ rw there (
      unfold svz_hash_get in rw (e, svz_hash_get),
      unfold svz_hash_exists in rw (e, svz_hash_exists),
    )
    | inr (i, x, e, here, _, there, _) ↦ rw there (
      unfold svz_hash_get in rw (e, svz_hash_get, here),
      unfold svz_hash_exists in rw (e, svz_hash_exists),
    )
  ]

  -- A call at `key` made of `h` a valid table `r`, in which the key has the value `new`, every
  -- key that is not equal has its old one, and the count of keys is right.
  pub record Updates (h r : SvzHash K) (key : K) (new : Option ℕ) : Type 0 where
    pub power : ℕ
    pub valid : IsValid r power
    pub views : (q : K) → view r q ≡ (if ops.equals key q then new else view h q)
    pub size : r.keys + present (view h key) ≡ h.keys + present new

  -- Equal keys match the same entries, and no entry is of two keys that differ.
  pub matches-equal : (a b : K) (e : Entry K) → ops.equals a b ≡ true → matches a e ≡ matches b e
  matches-equal a b e same = ground (
    arith,
    ops.code-equals a b,
    ops.equals_trans e.key a b,
    ops.equals_trans e.key b a,
    ops.equals_symm a b,
  )

  pub matches-differ :
      (a b : K) (e : Entry K) → ops.equals a b ≡ false → matches a e ≡ true → matches b e ≡ false
  matches-differ a b e differ hit =
      ground (arith, ops.equals_symm e.key a, ops.equals_trans a e.key b)

  pub new_matches : (key : K) (v : ℕ) → matches key (new_entry key v) ≡ true
  new_matches key v = rw ops.equals-copy (ground arith)
