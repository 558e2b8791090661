-- ===== src/Core/Identify.antt =====
-- server-core.c: `svz_sock_unique_id` gives an id that no enqueued socket has.
use Prim.Native.Nat.{bit_and}
use mathlib.Core.Bool.{false≢true}
use native.Mathlib.Nat.{mod-lt, one-le-pow, pow-le-pow_right, pow-suc}
use serveez.Base.{
  All, Bool-cases, List, Option, [], ap, arith, false, get_or, get_or_beyond, inl, inr,
  length-append, length-replicate, none, refl, replicate, some, suc, sym, true, zero, ℕ, ◌%◌, ◌++◌,
  ◌+◌, ◌-◌, ◌<◌, ◌^◌, ◌∙◌, ◌∷◌, ◌≡◌, ◌≢◌, ◌≤◌,
}
use serveez.Base.Bits.{bit_and_mask}
use serveez.Chain.{assign}
use serveez.Chain.Segment.{assign_other, assign_self}
use serveez.Core.{Socks, enlarge, entry, search_id, svz_sock_unique_id, taken}
use serveez.Core.Valid.{All-map, IsValid}

-- The id behind another.
abbrev following : Socks → ℕ → ℕ
following s id = bit_and (id + 1) (s.sock_limit - 1)

-- One round of the loop.
search_next :
    (s : Socks) (left id : ℕ)
    → taken (entry s (following s id)) ≡ true
    → search_id s (suc left) id ≡ search_id s left (following s id)
unfolding search_id
search_next s left id full = rw (full, search_id) refl

search_stop :
    (s : Socks) (left id : ℕ)
    → taken (entry s (following s id)) ≡ false
    → search_id s (suc left) id ≡ (following s id, true)
unfolding search_id
search_stop s left id free = rw (free, search_id) refl

not_taken : (o : Option ℕ) → taken o ≡ false → o ≡ none
not_taken none h = refl
not_taken (some x) h = absurd (false≢true (sym h))

-- An id that the loop finds lies inside the table and is free.
search_id_lem :
    (s : Socks) (k left id : ℕ)
    → s.sock_limit ≡ 2 ^ k
    → (search_id s left id).1 ≡ true
    → ((search_id s left id).0 < s.sock_limit) × (entry s (search_id s left id).0 ≡ none)
search_id_lem s k zero id power h = unfold search_id in absurd (false≢true h)
search_id_lem s k (suc left) id power h =
    let next = following s id in
    let mask : next ≡ (id + 1) % 2 ^ k = rw power (bit_and_mask k (id + 1)) in
    let inside : next < s.sock_limit =
      rw (mask, power) (mod-lt (id + 1) (one-le-pow k 2 (omega arith))) in
    elim (Bool-cases (taken (entry s next))) [
      | inl full ↦
          let e = search_next s left id full in
          rw e (search_id_lem s k left next power (sym (ap (λ r. r.1) e) ∙ h))
      | inr free ↦ rw (search_stop s left id free) (inside, not_taken (entry s next) free)
    ]

get_or-wide :
    (t : List (Option ℕ)) (n i : ℕ) → get_or (t ++ replicate n none) i none ≡ get_or t i none
get_or-wide [] zero i = refl
get_or-wide [] (suc n) zero = refl
get_or-wide [] (suc n) (suc i) = get_or-wide [] n i
get_or-wide (x ∷ t) n zero = refl
get_or-wide (x ∷ t) n (suc i) = get_or-wide t n i

enlarge-IsValid :
    (s : Socks) (ids : List ℕ) → s.sock_limit < 2 ^ 30 → IsValid s ids → IsValid (enlarge s) ids
enlarge-IsValid s ids bound v = record {
  chain = v.chain;
  width = omega (
    arith,
    bound,
    v.width,
    length-append s.socktab (replicate s.sock_limit none),
    length-replicate {A = Option ℕ} s.sock_limit none,
  );
  found = All-map _ _ ids (λ x p. (p.0, get_or-wide s.socktab s.sock_limit (s.id x) ∙ p.1)) v.found;
  listed = v.listed;
  owned = λ i x at. v.owned i x (sym (get_or-wide s.socktab s.sock_limit i) ∙ at);
}

-- A socket that is not enqueued can get any id and version.
abbrev identified : Socks → ℕ → ℕ → ℕ → Socks
identified t x id version = record t {
  sock_id = id;
  sock_version = (version + 1) % 2 ^ 32;
  id = assign t.id x id;
  version = assign t.version x version;
}

identified-IsValid :
    (t : Socks) (ids : List ℕ) (x id version : ℕ)
    → IsValid t ids
    → t.enqueued x ≡ false
    → IsValid (identified t x id version) ids
identified-IsValid t ids x id version v unmarked =
    let apart : (y : ℕ) → t.enqueued y ≡ true → x ≢ y =
      λ y mark e. false≢true (sym unmarked ∙ ap t.enqueued e ∙ mark) in
    record {
      chain = v.chain;
      width = v.width;
      found =
          All-map _ _ ids
            (λ y p. (p.0, ap (entry t) (assign_other t.id x y id (apart y p.0)) ∙ p.1)) v.found;
      listed = v.listed;
      owned = λ i y at.
          let old = v.owned i y at in (old.0, assign_other t.id x y id (apart y old.0) ∙ old.1);
    }

pow-lt : (k : ℕ) → k < 30 → 2 ^ k < 2 ^ 30
pow-lt k h =
    let base : 0 < 2 = omega arith in
    let step : 2 ^ suc k ≤ 2 ^ 30 = pow-le-pow_right base h in
    omega (arith, step, pow-suc 2 k, one-le-pow k 2 base)

-- What `svz_sock_unique_id` does for such a socket.
abbrev pub Identifies : Socks → List ℕ → ℕ → Type 0
Identifies s ids x =
    IsValid (svz_sock_unique_id s x).1 ids
    × ((svz_sock_unique_id s x).0 < (svz_sock_unique_id s x).1.sock_limit)
    × (entry (svz_sock_unique_id s x).1 (svz_sock_unique_id s x).0 ≡ none)
    × ((svz_sock_unique_id s x).1.id x ≡ (svz_sock_unique_id s x).0)
    × All (λ y. s.id y ≢ (svz_sock_unique_id s x).0) ids
    × ((j : ℕ) × (j < 31) × ((svz_sock_unique_id s x).1.sock_limit ≡ 2 ^ j))

-- For a socket that is not enqueued, in a table whose size is a power of two below 2 ^ 30, so that an
-- `int` holds twice the size: the id that it gets lies inside the table, which may have doubled, its
-- entry is free, so no enqueued socket has it, and the sockets stay valid, in the same order.
pub unique_id-IsValid :
    (s : Socks) (ids : List ℕ) (x k : ℕ)
    → IsValid s ids
    → s.sock_limit ≡ 2 ^ k
    → k < 30
    → s.enqueued x ≡ false
    → Identifies s ids x
unfolding svz_sock_unique_id
unique_id-IsValid s ids x k v power low unmarked =
    let bound : s.sock_limit < 2 ^ 30 = rw power (pow-lt k low) in
    let f = search_id s s.sock_limit s.sock_id in
    elim (Bool-cases f.1) [
      | inl hit ↦
          let (inside, free) = search_id_lem s k s.sock_limit s.sock_id power hit in
          rw hit (
            identified-IsValid s ids x f.0 s.sock_version v unmarked,
            inside,
            free,
            assign_self s.id x f.0,
            All-map _ _ ids (λ y p e. cc (p.1, ap (entry s) e, free)) v.found,
            (k, omega (arith, low), power),
          )
      | inr miss ↦
          let t = enlarge s in
          let beyond : entry t s.sock_limit ≡ none =
            get_or-wide s.socktab s.sock_limit s.sock_limit
            ∙ get_or_beyond s.socktab s.sock_limit none (omega (arith, v.width)) in
          let pos : 0 < s.sock_limit = rw power (one-le-pow k 2 (omega arith)) in
          rw miss (
            identified-IsValid t ids x s.sock_limit s.sock_version (enlarge-IsValid s ids bound v)
                unmarked,
            omega (arith, bound, pos),
            beyond,
            assign_self s.id x s.sock_limit,
            All-map _ _ ids
                (λ y p e. cc (
                  p.1,
                  ap (entry s) e,
                  get_or_beyond s.socktab s.sock_limit none (omega (arith, v.width)),
                ))
                v.found,
            (suc k, omega (arith, low), omega (arith, bound, pow-suc 2 k, power)),
          )
    ]
