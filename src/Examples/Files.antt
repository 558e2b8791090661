-- ===== src/Examples/Files.antt =====
-- http-cache.c: the theorems at a concrete cache.
use serveez.Base.{List, [], arith, false, if◌then◌else◌, none, refl, true, ℕ, ◌==◌, ◌∷◌}
use serveez.Cache.{CacheReader, HttpCache}
use serveez.Cache.Evict.{Inits, init_cache-IsChain}
use serveez.Cache.Hashed.{hash_names}
use serveez.Chain.{IsChain, Links}
use serveez.Chain.Push.{push_front, push_front-IsChain}
use serveez.Hash.{SvzHash}

-- The entries 1, 2 and 3; 3 is in use.
abbrev no_links : Links
no_links = record { first = none; last = none; next = λ p. none; prev = λ p. none }

abbrev three_links : Links
three_links = push_front (push_front (push_front no_links 3) 2) 1

three_links-IsChain : IsChain three_links (1 ∷ 2 ∷ 3 ∷ [])
three_links-IsChain =
    push_front-IsChain (push_front (push_front no_links 3) 2) (2 ∷ 3 ∷ []) 1
      (push_front-IsChain (push_front no_links 3) (3 ∷ []) 2
        (push_front-IsChain no_links [] 3
          (record { starts = refl; ends = refl; linked = tt; distinct = tt }) tt)
        ((λ e. omega (arith, e)), tt))
      ((λ e. omega (arith, e)), ((λ e. omega (arith, e)), tt))

abbrev no_names : SvzHash (List ℕ)
no_names = record {
  buckets = 4;
  fill = 0;
  keys = 0;
  destroy = false;
  table = [] ∷ [] ∷ [] ∷ [] ∷ [];
}

abbrev three_names : SvzHash (List ℕ)
three_names =
    hash_names.svz_hash_put
      (hash_names.svz_hash_put (hash_names.svz_hash_put no_names (1 ∷ []) 1) (2 ∷ []) 2) (3 ∷ []) 3

abbrev three_entries : HttpCache (SvzHash (List ℕ))
three_entries = record {
  names = three_names;
  links = three_links;
  entries = 3;
  file = λ p. p ∷ [];
  buffer = λ p. p;
  size = λ p. 1;
  usage = λ p. if p == 3 then 1 else 0;
  hits = λ p. 0;
  ready = λ p. true;
}

abbrev a_reader : CacheReader
a_reader = record { buffer = 0; size = 0; entry = none }

init_cache-IsChain_example :
    Inits hash_names 4 (b'f' ∷ []) 4 three_entries a_reader (1 ∷ 2 ∷ 3 ∷ [])
init_cache-IsChain_example =
    init_cache-IsChain hash_names 4 (b'f' ∷ []) 4 three_entries a_reader (1 ∷ 2 ∷ 3 ∷ [])
      three_links-IsChain
      ((λ e. omega (arith, e)), ((λ e. omega (arith, e)), ((λ e. omega (arith, e)), tt)))
      (omega arith)
