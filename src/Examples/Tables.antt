-- ===== src/Examples/Tables.antt =====
-- hash.c: the theorems at concrete tables.
use serveez.Base.{
  List, [], arith, map, none, refl, some, suc, true, zero, ℕ, ◌*◌, ◌<◌, ◌∷◌, ◌≡◌, ◌≤◌, ◌⊎◌,
}
use serveez.Hash.{Entry, SvzHash, hash_bucket, rehash_expand}
use serveez.Hash.Create.{create-IsValid, svz_hash_create}
use serveez.Hash.Invariant.{IsTable, IsValid}
use serveez.Hash.Iterate.{foreach-destroy, svz_hash_destroy, svz_hash_foreach}
use serveez.Hash.Methods.{Updates, le_one, or_null}
use serveez.Hash.Methods.Delete.{delete-Updates}
use serveez.Hash.Methods.Put.{put-Updates}
use serveez.Hash.Ops.{matches, svz_hash_delete, svz_hash_put}
use serveez.Hash.Rehash.{Done}
use serveez.Hash.Rehash.Valid.{Rehashed, rehash_expand-Rehashed}
use serveez.Hash.Strings.{string_keys}
use serveez.Hash.Table.{count, total}
use serveez.Hash.View.{view}

-- The string "e" with the value 7, in the bucket 1 of four and in the bucket 5 of eight.
abbrev letter : Entry (List ℕ)
letter = record { code = 101; key = 101 ∷ []; value = 7 }

abbrev table_4 : SvzHash (List ℕ)
table_4 = record {
  buckets = 4;
  fill = 1;
  keys = 1;
  destroy = true;
  table = [] ∷ (letter ∷ []) ∷ [] ∷ [] ∷ [];
}

abbrev table_8 : SvzHash (List ℕ)
table_8 = record {
  buckets = 8;
  fill = 1;
  keys = 1;
  destroy = true;
  table = [] ∷ [] ∷ [] ∷ [] ∷ [] ∷ (letter ∷ []) ∷ [] ∷ [] ∷ [];
}

placed_4 : (n : ℕ) → Done table_4 n
unfolding hash_bucket
placed_4 zero = tt
placed_4 (suc zero) = (refl, tt)
placed_4 (suc (suc zero)) = tt
placed_4 (suc (suc (suc zero))) = tt
placed_4 (suc (suc (suc (suc n)))) = tt

placed_8 : (n : ℕ) → Done table_8 n
unfolding hash_bucket
placed_8 zero = tt
placed_8 (suc zero) = tt
placed_8 (suc (suc zero)) = tt
placed_8 (suc (suc (suc zero))) = tt
placed_8 (suc (suc (suc (suc zero)))) = tt
placed_8 (suc (suc (suc (suc (suc zero))))) = (refl, tt)
placed_8 (suc (suc (suc (suc (suc (suc zero)))))) = tt
placed_8 (suc (suc (suc (suc (suc (suc (suc zero))))))) = tt
placed_8 (suc (suc (suc (suc (suc (suc (suc (suc n)))))))) = tt

table_4-IsTable : IsTable table_4 2
unfolding total count
table_4-IsTable = record {
  power = refl;
  some_buckets = omega arith;
  small = omega arith;
  width = refl;
  placed = placed_4;
  once = λ key. omega (arith, le_one (matches key letter));
}

table_4-IsValid : IsValid table_4 2
unfolding total count
table_4-IsValid = record { table = table_4-IsTable; counted = refl }

table_8-IsTable : IsTable table_8 3
unfolding total count
table_8-IsTable = record {
  power = refl;
  some_buckets = omega arith;
  small = omega arith;
  width = refl;
  placed = placed_8;
  once = λ key. omega (arith, le_one (matches key letter));
}

put-Updates_example :
    ((svz_hash_put table_4 (102 ∷ []) 9).0 ≡ or_null (view table_4 (102 ∷ [])))
    × Updates table_4 (svz_hash_put table_4 (102 ∷ []) 9).1 (102 ∷ []) (some 9)
put-Updates_example = put-Updates table_4 2 (102 ∷ []) 9 table_4-IsValid (omega arith) (omega arith)

delete-Updates_example :
    ((svz_hash_delete table_4 (101 ∷ [])).0 ≡ or_null (view table_4 (101 ∷ [])))
    × Updates table_4 (svz_hash_delete table_4 (101 ∷ [])).1 (101 ∷ []) none
delete-Updates_example = delete-Updates table_4 2 (101 ∷ []) table_4-IsValid (omega arith)

rehash_expand-Rehashed_example : Rehashed table_4 (rehash_expand table_4) 3
rehash_expand-Rehashed_example = rehash_expand-Rehashed table_4 2 table_4-IsTable (omega arith)

create-IsValid_example :
    (h : SvzHash (List ℕ)) × (k : ℕ) × (svz_hash_create (List ℕ) 100 100 true ≡ some h)
    × IsValid h k
    × ((q : List ℕ) → view h q ≡ none)
    × (h.buckets ≤ 100 ⊎ h.buckets ≡ 4)
    × (100 < 2 * h.buckets)
create-IsValid_example = create-IsValid 100 true (omega arith) (omega arith)

foreach-destroy_example :
    svz_hash_destroy (some table_4)
    ≡ (map (λ p. p.0) (svz_hash_foreach table_4), map (λ p. p.1) (svz_hash_foreach table_4))
foreach-destroy_example = foreach-destroy table_4 table_4-IsValid.counted

abbrev word : List ℕ
word = 101 ∷ []

abbrev other_word : List ℕ
other_word = 102 ∷ []
