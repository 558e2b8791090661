-- ===== src/Hash/Ops.antt =====
-- hash.c: the operations of a table under its callbacks.
use serveez.Base.{
  Bool, Option, false, get_elem?, if◌then◌else◌, length, ltb, none, set, some, true, ℕ, ◌%◌, ◌&&◌,
  ◌+◌, ◌-◌, ◌==◌, ◌^◌,
}
use serveez.Hash.{
  Bucket, Entry, SvzHash, append_entry, bucket_at, find_index, hash_bucket, hash_expand_limit,
  hash_shrink_limit, rehash_expand, rehash_shrink, remove_entry,
}
use serveez.Hash.Keys.{Keys}

module _ {K : Type 0} where
  -- `entry[i].value = value`
  unfoldable pub replace_value : Bucket K → ℕ → ℕ → Bucket K
  replace_value l i value = elim (get_elem? l i) [
    | none ↦ l
    | some e ↦ set l i (record e { value = value })
  ]

module _ {K : Type 0} ⦃ops : Keys K⦄ where
  -- `entry->code == code && equals (entry->key, key) == 0`
  abbrev pub matches : K → Entry K → Bool
  matches key e = e.code == ops.code key && ops.equals e.key key

  abbrev pub home : SvzHash K → K → ℕ
  home h key = hash_bucket (ops.code key) h.buckets

  abbrev pub search_home : SvzHash K → K → Option ℕ
  search_home h key = find_index (matches key) (bucket_at h (home h key))

  unfoldable pub svz_hash_get : SvzHash K → K → ℕ
  svz_hash_get h key = elim (search_home h key) [
    | none ↦ 0
    | some i ↦ elim (get_elem? (bucket_at h (home h key)) i) [ none ↦ 0 | some e ↦ e.value ]
  ]

  unfoldable pub svz_hash_exists : SvzHash K → K → Bool
  svz_hash_exists h key = elim (search_home h key) [ none ↦ false | some i ↦ true ]

  -- The test at the end of `svz_hash_put`, for a bucket that was empty.
  unfoldable pub grow_if_filled : SvzHash K → SvzHash K
  grow_if_filled h = if ltb (hash_expand_limit h.buckets) h.fill then rehash_expand h else h

  -- The new entry of `svz_hash_put`.
  abbrev pub new_entry : K → ℕ → Entry K
  new_entry key value = record { code = ops.code key; key = ops.copy key; value = value }

  -- A key that is not there yet.
  unfoldable pub put_new : SvzHash K → K → ℕ → SvzHash K
  put_new h key value =
      let b = home h key in
      let more = append_entry h b (new_entry key value) in
      let counted = record more { keys = (h.keys + 1) % 2 ^ 64 } in
      if length (bucket_at h b) == 0 then grow_if_filled counted else counted

  -- The value that is replaced, or NULL, and the table.
  unfoldable pub svz_hash_put : SvzHash K → K → ℕ → ℕ × SvzHash K
  svz_hash_put h key value = elim (search_home h key) [
    | none ↦ (0, put_new h key value)
    | some i ↦
        let b = home h key in
        (
          elim (get_elem? (bucket_at h b) i) [ none ↦ 0 | some e ↦ e.value ],
          record h { table = set h.table b (replace_value (bucket_at h b) i value) },
        )
  ]

  -- The test of `svz_hash_delete` on a bucket that became empty.
  unfoldable pub shrink_if_empty : SvzHash K → SvzHash K
  shrink_if_empty h = if ltb h.fill (hash_shrink_limit h.buckets) then rehash_shrink h else h

  unfoldable pub drop_entry : SvzHash K → ℕ → ℕ → SvzHash K
  drop_entry h b i =
      let less = remove_entry h b i in
      let fit = if length (bucket_at h b) == 1 then shrink_if_empty less else less in
      record fit { keys = (fit.keys + (2 ^ 64 - 1)) % 2 ^ 64 }

  -- The value that is removed, or NULL, and the table.
  unfoldable pub svz_hash_delete : SvzHash K → K → ℕ × SvzHash K
  svz_hash_delete h key = elim (search_home h key) [
    | none ↦ (0, h)
    | some i ↦
        let b = home h key in
        (elim (get_elem? (bucket_at h b) i) [ none ↦ 0 | some e ↦ e.value ], drop_entry h b i)
  ]
