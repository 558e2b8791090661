-- ===== src/Cache/Hashed.antt =====
-- http-cache.c: the table of entries, an `svz_hash` by file name, in which NULL is no entry.
use serveez.Base.{List, Option, if◌then◌else◌, none, some, ℕ, ◌==◌}
use serveez.Cache.{Names}
use serveez.Hash.{SvzHash}
use serveez.Hash.Iterate.{svz_hash_size}
use serveez.Hash.Ops.{svz_hash_delete, svz_hash_get, svz_hash_put}
use serveez.Hash.Strings.{string_keys}

abbrev pub not_null : ℕ → Option ℕ
not_null v = if v == 0 then none else some v

abbrev pub hash_names : Names (SvzHash (List ℕ))
hash_names = record {
  svz_hash_get = λ h file. not_null (svz_hash_get h file);
  svz_hash_put = λ h file v. (svz_hash_put h file v).1;
  svz_hash_delete = λ h file. (svz_hash_delete h file).1;
  svz_hash_size = λ h. svz_hash_size (some h);
}
