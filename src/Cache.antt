-- ===== src/Cache.antt =====
-- http-server/http-cache.c: the file cache of the HTTP server, a doubly linked list of entries in
-- the order of their use and a table of them by file name. An entry is a pointer, and each of its
-- fields is a map from pointers; a buffer is a pointer too, with 0 for NULL.
pub mod Order
pub mod Hashed
pub mod Evict
use mathlib.Core.Option
use serveez.Base.{
  Bool, List, Option, false, if◌then◌else◌, ltb, none, some, suc, true, zero, ℕ, ◌&&◌, ◌+◌, ◌==◌,
}
use serveez.Chain.{Links, assign, assign_if}
use serveez.Chain.Push.{push_front}
use serveez.Chain.Unlink.{close_next, close_prev}

-- What the cache uses of the hash `http_cache`.
pub record Names (T : Type 0) : Type 0 where
  pub svz_hash_get : T → List ℕ → Option ℕ
  pub svz_hash_put : T → List ℕ → ℕ → T
  pub svz_hash_delete : T → List ℕ → T
  pub svz_hash_size : T → ℕ

-- The variables of the file and the fields of the entries.
pub record HttpCache (T : Type 0) : Type 0 where
  pub names : T
  pub links : Links
  pub entries : ℕ
  pub file : ℕ → List ℕ
  pub buffer : ℕ → ℕ
  pub size : ℕ → ℕ
  pub usage : ℕ → ℕ
  pub hits : ℕ → ℕ
  pub ready : ℕ → Bool

-- `http_cache_t`
pub record CacheReader : Type 0 where
  pub buffer : ℕ
  pub size : ℕ
  pub entry : Option ℕ

pub data CacheState : Type 0 where
  complete : CacheState
  incomplete : CacheState
  absent : CacheState

unfoldable pub http_cache_reset : CacheReader → CacheReader
http_cache_reset r = record r { size = 0; buffer = 0; entry = none }

-- The loop of `http_cache_urgency`, at the entry `cur`; `none` without enough fuel.
unfoldable pub urgency_loop : Links → ℕ → ℕ → ℕ → Option ℕ → Option (Option ℕ)
urgency_loop l zero cache n cur = none
urgency_loop l (suc fuel) cache n none = some none
urgency_loop l (suc fuel) cache n (some e) = elim (e == cache) [
  | true ↦ some (some n)
  | false ↦ urgency_loop l fuel cache (n + 1) (l.next e)
]

-- `some none` for the return value -1.
unfoldable pub http_cache_urgency : {T : Type 0} → ℕ → HttpCache T → ℕ → Option (Option ℕ)
http_cache_urgency fuel c cache = urgency_loop c.links fuel cache 0 c.links.first

-- The writes that take an entry to the front of a list in which another one stands before it.
unfoldable pub front_links : Links → ℕ → Links
front_links l x =
    let out = close_next (close_prev l x) x in
    record out {
      first = some x;
      next = assign out.next x out.first;
      prev = assign (assign_if out.prev out.first (some x)) x none;
    }

unfoldable pub http_urgent_cache : {T : Type 0} → HttpCache T → ℕ → HttpCache T
http_urgent_cache c x = elim (c.links.prev x) [
  | none ↦ c
  | some p ↦ record c { links = front_links c.links x }
]

-- The loop of `http_init_cache` that looks for the least recent entry that is not in use.
unfoldable pub unused : {T : Type 0} → HttpCache T → ℕ → Bool
unused c e = (c.usage e == 0) && c.ready e

unfoldable pub find_unused : {T : Type 0} → HttpCache T → ℕ → Option ℕ → Option (Option ℕ)
find_unused c zero cur = none
find_unused c (suc fuel) none = some none
find_unused c (suc fuel) (some e) = elim (unused c e) [
  | true ↦ some (some e)
  | false ↦ find_unused c fuel (c.links.prev e)
]

module _ {T : Type 0} (table : Names T) where
  unfoldable pub http_check_cache :
      List ℕ → HttpCache T → CacheReader → CacheState × HttpCache T × CacheReader
  http_check_cache file c r = elim (table.svz_hash_get c.names file) [
    | none ↦ (absent, c, r)
    | some x ↦
        let d = http_urgent_cache c x in
        if d.ready x
        then (complete, d, record r { entry = some x; buffer = d.buffer x; size = d.size x })
        else (incomplete, d, r)
  ]

  unfoldable pub http_cache_destroy_entry : HttpCache T → ℕ → HttpCache T
  http_cache_destroy_entry c x = record c {
    names = table.svz_hash_delete c.names (c.file x);
    links = close_next (close_prev c.links x) x;
  }

  -- The entry that `http_cache_create_entry` allocated at `slot`, all zero, becomes the first one.
  unfoldable pub insert_entry : List ℕ → ℕ → HttpCache T → CacheReader → HttpCache T × CacheReader
  insert_entry file slot c r = (
    record c {
      names = table.svz_hash_put c.names file slot;
      links = push_front c.links slot;
      file = assign c.file slot file;
      buffer = assign c.buffer slot 0;
      size = assign c.size slot 0;
      usage = assign c.usage slot 0;
      hits = assign c.hits slot 0;
      ready = assign c.ready slot false;
    },
    record (http_cache_reset r) { entry = some slot },
  )

  -- With the entry that the loop found, if any.
  abbrev pub reuse :
      List ℕ → ℕ → HttpCache T → CacheReader → Option ℕ → Bool × HttpCache T × CacheReader
  reuse file slot c r none = (true, c, http_cache_reset r)
  reuse file slot c r (some e) =
      let done = insert_entry file slot (http_cache_destroy_entry c e) r in (false, done.0, done.1)

  -- `true` for the return value -1; `slot` is the pointer that the allocation returns, and the fuel
  -- is for the loop over the entries.
  unfoldable pub http_init_cache :
      ℕ → List ℕ → ℕ → HttpCache T → CacheReader → Option (Bool × HttpCache T × CacheReader)
  http_init_cache fuel file slot c r =
      let done = insert_entry file slot c r in
      let found = find_unused c fuel c.links.last in
      if ltb (table.svz_hash_size c.names) c.entries
      then some (false, done.0, done.1)
      else Option.map (reuse file slot c r) found

-- The entry stays, and its content goes. There must be an entry.
unfoldable pub http_refresh_cache :
    {T : Type 0} → HttpCache T → CacheReader → HttpCache T × CacheReader
http_refresh_cache c r = elim r.entry [
  | none ↦ (c, r)
  | some x ↦ (
    record c {
      buffer = assign c.buffer x 0;
      ready = assign c.ready x false;
      hits = assign c.hits x 0;
      usage = assign c.usage x 0;
    },
    record r { size = 0; buffer = 0 },
  )
]
