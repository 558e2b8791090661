-- ===== src/Core.antt =====
-- libserveez/server-core.c: the sockets that the server loop handles, in a doubly linked list and
-- in a lookup table by id. A socket is a pointer, and each of its fields is a map from pointers.
-- The system calls that test its descriptors are the parameter `usable`.
pub mod Valid
pub mod Enqueue
pub mod Dequeue
pub mod Identify
pub mod Rechain
pub mod Parent
pub mod Access
pub mod Shutdown
use Prim.Native.Nat.{bit_and}
use serveez.Base.{
  Bool, List, Option, false, get_or, if◌then◌else◌, none, not, replicate, set, some, suc, true,
  zero, ℕ, ◌%◌, ◌*◌, ◌++◌, ◌+◌, ◌-◌, ◌/◌, ◌==◌, ◌^◌, ◌||◌,
}
use serveez.Chain.{Links, assign}
use serveez.Chain.Push.{push_back}
use serveez.Chain.Unlink.{close_next, close_prev}

-- The variables of the file and the fields of the sockets. A reference to a socket is its id and
-- its version, with `none` for -1; a version is the 32 bits of an `int`, which wraps; a port configuration is a pointer.
pub record Socks : Type 0 where
  pub links : Links
  pub id : ℕ → ℕ
  pub version : ℕ → ℕ
  pub enqueued : ℕ → Bool
  pub listening : ℕ → Bool
  pub priority : ℕ → Bool
  pub killed : ℕ → Bool
  pub parent_id : ℕ → Option ℕ
  pub parent_version : ℕ → Option ℕ
  pub referrer_id : ℕ → Option ℕ
  pub referrer_version : ℕ → Option ℕ
  pub port : ℕ → Option ℕ
  pub socktab : List (Option ℕ)
  pub sock_id : ℕ
  pub sock_version : ℕ
  pub sock_limit : ℕ

abbrev pub entry : Socks → ℕ → Option ℕ
entry s i = get_or s.socktab i none

abbrev pub taken : Option ℕ → Bool
taken none = false
taken (some x) = true

-- `true` for the return value -1, which leaves everything as it was.
unfoldable pub svz_sock_enqueue : (ℕ → Bool) → Socks → ℕ → Bool × Socks
svz_sock_enqueue usable s x =
    if not (usable x)
    then (true, s)
    else if taken (entry s (s.id x)) || s.enqueued x
    then (true, s)
    else (
      false,
      record s {
        links = push_back s.links x;
        enqueued = assign s.enqueued x true;
        socktab = set s.socktab (s.id x) (some x);
      },
    )

unfoldable pub dequeue : (ℕ → Bool) → Socks → ℕ → Bool × Socks
dequeue usable s x =
    if not (usable x)
    then (true, s)
    else if not (taken (entry s (s.id x))) || not (s.enqueued x)
    then (true, s)
    else (
      false,
      record s {
        links = close_prev (close_next s.links x) x;
        enqueued = assign s.enqueued x false;
        socktab = set s.socktab (s.id x) none;
      },
    )

-- The bits of -1.
abbrev pub minus_one : ℕ
minus_one = 2 ^ 32 - 1

-- The version is not checked for -1, which is also `none` here. `sock_limit` is a power of two, so the bits of
-- the id that `~(sock_limit - 1)` keeps are those of the quotient.
unfoldable pub svz_sock_find : Socks → ℕ → Option ℕ → Option ℕ
svz_sock_find s id version = elim (id / s.sock_limit == 0) [
  | false ↦ none
  | true ↦ elim (entry s id) [
    | none ↦ none
    | some x ↦ elim version [
      | none ↦ some x
      | some v ↦ if s.version x == v || v == minus_one then some x else none
    ]
  ]
]

-- The loop of `svz_sock_unique_id` with `left` rounds: the id, and whether its entry is free.
unfoldable pub search_id : Socks → ℕ → ℕ → ℕ × Bool
search_id s zero id = (id, false)
search_id s (suc left) id =
    let next = bit_and (id + 1) (s.sock_limit - 1) in
    elim (taken (entry s next)) [ true ↦ search_id s left next | false ↦ (next, true) ]

-- The table of twice the size, as far as an `int` holds it.
abbrev pub enlarge : Socks → Socks
enlarge s = record s {
  socktab = s.socktab ++ replicate s.sock_limit none;
  sock_limit = s.sock_limit * 2 % 2 ^ 32;
}

unfoldable pub svz_sock_unique_id : Socks → ℕ → ℕ × Socks
svz_sock_unique_id s x =
    let found = search_id s s.sock_limit s.sock_id in
    let t = if found.1 then s else enlarge s in
    let id = if found.1 then found.0 else s.sock_limit in
    (
      id,
      record t {
        sock_id = id;
        sock_version = (s.sock_version + 1) % 2 ^ 32;
        id = assign s.id x id;
        version = assign s.version x s.sock_version;
      },
    )
