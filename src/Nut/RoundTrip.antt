-- ===== src/Nut/RoundTrip.antt =====
-- nut-server/nut-core.c: each packet is read back as it was written, whatever follows it.
use serveez.Base.{
  Bool, List, ap, arith, drop, drop-append_exact, length, some, sym, take, take-append_exact, ℕ,
  ◌++◌, ◌<◌, ◌^◌, ◌∙◌, ◌≡◌,
}
use serveez.Nut.Bytes.{lengths, load_32-store_32, memory, read_l, read_n, read_s, when_long_lem}
use serveez.Nut.Packets.{
  NutHeader, NutPong, NutPush, NutQuery, NutRecord, NutReply, nut_get_header, nut_get_pong,
  nut_get_push, nut_get_query, nut_get_record, nut_get_reply, nut_put_header, nut_put_pong,
  nut_put_push, nut_put_query, nut_put_record, nut_put_reply,
}

take_id : (id r : List ℕ) → length id ≡ 16 → take 16 (id ++ r) ≡ id
take_id id r i = ap (λ n. take n (id ++ r)) (sym i) ∙ take-append_exact id r

drop_id : (id r : List ℕ) → length id ≡ 16 → drop 16 (id ++ r) ≡ r
drop_id id r i = ap (λ n. drop n (id ++ r)) (sym i) ∙ drop-append_exact id r

-- A ping response whose fields fit their types is read back.
pub get-put_pong :
    (big : Bool) (p : NutPong) (rest : List ℕ)
    → p.port < 2 ^ 16
    → p.ip < 2 ^ 32
    → p.files < 2 ^ 32
    → p.size < 2 ^ 32
    → nut_get_pong big (nut_put_pong big p ++ rest) ≡ some p
unfolding nut_get_pong nut_put_pong
get-put_pong big p rest a b c d =
    simp
      (
        memory,
        read_n big p.port _ a,
        load_32-store_32 big p.ip _ b,
        read_l big p.files _ c,
        read_l big p.size _ d,
      )
      (when_long_lem 14 _ p (simp (lengths) (omega arith)))

-- A search query whose speed fits its type is read back.
pub get-put_query :
    (big : Bool) (p : NutQuery) (rest : List ℕ)
    → p.speed < 2 ^ 16
    → nut_get_query big (nut_put_query big p ++ rest) ≡ some p
unfolding nut_get_query nut_put_query
get-put_query big p rest a =
    simp (read_s big p.speed _ a) (when_long_lem 2 _ p (simp (lengths) (omega arith)))

-- A file record whose fields fit their types is read back.
pub get-put_record :
    (big : Bool) (p : NutRecord) (rest : List ℕ)
    → p.index < 2 ^ 32
    → p.size < 2 ^ 32
    → nut_get_record big (nut_put_record big p ++ rest) ≡ some p
unfolding nut_get_record nut_put_record
get-put_record big p rest a b =
    simp (memory, read_l big p.index _ a, read_l big p.size _ b)
      (when_long_lem 8 _ p (simp (lengths) (omega arith)))

-- The fields of a search reply that fit their types are read back.
pub get-put_reply :
    (big : Bool) (p : NutReply) (rest : List ℕ)
    → p.port < 2 ^ 16
    → p.ip < 2 ^ 32
    → p.speed < 2 ^ 16
    → nut_get_reply big (nut_put_reply big p ++ rest) ≡ some p
unfolding nut_get_reply nut_put_reply
get-put_reply big p rest a b c =
    simp (memory, read_n big p.port _ a, load_32-store_32 big p.ip _ b, read_s big p.speed _ c)
      (when_long_lem 11 _ p (simp (lengths) (omega arith)))

-- A header with an id of 16 bytes, whose length fits its type, is read back.
pub get-put_header :
    (big : Bool) (p : NutHeader) (rest : List ℕ)
    → length p.id ≡ 16
    → p.length < 2 ^ 32
    → nut_get_header big (nut_put_header big p ++ rest) ≡ some p
unfolding nut_get_header nut_put_header
get-put_header big p rest i a =
    let first = λ (r : List ℕ). take_id p.id r i in
    let after = λ (r : List ℕ). drop_id p.id r i in
    simp (memory, first, after, read_l big p.length _ a)
      (when_long_lem 23 _ p (simp (lengths, i) (omega arith)))

-- A push request with an id of 16 bytes, whose fields fit their types, is read back.
pub get-put_push :
    (big : Bool) (p : NutPush) (rest : List ℕ)
    → length p.id ≡ 16
    → p.index < 2 ^ 32
    → p.ip < 2 ^ 32
    → p.port < 2 ^ 16
    → nut_get_push big (nut_put_push big p ++ rest) ≡ some p
unfolding nut_get_push nut_put_push
get-put_push big p rest i a b c =
    let first = λ (r : List ℕ). take_id p.id r i in
    let after = λ (r : List ℕ). drop_id p.id r i in
    simp
      (
        memory,
        first,
        after,
        read_l big p.index _ a,
        load_32-store_32 big p.ip _ b,
        read_n big p.port _ c,
      )
      (when_long_lem 26 _ p (simp (lengths, i) (omega arith)))
