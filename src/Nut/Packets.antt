-- ===== src/Nut/Packets.antt =====
-- nut-server/gnutella.h and nut-core.c: the packets, read from memory and written to it. A reader
-- gives `none` where the source would read beyond the end of the memory.
use serveez.Base.{Bool, List, Option, [], drop, get_or, take, ℕ, ◌++◌, ◌+◌, ◌∷◌}
use serveez.Nut.Bytes.{bswap_16, load_16, load_32, order_l, order_s, store_16, store_32, when_long}

-- NUT_GUID_SIZE, and the sizes of the packets.
abbrev pub nut_guid_size : ℕ
nut_guid_size = 16

abbrev pub sizeof_nut_header : ℕ
sizeof_nut_header = nut_guid_size + 7

abbrev pub sizeof_nut_pong : ℕ
sizeof_nut_pong = 14

abbrev pub sizeof_nut_query : ℕ
sizeof_nut_query = 2

abbrev pub sizeof_nut_record : ℕ
sizeof_nut_record = 8

abbrev pub sizeof_nut_reply : ℕ
sizeof_nut_reply = 11

abbrev pub sizeof_nut_push : ℕ
sizeof_nut_push = 26

pub record NutHeader : Type 0 where
  pub id : List ℕ
  pub function : ℕ
  pub ttl : ℕ
  pub hop : ℕ
  pub length : ℕ

pub record NutPong : Type 0 where
  pub port : ℕ
  pub ip : ℕ
  pub files : ℕ
  pub size : ℕ

-- The search string stays behind the packet.
pub record NutQuery : Type 0 where
  pub speed : ℕ

-- The file name stays behind the packet.
pub record NutRecord : Type 0 where
  pub index : ℕ
  pub size : ℕ

-- The fields that are read and written; the records and the id stay behind the packet.
pub record NutReply : Type 0 where
  pub records : ℕ
  pub port : ℕ
  pub ip : ℕ
  pub speed : ℕ

pub record NutPush : Type 0 where
  pub id : List ℕ
  pub index : ℕ
  pub ip : ℕ
  pub port : ℕ

unfoldable pub nut_get_header : Bool → List ℕ → Option NutHeader
nut_get_header big m =
    let m1 = drop nut_guid_size m in
    let m2 = drop 3 m1 in
    when_long sizeof_nut_header m (record {
      id = take nut_guid_size m;
      function = get_or m1 0 0;
      ttl = get_or m1 1 0;
      hop = get_or m1 2 0;
      length = order_l big (load_32 big m2);
    })

unfoldable pub nut_put_header : Bool → NutHeader → List ℕ
nut_put_header big hdr =
    hdr.id ++ ((hdr.function ∷ hdr.ttl ∷ hdr.hop ∷ []) ++ store_32 big (order_l big hdr.length))

unfoldable pub nut_get_pong : Bool → List ℕ → Option NutPong
nut_get_pong big m =
    let m1 = drop 2 m in
    let m2 = drop 4 m1 in
    let m3 = drop 4 m2 in
    when_long sizeof_nut_pong m (record {
      port = bswap_16 (load_16 big m);
      ip = load_32 big m1;
      files = order_l big (load_32 big m2);
      size = order_l big (load_32 big m3);
    })

unfoldable pub nut_put_pong : Bool → NutPong → List ℕ
nut_put_pong big reply =
    store_16 big (bswap_16 reply.port)
    ++ (store_32 big reply.ip
        ++ (store_32 big (order_l big reply.files) ++ store_32 big (order_l big reply.size)))

unfoldable pub nut_get_query : Bool → List ℕ → Option NutQuery
nut_get_query big m = when_long sizeof_nut_query m (record { speed = order_s big (load_16 big m) })

unfoldable pub nut_put_query : Bool → NutQuery → List ℕ
nut_put_query big query = store_16 big (order_s big query.speed)

unfoldable pub nut_get_record : Bool → List ℕ → Option NutRecord
nut_get_record big m =
    let m1 = drop 4 m in
    when_long sizeof_nut_record m
      (record { index = order_l big (load_32 big m); size = order_l big (load_32 big m1) })

unfoldable pub nut_put_record : Bool → NutRecord → List ℕ
nut_put_record big r = store_32 big (order_l big r.index) ++ store_32 big (order_l big r.size)

unfoldable pub nut_get_reply : Bool → List ℕ → Option NutReply
nut_get_reply big m =
    let m1 = drop 1 m in
    let m2 = drop 2 m1 in
    let m3 = drop 4 m2 in
    when_long sizeof_nut_reply m (record {
      records = get_or m 0 0;
      port = bswap_16 (load_16 big m1);
      ip = load_32 big m2;
      speed = order_s big (load_16 big m3);
    })

-- The buffer is static, so its last two bytes, the pad, are 0.
unfoldable pub nut_put_reply : Bool → NutReply → List ℕ
nut_put_reply big reply =
    (reply.records ∷ [])
    ++ (store_16 big (bswap_16 reply.port)
        ++ (store_32 big reply.ip ++ (store_16 big (order_s big reply.speed) ++ (0 ∷ 0 ∷ []))))

unfoldable pub nut_get_push : Bool → List ℕ → Option NutPush
nut_get_push big m =
    let m1 = drop nut_guid_size m in
    let m2 = drop 4 m1 in
    let m3 = drop 4 m2 in
    when_long sizeof_nut_push m (record {
      id = take nut_guid_size m;
      index = order_l big (load_32 big m1);
      ip = load_32 big m2;
      port = bswap_16 (load_16 big m3);
    })

unfoldable pub nut_put_push : Bool → NutPush → List ℕ
nut_put_push big push =
    push.id
    ++ (store_32 big (order_l big push.index)
        ++ (store_32 big push.ip ++ store_16 big (bswap_16 push.port)))
