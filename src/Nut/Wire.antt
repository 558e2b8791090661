-- ===== src/Nut/Wire.antt =====
-- nut-server/nut-core.c: the bytes that are sent do not depend on the byte order of the host.
use serveez.Base.{Bool, List, [], ℕ, ◌++◌, ◌<◌, ◌^◌, ◌∷◌, ◌≡◌}
use serveez.Nut.Bytes.{
  address, bswap_htons, htons, little_16, little_32, load_32, store-order_l, store-order_s,
  store_32-load_32,
}
use serveez.Nut.Packets.{NutHeader, nut_put_header, nut_put_pong, nut_put_push, nut_put_reply}

-- A header is sent as its id, the three bytes and the length in little endian order.
pub put_header_wire :
    (big : Bool) (hdr : NutHeader)
    → nut_put_header big hdr
      ≡ hdr.id ++ ((hdr.function ∷ hdr.ttl ∷ hdr.hop ∷ []) ++ little_32 hdr.length)
unfolding nut_put_header
put_header_wire big hdr = simp (store-order_l)

-- A ping response with a port below 2 ^ 16 in network byte order and an address of four bytes is
-- sent as the port in little endian order, the bytes of the address in order, and the two counts
-- in little endian order.
pub put_pong_wire :
    (big : Bool) (port a b c d files size : ℕ)
    → port < 2 ^ 16
    → a < 256
    → b < 256
    → c < 256
    → d < 256
    → nut_put_pong big (record {
      port = htons big port;
      ip = load_32 big (address a b c d);
      files = files;
      size = size;
    })
      ≡ little_16 port ++ (address a b c d ++ (little_32 files ++ little_32 size))
unfolding nut_put_pong
put_pong_wire big port a b c d files size hp ha hb hc hd = simp (
  bswap_htons big port hp,
  store-order_s,
  store-order_l,
  store_32-load_32 big a b c d ha hb hc hd,
)

-- A search reply with a port below 2 ^ 16 in network byte order and an address of four bytes is
-- sent as the number of records, the port in little endian order, the address, the speed in little
-- endian order and two zeros.
pub put_reply_wire :
    (big : Bool) (records port a b c d speed : ℕ)
    → port < 2 ^ 16
    → a < 256
    → b < 256
    → c < 256
    → d < 256
    → nut_put_reply big (record {
      records = records;
      port = htons big port;
      ip = load_32 big (address a b c d);
      speed = speed;
    })
      ≡ (records ∷ []) ++ (little_16 port ++ (address a b c d ++ (little_16 speed ++ (0 ∷ 0 ∷ []))))
unfolding nut_put_reply
put_reply_wire big records port a b c d speed hp ha hb hc hd =
    simp (bswap_htons big port hp, store-order_s, store_32-load_32 big a b c d ha hb hc hd)

-- A push request with a port below 2 ^ 16 in network byte order and an address of four bytes is
-- sent as the id, the index in little endian order, the address and the port in little endian order.
pub put_push_wire :
    (big : Bool) (id : List ℕ) (index port a b c d : ℕ)
    → port < 2 ^ 16
    → a < 256
    → b < 256
    → c < 256
    → d < 256
    → nut_put_push big (record {
      id = id;
      index = index;
      ip = load_32 big (address a b c d);
      port = htons big port;
    })
      ≡ id ++ (little_32 index ++ (address a b c d ++ little_16 port))
unfolding nut_put_push
put_push_wire big id index port a b c d hp ha hb hc hd = simp (
  bswap_htons big port hp,
  store-order_s,
  store-order_l,
  store_32-load_32 big a b c d ha hb hc hd,
)
