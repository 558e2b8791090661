-- ===== src/Examples/Wire.antt =====
-- nut-core.c and socket.c: the theorems at concrete packets.
use serveez.Base.{
  All, List, [], arith, if◌then◌else◌, length, replicate, some, true, ℕ, ◌++◌, ◌+◌, ◌==◌, ◌∷◌, ◌≡◌,
}
use serveez.Nut.Packets.{NutHeader, NutPong, nut_get_pong, nut_put_pong}
use serveez.Nut.RoundTrip.{get-put_pong}
use serveez.Socket.Boundary.{IsPacket, NoneIn}
use serveez.Socket.Buffer.{Buffer, filled}
use serveez.Socket.Packets.{concat, serve, split_packet_lem}
use serveez.Socket.Split.{Handler, Outcome, split_packet_and_dispatch}

abbrev guid : List ℕ
guid = replicate 16 171

abbrev a_header : NutHeader
a_header = record { id = guid; function = 128; ttl = 5; hop = 0; length = 1000000 }

abbrev a_pong : NutPong
a_pong = record { port = 6346; ip = 3232235777; files = 300; size = 70000 }

get-put_pong_example : nut_get_pong true (nut_put_pong true a_pong ++ (1 ∷ [])) ≡ some a_pong
get-put_pong_example =
    get-put_pong true a_pong (1 ∷ []) (omega arith) (omega arith) (omega arith) (omega arith)

-- Two lines that end with CR LF, and the start of a third.
abbrev lines : Buffer
lines = record { cells = 97 ∷ 13 ∷ 10 ∷ 13 ∷ 98 ∷ 13 ∷ 10 ∷ 99 ∷ 0 ∷ 0 ∷ []; fill = 8 }

-- Counts the packets, and refuses those of one byte.
abbrev counter : Handler ℕ
counter = some (λ n packet. (length packet == 1, n + 1))

split_packet_lem_example :
    (packets : List (List ℕ)) × (left : List ℕ) × (r : Outcome ℕ) × (concat packets ++ left
      ≡ filled lines)
    × All (IsPacket (13 ∷ 10 ∷ [])) packets
    × NoneIn (13 ∷ 10 ∷ []) left []
    × (split_packet_and_dispatch 9 (13 ∷ 10 ∷ []) counter 0 lines ≡ some r)
    × (r.failed ≡ (serve counter 0 packets).0)
    × (r.state ≡ (serve counter 0 packets).1)
    × (filled r.buffer ≡ (if r.failed then filled lines else left))
split_packet_lem_example =
    split_packet_lem 9 (13 ∷ 10 ∷ []) counter 0 lines (omega arith) (omega arith) (omega arith)
