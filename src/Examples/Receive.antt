-- ===== src/Examples/Receive.antt =====
-- socket.c: the theorems on the splitting of the receive buffer at concrete data.
use serveez.Base.{[], arith, length, some, ℕ, ◌+◌, ◌==◌, ◌∷◌, ◌≡◌}
use serveez.Socket.Buffer.{Buffer}
use serveez.Socket.Request.{Routine, check_request-split, run_routine, svz_sock_check_request}
use serveez.Socket.Split.{Handler, split_packet_and_dispatch}

-- Two lines and the start of a third.
abbrev text : Buffer
text = record { cells = 97 ∷ 10 ∷ 98 ∷ 99 ∷ 10 ∷ 100 ∷ 0 ∷ 0 ∷ []; fill = 6 }

-- Counts the packets, and refuses those of one byte.
abbrev count_packets : Handler ℕ
count_packets = some (λ n packet. (length packet == 1, n + 1))

check_request-split_example :
    ((svz_sock_check_request 2 7 (some (13 ∷ 10 ∷ [])) count_packets 0 text).1
      ≡ split_packet_and_dispatch 7 (13 ∷ 10 ∷ []) count_packets 0 text)
    × ((routine : Routine) × ((svz_sock_check_request 2 7
            (some (13 ∷ 10 ∷ []))
            count_packets
            0
            text).0
          ≡ some routine)
        × ((more t : ℕ) (c : Buffer)
            → run_routine 2 more routine count_packets t c
              ≡ split_packet_and_dispatch more (13 ∷ 10 ∷ []) count_packets t c))
check_request-split_example =
    check_request-split 7 (13 ∷ 10 ∷ []) count_packets 0 text (omega arith)
