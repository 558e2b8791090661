-- ===== src/Examples/Raw.antt =====
-- raw-socket.c: the theorems at a concrete header.
use serveez.Base.{List, [], arith, false, some, ℕ, ◌%◌, ◌*◌, ◌+◌, ◌/◌, ◌↔◌, ◌∷◌, ◌≡◌, ◌≤◌}
use serveez.Raw.Header.{check_ip_header_iff, svz_raw_check_ip_header}

-- A header of 20 bytes for an ICMP packet of 84.
abbrev packet : List ℕ
packet = 69 ∷ 0 ∷ 0 ∷ 84 ∷ 0 ∷ 0 ∷ 64 ∷ 0 ∷ 64 ∷ 1 ∷ 0 ∷ 0 ∷ 127 ∷ 0 ∷ 0 ∷ 1 ∷ 127 ∷ 0 ∷ 0 ∷ 1 ∷ []

check_ip_header_iff_example :
    ((svz_raw_check_ip_header false packet 84).0 ≡ some 20)
    ↔ ((69 / 16 ≡ 4) × (20 ≡ 69 % 16 * 4) × (20 ≤ 84) × (84 ≤ 0 * 256 + 84) × (◌≡◌ {A = ℕ} 1 1))
check_ip_header_iff_example =
    check_ip_header_iff false 69 0 0 84 0 0 64 0 64 1
      (0 ∷ 0 ∷ 127 ∷ 0 ∷ 0 ∷ 1 ∷ 127 ∷ 0 ∷ 0 ∷ 1 ∷ []) 84 20 (omega arith) (omega arith)
      (omega arith)
