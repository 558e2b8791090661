-- ===== src/IrcCore/Receive.antt =====
-- irc-core.c: detecting the protocol, and cutting what is received into messages.
pub mod Packets
use serveez.Base.{
  Bool, List, Option, [], false, get_or, if◌then◌else◌, leb, length, none, some, suc, true, zero, ℕ,
  ◌&&◌, ◌+◌, ◌==◌, ◌||◌, ◌∷◌,
}

-- The first four bytes, if there are so many.
abbrev begins_with : ℕ → ℕ → ℕ → ℕ → List ℕ → Bool
begins_with a b c d text =
    (get_or text 0 0 == a)
    && ((get_or text 1 0 == b) && ((get_or text 2 0 == c) && (get_or text 3 0 == d)))

-- `true` for the return value -1; the list has `recv_buffer_fill` bytes.
unfoldable pub irc_detect_proto : List ℕ → Bool
irc_detect_proto recv =
    if leb 1 (length recv) && (get_or recv 0 0 == b':')
    then true
    else leb 4 (length recv)
      && (begins_with b'P' b'A' b'S' b'S' recv
          || (begins_with b'N' b'I' b'C' b'K' recv || begins_with b'U' b'S' b'E' b'R' recv))

-- The bytes up to a newline, and the others; `none` without one.
unfoldable pub find_packet : List ℕ → Option (List ℕ × List ℕ)
find_packet [] = none
find_packet (c ∷ cs) = elim (c == b'\n') [
  | true ↦ some (c ∷ [], cs)
  | false ↦ elim (find_packet cs) [ none ↦ none | some (packet, rest) ↦ some (c ∷ packet, rest) ]
]

-- `*(p - 2)`, which for a packet of one byte stands before it.
abbrev pub last_but_one : ℕ → List ℕ → ℕ
last_but_one before [] = before
last_but_one before (c ∷ []) = before
last_but_one before (c ∷ (d ∷ ds)) = last_but_one c (d ∷ ds)

-- How many bytes at the end of the packet do not belong to the request.
abbrev pub line_end : ℕ → List ℕ → ℕ
line_end before packet = if last_but_one before packet == b'\r' then 2 else 1

module _ {ℓ} {S : Type ℓ} (irc_handle_request : S → List ℕ → ℕ → Bool × S) where
  -- The loop, for the byte before the packet; `none` without enough fuel. The result is the return
  -- value, `true` for one that is not 0, the state of the handler, and what stays in the buffer.
  unfoldable pub check_packets : ℕ → ℕ → List ℕ → S → Option (Bool × S × List ℕ)
  check_packets zero before recv s = none
  check_packets (suc fuel) before recv s = elim (find_packet recv) [
    | none ↦ some (false, s, recv)
    | some (packet, rest) ↦
        let r = irc_handle_request s packet (line_end before packet) in
        elim r.0 [ true ↦ some (true, r.1, rest) | false ↦ check_packets fuel b'\n' rest r.1 ]
  ]

  -- The byte `before` is what the memory holds in front of the receive buffer.
  unfoldable pub irc_check_request : ℕ → List ℕ → S → Option (Bool × S × List ℕ)
  irc_check_request before recv s = check_packets (length recv + 1) before recv s
