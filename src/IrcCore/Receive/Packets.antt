-- ===== src/IrcCore/Receive/Packets.antt =====
-- irc-core.c: what `irc_check_request` hands to the handler.
use serveez.Base.{
  All, Bool, Bool-cases, List, [], arith, false, if◌then◌else◌, inl, inr, length, length-append,
  none, refl, some, suc, true, zero, ℕ, ◌++◌, ◌+◌, ◌<◌, ◌==◌, ◌∷◌, ◌≡◌,
}
use serveez.IrcCore.Receive.{check_packets, find_packet, irc_check_request, line_end}

abbrev pub NoNewline : List ℕ → Type 0
NoNewline w = All (λ c. (c == b'\n') ≡ false) w

-- Lines, each with a newline behind it, and what has none.
abbrev pub stream : List (List ℕ) → List ℕ → List ℕ
stream [] tail = tail
stream (l ∷ ls) tail = (l ++ b'\n' ∷ []) ++ stream ls tail

find_packet-none : (w : List ℕ) → NoNewline w → find_packet w ≡ none
unfolding find_packet
find_packet-none [] h = refl
find_packet-none (c ∷ w) (e, h) = rw (e, find_packet) (rw (find_packet-none w h) refl)

find_packet_lem :
    (w r : List ℕ) → NoNewline w → find_packet ((w ++ b'\n' ∷ []) ++ r) ≡ some (w ++ b'\n' ∷ [], r)
unfolding find_packet
find_packet_lem [] r h = refl
find_packet_lem (c ∷ w) r (e, h) = rw (e, find_packet) (rw (find_packet_lem w r h) refl)

module _ {ℓ} {S : Type ℓ} (irc_handle_request : S → List ℕ → ℕ → Bool × S) where
  -- The handler gets one line after the other, until it fails: the return value, its state, and the
  -- lines that it did not get.
  abbrev pub handle_lines : ℕ → List (List ℕ) → S → Bool × S × List (List ℕ)
  handle_lines before [] s = (false, s, [])
  handle_lines before (l ∷ ls) s =
      let packet = l ++ b'\n' ∷ [] in
      let r = irc_handle_request s packet (line_end before packet) in
      let rest = handle_lines b'\n' ls r.1 in if r.0 then (true, r.1, ls) else rest

  packets_lem :
      (fuel before : ℕ) (ls : List (List ℕ)) (tail : List ℕ) (s : S)
      → All NoNewline ls
      → NoNewline tail
      → length (stream ls tail) < fuel
      → check_packets irc_handle_request fuel before (stream ls tail) s
        ≡ (let r = handle_lines before ls s in some (r.0, r.1, stream r.2 tail))
  unfolding check_packets
  packets_lem zero before ls tail s h k le = absurd (omega (arith, le))
  packets_lem (suc fuel) before [] tail s h k le = rw (find_packet-none tail k, check_packets) refl
  packets_lem (suc fuel) before (l ∷ ls) tail s (e, h) k le =
      let packet = l ++ b'\n' ∷ [] in
      let r = irc_handle_request s packet (line_end before packet) in
      let size : length (stream (l ∷ ls) tail) ≡ length packet + length (stream ls tail) =
        length-append packet (stream ls tail) in
      let one : length packet ≡ length l + 1 = length-append l (b'\n' ∷ []) in
      elim (Bool-cases r.0) [
        | inl bad ↦
            rw (find_packet_lem l (stream ls tail) e, check_packets) (rw (bad, check_packets) refl)
        | inr good ↦
            rw (find_packet_lem l (stream ls tail) e, check_packets)
              (rw (good, check_packets)
                (packets_lem fuel b'\n' ls tail r.1 h k (omega (arith, le, size, one))))
      ]

  -- For a buffer of complete lines and a last one without a newline: the handler gets the lines in
  -- order until it fails, a carriage return before the newline does not count, and exactly the lines
  -- that it did not get and the incomplete one stay in the buffer.
  pub check_request-handle_lines :
      (before : ℕ) (ls : List (List ℕ)) (tail : List ℕ) (s : S)
      → All NoNewline ls
      → NoNewline tail
      → irc_check_request irc_handle_request before (stream ls tail) s
        ≡ (let r = handle_lines before ls s in some (r.0, r.1, stream r.2 tail))
  unfolding irc_check_request
  check_request-handle_lines before ls tail s h k =
      packets_lem (length (stream ls tail) + 1) before ls tail s h k (omega arith)
