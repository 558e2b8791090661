-- ===== src/Socket/Packets.antt =====
-- socket.c: which packets `split_packet_and_dispatch` hands to the protocol.
use mathlib.Core.Path.{subst}
use mathlib.Core.List.{append_assoc}
use serveez.Base.{
  All, Bool, Bool-cases, List, Option, [], ap, arith, drop, drop-append_exact, false, if◌then◌else◌,
  inl, inr, leb_cases, length, length-append, length-take, refl, some, suc, sym, take,
  take-append-drop, true, zero, ℕ, ◌++◌, ◌+◌, ◌<◌, ◌∙◌, ◌∷◌, ◌≡◌, ◌≤◌,
}
use serveez.Socket.Boundary.{
  IsPacket, NoneIn, NoneIn-append, NoneIn-boundary, NoneIn-short, find_boundary-Stop,
  starts_with-take,
}
use serveez.Socket.Buffer.{Buffer, filled, reduce, reduce-filled}
use serveez.Socket.Split.{
  Handler, Outcome, find_boundary, handle_request, has_room, split_loop, split_packet_and_dispatch,
  starts_with,
}

abbrev pub concat : List (List ℕ) → List ℕ
concat [] = []
concat (p ∷ ps) = p ++ concat ps

rejoin :
    (q b after cs left rest at : List ℕ)
    → cs ++ left ≡ after
    → at ≡ b ++ after
    → rest ≡ q ++ at
    → ((q ++ b) ++ cs) ++ left ≡ rest
rejoin q b after cs left rest at e f g =
    append_assoc (q ++ b) cs left
    ∙ ap (λ l. (q ++ b) ++ l) e
    ∙ append_assoc q b after
    ∙ ap (λ l. q ++ l) (sym f)
    ∙ sym g

module _ {S : Type 0} where
  -- The packets in order, up to the first that the protocol refuses.
  abbrev pub serve : Handler S → S → List (List ℕ) → Bool × S
  serve f st [] = (false, st)
  serve f st (p ∷ ps) =
      let r = handle_request f st p in
      let rest = serve f r.1 ps in if r.0 then (true, r.1) else rest

  -- What is left after these packets, of which `len` bytes came before them.
  abbrev pub outcome : Handler S → S → List (List ℕ) → ℕ → Buffer → Outcome S
  outcome f st ps len b =
      let r = serve f st ps in
      record {
        failed = r.0;
        state = r.1;
        buffer = if r.0 then b else reduce (len + length (concat ps)) b;
      }

  -- A round of the outer loop that finds `packet`, with `after` behind it.
  abbrev round : List ℕ → Handler S → Buffer → ℕ → S → ℕ → List ℕ → List ℕ → Option (Outcome S)
  round boundary f b fuel st len packet after =
      let r = handle_request f st packet in
      elim r.0 [
        | true ↦ some (record { failed = true; state = r.1; buffer = b })
        | false ↦ elim (has_room boundary after) [
          | true ↦ split_loop boundary f b fuel r.1 (len + length packet) [] after
          | false ↦
              some (record { failed = false; state = r.1; buffer = reduce (len + length packet) b })
        ]
      ]

  round_end :
      (boundary : List ℕ) (f : Handler S) (b : Buffer) (fuel : ℕ) (st : S) (len : ℕ) (rest : List ℕ)
      → has_room boundary (find_boundary boundary [] rest).1 ≡ false
      → split_loop boundary f b (suc fuel) st len [] rest
        ≡ some (record { failed = false; state = st; buffer = reduce len b })
  unfolding split_loop
  round_end boundary f b fuel st len rest room = rw (room, split_loop) (rw room refl)

  round_packet :
      (boundary : List ℕ) (f : Handler S) (b : Buffer) (fuel : ℕ) (st : S) (len : ℕ) (rest : List ℕ)
      → has_room boundary (find_boundary boundary [] rest).1 ≡ true
      → starts_with boundary (find_boundary boundary [] rest).1 ≡ true
      → split_loop boundary f b (suc fuel) st len [] rest ≡ (
          let found = find_boundary boundary [] rest in
          round boundary f b fuel st len
            (found.0 ++ take (length boundary) found.1)
            (drop (length boundary) found.1))
  unfolding split_loop
  round_packet boundary f b fuel st len rest room hit = rw (room, hit, split_loop) refl

  round_refused :
      (boundary : List ℕ) (f : Handler S) (b : Buffer) (fuel : ℕ) (st : S) (len : ℕ)
      (packet after : List ℕ) (ps : List (List ℕ))
      → (handle_request f st packet).0 ≡ true
      → round boundary f b fuel st len packet after ≡ some (outcome f st (packet ∷ ps) len b)
  round_refused boundary f b fuel st len packet after ps bad = rw (bad, round) refl

  round_taken :
      (boundary : List ℕ) (f : Handler S) (b : Buffer) (fuel : ℕ) (st : S) (len : ℕ)
      (packet after : List ℕ)
      → (handle_request f st packet).0 ≡ false
      → has_room boundary after ≡ true
      → round boundary f b fuel st len packet after
        ≡ split_loop boundary f b fuel (handle_request f st packet).1 (len + length packet) [] after
  round_taken boundary f b fuel st len packet after ok more = rw (ok, round) (rw more refl)

  round_last :
      (boundary : List ℕ) (f : Handler S) (b : Buffer) (fuel : ℕ) (st : S) (len : ℕ)
      (packet after : List ℕ)
      → (handle_request f st packet).0 ≡ false
      → has_room boundary after ≡ false
      → round boundary f b fuel st len packet after ≡ some (outcome f st (packet ∷ []) len b)
  round_last boundary f b fuel st len packet after ok over =
      let r = handle_request f st packet in
      let all : len + length packet ≡ len + length (packet ++ []) =
        omega (arith, length-append packet []) in
      rw (ok, round)
        (rw over
          (ap (λ (n : ℕ). some (record { failed = false; state = r.1; buffer = reduce n b })) all))

  -- One packet more at the front, which the protocol takes.
  pub outcome_next :
      (f : Handler S) (st : S) (p : List ℕ) (ps : List (List ℕ)) (len : ℕ) (b : Buffer)
      → (handle_request f st p).0 ≡ false
      → outcome f (handle_request f st p).1 ps (len + length p) b ≡ outcome f st (p ∷ ps) len b
  outcome_next f st p ps len b ok =
      let all : len + length p + length (concat ps) ≡ len + length (p ++ concat ps) =
        omega (arith, length-append p (concat ps)) in
      rw (ok, all) refl

  -- The packets of `rest`, and what is left behind the last boundary.
  record Served (boundary : List ℕ) (f : Handler S) (b : Buffer) (fuel : ℕ) (st : S) (len : ℕ)
      (rest : List ℕ) : Type 0 where
    packets : List (List ℕ)
    left : List ℕ
    split : concat packets ++ left ≡ rest
    ended : All (IsPacket boundary) packets
    none_left : NoneIn boundary left []
    run : split_loop boundary f b fuel st len [] rest ≡ some (outcome f st packets len b)

  split_loop-Served :
      (boundary : List ℕ) (f : Handler S) (b : Buffer) (fuel : ℕ) (st : S) (len : ℕ) (rest : List ℕ)
      → 0 < length boundary
      → length rest < fuel
      → Served boundary f b fuel st len rest
  split_loop-Served boundary f b zero st len rest h few = absurd (omega arith)
  split_loop-Served boundary f b (suc fuel) st len rest h few =
      let s = find_boundary-Stop boundary [] rest h in
      elim s.why [
        | inr short ↦
            let room : has_room boundary s.at ≡ false = ground arith in
            record {
              packets = [];
              left = rest;
              split = refl;
              ended = tt;
              none_left = rw s.split (
                  NoneIn-append boundary s.passed s.at s.none_passed
                    (NoneIn-short boundary s.at short));
              run =
                  round_end boundary f b fuel st len rest (rw s.result room)
                  ∙ ap (λ n. some (record { failed = false; state = st; buffer = reduce n b }))
                      (omega arith);
            }
        | inl (room, hit) ↦
            let n = length boundary in
            let cut : take n s.at ≡ boundary = starts_with-take boundary s.at hit in
            let after = drop n s.at in
            let whole : s.at ≡ boundary ++ after =
              sym (take-append-drop n s.at) ∙ ap (λ l. l ++ after) cut in
            let packet = s.passed ++ boundary in
            let r = handle_request f st packet in
            let found : split_loop boundary f b (suc fuel) st len [] rest
                ≡ round boundary f b fuel st len packet after =
              round_packet boundary f b fuel st len rest (rw s.result room) (rw s.result hit)
              ∙ ap
                  (λ (q : List ℕ × List ℕ).
                    round boundary f b fuel st len (q.0 ++ take n q.1) (drop n q.1))
                  s.result
              ∙ ap (λ l. round boundary f b fuel st len (s.passed ++ l) after) cut in
            let first : IsPacket boundary packet = record {
              content = s.passed;
              ended = refl;
              first =
                  NoneIn-boundary boundary s.passed after
                    (subst (NoneIn boundary s.passed) whole s.none_passed);
            } in
            let fewer : length after < fuel = omega (
              arith,
              ap length s.split,
              length-append s.passed s.at,
              ap length whole,
              length-append boundary after,
            ) in
            let next =
              split_loop-Served boundary f b fuel r.1 (len + length packet) after h fewer in
            let joined =
              rejoin s.passed boundary after (concat next.packets) next.left rest s.at next.split
                whole s.split in
            elim (Bool-cases r.0) [
              | inl bad ↦ record {
                packets = packet ∷ next.packets;
                left = next.left;
                split = joined;
                ended = (first, next.ended);
                none_left = next.none_left;
                run = found ∙ round_refused boundary f b fuel st len packet after next.packets bad;
              }
              | inr ok ↦ elim (leb_cases n (length after)) [
                | inl (more, _) ↦ record {
                  packets = packet ∷ next.packets;
                  left = next.left;
                  split = joined;
                  ended = (first, next.ended);
                  none_left = next.none_left;
                  run =
                      found
                      ∙ round_taken boundary f b fuel st len packet after ok more
                      ∙ next.run
                      ∙ ap some (outcome_next f st packet next.packets len b ok);
                }
                | inr (over, short) ↦ record {
                  packets = packet ∷ [];
                  left = after;
                  split = rejoin s.passed boundary after [] after rest s.at refl whole s.split;
                  ended = (first, tt);
                  none_left = NoneIn-short boundary after short;
                  run = found ∙ round_last boundary f b fuel st len packet after ok over;
                }
              ]
            ]
      ]

  -- The data in the buffer after the packets.
  pub outcome-filled :
      (f : Handler S) (st : S) (ps : List (List ℕ)) (left : List ℕ) (b : Buffer)
      → b.fill ≤ length b.cells
      → concat ps ++ left ≡ filled b
      → filled (outcome f st ps 0 b).buffer ≡ (if (serve f st ps).0 then filled b else left)
  outcome-filled f st ps left b inside split =
      let rest : filled (reduce (length (concat ps)) b) ≡ left =
        reduce-filled (length (concat ps)) b inside
        ∙ ap (drop (length (concat ps))) (sym split)
        ∙ drop-append_exact (concat ps) left in
      elim (Bool-cases (serve f st ps).0) [
        | inl bad ↦ rw bad refl
        | inr ok ↦ rw ok (ap (λ (n : ℕ). filled (reduce n b)) (omega arith) ∙ rest)
      ]

  -- With a boundary of at least one byte, a buffer whose fill lies inside it and more fuel than
  -- its fill, the data consists of packets, each of which ends with the first boundary in it, and
  -- of a rest without a boundary. The routine ends, hands the packets to the protocol in order up
  -- to the first that it refuses, and returns -1 exactly if there is one. Otherwise the rest is
  -- what stays in the buffer; after a refusal the whole data stays.
  pub split_packet_lem :
      (fuel : ℕ) (boundary : List ℕ) (f : Handler S) (st : S) (b : Buffer)
      → 0 < length boundary
      → b.fill ≤ length b.cells
      → b.fill < fuel
      → (packets : List (List ℕ)) × (left : List ℕ) × (r : Outcome S) × (concat packets ++ left
          ≡ filled b)
        × All (IsPacket boundary) packets
        × NoneIn boundary left []
        × (split_packet_and_dispatch fuel boundary f st b ≡ some r)
        × (r.failed ≡ (serve f st packets).0)
        × (r.state ≡ (serve f st packets).1)
        × (filled r.buffer ≡ (if r.failed then filled b else left))
  unfolding split_packet_and_dispatch
  split_packet_lem fuel boundary f st b h inside enough =
      let few : length (filled b) < fuel = omega (arith, length-take b.fill b.cells) in
      let s = split_loop-Served boundary f b fuel st 0 (filled b) h few in
      (
        s.packets,
        s.left,
        outcome f st s.packets 0 b,
        s.split,
        s.ended,
        s.none_left,
        s.run,
        refl,
        refl,
        outcome-filled f st s.packets s.left b inside s.split,
      )
