-- ===== src/Socket/Fixed.antt =====
-- socket.c: `split_packet_fixed_and_dispatch`, the routine for packets of a fixed size. The
-- protocol can change `boundary_size`, so the size is read from its state.
use mathlib.Core.List.{append_assoc}
use serveez.Base.{
  All, Bool-cases, List, Option, [], ap, arith, drop, false, if◌then◌else◌, inl, inr, length,
  length-drop, length-take, ltb, ltb_cases, none, refl, some, suc, sym, take, take-append-drop,
  true, zero, ℕ, ◌++◌, ◌+◌, ◌<◌, ◌∙◌, ◌∷◌, ◌≡◌, ◌≤◌, ◌⊎◌,
}
use serveez.Socket.Buffer.{Buffer, filled, reduce}
use serveez.Socket.Packets.{concat, outcome, outcome-filled, outcome_next, serve}
use serveez.Socket.Split.{Handler, Outcome, handle_request}

module _ {S : Type 0} (size : S → ℕ) where
  -- The loop on fuel, `none` if it is used up. Between two rounds `packet` and `p` are the same.
  pub fixed_loop : Handler S → Buffer → ℕ → S → ℕ → List ℕ → Option (Outcome S)
  fixed_loop f b zero st len rest = none
  fixed_loop f b (suc fuel) st len rest =
      let n = size st in
      let (bad, next) = handle_request f st (take n rest) in
      elim (ltb n (length rest)) [
        | false ↦ some (record { failed = false; state = st; buffer = reduce len b })
        | true ↦ elim bad [
          | true ↦ some (record { failed = true; state = next; buffer = b })
          | false ↦ fixed_loop f b fuel next (len + n) (drop n rest)
        ]
      ]

  unfoldable pub split_packet_fixed_and_dispatch : ℕ → Handler S → S → Buffer → Option (Outcome S)
  unfolding fixed_loop
  split_packet_fixed_and_dispatch fuel f st b = fixed_loop f b fuel st 0 (filled b)

  fixed_end :
      (f : Handler S) (b : Buffer) (fuel : ℕ) (st : S) (len : ℕ) (rest : List ℕ)
      → ltb (size st) (length rest) ≡ false
      → fixed_loop f b (suc fuel) st len rest ≡ some (outcome f st [] len b)
  unfolding fixed_loop
  fixed_end f b fuel st len rest over =
      let same : len ≡ len + 0 = omega arith in
      rw (over, fixed_loop)
        (ap (λ n. some (record { failed = false; state = st; buffer = reduce n b })) same)

  fixed_refused :
      (f : Handler S) (b : Buffer) (fuel : ℕ) (st : S) (len : ℕ) (rest : List ℕ)
      (ps : List (List ℕ))
      → ltb (size st) (length rest) ≡ true
      → (handle_request f st (take (size st) rest)).0 ≡ true
      → fixed_loop f b (suc fuel) st len rest ≡ some (outcome f st (take (size st) rest ∷ ps) len b)
  unfolding fixed_loop
  fixed_refused f b fuel st len rest ps more bad = rw (more, bad, fixed_loop) refl

  fixed_taken :
      (f : Handler S) (b : Buffer) (fuel : ℕ) (st : S) (len : ℕ) (rest : List ℕ)
      → ltb (size st) (length rest) ≡ true
      → (handle_request f st (take (size st) rest)).0 ≡ false
      → fixed_loop f b (suc fuel) st len rest
        ≡ fixed_loop f b fuel
            (handle_request f st (take (size st) rest)).1
            (len + size st)
            (drop (size st) rest)
  unfolding fixed_loop
  fixed_taken f b fuel st len rest more ok = rw (more, ok, fixed_loop) refl

  -- The packets of `rest`, all of size `n`, and what is left, which is never empty after a packet.
  record Served (n : ℕ) (f : Handler S) (b : Buffer) (fuel : ℕ) (st : S) (len : ℕ) (rest : List ℕ)
      : Type 0 where
    packets : List (List ℕ)
    left : List ℕ
    split : concat packets ++ left ≡ rest
    sized : All (λ p. length p ≡ n) packets
    short : length left ≤ n
    some_left : (0 < length left) ⊎ (length rest ≡ 0)
    run : fixed_loop f b fuel st len rest ≡ some (outcome f st packets len b)

  fixed_loop-Served :
      (n : ℕ) (f : Handler S) (b : Buffer) (fuel : ℕ) (st : S) (len : ℕ) (rest : List ℕ)
      → ((s : S) → size s ≡ n)
      → 0 < n
      → length rest < fuel
      → Served n f b fuel st len rest
  fixed_loop-Served n f b zero st len rest same pos few = absurd (omega arith)
  fixed_loop-Served n f b (suc fuel) st len rest same pos few =
      let k = size st in
      let const : k ≡ n = same st in
      elim (ltb_cases k (length rest)) [
        | inr (over, most) ↦ record {
          packets = [];
          left = rest;
          split = refl;
          sized = tt;
          short = omega arith;
          some_left = ground arith;
          run = fixed_end f b fuel st len rest over;
        }
        | inl (more, less) ↦
            let packet = take k rest in
            let r = handle_request f st packet in
            let exact : length packet ≡ k = omega (arith, length-take k rest) in
            let next =
              fixed_loop-Served n f b fuel r.1 (len + length packet) (drop k rest) same pos
                (omega (arith, length-drop k rest)) in
            let joined : (packet ++ concat next.packets) ++ next.left ≡ rest =
              append_assoc packet (concat next.packets) next.left
              ∙ ap (λ l. packet ++ l) next.split
              ∙ take-append-drop k rest in
            let some_left : 0 < length next.left = elim next.some_left [
              | inl h ↦ h
              | inr h ↦ absurd (omega (arith, h, length-drop k rest))
            ] in
            record {
              packets = packet ∷ next.packets;
              left = next.left;
              split = joined;
              sized = (exact ∙ const, next.sized);
              short = next.short;
              some_left = inl some_left;
              run = elim (Bool-cases r.0) [
                | inl bad ↦ fixed_refused f b fuel st len rest next.packets more bad
                | inr ok ↦
                    fixed_taken f b fuel st len rest more ok
                    ∙ ap (λ (m : ℕ). fixed_loop f b fuel r.1 (len + m) (drop k rest)) (sym exact)
                    ∙ next.run
                    ∙ ap some (outcome_next f st packet next.packets len b ok)
              ];
            }
      ]

  -- For packets of a constant size `n` of at least one byte, a buffer whose fill lies inside it and
  -- more fuel than its fill, the data consists of packets of `n` bytes and of a rest of at most `n`
  -- bytes, which is empty only if there is no data. The routine ends, hands the packets to the
  -- protocol in order up to the first that it refuses, and returns -1 exactly if there is one.
  -- Otherwise the rest is what stays in the buffer; after a refusal the whole data stays.
  split_fixed_lem :
      (n fuel : ℕ) (f : Handler S) (st : S) (b : Buffer)
      → ((s : S) → size s ≡ n)
      → 0 < n
      → b.fill ≤ length b.cells
      → b.fill < fuel
      → (packets : List (List ℕ)) × (left : List ℕ) × (r : Outcome S) × (concat packets ++ left
          ≡ filled b)
        × All (λ p. length p ≡ n) packets
        × (length left ≤ n)
        × ((0 < length left) ⊎ (length (filled b) ≡ 0))
        × (split_packet_fixed_and_dispatch fuel f st b ≡ some r)
        × (r.failed ≡ (serve f st packets).0)
        × (r.state ≡ (serve f st packets).1)
        × (filled r.buffer ≡ (if r.failed then filled b else left))
  unfolding split_packet_fixed_and_dispatch
  split_fixed_lem n fuel f st b same pos inside enough =
      let few : length (filled b) < fuel = omega (arith, length-take b.fill b.cells) in
      let s = fixed_loop-Served n f b fuel st 0 (filled b) same pos few in
      (
        s.packets,
        s.left,
        outcome f st s.packets 0 b,
        s.split,
        s.sized,
        s.short,
        s.some_left,
        s.run,
        refl,
        refl,
        outcome-filled f st s.packets s.left b inside s.split,
      )
