-- ===== src/Socket/Unibyte.antt =====
-- socket.c: `split_packet_unibyte_and_dispatch`, the routine for a boundary of one byte.
use serveez.Base.{
  ==_cases, Bool, Bool-cases, List, Option, [], ap, arith, drop, false, if◌then◌else◌, inl, inr,
  leb, length, none, not, refl, some, suc, take, true, zero, ℕ, ◌&&◌, ◌++◌, ◌+◌, ◌==◌, ◌∙◌, ◌∷◌,
  ◌≡◌,
}
use serveez.Socket.Buffer.{Buffer, filled, reduce}
use serveez.Socket.Split.{
  Handler, Outcome, find_boundary, handle_request, split_loop, split_packet_and_dispatch,
  starts_with,
}

-- `*p == *sock->boundary`, where `p` is before the end.
unfoldable pub byte_at : ℕ → List ℕ → Bool
byte_at c [] = false
byte_at c (d ∷ rest) = c == d

-- The inner loop: `seen` and `rest` where it stops.
unfoldable pub find_byte : ℕ → List ℕ → List ℕ → List ℕ × List ℕ
find_byte c seen [] = (seen, [])
find_byte c seen (d ∷ rest) =
    let more = find_byte c (seen ++ (d ∷ [])) rest in
    if not (c == d) then more else (seen, d ∷ rest)

module _ {S : Type 0} where
  -- The outer loop on fuel, `none` if it is used up; `p < end` if a byte is left.
  pub unibyte_loop : ℕ → Handler S → Buffer → ℕ → S → ℕ → List ℕ → List ℕ → Option (Outcome S)
  unibyte_loop c f b zero st len seen rest = none
  unibyte_loop c f b (suc fuel) st len seen rest =
      let (before, at) = find_byte c seen rest in
      let packet = before ++ take 1 at in
      let after = drop 1 at in
      let (bad, next) = handle_request f st packet in
      elim (leb 1 (length at) && byte_at c at) [
        | true ↦ elim bad [
          | true ↦ some (record { failed = true; state = next; buffer = b })
          | false ↦ elim (leb 1 (length after)) [
            | true ↦ unibyte_loop c f b fuel next (len + length packet) [] after
            | false ↦
                some
                  (record { failed = false; state = next; buffer = reduce (len + length packet) b })
          ]
        ]
        | false ↦ elim (leb 1 (length at)) [
          | true ↦ unibyte_loop c f b fuel st len before at
          | false ↦ some (record { failed = false; state = st; buffer = reduce len b })
        ]
      ]

  unfoldable pub split_packet_unibyte_and_dispatch :
      ℕ → ℕ → Handler S → S → Buffer → Option (Outcome S)
  unfolding unibyte_loop
  split_packet_unibyte_and_dispatch fuel c f st b = unibyte_loop c f b fuel st 0 [] (filled b)

byte_at_lem : (c : ℕ) (rest : List ℕ) → byte_at c rest ≡ starts_with (c ∷ []) rest
unfolding byte_at starts_with
byte_at_lem c [] = refl
byte_at_lem c (d ∷ rest) = ground arith

one_byte : (d : ℕ) (rest : List ℕ) → leb 1 (length (d ∷ rest)) ≡ true
one_byte d rest = ground arith

find_byte_lem :
    (c : ℕ) (seen rest : List ℕ) → find_byte c seen rest ≡ find_boundary (c ∷ []) seen rest
unfolding find_byte find_boundary starts_with
find_byte_lem c seen [] = refl
find_byte_lem c seen (d ∷ rest) = elim (==_cases c d) [
  | inl (e, _) ↦ rw (e, one_byte d rest) refl
  | inr (e, _) ↦ rw (e, one_byte d rest) (find_byte_lem c (seen ++ (d ∷ [])) rest)
]

module _ {S : Type 0} where
  -- A round of the loop where the inner one stopped at `found`.
  abbrev unibyte_round : ℕ → Handler S → Buffer → ℕ → S → ℕ → List ℕ × List ℕ → Option (Outcome S)
  unibyte_round c f b fuel st len found =
      let packet = found.0 ++ take 1 found.1 in
      let after = drop 1 found.1 in
      let r = handle_request f st packet in
      elim (leb 1 (length found.1) && byte_at c found.1) [
        | true ↦ elim r.0 [
          | true ↦ some (record { failed = true; state = r.1; buffer = b })
          | false ↦ elim (leb 1 (length after)) [
            | true ↦ unibyte_loop c f b fuel r.1 (len + length packet) [] after
            | false ↦
                some
                  (record { failed = false; state = r.1; buffer = reduce (len + length packet) b })
          ]
        ]
        | false ↦ elim (leb 1 (length found.1)) [
          | true ↦ unibyte_loop c f b fuel st len found.0 found.1
          | false ↦ some (record { failed = false; state = st; buffer = reduce len b })
        ]
      ]

  unibyte_loop_lem :
      (c : ℕ) (f : Handler S) (b : Buffer) (fuel : ℕ) (st : S) (len : ℕ) (seen rest : List ℕ)
      → unibyte_loop c f b fuel st len seen rest ≡ split_loop (c ∷ []) f b fuel st len seen rest
  unfolding unibyte_loop split_loop
  unibyte_loop_lem c f b zero st len seen rest = refl
  unibyte_loop_lem c f b (suc fuel) st len seen rest =
      let q = find_boundary (c ∷ []) seen rest in
      let packet = q.0 ++ take 1 q.1 in
      let r = handle_request f st packet in
      let start : unibyte_loop c f b (suc fuel) st len seen rest
          ≡ unibyte_round c f b fuel st len q =
        ap (unibyte_round c f b fuel st len) (find_byte_lem c seen rest) in
      start
      ∙ rw (byte_at_lem c q.1, unibyte_round)
          (elim (Bool-cases (leb 1 (length q.1))) [
            | inl room ↦ elim (Bool-cases (starts_with (c ∷ []) q.1)) [
              | inl hit ↦
                  rw (room, hit, split_loop)
                    (elim (Bool-cases r.0) [
                      | inl bad ↦ rw bad refl
                      | inr ok ↦ rw ok (elim (Bool-cases (leb 1 (length (drop 1 q.1)))) [
                        | inl more ↦
                            rw more (
                              unibyte_loop_lem c f b fuel r.1 (len + length packet) [] (drop 1 q.1))
                        | inr over ↦ rw over refl
                      ])
                    ])
              | inr miss ↦
                  rw (room, miss, split_loop) (rw room (unibyte_loop_lem c f b fuel st len q.0 q.1))
            ]
            | inr none_left ↦ rw (none_left, split_loop) (rw none_left refl)
          ])

  -- The routine optimised for one byte does what the general one does, on any fuel.
  pub unibyte-split :
      (fuel c : ℕ) (f : Handler S) (st : S) (b : Buffer)
      → split_packet_unibyte_and_dispatch fuel c f st b
        ≡ split_packet_and_dispatch fuel (c ∷ []) f st b
  unfolding split_packet_unibyte_and_dispatch split_packet_and_dispatch
  unibyte-split fuel c f st b = unibyte_loop_lem c f b fuel st 0 [] (filled b)
