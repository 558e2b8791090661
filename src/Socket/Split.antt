-- ===== src/Socket/Split.antt =====
-- libserveez/socket.c: the routines that split the receive buffer into packets. The pointers
-- `packet` and `p` cut the data of the buffer into three: the bytes before `packet`, which are
-- `len` in number; `seen`, those from `packet` to `p`; and `rest`, those from `p` on.
-- `handle_request` is a function of the protocol's state `S`, that gives `true` for a return value
-- other than 0, or NULL.
use serveez.Base.{
  Bool, List, Option, [], drop, false, if◌then◌else◌, leb, length, none, not, some, suc, take, true,
  zero, ℕ, ◌&&◌, ◌++◌, ◌+◌, ◌==◌, ◌∷◌,
}
use serveez.Socket.Buffer.{Buffer, filled, reduce}

abbrev pub Handler : Type 0 → Type 0
Handler S = Option (S → List ℕ → Bool × S)

-- What a routine returns (`true` for -1), and the state and the buffer it leaves.
pub record Outcome (S : Type 0) : Type 0 where
  pub failed : Bool
  pub state : S
  pub buffer : Buffer

-- `memcmp (p, boundary, boundary_size) == 0`
unfoldable pub starts_with : List ℕ → List ℕ → Bool
starts_with [] rest = true
starts_with (b ∷ bs) [] = false
starts_with (b ∷ bs) (c ∷ rest) = if b == c then starts_with bs rest else false

-- `p < end`: there is room for a boundary.
abbrev pub has_room : List ℕ → List ℕ → Bool
has_room boundary rest = leb (length boundary) (length rest)

-- The inner loop: `seen` and `rest` where it stops.
unfoldable pub find_boundary : List ℕ → List ℕ → List ℕ → List ℕ × List ℕ
find_boundary boundary seen [] = (seen, [])
find_boundary boundary seen (c ∷ rest) =
    let more = find_boundary boundary (seen ++ (c ∷ [])) rest in
    if has_room boundary (c ∷ rest) && not (starts_with boundary (c ∷ rest))
    then more
    else (seen, c ∷ rest)

module _ {S : Type 0} where
  unfoldable pub handle_request : Handler S → S → List ℕ → Bool × S
  handle_request none st packet = (false, st)
  handle_request (some f) st packet = f st packet

  -- The outer loop of `split_packet_and_dispatch` on fuel, `none` if it is used up.
  unfoldable pub split_loop :
      List ℕ → Handler S → Buffer → ℕ → S → ℕ → List ℕ → List ℕ → Option (Outcome S)
  split_loop boundary f b zero st len seen rest = none
  split_loop boundary f b (suc fuel) st len seen rest =
      let (before, at) = find_boundary boundary seen rest in
      let packet = before ++ take (length boundary) at in
      let after = drop (length boundary) at in
      let (bad, next) = handle_request f st packet in
      elim (has_room boundary at && starts_with boundary at) [
        | true ↦ elim bad [
          | true ↦ some (record { failed = true; state = next; buffer = b })
          | false ↦ elim (has_room boundary after) [
            | true ↦ split_loop boundary f b fuel next (len + length packet) [] after
            | false ↦
                some
                  (record { failed = false; state = next; buffer = reduce (len + length packet) b })
          ]
        ]
        | false ↦ elim (has_room boundary at) [
          | true ↦ split_loop boundary f b fuel st len before at
          | false ↦ some (record { failed = false; state = st; buffer = reduce len b })
        ]
      ]

  unfoldable pub split_packet_and_dispatch :
      ℕ → List ℕ → Handler S → S → Buffer → Option (Outcome S)
  split_packet_and_dispatch fuel boundary f st b = split_loop boundary f b fuel st 0 [] (filled b)
