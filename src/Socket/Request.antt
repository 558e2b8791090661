-- ===== src/Socket/Request.antt =====
-- socket.c: `svz_sock_check_request`, which chooses the routine that splits the data from then on.
use serveez.Base.{
  List, Option, [], arith, get_or, if◌then◌else◌, length, ltb, none, refl, some, suc, take,
  take-length, true, zero, ℕ, ◌<◌, ◌∷◌, ◌≡◌,
}
use serveez.Socket.Buffer.{Buffer}
use serveez.Socket.Fixed.{split_packet_fixed_and_dispatch}
use serveez.Socket.Split.{Handler, Outcome, split_packet_and_dispatch}
use serveez.Socket.Unibyte.{split_packet_unibyte_and_dispatch, unibyte-split}

-- Which routine, `none` for an invalid boundary size.
pub data Routine : Type 0 where
  fixed : Routine
  several : List ℕ → Routine
  unibyte : ℕ → Routine

unfoldable pub choose_routine : Option (List ℕ) → ℕ → Option Routine
choose_routine boundary zero = none
choose_routine none (suc n) = some fixed
choose_routine (some s) (suc n) =
    if ltb 1 (suc n) then some (several (take (suc n) s)) else some (unibyte (get_or s 0 0))

choose_unibyte : (c : ℕ) → choose_routine (some (c ∷ [])) 1 ≡ some (unibyte c)
unfolding choose_routine
choose_unibyte c = refl

choose_several :
    (c d : ℕ) (s : List ℕ)
    → choose_routine (some (c ∷ (d ∷ s))) (length (c ∷ (d ∷ s))) ≡ some (several (c ∷ (d ∷ s)))
unfolding choose_routine
choose_several c d s =
    let more : ltb 1 (suc (suc (length s))) ≡ true = ground arith in
    let whole : take (length s) s ≡ s = take-length s in rw (more, whole) refl

-- For a protocol whose handler leaves `boundary` and `boundary_size` as they are; `n` is the latter, 0
-- also for a negative one.
module _ {S : Type 0} (n : ℕ) where
  unfoldable pub run_routine : ℕ → Routine → Handler S → S → Buffer → Option (Outcome S)
  run_routine fuel fixed f st b = split_packet_fixed_and_dispatch (λ t. n) fuel f st b
  run_routine fuel (several s) f st b = split_packet_and_dispatch fuel s f st b
  run_routine fuel (unibyte c) f st b = split_packet_unibyte_and_dispatch fuel c f st b

  -- The callback `check_request` behind the call, `none` for this routine itself, and what the call
  -- leaves.
  unfoldable pub svz_sock_check_request :
      ℕ → Option (List ℕ) → Handler S → S → Buffer → Option Routine × Option (Outcome S)
  svz_sock_check_request fuel boundary f st b = elim (choose_routine boundary n) [
    | none ↦ (none, some (record { failed = true; state = st; buffer = b }))
    | some routine ↦ (some routine, run_routine fuel routine f st b)
  ]

-- Where the boundary has `boundary_size` bytes, at least one, and the handler does not change it: a
-- routine replaces the callback that splits all data by the boundary as the general one does, in this
-- call and in every later one.
pub check_request-split :
    {S : Type 0} (fuel : ℕ) (s : List ℕ) (f : Handler S) (st : S) (b : Buffer)
    → 0 < length s
    → ((svz_sock_check_request (length s) fuel (some s) f st b).1
        ≡ split_packet_and_dispatch fuel s f st b)
      × ((routine : Routine) × ((svz_sock_check_request (length s) fuel (some s) f st b).0
            ≡ some routine)
          × ((more : ℕ) (t : S) (c : Buffer)
              → run_routine (length s) more routine f t c ≡ split_packet_and_dispatch more s f t c))
unfolding svz_sock_check_request run_routine
check_request-split fuel [] f st b some_byte = absurd (omega (arith, some_byte))
check_request-split fuel (c ∷ []) f st b some_byte =
    rw (choose_unibyte c, svz_sock_check_request)
      (unibyte-split fuel c f st b, (unibyte c, refl, λ more t d. unibyte-split more c f t d))
check_request-split fuel (c ∷ (d ∷ s)) f st b some_byte =
    rw (choose_several c d s, svz_sock_check_request)
      (refl, (several (c ∷ (d ∷ s)), refl, λ more t e. refl))
