-- ===== src/IrcCore/GetTarget.antt =====
-- irc-core.c: `irc_get_target`, which picks a target into a static array.
use serveez.Base.{
  All, List, [], ap, arith, false, get_or, if◌then◌else◌, length, length-set, refl, set, suc, take,
  zero, ℕ, ◌++◌, ◌+◌, ◌<◌, ◌==◌, ◌||◌, ◌∷◌, ◌≡◌,
}
use serveez.IrcCore.Target.{is_comma, skip_comma, until}
use serveez.IrcCore.Target.RoundTrip.{until_lem}

-- `for (n = 0; *p && n < nr; n++) while (*p && *p != ',') p++;`
unfoldable pub skip_targets : ℕ → List ℕ → List ℕ
skip_targets zero text = text
skip_targets (suc nr) text = skip_targets nr (until is_comma text).1

-- The loop that copies a target to the start of the array; what does not fit is not in the array.
unfoldable pub write_word : List ℕ → List ℕ → List ℕ
write_word [] array = array
write_word (c ∷ w) [] = []
write_word (c ∷ w) (b ∷ bs) = c ∷ write_word w bs

-- The array afterwards. `p == para` holds when nothing was skipped.
unfoldable pub irc_get_target : List ℕ → ℕ → List ℕ → List ℕ
irc_get_target para nr target =
    let p = skip_targets nr para in
    let word = (until is_comma (skip_comma p)).0 in
    let cleared = set target 0 0 in
    if (get_or p 0 0 == b',') || (length p == length para)
    then set (write_word word cleared) (suc (length word)) 0
    else cleared

-- The array when a target has been copied: the byte behind it is the old one.
write_word_lem :
    (w b : List ℕ)
    → length w + 1 < length b
    → take (suc (suc (length w))) (set (write_word w b) (suc (length w)) 0)
      ≡ w ++ get_or b (length w) 0 ∷ (0 ∷ [])
unfolding write_word
write_word_lem [] [] h = absurd (omega (arith, h))
write_word_lem [] (x ∷ []) h = absurd (omega (arith, h))
write_word_lem [] (x ∷ (y ∷ b)) h = refl
write_word_lem (c ∷ w) [] h = absurd (omega (arith, h))
write_word_lem (c ∷ w) (x ∷ b) h = ap (λ l. c ∷ l) (write_word_lem w b (omega (arith, h)))

-- The loop does not pass the first comma again.
skip_first :
    (k : ℕ) (w r : List ℕ)
    → All (λ c. is_comma c ≡ false) w
    → skip_targets (suc k) (w ++ b',' ∷ r) ≡ b',' ∷ r
unfolding skip_targets
skip_first zero w r h = rw (until_lem is_comma w (b',' ∷ r) h refl, skip_targets) refl
skip_first (suc k) w r h =
    rw (until_lem is_comma w (b',' ∷ r) h refl, skip_targets) (skip_first k [] r tt)

-- For every number but 0, `irc_get_target` copies the second target of a list, and the byte behind
-- the copy, before the terminating NUL, is the one that was in the array.
pub get_target-second :
    (k : ℕ) (w v r target : List ℕ)
    → All (λ c. is_comma c ≡ false) w
    → All (λ c. is_comma c ≡ false) v
    → length v + 1 < length target
    → take (suc (suc (length v))) (irc_get_target (w ++ b',' ∷ (v ++ b',' ∷ r)) (suc k) target)
      ≡ v ++ get_or (set target 0 0) (length v) 0 ∷ (0 ∷ [])
unfolding irc_get_target skip_comma
get_target-second k w v r target h g fits = rw (skip_first k w (v ++ b',' ∷ r) h) (
    rw (until_lem is_comma v (b',' ∷ r) g refl)
      (write_word_lem v (set target 0 0) (omega (arith, fits, length-set target 0 0))))
