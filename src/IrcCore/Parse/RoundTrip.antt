-- ===== src/IrcCore/Parse/RoundTrip.antt =====
-- irc-core.c: messages in print, and the parameters that `irc_parse_request` reads back.
use mathlib.Core.Path.{subst}
use mathlib.Core.List.{append_assoc}
use serveez.Base.{
  ==_cases, All, Bool, List, Option, [], ap, arith, false, inl, inr, length, length-append, none,
  refl, some, suc, sym, true, zero, ℕ, ◌++◌, ◌+◌, ◌-◌, ◌<◌, ◌==◌, ◌∷◌, ◌≡◌,
}
use serveez.IrcCore.Parse.{Scan, collect, is_space, next_para, no_space, parse_paras, skip_spaces}

-- The origin, the command, the parameters without spaces, and the one that ends the message.
pub record Origin : Type 0 where
  pub nick : List ℕ
  pub user : List ℕ
  pub host : List ℕ

pub record Message : Type 0 where
  pub origin : Option Origin
  pub command : List ℕ
  pub middle : List (List ℕ)
  pub trailing : Option (List ℕ)

abbrev pub print_origin : Option Origin → List ℕ
print_origin none = []
print_origin (some o) = b':' ∷ (o.nick ++ b'!' ∷ (o.user ++ b'@' ∷ (o.host ++ b' ' ∷ [])))

abbrev pub print_paras : List (List ℕ) → Option (List ℕ) → List ℕ
print_paras [] none = []
print_paras [] (some t) = b' ' ∷ (b':' ∷ t)
print_paras (m ∷ ms) t = b' ' ∷ (m ++ print_paras ms t)

abbrev pub print_message : Message → List ℕ
print_message m = print_origin m.origin ++ (m.command ++ print_paras m.middle m.trailing)

abbrev pub paras_of : List (List ℕ) → Option (List ℕ) → List (List ℕ)
paras_of [] none = []
paras_of [] (some t) = t ∷ []
paras_of (m ∷ ms) t = m ∷ paras_of ms t

-- A loop stops behind the request or at a character.
abbrev pub StopsAt : (ℕ → Bool) → ℕ → List ℕ → Type 0
StopsAt stop zero r = Unit
StopsAt stop (suc n) [] = ⊥
StopsAt stop (suc n) (c ∷ r) = stop c ≡ true

collect_stop :
    (stop : ℕ → Bool) (n : ℕ) (r : List ℕ)
    → StopsAt stop n r
    → collect stop n r ≡ record { word = []; left = n; rest = r }
unfolding collect
collect_stop stop zero r s = refl
collect_stop stop (suc n) [] s = absurd s
collect_stop stop (suc n) (c ∷ r) s = rw (s, collect) refl

-- A loop copies a word.
pub collect_lem :
    (stop : ℕ → Bool) (w : List ℕ) (n : ℕ) (r : List ℕ) (l : ℕ)
    → All (λ c. stop c ≡ false) w
    → StopsAt stop n r
    → l ≡ length w + n
    → collect stop l (w ++ r) ≡ record { word = w; left = n; rest = r }
unfolding collect
collect_lem stop [] n r l h s e =
    let same : l ≡ n = omega (arith, e) in rw same (collect_stop stop n r s)
collect_lem stop (c ∷ w) n r zero h s e = absurd (omega (arith, e))
collect_lem stop (c ∷ w) n r (suc l) (f, h) s e =
    rw (f, collect)
      (ap {A = Scan} (λ a. record a { word = c ∷ a.word })
        (collect_lem stop w n r l h s (omega (arith, e))))

abbrev pub NoSpaces : List ℕ → Type 0
NoSpaces w = All (λ c. is_space c ≡ false) w

-- A parameter that does not end the message.
abbrev pub IsMiddle : List ℕ → Type 0
IsMiddle [] = ⊥
IsMiddle (c ∷ w) = ((c == b':') ≡ false) × ((c == 0) ≡ false) × NoSpaces (c ∷ w)

abbrev pub IsTrailing : Option (List ℕ) → Type 0
IsTrailing none = Unit
IsTrailing (some []) = ⊥
IsTrailing (some (c ∷ t)) = (c == 0) ≡ false

-- The space before a parameter.
skip_spaces_lem :
    (v : List ℕ) (c n : ℕ) (r : List ℕ) (l : ℕ)
    → is_space c ≡ false
    → l ≡ suc (suc n)
    → skip_spaces (record { word = v; left = l; rest = b' ' ∷ (c ∷ r) })
      ≡ record { word = b' ' ∷ []; left = suc n; rest = c ∷ r }
unfolding skip_spaces
skip_spaces_lem v c n r l e f =
    collect_lem no_space (b' ' ∷ []) (suc n) (c ∷ r) l (refl, tt) (rw e refl) (omega (arith, f))

next_para_middle :
    (v : List ℕ) (c : ℕ) (w : List ℕ) (n : ℕ) (r : List ℕ) (l : ℕ)
    → IsMiddle (c ∷ w)
    → StopsAt is_space n r
    → l ≡ suc (length w + n)
    → next_para (record { word = v; left = l; rest = c ∷ (w ++ r) })
      ≡ record { word = c ∷ w; left = n; rest = r }
unfolding next_para
next_para_middle v c w n r l (e, _, h) s f =
    rw e (collect_lem is_space (c ∷ w) n r l h s (omega (arith, f)))

All-any : (t : List ℕ) → All (λ c. false ≡ false) t
All-any [] = tt
All-any (c ∷ t) = (refl, All-any t)

next_para_trailing :
    (v t r : List ℕ) (l : ℕ)
    → l ≡ suc (length t)
    → next_para (record { word = v; left = l; rest = b':' ∷ (t ++ r) })
      ≡ record { word = t; left = 0; rest = r }
unfolding next_para
next_para_trailing v t r l e =
    collect_lem (λ c. false) t 0 r (l - 1) (All-any t) tt (omega (arith, e))

suc_nonzero : (n : ℕ) → (suc n == 0) ≡ false
suc_nonzero n = elim (==_cases (suc n) 0) [
  | inl (_, e) ↦ absurd (omega (arith, e))
  | inr (e, _) ↦ e
]

-- A round of the loop.
paras_step :
    (fuel : ℕ) (v w : List ℕ) (n m : ℕ) (r q : List ℕ) (p : Scan) (ps : List (List ℕ))
    → skip_spaces (record { word = v; left = suc n; rest = r })
      ≡ record { word = w; left = suc m; rest = q }
    → next_para (record { word = w; left = suc m; rest = q }) ≡ p
    → parse_paras fuel p ≡ some ps
    → parse_paras (suc fuel) (record { word = v; left = suc n; rest = r }) ≡ some (p.word ∷ ps)
unfolding parse_paras
paras_step fuel v w n m r q p ps e f g = rw e (rw f (rw (g, suc_nonzero n, suc_nonzero m) refl))

paras_end :
    (fuel : ℕ) (v r : List ℕ)
    → 0 < fuel
    → parse_paras fuel (record { word = v; left = 0; rest = r }) ≡ some []
unfolding parse_paras
paras_end zero v r h = absurd (omega (arith, h))
paras_end (suc fuel) v r h = refl

-- What follows a parameter stops it.
pub paras_stop :
    (ms : List (List ℕ)) (t : Option (List ℕ)) (r : List ℕ)
    → StopsAt is_space (length (print_paras ms t)) (print_paras ms t ++ r)
paras_stop [] none r = tt
paras_stop [] (some t) r = refl
paras_stop (m ∷ ms) t r = refl

pub paras_lem :
    (fuel : ℕ) (v : List ℕ) (ms : List (List ℕ)) (t : Option (List ℕ)) (r : List ℕ) (l : ℕ)
    → All IsMiddle ms
    → l ≡ length (print_paras ms t)
    → l < fuel
    → parse_paras fuel (record { word = v; left = l; rest = print_paras ms t ++ r })
      ≡ some (paras_of ms t)
paras_lem zero v ms t r l h e le = absurd (omega (arith, le))
paras_lem (suc fuel) v [] none r l h e le = rw e (paras_end (suc fuel) v r (omega arith))
paras_lem (suc fuel) v [] (some t) r zero h e le = absurd (omega (arith, e))
paras_lem (suc fuel) v [] (some t) r (suc l) h e le =
    paras_step fuel v (b' ' ∷ []) l (length t) (b' ' ∷ (b':' ∷ (t ++ r))) (b':' ∷ (t ++ r))
      (record { word = t; left = 0; rest = r }) []
      (skip_spaces_lem v b':' (length t) (t ++ r) (suc l) refl e)
      (next_para_trailing (b' ' ∷ []) t r (suc (length t)) refl)
      (paras_end fuel t r (omega (arith, le, e)))
paras_lem (suc fuel) v ([] ∷ ms) t r l (bad, _) e le = absurd bad
paras_lem (suc fuel) v ((c ∷ w) ∷ ms) t r zero h e le = absurd (omega (arith, e))
paras_lem (suc fuel) v ((c ∷ w) ∷ ms) t r (suc l) (h, k) e le =
    let q = print_paras ms t in
    let size : length (w ++ q) ≡ length w + length q = length-append w q in
    let tail : List ℕ = w ++ (q ++ r) in
    subst
      (λ x.
        parse_paras (suc fuel) (record { word = v; left = suc l; rest = b' ' ∷ (c ∷ x) })
        ≡ some (paras_of ((c ∷ w) ∷ ms) t))
      (sym (append_assoc w q r))
      (paras_step fuel v (b' ' ∷ []) l (length w + length q) (b' ' ∷ (c ∷ tail)) (c ∷ tail)
        (record { word = c ∷ w; left = length q; rest = q ++ r }) (paras_of ms t)
        (skip_spaces_lem v c (length w + length q) tail (suc l) h.2.0 (omega (arith, e, size)))
        (next_para_middle (b' ' ∷ []) c w (length q) (q ++ r) (suc (length w + length q)) h
          (paras_stop ms t r) refl)
        (paras_lem fuel (c ∷ w) ms t r (length q) k refl (omega (arith, le, e, size))))
