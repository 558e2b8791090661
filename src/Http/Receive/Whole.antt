-- ===== src/Http/Receive/Whole.antt =====
-- http-proto.c: `http_check_request` on a request in print, whatever follows it in the buffer.
use mathlib.Core.Bool.{true≢false}
use mathlib.Core.List.{append_assoc}
use serveez.Base.{
  ==_cases, All, All-append, List, Option, [], ap, arith, false, inl, inr, refl, some, sym, ℕ, ◌++◌,
  ◌∙◌, ◌∷◌, ◌≡◌, ◌≢◌,
}
use serveez.Http.Property.{is_empty}
use serveez.Http.Property.RoundTrip.{IsProperty, Property, eol, print_properties}
use serveez.Http.Receive.{eol2, find_end, prepend}

-- Bytes put in front of what a search finds.
prefixed : List ℕ → Option (List ℕ × List ℕ) → Option (List ℕ × List ℕ)
prefixed [] o = o
prefixed (c ∷ cs) o = prepend c (prefixed cs o)

prefixed-some : (cs a b : List ℕ) → prefixed cs (some (a, b)) ≡ some (cs ++ a, b)
unfolding prefixed
prefixed-some [] a b = refl
prefixed-some (c ∷ cs) a b = ap (prepend c) (prefixed-some cs a b)

-- The search passes what cannot begin an empty line.
find_other : (c : ℕ) (p : List ℕ) → eol2 (c ∷ p) ≡ false → find_end (c ∷ p) ≡ prepend c (find_end p)
unfolding find_end
find_other c p h = rw (h, find_end) refl

eol2_other : (c : ℕ) (p : List ℕ) → c ≢ 13 → eol2 (c ∷ p) ≡ false
eol2_other c p h = elim (==_cases c 13) [
  | inl (e, same) ↦ absurd (h same)
  | inr (e, differ) ↦ rw e refl
]

find_skip : (cs p : List ℕ) → All (λ c. c ≢ 13) cs → find_end (cs ++ p) ≡ prefixed cs (find_end p)
unfolding prefixed
find_skip [] p h = refl
find_skip (c ∷ cs) p (h, hs) =
    find_other c (cs ++ p) (eol2_other c (cs ++ p) h) ∙ ap (prepend c) (find_skip cs p hs)

-- The end of a line, before a byte that is no carriage return.
find_eol : (c : ℕ) (p : List ℕ) → c ≢ 13 → find_end (eol ++ c ∷ p) ≡ prefixed eol (find_end (c ∷ p))
unfolding prefixed
find_eol c p k = find_other 13 (10 ∷ c ∷ p) no_second ∙ ap (prepend 13) (find_other 10 (c ∷ p) refl)
  where
    no_second : eol2 (13 ∷ 10 ∷ c ∷ p) ≡ false
    no_second = elim (==_cases c 13) [
      | inl (e, same) ↦ absurd (k same)
      | inr (e, differ) ↦ rw e refl
    ]

-- A line that is not empty, between two ends of lines.
find_between :
    (line p : List ℕ) (o : Option (List ℕ × List ℕ))
    → All (λ c. c ≢ 13) line
    → is_empty line ≡ false
    → find_end (eol ++ p) ≡ o
    → find_end (eol ++ (line ++ (eol ++ p))) ≡ prefixed eol (prefixed line o)
find_between [] p o h k e = absurd (true≢false k)
find_between (c ∷ line) p o (h, hs) k e =
    find_eol c (line ++ (eol ++ p)) h
    ∙ ap (prefixed eol) (find_skip (c ∷ line) (eol ++ p) (h, hs) ∙ ap (prefixed (c ∷ line)) e)

find_nothing : (rest : List ℕ) → find_end (eol ++ (eol ++ rest)) ≡ some (eol ++ eol, rest)
unfolding find_end
find_nothing rest = refl

-- The properties and the empty line behind them are found as a whole.
find_properties :
    (ps : List Property) (rest : List ℕ)
    → All IsProperty ps
    → find_end (eol ++ (print_properties ps ++ rest)) ≡ some (eol ++ print_properties ps, rest)
find_properties [] rest h = find_nothing rest
find_properties ((name, value) ∷ ps) rest (((a, b, _), _, _), hs) =
    let line = name ++ b':' ∷ b' ' ∷ value in
    let more = print_properties ps in
    let free : All (λ c. c ≢ 13) line =
      All-append (λ c. c ≢ 13) name (b':' ∷ b' ' ∷ value) (second name a)
        ((λ e. omega (arith, e)), ((λ e. omega (arith, e)), b)) in
    ap (λ t. find_end (eol ++ t)) (shape name value more rest)
    ∙ find_between line (more ++ rest) (some (eol ++ more, rest)) free (some_byte name)
        (find_properties ps rest hs)
    ∙ ap (prefixed eol) (prefixed-some line (eol ++ more) rest)
    ∙ prefixed-some eol (line ++ (eol ++ more)) rest
    ∙ ap (λ t. some (eol ++ t, rest)) (joined name value more)
  where
    second : (cs : List ℕ) → All (λ c. (c ≢ b':') × (c ≢ 13)) cs → All (λ c. c ≢ 13) cs
    second [] x = tt
    second (c ∷ cs) (x, xs) = (x.1, second cs xs)

    some_byte : (cs : List ℕ) → is_empty (cs ++ b':' ∷ b' ' ∷ value) ≡ false
    some_byte [] = refl
    some_byte (c ∷ cs) = refl

    joined :
        (n v m : List ℕ)
        → (n ++ b':' ∷ b' ' ∷ v) ++ (eol ++ m) ≡ (n ++ b':' ∷ b' ' ∷ (v ++ eol)) ++ m
    joined n v m =
        append_assoc n (b':' ∷ b' ' ∷ v) (eol ++ m)
        ∙ ap (λ t. n ++ b':' ∷ b' ' ∷ t) (sym (append_assoc v eol m))
        ∙ sym (append_assoc n (b':' ∷ b' ' ∷ (v ++ eol)) m)

    shape :
        (n v m r : List ℕ)
        → ((n ++ b':' ∷ b' ' ∷ (v ++ eol)) ++ m) ++ r ≡ (n ++ b':' ∷ b' ' ∷ v) ++ (eol ++ (m ++ r))
    shape n v m r = append_assoc (n ++ b':' ∷ b' ' ∷ (v ++ eol)) m r ∙ sym (joined n v (m ++ r))

-- A request in print is found as a whole.
pub find_request_end :
    (line rest : List ℕ) (ps : List Property)
    → All (λ c. c ≢ 13) line
    → All IsProperty ps
    → find_end ((line ++ (eol ++ print_properties ps)) ++ rest)
      ≡ some (line ++ (eol ++ print_properties ps), rest)
find_request_end line rest ps h k =
    ap find_end (append_assoc line (eol ++ print_properties ps) rest)
    ∙ find_skip line (eol ++ (print_properties ps ++ rest)) h
    ∙ ap (prefixed line) (find_properties ps rest k)
    ∙ prefixed-some line (eol ++ print_properties ps) rest
