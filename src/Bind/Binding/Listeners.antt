-- ===== src/Bind/Binding/Listeners.antt =====
-- binding.c: the listening sockets with their bindings: which servers they serve on which ports, and
-- how the changes of `svz_server_bind` to single sockets act on that.
use serveez.Base.{
  ==_cases, ==_iff, Bool-cases, List, Option, [], ap, inl, inr, map, refl, sym, true, ℕ, ◌++◌, ◌==◌,
  ◌↔◌, ◌∷◌, ◌≡◌, ◌≢◌, ◌⊎◌,
}
use serveez.Bind.Binding.{Binding, Listener, items, set_bindings}
use serveez.Bind.Binding.Has.{Has}
use serveez.Bind.Equal.Key.{Key}
use serveez.Chain.{Absent, Distinct}

-- One of the sockets binds the server to a port with the key.
abbrev pub Bound : List Listener → ℕ → Key → Type 0
Bound [] s k = ⊥
Bound (l ∷ ls) s k = Has (items l.bindings) s k ⊎ Bound ls s k

abbrev pub Member : Listener → List Listener → Type 0
Member l [] = ⊥
Member l (x ∷ xs) = (x ≡ l) ⊎ Member l xs

abbrev pub socks : List Listener → List ℕ
socks ls = map (λ l. l.sock) ls

pub Bound-append :
    (ls ms : List Listener) (s : ℕ) (k : Key) → Bound (ls ++ ms) s k ↔ (Bound ls s k ⊎ Bound ms s k)
Bound-append [] ms s k = (λ h. inr h, λ h. elim h [ inl e ↦ absurd e | inr h ↦ h ])
Bound-append (l ∷ ls) ms s k =
    let rest = Bound-append ls ms s k in
    (
      λ h. elim h [
        | inl e ↦ inl (inl e)
        | inr t ↦ elim (rest.0 t) [ inl x ↦ inl (inr x) | inr x ↦ inr x ]
      ],
      λ h. elim h [
        | inl t ↦ elim t [ inl e ↦ inl e | inr x ↦ inr (rest.1 (inl x)) ]
        | inr x ↦ inr (rest.1 (inr x))
      ],
    )

Member-sock :
    (l : Listener) (ls : List Listener) (x : ℕ) → Member l ls → Absent x (socks ls) → x ≢ l.sock
Member-sock l [] x m h = absurd m
Member-sock l (y ∷ ls) x m (h, hs) = elim m [ inl e ↦ rw (← e) h | inr t ↦ Member-sock l ls x t hs ]

-- Where one part of a sum grows, the sum grows.
pub grow_left : {A B C P : Type 0} → A ↔ (B ⊎ P) → (A ⊎ C) ↔ ((B ⊎ C) ⊎ P)
grow_left h = (
  λ x. elim x [
    | inl a ↦ elim (h.0 a) [ inl b ↦ inl (inl b) | inr p ↦ inr p ]
    | inr c ↦ inl (inr c)
  ],
  λ x. elim x [
    | inl y ↦ elim y [ inl b ↦ inl (h.1 (inl b)) | inr c ↦ inr c ]
    | inr p ↦ inl (h.1 (inr p))
  ],
)

pub grow_right : {A B C P : Type 0} → A ↔ (B ⊎ P) → (C ⊎ A) ↔ ((C ⊎ B) ⊎ P)
grow_right h = (
  λ x. elim x [
    | inl c ↦ inl (inl c)
    | inr a ↦ elim (h.0 a) [ inl b ↦ inl (inr b) | inr p ↦ inr p ]
  ],
  λ x. elim x [
    | inl y ↦ elim y [ inl c ↦ inl c | inr b ↦ inr (h.1 (inl b)) ]
    | inr p ↦ inr (h.1 (inr p))
  ],
)

set-Absent :
    (ls : List Listener) (sock : ℕ) (bindings : Option (List Binding))
    → Absent sock (socks ls)
    → set_bindings ls sock bindings ≡ ls
unfolding set_bindings
set-Absent [] sock bindings h = refl
set-Absent (l ∷ ls) sock bindings (h, hs) = elim (==_cases l.sock sock) [
  | inl (e, same) ↦ absurd (h (sym same))
  | inr (e, differ) ↦ rw e (ap (λ t. l ∷ t) (set-Absent ls sock bindings hs))
]

pub ports-set :
    (ls : List Listener) (sock : ℕ) (bindings : Option (List Binding))
    → (map (λ l. l.port) (set_bindings ls sock bindings) ≡ map (λ l. l.port) ls)
      × (socks (set_bindings ls sock bindings) ≡ socks ls)
unfolding set_bindings
ports-set [] sock bindings = (refl, refl)
ports-set (l ∷ ls) sock bindings =
    let (p, q) = ports-set ls sock bindings in
    elim (Bool-cases (l.sock == sock)) [
      | inl e ↦ rw e (ap (λ t. l.port ∷ t) p, ap (λ t. l.sock ∷ t) q)
      | inr e ↦ rw e (ap (λ t. l.port ∷ t) p, ap (λ t. l.sock ∷ t) q)
    ]

set_head :
    (x : Listener) (ls : List Listener) (sock : ℕ) (bindings : Option (List Binding))
    → x.sock ≡ sock
    → Absent x.sock (socks ls)
    → set_bindings (x ∷ ls) sock bindings ≡ record x { bindings = bindings } ∷ ls
unfolding set_bindings
set_head x ls sock bindings e h =
    let found : x.sock == sock ≡ true = (==_iff x.sock sock).1 e in
    let rest = set-Absent ls sock bindings (rw (← e) h) in
    rw found (ap (λ t. record x { bindings = bindings } ∷ t) rest)

set_tail :
    (x : Listener) (ls : List Listener) (sock : ℕ) (bindings : Option (List Binding))
    → x.sock ≢ sock
    → set_bindings (x ∷ ls) sock bindings ≡ x ∷ set_bindings ls sock bindings
unfolding set_bindings
set_tail x ls sock bindings differ = elim (==_cases x.sock sock) [
  | inl (e, same) ↦ absurd (differ same)
  | inr (e, _) ↦ rw e refl
]

-- What replaces the bindings of a socket replaces them in the whole.
pub Bound-set :
    (ls : List Listener) (l : Listener) (bindings : Option (List Binding)) (s : ℕ) (k : Key)
    (P : Type 0)
    → Distinct (socks ls)
    → Member l ls
    → Has (items bindings) s k ↔ (Has (items l.bindings) s k ⊎ P)
    → Bound (set_bindings ls l.sock bindings) s k ↔ (Bound ls s k ⊎ P)
Bound-set [] l bindings s k P d m h = absurd m
Bound-set (x ∷ ls) l bindings s k P (apart, d) m h = elim m [
  | inl e ↦
      let h2 : Has (items bindings) s k ↔ (Has (items x.bindings) s k ⊎ P) = rw e h in
      rw (set_head x ls l.sock bindings (ap (λ y. y.sock) e) apart) (grow_left h2)
  | inr t ↦
      rw (set_tail x ls l.sock bindings (Member-sock l ls x.sock t apart))
        (grow_right (Bound-set ls l bindings s k P d t h))
]
