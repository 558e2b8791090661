-- ===== src/Examples/Rooms.antt =====
-- irc-proto.c: the theorems at a channel with two clients.
use mathlib.Core.Path.{subst}
use serveez.Base.{
  ==_cases, Bool, List, [], arith, false, if◌then◌else◌, inl, inr, refl, some, true, ℕ, ◌&&◌, ◌==◌,
  ◌↔◌, ◌∷◌, ◌≡◌, ◌≢◌, ◌⊎◌,
}
use serveez.Chain.{assign}
use serveez.Irc.Channels.{
  IrcConfig, client_of, find_name, irc_client_in_channel, irc_join_channel, irc_leave_channel,
  itself, leave_all_loop, mode_operator,
}
use serveez.Irc.Channels.Consistent.{IsConsistent}
use serveez.Irc.Channels.Leave.{leave-IsConsistent}
use serveez.Irc.Channels.LeaveAll.{leave_all-IsConsistent}
use serveez.Irc.Channels.Moves.{IsNamed, Joins, Leaves, Refused, join-IsConsistent}
use serveez.Irc.Swap.{In, Once, move_last_into}

-- The clients 1 and 2 are in the channel 10, whose name is "#a".
abbrev chan_a : List ℕ
chan_a = b'#' ∷ b'a' ∷ []

abbrev chan_b : List ℕ
chan_b = b'#' ∷ b'b' ∷ []

abbrev members : List (ℕ × ℕ)
members = (1, mode_operator) ∷ (2, 0) ∷ []

abbrev lobby : IrcConfig
lobby = record {
  client = λ x. if 10 == x then members else [];
  channel = λ c. if 1 == c then 10 ∷ [] else if 2 == c then 10 ∷ [] else [];
  name = λ x. chan_a;
  channels = 10 ∷ [];
  channels_per_user = 10;
}

abbrev same_name : List ℕ → List ℕ → Bool
same_name [] [] = true
same_name [] (b ∷ bs) = false
same_name (a ∷ as_) [] = false
same_name (a ∷ as_) (b ∷ bs) = a == b && same_name as_ bs

abbrev InRoom : ℕ → Type 0
InRoom c = (1 ≡ c) ⊎ ((2 ≡ c) ⊎ ⊥)

lobby_clients : (x : ℕ) → Once client_of (lobby.client x)
lobby_clients x = elim (==_cases 10 x) [
  | inl (e, _) ↦ rw e (λ h. elim h [ inl f ↦ absurd (omega (arith, f)) | inr t ↦ t ], (λ t. t, tt))
  | inr (e, _) ↦ rw e tt
]

lobby_channel :
    (c : ℕ) → (InRoom c × (lobby.channel c ≡ 10 ∷ [])) ⊎ (¬ InRoom c × (lobby.channel c ≡ []))
lobby_channel c = elim (==_cases 1 c) [
  | inl (e, f) ↦ inl (inl f, rw e refl)
  | inr (e, f) ↦ elim (==_cases 2 c) [
    | inl (g, h) ↦ inl (inr (inl h), rw (e, g) refl)
    | inr (g, h) ↦
        inr
          (λ t. elim t [ inl u ↦ f u | inr u ↦ elim u [ inl v ↦ h v | inr v ↦ v ] ], rw (e, g) refl)
  ]
]

lobby_both : (c x : ℕ) → In client_of c (lobby.client x) ↔ In itself x (lobby.channel c)
lobby_both c x = elim (==_cases 10 x) [
  | inl (e, f) ↦ elim (lobby_channel c) [
    | inl (inside, g) ↦ rw (e, g) (λ t. inl f, λ t. inside)
    | inr (outside, g) ↦ rw (e, g) (λ t. outside t, λ t. absurd t)
  ]
  | inr (e, f) ↦ elim (lobby_channel c) [
    | inl (inside, g) ↦ rw (e, g) (λ t. absurd t, λ t. elim t [ inl u ↦ f u | inr u ↦ u ])
    | inr (outside, g) ↦ rw (e, g) (λ t. t, λ t. t)
  ]
]

lobby-IsConsistent : IsConsistent lobby
lobby-IsConsistent = record {
  clients = lobby_clients;
  channels = λ c. elim (lobby_channel c) [ inl (_, g) ↦ rw g (λ t. t, tt) | inr (_, g) ↦ rw g tt ];
  both = lobby_both;
  limit = λ c. elim (lobby_channel c) [
    | inl (_, g) ↦ rw g (omega arith)
    | inr (_, g) ↦ rw g (omega arith)
  ];
}

no_channel_11 : (c : ℕ) → ¬ In itself 11 (lobby.channel c)
no_channel_11 c t = elim (In-left t) [ inl e ↦ absurd (omega (arith, e)) | inr v ↦ v ]
  where
    In-left : In itself 11 (lobby.channel c) → In itself 11 (10 ∷ [])
    In-left h = elim (lobby_channel c) [
      | inl (_, g) ↦ subst (In itself 11) g h
      | inr (_, g) ↦ absurd (subst (In itself 11) g h)
    ]

-- Client 1 joins a second channel, for which the pointer is 11.
join-IsConsistent_example :
    IsConsistent (irc_join_channel same_name lobby 11 1 chan_b)
    × (((irc_join_channel same_name lobby 11 1 chan_b ≡ lobby) × Refused same_name lobby 1 chan_b)
        ⊎ ((channel : ℕ) × IsNamed same_name lobby
              (irc_join_channel same_name lobby 11 1 chan_b)
              11
              chan_b
              channel
            × (¬ In client_of 1 (lobby.client channel))
            × Joins same_name lobby (irc_join_channel same_name lobby 11 1 chan_b) 1 channel))
join-IsConsistent_example =
    join-IsConsistent same_name lobby 11 1 chan_b lobby-IsConsistent no_channel_11

joined : (irc_join_channel same_name lobby 11 1 chan_b).channel 1 ≡ 10 ∷ 11 ∷ []
unfolding irc_join_channel find_name assign
joined = refl

leave-IsConsistent_example :
    IsConsistent (irc_leave_channel same_name lobby 1 10)
    × Leaves same_name lobby (irc_leave_channel same_name lobby 1 10) 1 10
leave-IsConsistent_example = leave-IsConsistent same_name lobby 1 10 lobby-IsConsistent

left : (irc_leave_channel same_name lobby 1 10).client 10 ≡ (2, 0) ∷ []
unfolding irc_leave_channel irc_client_in_channel move_last_into assign
left = refl

leave_all-IsConsistent_example :
    (after : IrcConfig) × (leave_all_loop same_name 2 lobby 1 ≡ some after)
    × IsConsistent after
    × (after.channel 1 ≡ [])
    × ((c x : ℕ) → In client_of c (after.client x) ↔ (In client_of c (lobby.client x) × (c ≢ 1)))
leave_all-IsConsistent_example =
    leave_all-IsConsistent same_name 2 lobby 1 lobby-IsConsistent (omega arith)
