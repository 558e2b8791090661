-- ===== src/Irc/Channels/Moves.antt =====
-- irc-server/irc-proto.c: joining and leaving channels.
use serveez.Base.{
  ==_cases, Bool, List, Option-cases, [], inl, inr, leb_cases, length, none, refl, some, ℕ, ◌↔◌,
  ◌≡◌, ◌≢◌, ◌≤◌, ◌⊎◌,
}
use serveez.Chain.{assign}
use serveez.Chain.Segment.{assign_other, assign_self}
use serveez.Irc.Channels.{
  IrcConfig, client_of, irc_find_channel, irc_join_channel, itself, mode_operator, new_channel,
}
use serveez.Irc.Channels.Consistent.{IsConsistent, Once-assign, add-IsConsistent, in_channel_lem}
use serveez.Irc.Swap.{In}

module _ (equals : List ℕ → List ℕ → Bool) where
  -- What an addition to a channel is for the clients in all channels.
  abbrev pub Joins : IrcConfig → IrcConfig → ℕ → ℕ → Type 0
  Joins cfg after client channel =
      (c x : ℕ)
      → In client_of c (after.client x)
        ↔ (In client_of c (cfg.client x) ⊎ ((x ≡ channel) × (client ≡ c)))

  abbrev pub Leaves : IrcConfig → IrcConfig → ℕ → ℕ → Type 0
  Leaves cfg after client channel =
      (c x : ℕ)
      → In client_of c (after.client x)
        ↔ (In client_of c (cfg.client x) × (x ≡ channel → c ≢ client))

  -- A new channel, which no client has joined.
  new-IsConsistent :
      (cfg : IrcConfig) (new : ℕ) (chan : List ℕ)
      → IsConsistent cfg
      → ((c : ℕ) → ¬ In itself new (cfg.channel c))
      → IsConsistent (new_channel equals cfg new chan)
        × ((c x : ℕ)
            → In client_of c ((new_channel equals cfg new chan).client x)
              ↔ In client_of c (cfg.client x))
  new-IsConsistent cfg new chan s fresh = (
    record {
      clients = Once-assign client_of cfg.client new [] s.clients tt;
      channels = s.channels;
      both = λ c x. (λ t. (s.both c x).0 ((same c x).0 t), λ t. (same c x).1 ((s.both c x).1 t));
      limit = s.limit;
    },
    same,
  )
    where
      same : (c x : ℕ) → In client_of c (assign cfg.client new [] x) ↔ In client_of c (cfg.client x)
      same c x = elim (==_cases new x) [
        | inl (_, e) ↦
            rw (← e, assign_self cfg.client new [])
              (λ t. absurd t, λ t. fresh c ((s.both c new).0 t))
        | inr (_, differ) ↦ rw (assign_other cfg.client new x [] differ) (λ t. t, λ t. t)
      ]

  -- Why nothing is changed: the client has joined as many channels as it may, or is in the channel.
  abbrev pub Refused : IrcConfig → ℕ → List ℕ → Type 0
  Refused cfg client chan =
      (cfg.channels_per_user ≤ length (cfg.channel client))
      ⊎ ((channel : ℕ) × (irc_find_channel equals cfg chan ≡ some channel)
          × In client_of client (cfg.client channel))

  -- The channel with the name.
  abbrev pub IsNamed : IrcConfig → IrcConfig → ℕ → List ℕ → ℕ → Type 0
  IsNamed cfg after new chan channel =
      (irc_find_channel equals cfg chan ≡ some channel)
      ⊎ ((irc_find_channel equals cfg chan ≡ none) × (channel ≡ new) × (after.name new ≡ chan))

  -- For arrays that agree, and a new pointer that is no channel of any client: after
  -- `irc_join_channel` they agree, and no client has joined more channels than it may; either nothing
  -- is changed, and then the client has joined as many channels as it may or is in the channel
  -- already, or the client, which was not in the channel, is in it and all others are where they were.
  -- The channel is the one that `irc_find_channel` finds for the name, or the new one, which gets the
  -- name, if it finds none.
  pub join-IsConsistent :
      (cfg : IrcConfig) (new client : ℕ) (chan : List ℕ)
      → IsConsistent cfg
      → ((c : ℕ) → ¬ In itself new (cfg.channel c))
      → IsConsistent (irc_join_channel equals cfg new client chan)
        × (((irc_join_channel equals cfg new client chan ≡ cfg) × Refused cfg client chan)
            ⊎ ((channel : ℕ) × IsNamed cfg
                  (irc_join_channel equals cfg new client chan)
                  new
                  chan
                  channel
                × (¬ In client_of client (cfg.client channel))
                × Joins cfg (irc_join_channel equals cfg new client chan) client channel))
  unfolding irc_join_channel
  join-IsConsistent cfg new client chan s fresh =
      elim (Option-cases (irc_find_channel equals cfg chan)) [
        | inr (channel, e) ↦ elim (in_channel_lem (cfg.client channel) client) [
          | inl (n, f, h) ↦ rw (e, f, irc_join_channel) (s, inl (refl, inr (channel, refl, h)))
          | inr (f, h) ↦ elim (leb_cases cfg.channels_per_user (length (cfg.channel client))) [
            | inl (g, full) ↦ rw (e, f, g, irc_join_channel) (s, inl (refl, inl full))
            | inr (g, room) ↦
                let (t, joins) = add-IsConsistent cfg client channel 0 s h room in
                rw (e, f, g, irc_join_channel) (t, inr (channel, inl refl, h, joins))
          ]
        ]
        | inl e ↦ elim (leb_cases cfg.channels_per_user (length (cfg.channel client))) [
          | inl (g, full) ↦ rw (e, g, irc_join_channel) (s, inl (refl, inl full))
          | inr (g, room) ↦
              let (made, same) = new-IsConsistent cfg new chan s fresh in
              let (t, joins) =
                add-IsConsistent (new_channel equals cfg new chan) client new mode_operator made
                  (λ u. fresh client ((s.both client new).0 ((same client new).0 u))) room in
              rw (e, g, irc_join_channel)
                (
                  t,
                  inr (
                    new,
                    inr (refl, refl, assign_self cfg.name new chan),
                    λ u. fresh client ((s.both client new).0 u),
                    λ c x. (
                      λ u. elim ((joins c x).0 u) [ inl v ↦ inl ((same c x).0 v) | inr p ↦ inr p ],
                      λ u. (joins c x).1 (elim u [ inl v ↦ inl ((same c x).1 v) | inr p ↦ inr p ]),
                    ),
                  ),
                )
        ]
      ]
