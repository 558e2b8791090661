-- ===== src/Irc/Channels/Leave.antt =====
-- irc-server/irc-proto.c: leaving one channel, and all of them at the end of a connection.
use mathlib.Core.Path.{subst}
use serveez.Base.{
  Bool, Bool-cases, List, [], ap, arith, inl, inr, length, none, refl, some, suc, ℕ, ◌==◌, ◌↔◌, ◌∷◌,
  ◌≡◌, ◌≢◌, ◌≤◌,
}
use serveez.Chain.{assign}
use serveez.Irc.Channels.{
  IrcConfig, client_of, contains_channel, delete_if_empty, drop_member, irc_client_in_channel,
  irc_leave_channel, is_none, itself,
}
use serveez.Irc.Channels.Consistent.{
  In-shrunk, IsConsistent, Once-assign, in_channel_lem, length-assign,
}
use serveez.Irc.Channels.Moves.{Leaves}
use serveez.Irc.Swap.{
  In, In-move_last_into, Once-move_last_into, init_of, last_to_front, move_last_into,
}

pub length-last {ℓ} : {A : Type ℓ} (a : A) (rest : List A) → length (init_of a rest) ≡ length rest
length-last a [] = refl
length-last a (b ∷ rest) = ap suc (length-last b rest)

pub length-last_to_front {ℓ} : {A : Type ℓ} (cs : List A) → length (last_to_front cs) ≡ length cs
length-last_to_front [] = refl
length-last_to_front (b ∷ cs) = ap suc (length-last b cs)

length-move_last_into {ℓ} :
    {A : Type ℓ} (key : A → ℕ) (x : ℕ) (xs : List A) → length (move_last_into key x xs) ≤ length xs
unfolding move_last_into
length-move_last_into key x [] = omega arith
length-move_last_into key x (a ∷ rest) = elim (Bool-cases (key a == x)) [
  | inl e ↦ rw e (omega (arith, length-last_to_front rest))
  | inr e ↦ rw e (omega (arith, length-move_last_into key x rest))
]

-- `irc_delete_channel` changes no array of clients or channels.
module _ (equals : List ℕ → List ℕ → Bool) where
  abbrev pub Same : IrcConfig → IrcConfig → Type 0
  Same cfg after =
      (after.client ≡ cfg.client)
      × (after.channel ≡ cfg.channel)
      × (after.channels_per_user ≡ cfg.channels_per_user)

  pub deleted-Same : (cfg : IrcConfig) (channel : ℕ) → Same cfg (delete_if_empty equals cfg channel)
  deleted-Same cfg channel = elim (Bool-cases (is_none (cfg.client channel))) [
    | inr e ↦ rw e (refl, refl, refl)
    | inl e ↦ elim (Bool-cases (contains_channel cfg.channels channel)) [
      | inl f ↦ rw (e, f) (refl, refl, refl)
      | inr f ↦ rw (e, f) (refl, refl, refl)
    ]
  ]

  Same-IsConsistent :
      (cfg after : IrcConfig) → Same cfg after → IsConsistent cfg → IsConsistent after
  Same-IsConsistent cfg after (e, f, g) s = record {
    clients = λ x. rw e (s.clients x);
    channels = λ c. rw f (s.channels c);
    both = λ c x. rw (e, f) (s.both c x);
    limit = λ c. rw (f, g) (s.limit c);
  }

  pub drop-IsConsistent :
      (cfg : IrcConfig) (client channel : ℕ)
      → IsConsistent cfg
      → IsConsistent (drop_member cfg client channel)
        × Leaves equals cfg (drop_member cfg client channel) client channel
  drop-IsConsistent cfg client channel s =
      let fewer = move_last_into client_of client (cfg.client channel) in
      let shorter = move_last_into itself channel (cfg.channel client) in
      let first : (c x : ℕ)
          → In client_of c (assign cfg.client channel fewer x)
            ↔ (In client_of c (cfg.client x) × (x ≡ channel → c ≢ client)) =
        λ c x.
          In-shrunk client_of cfg.client channel x c fewer (c ≢ client)
            (In-move_last_into client_of client c (cfg.client channel) (s.clients channel)) in
      let second : (c x : ℕ)
          → In itself x (assign cfg.channel client shorter c)
            ↔ (In itself x (cfg.channel c) × (c ≡ client → x ≢ channel)) =
        λ c x.
          In-shrunk itself cfg.channel client c x shorter (x ≢ channel)
            (In-move_last_into itself channel x (cfg.channel client) (s.channels client)) in
      (
        record {
          clients =
              Once-assign client_of cfg.client channel fewer s.clients
                (Once-move_last_into client_of client (cfg.client channel) (s.clients channel));
          channels =
              Once-assign itself cfg.channel client shorter s.channels
                (Once-move_last_into itself channel (cfg.channel client) (s.channels client));
          both = λ c x. (
            λ t.
                let (u, away) = (first c x).0 t in
                (second c x).1 ((s.both c x).0 u, λ e f. away f e),
            λ t.
                let (u, away) = (second c x).0 t in
                (first c x).1 ((s.both c x).1 u, λ e f. away f e),
          );
          limit = length-assign itself cfg.channel client shorter cfg.channels_per_user s.limit (
              omega
                (arith, length-move_last_into itself channel (cfg.channel client), s.limit client));
        },
        first,
      )

  leave_out :
      (cfg : IrcConfig) (client channel : ℕ)
      → irc_client_in_channel (cfg.client channel) client ≡ none
      → irc_leave_channel equals cfg client channel ≡ delete_if_empty equals cfg channel
  unfolding irc_leave_channel
  leave_out cfg client channel e =
      ap
        (λ o.
          delete_if_empty equals
            (elim o as (λ u. IrcConfig) [ none ↦ cfg | some n ↦ drop_member cfg client channel ])
            channel)
        e

  pub leave_in :
      (cfg : IrcConfig) (client channel n : ℕ)
      → irc_client_in_channel (cfg.client channel) client ≡ some n
      → irc_leave_channel equals cfg client channel
        ≡ delete_if_empty equals (drop_member cfg client channel) channel
  unfolding irc_leave_channel
  leave_in cfg client channel n e =
      ap
        (λ o.
          delete_if_empty equals
            (elim o as (λ u. IrcConfig) [ none ↦ cfg | some m ↦ drop_member cfg client channel ])
            channel)
        e

  -- For arrays that agree: after `irc_leave_channel` they agree, the client is not in the channel, and
  -- all other clients are where they were.
  pub leave-IsConsistent :
      (cfg : IrcConfig) (client channel : ℕ)
      → IsConsistent cfg
      → IsConsistent (irc_leave_channel equals cfg client channel)
        × Leaves equals cfg (irc_leave_channel equals cfg client channel) client channel
  leave-IsConsistent cfg client channel s = elim (in_channel_lem (cfg.client channel) client) [
    | inl (n, e, h) ↦
        let dropped = drop_member cfg client channel in
        let (t, leaves) = drop-IsConsistent cfg client channel s in
        let same = deleted-Same dropped channel in
        rw (leave_in cfg client channel n e) (
          Same-IsConsistent dropped (delete_if_empty equals dropped channel) same t,
          λ c x. rw (same.0) (leaves c x),
        )
    | inr (e, out) ↦
        let same = deleted-Same cfg channel in
        rw (leave_out cfg client channel e) (
          Same-IsConsistent cfg (delete_if_empty equals cfg channel) same s,
          λ c x. rw (same.0) (
            λ u. (
              u,
              λ f g. out (
                  subst (λ y. In client_of y (cfg.client channel)) g
                    (subst (λ y. In client_of c (cfg.client y)) f u)),
            ),
            λ u. u.0,
          ),
        )
  ]
