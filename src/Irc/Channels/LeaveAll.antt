-- ===== src/Irc/Channels/LeaveAll.antt =====
-- irc-server/irc-proto.c: the loop of `irc_leave_all_channels`.
use mathlib.Core.Path.{subst}
use serveez.Base.{
  ==_cases, Bool, List, [], ap, arith, inl, inr, length, refl, some, suc, zero, ℕ, ◌<◌, ◌↔◌, ◌∷◌,
  ◌≡◌, ◌≢◌, ◌⊎◌,
}
use serveez.Chain.Segment.{assign_self}
use serveez.Irc.Channels.{
  IrcConfig, client_of, drop_member, irc_leave_channel, itself, leave_all_loop,
}
use serveez.Irc.Channels.Consistent.{IsConsistent, in_channel_lem}
use serveez.Irc.Channels.Leave.{deleted-Same, leave-IsConsistent, leave_in, length-last_to_front}
use serveez.Irc.Swap.{In, last_to_front, move_last_into}

List-cases : (xs : List ℕ) → (xs ≡ []) ⊎ ((y : ℕ) × (ys : List ℕ) × (xs ≡ y ∷ ys))
List-cases [] = inl refl
List-cases (y ∷ ys) = inr (y, ys, refl)

first_removed : (y : ℕ) (ys : List ℕ) → move_last_into itself y (y ∷ ys) ≡ last_to_front ys
unfolding move_last_into
first_removed y ys = elim (==_cases y y) [
  | inl (e, _) ↦ rw e refl
  | inr (_, differ) ↦ absurd (differ refl)
]

-- The first channel of a client is taken out of its list.
shorter :
    (client channel : ℕ) (cfg : IrcConfig) (rest : List ℕ)
    → cfg.channel client ≡ channel ∷ rest
    → length ((drop_member cfg client channel).channel client) ≡ length rest
shorter client channel cfg rest e =
    rw
      (
        assign_self cfg.channel client (move_last_into itself channel (cfg.channel client)),
        e,
        first_removed channel rest,
      )
      (length-last_to_front rest)

module _ (equals : List ℕ → List ℕ → Bool) where
  left_shorter :
      (cfg : IrcConfig) (client channel : ℕ) (rest : List ℕ)
      → IsConsistent cfg
      → cfg.channel client ≡ channel ∷ rest
      → length ((irc_leave_channel equals cfg client channel).channel client) ≡ length rest
  left_shorter cfg client channel rest s e =
      let inside : In client_of client (cfg.client channel) =
        (s.both client channel).1 (rw e (inl refl)) in
      elim (in_channel_lem (cfg.client channel) client) [
        | inl (n, f, h) ↦
            let same = deleted-Same equals (drop_member cfg client channel) channel in
            rw (leave_in equals cfg client channel n f, same.1) (shorter client channel cfg rest e)
        | inr (f, out) ↦ absurd (out inside)
      ]

  -- For arrays that agree and more fuel than the client has channels: `irc_leave_all_channels` ends,
  -- the arrays agree, the client has no channel, and all other clients are where they were.
  pub leave_all-IsConsistent :
      (fuel : ℕ) (cfg : IrcConfig) (client : ℕ)
      → IsConsistent cfg
      → length (cfg.channel client) < fuel
      → (after : IrcConfig) × (leave_all_loop equals fuel cfg client ≡ some after)
        × IsConsistent after
        × (after.channel client ≡ [])
        × ((c x : ℕ)
            → In client_of c (after.client x) ↔ (In client_of c (cfg.client x) × (c ≢ client)))
  unfolding leave_all_loop
  leave_all-IsConsistent zero cfg client s h = absurd (omega (arith, h))
  leave_all-IsConsistent (suc fuel) cfg client s h = elim (List-cases (cfg.channel client)) [
    | inl e ↦ (
      cfg,
      rw (e, leave_all_loop) refl,
      s,
      e,
      λ c x. (
        λ u. (
          u,
          λ f.
              let v : In itself x (cfg.channel client) =
                (s.both client x).0 (subst (λ y. In client_of y (cfg.client x)) f u) in
              subst (In itself x) e v,
        ),
        λ u. u.0,
      ),
    )
    | inr (channel, rest, e) ↦
        let next = irc_leave_channel equals cfg client channel in
        let (t, leaves) = leave-IsConsistent equals cfg client channel s in
        let size = left_shorter cfg client channel rest s e in
        let (after, runs, u, empty, others) =
          leave_all-IsConsistent fuel next client t (omega (arith, size, ap length e, h)) in
        (
          after,
          rw (e, leave_all_loop) runs,
          u,
          empty,
          λ c x. (
            λ v. let (w, differ) = (others c x).0 v in (((leaves c x).0 w).0, differ),
            λ v. (others c x).1 ((leaves c x).1 (v.0, λ _. v.1), v.1),
          ),
        )
  ]
