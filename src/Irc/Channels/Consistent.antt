-- ===== src/Irc/Channels/Consistent.antt =====
-- irc-server/irc-proto.c: the arrays of the clients and those of the channels agree.
use serveez.Base.{
  ==_cases, List, [], arith, inl, inr, length, length-append, none, refl, some, suc, sym, ℕ, ◌++◌,
  ◌<◌, ◌↔◌, ◌∷◌, ◌≡◌, ◌≤◌, ◌⊎◌,
}
use serveez.Chain.{assign}
use serveez.Chain.Segment.{assign_other, assign_self}
use serveez.Irc.Channels.{IrcConfig, add_member, client_of, irc_client_in_channel, itself}
use serveez.Irc.Swap.{In, In-snoc, Once, Once-snoc}

pub record IsConsistent (cfg : IrcConfig) : Type 0 where
  pub clients : (channel : ℕ) → Once client_of (cfg.client channel)
  pub channels : (client : ℕ) → Once itself (cfg.channel client)
  pub both :
      (client channel : ℕ)
      → In client_of client (cfg.client channel) ↔ In itself channel (cfg.channel client)
  pub limit : (client : ℕ) → length (cfg.channel client) ≤ cfg.channels_per_user

module _ {ℓ} {A : Type ℓ} (key : A → ℕ) where
  -- One array of a map is changed.
  pub In-grown :
      (f : ℕ → List A) (p x y : ℕ) (v : List A) (Q : Type 0)
      → In key y v ↔ (In key y (f p) ⊎ Q)
      → In key y (assign f p v x) ↔ (In key y (f x) ⊎ ((x ≡ p) × Q))
  In-grown f p x y v Q h = elim (==_cases p x) [
    | inl (_, same) ↦
        rw (← same, assign_self f p v)
          (
            λ t. elim (h.0 t) [ inl u ↦ inl u | inr q ↦ inr (refl, q) ],
            λ t. h.1 (elim t [ inl u ↦ inl u | inr q ↦ inr q.1 ]),
          )
    | inr (_, differ) ↦
        rw (assign_other f p x v differ)
          (λ t. inl t, λ t. elim t [ inl u ↦ u | inr q ↦ absurd (differ (sym q.0)) ])
  ]

  pub In-shrunk :
      (f : ℕ → List A) (p x y : ℕ) (v : List A) (R : Type 0)
      → In key y v ↔ (In key y (f p) × R)
      → In key y (assign f p v x) ↔ (In key y (f x) × (x ≡ p → R))
  In-shrunk f p x y v R h = elim (==_cases p x) [
    | inl (_, same) ↦
        rw (← same, assign_self f p v)
          (λ t. let (u, r) = h.0 t in (u, λ _. r), λ t. h.1 (t.0, t.1 refl))
    | inr (_, differ) ↦
        rw (assign_other f p x v differ) (λ t. (t, λ e. absurd (differ (sym e))), λ t. t.0)
  ]

  pub Once-assign :
      (f : ℕ → List A) (p : ℕ) (v : List A)
      → ((x : ℕ) → Once key (f x))
      → Once key v
      → (x : ℕ) → Once key (assign f p v x)
  Once-assign f p v h k x = elim (==_cases p x) [
    | inl (_, same) ↦ rw (← same, assign_self f p v) k
    | inr (_, differ) ↦ rw (assign_other f p x v differ) (h x)
  ]

  pub length-assign :
      (f : ℕ → List A) (p : ℕ) (v : List A) (n : ℕ)
      → ((x : ℕ) → length (f x) ≤ n)
      → length v ≤ n
      → (x : ℕ) → length (assign f p v x) ≤ n
  length-assign f p v n h k x = elim (==_cases p x) [
    | inl (_, same) ↦ rw (← same, assign_self f p v) k
    | inr (_, differ) ↦ rw (assign_other f p x v differ) (h x)
  ]

pub in_channel_lem :
    (es : List (ℕ × ℕ)) (client : ℕ)
    → ((n : ℕ) × (irc_client_in_channel es client ≡ some n) × In client_of client es)
      ⊎ ((irc_client_in_channel es client ≡ none) × ¬ In client_of client es)
unfolding irc_client_in_channel
in_channel_lem [] client = inr (refl, λ h. h)
in_channel_lem (e ∷ es) client = elim (==_cases (client_of e) client) [
  | inl (x, same) ↦ inl (0, rw x refl, inl same)
  | inr (x, differ) ↦ elim (in_channel_lem es client) [
    | inl (n, y, h) ↦ inl (suc n, rw (x, y) refl, inr h)
    | inr (y, h) ↦ inr (rw (x, y) refl, λ t. elim t [ inl e ↦ differ e | inr u ↦ h u ])
  ]
]

-- A client that is not in the channel, and has not joined as many as it may, is added.
pub add-IsConsistent :
    (cfg : IrcConfig) (client channel cflag : ℕ)
    → IsConsistent cfg
    → ¬ In client_of client (cfg.client channel)
    → length (cfg.channel client) < cfg.channels_per_user
    → IsConsistent (add_member cfg client channel cflag)
      × ((c x : ℕ)
          → In client_of c ((add_member cfg client channel cflag).client x)
            ↔ (In client_of c (cfg.client x) ⊎ ((x ≡ channel) × (client ≡ c))))
add-IsConsistent cfg client channel cflag s out room =
    let away : ¬ In itself channel (cfg.channel client) = λ t. out ((s.both client channel).1 t) in
    let more = cfg.client channel ++ (client, cflag) ∷ [] in
    let longer = cfg.channel client ++ channel ∷ [] in
    let first : (c x : ℕ)
        → In client_of c (assign cfg.client channel more x)
          ↔ (In client_of c (cfg.client x) ⊎ ((x ≡ channel) × (client ≡ c))) =
      λ c x.
        In-grown client_of cfg.client channel x c more (client ≡ c)
          (In-snoc client_of c (cfg.client channel) (client, cflag)) in
    let second : (c x : ℕ)
        → In itself x (assign cfg.channel client longer c)
          ↔ (In itself x (cfg.channel c) ⊎ ((c ≡ client) × (channel ≡ x))) =
      λ c x.
        In-grown itself cfg.channel client c x longer (channel ≡ x)
          (In-snoc itself x (cfg.channel client) channel) in
    (
      record {
        clients =
            Once-assign client_of cfg.client channel more s.clients
              (Once-snoc client_of (cfg.client channel) (client, cflag) (s.clients channel) out);
        channels =
            Once-assign itself cfg.channel client longer s.channels
              (Once-snoc itself (cfg.channel client) channel (s.channels client) away);
        both = λ c x. (
          λ t. (second c x).1 (elim ((first c x).0 t) [
            | inl u ↦ inl ((s.both c x).0 u)
            | inr (e, f) ↦ inr (sym f, sym e)
          ]),
          λ t. (first c x).1 (elim ((second c x).0 t) [
            | inl u ↦ inl ((s.both c x).1 u)
            | inr (e, f) ↦ inr (sym f, sym e)
          ]),
        );
        limit =
            length-assign itself cfg.channel client longer cfg.channels_per_user s.limit
              (omega (arith, length-append (cfg.channel client) (channel ∷ []), room));
      },
      first,
    )
