-- ===== src/Irc/Channels.antt =====
-- irc-server/irc-proto.c: which clients are in which channels. A client and a channel are pointers; the
-- hash `cfg->channels` is the list of the channels in it, looked up by their names. Replies, logging
-- and the other properties of a channel are left out.
pub mod Consistent
pub mod Moves
pub mod Leave
pub mod LeaveAll
use serveez.Base.{
  Bool, List, Option, [], false, if◌then◌else◌, leb, length, none, some, suc, true, zero, ℕ, ◌++◌,
  ◌==◌, ◌∷◌,
}
use serveez.Chain.{assign}
use serveez.Irc.Swap.{move_last_into}

pub record IrcConfig : Type 0 where
  -- The array `client` of a channel with the flags of `cflag`.
  pub client : ℕ → List (ℕ × ℕ)
  pub channel : ℕ → List ℕ
  pub name : ℕ → List ℕ
  pub channels : List ℕ
  pub channels_per_user : ℕ

abbrev pub mode_operator : ℕ
mode_operator = 1

-- The keys of the two arrays.
abbrev pub client_of : ℕ × ℕ → ℕ
client_of entry = entry.0

abbrev pub itself : ℕ → ℕ
itself channel = channel

-- `svz_hash_contains` for the channel itself.
unfoldable pub contains_channel : List ℕ → ℕ → Bool
contains_channel [] channel = false
contains_channel (c ∷ cs) channel =
    let rest = contains_channel cs channel in if c == channel then true else rest

-- The position of a client in a channel; `none` for -1.
unfoldable pub irc_client_in_channel : List (ℕ × ℕ) → ℕ → Option ℕ
irc_client_in_channel [] client = none
irc_client_in_channel (e ∷ es) client =
    let rest = irc_client_in_channel es client in
    if client_of e == client then some 0 else elim rest [ none ↦ none | some n ↦ some (suc n) ]

abbrev pub add_member : IrcConfig → ℕ → ℕ → ℕ → IrcConfig
add_member cfg client channel cflag = record cfg {
  client = assign cfg.client channel (cfg.client channel ++ (client, cflag) ∷ []);
  channel = assign cfg.channel client (cfg.channel client ++ channel ∷ []);
}

abbrev pub drop_member : IrcConfig → ℕ → ℕ → IrcConfig
drop_member cfg client channel = record cfg {
  client = assign cfg.client channel (move_last_into client_of client (cfg.client channel));
  channel = assign cfg.channel client (move_last_into itself channel (cfg.channel client));
}

abbrev pub is_none : List (ℕ × ℕ) → Bool
is_none [] = true
is_none (e ∷ es) = false

-- The tests of names of the hash are a parameter.
module _ (equals : List ℕ → List ℕ → Bool) where
  unfoldable pub find_name : IrcConfig → List ℕ → List ℕ → Option ℕ
  find_name cfg [] name = none
  find_name cfg (c ∷ cs) name =
      let rest = find_name cfg cs name in if equals (cfg.name c) name then some c else rest

  abbrev pub irc_find_channel : IrcConfig → List ℕ → Option ℕ
  irc_find_channel cfg name = find_name cfg cfg.channels name

  unfoldable pub delete_name : IrcConfig → List ℕ → List ℕ → List ℕ
  delete_name cfg [] name = []
  delete_name cfg (c ∷ cs) name =
      let rest = delete_name cfg cs name in if equals (cfg.name c) name then cs else c ∷ rest

  abbrev pub irc_delete_channel : IrcConfig → ℕ → IrcConfig
  irc_delete_channel cfg channel =
      if contains_channel cfg.channels channel
      then record cfg { channels = delete_name cfg cfg.channels (cfg.name channel) }
      else cfg

  -- What `irc_add_channel` does for a name that is not there, with the pointer of `svz_calloc`.
  abbrev pub new_channel : IrcConfig → ℕ → List ℕ → IrcConfig
  new_channel cfg new chan = record cfg {
    client = assign cfg.client new [];
    name = assign cfg.name new chan;
    channels = cfg.channels ++ new ∷ [];
  }

  unfoldable pub irc_join_channel : IrcConfig → ℕ → ℕ → List ℕ → IrcConfig
  irc_join_channel cfg new client chan = elim (irc_find_channel cfg chan) [
    | some channel ↦ elim (irc_client_in_channel (cfg.client channel) client) [
      | some n ↦ cfg
      | none ↦
          if leb cfg.channels_per_user (length (cfg.channel client))
          then cfg
          else add_member cfg client channel 0
    ]
    | none ↦
        if leb cfg.channels_per_user (length (cfg.channel client))
        then cfg
        else add_member (new_channel cfg new chan) client new mode_operator
  ]

  abbrev pub delete_if_empty : IrcConfig → ℕ → IrcConfig
  delete_if_empty cfg channel =
      if is_none (cfg.client channel) then irc_delete_channel cfg channel else cfg

  unfoldable pub irc_leave_channel : IrcConfig → ℕ → ℕ → IrcConfig
  irc_leave_channel cfg client channel =
      let left = elim (irc_client_in_channel (cfg.client channel) client) as (λ o. IrcConfig) [
        | none ↦ cfg
        | some n ↦ drop_member cfg client channel
      ] in
      delete_if_empty left channel

  -- The loop of `irc_leave_all_channels`; `none` without enough fuel.
  unfoldable pub leave_all_loop : ℕ → IrcConfig → ℕ → Option IrcConfig
  leave_all_loop zero cfg client = none
  leave_all_loop (suc fuel) cfg client = elim (cfg.channel client) [
    | [] ↦ some cfg
    | channel ∷ rest ↦ leave_all_loop fuel (irc_leave_channel cfg client channel) client
  ]
