-- ===== src/Examples/Messages.antt =====
-- irc-core.c: the theorems at concrete strings.
use serveez.Base.{
  Bool, List, [], if◌then◌else◌, leb, length, map, refl, some, ℕ, ◌&&◌, ◌++◌, ◌+◌, ◌==◌, ◌∷◌, ◌≡◌,
}
use serveez.IrcCore.Compare.{irc_create_lcset}
use serveez.IrcCore.Parse.{irc_parse_request}
use serveez.IrcCore.Parse.Message.{origin_request, parse_request-print_message}
use serveez.IrcCore.Parse.RoundTrip.{Message, paras_of, print_message}
use serveez.IrcCore.Receive.{irc_check_request}
use serveez.IrcCore.Receive.Packets.{check_request-handle_lines, handle_lines, stream}
use serveez.IrcCore.Target.{Target, irc_parse_target}
use serveez.IrcCore.Target.RoundTrip.{
  Address, address_target, channel, login, parse_target-print_addresses, print_address,
  print_addresses,
}

-- ASCII letters in lower case.
abbrev lower : ℕ → ℕ
lower c = if leb b'A' c && leb c b'Z' then c + 32 else c

abbrev lcset : ℕ → ℕ
lcset = irc_create_lcset lower

abbrev nick : List ℕ
nick = b'A' ∷ b'[' ∷ []

abbrev other_nick : List ℕ
other_nick = b'a' ∷ b'{' ∷ []

-- A channel and a user.
abbrev addresses : List Address
addresses = channel (b'a' ∷ []) ∷ login (b'u' ∷ []) (b'h' ∷ []) ∷ []

parse_target-print_addresses_example :
    irc_parse_target (print_addresses addresses ∷ []) 0 ≡ some (map address_target addresses)
unfolding print_address
parse_target-print_addresses_example =
    parse_target-print_addresses addresses []
      ((refl, tt), (((refl, refl, refl), (refl, tt), (refl, tt)), tt))
      (refl, (refl, (refl, (refl, (refl, (refl, tt)))))) (unfold address_target in refl)

-- `:n!u@h PRIVMSG #a :hi`
abbrev a_message : Message
a_message = record {
  origin = some (record { nick = b'n' ∷ []; user = b'u' ∷ []; host = b'h' ∷ [] });
  command = b'P' ∷ b'M' ∷ [];
  middle = (b'#' ∷ b'a' ∷ []) ∷ [];
  trailing = some (b'h' ∷ b' ' ∷ b'i' ∷ []);
}

abbrev a_target : List Target
a_target = map address_target (channel (b'a' ∷ []) ∷ [])

a_target_found : irc_parse_target (paras_of a_message.middle a_message.trailing) 0 ≡ some a_target
unfolding print_address
a_target_found =
    parse_target-print_addresses (channel (b'a' ∷ []) ∷ []) ((b'h' ∷ b' ' ∷ b'i' ∷ []) ∷ [])
      ((refl, tt), tt) (refl, (refl, tt)) (unfold address_target in refl)

parse_request-print_message_example :
    irc_parse_request
      (print_message a_message ++ (b'\r' ∷ b'\n' ∷ []))
      (length (print_message a_message))
    ≡ some (record (origin_request a_message.origin) {
      request = a_message.command;
      para = paras_of a_message.middle a_message.trailing;
      target = a_target;
    })
parse_request-print_message_example =
    parse_request-print_message a_message (b'\r' ∷ b'\n' ∷ []) a_target
      (
        ((refl, tt), (refl, tt), (refl, tt)),
        (refl, (refl, (refl, tt))),
        ((refl, refl, (refl, (refl, tt))), tt),
        refl,
      )
      refl a_target_found

-- Counts the packets, and refuses those of one byte.
abbrev count_lines : ℕ → List ℕ → ℕ → Bool × ℕ
count_lines n packet cut = (length packet == cut, n + 1)

abbrev two_lines : List (List ℕ)
two_lines = (b'a' ∷ b'\r' ∷ []) ∷ [] ∷ (b'b' ∷ []) ∷ []

check_request-handle_lines_example :
    irc_check_request count_lines 0 (stream two_lines (b'c' ∷ [])) 0
    ≡ (let r = handle_lines count_lines 0 two_lines 0 in some (r.0, r.1, stream r.2 (b'c' ∷ [])))
check_request-handle_lines_example =
    check_request-handle_lines count_lines 0 two_lines (b'c' ∷ []) 0
      ((refl, (refl, tt)), (tt, ((refl, tt), tt))) (refl, tt)
