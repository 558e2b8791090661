-- ===== src/IrcCore/Target.antt =====
-- irc-core.c: the targets that a parameter lists.
pub mod RoundTrip
pub mod Fuel
use mathlib.Core.Option
use serveez.Base.{
  Bool, List, Option, [], false, get_or, if◌then◌else◌, leb, length, ltb, none, some, suc, true,
  zero, ℕ, ◌&&◌, ◌+◌, ◌==◌, ◌||◌, ◌∷◌,
}

-- MAX_NICK_LEN, MAX_NAME_LEN, MAX_PARAMS, MAX_TARGETS and MAX_MSG_LEN, the sizes of the arrays in a
-- request.
abbrev pub max_nick_len : ℕ
max_nick_len = 16

abbrev pub max_name_len : ℕ
max_name_len = 256

abbrev pub max_params : ℕ
max_params = 16

abbrev pub max_targets : ℕ
max_targets = 64

abbrev pub max_msg_len : ℕ
max_msg_len = 512

-- The arrays are lists of what is written into them.
pub record Target : Type 0 where
  pub channel : List ℕ
  pub user : List ℕ
  pub host : List ℕ
  pub nick : List ℕ
  pub mask : List ℕ

abbrev pub no_target : Target
no_target = record { channel = []; user = []; host = []; nick = []; mask = [] }

-- A loop that copies until a character of `stop`: the copy, and the string from there.
unfoldable pub until : (ℕ → Bool) → List ℕ → List ℕ × List ℕ
until stop [] = ([], [])
until stop (c ∷ cs) =
    let rest = until stop cs in elim (stop c) [ true ↦ ([], c ∷ cs) | false ↦ (c ∷ rest.0, rest.1) ]

abbrev pub is_comma : ℕ → Bool
is_comma c = c == b','

abbrev pub ends_user : ℕ → Bool
ends_user c = (c == b',') || (c == b'@')

-- What follows the user name.
unfoldable pub parse_host : List ℕ → List ℕ → Target × List ℕ
parse_host user [] = (record no_target { user = user; nick = user }, [])
parse_host user (c ∷ cs) = elim (c == b'@') [
  | true ↦ let host = until is_comma cs in (record no_target { user = user; host = host.0 }, host.1)
  | false ↦ (record no_target { user = user; nick = user }, c ∷ cs)
]

unfoldable pub parse_one : ℕ → List ℕ → Target × List ℕ
parse_one c text =
    let word = until is_comma text in
    let user = until ends_user text in
    if c == b'&'
    then (record no_target { channel = word.0 }, word.1)
    else if c == b'$'
    then (record no_target { mask = word.0 }, word.1)
    else if c == b'#'
    then (record no_target { mask = word.0; channel = word.0 }, word.1)
    else parse_host user.0 user.1

unfoldable pub skip_comma : List ℕ → List ℕ
skip_comma [] = []
skip_comma (c ∷ cs) = if is_comma c then cs else c ∷ cs

-- Every word of a target fits into its array, with the NUL.
abbrev pub target_fits : Target → Bool
target_fits t =
    ltb (length t.channel) max_name_len
    && ltb (length t.user) max_name_len
    && ltb (length t.host) max_name_len
    && ltb (length t.nick) max_nick_len
    && ltb (length t.mask) max_name_len

abbrev pub all_fit : List Target → Bool
all_fit [] = true
all_fit (t ∷ ts) = target_fits t && all_fit ts

abbrev pub targets_fit : List Target → Bool
targets_fit ts = leb (length ts) max_targets && all_fit ts

-- The loop; `none` without enough fuel.
unfoldable pub parse_targets : ℕ → List ℕ → Option (List Target)
parse_targets zero text = none
parse_targets (suc fuel) [] = some []
parse_targets (suc fuel) (c ∷ cs) =
    let one = parse_one c (c ∷ cs) in
    Option.map (λ ts. one.0 ∷ ts) (parse_targets fuel (skip_comma one.1))

-- The C string at the start of an array.
unfoldable pub c_string : List ℕ → List ℕ
c_string text = (until (λ c. c == 0) text).0

-- The targets, unless they overwrite what stands behind their arrays, which the code does not test.
abbrev pub if_fitting : Option (List Target) → Option (List Target)
if_fitting none = none
if_fitting (some ts) = if targets_fit ts then some ts else none

-- The targets in the parameter of this index; `none` where they do not fit into their arrays, and the
-- code writes beyond the end.
unfoldable pub irc_parse_target : List (List ℕ) → ℕ → Option (List Target)
irc_parse_target paras para =
    if leb (length paras) para
    then some []
    else let text = c_string (get_or paras para []) in
      if_fitting (parse_targets (length text + 1) text)
