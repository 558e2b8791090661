-- ===== src/IrcCore/Parse.antt =====
-- irc-core.c: `irc_parse_request`. The arrays of the request are lists of what the function writes
-- into them; it does not compare that with their sizes, which `request_fits` does here.
pub mod RoundTrip
pub mod Message
use mathlib.Core.Option
use serveez.Base.{
  Bool, List, Option, [], drop, false, get_or, if◌then◌else◌, leb, length, ltb, none, not, some,
  suc, true, zero, ℕ, ◌&&◌, ◌+◌, ◌-◌, ◌==◌, ◌||◌, ◌∷◌,
}
use serveez.IrcCore.Target.{
  Target, irc_parse_target, max_msg_len, max_name_len, max_nick_len, max_params,
}

pub record Request : Type 0 where
  pub server : List ℕ
  pub nick : List ℕ
  pub user : List ℕ
  pub host : List ℕ
  pub request : List ℕ
  pub para : List (List ℕ)
  pub target : List Target

-- What a loop copied, and where it stopped: the bytes from `*p` on, of which `left`, that is
-- `len - size`, belong to the request.
pub record Scan : Type 0 where
  pub word : List ℕ
  pub left : ℕ
  pub rest : List ℕ

abbrev pub peek : Scan → ℕ
peek s = get_or s.rest 0 0

-- `while (!stop (*p) && size < len)`, for a `size` and a `p` that advance together.
unfoldable pub collect : (ℕ → Bool) → ℕ → List ℕ → Scan
collect stop zero rest = record { word = []; left = zero; rest = rest }
collect stop (suc left) [] = record { word = []; left = suc left; rest = [] }
collect stop (suc left) (c ∷ cs) =
    let after = collect stop left cs in
    elim (stop c) [
      | true ↦ record { word = []; left = suc left; rest = c ∷ cs }
      | false ↦ record after { word = c ∷ after.word }
    ]

abbrev pub is_space : ℕ → Bool
is_space c = c == b' '

abbrev pub no_space : ℕ → Bool
no_space c = not (c == b' ')

abbrev pub ends_name : ℕ → Bool
ends_name c = (c == b'!') || (c == b'@') || (c == b' ')

abbrev pub ends_login : ℕ → Bool
ends_login c = (c == b'@') || (c == b' ')

-- What stands behind the mark, if that is the next character.
unfoldable pub part : ℕ → (ℕ → Bool) → Scan → Scan
part mark stop s =
    if peek s == mark then collect stop (s.left - 1) (drop 1 s.rest) else record s { word = [] }

unfoldable pub skip_spaces : Scan → Scan
skip_spaces s = collect no_space s.left s.rest

-- A parameter: to the end behind a colon, or else to a space.
unfoldable pub next_para : Scan → Scan
next_para s =
    if peek s == b':'
    then collect (λ c. false) (s.left - 1) (drop 1 s.rest)
    else collect is_space s.left s.rest

-- The loop over the parameters; `none` without enough fuel.
unfoldable pub parse_paras : ℕ → Scan → Option (List (List ℕ))
parse_paras zero s = none
parse_paras (suc fuel) s =
    let t = skip_spaces s in
    let p = next_para t in
    let rest = parse_paras fuel p in
    if s.left == 0
    then some []
    else if t.left == 0
    then some []
    else Option.map (λ ps. p.word ∷ ps) rest

-- `if (paras > 0 && para[paras - 1][0] == '\0') paras--`
unfoldable pub drop_empty : List (List ℕ) → List (List ℕ)
drop_empty [] = []
drop_empty (p ∷ []) = if get_or p 0 0 == 0 then [] else p ∷ []
drop_empty (p ∷ (q ∷ ps)) = p ∷ drop_empty (q ∷ ps)

-- There is room for all parameters, with their NULs.
abbrev pub paras_fit : List (List ℕ) → Bool
paras_fit [] = true
paras_fit (p ∷ ps) = ltb (length p) max_msg_len && paras_fit ps

-- Every word of a request, with the parameters it has so far, fits into its array.
abbrev pub request_fits : Request → Bool
request_fits r =
    ltb (length r.server) max_name_len
    && ltb (length r.nick) max_nick_len
    && ltb (length r.user) max_name_len
    && ltb (length r.host) max_name_len
    && ltb (length r.request) max_name_len
    && leb (length r.para) max_params
    && paras_fit r.para

-- `none` where the words overwrite what stands behind their arrays, which the code does not test. The
-- parameters, and what the first of them addresses.
abbrev pub add_paras : Request → List ℕ → Option (List (List ℕ)) → Option Request
add_paras r word none = none
add_paras r word (some ps) =
    if request_fits (record r { request = word; para = ps })
    then Option.map (λ ts. record r { request = word; para = drop_empty ps; target = ts })
        (irc_parse_target (drop_empty ps) 0)
    else none

-- The command and the parameters, behind the origin that the request has so far.
unfoldable pub parse_command : Request → Scan → Option Request
parse_command r s =
    let command = collect is_space s.left s.rest in
    add_paras r command.word (parse_paras (command.left + 1) command)

abbrev pub empty_request : Request
empty_request = record {
  server = [];
  nick = [];
  user = [];
  host = [];
  request = [];
  para = [];
  target = [];
}

unfoldable pub irc_parse_request : List ℕ → ℕ → Option Request
irc_parse_request text len =
    let start : Scan = record { word = []; left = len; rest = text } in
    let name = collect ends_name len text in
    let user = part b'!' ends_login name in
    let host = part b'@' is_space user in
    if peek start == b':'
    then parse_command
        (record empty_request {
          server = name.word;
          nick = name.word;
          user = user.word;
          host = host.word;
        })
        (skip_spaces host)
    else parse_command empty_request start
