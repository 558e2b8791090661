-- ===== src/IrcCore/Parse/Message.antt =====
-- irc-core.c: `irc_parse_request` reads back the messages that RFC 1459 describes.
use mathlib.Core.List.{append_assoc}
use serveez.Base.{
  ==_iff, All, Bool, List, Option, [], ap, arith, false, length, length-append, none, refl, some,
  suc, true, zero, ℕ, ◌++◌, ◌+◌, ◌-◌, ◌==◌, ◌∙◌, ◌∷◌, ◌≡◌,
}
use serveez.IrcCore.Parse.{
  Request, add_paras, collect, drop_empty, empty_request, ends_login, ends_name, irc_parse_request,
  is_space, no_space, parse_command, parse_paras, part, request_fits, skip_spaces,
}
use serveez.IrcCore.Parse.RoundTrip.{
  IsMiddle, IsTrailing, Message, NoSpaces, Origin, StopsAt, collect_lem, paras_lem, paras_of,
  paras_stop, print_message, print_origin, print_paras,
}
use serveez.IrcCore.Target.{Target, irc_parse_target}

-- A message that the function can read back: the words have no separators in them, the parameters
-- are not empty, and only the last one begins with a colon.
abbrev pub IsOrigin : Option Origin → Type 0
IsOrigin none = Unit
IsOrigin (some o) =
    All (λ c. ends_name c ≡ false) o.nick × All (λ c. ends_login c ≡ false) o.user × NoSpaces o.host

abbrev pub IsCommand : List ℕ → Type 0
IsCommand [] = ⊥
IsCommand (c ∷ w) = ((c == b':') ≡ false) × NoSpaces (c ∷ w)

abbrev pub IsMessage : Message → Type 0
IsMessage m =
    IsOrigin m.origin × IsCommand m.command × All IsMiddle m.middle × IsTrailing m.trailing

drop_empty_lem :
    (ms : List (List ℕ)) (t : Option (List ℕ))
    → All IsMiddle ms
    → IsTrailing t
    → drop_empty (paras_of ms t) ≡ paras_of ms t
unfolding drop_empty
drop_empty_lem [] none h k = refl
drop_empty_lem [] (some []) h k = absurd k
drop_empty_lem [] (some (c ∷ t)) h k = rw k refl
drop_empty_lem ([] ∷ ms) t (bad, _) k = absurd bad
drop_empty_lem ((c ∷ w) ∷ []) none ((_, z, _), _) k = rw z refl
drop_empty_lem ((c ∷ w) ∷ []) (some t) (_, h) k =
    ap (λ r. (c ∷ w) ∷ r) (drop_empty_lem [] (some t) tt k)
drop_empty_lem ((c ∷ w) ∷ (n ∷ ms)) t (_, h) k =
    ap (λ r. (c ∷ w) ∷ r) (drop_empty_lem (n ∷ ms) t h k)

-- Everything behind the origin.
command_lem :
    (q : Request) (v w : List ℕ) (ms : List (List ℕ)) (t : Option (List ℕ)) (r : List ℕ) (l : ℕ)
    (ts : List Target)
    → NoSpaces w
    → All IsMiddle ms
    → IsTrailing t
    → l ≡ length w + length (print_paras ms t)
    → irc_parse_target (paras_of ms t) 0 ≡ some ts
    → request_fits (record q { request = w; para = paras_of ms t }) ≡ true
    → parse_command q (record { word = v; left = l; rest = w ++ (print_paras ms t ++ r) })
      ≡ some (record q { request = w; para = paras_of ms t; target = ts })
unfolding parse_command
command_lem q v w ms t r l ts h k z e f small =
    let n = length (print_paras ms t) in
    let command = collect_lem is_space w n (print_paras ms t ++ r) l h (paras_stop ms t r) e in
    ap (λ c. add_paras q c.word (parse_paras (c.left + 1) c)) command
    ∙ ap (add_paras q w) (paras_lem (n + 1) w ms t r n k refl (omega arith))
    ∙ rw (small, add_paras) (rw (drop_empty_lem ms t k z, f) refl)

-- What the request holds of the origin; the colon stays in front of the nick.
abbrev pub origin_request : Option Origin → Request
origin_request none = empty_request
origin_request (some o) = record empty_request {
  server = b':' ∷ o.nick;
  nick = b':' ∷ o.nick;
  user = o.user;
  host = o.host;
}

-- What stands behind the origin stops the loop that skips spaces.
command_stop :
    (w : List ℕ) (n : ℕ) (r : List ℕ) (l : ℕ)
    → IsCommand w
    → l ≡ length w + n
    → StopsAt no_space l (w ++ r)
command_stop [] n r l h e = absurd h
command_stop (c ∷ w) n r zero h e = absurd (omega (arith, e))
command_stop (c ∷ w) n r (suc l) (_, (e, _)) f = rw e refl

part_lem :
    (mark : ℕ) (stop : ℕ → Bool) (v w : List ℕ) (n : ℕ) (r : List ℕ) (l : ℕ)
    → All (λ c. stop c ≡ false) w
    → StopsAt stop n r
    → l ≡ suc (length w + n)
    → part mark stop (record { word = v; left = l; rest = mark ∷ (w ++ r) })
      ≡ record { word = w; left = n; rest = r }
unfolding part
part_lem mark stop v w n r l h s e =
    let same = (==_iff mark mark).1 refl in
    rw same (collect_lem stop w n r (l - 1) h s (omega (arith, e)))

-- The loops that read an origin, before the `n` bytes `x` of the rest of the request.
origin_lem :
    (o : Origin) (n : ℕ) (x : List ℕ) (len : ℕ)
    → IsOrigin (some o)
    → StopsAt no_space n x
    → len ≡ length (print_origin (some o)) + n
    → irc_parse_request (print_origin (some o) ++ x) len
      ≡ parse_command (origin_request (some o)) (record { word = b' ' ∷ []; left = n; rest = x })
unfolding irc_parse_request skip_spaces
origin_lem o n x len (nick, user, host) s e =
    let x3 = b' ' ∷ x in
    let n3 = suc n in
    let x2 = b'@' ∷ (o.host ++ x3) in
    let n2 = suc (length o.host + n3) in
    let x1 = b'!' ∷ (o.user ++ x2) in
    let n1 = suc (length o.user + n2) in
    let text : print_origin (some o) ++ x ≡ (b':' ∷ o.nick) ++ x1 = simp (append_assoc) in
    let h0 : List ℕ = o.host ++ b' ' ∷ [] in
    let u0 : List ℕ = o.user ++ b'@' ∷ h0 in
    let size : len ≡ length (b':' ∷ o.nick) + n1 = omega (
      arith,
      e,
      length-append o.nick (b'!' ∷ u0),
      length-append o.user (b'@' ∷ h0),
      length-append o.host (b' ' ∷ []),
    ) in
    let name : collect ends_name len ((b':' ∷ o.nick) ++ x1)
        ≡ record { word = b':' ∷ o.nick; left = n1; rest = x1 } =
      collect_lem ends_name (b':' ∷ o.nick) n1 x1 len (refl, nick) refl size in
    let user2 = part_lem b'!' ends_login (b':' ∷ o.nick) o.user n2 x2 n1 user refl refl in
    let host2 = part_lem b'@' is_space o.user o.host n3 x3 n2 host refl refl in
    let skipped : collect no_space n3 x3 ≡ record { word = b' ' ∷ []; left = n; rest = x } =
      collect_lem no_space (b' ' ∷ []) n x n3 (refl, tt) s (omega arith) in
    rw text (rw name (rw user2 (rw host2 (rw skipped refl))))

message_text :
    (m : Message) (r : List ℕ)
    → print_message m ++ r
      ≡ print_origin m.origin ++ (m.command ++ (print_paras m.middle m.trailing ++ r))
message_text m r =
    append_assoc (print_origin m.origin) (m.command ++ print_paras m.middle m.trailing) r
    ∙ ap (λ l. print_origin m.origin ++ l)
        (append_assoc m.command (print_paras m.middle m.trailing) r)

no_origin :
    (w : List ℕ) (x : List ℕ) (len : ℕ)
    → IsCommand w
    → irc_parse_request (w ++ x) len
      ≡ parse_command empty_request (record { word = []; left = len; rest = w ++ x })
unfolding irc_parse_request
no_origin [] x len h = absurd h
no_origin (c ∷ w) x len (e, _) = rw e refl

NoSpaces-command : (w : List ℕ) → IsCommand w → NoSpaces w
NoSpaces-command [] h = absurd h
NoSpaces-command (c ∷ w) (_, h) = h

origin_step :
    (o : Option Origin) (w x : List ℕ) (n len : ℕ)
    → IsOrigin o
    → IsCommand w
    → len ≡ length (print_origin o) + (length w + n)
    → (v : List ℕ) × (irc_parse_request (print_origin o ++ (w ++ x)) len
        ≡ parse_command
            (origin_request o)
            (record { word = v; left = length w + n; rest = w ++ x }))
origin_step none w x n len h k e = (
  [],
  let same : len ≡ length w + n = omega (arith, e) in rw same (no_origin w x (length w + n) k),
)
origin_step (some o) w x n len h k e = (
  b' ' ∷ [],
  origin_lem o (length w + n) (w ++ x) len h (command_stop w n x (length w + n) k refl) e,
)

-- A message in print comes back from `irc_parse_request`, whatever bytes follow it in the buffer:
-- the origin, with the colon still in front of its nick, the command and all parameters; the
-- targets are those that `irc_parse_target` finds in the first one. The words have no separators in
-- them, no parameter is empty or begins with a NUL, and only the last may begin with a colon. All words
-- fit into the arrays of the request: at most 16 parameters of at most 511 bytes, 14 bytes for the
-- nick, 255 for the others; and the targets fit into theirs.
pub parse_request-print_message :
    (m : Message) (after : List ℕ) (ts : List Target)
    → IsMessage m
    → request_fits (record (origin_request m.origin) {
      request = m.command;
      para = paras_of m.middle m.trailing;
    })
      ≡ true
    → irc_parse_target (paras_of m.middle m.trailing) 0 ≡ some ts
    → irc_parse_request (print_message m ++ after) (length (print_message m))
      ≡ some (record (origin_request m.origin) {
        request = m.command;
        para = paras_of m.middle m.trailing;
        target = ts;
      })
parse_request-print_message m after ts (o, c, h, k) small t =
    let ps = print_paras m.middle m.trailing in
    let len = length (print_message m) in
    let size : len ≡ length (print_origin m.origin) + (length m.command + length ps) = omega (
      arith,
      length-append (print_origin m.origin) (m.command ++ ps),
      length-append m.command ps,
    ) in
    let (v, e) = origin_step m.origin m.command (ps ++ after) (length ps) len o c size in
    ap (λ l. irc_parse_request l len) (message_text m after)
    ∙ e
    ∙ command_lem (origin_request m.origin) v m.command m.middle m.trailing after
        (length m.command + length ps) ts (NoSpaces-command m.command c) h k refl t small
