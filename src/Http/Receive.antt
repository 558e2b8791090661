-- ===== src/Http/Receive.antt =====
-- http-proto.c: `http_check_request`, which cuts a request out of the receive buffer, and
-- `http_detect_proto`. The buffer is the list of its `recv_buffer_fill` bytes.
pub mod Whole
pub mod Handled
use serveez.Base.{
  Bool, List, Option, [], drop, false, get_or, if◌then◌else◌, none, some, take, true, ℕ, ◌&&◌, ◌==◌,
  ◌∷◌,
}
use serveez.Http.Request.{has_prefix}

-- EOL2_P where four bytes are left.
abbrev pub eol2 : List ℕ → Bool
eol2 p = (get_or p 0 0 == 13 && get_or p 1 0 == 10) && (get_or p 2 0 == 13 && get_or p 3 0 == 10)

abbrev pub prepend : ℕ → Option (List ℕ × List ℕ) → Option (List ℕ × List ℕ)
prepend c none = none
prepend c (some parts) = some (c ∷ parts.0, parts.1)

-- The bytes up to the first empty line and those behind it.
unfoldable pub find_end : List ℕ → Option (List ℕ × List ℕ)
find_end [] = none
find_end (c ∷ p) =
    let more = prepend c (find_end p) in
    elim (eol2 (c ∷ p)) [ true ↦ some (take 4 (c ∷ p), drop 4 (c ∷ p)) | false ↦ more ]

-- Whether the buffer begins with the name of a type of request.
unfoldable pub http_detect_proto : List (List ℕ) → List ℕ → Bool
http_detect_proto [] recv = false
http_detect_proto (ident ∷ idents) recv =
    let rest = http_detect_proto idents recv in if has_prefix ident recv then true else rest

module _ {S : Type 0} (handle_request : S → List ℕ → Bool × S) where
  -- `true` for the return value -1; then the request stays in the buffer.
  unfoldable pub http_check_request : S → List ℕ → Bool × S × List ℕ
  http_check_request st recv = elim (find_end recv) [
    | none ↦ (false, st, recv)
    | some parts ↦
        let r = handle_request st parts.0 in
        if r.0 then (true, r.1, recv) else (false, r.1, parts.1)
  ]
