-- ===== src/Http/Request.antt =====
-- http-proto.c: `http_handle_request`, which takes a complete request apart. What stands behind its
-- end reads as 0; memory and the time are left out.
pub mod Line
pub mod RoundTrip
use serveez.Base.{
  Bool, List, Option, [], drop, false, get_or, if◌then◌else◌, leb, none, not, some, suc, true, ℕ,
  ◌&&◌, ◌++◌, ◌==◌, ◌||◌, ◌∷◌,
}
use serveez.Http.Property.{eol1, http_parse_property, is_empty}
use serveez.Http.Uri.{http_process_uri}

-- The minor version is the byte that is written for it; the callback for the type of the request is its
-- index in `http_request`, none for the default.
pub record HttpRequest : Type 0 where
  pub request : List ℕ
  pub uri : List ℕ
  pub simple : Bool
  pub version : ℕ × ℕ
  pub property : List (List ℕ)
  pub response : Option ℕ

unfoldable pub has_prefix : List ℕ → List ℕ → Bool
has_prefix [] p = true
has_prefix (c ∷ cs) [] = false
has_prefix (c ∷ cs) (d ∷ p) = c == d && has_prefix cs p

-- The bytes in front of a NUL.
unfoldable pub to_nul : List ℕ → List ℕ
to_nul [] = []
to_nul (c ∷ p) = let more = to_nul p in elim (c == 0) [ true ↦ [] | false ↦ c ∷ more ]

-- The first loop, which stops at a blank or at the last byte.
unfoldable pub to_blank : List ℕ → List ℕ × List ℕ
to_blank [] = ([], [])
to_blank (c ∷ p) =
    let more = to_blank p in
    elim (c == b' ' || is_empty p) [ true ↦ ([], c ∷ p) | false ↦ (c ∷ more.0, more.1) ]

-- The second loop, which stops at a carriage return or at the end.
unfoldable pub to_cr : List ℕ → List ℕ × List ℕ
to_cr [] = ([], [])
to_cr (c ∷ p) =
    let more = to_cr p in elim (c == 13) [ true ↦ ([], c ∷ p) | false ↦ (c ∷ more.0, more.1) ]

-- The way back: what is in front of the last blank or NUL and what is behind it; `none` where there
-- is none, and the loop stops at the NUL that was written in front of the text.
unfoldable pub last_blank : List ℕ → Option (List ℕ × List ℕ)
last_blank [] = none
last_blank (c ∷ p) = elim (last_blank p) [
  | some found ↦ some (c ∷ found.0, found.1)
  | none ↦ if c == b' ' || c == 0 then some ([], p) else none
]

-- "HTTP/"
abbrev pub http_name : List ℕ
http_name = b'H' ∷ b'T' ∷ b'T' ∷ b'P' ∷ b'/' ∷ []

-- The number of the first type of request that the text begins with.
unfoldable pub find_request : List (List ℕ) → List ℕ → Option ℕ
find_request [] request = none
find_request (ident ∷ idents) request =
    let rest = find_request idents request in
    if has_prefix ident request then some 0 else elim rest [ none ↦ none | some n ↦ some (suc n) ]

-- The first line without the type of the request: the URI, whether it is simple, the version and
-- what stands behind it; `none` for the return value -1.
abbrev pub FirstLine : Type 0
FirstLine = List ℕ × Bool × (ℕ × ℕ) × List ℕ

-- The version 1 with a minor version up to 1, and what stands behind it.
abbrev pub read_version : List ℕ → List ℕ → Option FirstLine
read_version uri line =
    if has_prefix http_name line
      && get_or line 5 0 == b'1'
      && get_or line 6 0 == b'.'
      && leb (get_or line 7 0) b'1'
      && eol1 (drop 8 line)
    then some (to_nul uri, false, (1, get_or line 7 0), drop 10 line)
    else none

-- `text` stands in front of the carriage return, and `from_cr` from it on; `parts` are those around the
-- place where the way back stops.
abbrev pub read_parts : List ℕ → List ℕ → List ℕ → List ℕ × List ℕ → Option FirstLine
read_parts request text from_cr parts =
    if has_prefix (b'G' ∷ b'E' ∷ b'T' ∷ []) request
      && not (has_prefix http_name (parts.1 ++ from_cr))
    then (if eol1 from_cr then some (to_nul text, true, (0, b'9'), drop 2 from_cr) else none)
    else if is_empty parts.0
    then none
    else read_version parts.0 (parts.1 ++ from_cr)

abbrev pub around : List ℕ → Option (List ℕ × List ℕ) → List ℕ × List ℕ
around text none = ([], text)
around text (some parts) = parts

abbrev pub read_line : List ℕ → List ℕ → List ℕ → Option FirstLine
read_line request text from_cr = read_parts request text from_cr (around text (last_blank text))

-- `at` begins with the byte that the first loop stopped at.
abbrev pub read_rest : List ℕ → List ℕ → Option FirstLine
read_rest request [] = none
read_rest request (blank ∷ line) =
    if get_or line 0 0 == b'/' && not (is_empty (to_cr line).1)
    then read_line request (to_cr line).0 (to_cr line).1
    else none

abbrev pub finish : List (List ℕ) → List ℕ → Option FirstLine → Option HttpRequest
finish types request none = none
finish types request (some first) = some (record {
  request = request;
  uri = http_process_uri first.0;
  simple = first.1;
  version = first.2;
  property = http_parse_property first.3;
  response = find_request types request;
})

-- `types` are the names in `http_request`.
unfoldable pub http_handle_request : List (List ℕ) → List ℕ → Option HttpRequest
http_handle_request types bytes =
    let request = to_nul (to_blank bytes).0 in
    finish types request (read_rest request (to_blank bytes).1)
