-- ===== src/Http/Property.antt =====
-- http-core.c: the properties of a request, which `http_parse_property` reads and `http_find_property`
-- looks up. `tolower` of the C library, inside `strncasecmp`, is a parameter.
pub mod RoundTrip
use serveez.Base.{
  Bool, List, [], drop, false, get_or, if◌then◌else◌, leb, length, suc, true, zero, ℕ, ◌&&◌, ◌-◌,
  ◌==◌, ◌||◌, ◌∷◌,
}

abbrev pub max_http_properties : ℕ
max_http_properties = 32

-- EOL1_P. What stands behind the end of the request reads as 0 here; its last byte is a newline, so
-- no end of a line crosses the end.
abbrev pub eol1 : List ℕ → Bool
eol1 p = get_or p 0 0 == 13 && get_or p 1 0 == 10

-- The bytes in front of the colon and those from it on, none if there is no colon.
unfoldable pub to_colon : List ℕ → List ℕ × List ℕ
to_colon [] = ([], [])
to_colon (c ∷ p) =
    let more = to_colon p in elim (c == b':') [ true ↦ ([], c ∷ p) | false ↦ (c ∷ more.0, more.1) ]

-- The bytes in front of the end of the line, and those from it on.
unfoldable pub to_eol : List ℕ → List ℕ × List ℕ
to_eol [] = ([], [])
to_eol (c ∷ p) =
    let more = to_eol p in elim (eol1 (c ∷ p)) [ true ↦ ([], c ∷ p) | false ↦ (c ∷ more.0, more.1) ]

abbrev pub is_empty : List ℕ → Bool
is_empty [] = true
is_empty (c ∷ cs) = false

-- The C string that `strncpy` makes of these bytes: it stops at a NUL, and fills the rest with NULs.
unfoldable pub strncpy : List ℕ → List ℕ
strncpy [] = []
strncpy (c ∷ p) = let rest = strncpy p in if c == 0 then [] else c ∷ rest

-- One round: what stops it, the bytes around the colon, those around the end of the line, and the
-- rounds to come. The body begins two bytes behind the colon.
abbrev pub parse_round :
    (List ℕ → List (List ℕ)) → Bool → List ℕ × List ℕ → List ℕ × List ℕ → List (List ℕ)
parse_round more true name body = []
parse_round more false name body = elim (is_empty name.1) [
  | true ↦ []
  | false ↦ elim (is_empty body.1 || leb (length body.0) 2) [
    | true ↦ strncpy name.0 ∷ []
    | false ↦ strncpy name.0 ∷ strncpy (drop 2 body.0) ∷ more (drop 2 body.1)
  ]
]

-- The elements of the array `property` in front of its NULL: the names and the bodies in turns. `left`
-- counts the rounds to go.
unfoldable pub parse_loop : ℕ → List ℕ → List (List ℕ)
parse_loop zero request = []
parse_loop (suc left) request =
    parse_round (parse_loop left) (eol1 request) (to_colon request) (to_eol (to_colon request).1)

-- The list of the properties, for the bytes from `request` up to `end`.
unfoldable pub http_parse_property : List ℕ → List (List ℕ)
http_parse_property request = parse_loop (max_http_properties - 1) request

-- What a search gives: a body, NULL, or what stands behind the NULL at the end of the array, which is
-- memory that was never written.
pub data Found : Type 0 where
  body : List ℕ → Found
  null : Found
  unwritten : Found

module _ (tolower : ℕ → ℕ) where
  -- `!strncasecmp (name, key, strlen (key))`
  unfoldable pub same_start : List ℕ → List ℕ → Bool
  same_start name [] = true
  same_start [] (k ∷ key) = false
  same_start (c ∷ name) (k ∷ key) = tolower c == tolower k && same_start name key

  unfoldable pub http_find_property : List (List ℕ) → List ℕ → Found
  http_find_property [] key = null
  http_find_property (name ∷ []) key = if same_start name key then null else unwritten
  http_find_property (name ∷ value ∷ property) key =
      let rest = http_find_property property key in if same_start name key then body value else rest
