-- ===== src/Http/Receive/Handled.antt =====
-- http-proto.c: from the receive buffer to the callback of a request, `http_check_request` with
-- `http_handle_request`.
use mathlib.Core.List.{append_assoc}
use serveez.Base.{
  All, All-append, Bool, List, Option, [], ap, arith, false, length, none, refl, some, sym, true, ℕ,
  ◌++◌, ◌<◌, ◌^◌, ◌∙◌, ◌∷◌, ◌≡◌, ◌≢◌,
}
use serveez.Http.Property.{max_http_properties}
use serveez.Http.Property.RoundTrip.{IsProperty, Property, eol, flat, print_properties}
use serveez.Http.Receive.{find_end, http_check_request}
use serveez.Http.Receive.Whole.{find_request_end}
use serveez.Http.Request.{HttpRequest, find_request, http_handle_request}
use serveez.Http.Request.Line.{minor, print_request, printable_lem, version_printable, version_text}
use serveez.Http.Request.RoundTrip.{handle_request-print_request, print_uri_free}
use serveez.Http.Uri.{print_uri}

-- `http_handle_request` as the handler: the state is the last request that was handled.
abbrev pub handle : List (List ℕ) → Option HttpRequest → List ℕ → Bool × Option HttpRequest
handle types st bytes = elim (http_handle_request types bytes) [
  | none ↦ (true, st)
  | some r ↦ (false, some r)
]

check_found :
    {S : Type 0} (h : S → List ℕ → Bool × S) (st st2 : S) (recv req rest : List ℕ)
    → find_end recv ≡ some (req, rest)
    → h st req ≡ (false, st2)
    → http_check_request h st recv ≡ (false, st2, rest)
unfolding http_check_request
check_found h st st2 recv req rest e f = rw (e, f, http_check_request) refl

whole_line :
    (request uri : List ℕ) (later : Bool) (ps : List Property)
    → print_request request uri later ps
      ≡ (request ++ b' ' ∷ b'/' ∷ (uri ++ b' ' ∷ version_text later))
        ++ (eol ++ print_properties ps)
whole_line request uri later ps = sym (
    append_assoc request (b' ' ∷ b'/' ∷ (uri ++ b' ' ∷ version_text later))
      (eol ++ print_properties ps))

-- A byte of the type of a request.
abbrev pub IsWordByte : ℕ → Type 0
IsWordByte d = (d ≢ b' ') × (d ≢ 0) × (d ≢ 13)

word_part :
    (w : List ℕ)
    → All IsWordByte w
    → All (λ d. d ≢ b' ') w × All (λ d. d ≢ 0) w × All (λ d. d ≢ 13) w
word_part [] h = (tt, tt, tt)
word_part (d ∷ w) ((a, b, c), h) = let (x, y, z) = word_part w h in ((a, x), (b, y), (c, z))

-- A receive buffer with a request in print and anything behind it, for at most 31 properties whose
-- names have no colons and whose bodies are not empty and which have no carriage returns and NULs:
-- `http_check_request` hands exactly the request to `http_handle_request`, which accepts it and gets
-- the type, the URI as its client meant it, and the properties; what follows the request stays in the
-- buffer. The type has no blanks, NULs and carriage returns; the URI has no NUL and is written with '%'
-- and two digits for any of its bytes, among them each '%' and carriage return.
pub check_request-print_request :
    (types : List (List ℕ)) (st : Option HttpRequest) (request : List ℕ) (marks : ℕ → Bool)
    (upper : Bool) (uri : List ℕ) (later : Bool) (ps : List Property) (rest : List ℕ)
    → All IsWordByte request
    → marks b'%' ≡ true
    → marks 13 ≡ true
    → All (λ d. d < 2 ^ 8) uri
    → All (λ d. d ≢ 0) uri
    → length ps < max_http_properties
    → All IsProperty ps
    → http_check_request
        (handle types)
        st
        (print_request request (print_uri marks upper uri) later ps ++ rest)
      ≡ (
        false,
        some (record {
          request = request;
          uri = b'/' ∷ uri;
          simple = false;
          version = (1, minor later);
          property = flat ps;
          response = find_request types request;
        }),
        rest,
      )
check_request-print_request types st request marks upper uri later ps rest a m n c d h k =
    let enc = print_uri marks upper uri in
    let line = request ++ b' ' ∷ b'/' ∷ (enc ++ b' ' ∷ version_text later) in
    let no_cr = (print_uri_free marks upper uri n c d).1 in
    let free : All (λ e. e ≢ 13) line =
      All-append (λ e. e ≢ 13) request (b' ' ∷ b'/' ∷ (enc ++ b' ' ∷ version_text later))
        (word_part request a).2
        (
          (λ z. omega (arith, z)),
          (
            (λ z. omega (arith, z)),
            All-append (λ e. e ≢ 13) enc (b' ' ∷ version_text later) no_cr
                (
                  (λ z. omega (arith, z)),
                  (printable_lem (version_text later) (version_printable later)).1,
                ),
          ),
        ) in
    let found =
      ap (λ t. find_end (t ++ rest)) (whole_line request enc later ps)
      ∙ find_request_end line rest ps free k
      ∙ ap (λ t. some (t, rest)) (sym (whole_line request enc later ps)) in
    let handled =
      handle_request-print_request types request marks upper uri later ps (word_part request a).0
        (word_part request a).1 m n c d h k in
    check_found (handle types) st _ (print_request request enc later ps ++ rest)
      (print_request request enc later ps) rest found
      (ap (λ o. elim o [ none ↦ (true, st) | some r ↦ (false, some r) ]) handled)
