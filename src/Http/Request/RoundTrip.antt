-- ===== src/Http/Request/RoundTrip.antt =====
-- http-proto.c: a request in print comes back from `http_handle_request`.
use mathlib.Core.Bool.{false≢true}
use mathlib.Core.List.{append-nil}
use serveez.Base.{
  All, Bool, Bool-cases, List, [], ap, arith, false, inl, inr, length, some, sym, true, ℕ, ◌%◌,
  ◌++◌, ◌/◌, ◌<◌, ◌^◌, ◌∙◌, ◌∷◌, ◌≡◌, ◌≢◌,
}
use serveez.Http.Property.{http_parse_property, max_http_properties}
use serveez.Http.Property.RoundTrip.{
  IsProperty, Property, eol, find-parse_property, flat, print_properties,
}
use serveez.Http.Request.{find_request, finish, http_handle_request, read_rest, to_nul}
use serveez.Http.Request.Line.{
  blank_lem, minor, nul_lem, print_request, read_rest_lem, version_text,
}
use serveez.Http.Uri.{hex_digit, http_process_uri, print_uri, process_plain, process_uri-print_uri}

digit_lem : (upper : Bool) (n : ℕ) → n < 16 → (hex_digit upper n ≢ 0) × (hex_digit upper n ≢ 13)
digit_lem true n h = (λ e. ground (arith, e), λ e. ground (arith, e))
digit_lem false n h = (λ e. ground (arith, e), λ e. ground (arith, e))

-- What is written of a URI has no NUL and no carriage return.
pub print_uri_free :
    (marks : ℕ → Bool) (upper : Bool) (uri : List ℕ)
    → marks 13 ≡ true
    → All (λ d. d < 2 ^ 8) uri
    → All (λ d. d ≢ 0) uri
    → All (λ d. d ≢ 0) (print_uri marks upper uri) × All (λ d. d ≢ 13) (print_uri marks upper uri)
print_uri_free marks upper [] m h k = (tt, tt)
print_uri_free marks upper (c ∷ uri) m (h, hs) (k, ks) =
    let (x, y) = print_uri_free marks upper uri m hs ks in
    elim (Bool-cases (marks c)) [
      | inl e ↦
          let (p, q) = digit_lem upper (c / 16) (omega arith) in
          let (r, s) = digit_lem upper (c % 16) (omega arith) in
          rw e (((λ z. omega (arith, z)), (p, (r, x))), ((λ z. omega (arith, z)), (q, (s, y))))
      | inr e ↦ rw e ((k, x), ((λ same. false≢true (sym e ∙ ap marks same ∙ m)), y))
    ]

decode_lem :
    (marks : ℕ → Bool) (upper : Bool) (uri : List ℕ)
    → marks b'%' ≡ true
    → All (λ d. d < 2 ^ 8) uri
    → All (λ d. d ≢ 0) (print_uri marks upper uri)
    → http_process_uri (to_nul (b'/' ∷ print_uri marks upper uri)) ≡ b'/' ∷ uri
decode_lem marks upper uri m h k =
    ap http_process_uri (nul_lem (b'/' ∷ print_uri marks upper uri) ((λ z. omega (arith, z)), k))
    ∙ process_plain b'/' (print_uri marks upper uri) (λ z. omega (arith, z))
    ∙ ap (λ t. b'/' ∷ t) (process_uri-print_uri marks upper uri m h)

-- A request in print, for at most 31 properties whose names have no colons and whose bodies are not
-- empty and which have no carriage returns and NULs: `http_handle_request` gives the type of the request, the
-- URI as its client meant it, and exactly the properties, and calls the first callback whose name the
-- type begins with. The URI has no NUL and is written with '%' and two digits for any of its bytes,
-- among them each '%' and carriage return; blanks may stand in it; the type has no blanks and NULs.
pub handle_request-print_request :
    (types : List (List ℕ)) (request : List ℕ) (marks : ℕ → Bool) (upper : Bool) (uri : List ℕ)
    (later : Bool) (ps : List Property)
    → All (λ d. d ≢ b' ') request
    → All (λ d. d ≢ 0) request
    → marks b'%' ≡ true
    → marks 13 ≡ true
    → All (λ d. d < 2 ^ 8) uri
    → All (λ d. d ≢ 0) uri
    → length ps < max_http_properties
    → All IsProperty ps
    → http_handle_request types (print_request request (print_uri marks upper uri) later ps)
      ≡ some (record {
        request = request;
        uri = b'/' ∷ uri;
        simple = false;
        version = (1, minor later);
        property = flat ps;
        response = find_request types request;
      })
unfolding http_handle_request http_parse_property
handle_request-print_request types request marks upper uri later ps a b m n c d h k =
    let (no_nul, no_cr) = print_uri_free marks upper uri n c d in
    let enc = print_uri marks upper uri in
    let rest = b' ' ∷ b'/' ∷ ((enc ++ b' ' ∷ version_text later) ++ (eol ++ print_properties ps)) in
    ap (λ t. finish types (to_nul t.0) (read_rest (to_nul t.0) t.1))
      (blank_lem request ((enc ++ b' ' ∷ version_text later) ++ (eol ++ print_properties ps)) b'/'
        a)
    ∙ ap (λ r. finish types r (read_rest r rest)) (nul_lem request b)
    ∙ ap (finish types request) (read_rest_lem request enc later ps no_cr)
    ∙ done (to_nul (b'/' ∷ enc)) (b'/' ∷ uri) (print_properties ps) (flat ps)
        (decode_lem marks upper uri m c no_nul)
        (ap http_parse_property (sym (append-nil (print_properties ps)))
          ∙ (find-parse_property (λ x. x) ps [] [] h k).0)
  where
    done :
        (u v q : List ℕ) (w : List (List ℕ))
        → http_process_uri u ≡ v
        → http_parse_property q ≡ w
        → finish types request (some (u, false, (1, minor later), q))
          ≡ some (record {
            request = request;
            uri = v;
            simple = false;
            version = (1, minor later);
            property = w;
            response = find_request types request;
          })
    done u v q w e f i = some (record {
      request = request;
      uri = e i;
      simple = false;
      version = (1, minor later);
      property = f i;
      response = find_request types request;
    })
