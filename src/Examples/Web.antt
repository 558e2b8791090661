-- ===== src/Examples/Web.antt =====
-- http-core.c and http-proto.c: the theorems at a concrete request.
use serveez.Base.{
  All, Bool, List, [], arith, false, leb, none, refl, some, true, ℕ, ◌++◌, ◌<◌, ◌==◌, ◌^◌, ◌||◌,
  ◌∷◌, ◌≡◌, ◌≢◌,
}
use serveez.Http.Property.{
  http_find_property, http_parse_property, parse_loop, same_start, strncpy, to_colon, to_eol,
  unwritten,
}
use serveez.Http.Property.RoundTrip.{
  IsProperty, Property, find-parse_property, first_with, flat, print_properties,
}
use serveez.Http.Range.{
  HttpRange, get_range-print_range, http_check_range, http_get_range, print_range,
}
use serveez.Http.Receive.{http_check_request}
use serveez.Http.Receive.Handled.{IsWordByte, check_request-print_request, handle}
use serveez.Http.Request.{find_request}
use serveez.Http.Request.Line.{minor, print_request}
use serveez.Http.Uri.{http_process_uri, print_uri}

-- "GET" and "HEAD", a file with a blank and a percent sign, and one property, "Host: a".
abbrev get_type : List ℕ
get_type = b'G' ∷ b'E' ∷ b'T' ∷ []

abbrev head_type : List ℕ
head_type = b'H' ∷ b'E' ∷ b'A' ∷ b'D' ∷ []

abbrev file : List ℕ
file = b'a' ∷ b' ' ∷ b'%' ∷ []

abbrev host : List Property
host = (b'H' ∷ b'o' ∷ b's' ∷ b't' ∷ [], b'a' ∷ []) ∷ []

-- A '%' and control characters are marked.
abbrev marked : ℕ → Bool
marked c = leb c 31 || c == b'%'

file_bytes : All (λ d. d < 2 ^ 8) file
file_bytes = (omega arith, (omega arith, (omega arith, tt)))

file_text : All (λ d. d ≢ 0) file
file_text = ((λ e. omega (arith, e)), ((λ e. omega (arith, e)), ((λ e. omega (arith, e)), tt)))

get_word : All IsWordByte get_type
get_word = (
  ((λ e. omega (arith, e)), (λ e. omega (arith, e)), (λ e. omega (arith, e))),
  (
    ((λ e. omega (arith, e)), (λ e. omega (arith, e)), (λ e. omega (arith, e))),
    (((λ e. omega (arith, e)), (λ e. omega (arith, e)), (λ e. omega (arith, e))), tt),
  ),
)

host-IsProperty : All IsProperty host
host-IsProperty = (
  (
    (
      (
        ((λ e. omega (arith, e)), (λ e. omega (arith, e))),
        (
          ((λ e. omega (arith, e)), (λ e. omega (arith, e))),
          (
            ((λ e. omega (arith, e)), (λ e. omega (arith, e))),
            (((λ e. omega (arith, e)), (λ e. omega (arith, e))), tt),
          ),
        ),
      ),
      ((λ e. omega (arith, e)), tt),
      omega arith,
    ),
    (
      (λ e. omega (arith, e)),
      ((λ e. omega (arith, e)), ((λ e. omega (arith, e)), ((λ e. omega (arith, e)), tt))),
    ),
    ((λ e. omega (arith, e)), tt),
  ),
  tt,
)

-- A number that is not in two digits is left, and "%zz" gives the byte of both.
odd_codes : http_process_uri (b'%' ∷ b'4' ∷ []) ≡ b'%' ∷ b'4' ∷ []
unfolding http_process_uri
odd_codes = refl

find-parse_property_example :
    (http_parse_property (print_properties host ++ []) ≡ flat host)
    × (http_find_property (λ c. c) (http_parse_property (print_properties host ++ [])) (b'H' ∷ [])
        ≡ first_with (λ c. c) host (b'H' ∷ []))
find-parse_property_example =
    find-parse_property (λ c. c) host [] (b'H' ∷ []) (omega arith) host-IsProperty

-- After a property without a body, a search for another one reads behind the array.
abbrev no_body : List ℕ
no_body = b'A' ∷ b':' ∷ b' ' ∷ 13 ∷ 10 ∷ 13 ∷ 10 ∷ []

no_body_unwritten :
    http_find_property (λ c. c) (http_parse_property no_body) (b'H' ∷ []) ≡ unwritten
unfolding http_find_property http_parse_property parse_loop to_colon to_eol same_start strncpy
no_body_unwritten = refl

check_request-print_request_example :
    http_check_request
      (handle (get_type ∷ head_type ∷ []))
      none
      (print_request get_type (print_uri marked false file) true host ++ b'G' ∷ b'E' ∷ [])
    ≡ (
      false,
      some (record {
        request = get_type;
        uri = b'/' ∷ file;
        simple = false;
        version = (1, minor true);
        property = flat host;
        response = find_request (get_type ∷ head_type ∷ []) get_type;
      }),
      b'G' ∷ b'E' ∷ [],
    )
check_request-print_request_example =
    check_request-print_request (get_type ∷ head_type ∷ []) none get_type marked false file true
      host (b'G' ∷ b'E' ∷ []) get_word refl refl file_bytes file_text (omega arith) host-IsProperty

abbrev some_bytes : HttpRange
some_bytes = record { first = 500; last = 999; length = 12345 }

get_range-print_range_example : http_get_range (print_range some_bytes) ≡ some some_bytes
get_range-print_range_example =
    get_range-print_range some_bytes (omega arith) (omega arith) (omega arith)

-- The first bytes of a file are refused, and a beginning behind its end is not.
first_bytes : http_check_range (record { first = 0; last = 499; length = 0 }) 1000 ≡ true
unfolding http_check_range
first_bytes = refl

behind_end : http_check_range (record { first = 2000; last = 0; length = 0 }) 1000 ≡ false
unfolding http_check_range
behind_end = refl
