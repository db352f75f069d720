-- ===== src/Trace/Http1.antt =====
-- packages/cli/src/runtime/trace/http1.ts: parseHttp1Message and what it calls.
use ac.Prelude.Codes.{Text, same}
use ac.Prelude.Text.{is_space}
use ac.Prelude.{
  ℕ, none, some, List, [], ◌∷◌, Option, map, backwards, eqb, if◌then◌else◌, is_empty, zero, suc,
  ◌+◌, ◌-◌, ◌*◌, ◌%◌, Bool, true, ◌&&◌, not, ◌++◌,
}
use ac.Trace.Bytes.{Bytes, crlf, after, cut, skip_white, word, begins_white, is_digit}

-- What Node gives: the decoding of UTF-8, toLowerCase, Number (for an integer that is not negative)
-- and the functions of zlib, with none where they throw.
pub record Platform : Type 0 where
  pub utf8 : Bytes → Text
  pub lower_case : Text → Text
  pub natural : Text → Option ℕ
  pub gunzip : Bytes → Option Bytes
  pub inflate : Bytes → Option Bytes
  pub brotli_decompress : Bytes → Option Bytes

-- Without the names that every object inherits.
abbrev pub Http1Headers : Type 0
Http1Headers = List (Text × Text)

pub record Http1Request : Type 0 where
  pub method : Text
  pub target : Text
  pub version : Text
  pub headers : Http1Headers
  pub body : Bytes
  pub decoded_body : Bytes

pub record Http1Response : Type 0 where
  pub version : Text
  pub status : ℕ
  pub reason : Text
  pub headers : Http1Headers
  pub body : Bytes
  pub decoded_body : Bytes

pub data Http1Message : Type 0 where
  request_message : Http1Request → Http1Message
  response_message : Http1Response → Http1Message

-- In place of the number of bytes consumed, the bytes that are left.
pub data ParseResult : Type 0 where
  need_more malformed : ParseResult
  parsed : Http1Message → (rest : Bytes) → ParseResult

abbrev pub skip_space : Text → Text
skip_space [] = []
skip_space (c ∷ cs) = let rest = skip_space cs in if is_space c then rest else c ∷ cs

abbrev pub trim : Text → Text
trim t = backwards (skip_space (backwards (skip_space t)))

abbrev pub ascii : Bytes → Text
ascii bs = map (λ c. c % 128) bs

pub data ParsedLine : Type 0 where
  request_line : (method target version : Text) → ParsedLine
  status_line : (version : Text) → (status : ℕ) → (reason : Text) → ParsedLine

abbrev pub http_slash : Text
http_slash = b'H' ∷ b'T' ∷ b'T' ∷ b'P' ∷ b'/' ∷ []

-- HTTP\/\d\.\d at the beginning, and the rest.
abbrev pub version_digits : Text → Option (Text × Text)
version_digits (a ∷ d ∷ b ∷ rest) =
    if is_digit a && eqb d b'.' && is_digit b
    then some (http_slash ++ a ∷ d ∷ b ∷ [], rest)
    else none
version_digits _ = none

abbrev pub http_version : Text → Option (Text × Text)
http_version t = elim (after http_slash t) [ none ↦ none | some rest ↦ version_digits rest ]

-- What `.` matches, in ASCII.
abbrev pub one_line : Text → Bool
one_line [] = true
one_line (c ∷ cs) = not (eqb c 10) && not (eqb c 13) && one_line cs

-- (\d{3})\s*(.*)$
abbrev pub status_of : Text → Text → Option ParsedLine
status_of version (a ∷ b ∷ c ∷ rest) =
    if is_digit a && is_digit b && is_digit c && one_line (skip_white rest)
    then some
        (status_line version ((a - b'0') * 100 + (b - b'0') * 10 + (c - b'0')) (skip_white rest))
    else none
status_of version _ = none

abbrev pub status_after : Text × Text → Option ParsedLine
status_after (version, rest) =
    if begins_white rest then status_of version (skip_white rest) else none

-- (HTTP\/\d\.\d)$
abbrev pub request_of : Text → Text → Option (Text × Text) → Option ParsedLine
request_of method target none = none
request_of method target (some (version, c ∷ cs)) = none
request_of method target (some (version, [])) = some (request_line method target version)

abbrev pub request_after : Text × Text → Text × Text → Option ParsedLine
request_after (method, r) (target, q) =
    if not (is_empty method) && begins_white r && not (is_empty target) && begins_white q
    then request_of method target (http_version (skip_white q))
    else none

unfoldable pub parse_first_line : Text → Option ParsedLine
unfolding skip_white word
parse_first_line line = elim (after http_slash line) [
  | some rest ↦ elim (http_version line) [ none ↦ none | some v ↦ status_after v ]
  | none ↦ request_after (word line) (word (skip_white (word line).1))
]

-- The rounds are as many as the bytes at most.
unfoldable pub split_crlf : ℕ → Bytes → List Bytes
unfolding cut
split_crlf rounds [] = []
split_crlf zero (b ∷ bs) = []
split_crlf (suc rounds) (b ∷ bs) = elim (cut crlf (b ∷ bs)) [
  | none ↦ (b ∷ bs) ∷ []
  | some (line, rest) ↦ line ∷ split_crlf rounds rest
]

abbrev pub header : Text → Http1Headers → Option Text
header name [] = none
header name ((n, v) ∷ hs) = let rest = header name hs in if same n name then some v else rest

-- A repeated header gets the values joined by commas.
abbrev pub add_header : Text → Text → Http1Headers → Http1Headers
add_header name value [] = (name, value) ∷ []
add_header name value ((n, v) ∷ hs) =
    let rest = add_header name value hs in
    if same n name then (n, v ++ b',' ∷ b' ' ∷ value) ∷ hs else (n, v) ∷ rest

module _ (node : Platform) where
  abbrev pub with_line : Text → Http1Headers → Http1Headers
  with_line line hs = elim (cut (b':' ∷ []) line) [
    | none ↦ hs
    | some ([], value) ↦ hs
    | some (c ∷ cs, value) ↦ add_header (node.lower_case (trim (c ∷ cs))) (trim value) hs
  ]

  abbrev pub headers_from : List Bytes → Http1Headers → Http1Headers
  headers_from [] hs = hs
  headers_from (raw ∷ lines) hs = headers_from lines (with_line (node.utf8 raw) hs)

  unfoldable pub parse_headers : List Bytes → Http1Headers
  unfolding cut
  parse_headers lines = headers_from lines []

  unfoldable pub parse_content_length : Option Text → Option ℕ
  parse_content_length none = none
  parse_content_length (some []) = none
  parse_content_length (some (c ∷ cs)) = node.natural (trim (c ∷ cs))
