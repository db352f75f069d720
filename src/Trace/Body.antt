-- ===== src/Trace/Body.antt =====
-- packages/cli/src/runtime/trace/http1.ts: the framing and decoding of bodies, and parseHttp1Message.
use ac.Prelude.Codes.{Text, same}
use ac.Prelude.{
  length, ℕ, none, some, List, [], ◌∷◌, Option, take, ltb, leb, eqb, if◌then◌else◌, is_some,
  is_empty, zero, suc, ◌+◌, ◌-◌, ◌*◌, Bool, true, false, ◌&&◌, ◌||◌, ◌++◌,
}
use ac.Trace.Http1.{
  Platform, Http1Headers, Http1Message, request_message, response_message, ParseResult, need_more,
  malformed, parsed, trim, ascii, ParsedLine, request_line, status_line, parse_first_line,
  split_crlf, header, parse_headers, parse_content_length, request_message, response_message,
}
use ac.Trace.Bytes.{Bytes, crlf, double_crlf, after, cut, drop, is_digit}
use ac.Prelude.Text.{codes}

abbrev pub hex_digit : ℕ → Option ℕ
hex_digit c =
    if is_digit c
    then some (c - b'0')
    else if leb b'a' c && leb c b'f'
    then some (c - b'a' + 10)
    else if leb b'A' c && leb c b'F'
    then some (c - b'A' + 10)
    else none

abbrev pub or_zero : Option ℕ → ℕ
or_zero none = 0
or_zero (some n) = n

-- The longest run of hexadecimal digits; none where there is no digit.
unfoldable pub hex_from : Option ℕ → Text → Option ℕ
hex_from so_far [] = so_far
hex_from so_far (c ∷ cs) = elim (hex_digit c) [
  | none ↦ so_far
  | some d ↦ hex_from (some (or_zero so_far * 16 + d)) cs
]

abbrev pub after_0x : Text → Text
after_0x (z ∷ x ∷ cs) = if eqb z b'0' && (eqb x b'x' || eqb x b'X') then cs else z ∷ x ∷ cs
after_0x cs = cs

-- A number below zero counts as none.
abbrev pub negated : Option ℕ → Option ℕ
negated (some zero) = some 0
negated _ = none

-- Number.parseInt(text, 16) of a trimmed text, where it is finite and not negative.
unfoldable pub parse_hex : Text → Option ℕ
unfolding hex_from
parse_hex [] = none
parse_hex (c ∷ cs) =
    if eqb c b'-'
    then negated (hex_from none (after_0x cs))
    else if eqb c b'+'
    then hex_from none (after_0x cs)
    else hex_from none (after_0x (c ∷ cs))

-- The size of a chunk, without the extensions of its line.
abbrev pub chunk_size : Bytes → Option ℕ
chunk_size line = elim (cut (b';' ∷ []) (ascii line)) [
  | none ↦ parse_hex (trim (ascii line))
  | some (size, extensions) ↦ parse_hex (trim size)
]

-- The bytes after the trailer part and its closing CRLF.
unfoldable pub skip_trailer : ℕ → Bytes → Option Bytes
unfolding cut
skip_trailer zero bs = none
skip_trailer (suc rounds) bs = elim (cut crlf bs) [
  | none ↦ none
  | some ([], rest) ↦ some rest
  | some (c ∷ cs, rest) ↦ skip_trailer rounds rest
]

abbrev pub put_before : Bytes → Option (Bytes × Bytes) → Option (Bytes × Bytes)
put_before part none = none
put_before part (some (body, rest)) = some (part ++ body, rest)

abbrev pub with_empty : Option Bytes → Option (Bytes × Bytes)
with_empty none = none
with_empty (some rest) = some ([], rest)

-- The data of a chunk and its CRLF.
abbrev pub chunk_data : ℕ → Bytes → Option (Bytes × Bytes)
chunk_data size bs =
    if ltb (length bs) (size + 2)
    then none
    else elim (after crlf (drop size bs)) [ none ↦ none | some rest ↦ some (take size bs, rest) ]

-- The body and the bytes after it; none for bytes that are incomplete or ill-formed.
unfoldable pub decode_chunked : ℕ → Bytes → Option (Bytes × Bytes)
unfolding cut parse_hex skip_trailer drop
decode_chunked zero bs = none
decode_chunked (suc rounds) bs = elim (cut crlf bs) [
  | none ↦ none
  | some (line, rest) ↦ elim (chunk_size line) [
    | none ↦ none
    | some zero ↦ with_empty (skip_trailer (length rest) rest)
    | some (suc n) ↦ elim (chunk_data (suc n) rest) [
      | none ↦ none
      | some (part, more) ↦ put_before part (decode_chunked rounds more)
    ]
  ]
]

abbrev pub chunked_word : Text
chunked_word = codes "chunked"

abbrev pub transfer_encoding_name : Text
transfer_encoding_name = codes "transfer-encoding"

abbrev pub content_length_name : Text
content_length_name = codes "content-length"

abbrev pub content_encoding_name : Text
content_encoding_name = codes "content-encoding"

abbrev pub or_blank : Option Text → Text
or_blank none = []
or_blank (some t) = t

abbrev pub or_raw : Bytes → Option Bytes → Bytes
or_raw body none = body
or_raw body (some decoded) = decoded

abbrev pub is_request : ParsedLine → Bool
is_request (request_line method target version) = true
is_request (status_line version status reason) = false

module _ (node : Platform) where
  unfoldable pub decode_body : Bytes → Text → Bytes
  decode_body body encoding =
      if is_empty body || is_empty encoding || same encoding (codes "identity")
      then body
      else if same encoding (codes "gzip") || same encoding (codes "x-gzip")
      then or_raw body (node.gunzip body)
      else if same encoding (codes "deflate")
      then or_raw body (node.inflate body)
      else if same encoding (codes "br")
      then or_raw body (node.brotli_decompress body)
      else body

  -- The body and what is left after it; none where more bytes are needed.
  unfoldable pub framed : ParsedLine → Http1Headers → Bytes → Option (Bytes × Bytes)
  unfolding cut parse_content_length decode_chunked drop
  framed line headers bs =
      if is_some
        (cut chunked_word (node.lower_case (or_blank (header transfer_encoding_name headers))))
      then decode_chunked (suc (length bs)) bs
      else elim (parse_content_length node (header content_length_name headers)) [
        | some n ↦ if ltb (length bs) n then none else some (take n bs, drop n bs)
        | none ↦ if is_request line then some ([], bs) else some (bs, [])
      ]

  abbrev pub message_of : ParsedLine → Http1Headers → Bytes → Bytes → Http1Message
  message_of (request_line method target version) headers body decoded = request_message (record {
    method = method;
    target = target;
    version = version;
    headers = headers;
    body = body;
    decoded_body = decoded;
  })
  message_of (status_line version status reason) headers body decoded = response_message (record {
    version = version;
    status = status;
    reason = reason;
    headers = headers;
    body = body;
    decoded_body = decoded;
  })

  abbrev pub parsed_with : ParsedLine → Http1Headers → Option (Bytes × Bytes) → ParseResult
  parsed_with line headers none = need_more
  parsed_with line headers (some (body, rest)) =
      parsed
        (message_of line headers body (
          decode_body body
            (trim (node.lower_case (or_blank (header content_encoding_name headers))))))
        rest

  abbrev pub parse_lines : List Bytes → Bytes → ParseResult
  parse_lines [] bs = malformed
  parse_lines (first ∷ others) bs = elim (parse_first_line (ascii first)) [
    | none ↦ malformed
    | some line ↦
        let headers = parse_headers node others in parsed_with line headers (framed line headers bs)
  ]

  unfoldable pub parse_http1_message : Bytes → ParseResult
  unfolding cut split_crlf parse_first_line parse_headers framed decode_body
  parse_http1_message bs = elim (cut double_crlf bs) [
    | none ↦ need_more
    | some (block, rest) ↦ parse_lines (split_crlf (length block) block) rest
  ]
