-- ===== src/Trace/Framing.antt =====
-- That a message of packages/cli/src/runtime/trace/http1.ts takes bytes off the buffer, and that the
-- rounds of its loops are enough.
use ac.Prelude.{
  length, ℕ, none, some, List, [], ◌∷◌, Option, Option-cases, is_empty, zero, suc, ◌≤◌, ◌<◌, ◌≡◌,
  refl, inl, inr, false, arith, ap, ◌∙◌, ◌≢◌, Bool-cases, subst, ◌&&◌, not,
}
use ac.Trace.Body.{
  chunk_size, skip_trailer, chunk_data, decode_chunked, framed, parse_http1_message,
  content_length_name, parsed_with, parse_lines,
}
use ac.Trace.Http1.{
  Http1Request, Http1Message, request_message, ParseResult, parsed, Platform, Http1Headers,
  ParsedLine, ascii, request_line, parse_first_line, split_crlf, header, parse_headers,
  parse_content_length, status_line, status_of, request_of, http_slash, http_version, status_after,
  request_after,
}
use ac.Trace.Bytes.{
  Bytes, crlf, after, cut, drop, length-drop, length-after, length-cut, double_crlf, skip_white,
  word, begins_white,
}
use ac.Prelude.Codes.{Text}

-- What a reader of messages needs of the parser: each message takes a byte at least, and a request
-- has a target.
pub record IsParser (parse : Bytes → ParseResult) : Type 0 where
  pub takes_bytes :
      (bs : Bytes) (m : Http1Message) (rest : Bytes)
      → parse bs ≡ parsed m rest
      → length rest < length bs
  pub has_target :
      (bs : Bytes) (r : Http1Request) (rest : Bytes)
      → parse bs ≡ parsed (request_message r) rest
      → is_empty r.target ≡ false

skip_trailer-shorter :
    (rounds : ℕ) (bs rest : Bytes) → skip_trailer rounds bs ≡ some rest → length rest < length bs
unfolding skip_trailer
skip_trailer-shorter zero bs rest h = cc
skip_trailer-shorter (suc rounds) bs rest h = elim (Option-cases (cut crlf bs)) [
  | inl e ↦ ground (arith, h, e)
  | inr (([], ys), e) ↦ ground (arith, h, e, length-cut crlf bs [] ys e)
  | inr ((x ∷ xs, ys), e) ↦
      ground (arith, h, e, length-cut crlf bs (x ∷ xs) ys e, skip_trailer-shorter rounds ys rest)
]

chunk_data-shorter :
    (size : ℕ) (bs part rest : Bytes)
    → chunk_data size bs ≡ some (part, rest)
    → length rest ≤ length bs
chunk_data-shorter size bs part rest h = elim (Option-cases (after crlf (drop size bs))) [
  | inl e ↦ ground (arith, h, e)
  | inr (more, e) ↦
      ground (arith, h, e, length-after crlf (drop size bs) more e, length-drop size bs)
]

decode_chunked-shorter :
    (rounds : ℕ) (bs body rest : Bytes)
    → decode_chunked rounds bs ≡ some (body, rest)
    → length rest < length bs
unfolding decode_chunked
decode_chunked-shorter zero bs body rest h = cc
decode_chunked-shorter (suc rounds) bs body rest h = elim (Option-cases (cut crlf bs)) [
  | inl e ↦ ground (arith, h, e)
  | inr ((line, more), e) ↦
      let shorter : length more < length bs = omega (arith, length-cut crlf bs line more e) in
      elim (Option-cases (chunk_size line)) [
        | inl k ↦ ground (arith, h, e, k)
        | inr (zero, k) ↦
            ground (arith, h, e, k, shorter, skip_trailer-shorter (length more) more rest)
        | inr (suc n, k) ↦ elim (Option-cases (chunk_data (suc n) more)) [
          | inl c ↦ ground (arith, h, e, k, c)
          | inr ((part, left), c) ↦ elim (Option-cases (decode_chunked rounds left)) [
            | inl d ↦ ground (arith, h, e, k, c, d)
            | inr ((b, r), d) ↦ ground (
              arith,
              h,
              e,
              k,
              c,
              d,
              shorter,
              chunk_data-shorter (suc n) more part left c,
              decode_chunked-shorter rounds left b r d,
            )
          ]
        ]
      ]
]

status_of-no_request :
    (v : Text) (rest method target version : Text)
    → status_of v rest ≢ some (request_line method target version)
status_of-no_request v [] method target version h = cc
status_of-no_request v (a ∷ []) method target version h = cc
status_of-no_request v (a ∷ b ∷ []) method target version h = cc
status_of-no_request v (a ∷ b ∷ c ∷ rest) method target version h = ground (arith, h)

request_of-target :
    (m t : Text) (v : Option (Text × Text)) (method target version : Text)
    → request_of m t v ≡ some (request_line method target version)
    → t ≡ target
request_of-target m t none method target version h = cc
request_of-target m t (some (x, c ∷ cs)) method target version h = cc
request_of-target m t (some (x, [])) method target version h = cc

status_after-no_request :
    (v : Text × Text) (method target version : Text)
    → status_after v ≢ some (request_line method target version)
status_after-no_request (v, rest) method target version h = elim (Bool-cases (begins_white rest)) [
  | inl e ↦ status_of-no_request v (skip_white rest) method target version (ground (arith, h, e))
  | inr e ↦ ground (arith, h, e)
]

request_after-has_target :
    (m t : Text × Text) (method target version : Text)
    → request_after m t ≡ some (request_line method target version)
    → is_empty target ≡ false
request_after-has_target (m, r) (t, q) method target version h =
    elim (Bool-cases (not (is_empty m) && begins_white r && not (is_empty t) && begins_white q)) [
      | inl e ↦
          let same_target : t ≡ target =
            request_of-target m t (http_version (skip_white q)) method target version
              (ground (arith, h, e)) in
          subst (λ x. is_empty x ≡ false) same_target (ground (arith, e))
      | inr e ↦ ground (arith, h, e)
    ]

request_line-has_target :
    (text : Text) (method target version : Text)
    → parse_first_line text ≡ some (request_line method target version)
    → is_empty target ≡ false
unfolding parse_first_line
request_line-has_target text method target version h = elim (Option-cases (after http_slash text)) [
  | inr (rest, e) ↦ elim (Option-cases (http_version text)) [
    | inl k ↦ ground (arith, h, e, k)
    | inr (v, k) ↦
        absurd (status_after-no_request v method target version (ground (arith, h, e, k)))
  ]
  | inl e ↦
      request_after-has_target (word text) (word (skip_white (word text).1)) method target version
        (ground (arith, h, e))
]

module _ (node : Platform) where
  framed-shorter :
      (line : ParsedLine) (headers : Http1Headers) (bs body rest : Bytes)
      → framed node line headers bs ≡ some (body, rest)
      → length rest ≤ length bs
  unfolding framed
  framed-shorter line headers bs body rest h =
      elim (Option-cases (parse_content_length node (header content_length_name headers))) [
        | inl e ↦ ground (arith, h, e, decode_chunked-shorter (suc (length bs)) bs body rest)
        | inr (n, e) ↦
            ground
              (arith, h, e, decode_chunked-shorter (suc (length bs)) bs body rest, length-drop n bs)
      ]

  parsed_with-shorter :
      (line : ParsedLine) (headers : Http1Headers) (bs : Bytes) (m : Http1Message) (rest : Bytes)
      → parsed_with node line headers (framed node line headers bs) ≡ parsed m rest
      → length rest ≤ length bs
  parsed_with-shorter line headers bs m rest h = elim (Option-cases (framed node line headers bs)) [
    | inl e ↦ ground (arith, h, e)
    | inr ((body, left), e) ↦ ground (arith, h, e, framed-shorter line headers bs body left e)
  ]

  parse_lines-shorter :
      (lines : List Bytes) (bs : Bytes) (m : Http1Message) (rest : Bytes)
      → parse_lines node lines bs ≡ parsed m rest
      → length rest ≤ length bs
  parse_lines-shorter [] bs m rest h = ground (arith, h)
  parse_lines-shorter (first ∷ others) bs m rest h =
      elim (Option-cases (parse_first_line (ascii first))) [
        | inl e ↦ ground (arith, h, e)
        | inr (line, e) ↦
            ground (arith, h, e, parsed_with-shorter line (parse_headers node others) bs m rest)
      ]

  parse-takes_bytes :
      (bs : Bytes) (m : Http1Message) (rest : Bytes)
      → parse_http1_message node bs ≡ parsed m rest
      → length rest < length bs
  unfolding parse_http1_message
  parse-takes_bytes bs m rest h = elim (Option-cases (cut double_crlf bs)) [
    | inl e ↦ ground (arith, h, e)
    | inr ((block, more), e) ↦ ground (
      arith,
      h,
      e,
      length-cut double_crlf bs block more e,
      parse_lines-shorter (split_crlf (length block) block) more m rest,
    )
  ]

  parsed_with-has_target :
      (line : ParsedLine) (headers : Http1Headers) (framing : Option (Bytes × Bytes))
      (r : Http1Request) (rest : Bytes)
      → ((method target version : Text)
          → line ≡ request_line method target version
          → is_empty target ≡ false)
      → parsed_with node line headers framing ≡ parsed (request_message r) rest
      → is_empty r.target ≡ false
  parsed_with-has_target line headers none r rest t h = cc
  parsed_with-has_target (status_line version status reason) headers (some (body, left)) r rest t
        h =
      cc
  parsed_with-has_target (request_line method target version) headers (some (body, left)) r rest t
        h =
      ground (arith, h, t method target version refl)

  parse_lines-has_target :
      (lines : List Bytes) (bs : Bytes) (r : Http1Request) (rest : Bytes)
      → parse_lines node lines bs ≡ parsed (request_message r) rest
      → is_empty r.target ≡ false
  parse_lines-has_target [] bs r rest h = cc
  parse_lines-has_target (first ∷ others) bs r rest h =
      elim (Option-cases (parse_first_line (ascii first))) [
        | inl e ↦ ground (arith, h, e)
        | inr (line, e) ↦
            let headers : Http1Headers = parse_headers node others in
            ground (
              arith,
              h,
              e,
              parsed_with-has_target line headers (framed node line headers bs) r rest
                  (λ method target version q.
                    request_line-has_target (ascii first) method target version (e ∙ ap some q)),
            )
      ]

  parse-has_target :
      (bs : Bytes) (r : Http1Request) (rest : Bytes)
      → parse_http1_message node bs ≡ parsed (request_message r) rest
      → is_empty r.target ≡ false
  unfolding parse_http1_message
  parse-has_target bs r rest h = elim (Option-cases (cut double_crlf bs)) [
    | inl e ↦ ground (arith, h, e)
    | inr ((block, more), e) ↦
        ground (arith, h, e, parse_lines-has_target (split_crlf (length block) block) more r rest)
  ]

  -- The parser of http1.ts gives its readers what they need: each message that it returns takes bytes
  -- off the buffer, whatever the framing of its body, and a request has a target.
  pub parse_http1_message-IsParser : IsParser (parse_http1_message node)
  parse_http1_message-IsParser = record {
    takes_bytes = parse-takes_bytes;
    has_target = parse-has_target;
  }
