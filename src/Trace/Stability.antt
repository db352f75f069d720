-- ===== src/Trace/Stability.antt =====
-- That a message which packages/cli/src/runtime/trace/http1.ts reads out of a buffer is read the same
-- way when more bytes stand after it.
use ac.Prelude.{
  length, some, List, [], ◌∷◌, ltb, Bool-cases, Option-cases, length-append, suc, ◌≤◌, ◌≡◌, refl,
  ap, inl, inr, ◌++◌, arith, is_some, Bool,
}
use ac.Trace.Body.{
  or_blank, chunked_word, transfer_encoding_name, content_length_name, framed, parsed_with,
  parse_lines, parse_http1_message,
}
use ac.Trace.Bytes.{Bytes, cut, double_crlf}
use ac.Trace.Http1.{
  Platform, Http1Headers, request_line, header, parse_content_length, Http1Request, Http1Response,
  request_message, response_message, ParseResult, malformed, parsed, ParsedLine, status_line, ascii,
  parse_first_line, split_crlf, parse_headers,
}
use ac.Prelude.Codes.{Text}
use ac.Trace.Extension.{cut-append, drop-append, take-append, decode_chunked-append}

-- What is read of a buffer does not change with the bytes after it, but for the body of a response.
pub record IsStable (parse : Bytes → ParseResult) : Type 0 where
  pub malformed_stays : (bs more : Bytes) → parse bs ≡ malformed → parse (bs ++ more) ≡ malformed
  pub request_stays :
      (bs more : Bytes) (r : Http1Request) (rest : Bytes)
      → parse bs ≡ parsed (request_message r) rest
      → parse (bs ++ more) ≡ parsed (request_message r) (rest ++ more)
  pub response_stays :
      (bs more : Bytes) (r : Http1Response) (rest : Bytes)
      → parse bs ≡ parsed (response_message r) rest
      → (r' : Http1Response) × (rest' : Bytes) × (parse (bs ++ more)
          ≡ parsed (response_message r') rest')

module _ (node : Platform) where
  framed-append_request :
      (method target version : Text) (headers : Http1Headers) (bs body rest more : Bytes)
      → framed node (request_line method target version) headers bs ≡ some (body, rest)
      → framed node (request_line method target version) headers (bs ++ more)
        ≡ some (body, rest ++ more)
  unfolding framed
  framed-append_request method target version headers bs body rest more h =
      let chunked : Bool =
        is_some
          (cut chunked_word (node.lower_case (or_blank (header transfer_encoding_name headers)))) in
      elim (Bool-cases chunked) [
        | inl c ↦ ground (
          arith,
          h,
          c,
          decode_chunked-append (suc (length bs)) (suc (length (bs ++ more))) bs body rest more
              (omega (arith, length-append bs more)),
        )
        | inr c ↦
            elim (Option-cases (parse_content_length node (header content_length_name headers))) [
              | inl e ↦ ground (arith, h, c, e)
              | inr (n, e) ↦ elim (Bool-cases (ltb (length bs) n)) [
                | inl l ↦ ground (arith, h, c, e, l)
                | inr l ↦
                    let enough : n ≤ length bs = ground (arith, l) in
                    ground (
                      arith,
                      h,
                      c,
                      e,
                      l,
                      length-append bs more,
                      take-append n bs more enough,
                      drop-append n bs more enough,
                    )
              ]
            ]
      ]

  framed-append_some :
      (line : ParsedLine) (headers : Http1Headers) (bs body rest more : Bytes)
      → framed node line headers bs ≡ some (body, rest)
      → (framing : Bytes × Bytes) × (framed node line headers (bs ++ more) ≡ some framing)
  framed-append_some (request_line method target version) headers bs body rest more h = (
    (body, rest ++ more),
    framed-append_request method target version headers bs body rest more h,
  )
  framed-append_some (status_line version status reason) headers bs body rest more h =
      let chunked : Bool =
        is_some
          (cut chunked_word (node.lower_case (or_blank (header transfer_encoding_name headers)))) in
      let framed_again : (framed node (request_line [] [] []) headers bs ≡ some (body, rest))
          → framed node (request_line [] [] []) headers (bs ++ more) ≡ some (body, rest ++ more) =
        framed-append_request [] [] [] headers bs body rest more in
      elim (Bool-cases chunked) [
        | inl c ↦ (
          (body, rest ++ more),
          unfold framed in ground (arith, c, framed_again (unfold framed in ground (arith, h, c))),
        )
        | inr c ↦
            elim (Option-cases (parse_content_length node (header content_length_name headers))) [
              | inl e ↦ ((bs ++ more, []), unfold framed in ground (arith, c, e))
              | inr (n, e) ↦ (
                (body, rest ++ more),
                unfold framed in
                    ground (arith, c, e, framed_again (unfold framed in ground (arith, h, c, e))),
              )
            ]
      ]

  parsed_with-append_request :
      (line : ParsedLine) (headers : Http1Headers) (bs : Bytes) (r : Http1Request)
      (rest more : Bytes)
      → parsed_with node line headers (framed node line headers bs)
        ≡ parsed (request_message r) rest
      → parsed_with node line headers (framed node line headers (bs ++ more))
        ≡ parsed (request_message r) (rest ++ more)
  parsed_with-append_request (request_line method target version) headers bs r rest more h =
      elim (Option-cases (framed node (request_line method target version) headers bs)) [
        | inl e ↦ ground (arith, h, e)
        | inr ((body, left), e) ↦
            ground
              (arith, h, e, framed-append_request method target version headers bs body left more e)
      ]
  parsed_with-append_request (status_line version status reason) headers bs r rest more h =
      elim (Option-cases (framed node (status_line version status reason) headers bs)) [
        | inl e ↦ ground (arith, h, e)
        | inr ((body, left), e) ↦ ground (arith, h, e)
      ]

  parsed_with-append_response :
      (line : ParsedLine) (headers : Http1Headers) (bs : Bytes) (r : Http1Response)
      (rest more : Bytes)
      → parsed_with node line headers (framed node line headers bs)
        ≡ parsed (response_message r) rest
      → (r' : Http1Response) × (rest' : Bytes) × (parsed_with node line headers
            (framed node line headers (bs ++ more))
          ≡ parsed (response_message r') rest')
  parsed_with-append_response (request_line method target version) headers bs r rest more h =
      elim (Option-cases (framed node (request_line method target version) headers bs)) [
        | inl e ↦ absurd (ground (arith, h, e))
        | inr ((body, left), e) ↦ absurd (ground (arith, h, e))
      ]
  parsed_with-append_response (status_line version status reason) headers bs r rest more h =
      elim (Option-cases (framed node (status_line version status reason) headers bs)) [
        | inl e ↦ absurd (ground (arith, h, e))
        | inr ((body, left), e) ↦
            let (framing, again) =
              framed-append_some (status_line version status reason) headers bs body left more e in
            (_, framing.1, ap (parsed_with node (status_line version status reason) headers) again)
      ]

  parse_lines-append_malformed :
      (lines : List Bytes) (bs more : Bytes)
      → parse_lines node lines bs ≡ malformed
      → parse_lines node lines (bs ++ more) ≡ malformed
  parse_lines-append_malformed [] bs more h = refl
  parse_lines-append_malformed (first ∷ others) bs more h =
      elim (Option-cases (parse_first_line (ascii first))) [
        | inl e ↦ ground (arith, e)
        | inr (line, e) ↦
            let headers : Http1Headers = parse_headers node others in
            elim (Option-cases (framed node line headers bs)) [
              | inl k ↦ absurd (ground (arith, h, e, k))
              | inr ((body, rest), k) ↦ absurd (ground (arith, h, e, k))
            ]
      ]

  parse_lines-append_request :
      (lines : List Bytes) (bs : Bytes) (r : Http1Request) (rest more : Bytes)
      → parse_lines node lines bs ≡ parsed (request_message r) rest
      → parse_lines node lines (bs ++ more) ≡ parsed (request_message r) (rest ++ more)
  parse_lines-append_request [] bs r rest more h = cc
  parse_lines-append_request (first ∷ others) bs r rest more h =
      elim (Option-cases (parse_first_line (ascii first))) [
        | inl e ↦ ground (arith, h, e)
        | inr (line, e) ↦ ground (
          arith,
          h,
          e,
          parsed_with-append_request line (parse_headers node others) bs r rest more,
        )
      ]

  parse_lines-append_response :
      (lines : List Bytes) (bs : Bytes) (r : Http1Response) (rest more : Bytes)
      → parse_lines node lines bs ≡ parsed (response_message r) rest
      → (r' : Http1Response) × (rest' : Bytes) × (parse_lines node lines (bs ++ more)
          ≡ parsed (response_message r') rest')
  parse_lines-append_response [] bs r rest more h = absurd (ground (arith, h))
  parse_lines-append_response (first ∷ others) bs r rest more h =
      elim (Option-cases (parse_first_line (ascii first))) [
        | inl e ↦ absurd (ground (arith, h, e))
        | inr (line, e) ↦
            let (r', rest', again) =
              parsed_with-append_response line (parse_headers node others) bs r rest more
                (ground (arith, h, e)) in
            (r', rest', ground (arith, e, again))
      ]

  -- The parser of http1.ts reads what stands in front of a buffer the same way whatever bytes come
  -- after: a malformed beginning stays one, a request is the same request and leaves the bytes after it,
  -- and a response stays a response.
  pub parse_http1_message-IsStable : IsStable (parse_http1_message node)
  unfolding parse_http1_message
  parse_http1_message-IsStable = record {
    malformed_stays = λ bs more h. elim (Option-cases (cut double_crlf bs)) [
      | inl e ↦ absurd (ground (arith, h, e))
      | inr ((block, left), e) ↦ ground (
        arith,
        h,
        e,
        cut-append double_crlf bs block left more e,
        parse_lines-append_malformed (split_crlf (length block) block) left more,
      )
    ];
    request_stays = λ bs more r rest h. elim (Option-cases (cut double_crlf bs)) [
      | inl e ↦ absurd (ground (arith, h, e))
      | inr ((block, left), e) ↦ ground (
        arith,
        h,
        e,
        cut-append double_crlf bs block left more e,
        parse_lines-append_request (split_crlf (length block) block) left r rest more,
      )
    ];
    response_stays = λ bs more r rest h. elim (Option-cases (cut double_crlf bs)) [
      | inl e ↦ absurd (ground (arith, h, e))
      | inr ((block, left), e) ↦
          let (r', rest', again) =
            parse_lines-append_response (split_crlf (length block) block) left r rest more
              (ground (arith, h, e)) in
          (r', rest', ground (arith, again, cut-append double_crlf bs block left more e))
    ];
  }
