-- ===== src/Trace/Cutting.antt =====
-- Cuts of the client's bytes for packages/cli/src/runtime/trace/http1-reassembler.ts.
use ac.Prelude.{List, [], ◌∷◌, ◌≡◌, refl, ◌++◌, arith, sym, ap, ◌∙◌, subst}
use ac.Trace.Framing.{IsParser}
use ac.Trace.Http1.{
  Http1Request, Http1Response, request_message, response_message, ParseResult, need_more, malformed,
  parsed,
}
use ac.Trace.Stability.{IsStable}
use ac.Trace.Reassembler.{next_in}
use ac.Trace.Bytes.{Bytes}
use ac.Prelude.Codes.{same}

-- The bytes are these requests, one after the other, and what is left holds no complete message.
abbrev pub Reads : (Bytes → ParseResult) → Bytes → List Http1Request → Bytes → Type 0
Reads parse bs [] left = (bs ≡ left) × (next_in parse bs ≡ need_more)
Reads parse bs (r ∷ rs) left =
    (rest : Bytes) × (next_in parse bs ≡ parsed (request_message r) rest) × Reads parse rest rs left

-- The two halves of what is read, where the bytes are cut.
pub record Halves (parse : Bytes → ParseResult) (a b : Bytes) (rs : List Http1Request)
    (left : Bytes) : Type 0 where
  pub first : List Http1Request
  pub second : List Http1Request
  pub between : Bytes
  pub all_read : rs ≡ first ++ second
  pub reads_first : Reads parse a first between
  pub reads_second : Reads parse (between ++ b) second left

module _ (parse : Bytes → ParseResult) (law : IsParser parse) (stable : IsStable parse) where
  waits_at_cut :
      (a b : Bytes) (rs : List Http1Request) (left : Bytes)
      → next_in parse a ≡ need_more
      → Reads parse (a ++ b) rs left
      → Halves parse a b rs left
  waits_at_cut a b rs left e h = record {
    first = [];
    second = rs;
    between = a;
    all_read = refl;
    reads_first = (refl, e);
    reads_second = h;
  }

  next_in-append_request :
      (a b : Bytes) (r : Http1Request) (rest : Bytes)
      → next_in parse a ≡ parsed (request_message r) rest
      → next_in parse (a ++ b) ≡ parsed (request_message r) (rest ++ b)
  next_in-append_request [] b r rest h = cc
  next_in-append_request (c ∷ cs) b r rest h = stable.request_stays (c ∷ cs) b r rest h

  next_in-append_malformed :
      (a b : Bytes) → next_in parse a ≡ malformed → next_in parse (a ++ b) ≡ malformed
  next_in-append_malformed [] b h = cc
  next_in-append_malformed (c ∷ cs) b h = stable.malformed_stays (c ∷ cs) b h

  next_in-append_response :
      (a b : Bytes) (r : Http1Response) (rest : Bytes)
      → next_in parse a ≡ parsed (response_message r) rest
      → (r' : Http1Response) × (rest' : Bytes) × (next_in parse (a ++ b)
          ≡ parsed (response_message r') rest')
  next_in-append_response [] b r rest h = absurd (ground (arith, h))
  next_in-append_response (c ∷ cs) b r rest h = stable.response_stays (c ∷ cs) b r rest h

  same_request :
      (bs : Bytes) (q r : Http1Request) (x y : Bytes)
      → next_in parse bs ≡ parsed (request_message q) x
      → next_in parse bs ≡ parsed (request_message r) y
      → (q ≡ r) × (x ≡ y)
  same_request bs q r x y h k =
      let same : parsed (request_message q) x ≡ parsed (request_message r) y = sym h ∙ k in
      (ground (arith, same), ground (arith, same))

  cut_after :
      (b : Bytes) (r : Http1Request) (rs : List Http1Request) (left : Bytes)
      → ((c : Bytes) → Reads parse (c ++ b) rs left → Halves parse c b rs left)
      → (a : Bytes) (p : ParseResult) → next_in parse a ≡ p
      → Reads parse (a ++ b) (r ∷ rs) left
      → Halves parse a b (r ∷ rs) left
  cut_after b r rs left later a need_more e h = waits_at_cut a b (r ∷ rs) left e h
  cut_after b r rs left later a malformed e h =
      absurd (ground (arith, h.1, next_in-append_malformed a b e))
  cut_after b r rs left later a (parsed (response_message q) rest) e h =
      absurd (ground (arith, h.1, (next_in-append_response a b q rest e).2))
  cut_after b r rs left later a (parsed (request_message q) rest) e h =
      let (same, same_rest) =
        same_request (a ++ b) q r (rest ++ b) h.0 (next_in-append_request a b q rest e) h.1 in
      let halves : Halves parse rest b rs left =
        later rest (subst (λ x. Reads parse x rs left) (sym same_rest) h.2) in
      record {
        first = q ∷ halves.first;
        second = halves.second;
        between = halves.between;
        all_read = ap (λ x. x ∷ rs) (sym same) ∙ ap (λ xs. q ∷ xs) halves.all_read;
        reads_first = (rest, e, halves.reads_first);
        reads_second = halves.reads_second;
      }

  cut_at_end :
      (a b left : Bytes) (p : ParseResult)
      → next_in parse a ≡ p
      → Reads parse (a ++ b) [] left
      → Halves parse a b [] left
  cut_at_end a b left need_more e h = waits_at_cut a b [] left e h
  cut_at_end a b left malformed e h = absurd (ground (arith, h.1, next_in-append_malformed a b e))
  cut_at_end a b left (parsed (response_message q) rest) e h =
      absurd (ground (arith, h.1, (next_in-append_response a b q rest e).2))
  cut_at_end a b left (parsed (request_message q) rest) e h =
      absurd (ground (arith, h.1, next_in-append_request a b q rest e))

  -- A cut anywhere in the bytes parts the requests in two.
  pub Reads-cut :
      (a b : Bytes) (rs : List Http1Request) (left : Bytes)
      → Reads parse (a ++ b) rs left
      → Halves parse a b rs left
  Reads-cut a b [] left h = cut_at_end a b left (next_in parse a) refl h
  Reads-cut a b (r ∷ rs) left h =
      cut_after b r rs left (λ c k. Reads-cut c b rs left k) a (next_in parse a) refl h
