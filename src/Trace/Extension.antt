-- ===== src/Trace/Extension.antt =====
-- The searches and the chunked decoder of packages/cli/src/runtime/trace/http1.ts on a buffer that more
-- bytes are put after.
use ac.Prelude.{
  length, ℕ, none, some, [], ◌∷◌, ltb, Bool-cases, Option-cases, take, length-append, zero, suc,
  ◌+◌, ◌≤◌, ◌≡◌, refl, ap, ◌∙◌, inl, inr, ◌++◌, arith,
}
use ac.Trace.Body.{chunk_size, skip_trailer, chunk_data, decode_chunked}
use ac.Trace.Bytes.{Bytes, crlf, after, cut, drop, length-cut}

after-append :
    (pattern bs rest more : Bytes)
    → after pattern bs ≡ some rest
    → after pattern (bs ++ more) ≡ some (rest ++ more)
after-append [] bs rest more h = ground (arith, h)
after-append (p ∷ ps) [] rest more h = cc
after-append (p ∷ ps) (b ∷ bs) rest more h = ground (arith, h, after-append ps bs rest more)

after-append_none :
    (pattern bs more : Bytes)
    → length pattern ≤ length bs
    → after pattern bs ≡ none
    → after pattern (bs ++ more) ≡ none
after-append_none [] bs more l h = cc
after-append_none (p ∷ ps) [] more l h = absurd (omega arith)
after-append_none (p ∷ ps) (b ∷ bs) more l h =
    ground (arith, h, after-append_none ps bs more (omega (arith, l)))

pub cut-append :
    (pattern bs xs ys more : Bytes)
    → cut pattern bs ≡ some (xs, ys)
    → cut pattern (bs ++ more) ≡ some (xs, ys ++ more)
unfolding cut
cut-append pattern [] xs ys more h = cc
cut-append pattern (b ∷ bs) xs ys more h = elim (Option-cases (after pattern (b ∷ bs))) [
  | inr (rest, e) ↦ ground (arith, h, e, after-append pattern (b ∷ bs) rest more e)
  | inl e ↦ elim (Option-cases (cut pattern bs)) [
    | inl k ↦ ground (arith, h, e, k)
    | inr ((zs, ws), k) ↦
        let long : length pattern ≤ length (b ∷ bs) =
          omega (arith, length-cut pattern bs zs ws k) in
        ground (
          arith,
          h,
          e,
          k,
          after-append_none pattern (b ∷ bs) more long e,
          cut-append pattern bs zs ws more k,
        )
  ]
]

pub drop-append :
    (n : ℕ) (bs more : Bytes) → n ≤ length bs → drop n (bs ++ more) ≡ drop n bs ++ more
unfolding drop
drop-append zero bs more h = refl
drop-append (suc n) [] more h = absurd (omega arith)
drop-append (suc n) (b ∷ bs) more h = drop-append n bs more (omega (arith, h))

pub take-append : (n : ℕ) (bs more : Bytes) → n ≤ length bs → take n (bs ++ more) ≡ take n bs
take-append zero bs more h = refl
take-append (suc n) [] more h = absurd (omega arith)
take-append (suc n) (b ∷ bs) more h = ap (λ xs. b ∷ xs) (take-append n bs more (omega (arith, h)))

skip_trailer-append :
    (m n : ℕ) (bs rest more : Bytes)
    → m ≤ n
    → skip_trailer m bs ≡ some rest
    → skip_trailer n (bs ++ more) ≡ some (rest ++ more)
unfolding skip_trailer
skip_trailer-append zero n bs rest more l h = cc
skip_trailer-append (suc m) zero bs rest more l h = absurd (omega arith)
skip_trailer-append (suc m) (suc n) bs rest more l h = elim (Option-cases (cut crlf bs)) [
  | inl e ↦ ground (arith, h, e)
  | inr (([], ys), e) ↦ ground (arith, h, e, cut-append crlf bs [] ys more e)
  | inr ((x ∷ xs, ys), e) ↦ ground (
    arith,
    h,
    e,
    cut-append crlf bs (x ∷ xs) ys more e,
    skip_trailer-append m n ys rest more (omega (arith, l)),
  )
]

chunk_data-append :
    (size : ℕ) (bs part rest more : Bytes)
    → chunk_data size bs ≡ some (part, rest)
    → chunk_data size (bs ++ more) ≡ some (part, rest ++ more)
chunk_data-append size bs part rest more h = elim (Bool-cases (ltb (length bs) (size + 2))) [
  | inl l ↦ ground (arith, h, l)
  | inr l ↦ elim (Option-cases (after crlf (drop size bs))) [
    | inl e ↦ ground (arith, h, l, e)
    | inr (left, e) ↦
        let enough : size ≤ length bs = ground (arith, l) in
        let further : after crlf (drop size (bs ++ more)) ≡ some (left ++ more) =
          ap (after crlf) (drop-append size bs more enough)
          ∙ after-append crlf (drop size bs) left more e in
        ground (arith, h, l, e, further, take-append size bs more enough, length-append bs more)
  ]
]

pub decode_chunked-append :
    (m n : ℕ) (bs body rest more : Bytes)
    → m ≤ n
    → decode_chunked m bs ≡ some (body, rest)
    → decode_chunked n (bs ++ more) ≡ some (body, rest ++ more)
unfolding decode_chunked
decode_chunked-append zero n bs body rest more l h = cc
decode_chunked-append (suc m) zero bs body rest more l h = absurd (omega arith)
decode_chunked-append (suc m) (suc n) bs body rest more l h = elim (Option-cases (cut crlf bs)) [
  | inl e ↦ ground (arith, h, e)
  | inr ((line, ys), e) ↦
      let further : cut crlf (bs ++ more) ≡ some (line, ys ++ more) =
        cut-append crlf bs line ys more e in
      elim (Option-cases (chunk_size line)) [
        | inl k ↦ ground (arith, h, e, k)
        | inr (zero, k) ↦ ground (
          arith,
          h,
          e,
          k,
          further,
          length-append ys more,
          skip_trailer-append (length ys) (length (ys ++ more)) ys rest more
              (omega (arith, length-append ys more)),
        )
        | inr (suc size, k) ↦ elim (Option-cases (chunk_data (suc size) ys)) [
          | inl c ↦ ground (arith, h, e, k, c)
          | inr ((part, left), c) ↦ elim (Option-cases (decode_chunked m left)) [
            | inl d ↦ ground (arith, h, e, k, c, d)
            | inr ((b, r), d) ↦ ground (
              arith,
              h,
              e,
              k,
              c,
              d,
              further,
              chunk_data-append (suc size) ys part left more c,
              decode_chunked-append m n left b r more (omega (arith, l)) d,
            )
          ]
        ]
      ]
]
