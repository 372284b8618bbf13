-- ===== src/Http/Parser/Chunks.antt =====
-- A request that arrives in pieces, at the parser of src/http/Parser.cpp.
use eventhub.Prelude.{
  ℕ, ◌+◌, ◌≡◌, ◌≤◌, refl, sym, ap, ap₂, ◌∙◌, true, false, List, [], ◌∷◌, ◌++◌, append_assoc, Option,
  none, some, length, length-append, Bytes, arith,
}
use eventhub.Http.Parser.{
  Parser, PhrResult, incomplete, parsed, RequestState, http_bufsiz, set_path, set_headers,
  after_phr, parse_more, parse, cut, without_leading_space, parse_query_string,
}

-- What picohttpparser's documentation says of `last_len`: a request of which a front part was
-- incomplete may be parsed again with the length of that part, with the same result.
abbrev pub CanResume : (Bytes → ℕ → PhrResult) → Type 0
CanResume phr =
    (front back : Bytes) (n : ℕ) (method path : Bytes) (headers : List (Bytes × Bytes))
    → phr front n ≡ incomplete
    → phr (front ++ back) n ≡ parsed method path headers
    → phr (front ++ back) (length front) ≡ parsed method path headers

-- All that the parser shows; `_bytes_read_prev` is its own.
abbrev pub shown : RequestState × Parser → RequestState × Parser
shown (state, p) = (state, record p { bytes_read_prev = 0 })

-- The parser with the bytes appended.
abbrev extended : Bytes → Parser → Parser
extended data' p = record p {
  bytes_read_prev = p.bytes_read;
  bytes_read = p.bytes_read + length data';
  buf = p.buf ++ data';
}

parse-extended :
    (phr : Bytes → ℕ → PhrResult) (data' : Bytes) (p : Parser)
    → p.is_complete ≡ false
    → p.bytes_read + length data' ≤ http_bufsiz
    → parse phr data' p ≡ after_phr (phr (p.buf ++ data') p.bytes_read) (extended data' p)
unfolding parse parse_more
parse-extended phr data' p unfinished fits = ground arith

set_path_shown :
    (path : Bytes) (n : ℕ) (p : Parser)
    → set_path path (record p { bytes_read_prev = n })
      ≡ record (set_path path p) { bytes_read_prev = n }
unfolding set_path
set_path_shown [] n p = refl
set_path_shown (c ∷ s) n p = go (cut b'?' (c ∷ s))
  where
    with_path : Parser → Option (Bytes × Bytes) → Parser
    with_path q o = elim o [
      | none ↦ record q { path = without_leading_space (c ∷ s) }
      | some (path, q_str) ↦ record q { path = path; qsmap = parse_query_string q_str q.qsmap }
    ]

    go :
        (o : Option (Bytes × Bytes))
        → with_path (record p { bytes_read_prev = n }) o
          ≡ record (with_path p o) { bytes_read_prev = n }
    go none = refl
    go (some x) = refl

shown-after_phr :
    (method path : Bytes) (headers : List (Bytes × Bytes)) (n : ℕ) (p : Parser)
    → shown (after_phr (parsed method path headers) (record p { bytes_read_prev = n }))
      ≡ shown (after_phr (parsed method path headers) p)
unfolding after_phr
shown-after_phr method path headers n p =
    ap
      (λ (q : Parser). shown (
        RequestState.req_ok,
        record q { headers = set_headers headers q.headers; is_complete = true },
      ))
      (set_path_shown path n (record p { method = method ++ p.method }))

-- Where picohttpparser keeps what it says of `last_len`, and the parser is within a request, with
-- its count of bytes that of its buffer: a request that fits the buffer, and that picohttpparser
-- parses, is parsed alike whether its rest comes at once or behind a part that picohttpparser
-- found incomplete. The callback gets the same state and a parser that shows the same.
pub parse-append :
    (phr_parse_request : Bytes → ℕ → PhrResult)
    → CanResume phr_parse_request
    → (p : Parser) (front back method path : Bytes) (headers : List (Bytes × Bytes))
    → p.is_complete ≡ false
    → p.bytes_read ≡ length p.buf
    → p.bytes_read + length (front ++ back) ≤ http_bufsiz
    → phr_parse_request (p.buf ++ front) p.bytes_read ≡ incomplete
    → phr_parse_request (p.buf ++ (front ++ back)) p.bytes_read ≡ parsed method path headers
    → shown (parse phr_parse_request back (parse phr_parse_request front p).1)
      ≡ shown (parse phr_parse_request (front ++ back) p)
unfolding after_phr
parse-append phr resume p front back method path headers unfinished counted fits partial whole =
    ap (λ (z : RequestState × Parser). shown (parse phr back z.1))
      (first ∙ ap (λ z. after_phr z (extended front p)) partial)
    ∙ ap shown (
        parse-extended phr back (extended front p) unfinished
          (omega (arith, fits, length-append front back)))
    ∙ ap shown (ap₂ after_phr second same)
    ∙ shown-after_phr method path headers (p.bytes_read + length front) (extended (front ++ back) p)
    ∙ ap shown (sym (at_once ∙ ap (λ z. after_phr z (extended (front ++ back) p)) whole))
  where
    first : parse phr front p ≡ after_phr (phr (p.buf ++ front) p.bytes_read) (extended front p)
    first = parse-extended phr front p unfinished (omega (arith, fits, length-append front back))

    at_once :
        parse phr (front ++ back) p
        ≡ after_phr (phr (p.buf ++ (front ++ back)) p.bytes_read) (extended (front ++ back) p)
    at_once = parse-extended phr (front ++ back) p unfinished fits

    together : (p.buf ++ front) ++ back ≡ p.buf ++ (front ++ back)
    together = append_assoc p.buf front back

    seen : p.bytes_read + length front ≡ length (p.buf ++ front)
    seen = omega (arith, counted, length-append p.buf front)

    second :
        phr ((p.buf ++ front) ++ back) (p.bytes_read + length front) ≡ parsed method path headers
    second =
        ap (phr ((p.buf ++ front) ++ back)) seen
        ∙ resume (p.buf ++ front) back p.bytes_read method path headers partial
            (ap (λ z. phr z p.bytes_read) together ∙ whole)

    same :
        extended back (extended front p)
        ≡ record (extended (front ++ back) p) { bytes_read_prev = p.bytes_read + length front }
    same =
        ap₂
          (λ (b : Bytes) (n : ℕ). record p {
            bytes_read_prev = p.bytes_read + length front;
            bytes_read = n;
            buf = b;
          })
          together (omega (arith, length-append front back))
