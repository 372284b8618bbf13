-- ===== src/Http/Parser/Bounds.antt =====
-- The size of what the parser of src/http/Parser.cpp keeps.
use eventhub.Prelude.{
  ℕ, ◌+◌, ◌≡◌, ◌≤◌, refl, sym, ap, ◌∙◌, [], ◌∷◌, ◌++◌, Option, none, some, ltb, ◌==◌, if_both,
  if_true, if_false, Bool-cases, inl, inr, length, length-append, Bytes, arith,
}
use eventhub.Http.Parser.{
  Parser, PhrResult, parse_error, incomplete, parsed, RequestState, http_bufsiz, reset_state,
  set_path, after_phr, parse_more, parse, cut, without_leading_space, parse_query_string,
}

-- The buffer holds what was read, at most its limit.
pub record IsBounded (p : Parser) : Type 0 where
  pub counted : p.bytes_read ≡ length p.buf
  pub before : p.bytes_read_prev ≤ p.bytes_read
  pub within : p.bytes_read ≤ http_bufsiz

pub reset_state-IsBounded : IsBounded reset_state
reset_state-IsBounded = record { counted = refl; before = omega arith; within = omega arith }

-- The members that the limit is about.
record HasSameBuffer (p q : Parser) : Type 0 where
  buf : q.buf ≡ p.buf
  bytes_read : q.bytes_read ≡ p.bytes_read
  bytes_read_prev : q.bytes_read_prev ≡ p.bytes_read_prev

HasSameBuffer-IsBounded : (p q : Parser) → HasSameBuffer p q → IsBounded p → IsBounded q
HasSameBuffer-IsBounded p q s b = record {
  counted =
      HasSameBuffer.bytes_read s ∙ IsBounded.counted b ∙ ap length (sym (HasSameBuffer.buf s));
  before =
      omega
        (arith, HasSameBuffer.bytes_read s, HasSameBuffer.bytes_read_prev s, IsBounded.before b);
  within = omega (arith, HasSameBuffer.bytes_read s, IsBounded.within b);
}

set_path-HasSameBuffer : (path : Bytes) (p : Parser) → HasSameBuffer p (set_path path p)
unfolding set_path
set_path-HasSameBuffer [] p = record { buf = refl; bytes_read = refl; bytes_read_prev = refl }
set_path-HasSameBuffer (c ∷ s) p = go (cut b'?' (c ∷ s))
  where
    go :
        (o : Option (Bytes × Bytes))
        → HasSameBuffer p (elim o [
          | none ↦ record p { path = without_leading_space (c ∷ s) }
          | some (path, q_str) ↦ record p { path = path; qsmap = parse_query_string q_str p.qsmap }
        ])
    go none = record { buf = refl; bytes_read = refl; bytes_read_prev = refl }
    go (some x) = record { buf = refl; bytes_read = refl; bytes_read_prev = refl }

after_phr-HasSameBuffer : (r : PhrResult) (p : Parser) → HasSameBuffer p (after_phr r p).1
unfolding after_phr
after_phr-HasSameBuffer parse_error p = record {
  buf = refl;
  bytes_read = refl;
  bytes_read_prev = refl;
}
after_phr-HasSameBuffer incomplete p = record {
  buf = refl;
  bytes_read = refl;
  bytes_read_prev = refl;
}
after_phr-HasSameBuffer (parsed method path headers) p =
    let s = set_path-HasSameBuffer path (record p { method = method ++ p.method }) in
    record {
      buf = HasSameBuffer.buf s;
      bytes_read = HasSameBuffer.bytes_read s;
      bytes_read_prev = HasSameBuffer.bytes_read_prev s;
    }

parse_more-IsBounded :
    (phr : Bytes → ℕ → PhrResult) (data' : Bytes) (p : Parser)
    → IsBounded p
    → IsBounded (parse_more phr data' p).1
unfolding parse_more
parse_more-IsBounded phr data' p b =
    elim (Bool-cases (ltb http_bufsiz (p.bytes_read + length data'))) [
      | inl e ↦
          if_true (λ (z : RequestState × Parser). IsBounded z.1)
            (ltb http_bufsiz (p.bytes_read + length data')) _ _ e
            (record {
              counted = IsBounded.counted b;
              before = omega arith;
              within = IsBounded.within b;
            })
      | inr e ↦
          if_false (λ (z : RequestState × Parser). IsBounded z.1)
            (ltb http_bufsiz (p.bytes_read + length data')) _ _ e
            (HasSameBuffer-IsBounded _ _
              (after_phr-HasSameBuffer (phr (p.buf ++ data') p.bytes_read) _)
              (record {
                counted = omega (arith, IsBounded.counted b, length-append p.buf data');
                before = omega arith;
                within = ground (arith, e);
              }))
    ]

-- Whatever `parse` is given, and whatever picohttpparser makes of it, it keeps the invariant that
-- the buffer holds no more than its limit and that the counters agree with it.
pub parse-IsBounded :
    (phr_parse_request : Bytes → ℕ → PhrResult) (data' : Bytes) (p : Parser)
    → IsBounded p
    → IsBounded (parse phr_parse_request data' p).1
unfolding parse
parse-IsBounded phr data' p b =
    if_both (λ (z : RequestState × Parser). IsBounded z.1) p.is_complete _ _
      (if_both (λ (z : RequestState × Parser). IsBounded z.1) (length data' == 0) _ _ b
        (parse_more-IsBounded phr data' reset_state reset_state-IsBounded))
      (parse_more-IsBounded phr data' p b)
