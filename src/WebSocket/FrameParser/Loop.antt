-- ===== src/WebSocket/FrameParser/Loop.antt =====
-- The loop of src/websocket/ws_parser.cpp ends, and what it does is independent of how the bytes
-- are cut into reads.
use eventhub.Prelude.{
  ℕ, zero, suc, ◌+◌, ◌*◌, ◌≤◌, ◌<◌, ◌≡◌, ◌≢◌, refl, sym, ◌∙◌, ap, subst, [], ◌∷◌, ◌++◌, arith,
  Bytes, some, length, take, drop, ltb, if◌then◌else◌, some-eq, take-append-drop, length-take,
  length-drop,
}
use eventhub.WebSocket.FrameParser.{
  WsParser, ParserState, s_opcode, s_length, s_length_16_0, s_length_16_1, s_length_64_0,
  s_length_64_1, s_length_64_2, s_length_64_3, s_length_64_4, s_length_64_5, s_length_64_6,
  s_length_64_7, s_mask_0, s_mask_1, s_mask_2, s_mask_3, s_payload, Status, ws_ok, Callbacks, Round,
  next, stop, on_opcode, on_length, on_length_16_1, on_length_64, on_mask, on_payload, on_chunk,
  end_of_payload, on_state, execute_from, ws_parser_execute,
}
use eventhub.WebSocket.FrameParser.Feeding.{
  Ready, IsReady, IsChunked, feed, feed_round, feed-step, on_chunk-feed, on_opcode-Local,
  on_length-Local, on_length_64-Local, on_mask-Local, feed_after,
}

ParserState-discrete : Discrete ParserState
ParserState-discrete = hlevel

module _ {D : Type 0} (callbacks : Callbacks D) where
  -- A round leaves the parser ready, and at most `n` bytes; or it returns an error.
  abbrev Keeps : ℕ → Round D → Type 0
  Keeps n (next p d left) = IsReady p × (length left ≤ n)
  Keeps n (stop s p d) = s ≢ ws_ok

  end_of_payload-Keeps :
      (p : WsParser) (d : D) (rest : Bytes)
      → Keeps (length rest) (end_of_payload callbacks p d rest)
  unfolding end_of_payload
  end_of_payload-Keeps p d rest = ground arith

  on_opcode-Keeps :
      (p : WsParser) (d : D) (c : ℕ) (rest : Bytes)
      → Keeps (length rest) (on_opcode callbacks p d c rest)
  unfolding on_opcode
  on_opcode-Keeps p d c rest = ground arith

  on_length-Keeps :
      (p : WsParser) (d : D) (c : ℕ) (rest : Bytes)
      → Keeps (length rest) (on_length callbacks p d c rest)
  unfolding on_length
  on_length-Keeps p d c rest = ground arith

  on_length_16_1-Keeps :
      (p : WsParser) (d : D) (c : ℕ) (rest : Bytes)
      → Keeps (length rest) (on_length_16_1 callbacks p d c rest)
  unfolding on_length_16_1
  on_length_16_1-Keeps p d c rest = ground arith

  on_length_64-Keeps :
      (s : ParserState) (p : WsParser) (d : D) (c : ℕ) (rest : Bytes)
      → Keeps (length rest) (on_length_64 callbacks s p d c rest)
  unfolding on_length_64
  on_length_64-Keeps s_length_64_0 p d c rest = ground arith
  on_length_64-Keeps _ p d c rest = ground arith

  on_mask-Keeps :
      (s : ParserState) (p : WsParser) (d : D) (c : ℕ) (rest : Bytes)
      → Keeps (length rest) (on_mask callbacks s p d c rest)
  unfolding on_mask
  on_mask-Keeps s_mask_0 p d c rest = ground arith
  on_mask-Keeps _ p d c rest = ground arith

  on_chunk-Keeps :
      (p : WsParser) (d : D) (chunk rest : Bytes)
      → p.state ≡ s_payload
      → Keeps (length rest) (on_chunk callbacks p d chunk rest)
  unfolding on_chunk
  on_chunk-Keeps p d chunk rest e = ground arith

  abbrev chunk_length : WsParser → Bytes → ℕ
  chunk_length p buff =
      if ltb p.bytes_remaining (length buff) then p.bytes_remaining else length buff

  chunk_length_bounds :
      (p : WsParser) (c : ℕ) (rest : Bytes)
      → 0 < p.bytes_remaining
      → (0 < chunk_length p (c ∷ rest))
        × (chunk_length p (c ∷ rest) ≤ p.bytes_remaining)
        × (chunk_length p (c ∷ rest) ≤ length (c ∷ rest))
  chunk_length_bounds p c rest h = ground arith

  on_payload-Keeps :
      (p : WsParser) (d : D) (c : ℕ) (rest : Bytes)
      → p.state ≡ s_payload
      → 0 < p.bytes_remaining
      → Keeps (length rest) (on_payload callbacks p d (c ∷ rest))
  unfolding on_payload
  on_payload-Keeps p d c rest e h = go (on_chunk callbacks p d (take n (c ∷ rest)) left) kept
    where
      n : ℕ
      n = chunk_length p (c ∷ rest)

      left : Bytes
      left = drop n (c ∷ rest)

      kept : Keeps (length left) (on_chunk callbacks p d (take n (c ∷ rest)) left)
      kept = on_chunk-Keeps p d (take n (c ∷ rest)) left e

      go : (r : Round D) → Keeps (length left) r → Keeps (length rest) r
      go (next p' d' l) k =
          (k.0, omega (arith, k.1, length-drop n (c ∷ rest), chunk_length_bounds p c rest h))
      go (stop s p' d') k = k

  on_state-Keeps :
      (s : ParserState) (p : WsParser) (d : D) (c : ℕ) (rest : Bytes)
      → p.state ≡ s
      → Ready s p.bytes_remaining
      → Keeps (length rest) (on_state callbacks s p d c rest)
  unfolding on_state
  on_state-Keeps s_opcode p d c rest e h = on_opcode-Keeps p d c rest
  on_state-Keeps s_length p d c rest e h = on_length-Keeps p d c rest
  on_state-Keeps s_length_16_0 p d c rest e h = (tt, omega arith)
  on_state-Keeps s_length_16_1 p d c rest e h = on_length_16_1-Keeps p d c rest
  on_state-Keeps s_length_64_0 p d c rest e h = on_length_64-Keeps s_length_64_0 p d c rest
  on_state-Keeps s_length_64_1 p d c rest e h = on_length_64-Keeps s_length_64_1 p d c rest
  on_state-Keeps s_length_64_2 p d c rest e h = on_length_64-Keeps s_length_64_2 p d c rest
  on_state-Keeps s_length_64_3 p d c rest e h = on_length_64-Keeps s_length_64_3 p d c rest
  on_state-Keeps s_length_64_4 p d c rest e h = on_length_64-Keeps s_length_64_4 p d c rest
  on_state-Keeps s_length_64_5 p d c rest e h = on_length_64-Keeps s_length_64_5 p d c rest
  on_state-Keeps s_length_64_6 p d c rest e h = on_length_64-Keeps s_length_64_6 p d c rest
  on_state-Keeps s_length_64_7 p d c rest e h = on_length_64-Keeps s_length_64_7 p d c rest
  on_state-Keeps s_mask_0 p d c rest e h = on_mask-Keeps s_mask_0 p d c rest
  on_state-Keeps s_mask_1 p d c rest e h = on_mask-Keeps s_mask_1 p d c rest
  on_state-Keeps s_mask_2 p d c rest e h = on_mask-Keeps s_mask_2 p d c rest
  on_state-Keeps s_mask_3 p d c rest e h = on_mask-Keeps s_mask_3 p d c rest
  on_state-Keeps s_payload p d c rest e h = on_payload-Keeps p d c rest e h

  -- Any fuel above the number of bytes gives the same result.
  execute_from-enough :
      (f g : ℕ) (p : WsParser) (d : D) (buff : Bytes)
      → IsReady p
      → length buff < f
      → length buff < g
      → execute_from callbacks f p d buff ≡ execute_from callbacks g p d buff
  unfolding execute_from
  execute_from-enough zero g p d buff r h k = absurd (omega arith)
  execute_from-enough (suc f) zero p d buff r h k = absurd (omega arith)
  execute_from-enough (suc f) (suc g) p d [] r h k = refl
  execute_from-enough (suc f) (suc g) p d (c ∷ rest) r h k =
      go (execute_from-enough f g) (on_state callbacks p.state p d c rest)
        (on_state-Keeps p.state p d c rest refl r)
    where
      go :
          ((p : WsParser) (d : D) (buff : Bytes)
            → IsReady p
            → length buff < f
            → length buff < g
            → execute_from callbacks f p d buff ≡ execute_from callbacks g p d buff)
          → (t : Round D) → Keeps (length rest) t
          → elim t [
            | next p' d' left ↦ execute_from callbacks f p' d' left
            | stop s p' d' ↦ some (s, p', d')
          ]
            ≡ elim t [
              | next p' d' left ↦ execute_from callbacks g p' d' left
              | stop s p' d' ↦ some (s, p', d')
            ]
      go rec (next p' d' left) m = rec p' d' left m.0 (omega (arith, m.1)) (omega (arith, m.1))
      go rec (stop s p' d') k = refl

  execute_from-next :
      (fuel : ℕ) (p p' : WsParser) (d d' : D) (c : ℕ) (rest left : Bytes)
      → on_state callbacks p.state p d c rest ≡ next p' d' left
      → execute_from callbacks (suc fuel) p d (c ∷ rest) ≡ execute_from callbacks fuel p' d' left
  unfolding execute_from
  execute_from-next fuel p p' d d' c rest left e = rw (e, execute_from)

  -- One round of the loop.
  pub ws_parser_execute-next :
      (p p' : WsParser) (d d' : D) (c : ℕ) (rest left : Bytes)
      → IsReady p
      → on_state callbacks p.state p d c rest ≡ next p' d' left
      → ws_parser_execute callbacks p d (c ∷ rest) ≡ ws_parser_execute callbacks p' d' left
  unfolding ws_parser_execute
  ws_parser_execute-next p p' d d' c rest left r e =
      let k = subst (Keeps (length rest)) e (on_state-Keeps p.state p d c rest refl r) in
      execute_from-enough _ (suc (2 * length left + 2 + length rest)) p d (c ∷ rest) r (omega arith)
        (omega arith)
      ∙ execute_from-next (2 * length left + 2 + length rest) p p' d d' c rest left e
      ∙ execute_from-enough _ _ p' d' left k.0 (omega arith) (omega arith)

module _ {D : Type 0} (callbacks : Callbacks D) (ok : IsChunked callbacks) where
  on_payload-feed :
      (p : WsParser) (d : D) (c : ℕ) (rest : Bytes)
      → p.state ≡ s_payload
      → 0 < p.bytes_remaining
      → feed_round callbacks (on_payload callbacks p d (c ∷ rest)) ≡ feed callbacks p d (c ∷ rest)
  unfolding on_payload
  on_payload-feed p d c rest e h =
      go (chunk_length callbacks p (c ∷ rest)) (chunk_length_bounds callbacks p c rest h)
    where
      go :
          (n : ℕ)
          → (0 < n) × (n ≤ p.bytes_remaining) × (n ≤ length (c ∷ rest))
          → feed_round callbacks (on_chunk callbacks p d (take n (c ∷ rest)) (drop n (c ∷ rest)))
            ≡ feed callbacks p d (c ∷ rest)
      go zero b = absurd (omega arith)
      go (suc n) b =
          on_chunk-feed callbacks ok (take n rest) p d c (drop n rest) e
            (omega (arith, length-take n rest))
          ∙ ap (λ l. feed callbacks p d (c ∷ l)) (take-append-drop n rest)

  on_length_16_1-Local :
      (p : WsParser) (d : D) (c : ℕ) (rest : Bytes)
      → feed_round callbacks (on_length_16_1 callbacks p d c rest)
        ≡ feed_after callbacks rest (on_length_16_1 callbacks p d c [])
  unfolding on_length_16_1
  on_length_16_1-Local p d c rest = ground arith

  -- Outside the payload a round looks at one byte.
  on_state-Local :
      (s : ParserState) (p : WsParser) (d : D) (c : ℕ) (rest : Bytes)
      → s ≢ s_payload
      → feed_round callbacks (on_state callbacks s p d c rest)
        ≡ feed_after callbacks rest (on_state callbacks s p d c [])
  unfolding on_state
  on_state-Local s_opcode p d c rest h = on_opcode-Local callbacks p d c rest
  on_state-Local s_length p d c rest h = on_length-Local callbacks p d c rest
  on_state-Local s_length_16_0 p d c rest h = refl
  on_state-Local s_length_16_1 p d c rest h = on_length_16_1-Local p d c rest
  on_state-Local s_length_64_0 p d c rest h = on_length_64-Local callbacks s_length_64_0 p d c rest
  on_state-Local s_length_64_1 p d c rest h = on_length_64-Local callbacks s_length_64_1 p d c rest
  on_state-Local s_length_64_2 p d c rest h = on_length_64-Local callbacks s_length_64_2 p d c rest
  on_state-Local s_length_64_3 p d c rest h = on_length_64-Local callbacks s_length_64_3 p d c rest
  on_state-Local s_length_64_4 p d c rest h = on_length_64-Local callbacks s_length_64_4 p d c rest
  on_state-Local s_length_64_5 p d c rest h = on_length_64-Local callbacks s_length_64_5 p d c rest
  on_state-Local s_length_64_6 p d c rest h = on_length_64-Local callbacks s_length_64_6 p d c rest
  on_state-Local s_length_64_7 p d c rest h = on_length_64-Local callbacks s_length_64_7 p d c rest
  on_state-Local s_mask_0 p d c rest h = on_mask-Local callbacks s_mask_0 p d c rest
  on_state-Local s_mask_1 p d c rest h = on_mask-Local callbacks s_mask_1 p d c rest
  on_state-Local s_mask_2 p d c rest h = on_mask-Local callbacks s_mask_2 p d c rest
  on_state-Local s_mask_3 p d c rest h = on_mask-Local callbacks s_mask_3 p d c rest
  on_state-Local s_payload p d c rest h = absurd (h refl)

  round-feed :
      (s : ParserState) (p : WsParser) (d : D) (c : ℕ) (rest : Bytes)
      → p.state ≡ s
      → Ready s p.bytes_remaining
      → feed_round callbacks (on_state callbacks s p d c rest) ≡ feed callbacks p d (c ∷ rest)
  round-feed s p d c rest e h = elim (ParserState-discrete s s_payload) [
    | yes paid ↦
        subst
          (λ t.
            Ready t p.bytes_remaining
            → feed_round callbacks (on_state callbacks t p d c rest)
              ≡ feed callbacks p d (c ∷ rest))
          (sym paid) (λ r. unfold on_state in on_payload-feed p d c rest (e ∙ paid) r) h
    | no unpaid ↦
        on_state-Local s p d c rest unpaid
        ∙ sym (
            feed-step callbacks ok p d c rest
            ∙ ap (λ t. feed_after callbacks rest (on_state callbacks t p d c [])) e)
  ]

  execute_from-feed :
      (fuel : ℕ) (p : WsParser) (d : D) (buff : Bytes)
      → IsReady p
      → length buff < fuel
      → execute_from callbacks fuel p d buff ≡ some (feed callbacks p d buff)
  unfolding execute_from
  execute_from-feed zero p d buff r h = absurd (omega arith)
  execute_from-feed (suc fuel) p d [] r h = unfold feed in refl
  execute_from-feed (suc fuel) p d (c ∷ rest) r h =
      go (execute_from-feed fuel) (on_state callbacks p.state p d c rest)
        (on_state-Keeps callbacks p.state p d c rest refl r)
      ∙ ap some (round-feed p.state p d c rest refl r)
    where
      go :
          ((p : WsParser) (d : D) (buff : Bytes)
            → IsReady p
            → length buff < fuel
            → execute_from callbacks fuel p d buff ≡ some (feed callbacks p d buff))
          → (t : Round D) → Keeps callbacks (length rest) t
          → elim t [
            | next p' d' left ↦ execute_from callbacks fuel p' d' left
            | stop s p' d' ↦ some (s, p', d')
          ]
            ≡ some (feed_round callbacks t)
      go rec (next p' d' left) k = rec p' d' left k.0 (omega (arith, k.1))
      go rec (stop s p' d') k = refl

  -- With such callbacks the loop ends within its fuel, and does what the parser does that takes one byte
  -- at a time.
  pub ws_parser_execute-feed :
      (p : WsParser) (d : D) (buff : Bytes)
      → IsReady p
      → ws_parser_execute callbacks p d buff ≡ some (feed callbacks p d buff)
  unfolding ws_parser_execute
  ws_parser_execute-feed p d buff r = execute_from-feed _ p d buff r (omega arith)

  abbrev Resumes : Status × WsParser × D → Status × WsParser × D → Bytes → Type 0
  Resumes o o' ys = o.0 ≡ ws_ok → IsReady o.1 × (o' ≡ feed callbacks o.1 o.2 ys)

  feed-append :
      (p : WsParser) (d : D) (xs ys : Bytes)
      → IsReady p
      → Resumes (feed callbacks p d xs) (feed callbacks p d (xs ++ ys)) ys
  feed-append p d [] ys r = unfold feed in λ _. (r, refl)
  feed-append p d (c ∷ xs) ys r =
      rw (feed-step callbacks ok p d c xs, feed-step callbacks ok p d c (xs ++ ys))
        (go (λ q b. feed-append q b xs ys) (on_state callbacks p.state p d c [])
          (on_state-Keeps callbacks p.state p d c [] refl r))
    where
      go :
          ((q : WsParser) (b : D)
            → IsReady q
            → Resumes (feed callbacks q b xs) (feed callbacks q b (xs ++ ys)) ys)
          → (t : Round D) → Keeps callbacks 0 t
          → Resumes (feed_after callbacks xs t) (feed_after callbacks (xs ++ ys) t) ys
      go rec (next p' d' left) k = rec p' d' k.0
      go rec (stop s p' d') k = λ e. absurd (k e)

  -- As long as no error is returned, with such callbacks reading `xs` and then `ys` does what reading
  -- them at once does.
  pub ws_parser_execute-append :
      (p p' : WsParser) (d d' : D) (xs ys : Bytes)
      → IsReady p
      → ws_parser_execute callbacks p d xs ≡ some (ws_ok, p', d')
      → IsReady p'
        × (ws_parser_execute callbacks p d (xs ++ ys) ≡ ws_parser_execute callbacks p' d' ys)
  ws_parser_execute-append p p' d d' xs ys r e =
      let f : feed callbacks p d xs ≡ (ws_ok, p', d') =
        some-eq (sym (ws_parser_execute-feed p d xs r) ∙ e) in
      let (r', g) =
        subst (λ o. Resumes o (feed callbacks p d (xs ++ ys)) ys) f (feed-append p d xs ys r)
          refl in
      (
        r',
        ws_parser_execute-feed p d (xs ++ ys) r
            ∙ ap some g
            ∙ sym (ws_parser_execute-feed p' d' ys r'),
      )
