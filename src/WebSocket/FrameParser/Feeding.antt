-- ===== src/WebSocket/FrameParser/Feeding.antt =====
-- The loop of src/websocket/ws_parser.cpp against the parser that takes one byte at a time.
use eventhub.Prelude.{
  ℕ, ◌+◌, ◌-◌, ◌%◌, ◌≤◌, ◌<◌, ◌≡◌, refl, sym, ◌∙◌, ap, ap₂, inl, inr, [], ◌∷◌, ◌++◌, arith, Bytes,
  length, if◌then◌else◌, Bool-cases,
}
use eventhub.WebSocket.FrameParser.{
  WsParser, ParserState, s_length_64_0, s_mask_0, s_payload, Status, ws_ok, Callbacks, Round, next,
  stop, unmask, on_opcode, on_length, on_length_64, on_mask, on_payload, on_chunk, end_of_payload,
  on_state, to_payload,
}

-- In the payload state there is a byte to come.
abbrev pub Ready : ParserState → ℕ → Type 0
Ready s_payload n = 0 < n
Ready _ n = Unit {0}

abbrev pub IsReady : WsParser → Type 0
IsReady p = Ready p.state p.bytes_remaining

module _ {D : Type 0} (callbacks : Callbacks D) where
  -- The parser that is given one byte at a time.
  unfoldable pub feed : WsParser → D → Bytes → Status × WsParser × D
  feed p d [] = (ws_ok, p, d)
  feed p d (c ∷ rest) = elim (on_state callbacks p.state p d c []) [
    | next p' d' left ↦ feed p' d' rest
    | stop s p' d' ↦ (s, p', d')
  ]

  abbrev pub feed_round : Round D → Status × WsParser × D
  feed_round (next p d left) = feed p d left
  feed_round (stop s p d) = (s, p, d)

  abbrev pub feed_after : Bytes → Round D → Status × WsParser × D
  feed_after rest (next p d left) = feed p d rest
  feed_after rest (stop s p d) = (s, p, d)

  abbrev pub Local : (WsParser → D → ℕ → Bytes → Round D) → Type 0
  Local f =
      (p : WsParser) (d : D) (c : ℕ) (rest : Bytes)
      → feed_round (f p d c rest) ≡ feed_after rest (f p d c [])

  pub on_opcode-Local : Local (on_opcode callbacks)
  unfolding on_opcode
  on_opcode-Local p d c rest = ground arith

  end_of_payload-Local :
      (p : WsParser) (d : D) (rest : Bytes)
      → feed_round (end_of_payload callbacks p d rest)
        ≡ feed_after rest (end_of_payload callbacks p d [])
  unfolding end_of_payload
  end_of_payload-Local p d rest = ground arith

  pub on_length-Local : Local (on_length callbacks)
  unfolding on_length
  on_length-Local p d c rest = ground arith

  pub on_length_64-Local : (s : ParserState) → Local (on_length_64 callbacks s)
  unfolding on_length_64
  on_length_64-Local s_length_64_0 p d c rest = refl
  on_length_64-Local _ p d c rest = ground arith

  pub on_mask-Local : (s : ParserState) → Local (on_mask callbacks s)
  unfolding on_mask
  on_mask-Local s_mask_0 p d c rest = refl
  on_mask-Local _ p d c rest = ground arith

-- The callback for a payload returns 0, and takes a payload in two pieces as it takes it whole. Those
-- of `websocket::Parser` do so but for their reports of what is too large: see WebSocket/Cuts.
pub record IsChunked {D : Type 0} (callbacks : Callbacks D) : Type 0 where
  pub data_rc : (d : D) (xs : Bytes) → (callbacks.on_data_payload d xs).1 ≡ 0
  pub control_rc : (d : D) (xs : Bytes) → (callbacks.on_control_payload d xs).1 ≡ 0
  pub data_append :
      (d : D) (xs ys : Bytes)
      → (callbacks.on_data_payload d (xs ++ ys)).0
        ≡ (callbacks.on_data_payload (callbacks.on_data_payload d xs).0 ys).0
  pub control_append :
      (d : D) (xs ys : Bytes)
      → (callbacks.on_control_payload d (xs ++ ys)).0
        ≡ (callbacks.on_control_payload (callbacks.on_control_payload d xs).0 ys).0

unmask-record :
    (p : WsParser) (pos n m : ℕ) (xs : Bytes)
    → unmask (record p { mask_pos = n; bytes_remaining = m }) pos xs ≡ unmask p pos xs
unfolding unmask
unmask-record p pos n m [] = refl
unmask-record p pos n m (x ∷ xs) = rw (unmask-record p ((pos + 1) % 4) n m xs)

unmask-cons :
    (p : WsParser) (pos x : ℕ) (xs : Bytes)
    → unmask p pos (x ∷ xs) ≡ unmask p pos (x ∷ []) ++ unmask p ((pos + 1) % 4) xs
unfolding unmask
unmask-cons p pos x xs = refl

module _ {D : Type 0} (callbacks : Callbacks D) (ok : IsChunked callbacks) where
  abbrev text_of : WsParser → Bytes → Bytes
  text_of p xs = if p.mask_flag then unmask p p.mask_pos xs else xs

  -- The data and the parser after the bytes `xs` of a payload.
  abbrev data_after : WsParser → D → Bytes → D
  data_after p d xs =
      if p.control
      then (callbacks.on_control_payload d (text_of p xs)).0
      else (callbacks.on_data_payload d (text_of p xs)).0

  abbrev parser_after : WsParser → Bytes → WsParser
  parser_after p xs = record p {
    mask_pos = if p.mask_flag then (p.mask_pos + length xs) % 4 else p.mask_pos;
    bytes_remaining = p.bytes_remaining - length xs;
  }

  on_chunk-after :
      (p : WsParser) (d : D) (xs rest : Bytes)
      → on_chunk callbacks p d xs rest
        ≡ to_payload callbacks (parser_after p xs) (data_after p d xs) rest
  unfolding on_chunk
  on_chunk-after p d xs rest =
      ground (arith, ok.data_rc d (text_of p xs), ok.control_rc d (text_of p xs))

  parser_after-cons :
      (p : WsParser) (x : ℕ) (xs : Bytes)
      → parser_after p (x ∷ xs) ≡ parser_after (parser_after p (x ∷ [])) xs
  parser_after-cons p x xs = ground arith

  text_of-cons :
      (p : WsParser) (x : ℕ) (xs : Bytes)
      → text_of p (x ∷ xs) ≡ text_of p (x ∷ []) ++ text_of (parser_after p (x ∷ [])) xs
  text_of-cons p x xs = elim (Bool-cases p.mask_flag) [
    | inl e ↦ ground (
      arith,
      unmask-cons p p.mask_pos x xs,
      unmask-record p ((p.mask_pos + 1) % 4) ((p.mask_pos + 1) % 4) (p.bytes_remaining - 1) xs,
    )
    | inr e ↦ ground arith
  ]

  data_after-cons :
      (p : WsParser) (d : D) (x : ℕ) (xs : Bytes)
      → data_after p d (x ∷ xs) ≡ data_after (parser_after p (x ∷ [])) (data_after p d (x ∷ [])) xs
  data_after-cons p d x xs = rw (text_of-cons p x xs) (
      ground (
        arith,
        ok.data_append d (text_of p (x ∷ [])) (text_of (parser_after p (x ∷ [])) xs),
        ok.control_append d (text_of p (x ∷ [])) (text_of (parser_after p (x ∷ [])) xs),
      ))

  -- A first byte of payload that is not the last, by itself.
  on_payload-first :
      (p : WsParser) (d : D) (x : ℕ)
      → 1 < p.bytes_remaining
      → on_payload callbacks p d (x ∷ [])
        ≡ next (parser_after p (x ∷ [])) (data_after p d (x ∷ [])) []
  unfolding on_payload
  on_payload-first p d x h = ground (arith, on_chunk-after p d (x ∷ []) [])

  on_payload-last :
      (p : WsParser) (d : D) (x : ℕ)
      → 0 < p.bytes_remaining
      → on_payload callbacks p d (x ∷ []) ≡ on_chunk callbacks p d (x ∷ []) []
  unfolding on_payload
  on_payload-last p d x h = ground arith

  to_payload-Local :
      (p : WsParser) (d : D) (rest : Bytes)
      → feed_round callbacks (to_payload callbacks p d rest)
        ≡ feed_after callbacks rest (to_payload callbacks p d [])
  to_payload-Local p d rest = ground (arith, end_of_payload-Local callbacks p d rest)

  pub feed-step :
      (p : WsParser) (d : D) (x : ℕ) (rest : Bytes)
      → feed callbacks p d (x ∷ rest)
        ≡ feed_after callbacks rest (on_state callbacks p.state p d x [])
  unfolding feed
  feed-step p d x rest =
      elim (on_state callbacks p.state p d x [])
        as (λ r.
          elim r [ next p' d' left ↦ feed callbacks p' d' rest | stop s p' d' ↦ (s, p', d') ]
          ≡ feed_after callbacks rest r) [ next p' d' left ↦ refl | stop s p' d' ↦ refl ]

  feed-payload :
      (p : WsParser) (d : D) (x : ℕ) (rest : Bytes)
      → p.state ≡ s_payload
      → feed callbacks p d (x ∷ rest)
        ≡ feed_after callbacks rest (on_payload callbacks p d (x ∷ []))
  unfolding on_state
  feed-payload p d x rest e =
      feed-step p d x rest ∙ ap (λ s. feed_after callbacks rest (on_state callbacks s p d x [])) e

  -- A chunk taken whole, and byte by byte.
  pub on_chunk-feed :
      (xs : Bytes) (p : WsParser) (d : D) (x : ℕ) (rest : Bytes)
      → p.state ≡ s_payload
      → length (x ∷ xs) ≤ p.bytes_remaining
      → feed_round callbacks (on_chunk callbacks p d (x ∷ xs) rest)
        ≡ feed callbacks p d (x ∷ (xs ++ rest))
  on_chunk-feed [] p d x rest e h =
      rw (feed-payload p d x rest e, on_payload-last p d x (omega arith))
        (rw (on_chunk-after p d (x ∷ []) rest, on_chunk-after p d (x ∷ []) [])
          (to_payload-Local (parser_after p (x ∷ [])) (data_after p d (x ∷ [])) rest))
  on_chunk-feed (y ∷ ys) p d x rest e h =
      let p' = parser_after p (x ∷ []) in
      let d' = data_after p d (x ∷ []) in
      ap (feed_round callbacks) (
        on_chunk-after p d (x ∷ y ∷ ys) rest
        ∙ ap₂ (λ q b. to_payload callbacks q b rest) (parser_after-cons p x (y ∷ ys))
            (data_after-cons p d x (y ∷ ys))
        ∙ sym (on_chunk-after p' d' (y ∷ ys) rest))
      ∙ on_chunk-feed ys p' d' y rest e (omega arith)
      ∙ sym (
          feed-payload p d x (y ∷ (ys ++ rest)) e
          ∙ ap (feed_after callbacks (y ∷ (ys ++ rest))) (on_payload-first p d x (omega arith)))
