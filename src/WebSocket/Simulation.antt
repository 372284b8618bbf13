-- ===== src/WebSocket/Simulation.antt =====
-- Two sets of callbacks of the frame parser, src/websocket/ws_parser.cpp, of which one sees no more of
-- the other's state than a view of it: the loop keeps them in step.
use eventhub.Prelude.{
  ℕ, zero, suc, ◌+◌, ◌-◌, ◌%◌, ◌/◌, ◌==◌, ◌≡◌, refl, ap, ◌∙◌, Bool, true, false, [], ◌∷◌, Option,
  none, some, Bytes, if◌then◌else◌, take, drop, length, ltb, arith,
}
use eventhub.WebSocket.FrameParser.{
  WsParser, ParserState, s_opcode, s_length, s_length_16_0, s_length_16_1, s_length_64_0,
  s_length_64_1, s_length_64_2, s_length_64_3, s_length_64_4, s_length_64_5, s_length_64_6,
  s_length_64_7, s_mask_0, s_mask_1, s_mask_2, s_mask_3, s_payload, Status, Callbacks, Round, next,
  stop, unmask, on_opcode, on_length, on_length_16_1, on_length_64, on_mask, on_payload, on_chunk,
  end_of_payload, on_state, execute_from, ws_parser_execute, after_callback, to_payload,
}

-- Every callback does to the view what the other does, and returns the same number.
pub record Simulates {D E : Type 0} (cb : Callbacks D) (cb' : Callbacks E) (view : D → E)
    : Type 0 where
  pub data_begin :
      (d : D) (t : ℕ)
      → cb'.on_data_begin (view d) t ≡ (view (cb.on_data_begin d t).0, (cb.on_data_begin d t).1)
  pub data_payload :
      (d : D) (xs : Bytes)
      → cb'.on_data_payload (view d) xs
        ≡ (view (cb.on_data_payload d xs).0, (cb.on_data_payload d xs).1)
  pub data_end :
      (d : D) → cb'.on_data_end (view d) ≡ (view (cb.on_data_end d).0, (cb.on_data_end d).1)
  pub control_begin :
      (d : D) (t : ℕ)
      → cb'.on_control_begin (view d) t
        ≡ (view (cb.on_control_begin d t).0, (cb.on_control_begin d t).1)
  pub control_payload :
      (d : D) (xs : Bytes)
      → cb'.on_control_payload (view d) xs
        ≡ (view (cb.on_control_payload d xs).0, (cb.on_control_payload d xs).1)
  pub control_end :
      (d : D)
      → cb'.on_control_end (view d) ≡ (view (cb.on_control_end d).0, (cb.on_control_end d).1)

module _ {D E : Type 0} (cb : Callbacks D) (cb' : Callbacks E) (view : D → E)
    (sim : Simulates cb cb' view) where
  abbrev view_round : Round D → Round E
  view_round (next p d left) = next p (view d) left
  view_round (stop s p d) = stop s p (view d)

  abbrev pub view_result : Status × WsParser × D → Status × WsParser × E
  view_result r = (r.0, r.1, view r.2)

  abbrev pub view_option : Option (Status × WsParser × D) → Option (Status × WsParser × E)
  view_option none = none
  view_option (some r) = some (view_result r)

  on_opcode-view :
      (p : WsParser) (d : D) (c : ℕ) (rest : Bytes)
      → on_opcode cb' p (view d) c rest ≡ view_round (on_opcode cb p d c rest)
  unfolding on_opcode
  on_opcode-view p d c rest =
      ground (arith, sim.data_begin d (c % 16), sim.control_begin d (c % 16))

  end_of_payload-view :
      (p : WsParser) (d : D) (rest : Bytes)
      → end_of_payload cb' p (view d) rest ≡ view_round (end_of_payload cb p d rest)
  unfolding end_of_payload
  end_of_payload-view p d rest = ground (arith, sim.data_end d, sim.control_end d)

  to_payload-view :
      (p : WsParser) (d : D) (rest : Bytes)
      → to_payload cb' p (view d) rest ≡ view_round (to_payload cb p d rest)
  to_payload-view p d rest = ground (arith, end_of_payload-view p d rest)

  on_length-view :
      (p : WsParser) (d : D) (c : ℕ) (rest : Bytes)
      → on_length cb' p (view d) c rest ≡ view_round (on_length cb p d c rest)
  unfolding on_length
  on_length-view p d c rest = ground (
    arith,
    end_of_payload-view
        (record p {
          mask_flag = (c / 128) % 2 == 1;
          mask_pos = 0;
          bytes_remaining = c % 128;
          state = if (c / 128) % 2 == 1 then s_mask_0 else s_payload;
        })
        d rest,
  )

  on_length_16_1-view :
      (p : WsParser) (d : D) (c : ℕ) (rest : Bytes)
      → on_length_16_1 cb' p (view d) c rest ≡ view_round (on_length_16_1 cb p d c rest)
  unfolding on_length_16_1
  on_length_16_1-view p d c rest = ground arith

  on_length_64-view :
      (s : ParserState) (p : WsParser) (d : D) (c : ℕ) (rest : Bytes)
      → on_length_64 cb' s p (view d) c rest ≡ view_round (on_length_64 cb s p d c rest)
  unfolding on_length_64
  on_length_64-view s_length_64_0 p d c rest = refl
  on_length_64-view _ p d c rest = ground arith

  on_mask-view :
      (s : ParserState) (p : WsParser) (d : D) (c : ℕ) (rest : Bytes)
      → on_mask cb' s p (view d) c rest ≡ view_round (on_mask cb s p d c rest)
  unfolding on_mask
  on_mask-view s_mask_0 p d c rest = refl
  on_mask-view s_mask_1 p d c rest = refl
  on_mask-view s_mask_2 p d c rest = refl
  on_mask-view _ p d c rest = to_payload-view (record p { mask_3 = c; state = s_payload }) d rest

  after_callback-view :
      (r : D × ℕ) (q p : WsParser) (rest : Bytes)
      → after_callback cb' (view r.0, r.1) q (λ d. to_payload cb' p d rest)
        ≡ view_round (after_callback cb r q (λ d. to_payload cb p d rest))
  after_callback-view r q p rest = ground (arith, to_payload-view p r.0 rest)

  payload-view :
      (control : Bool) (d : D) (text : Bytes)
      → (if control
          then cb'.on_control_payload (view d) text
          else cb'.on_data_payload (view d) text)
        ≡ (
          view (if control then cb.on_control_payload d text else cb.on_data_payload d text).0,
          (if control then cb.on_control_payload d text else cb.on_data_payload d text).1,
        )
  payload-view true d text = sim.control_payload d text
  payload-view false d text = sim.data_payload d text

  on_chunk-view :
      (p : WsParser) (d : D) (chunk rest : Bytes)
      → on_chunk cb' p (view d) chunk rest ≡ view_round (on_chunk cb p d chunk rest)
  unfolding on_chunk
  on_chunk-view p d chunk rest =
      let text = if p.mask_flag then unmask p p.mask_pos chunk else chunk in
      let pos = if p.mask_flag then (p.mask_pos + length chunk) % 4 else p.mask_pos in
      let q = record p { mask_pos = pos } in
      let p' = record p { mask_pos = pos; bytes_remaining = p.bytes_remaining - length chunk } in
      ap (λ r. after_callback cb' r q (λ d'. to_payload cb' p' d' rest))
        (payload-view p.control d text)
      ∙ after_callback-view
          (if p.control then cb.on_control_payload d text else cb.on_data_payload d text) q p' rest

  on_payload-view :
      (p : WsParser) (d : D) (buff : Bytes)
      → on_payload cb' p (view d) buff ≡ view_round (on_payload cb p d buff)
  unfolding on_payload
  on_payload-view p d buff =
      let n = if ltb p.bytes_remaining (length buff) then p.bytes_remaining else length buff in
      on_chunk-view p d (take n buff) (drop n buff)

  on_state-view :
      (s : ParserState) (p : WsParser) (d : D) (c : ℕ) (rest : Bytes)
      → on_state cb' s p (view d) c rest ≡ view_round (on_state cb s p d c rest)
  unfolding on_state
  on_state-view s_opcode p d c rest = on_opcode-view p d c rest
  on_state-view s_length p d c rest = on_length-view p d c rest
  on_state-view s_length_16_0 p d c rest = refl
  on_state-view s_length_16_1 p d c rest = on_length_16_1-view p d c rest
  on_state-view s_length_64_0 p d c rest = on_length_64-view s_length_64_0 p d c rest
  on_state-view s_length_64_1 p d c rest = on_length_64-view s_length_64_1 p d c rest
  on_state-view s_length_64_2 p d c rest = on_length_64-view s_length_64_2 p d c rest
  on_state-view s_length_64_3 p d c rest = on_length_64-view s_length_64_3 p d c rest
  on_state-view s_length_64_4 p d c rest = on_length_64-view s_length_64_4 p d c rest
  on_state-view s_length_64_5 p d c rest = on_length_64-view s_length_64_5 p d c rest
  on_state-view s_length_64_6 p d c rest = on_length_64-view s_length_64_6 p d c rest
  on_state-view s_length_64_7 p d c rest = on_length_64-view s_length_64_7 p d c rest
  on_state-view s_mask_0 p d c rest = on_mask-view s_mask_0 p d c rest
  on_state-view s_mask_1 p d c rest = on_mask-view s_mask_1 p d c rest
  on_state-view s_mask_2 p d c rest = on_mask-view s_mask_2 p d c rest
  on_state-view s_mask_3 p d c rest = on_mask-view s_mask_3 p d c rest
  on_state-view s_payload p d c rest = on_payload-view p d (c ∷ rest)

  execute_from-view :
      (fuel : ℕ) (p : WsParser) (d : D) (buff : Bytes)
      → execute_from cb' fuel p (view d) buff ≡ view_option (execute_from cb fuel p d buff)
  unfolding execute_from
  execute_from-view zero p d buff = refl
  execute_from-view (suc fuel) p d [] = refl
  execute_from-view (suc fuel) p d (c ∷ rest) =
      ap
        (λ r. elim r as (λ _. Option (Status × WsParser × E)) [
          | next p' d' left ↦ execute_from cb' fuel p' d' left
          | stop s p' d' ↦ some (s, p', d')
        ])
        (on_state-view p.state p d c rest)
      ∙ go (execute_from-view fuel) (on_state cb p.state p d c rest)
    where
      go :
          ((p : WsParser) (d : D) (buff : Bytes)
            → execute_from cb' fuel p (view d) buff ≡ view_option (execute_from cb fuel p d buff))
          → (r : Round D)
          → elim (view_round r) as (λ _. Option (Status × WsParser × E)) [
            | next p' d' left ↦ execute_from cb' fuel p' d' left
            | stop s p' d' ↦ some (s, p', d')
          ]
            ≡ view_option (elim r as (λ _. Option (Status × WsParser × D)) [
              | next p' d' left ↦ execute_from cb fuel p' d' left
              | stop s p' d' ↦ some (s, p', d')
            ])
      go ih (next p' d' left) = ih p' d' left
      go ih (stop s p' d') = refl

  -- The loop with the one, seen through the view, is the loop with the other.
  pub ws_parser_execute-view :
      (p : WsParser) (d : D) (buff : Bytes)
      → ws_parser_execute cb' p (view d) buff ≡ view_option (ws_parser_execute cb p d buff)
  unfolding ws_parser_execute
  ws_parser_execute-view p d buff = execute_from-view _ p d buff
