-- ===== src/WebSocket/FrameParser.antt =====
-- The frame parser, src/websocket/ws_parser.cpp and include/websocket/ws_parser.h: a state machine
-- that is fed whatever the socket delivers. `buff` and `len` are the list of the bytes left. A byte
-- is a number below 256, and masks and shifts are written as remainders and quotients: the low bits
-- of `bytes_remaining` are 0 where the source or-s a byte into them, so `|=` is a sum. The buffer
-- is unmasked in place in the source; nothing reads it afterwards.
pub mod Feeding
pub mod Loop
use Prim.Native.Nat.{bit_xor}
use eventhub.Prelude.{
  ℕ, zero, suc, ◌+◌, ◌-◌, ◌*◌, ◌/◌, ◌%◌, ◌^◌, Bool, true, false, not, ◌&&◌, [], ◌∷◌, ◌==◌,
  if◌then◌else◌, ltb, Bytes, Option, none, some, length, take, drop,
}

pub data ParserState : Type 0 where
  s_opcode s_length s_length_16_0 s_length_16_1 : ParserState
  s_length_64_0 s_length_64_1 s_length_64_2 s_length_64_3 : ParserState
  s_length_64_4 s_length_64_5 s_length_64_6 s_length_64_7 : ParserState
  s_mask_0 s_mask_1 s_mask_2 s_mask_3 s_payload : ParserState

pub record WsParser : Type 0 where
  pub bytes_remaining : ℕ
  pub mask_0 : ℕ
  pub mask_1 : ℕ
  pub mask_2 : ℕ
  pub mask_3 : ℕ
  pub fragment : Bool
  pub fin : Bool
  pub control : Bool
  pub mask_flag : Bool
  pub mask_pos : ℕ
  pub state : ParserState

abbrev pub ws_frame_text : ℕ
ws_frame_text = 0x1

abbrev pub ws_frame_binary : ℕ
ws_frame_binary = 0x2

abbrev pub ws_frame_close : ℕ
ws_frame_close = 0x8

abbrev pub ws_frame_ping : ℕ
ws_frame_ping = 0x9

abbrev pub ws_frame_pong : ℕ
ws_frame_pong = 0xA

-- The codes that the parser returns; `callback_rc` is a nonzero code that a callback returned.
pub data Status : Type 0 where
  ws_ok ws_reserved_bits_set ws_invalid_opcode ws_invalid_continuation : Status
  ws_control_too_long ws_non_canonical_length ws_fragmented_control : Status
  callback_rc : ℕ → Status

-- A callback gets `data` and returns it changed, with its return code.
pub record Callbacks (D : Type 0) : Type 0 where
  pub on_data_begin : D → ℕ → D × ℕ
  pub on_data_payload : D → Bytes → D × ℕ
  pub on_data_end : D → D × ℕ
  pub on_control_begin : D → ℕ → D × ℕ
  pub on_control_payload : D → Bytes → D × ℕ
  pub on_control_end : D → D × ℕ

-- What one round of the `while` loop does: go on with the bytes left, or return.
pub data Round (D : Type 0) : Type 0 where
  next : WsParser → D → Bytes → Round D
  stop : Status → WsParser → D → Round D

-- `ws_parser_init`; the fields that it leaves alone keep what they hold.
unfoldable pub ws_parser_init : WsParser → WsParser
ws_parser_init p = record p { state = s_opcode; fragment = false }

abbrev pub mask_at : WsParser → ℕ → ℕ
mask_at p pos =
    if pos == 0
    then p.mask_0
    else if pos == 1
    then p.mask_1
    else if pos == 2
    then p.mask_2
    else p.mask_3

-- `buff[i] ^= parser->mask[parser->mask_pos++]`; the position has two bits.
unfoldable pub unmask : WsParser → ℕ → Bytes → Bytes
unmask p pos [] = []
unmask p pos (b ∷ bs) = bit_xor b (mask_at p pos) ∷ unmask p ((pos + 1) % 4) bs

-- `mask_flag ? S_MASK_0 : S_PAYLOAD`
abbrev pub after_length : WsParser → ParserState
after_length p = if p.mask_flag then s_mask_0 else s_payload

module _ {D : Type 0} (callbacks : Callbacks D) where
  open callbacks use {
    on_data_begin, on_data_payload, on_data_end, on_control_begin, on_control_payload,
    on_control_end,
  }

  -- `int rc = callback(...); if (rc) return rc;`
  abbrev pub after_callback : D × ℕ → WsParser → (D → Round D) → Round D
  after_callback (d, rc) p go = if not (rc == 0) then stop (callback_rc rc) p d else go d

  -- `case S_OPCODE`
  unfoldable pub on_opcode : WsParser → D → ℕ → Bytes → Round D
  on_opcode p d cur rest =
      let opcode = cur % 16 in
      let p' = record p { fin = (cur / 128) % 2 == 1 } in
      if not ((cur / 16) % 8 == 0)
      then stop ws_reserved_bits_set p d
      else if opcode == 0
      then if not p.fragment
        then stop ws_invalid_continuation p' d
        else next (record p' { control = false; state = s_length }) d rest
      else if (opcode / 8) % 2 == 1
      then if not (opcode == ws_frame_ping)
          && not (opcode == ws_frame_pong)
          && not (opcode == ws_frame_close)
        then stop ws_invalid_opcode p' d
        else if not p'.fin
        then stop ws_fragmented_control p' d
        else after_callback (on_control_begin d opcode) (record p' { control = true })
            (λ d'. next (record p' { control = true; state = s_length }) d' rest)
      else if not (opcode == ws_frame_text) && not (opcode == ws_frame_binary)
      then stop ws_invalid_opcode p' d
      else after_callback (on_data_begin d opcode)
          (record p' { control = false; fragment = not p'.fin })
          (λ d'.
            next (record p' { control = false; fragment = not p'.fin; state = s_length }) d' rest)

  -- `end_of_payload`
  unfoldable pub end_of_payload : WsParser → D → Bytes → Round D
  end_of_payload p d rest =
      if p.control
      then after_callback (on_control_end d) p (λ d'. next (record p { state = s_opcode }) d' rest)
      else if p.fin
      then after_callback (on_data_end d) p (λ d'. next (record p { state = s_opcode }) d' rest)
      else next (record p { state = s_opcode }) d rest

  -- The end of `case S_LENGTH` and of `case S_MASK_3`: is there a payload at all?
  abbrev pub to_payload : WsParser → D → Bytes → Round D
  to_payload p d rest = if p.bytes_remaining == 0 then end_of_payload p d rest else next p d rest

  -- `case S_LENGTH`
  unfoldable pub on_length : WsParser → D → ℕ → Bytes → Round D
  unfolding end_of_payload
  on_length p d cur rest =
      let len = cur % 128 in
      let p' = record p { mask_flag = (cur / 128) % 2 == 1; mask_pos = 0 } in
      let short = record p' { bytes_remaining = len; state = after_length p' } in
      if p.control
      then if ltb 125 len
        then stop ws_control_too_long p' d
        else if p'.mask_flag
        then next short d rest
        else to_payload short d rest
      else if ltb len 126
      then if p'.mask_flag then next short d rest else to_payload short d rest
      else if len == 126
      then next (record p' { state = s_length_16_0 }) d rest
      else next (record p' { state = s_length_64_0 }) d rest

  -- The first byte of an extended length, `bytes_remaining = cur_byte << shift`.
  abbrev pub length_first : ℕ → ParserState → WsParser → D → ℕ → Bytes → Round D
  length_first place s p d cur rest =
      next (record p { bytes_remaining = cur * place; state = s }) d rest

  -- A further byte, `bytes_remaining |= cur_byte << shift`.
  abbrev pub length_more : ℕ → ParserState → WsParser → D → ℕ → Bytes → Round D
  length_more place s p d cur rest =
      next (record p { bytes_remaining = p.bytes_remaining + cur * place; state = s }) d rest

  -- The last byte, with the least length that may be written in this many bytes.
  abbrev pub length_last : ℕ → WsParser → D → ℕ → Bytes → Round D
  length_last least p d cur rest =
      let p' = record p { bytes_remaining = p.bytes_remaining + cur; state = after_length p } in
      if ltb p'.bytes_remaining least then stop ws_non_canonical_length p' d else next p' d rest

  -- `case S_LENGTH_16_0` and `case S_LENGTH_16_1`
  unfoldable pub on_length_16_0 : WsParser → D → ℕ → Bytes → Round D
  on_length_16_0 = length_first (2 ^ 8) s_length_16_1

  unfoldable pub on_length_16_1 : WsParser → D → ℕ → Bytes → Round D
  on_length_16_1 = length_last 126

  -- `case S_LENGTH_64_0` to `case S_LENGTH_64_7`
  unfoldable pub on_length_64 : ParserState → WsParser → D → ℕ → Bytes → Round D
  on_length_64 s_length_64_0 = length_first (2 ^ 56) s_length_64_1
  on_length_64 s_length_64_1 = length_more (2 ^ 48) s_length_64_2
  on_length_64 s_length_64_2 = length_more (2 ^ 40) s_length_64_3
  on_length_64 s_length_64_3 = length_more (2 ^ 32) s_length_64_4
  on_length_64 s_length_64_4 = length_more (2 ^ 24) s_length_64_5
  on_length_64 s_length_64_5 = length_more (2 ^ 16) s_length_64_6
  on_length_64 s_length_64_6 = length_more (2 ^ 8) s_length_64_7
  on_length_64 _ = length_last 65536

  -- `case S_MASK_0` to `case S_MASK_3`
  unfoldable pub on_mask : ParserState → WsParser → D → ℕ → Bytes → Round D
  unfolding end_of_payload
  on_mask s_mask_0 p d cur rest = next (record p { mask_0 = cur; state = s_mask_1 }) d rest
  on_mask s_mask_1 p d cur rest = next (record p { mask_1 = cur; state = s_mask_2 }) d rest
  on_mask s_mask_2 p d cur rest = next (record p { mask_2 = cur; state = s_mask_3 }) d rest
  on_mask _ p d cur rest = to_payload (record p { mask_3 = cur; state = s_payload }) d rest

  -- `case S_PAYLOAD` with the chunk that it takes, `buff[0 .. chunk_length)`.
  unfoldable pub on_chunk : WsParser → D → Bytes → Bytes → Round D
  unfolding end_of_payload unmask
  on_chunk p d chunk rest =
      let text = if p.mask_flag then unmask p p.mask_pos chunk else chunk in
      let pos = if p.mask_flag then (p.mask_pos + length chunk) % 4 else p.mask_pos in
      after_callback (if p.control then on_control_payload d text else on_data_payload d text)
        (record p { mask_pos = pos })
        (λ d'.
          to_payload
            (record p { mask_pos = pos; bytes_remaining = p.bytes_remaining - length chunk }) d'
            rest)

  -- `case S_PAYLOAD`
  unfoldable pub on_payload : WsParser → D → Bytes → Round D
  unfolding on_chunk
  on_payload p d buff =
      let len = length buff in
      let chunk_length = if ltb p.bytes_remaining len then p.bytes_remaining else len in
      on_chunk p d (take chunk_length buff) (drop chunk_length buff)

  -- The `switch`, with `buff` the bytes `cur` and `rest`.
  unfoldable pub on_state : ParserState → WsParser → D → ℕ → Bytes → Round D
  unfolding on_opcode on_length on_length_16_0 on_length_16_1 on_length_64 on_mask on_payload
  on_state s_opcode p d cur rest = on_opcode p d cur rest
  on_state s_length p d cur rest = on_length p d cur rest
  on_state s_length_16_0 p d cur rest = on_length_16_0 p d cur rest
  on_state s_length_16_1 p d cur rest = on_length_16_1 p d cur rest
  on_state s_length_64_0 p d cur rest = on_length_64 s_length_64_0 p d cur rest
  on_state s_length_64_1 p d cur rest = on_length_64 s_length_64_1 p d cur rest
  on_state s_length_64_2 p d cur rest = on_length_64 s_length_64_2 p d cur rest
  on_state s_length_64_3 p d cur rest = on_length_64 s_length_64_3 p d cur rest
  on_state s_length_64_4 p d cur rest = on_length_64 s_length_64_4 p d cur rest
  on_state s_length_64_5 p d cur rest = on_length_64 s_length_64_5 p d cur rest
  on_state s_length_64_6 p d cur rest = on_length_64 s_length_64_6 p d cur rest
  on_state s_length_64_7 p d cur rest = on_length_64 s_length_64_7 p d cur rest
  on_state s_mask_0 p d cur rest = on_mask s_mask_0 p d cur rest
  on_state s_mask_1 p d cur rest = on_mask s_mask_1 p d cur rest
  on_state s_mask_2 p d cur rest = on_mask s_mask_2 p d cur rest
  on_state s_mask_3 p d cur rest = on_mask s_mask_3 p d cur rest
  on_state s_payload p d cur rest = on_payload p d (cur ∷ rest)

  -- `while (len)`, on fuel; `none` means that the fuel ran out.
  unfoldable pub execute_from : ℕ → WsParser → D → Bytes → Option (Status × WsParser × D)
  unfolding on_state
  execute_from zero p d buff = none
  execute_from (suc fuel) p d [] = some (ws_ok, p, d)
  execute_from (suc fuel) p d (cur ∷ rest) = elim (on_state p.state p d cur rest) [
    | next p' d' left ↦ execute_from fuel p' d' left
    | stop s p' d' ↦ some (s, p', d')
  ]

  -- `ws_parser_execute`. Each round takes a byte at least, or leaves the payload: two rounds for a
  -- byte and one more are enough.
  unfoldable pub ws_parser_execute : WsParser → D → Bytes → Option (Status × WsParser × D)
  unfolding execute_from
  ws_parser_execute p d buff = execute_from (2 * length buff + 2) p d buff
