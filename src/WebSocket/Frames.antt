-- ===== src/WebSocket/Frames.antt =====
-- The frames of a message as they stand on the wire, and that `sendData` of
-- src/websocket/Response.cpp writes them.
use eventhub.Prelude.{
  ℕ, zero, suc, ◌+◌, ◌*◌, ◌/◌, ◌%◌, ◌≡◌, refl, sym, ap, ap₂, ◌∙◌, List, [], ◌∷◌, ◌++◌, Bool, true,
  false, ◌==◌, if◌then◌else◌, ltb, Bytes, length, take, drop, drop_all, arith, Bool-cases, inl, inr,
}
use eventhub.WebSocket.Types.{text_frame, continuation_frame, frame_code}
use eventhub.WebSocket.Response.{send_fragment, send_chunks, send_data}

-- A frame with the first byte `first`: a length below 126 is one byte, a longer one is 126 and two
-- bytes, the high one first. For 65535 bytes or more the length is not written: 127 is followed by
-- two zeros and four bytes of no meaning.
abbrev pub frame : Bytes → ℕ → Bytes → Bytes
frame junk first payload =
    if ltb (length payload) 126
    then first ∷ length payload ∷ payload
    else if ltb (length payload) 65535
    then first ∷ 126 ∷ (length payload / 256) ∷ (length payload % 256) ∷ payload
    else first ∷ 127 ∷ 0 ∷ 0 ∷ (junk ++ payload)

-- A text in so many fragments of 32768 bytes, the last of which takes the rest and has the bit 128 in
-- its first byte; the fragments behind the first have the code 0.
abbrev pub fragments : Bytes → ℕ → Bytes → ℕ → List Bytes
fragments junk code text zero = []
fragments junk code text (suc zero) = frame junk (128 + code) text ∷ []
fragments junk code text (suc (suc left)) =
    frame junk code (take 32768 text) ∷ fragments junk 0 (drop 32768 text) (suc left)

-- A text message: one frame, or as many fragments as there are whole 32768 bytes.
abbrev pub text_message : Bytes → Bytes → List Bytes
text_message junk text =
    if ltb (length text) 32768
    then frame junk 129 text ∷ []
    else fragments junk 1 text (length text / 32768)

drop-drop : (m n : ℕ) (s : Bytes) → drop n (drop m s) ≡ drop (m + n) s
drop-drop zero n s = ap (λ k. drop k s) (omega arith)
drop-drop (suc m) zero [] = sym (drop_all (suc m + 0) [] (omega arith))
drop-drop (suc m) (suc n) [] = sym (drop_all (suc m + suc n) [] (omega arith))
drop-drop (suc m) n (x ∷ s) =
    drop-drop m n s ∙ ap (λ k. drop k (x ∷ s)) (let e : suc (m + n) ≡ suc m + n = omega arith in e)

abbrev first_code : ℕ → ℕ
first_code i = if i == 0 then 1 else 0

code_of_fragment :
    (i : ℕ) → frame_code (if i == 0 then text_frame else continuation_frame) % 16 ≡ first_code i
unfolding frame_code
code_of_fragment i = elim (Bool-cases (i == 0)) [ inl e ↦ rw e refl | inr e ↦ rw e refl ]

module _ (junk chunk : Bytes) (i : ℕ) where
  send_fragment-last :
      send_fragment junk chunk (frame_code (if i == 0 then text_frame else continuation_frame)) true
      ≡ frame junk (128 + first_code i) chunk
  unfolding send_fragment
  send_fragment-last = ap (λ k. frame junk (128 + k) chunk) (code_of_fragment i)

  send_fragment-more :
      send_fragment junk chunk
        (frame_code (if i == 0 then text_frame else continuation_frame))
        false
      ≡ frame junk (first_code i) chunk
  unfolding send_fragment
  send_fragment-more =
      ap (λ k. frame junk (0 + k) chunk) (code_of_fragment i)
      ∙ ap (λ k. frame junk k chunk) (omega arith)

later : (i : ℕ) → first_code (i + 1) ≡ 0
later i = ground arith

step : (i : ℕ) → (i + 1) * 32768 ≡ i * 32768 + 32768
step i = omega arith

more :
    (junk text : Bytes) (i left : ℕ) (rest : List Bytes) (b : Bool)
    → b ≡ false
    → rest ≡ fragments junk 0 (drop 32768 (drop (i * 32768) text)) (suc left)
    → (send_fragment junk
          (if b then drop (i * 32768) text else take 32768 (drop (i * 32768) text))
          (frame_code (if i == 0 then text_frame else continuation_frame))
          b
        ∷ rest)
      ≡ fragments junk (first_code i) (drop (i * 32768) text) (suc (suc left))
more junk text i left rest true e k = absurd (ground arith)
more junk text i left rest false e k =
    ap₂ (λ f fs. f ∷ fs) (send_fragment-more junk (take 32768 (drop (i * 32768) text)) i) k

send_chunks-fragments :
    (junk text : Bytes) (i left : ℕ)
    → send_chunks junk text text_frame i left
      ≡ fragments junk (first_code i) (drop (i * 32768) text) left
unfolding send_chunks
send_chunks-fragments junk text i zero = refl
send_chunks-fragments junk text i (suc zero) =
    ap (λ f. f ∷ []) (send_fragment-last junk (drop (i * 32768) text) i)
send_chunks-fragments junk text i (suc (suc left)) =
    more junk text i left (send_chunks junk text text_frame (i + 1) (suc left)) (suc left == 0)
      (ground arith)
      (send_chunks-fragments junk text (i + 1) (suc left)
        ∙ ap₂ (λ code s. fragments junk code s (suc left)) (later i)
            (ap (λ k. drop k text) (step i) ∙ sym (drop-drop (i * 32768) 32768 text)))

-- What `sendData` writes for a text.
pub send_data-text_message :
    (junk text : Bytes) → send_data junk text text_frame ≡ text_message junk text
unfolding send_data
send_data-text_message junk text =
    ap₂ {A = Bytes} {B = List Bytes} (λ x y. if ltb (length text) 32768 then x ∷ [] else y)
      (send_fragment-last junk text 0) (send_chunks-fragments junk text 0 (length text / 32768))
