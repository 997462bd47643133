-- ===== src/Codec/Stream.antt =====
-- What is written is what is read (common/codec.py and common/connection.py).
use nautilus_ctrader_adapter.Prelude.{
  ℕ, zero, suc, ◌+◌, ◌*◌, ◌/◌, ◌%◌, ◌<◌, ◌≤◌, ◌≡◌, refl, ap, subst, ◌∙◌, Option, none, some, List,
  [], ◌∷◌, ◌++◌, arith, length, length-append,
}
use nautilus_ctrader_adapter.Prelude.Eq.{Text}
use nautilus_ctrader_adapter.Codec.{
  Bytes, ok, pack_length, decode_length, read_exactly, encode_envelope, encode_frame, Ended,
  closed_by_peer, read_loop, read_all,
}

-- The four bytes of a length.
abbrev packed : ℕ → Bytes
packed n = n / 16777216 ∷ n / 65536 % 256 ∷ n / 256 % 256 ∷ n % 256 ∷ []

pack_length-packed : (n : ℕ) → n ≤ 15000000 → pack_length n ≡ ok (packed n)
unfolding pack_length
pack_length-packed n small = ground (arith, small)

decode_length-packed : (n : ℕ) → n ≤ 15000000 → decode_length (packed n) ≡ ok n
unfolding decode_length
decode_length-packed n small =
    let same : ((n / 16777216 * 256 + n / 65536 % 256) * 256 + n / 256 % 256) * 256 + n % 256 ≡ n =
      omega (arith, small) in
    ground (arith, small, same)

read_exactly-append : (a b : Bytes) → read_exactly (length a) (a ++ b) ≡ some (a, b)
read_exactly-append [] b = refl
read_exactly-append (x ∷ a) b = ground (arith, read_exactly-append a b)

read_exactly-short : (n : ℕ) (bytes : Bytes) → length bytes < n → read_exactly n bytes ≡ none
read_exactly-short zero bytes h = absurd (omega (arith, h))
read_exactly-short (suc n) [] h = refl
read_exactly-short (suc n) (b ∷ bytes) h = ground (arith, read_exactly-short n bytes, h)

module _ {Envelope : Type 0} (parse_envelope : Bytes → Option Envelope) where
  read_loop-frame :
      (fuel : ℕ) (body rest : Bytes) (envelope : Envelope)
      → length body ≤ 15000000
      → parse_envelope body ≡ some envelope
      → read_loop parse_envelope (suc fuel) (packed (length body) ++ body ++ rest) ≡ (
        envelope ∷ (read_loop parse_envelope fuel rest).0,
        (read_loop parse_envelope fuel rest).1,
      )
  unfolding read_loop
  read_loop-frame fuel body rest envelope small parses =
      ground
        (arith, decode_length-packed (length body) small, read_exactly-append body rest, parses)

module _ {Payload Envelope : Type 0} (payload_type : Payload → ℕ)
    (serialize : Payload → Option Bytes) (serialize_envelope : ℕ → Bytes → Option Text → Bytes)
    (parse_envelope : Bytes → Option Envelope) where
  -- Frames one after another, and the envelopes in them; the peer may close inside a prefix. A
  -- frame's body is within the limit, and the library parses the envelope that it wrote.
  pub data Sent : List Envelope → Bytes → Type 0 where
    closing : (bytes : Bytes) → length bytes < 4 → Sent [] bytes
    sending :
        (payload : Payload) (client_msg_id : Option Text) (body frame rest : Bytes)
        (envelope : Envelope) (envelopes : List Envelope)
        → encode_envelope payload_type serialize serialize_envelope payload client_msg_id ≡ ok body
        → encode_frame payload_type serialize serialize_envelope payload client_msg_id ≡ ok frame
        → length body ≤ 15000000
        → parse_envelope body ≡ some envelope
        → Sent envelopes rest
        → Sent (envelope ∷ envelopes) (frame ++ rest)

  encode_frame-packed :
      (payload : Payload) (client_msg_id : Option Text) (body frame : Bytes)
      → encode_envelope payload_type serialize serialize_envelope payload client_msg_id ≡ ok body
      → encode_frame payload_type serialize serialize_envelope payload client_msg_id ≡ ok frame
      → length body ≤ 15000000
      → packed (length body) ++ body ≡ frame
  unfolding encode_frame
  encode_frame-packed payload client_msg_id body frame b f small =
      ground (arith, b, f, pack_length-packed (length body) small)

  read_loop-Sent :
      (fuel : ℕ) (envelopes : List Envelope) (bytes : Bytes)
      → length bytes ≤ fuel
      → Sent envelopes bytes
      → read_loop parse_envelope fuel bytes ≡ (envelopes, closed_by_peer)
  unfolding read_loop
  read_loop-Sent zero [] bytes l (closing _ short) = refl
  read_loop-Sent (suc fuel) [] bytes l (closing _ short) =
      ground (arith, read_exactly-short 4 bytes short)
  read_loop-Sent zero (_ ∷ _) bytes l
        (sending payload client_msg_id body frame rest envelope envelopes b f small parses later) =
      let whole = encode_frame-packed payload client_msg_id body frame b f small in
      absurd (ground (arith, l, length-append frame rest, ap length whole))
  read_loop-Sent (suc fuel) (_ ∷ _) bytes l
        (sending payload client_msg_id body frame rest envelope envelopes b f small parses later) =
      let whole = encode_frame-packed payload client_msg_id body frame b f small in
      let shorter : length rest ≤ fuel =
        ground (arith, l, length-append frame rest, ap length whole) in
      let ih = read_loop-Sent fuel envelopes rest shorter later in
      let one = read_loop-frame parse_envelope fuel body rest envelope small parses in
      subst
        (λ (w : Bytes).
          read_loop parse_envelope (suc fuel) (w ++ rest) ≡ (envelope ∷ envelopes, closed_by_peer))
        whole (one ∙ ap (λ (r : List Envelope × Ended). (envelope ∷ r.0, r.1)) ih)

  -- Whatever frames are written one after another, with bodies within the limit of a frame, reading
  -- them dispatches just their envelopes, in that order, and ends as the peer closes, also when it
  -- does so within the next frame's prefix. The library must parse the envelopes that it writes.
  pub read_all-Sent :
      (envelopes : List Envelope) (bytes : Bytes)
      → Sent envelopes bytes
      → read_all parse_envelope bytes ≡ (envelopes, closed_by_peer)
  unfolding read_all
  read_all-Sent envelopes bytes sent =
      read_loop-Sent (length bytes) envelopes bytes (omega arith) sent
