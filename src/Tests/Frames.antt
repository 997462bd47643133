-- ===== src/Tests/Frames.antt =====
-- Two messages on the wire, and a prefix that the peer's closing cuts off.
use nautilus_ctrader_adapter.Prelude.{ℕ, ◌≡◌, refl, Option, none, some, [], ◌∷◌, ◌++◌, arith}
use nautilus_ctrader_adapter.Prelude.Eq.{Text}
use nautilus_ctrader_adapter.Codec.{
  Bytes, pack_length, encode_envelope, encode_frame, closed_by_peer, read_all,
}
use nautilus_ctrader_adapter.Codec.Stream.{Sent, closing, sending, read_all-Sent}

-- A payload is its type; an envelope is written as the type alone.
abbrev payload_type : ℕ → ℕ
payload_type payload = payload

abbrev serialize : ℕ → Option Bytes
serialize payload = some []

abbrev serialize_envelope : ℕ → Bytes → Option Text → Bytes
serialize_envelope kind body client_msg_id = kind ∷ body

abbrev parse_envelope : Bytes → Option ℕ
parse_envelope [] = none
parse_envelope (kind ∷ body) = some kind

abbrev wire : Bytes
wire = (0 ∷ 0 ∷ 0 ∷ 1 ∷ 50 ∷ []) ++ (0 ∷ 0 ∷ 0 ∷ 1 ∷ 51 ∷ []) ++ 0 ∷ 0 ∷ []

wire_sent : Sent payload_type serialize serialize_envelope parse_envelope (50 ∷ 51 ∷ []) wire
unfolding encode_envelope encode_frame pack_length
wire_sent =
    sending 50 none (50 ∷ []) (0 ∷ 0 ∷ 0 ∷ 1 ∷ 50 ∷ []) _ 50 (51 ∷ []) refl refl (omega arith) refl
      (sending 51 none (51 ∷ []) (0 ∷ 0 ∷ 0 ∷ 1 ∷ 51 ∷ []) _ 51 [] refl refl (omega arith) refl
        (closing (0 ∷ 0 ∷ []) (omega arith)))

read_all-Sent_example : read_all parse_envelope wire ≡ (50 ∷ 51 ∷ [], closed_by_peer)
read_all-Sent_example =
    read_all-Sent payload_type serialize serialize_envelope parse_envelope (50 ∷ 51 ∷ []) wire
      wire_sent
