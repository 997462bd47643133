-- ===== src/Codec.antt =====
-- Frames of the wire (common/codec.py) and the loop that reads them (common/connection.py,
-- `_read_loop`). Bytes are numbers; writing and parsing messages is the protobuf library's, a
-- parameter.
pub mod Stream
use nautilus_ctrader_adapter.Prelude.{
  ℕ, zero, suc, ◌+◌, ◌*◌, ◌/◌, ◌%◌, Bool, true, false, Option, none, some, List, [], ◌∷◌, ◌++◌, ltb,
  nat_eq, if◌then◌else◌, length,
}
use nautilus_ctrader_adapter.Prelude.Eq.{Text}

abbrev pub Bytes : Type 0
Bytes = List ℕ

-- `MAX_FRAME_BYTES`
abbrev pub max_frame_bytes : ℕ
max_frame_bytes = 15000000

-- What goes wrong: a message without a required field, a length that four bytes do not hold, a
-- prefix of another size, a frame too long, an envelope that does not parse.
pub data Fault : Type 0 where
  not_encoded length_overflow bad_prefix frame_too_long undecodable : Fault

pub data Result {ℓ} (A : Type ℓ) : Type ℓ where
  ok : A → Result A
  err : Fault → Result A

-- `struct.pack("!I", n)`
unfoldable pub pack_length : ℕ → Result Bytes
pack_length n =
    if ltb n 4294967296
    then ok (n / 16777216 ∷ n / 65536 % 256 ∷ n / 256 % 256 ∷ n % 256 ∷ [])
    else err length_overflow

-- `decode_length`
unfoldable pub decode_length : Bytes → Result ℕ
decode_length (a ∷ b ∷ c ∷ d ∷ []) =
    let length : ℕ = ((a * 256 + b) * 256 + c) * 256 + d in
    if ltb max_frame_bytes length then err frame_too_long else ok length
decode_length prefix = err bad_prefix

-- `readexactly`, of what the peer still sends before it closes.
abbrev pub read_exactly : ℕ → Bytes → Option (Bytes × Bytes)
read_exactly zero bytes = some ([], bytes)
read_exactly (suc n) [] = none
read_exactly (suc n) (b ∷ bytes) = elim (read_exactly n bytes) [
  | none ↦ none
  | some read ↦ some (b ∷ read.0, read.1)
]

-- How reading ends: the peer closes, or a fault drops the connection.
pub data Ended : Type 0 where
  closed_by_peer : Ended
  dropped : Fault → Ended

module _ {Payload : Type 0} (payload_type : Payload → ℕ) (serialize : Payload → Option Bytes)
    (serialize_envelope : ℕ → Bytes → Option Text → Bytes) where
  -- `encode_envelope`
  unfoldable pub encode_envelope : Payload → Option Text → Result Bytes
  encode_envelope payload client_msg_id = elim (serialize payload) [
    | none ↦ err not_encoded
    | some body ↦ ok (serialize_envelope (payload_type payload) body client_msg_id)
  ]

  -- `encode_frame`
  unfoldable pub encode_frame : Payload → Option Text → Result Bytes
  unfolding encode_envelope
  encode_frame payload client_msg_id = elim (encode_envelope payload client_msg_id) [
    | err fault ↦ err fault
    | ok body ↦ elim (pack_length (length body)) [
      | err fault ↦ err fault
      | ok prefix ↦ ok (prefix ++ body)
    ]
  ]

module _ {Envelope : Type 0} (parse_envelope : Bytes → Option Envelope) where
  -- `decode_envelope`; an envelope without its payload type does not parse.
  abbrev pub decode_envelope : Bytes → Result Envelope
  decode_envelope body = elim (parse_envelope body) [
    | none ↦ err undecodable
    | some envelope ↦ ok envelope
  ]

  -- `_read_loop`: the envelopes that are dispatched, and how reading ends. Each round takes a
  -- prefix off the bytes, so as many rounds as there are bytes are enough.
  unfoldable pub read_loop : ℕ → Bytes → List Envelope × Ended
  read_loop zero bytes = ([], closed_by_peer)
  read_loop (suc fuel) bytes = elim (read_exactly 4 bytes) [
    | none ↦ ([], closed_by_peer)
    | some first ↦ elim (decode_length first.0) [
      | err fault ↦ ([], dropped fault)
      | ok n ↦ elim (read_exactly n first.1) [
        | none ↦ ([], closed_by_peer)
        | some second ↦
            let later = read_loop fuel second.1 in
            elim (decode_envelope second.0) [
              | err fault ↦ ([], dropped fault)
              | ok envelope ↦ (envelope ∷ later.0, later.1)
            ]
      ]
    ]
  ]

  -- What is read of the bytes that a peer sends before it closes.
  unfoldable pub read_all : Bytes → List Envelope × Ended
  unfolding read_loop
  read_all bytes = read_loop (length bytes) bytes

-- `ProtoOAErrorRes`; an unset description reads as the empty text.
pub record OaErrorRes : Type 0 where
  pub error_code : Text
  pub description : Text
  pub maintenance_end : Option ℕ
  pub retry_after : Option ℕ

-- `ProtoErrorRes`
pub record ErrorRes : Type 0 where
  pub error_code : Text
  pub description : Text
  pub maintenance_end : Option ℕ

-- A payload, as far as it is an error.
pub data Received : Type 0 where
  oa_error : OaErrorRes → Received
  common_error : ErrorRes → Received
  no_error : Received

-- `CTraderRequestError`
pub record RequestError : Type 0 where
  pub error_code : Text
  pub description : Option Text
  pub maintenance_end_secs : Option ℕ
  pub retry_after_secs : Option ℕ

-- `description or None`
abbrev pub stated_text : Text → Option Text
stated_text [] = none
stated_text (c ∷ text) = some (c ∷ text)

abbrev pub whole_secs : Option ℕ → Option ℕ
whole_secs none = none
whole_secs (some ms) = some (ms / 1000)

unfoldable pub as_request_error : Received → Option RequestError
as_request_error (oa_error payload) = some (record {
  error_code = payload.error_code;
  description = stated_text payload.description;
  maintenance_end_secs = payload.maintenance_end;
  retry_after_secs = payload.retry_after;
})
as_request_error (common_error payload) = some (record {
  error_code = payload.error_code;
  description = stated_text payload.description;
  maintenance_end_secs = whole_secs payload.maintenance_end;
  retry_after_secs = none;
})
as_request_error no_error = none
