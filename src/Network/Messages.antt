-- ===== src/Network/Messages.antt =====
-- The structs that prost generates for the messages of presidium-proto's presidium.proto, and their
-- encoding, which is a parameter.
use presidium.Base.{ℕ, Option, some, ◌≡◌}
use presidium.Crypto.Constants.{Bytes}

-- The struct that prost generates for `NetworkEnvelope` of presidium.proto.
pub record NetworkEnvelope : Type 0 where
  pub kind : ℕ
  pub conversation_id : Bytes
  pub sender_device_id : Bytes
  pub timestamp : ℕ
  pub encrypted_payload : Bytes
  pub mac : Bytes
  pub protocol_version : ℕ
  pub nonce : Bytes
  pub signature : Bytes

pub record NetworkResponse : Type 0 where
  pub status : ℕ
  pub ack_id : Bytes

-- `Status::Ok`.
abbrev pub status_ok : ℕ
status_ok = 1

-- `prost::Message` of `NetworkEnvelope`.
pub record Prost : Type 0 where
  pub encode_to_vec : NetworkEnvelope → Bytes
  pub decode : Bytes → Option NetworkEnvelope

-- Documented behaviour: an encoded message is decoded to itself.
pub record ProstLaws (prost : Prost) : Type 0 where
  pub decode_encode :
      (envelope : NetworkEnvelope) → prost.decode (prost.encode_to_vec envelope) ≡ some envelope
