-- ===== src/Network/Codec/Requests.antt =====
-- presidium-network/src/codec.rs: `EnvelopeCodec`, which frames the requests and responses of direct messages.
use presidium.Base.{
  ◌≡◌, ◌≤◌, ◌<◌, refl, String, ◌++◌, Option, Result, ok, err, ◌>>=◌, length, map_err, ltb, arith,
  Bool-cases, inl, inr, ◌⊎◌,
}
use Prim.Native.String.{◌++◌ as ◌⧺◌}
use presidium.Crypto.Constants.{Bytes}
use presidium.Network.Messages.{NetworkEnvelope, NetworkResponse}
use presidium.Network.Codec.{
  IoError, invalid_data, max_frame_size, read_frame, write_frame, read_frame-write_frame,
}

pub record NetworkRequest : Type 0 where
  pub envelope : Option NetworkEnvelope

-- `prost::Message` of a type of messages; the error is the text of a `DecodeError`.
pub record Message (M : Type 0) : Type 0 where
  pub encode_to_vec : M → Bytes
  pub decode : Bytes → Result String M

-- Documented behaviour: an encoded message is decoded to itself.
pub record MessageLaws {M : Type 0} (codec : Message M) : Type 0 where
  pub decode_encode : (m : M) → codec.decode (codec.encode_to_vec m) ≡ ok m

-- `decode` with its error as an `io::Error`.
unfoldable decoded : {M : Type 0} → Result String M → String → Result IoError M
decoded r text = map_err (λ e. invalid_data (text ⧺ e)) r

module _ ⦃codec : Message NetworkRequest⦄ where
  unfoldable pub read_request : Bytes → Result IoError (NetworkRequest × Bytes)
  unfolding decoded
  read_request io = do
    (bytes, rest) ← read_frame io
    request ← decoded (codec.decode bytes) "bad request: "
    ok (request, rest)

  unfoldable pub write_request : NetworkRequest → Result IoError Bytes
  write_request req = write_frame (codec.encode_to_vec req)

module _ ⦃codec : Message NetworkResponse⦄ where
  unfoldable pub read_response : Bytes → Result IoError (NetworkResponse × Bytes)
  unfolding decoded
  read_response io = do
    (bytes, rest) ← read_frame io
    response ← decoded (codec.decode bytes) "bad response: "
    ok (response, rest)

  unfoldable pub write_response : NetworkResponse → Result IoError Bytes
  write_response res = write_frame (codec.encode_to_vec res)

fits : (bytes : Bytes) → (length bytes ≤ max_frame_size) ⊎ (max_frame_size < length bytes)
fits bytes = elim (Bool-cases (ltb max_frame_size (length bytes))) [
  | inl e ↦ inr (ground (arith, e))
  | inr e ↦ inl (ground (arith, e))
]

write_frame_refused :
    (bytes : Bytes)
    → max_frame_size < length bytes
    → write_frame bytes ≡ err (invalid_data "frame exceeds size limit")
unfolding write_frame
write_frame_refused bytes lt = ground (arith, lt)

-- A request of at most 16 MiB is written, and read back from a stream that goes on after it, what comes
-- after it being left; so is a response. A larger one of either is refused by the writer.
pub read_request-write_request :
    ⦃requests : Message NetworkRequest⦄ ⦃responses : Message NetworkResponse⦄
    (laws : MessageLaws requests) (response_laws : MessageLaws responses) (req : NetworkRequest)
    (res : NetworkResponse) (rest : Bytes)
    → ((length (requests.encode_to_vec req) ≤ max_frame_size
          × ((frame : Bytes) × (write_request req ≡ ok frame)
              × (read_request (frame ++ rest) ≡ ok (req, rest))))
        ⊎ (max_frame_size < length (requests.encode_to_vec req)
            × (write_request req ≡ err (invalid_data "frame exceeds size limit"))))
      × ((length (responses.encode_to_vec res) ≤ max_frame_size
            × ((frame : Bytes) × (write_response res ≡ ok frame)
                × (read_response (frame ++ rest) ≡ ok (res, rest))))
          ⊎ (max_frame_size < length (responses.encode_to_vec res)
              × (write_response res ≡ err (invalid_data "frame exceeds size limit"))))
unfolding read_request write_request read_response write_response decoded
read_request-write_request ⦃requests⦄ ⦃responses⦄ laws response_laws req res rest = (
  elim (fits (requests.encode_to_vec req)) [
    | inl le ↦
        let (frame, written, read) = read_frame-write_frame (requests.encode_to_vec req) rest le in
        inl (le, (frame, written, rw (read, laws.decode_encode req) refl))
    | inr lt ↦ inr (lt, write_frame_refused (requests.encode_to_vec req) lt)
  ],
  elim (fits (responses.encode_to_vec res)) [
    | inl le ↦
        let (frame, written, read) = read_frame-write_frame (responses.encode_to_vec res) rest le in
        inl (le, (frame, written, rw (read, response_laws.decode_encode res) refl))
    | inr lt ↦ inr (lt, write_frame_refused (responses.encode_to_vec res) lt)
  ],
)
