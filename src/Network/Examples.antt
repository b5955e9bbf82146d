-- ===== src/Network/Examples.antt =====
-- The theorems on codec.rs, topics.rs and discovery.rs at concrete inputs.
use presidium.Base.{◌≡◌, ◌≤◌, ◌<◌, ◌⊎◌, refl, ok, err, some, length, ◌>>=◌, List, [], ◌∷◌, ◌++◌}
use presidium.Crypto.Constants.{Bytes}
use presidium.Network.Messages.{NetworkEnvelope, NetworkResponse}
use presidium.Network.Codec.{max_frame_size, invalid_data}
use presidium.Network.Codec.Requests.{
  NetworkRequest, Message, MessageLaws, read_request, write_request, read_response, write_response,
  read_request-write_request,
}
use presidium.Storage.Samples.{Format, number, bytes, pair, as_record, option}
use presidium.Network.Topics.{Hex, group, group_topic, topic_of, topic_for, topic_of_injective}
use presidium.Network.Discovery.{Protocol, p2p, transport, Multiaddrs}

abbrev envelope_format : Format NetworkEnvelope
envelope_format =
    as_record
      (pair number (
        pair bytes
          (pair bytes (pair number (pair bytes (pair bytes (pair number (pair bytes bytes))))))))
      (λ (k, (c, (d, (t, (p, (m, (v, (n, s)))))))). record {
        kind = k;
        conversation_id = c;
        sender_device_id = d;
        timestamp = t;
        encrypted_payload = p;
        mac = m;
        protocol_version = v;
        nonce = n;
        signature = s;
      })
      (λ e. (
        e.kind,
        (
          e.conversation_id,
          (
            e.sender_device_id,
            (
              e.timestamp,
              (e.encrypted_payload, (e.mac, (e.protocol_version, (e.nonce, e.signature)))),
            ),
          ),
        ),
      ))
      (λ e. refl)

abbrev request_format : Format NetworkRequest
request_format =
    as_record (option envelope_format) (λ e. record { envelope = e }) (λ r. r.envelope) (λ r. refl)

abbrev response_format : Format NetworkResponse
response_format =
    as_record (pair number bytes) (λ (s, a). record { status = s; ack_id = a })
      (λ r. (r.status, r.ack_id)) (λ r. refl)

module _ {M : Type 0} (f : Format M) where
  abbrev message_of : Message M
  message_of = record {
    encode_to_vec = λ m. f.write m [];
    decode = λ input. f.parse input >>= λ first. ok first.0;
  }

  message_of-MessageLaws : MessageLaws message_of
  message_of-MessageLaws = record { decode_encode = λ m. rw (f.parse_write m []) refl }

instance abbrev requests : Message NetworkRequest
requests = message_of request_format

instance abbrev responses : Message NetworkResponse
responses = message_of response_format

abbrev acknowledged : NetworkRequest
acknowledged = record {
  envelope = some (record {
    kind = 1;
    conversation_id = 97 ∷ [];
    sender_device_id = 1 ∷ [];
    timestamp = 1700;
    encrypted_payload = 7 ∷ 8 ∷ [];
    mac = 15 ∷ [];
    protocol_version = 1;
    nonce = 9 ∷ [];
    signature = 5 ∷ [];
  });
}

abbrev acknowledgement : NetworkResponse
acknowledgement = record { status = 1; ack_id = 97 ∷ [] }

read_request-write_request_example :
    ((length (requests.encode_to_vec acknowledged) ≤ max_frame_size
        × ((frame : Bytes) × (write_request acknowledged ≡ ok frame)
            × (read_request (frame ++ 3 ∷ []) ≡ ok (acknowledged, 3 ∷ []))))
      ⊎ (max_frame_size < length (requests.encode_to_vec acknowledged)
          × (write_request acknowledged ≡ err (invalid_data "frame exceeds size limit"))))
    × ((length (responses.encode_to_vec acknowledgement) ≤ max_frame_size
          × ((frame : Bytes) × (write_response acknowledgement ≡ ok frame)
              × (read_response (frame ++ 3 ∷ []) ≡ ok (acknowledgement, 3 ∷ []))))
        ⊎ (max_frame_size < length (responses.encode_to_vec acknowledgement)
            × (write_response acknowledgement ≡ err (invalid_data "frame exceeds size limit"))))
read_request-write_request_example =
    read_request-write_request (message_of-MessageLaws request_format)
      (message_of-MessageLaws response_format) acknowledged acknowledgement (3 ∷ [])

instance abbrev hex : Hex
hex = record { hex_encode = λ bytes. bytes }

topic_of_injective_example : (group ≡ group) × (◌≡◌ {A = Bytes} (1 ∷ []) (1 ∷ []))
unfolding topic_of group_topic topic_for
topic_of_injective_example =
    topic_of_injective (record { injective = λ a b e. e }) group group (1 ∷ []) (1 ∷ []) _ refl refl

instance abbrev addresses : Multiaddrs (List Protocol)
addresses = record {
  iter = λ addr. addr;
  empty = [];
  push = λ addr part. addr ++ part ∷ [];
  show = λ addr. "address";
}

abbrev bootstrap : List Protocol
bootstrap = transport 4 ∷ transport 6 ∷ p2p 99 ∷ []
