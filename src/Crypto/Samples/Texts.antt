-- ===== src/Crypto/Samples/Texts.antt =====
-- Small encodings in place of JSON.
use presidium.Base.{
  ◌≡◌, refl, ok, err, String, [], ◌∷◌, ◌++◌, Result, ◌>>=◌, length, take, drop, take-append,
  drop-append, arith,
}
use presidium.Crypto.Constants.{Bytes}
use presidium.Crypto.Primitives.{Json, JsonLaws}
use presidium.Crypto.Ratchet.{RatchetMessageHeader}
use presidium.Crypto.Identity.{HybridSignature}
use presidium.Crypto.CryptoBox.{CryptoBox}
use presidium.Crypto.Keys.{SenderKeyMessage}

-- A header is written as its numbers and its key.
abbrev pub write_header : RatchetMessageHeader → Bytes
write_header h = h.message_number ∷ h.previous_message_number ∷ h.dh_public_key

abbrev pub read_header : Bytes → Result String RatchetMessageHeader
read_header [] = err "end of input"
read_header (n ∷ []) = err "end of input"
read_header (n ∷ m ∷ key) =
    ok (record { dh_public_key = key; message_number = n; previous_message_number = m })

instance abbrev pub header_json : Json RatchetMessageHeader
header_json = record { to_vec = λ h. ok (write_header h); from_slice = read_header }

pub header_json_laws : JsonLaws header_json
header_json_laws = record {
  text = write_header;
  to_vec_text = λ h. refl;
  from_slice_text = λ h. refl;
}

-- A string behind its length.
abbrev pub framed : Bytes → Bytes → Bytes
framed a rest = length a ∷ a ++ rest

abbrev pub read_framed : Bytes → Result String (Bytes × Bytes)
read_framed [] = err "end of input"
read_framed (n ∷ bytes) = ok (take n bytes, drop n bytes)

abbrev read_signature : Bytes → Result String HybridSignature
read_signature bytes =
    read_framed bytes >>= λ parts. ok (record { classical = parts.0; pq = parts.1 })

instance abbrev pub signature_json : Json HybridSignature
signature_json = record {
  to_vec = λ sig. ok (framed sig.classical sig.pq);
  from_slice = read_signature;
}

read_signature_lem : (sig : HybridSignature) → read_signature (framed sig.classical sig.pq) ≡ ok sig
read_signature_lem sig = ground (
  arith,
  take-append (length sig.classical) sig.classical sig.pq refl,
  drop-append (length sig.classical) sig.classical sig.pq refl,
)

pub signature_json_laws : JsonLaws signature_json
signature_json_laws = record {
  text = λ sig. framed sig.classical sig.pq;
  to_vec_text = λ sig. refl;
  from_slice_text = read_signature_lem;
}

abbrev write_box : CryptoBox → Bytes
write_box box = framed box.ephemeral_public (framed box.nonce box.ciphertext)

abbrev read_box : Bytes → Result String CryptoBox
read_box bytes = do
  first ← read_framed bytes
  second ← read_framed first.1
  ok (record { ephemeral_public = first.0; nonce = second.0; ciphertext = second.1 })

read_box_lem : (box : CryptoBox) → read_box (write_box box) ≡ ok box
read_box_lem box =
    let rest : Bytes = framed box.nonce box.ciphertext in
    ground (
      arith,
      take-append (length box.ephemeral_public) box.ephemeral_public rest refl,
      drop-append (length box.ephemeral_public) box.ephemeral_public rest refl,
      take-append (length box.nonce) box.nonce box.ciphertext refl,
      drop-append (length box.nonce) box.nonce box.ciphertext refl,
    )

instance abbrev pub box_json : Json CryptoBox
box_json = record { to_vec = λ box. ok (write_box box); from_slice = read_box }

pub box_json_laws : JsonLaws box_json
box_json_laws = record {
  text = write_box;
  to_vec_text = λ box. refl;
  from_slice_text = read_box_lem;
}

abbrev write_message : SenderKeyMessage → Bytes
write_message m = m.message_index ∷ framed m.group_id (framed m.sender_identity.public m.ciphertext)

abbrev read_message : Bytes → Result String SenderKeyMessage
read_message [] = err "end of input"
read_message (index ∷ bytes) = do
  first ← read_framed bytes
  second ← read_framed first.1
  ok (record {
    group_id = first.0;
    sender_identity = record { public = second.0 };
    message_index = index;
    ciphertext = second.1;
  })

read_message_lem : (m : SenderKeyMessage) → read_message (write_message m) ≡ ok m
read_message_lem m =
    let rest : Bytes = framed m.sender_identity.public m.ciphertext in
    ground (
      arith,
      take-append (length m.group_id) m.group_id rest refl,
      drop-append (length m.group_id) m.group_id rest refl,
      take-append (length m.sender_identity.public) m.sender_identity.public m.ciphertext refl,
      drop-append (length m.sender_identity.public) m.sender_identity.public m.ciphertext refl,
    )

instance abbrev pub message_json : Json SenderKeyMessage
message_json = record { to_vec = λ m. ok (write_message m); from_slice = read_message }

pub message_json-JsonLaws : JsonLaws message_json
message_json-JsonLaws = record {
  text = write_message;
  to_vec_text = λ m. refl;
  from_slice_text = read_message_lem;
}
