-- ===== src/Demo/Group/Examples.antt =====
-- The theorems on group.rs at a concrete publisher and reader.
use presidium.Base.{◌≡◌, refl, ok, some, [], ◌∷◌, arith}
use presidium.Crypto.Samples.{sample, sample_laws, sum}
use presidium.Crypto.Samples.Schemes.{sample_signatures, sample-SignatureLaws}
use presidium.Crypto.Samples.Texts.{
  signature_json, signature_json_laws, message_json, message_json-JsonLaws,
}
use presidium.Crypto.Identity.{IdentityKeyPair, public}
use presidium.Crypto.Keys.{SenderKeys}
use presidium.Demo.Envelopes.{NetworkEnvelope, Hash}
use presidium.Demo.Group.{GroupChat, new_group, publish, group_decrypt}
use presidium.Demo.Group.Delivery.{InStep, group_decrypt-publish}

instance abbrev hash : Hash
hash = record { sha256 = λ bytes. sum bytes ∷ [] }

abbrev identity : IdentityKeyPair
identity = record { classical = 20 ∷ []; pq = record { key = 21 ∷ [] } }

abbrev keys : SenderKeys
keys = record {
  chain_key = 7 ∷ [];
  group_id = [];
  sender_identity = record { public = 20 ∷ [] };
  message_index = 4;
  key_id = 1;
}

abbrev publisher : GroupChat
publisher = record new_group { sender = some keys }

abbrev reader : GroupChat
reader = record new_group { receiver = some keys; peer_identity = some (public identity) }

abbrev together : InStep (public identity) publisher reader
together = record {
  sender = keys;
  receiver = keys;
  sends = refl;
  receives = refl;
  knows = refl;
  same_group = refl;
  same_key = refl;
  same_index = refl;
}

group_decrypt-publish_example :
    (publisher' reader' : GroupChat) × (envelope : NetworkEnvelope) × (publish publisher identity
        (1 ∷ [])
        1700
        (104 ∷ 105 ∷ [])
      ≡ (publisher', ok envelope))
    × (group_decrypt reader envelope ≡ (reader', ok (104 ∷ 105 ∷ [])))
    × (step' : InStep (public identity) publisher' reader') × (step'.sender.message_index ≡ 5)
group_decrypt-publish_example =
    group_decrypt-publish sample_laws sample-SignatureLaws signature_json_laws message_json-JsonLaws
      publisher reader identity (1 ∷ []) (104 ∷ 105 ∷ []) 1700 together (omega arith) (omega arith)
