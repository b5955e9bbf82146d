-- ===== src/Crypto/Serialization/Examples.antt =====
-- The theorems on serialization.rs at a header and at a bad input.
use presidium.Base.{ℕ, ◌≡◌, ◌≢◌, ◌≤◌, ◌<◌, ◌⊎◌, err, [], ◌∷◌, length, take}
use presidium.Crypto.Constants.{Bytes}
use presidium.Crypto.Error.{from_json, invalid_message, unsupported_version}
use presidium.Crypto.Ratchet.{RatchetMessageHeader}
use presidium.Crypto.Samples.Texts.{header_json}
use presidium.Crypto.Serialization.{magic, frame_of, deserialize, deserialize_branches}

abbrev header : RatchetMessageHeader
header = record { dh_public_key = 9 ∷ []; message_number = 4; previous_message_number = 0 }

-- Version 2.
abbrev newer : Bytes
newer = 80 ∷ 83 ∷ 68 ∷ 77 ∷ 2 ∷ 9 ∷ []

deserialize_branches_example :
    ((length newer < 5)
      × (deserialize ⦃json = header_json⦄ newer ≡ err (invalid_message "Data too short")))
    ⊎ ((5 ≤ length newer)
        × (take 4 newer ≢ magic)
        × (deserialize ⦃json = header_json⦄ newer ≡ err (invalid_message "Invalid magic bytes")))
    ⊎ ((version : ℕ) × (payload : Bytes) × (newer ≡ frame_of magic version payload)
        × (version ≢ 1)
        × (deserialize ⦃json = header_json⦄ newer ≡ err (unsupported_version version)))
    ⊎ ((payload : Bytes) × (newer ≡ frame_of magic 1 payload)
        × (deserialize ⦃json = header_json⦄ newer ≡ from_json (header_json.from_slice payload)))
deserialize_branches_example = deserialize_branches newer
