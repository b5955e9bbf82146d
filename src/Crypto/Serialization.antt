-- ===== src/Crypto/Serialization.antt =====
-- presidium-crypto/src/serialization.rs: the versioned encoding of a value.
mod Examples
use presidium.Base.{
  ℕ, ◌+◌, ◌≡◌, ◌≤◌, ◌<◌, ◌≢◌, refl, true, false, not, Option, none, some, List, [], ◌∷◌, ◌++◌,
  Result, ok, err, ◌>>=◌, length, take, drop, get_or, ltb, ◌==◌, ==_refl, if◌then◌else◌, arith,
  bytes_eq, bytes_eq_refl, bytes_eq_sound, ◌⊎◌, inl, inr, ◌∙◌, ap, take-append-drop,
}
use mathlib.Core.Logic.{◌↔◌}
use presidium.Crypto.Constants.{Bytes, ascii}
use presidium.Crypto.Error.{
  CryptoError, CryptoResult, from_json, invalid_message, unsupported_version,
}
use presidium.Crypto.Primitives.{Json, JsonLaws}

-- `MAGIC`, "PSDM".
abbrev pub magic : Bytes
magic = 80 ∷ 83 ∷ 68 ∷ 77 ∷ []

abbrev pub format_version : ℕ
format_version = 1

-- A string, a version byte and a payload.
abbrev pub frame_of : Bytes → ℕ → Bytes → Bytes
frame_of prefix version payload = prefix ++ (version ∷ payload)

module _ {A : Type 0} ⦃json : Json A⦄ where
  unfoldable pub serialize : A → CryptoResult Bytes
  serialize value = do
    payload ← from_json (json.to_vec value)
    ok (frame_of magic format_version payload)

  unfoldable pub deserialize : Bytes → CryptoResult A
  deserialize bytes =
      let version : ℕ = get_or bytes 4 0 in
      if ltb (length bytes) 5
      then err (invalid_message "Data too short")
      else if not (bytes_eq (take 4 bytes) magic)
      then err (invalid_message "Invalid magic bytes")
      else if not (version == format_version)
      then err (unsupported_version version)
      else from_json (json.from_slice (drop 5 bytes))

  -- A value that was serialized is read back.
  deserialize-serialize :
      (laws : JsonLaws json) (value : A)
      → (bytes : Bytes) × (serialize value ≡ ok bytes) × (deserialize bytes ≡ ok value)
  unfolding serialize deserialize
  deserialize-serialize laws value = (
    frame_of magic format_version (laws.text value),
    rw (laws.to_vec_text value),
    ground (arith, laws.from_slice_text value),
  )

  -- `deserialize` on every input: less than five bytes, another prefix and another version are each
  -- reported, in this order; what is left is decided by the payload alone.
  pub deserialize_branches :
      (bytes : Bytes)
      → ((length bytes < 5) × (deserialize bytes ≡ err (invalid_message "Data too short")))
        ⊎ ((5 ≤ length bytes)
            × (take 4 bytes ≢ magic)
            × (deserialize bytes ≡ err (invalid_message "Invalid magic bytes")))
        ⊎ ((version : ℕ) × (payload : Bytes) × (bytes ≡ frame_of magic version payload)
            × (version ≢ 1)
            × (deserialize bytes ≡ err (unsupported_version version)))
        ⊎ ((payload : Bytes) × (bytes ≡ frame_of magic 1 payload)
            × (deserialize bytes ≡ from_json (json.from_slice payload)))
  unfolding deserialize
  deserialize_branches bytes = ground arith
