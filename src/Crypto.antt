-- ===== src/Crypto.antt =====
-- packages/core/presidium-crypto: the cryptographic protocols of the messenger.
pub mod Error
pub mod Constants
pub mod Primitives
pub mod Samples
pub mod Ratchet
pub mod Keys
pub mod Identity
pub mod Pqxdh
pub mod Serialization
pub mod CryptoBox
