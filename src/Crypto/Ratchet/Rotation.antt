-- ===== src/Crypto/Ratchet/Rotation.antt =====
-- ratchet.rs: which ratchet keys a session ever uses.
use presidium.Base.{◌≡◌, some, none, ok, arith, String}
use presidium.Crypto.Constants.{Bytes}
use presidium.Crypto.Primitives.{Primitives, Json}
use presidium.Crypto.Ratchet.{RatchetMessageHeader, DoubleRatchet, RootKey, init, init_as_responder}
use presidium.Crypto.Ratchet.Messages.{encrypt, decrypt_at, decrypt_fresh, decrypt, dh_ratchet}

module _ ⦃p : Primitives⦄ ⦃json : Json RatchetMessageHeader⦄ where
  -- A call of a method, whatever its arguments and whether it succeeds or fails.
  pub data Step : DoubleRatchet → DoubleRatchet → Type 0 where
    encrypts : (r : DoubleRatchet) (plaintext : Bytes) → Step r (encrypt r plaintext).0
    decrypts :
        (r : DoubleRatchet) (ciphertext : Bytes) (header : RatchetMessageHeader)
        → Step r (decrypt r ciphertext header).0
    ratchets : (r : DoubleRatchet) (peer : Bytes) → Step r (dh_ratchet r peer).0

  pub data Reach (r : DoubleRatchet) : DoubleRatchet → Type 0 where
    here : Reach r r
    then : {s t : DoubleRatchet} → Reach r s → Step s t → Reach r t

  -- Our ratchet key stands in the sending chain, and none in the receiving chain.
  pub record HasKey (our : Bytes) (r : DoubleRatchet) : Type 0 where
    pub sending : r.sending_chain.our_ratchet_key ≡ some our
    pub receiving : r.receiving_chain.our_ratchet_key ≡ none

  encrypt-HasKey :
      (our : Bytes) (r : DoubleRatchet) (plaintext : Bytes)
      → HasKey our r
      → HasKey our (encrypt r plaintext).0
  unfolding encrypt
  encrypt-HasKey our r plaintext h = ground arith

  decrypt-HasKey :
      (our : Bytes) (r : DoubleRatchet) (ciphertext : Bytes) (header : RatchetMessageHeader)
      → HasKey our r
      → HasKey our (decrypt r ciphertext header).0
  unfolding decrypt_fresh decrypt_at
  decrypt-HasKey our r ciphertext header h = unfold decrypt in ground arith

  dh_ratchet-HasKey :
      (our : Bytes) (r : DoubleRatchet) (peer : Bytes)
      → HasKey our r
      → HasKey our (dh_ratchet r peer).0
  unfolding dh_ratchet
  dh_ratchet-HasKey our r peer h = ground arith

  Step-HasKey : {our : Bytes} {r s : DoubleRatchet} → Step r s → HasKey our r → HasKey our s
  Step-HasKey {our} (encrypts r plaintext) h = encrypt-HasKey our r plaintext h
  Step-HasKey {our} (decrypts r ciphertext header) h = decrypt-HasKey our r ciphertext header h
  Step-HasKey {our} (ratchets r peer) h = dh_ratchet-HasKey our r peer h

  pub Reach-HasKey : {our : Bytes} {r s : DoubleRatchet} → Reach r s → HasKey our r → HasKey our s
  Reach-HasKey here h = h
  Reach-HasKey (then reach step) h = Step-HasKey step (Reach-HasKey reach h)

  -- A session as `init` or `init_as_responder` returns it, with our ratchet key.
  pub data Starts (our : Bytes) (r : DoubleRatchet) : Type 0 where
    initiates :
        (session_id : String) (root : RootKey) (peer ad : Bytes)
        → init session_id root our peer ad ≡ ok r
        → Starts our r
    responds :
        (session_id : String) (root : RootKey) (ad : Bytes)
        → init_as_responder session_id root our ad ≡ ok r
        → Starts our r

  Starts-HasKey : {our : Bytes} {r : DoubleRatchet} → Starts our r → HasKey our r
  unfolding init init_as_responder
  Starts-HasKey (initiates session_id root peer ad e) = ground arith
  Starts-HasKey (responds session_id root ad e) = ground arith

  encrypt-header :
      (our : Bytes) (r r' : DoubleRatchet) (plaintext ciphertext : Bytes)
      (header : RatchetMessageHeader)
      → HasKey our r
      → encrypt r plaintext ≡ (r', ok (ciphertext, header))
      → header.dh_public_key ≡ p.x25519_public our
  unfolding encrypt
  encrypt-header our r r' plaintext ciphertext header h e = ground arith

  -- From either start, after any calls with any arguments, failed ones included, every header that
  -- `encrypt` makes carries the public key of the first ratchet key: no call replaces it.
  pub ratchet_key_fixed :
      (our : Bytes) (r s s' : DoubleRatchet) (plaintext ciphertext : Bytes)
      (header : RatchetMessageHeader)
      → Starts our r
      → Reach r s
      → encrypt s plaintext ≡ (s', ok (ciphertext, header))
      → header.dh_public_key ≡ p.x25519_public our
  ratchet_key_fixed our r s s' plaintext ciphertext header start reach =
      encrypt-header our s s' plaintext ciphertext header (Reach-HasKey reach (Starts-HasKey start))
