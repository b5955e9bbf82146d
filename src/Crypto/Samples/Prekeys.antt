-- ===== src/Crypto/Samples/Prekeys.antt =====
-- A small encoding of prekey messages in place of JSON.
use presidium.Base.{
  ℕ, zero, suc, ◌≡◌, refl, ok, err, Option, none, some, String, List, [], ◌∷◌, Result, ◌>>=◌,
  length, take-append, drop-append, arith,
}
use presidium.Crypto.Constants.{Bytes}
use presidium.Crypto.Primitives.{Json, JsonLaws}
use presidium.Crypto.Pqxdh.{PqxdhPrekeyMessage}
use presidium.Crypto.Samples.Texts.{framed, read_framed}

-- The optional id and ciphertext, each behind its case.
write_options : Option ℕ → Option Bytes → Bytes
write_options none none = 0 ∷ 0 ∷ []
write_options (some id) none = 1 ∷ id ∷ 0 ∷ []
write_options none (some ct) = 0 ∷ 1 ∷ ct
write_options (some id) (some ct) = 1 ∷ id ∷ 1 ∷ ct

abbrev read_cipher : Bytes → Option Bytes
read_cipher (suc n ∷ ct) = some ct
read_cipher _ = none

read_options : Bytes → Result String (Option ℕ × Option Bytes)
read_options (zero ∷ rest) = ok (none, read_cipher rest)
read_options (suc n ∷ id ∷ rest) = ok (some id, read_cipher rest)
read_options _ = err "bad option"

read_options_lem :
    (id : Option ℕ) (ct : Option Bytes) → read_options (write_options id ct) ≡ ok (id, ct)
unfolding read_options write_options
read_options_lem none none = refl
read_options_lem (some id) none = refl
read_options_lem none (some ct) = refl
read_options_lem (some id) (some ct) = refl

abbrev read_number : Bytes → Result String (ℕ × Bytes)
read_number [] = err "end of input"
read_number (n ∷ rest) = ok (n, rest)

-- The parts of an encoding, behind each other.
write_parts : List Bytes → Bytes → Bytes
write_parts [] rest = rest
write_parts (part ∷ parts) rest = framed part (write_parts parts rest)

read_parts : ℕ → Bytes → Result String (List Bytes × Bytes)
read_parts zero bytes = ok ([], bytes)
read_parts (suc n) bytes = do
  first ← read_framed bytes
  others ← read_parts n first.1
  ok (first.0 ∷ others.0, others.1)

read_parts_lem :
    (parts : List Bytes) (rest : Bytes)
    → read_parts (length parts) (write_parts parts rest) ≡ ok (parts, rest)
unfolding read_parts write_parts
read_parts_lem [] rest = refl
read_parts_lem (part ∷ parts) rest = ground (
  arith,
  take-append (length part) part (write_parts parts rest) refl,
  drop-append (length part) part (write_parts parts rest) refl,
  read_parts_lem parts rest,
)

abbrev parts_of : PqxdhPrekeyMessage → List Bytes
parts_of m =
    m.identity_public.classical ∷ m.identity_public.pq ∷ m.identity_kem_public.classical
    ∷ m.identity_kem_public.pq ∷ m.ephemeral_public.classical ∷ m.ephemeral_public.pq
    ∷ m.ciphertexts.0 ∷ m.ciphertexts.1 ∷ m.ciphertexts.2 ∷ m.ciphertexts.3 ∷ []

abbrev write_prekey : PqxdhPrekeyMessage → Bytes
write_prekey m =
    write_parts (parts_of m)
      (m.signed_prekey_id ∷ write_options m.one_time_prekey_id m.one_time_ciphertext)

abbrev prekey_of : List Bytes → ℕ → Option ℕ × Option Bytes → Result String PqxdhPrekeyMessage
prekey_of (a ∷ b ∷ c ∷ d ∷ e ∷ f ∷ g ∷ h ∷ i ∷ j ∷ []) signed options = ok (record {
  identity_public = record { classical = a; pq = b };
  identity_kem_public = record { classical = c; pq = d };
  ephemeral_public = record { classical = e; pq = f };
  ciphertexts = (g, h, i, j);
  one_time_ciphertext = options.1;
  signed_prekey_id = signed;
  one_time_prekey_id = options.0;
})
prekey_of _ signed options = err "bad message"

abbrev read_prekey : Bytes → Result String PqxdhPrekeyMessage
read_prekey bytes = do
  parts ← read_parts 10 bytes
  number ← read_number parts.1
  options ← read_options number.1
  prekey_of parts.0 number.0 options

read_prekey_lem : (m : PqxdhPrekeyMessage) → read_prekey (write_prekey m) ≡ ok m
read_prekey_lem m = rw (
  read_parts_lem (parts_of m)
      (m.signed_prekey_id ∷ write_options m.one_time_prekey_id m.one_time_ciphertext),
  read_options_lem m.one_time_prekey_id m.one_time_ciphertext,
)

instance pub prekey_json : Json PqxdhPrekeyMessage
prekey_json = record { to_vec = λ m. ok (write_prekey m); from_slice = read_prekey }

pub prekey_json-JsonLaws : JsonLaws prekey_json
unfolding prekey_json
prekey_json-JsonLaws = record {
  text = write_prekey;
  to_vec_text = λ m. refl;
  from_slice_text = read_prekey_lem;
}
