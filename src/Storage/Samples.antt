-- ===== src/Storage/Samples.antt =====
-- Small encodings in place of the JSON of the stored records, put together from those of their fields; as a
-- text each number is one larger, so that there is no NUL byte.
use presidium.Base.{
  ℕ, zero, suc, String, ◌≡◌, refl, Bool, true, false, Option, none, some, List, [], ◌∷◌, ◌++◌,
  Result, ok, err, ◌>>=◌, map, length, take, drop, take-append, drop-append, arith,
}
use presidium.Crypto.Constants.{Bytes}
use presidium.Crypto.Primitives.{Json, JsonLaws}
use presidium.Crypto.Keys.{SessionKeys}
use presidium.Crypto.Identity.{IdentityPublicKey}
use presidium.Storage.Sqleet.{has_nul}
use presidium.Storage.Texts.{TextLaws}
use presidium.Storage.SessionState.{ChainSnapshot, RatchetSnapshot}

abbrev less : ℕ → ℕ
less zero = zero
less (suc n) = n

map-less-map-suc : (v : Bytes) → map less (map suc v) ≡ v
map-less-map-suc [] = refl
map-less-map-suc (n ∷ v) = rw (map-less-map-suc v) refl

has_nul-map-suc : (v : Bytes) → has_nul (map suc v) ≡ false
has_nul-map-suc [] = refl
has_nul-map-suc (n ∷ v) = ground (arith, has_nul-map-suc v)

-- A value written in front of other bytes is read back, and the other bytes are left.
pub record Format (A : Type 0) : Type 0 where
  pub write : A → Bytes → Bytes
  pub parse : Bytes → Result String (A × Bytes)
  pub parse_write : (a : A) (rest : Bytes) → parse (write a rest) ≡ ok (a, rest)

abbrev parse_number : Bytes → Result String (ℕ × Bytes)
parse_number [] = err "end of input"
parse_number (n ∷ rest) = ok (n, rest)

abbrev pub number : Format ℕ
number = record { write = λ n rest. n ∷ rest; parse = parse_number; parse_write = λ n rest. refl }

abbrev parse_bytes : Bytes → Result String (Bytes × Bytes)
parse_bytes [] = err "end of input"
parse_bytes (n ∷ rest) = ok (take n rest, drop n rest)

pub parse_bytes_lem : (v rest : Bytes) → parse_bytes (length v ∷ v ++ rest) ≡ ok (v, rest)
parse_bytes_lem v rest =
    rw (take-append (length v) v rest refl, drop-append (length v) v rest refl) refl

abbrev pub bytes : Format Bytes
bytes = record {
  write = λ v rest. length v ∷ v ++ rest;
  parse = parse_bytes;
  parse_write = parse_bytes_lem;
}

module _ {A B : Type 0} (f : Format A) (g : Format B) where
  abbrev pub pair : Format (A × B)
  pair = record {
    write = λ p rest. f.write p.0 (g.write p.1 rest);
    parse = λ input.
        f.parse input >>= λ first. g.parse first.1 >>= λ second. ok ((first.0, second.0), second.1);
    parse_write = λ p rest. rw (f.parse_write p.0 (g.write p.1 rest), g.parse_write p.1 rest) refl;
  }

module _ {A B : Type 0} (f : Format A) (to : A → B) (from : B → A)
    (same : (b : B) → to (from b) ≡ b) where
  -- A record as the tuple of its fields.
  abbrev pub as_record : Format B
  as_record = record {
    write = λ b rest. f.write (from b) rest;
    parse = λ input. f.parse input >>= λ first. ok (to first.0, first.1);
    parse_write = λ b rest. rw (f.parse_write (from b) rest, same b) refl;
  }

module _ {A : Type 0} (f : Format A) where
  abbrev write_option : Option A → Bytes → Bytes
  write_option none rest = 0 ∷ rest
  write_option (some a) rest = 1 ∷ f.write a rest

  abbrev parse_option : Bytes → Result String (Option A × Bytes)
  parse_option [] = err "end of input"
  parse_option (zero ∷ rest) = ok (none, rest)
  parse_option (suc n ∷ rest) = f.parse rest >>= λ first. ok (some first.0, first.1)

  pub parse_option_lem :
      (o : Option A) (rest : Bytes) → parse_option (write_option o rest) ≡ ok (o, rest)
  parse_option_lem none rest = refl
  parse_option_lem (some a) rest = rw (f.parse_write a rest) refl

  abbrev pub option : Format (Option A)
  option = record { write = write_option; parse = parse_option; parse_write = parse_option_lem }

  abbrev write_all : List A → Bytes → Bytes
  write_all [] rest = rest
  write_all (a ∷ xs) rest = f.write a (write_all xs rest)

  abbrev parse_all : ℕ → Bytes → Result String (List A × Bytes)
  parse_all zero input = ok ([], input)
  parse_all (suc n) input =
      f.parse input >>= λ first. parse_all n first.1 >>= λ later. ok (first.0 ∷ later.0, later.1)

  abbrev parse_list : Bytes → Result String (List A × Bytes)
  parse_list [] = err "end of input"
  parse_list (n ∷ rest) = parse_all n rest

  pub parse_all_lem :
      (xs : List A) (rest : Bytes) → parse_all (length xs) (write_all xs rest) ≡ ok (xs, rest)
  parse_all_lem [] rest = refl
  parse_all_lem (a ∷ xs) rest = rw (f.parse_write a (write_all xs rest), parse_all_lem xs rest) refl

  abbrev list : Format (List A)
  list = record {
    write = λ xs rest. length xs ∷ write_all xs rest;
    parse = parse_list;
    parse_write = parse_all_lem;
  }

  abbrev text_of : A → Bytes
  text_of a = map suc (f.write a [])

  abbrev json_of : Json A
  json_of = record {
    to_vec = λ a. ok (text_of a);
    from_slice = λ input. f.parse (map less input) >>= λ first. ok first.0;
  }

  json_of-JsonLaws : JsonLaws json_of
  json_of-JsonLaws = record {
    text = text_of;
    to_vec_text = λ a. refl;
    from_slice_text = λ a. rw (map-less-map-suc (f.write a []), f.parse_write a []) refl;
  }

  json_of-TextLaws : TextLaws json_of-JsonLaws
  unfolding json_of-JsonLaws
  json_of-TextLaws = record { no_nul = λ a. has_nul-map-suc (f.write a []) }

abbrev to_bool : ℕ → Bool
to_bool zero = false
to_bool (suc n) = true

abbrev from_bool : Bool → ℕ
from_bool false = 0
from_bool true = 1

pub to_bool-from_bool : (b : Bool) → to_bool (from_bool b) ≡ b
to_bool-from_bool false = refl
to_bool-from_bool true = refl

abbrev boolean : Format Bool
boolean = as_record number to_bool from_bool to_bool-from_bool

abbrev identity_public : Format IdentityPublicKey
identity_public =
    as_record (pair bytes bytes) (λ t. record { classical = t.0; pq = t.1 })
      (λ k. (k.classical, k.pq)) (λ k. refl)

abbrev session_keys : Format (SessionKeys IdentityPublicKey)
session_keys =
    as_record (pair boolean (pair bytes (pair bytes (pair bytes (pair identity_public number)))))
      (λ (b, (r, (s, (c, (i, n))))). record {
        is_initiator = b;
        root_key = r;
        sending_chain = s;
        receiving_chain = c;
        peer_identity = i;
        message_count = n;
      })
      (λ k. (
        k.is_initiator,
        (k.root_key, (k.sending_chain, (k.receiving_chain, (k.peer_identity, k.message_count)))),
      ))
      (λ k. refl)

abbrev chain : Format ChainSnapshot
chain =
    as_record
      (pair (option bytes)
        (pair (option bytes) (pair (option bytes) (pair number (list (pair number bytes))))))
      (λ (o, (t, (k, (i, s)))). record {
        our_ratchet_key = o;
        their_ratchet_public = t;
        chain_key = k;
        chain_index = i;
        skipped_message_keys = s;
      })
      (λ c. (
        c.our_ratchet_key,
        (c.their_ratchet_public, (c.chain_key, (c.chain_index, c.skipped_message_keys))),
      ))
      (λ c. refl)

abbrev snapshot : Format RatchetSnapshot
snapshot =
    as_record (pair bytes (pair chain chain))
      (λ (r, (s, c)). record { root_key = r; sending_chain = s; receiving_chain = c })
      (λ s. (s.root_key, (s.sending_chain, s.receiving_chain))) (λ s. refl)

instance abbrev pub keys_json : Json (SessionKeys IdentityPublicKey)
keys_json = json_of session_keys

pub keys_json-JsonLaws : JsonLaws keys_json
keys_json-JsonLaws = json_of-JsonLaws session_keys

pub keys_json-TextLaws : TextLaws keys_json-JsonLaws
unfolding keys_json-JsonLaws
keys_json-TextLaws = json_of-TextLaws session_keys

instance abbrev pub ratchet_json : Json RatchetSnapshot
ratchet_json = json_of snapshot

pub ratchet_json-JsonLaws : JsonLaws ratchet_json
ratchet_json-JsonLaws = json_of-JsonLaws snapshot

pub ratchet_json-TextLaws : TextLaws ratchet_json-JsonLaws
unfolding ratchet_json-JsonLaws
ratchet_json-TextLaws = json_of-TextLaws snapshot
