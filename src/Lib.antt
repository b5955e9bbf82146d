-- ===== src/Lib.antt =====
-- Presidium: a peer-to-peer messenger: its cryptographic core, the storage, the task of the network node,
-- and the demo program that puts them together.
--
-- The parts and their files:
--   Base, Base/*           lists, results, tests, and machine words with their byte encodings
--   Crypto/Error, Crypto/Constants
--                          packages/core/presidium-crypto/src/error.rs and constants.rs
--   Crypto/Primitives      the third-party operations that presidium-crypto calls, as records of
--                          parameters, and what the code relies on, as records of laws
--   Crypto/Ratchet, Crypto/Ratchet/*
--                          packages/core/presidium-crypto/src/ratchet.rs: the types, `init`, `init_as_responder`;
--                          `encrypt`, `decrypt` and `dh_ratchet` are in Ratchet/Messages
--   Crypto/Keys, Crypto/Keys/*
--                          packages/core/presidium-crypto/src/keys.rs: SessionKeys, SenderKeys, MediaKey
--   Crypto/Identity, Crypto/Identity/*
--                          packages/core/presidium-crypto/src/identity.rs: hybrid signatures, the hybrid key
--                          encapsulation, prekey bundles
--   Crypto/Pqxdh, Crypto/Pqxdh/*
--                          packages/core/presidium-crypto/src/pqxdh.rs: both sides of the key agreement
--   Crypto/Serialization   packages/core/presidium-crypto/src/serialization.rs
--   Crypto/CryptoBox       packages/core/presidium-crypto/src/crypto_box.rs
--   Crypto/Samples, Crypto/Samples/*
--                          small instances of the parameters that keep the laws, for examples
--   Storage/SessionState   packages/core/presidium-storage/src/session_state.rs
--   Storage/Models, Storage/Error, Storage/Tables
--                          packages/core/presidium-storage/src/models.rs and error.rs, and the rows of the
--                          tables of migrations/0001_init.sql
--   Storage/Sql, Storage/Sql/*
--                          the clauses of SQL that the statements of store.rs use, on lists of rows
--   Storage/Store, Storage/Store/*
--                          packages/core/presidium-storage/src/store.rs: Store has the operations on identity,
--                          prekeys, conversations, sender keys, documents and devices; Store/Sessions and
--                          Store/Messages have those on sessions, messages and media; the others are theorems
--   Storage/Operations, Storage/Operations/*
--                          runs of these operations, their invariant, and their refinement of maps
--   Storage/Sqleet, Storage/Texts
--                          packages/core/presidium-sqleet/src/lib.rs: parameters and columns, and the refusal of
--                          a statement with a NUL byte in a text
--   Storage/Migrations     `run_migrations` of packages/core/presidium-storage/src/database.rs, and the drop of
--                          a Transaction of presidium-sqleet
--   Network/Codec, Network/Codec/Requests, Network/Topics, Network/Discovery
--                          packages/core/presidium-network/src/codec.rs, topics.rs, discovery.rs
--   Network/Messages       the messages of packages/core/presidium-proto/proto/presidium.proto that the code reads
--   Network/Node, Network/Node/*
--                          packages/core/presidium-network/src/node.rs: the handling of one control message or
--                          swarm event in Node, the loop in Node/Loop, the calls of P2pNode in Node/Handle
--   Demo/Envelopes, Demo/Session, Demo/Handshake
--                          packages/core/presidium-demo/src/session.rs, and PrekeyMaterial of store.rs
--   Demo/Group             packages/core/presidium-demo/src/group.rs
--   Demo/NodeStore         NodeStore of packages/core/presidium-demo/src/store.rs, `persist` and `resume` of
--                          session.rs
--   Demo/App, Demo/App/*   packages/core/presidium-demo/src/main.rs: `handle_direct` in App/Direct, the loop,
--                          `handle_command` and `handle_event` in App/Events
-- The files called Examples hold tests and applications of the theorems at concrete inputs.
--
-- How they interact: `pqxdh_initiator` and `pqxdh_responder` (over bundles, hybrid encapsulation and
-- hybrid signatures) give both sides one secret; `new_session` and `to_ratchet` of Keys make a ratchet
-- of it; Demo/Session wraps the ratchet in signed envelopes; Demo/Handshake drives all of these from
-- a bundle to two sessions; Demo/Group hands out sender keys. Demo/NodeStore keeps the identity, the
-- conversations, the messages and the session of a chat in the tables of Storage/Store. Demo/App takes
-- the events of Network/Node and the lines of the console one at a time, drives Handshake, Session,
-- Group and NodeStore, and hands what it sends to the calls of Network/Node/Handle.
--
-- How the code is written here. A byte string is a list of natural numbers; an array of a fixed size
-- is one too, and its size is a hypothesis where a theorem needs it. A method on `&mut self` returns
-- the new state beside its result, also when it fails, so that what a failed call leaves behind is
-- part of the model. `Result` is Base/Results. Random bytes, nonces and the clock are arguments of
-- the functions that draw them. Indices are u64: an increment that the code leaves unchecked wraps,
-- as a release build does, and theorems say how far they reach (`IsU64`). The `while` loop of
-- `decrypt` is `skip_loop`, which recurses on the number of its rounds, the message number less the
-- chain's index; the loop adds one to the index in each round and so makes no other number of rounds.
-- No definition has fuel.
--
-- A table is the list of its rows, and a statement of store.rs is a function on the tables that
-- follows the text of the statement: selections, ORDER BY, LIMIT, ON CONFLICT, the unique indices and
-- the references of the schema. It can fail with an error of the constraints, and with that of a text
-- with a NUL byte among its parameters. An i64 column is a natural number, since none of the code
-- stores a negative one; a text is its bytes in UTF-8. The swarm of libp2p is on the other side of a
-- list of commands that a handler gives; what is sent on a channel is an emitted event. A handler of
-- the demo takes what the code draws (random bytes, the clock) in one record, returns the state that
-- it leaves, and stops at its first error. The loops of the node's task and of the demo recurse on the
-- list of their inputs.
--
-- Not part of the repository, and so parameters with laws: X25519, HKDF, HMAC, ChaCha20-Poly1305,
-- Ed25519, ML-DSA, ML-KEM, SHA-256, serde_json, prost, hex, libp2p addresses, the engine behind
-- sqleet. No law says that a forgery fails: secrecy and unforgeability are not modelled.
-- Not modelled: the Debug and serde implementations; the failures of the database engine other than
-- those of constraints and of texts with a NUL byte; the key derivation of Argon2id and the documents
-- of Yrs, which the code only calls; the construction, the transport and the inside of the libp2p
-- swarm; the console, the files and the command line of presidium-demo; the FFI of presidium-sqleet;
-- presidium-ffi, presidium-media and presidium-sync, which are empty; generated code.
pub mod Base
pub mod Crypto
pub mod Storage
pub mod Network
pub mod Demo
