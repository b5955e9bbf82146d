-- ===== src/Network/Discovery.antt =====
-- presidium-network/src/discovery.rs: the address and the peer of a bootstrap address.
use Prim.Native.String
use mathlib.Core.List.{append-nil, append_assoc}
use presidium.Base.{
  ℕ, ◌≡◌, ◌≢◌, refl, sym, String, List, [], ◌∷◌, ◌++◌, Result, ok, err, arith, Option, none, some,
  ap,
}
use presidium.Network.Topics.{NetworkError, invalid_address}

-- `libp2p::multiaddr::Protocol` as far as the code tells its constructors apart: `P2p` with a peer
-- id, and every other one.
pub data Protocol : Type 0 where
  p2p : ℕ → Protocol
  transport : ℕ → Protocol

-- `libp2p::Multiaddr`: the parts of an address, the empty address, and an address with one part more;
-- its printed form.
pub record Multiaddrs (Addr : Type 0) : Type 0 where
  pub iter : Addr → List Protocol
  pub empty : Addr
  pub push : Addr → Protocol → Addr
  pub show : Addr → String

-- Documented behaviour: `push` adds a part at the end.
pub record MultiaddrLaws {Addr : Type 0} (m : Multiaddrs Addr) : Type 0 where
  pub iter_empty : m.iter m.empty ≡ []
  pub iter_push :
      (addr : Addr) (part : Protocol) → m.iter (m.push addr part) ≡ m.iter addr ++ part ∷ []

pub record BootstrapPeer (Addr : Type 0) : Type 0 where
  pub peer : Option ℕ
  pub address : Addr

-- The parts without a last `/p2p/<id>`, and its id.
unfoldable pub split_peer : List Protocol → List Protocol × Option ℕ
split_peer [] = ([], none)
split_peer (p2p id ∷ []) = ([], some id)
split_peer (transport t ∷ []) = (transport t ∷ [], none)
split_peer (part ∷ next ∷ rest) =
    let later : List Protocol × Option ℕ = split_peer (next ∷ rest) in (part ∷ later.0, later.1)

-- The last part that names a peer.
abbrev pub peer_part : Option ℕ → List Protocol
peer_part none = []
peer_part (some id) = p2p id ∷ []

split_peer_lem :
    (parts : List Protocol) → (split_peer parts).0 ++ peer_part (split_peer parts).1 ≡ parts
unfolding split_peer
split_peer_lem [] = refl
split_peer_lem (p2p id ∷ []) = refl
split_peer_lem (transport t ∷ []) = refl
split_peer_lem (part ∷ next ∷ rest) = ap (λ parts. part ∷ parts) (split_peer_lem (next ∷ rest))

module _ {Addr : Type 0} ⦃m : Multiaddrs Addr⦄ where
  -- The loop that pushes the parts.
  unfoldable pub push_all : Addr → List Protocol → Addr
  push_all addr [] = addr
  push_all addr (part ∷ parts) = push_all (m.push addr part) parts

  abbrev from_parts : Addr → List Protocol → Option ℕ → Result NetworkError (BootstrapPeer Addr)
  from_parts addr [] peer =
      err (invalid_address (Prim.Native.String.◌++◌ "no dialable address in " (m.show addr)))
  from_parts addr (part ∷ parts) peer =
      ok (record { peer = peer; address = push_all m.empty (part ∷ parts) })

  unfoldable pub parse_bootstrap_peer : Addr → Result NetworkError (BootstrapPeer Addr)
  unfolding split_peer push_all
  parse_bootstrap_peer addr =
      let split : List Protocol × Option ℕ = split_peer (m.iter addr) in
      from_parts addr split.0 split.1

  iter-push_all :
      (laws : MultiaddrLaws m) (addr : Addr) (parts : List Protocol)
      → m.iter (push_all addr parts) ≡ m.iter addr ++ parts
  unfolding push_all
  iter-push_all laws addr [] = sym (append-nil (m.iter addr))
  iter-push_all laws addr (part ∷ parts) = rw (
    iter-push_all laws (m.push addr part) parts,
    laws.iter_push addr part,
    append_assoc (m.iter addr) (part ∷ []) parts,
  )

  from_parts_lem :
      (laws : MultiaddrLaws m) (addr : Addr) (parts : List Protocol) (peer : Option ℕ)
      (found : BootstrapPeer Addr)
      → from_parts addr parts peer ≡ ok found
      → (m.iter found.address ≡ parts) × (found.peer ≡ peer) × (parts ≢ [])
  from_parts_lem laws addr [] peer found h = cc
  from_parts_lem laws addr (part ∷ parts) peer found h =
      ground (arith, h, iter-push_all laws m.empty (part ∷ parts), laws.iter_empty)

  -- A bootstrap address that is accepted is its dialable part, which is not empty, followed by the
  -- `/p2p/` part of its peer, where it has one.
  parse_bootstrap_peer_parts :
      (laws : MultiaddrLaws m) (addr : Addr) (found : BootstrapPeer Addr)
      → parse_bootstrap_peer addr ≡ ok found
      → (m.iter found.address ++ peer_part found.peer ≡ m.iter addr) × (m.iter found.address ≢ [])
  unfolding parse_bootstrap_peer
  parse_bootstrap_peer_parts laws addr found h =
      let split : List Protocol × Option ℕ = split_peer (m.iter addr) in
      ground (arith, from_parts_lem laws addr split.0 split.1 found h, split_peer_lem (m.iter addr))
