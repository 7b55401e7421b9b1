-- ===== src/Http/Response/Compact.antt =====
-- Peers come back from their compact form.
use tracker_enhanced.Prelude.{
  ℕ, ◌+◌, ◌*◌, ◌/◌, ◌%◌, ◌^◌, ◌≡◌, ◌<◌, refl, some, List, [], ◌∷◌, arith, map, length,
  length-append,
}
use tracker_enhanced.UdpProtocol.Bytes.{
  Bytes, to_be_bytes, from_be, from_be_bytes, length-to_be_bytes, take-append_length,
  drop-append_length,
}
use tracker_enhanced.Http.Messages.{ResponsePeer}
use tracker_enhanced.Http.Response.{peer_bytes, peers_bytes, chunks_exact, to_peer, visit_bytes}

-- Every address has this many bytes, and every port two.
abbrev pub ArePeers : ℕ → List (ResponsePeer Bytes) → Type 0
ArePeers n [] = Unit
ArePeers n (peer ∷ peers) = (length peer.ip_address ≡ n) × (peer.port < 2 ^ 16) × ArePeers n peers

port_eq : (p : ℕ) → p < 2 ^ 16 → from_be_bytes (to_be_bytes 2 p) ≡ p
unfolding from_be to_be_bytes
port_eq p h = omega arith

length-peer_bytes :
    (peer : ResponsePeer Bytes) → length (peer_bytes peer) ≡ length peer.ip_address + 2
length-peer_bytes peer =
    omega (
      arith,
      length-append peer.ip_address (to_be_bytes 2 peer.port),
      length-to_be_bytes 2 peer.port,
    )

to_peer-peer_bytes :
    (n : ℕ) (peer : ResponsePeer Bytes)
    → length peer.ip_address ≡ n
    → peer.port < 2 ^ 16
    → to_peer n (peer_bytes peer) ≡ peer
to_peer-peer_bytes n peer size port =
    rw
      (
        take-append_length n peer.ip_address (to_be_bytes 2 peer.port) size,
        drop-append_length n peer.ip_address (to_be_bytes 2 peer.port) size,
        port_eq peer.port port,
      )
      refl

pub length-peers_bytes :
    (n : ℕ) (peers : List (ResponsePeer Bytes))
    → ArePeers n peers
    → length (peers_bytes peers) ≡ length peers * (n + 2)
unfolding peers_bytes
length-peers_bytes n [] ok = omega arith
length-peers_bytes n (peer ∷ peers) (size, port, ok) = grind (
  arith,
  length-append (peer_bytes peer) (peers_bytes peers),
  length-peer_bytes peer,
  length-peers_bytes n peers ok,
)

chunks_eq :
    (n : ℕ) (peers : List (ResponsePeer Bytes))
    → ArePeers n peers
    → map (to_peer n) (chunks_exact (length peers) (n + 2) (peers_bytes peers)) ≡ peers
unfolding chunks_exact peers_bytes
chunks_eq n [] ok = refl
chunks_eq n (peer ∷ peers) (size, port, ok) =
    let width : length (peer_bytes peer) ≡ n + 2 = omega (arith, length-peer_bytes peer, size) in
    rw
      (
        take-append_length (n + 2) (peer_bytes peer) (peers_bytes peers) width,
        drop-append_length (n + 2) (peer_bytes peer) (peers_bytes peers) width,
        to_peer-peer_bytes n peer size port,
        chunks_eq n peers ok,
      )
      refl

read_eq :
    (n : ℕ) (peers : List (ResponsePeer Bytes))
    → ArePeers n peers
    → (length (peers_bytes peers) % (n + 2) ≡ 0)
    → (length (peers_bytes peers) / (n + 2) ≡ length peers)
    → visit_bytes n (peers_bytes peers) ≡ some peers
unfolding visit_bytes
read_eq n peers ok none_left number = rw (none_left, number, chunks_eq n peers ok) refl

-- Peers with addresses of four bytes, and of sixteen, come back from their compact form.
pub visit_bytes-peers_bytes :
    (ipv4 ipv6 : List (ResponsePeer Bytes))
    → ArePeers 4 ipv4
    → ArePeers 16 ipv6
    → (visit_bytes 4 (peers_bytes ipv4) ≡ some ipv4)
      × (visit_bytes 16 (peers_bytes ipv6) ≡ some ipv6)
visit_bytes-peers_bytes ipv4 ipv6 ok4 ok6 = (
  read_eq 4 ipv4 ok4 (omega (arith, length-peers_bytes 4 ipv4 ok4))
      (omega (arith, length-peers_bytes 4 ipv4 ok4)),
  read_eq 16 ipv6 ok6 (omega (arith, length-peers_bytes 16 ipv6 ok6))
      (omega (arith, length-peers_bytes 16 ipv6 ok6)),
)
