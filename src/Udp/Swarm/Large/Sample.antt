-- ===== src/Udp/Swarm/Large/Sample.antt =====
-- The peers that a large map picks for a response: as many as asked for, none twice.
use tracker_enhanced.Prelude.{ℕ, ◌≡◌, some, List, Eq}
use tracker_enhanced.Crates.{Rng}
use tracker_enhanced.Sampling
use tracker_enhanced.UdpProtocol.Messages.{ResponsePeer, response_peer_eq}
use tracker_enhanced.Udp.Swarm.Peers.{LargePeerMap, Containers}
use tracker_enhanced.Udp.Swarm.Large

module _ {I : Type 0} ⦃e : Eq I⦄ (c : Containers I) (r : Rng) where
  -- What a sample of at most `max` of the keys looks like.
  abbrev pub Sampled : LargePeerMap I → ℕ → List (ResponsePeer I) → Type 0
  Sampled m max peers = Sampling.Sampled c.index r m.peers max peers

  -- A response from a large map never fails; it holds `max` peers, or all where there are fewer,
  -- and they stand in the map in this order, at different places.
  pub extract_response_peers_lem :
      (rng : r.Source) (m : LargePeerMap I) (max : ℕ)
      → (peers : List (ResponsePeer I)) × (rng' : r.Source) × (Large.extract_response_peers c r rng
            m max
          ≡ some (peers, rng'))
        × Sampled m max peers
  unfolding Large.extract_response_peers Large.extract_half_two Sampling.sample Sampling.half_two
  extract_response_peers_lem rng m max = Sampling.sample_lem c.index r rng m.peers max
