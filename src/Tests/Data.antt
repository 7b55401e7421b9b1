-- ===== src/Tests/Data.antt =====
-- The data that the witnesses run on.
use tracker_enhanced.Prelude.{ℕ, suc, nat_eq, list_eq, Bool, true, false, [], ◌∷◌}
use tracker_enhanced.Crates.{list_index_map, list_array_vec, list_hash_map, HashMap}
use tracker_enhanced.Common.Time.{SecondsSinceServerStart, ValidUntil}
use tracker_enhanced.Common.Ip.{SocketAddr, v4}
use tracker_enhanced.UdpProtocol.Bytes.{Bytes, to_be_bytes}
use tracker_enhanced.UdpProtocol.Messages.{
  ResponsePeer, response_peer_eq, AnnounceRequest, AnnounceEvent, ScrapeRequest,
}
use tracker_enhanced.UdpProtocol.Request.{event_to_bytes}
use tracker_enhanced.Udp.Swarm.Config.{Config, Peer}
use tracker_enhanced.Udp.Swarm.Peers.{Containers}
use tracker_enhanced.Udp.Swarm.PeerMap.{PeerMap, large}
use tracker_enhanced.Udp.Swarm.Shards.{TorrentData, TorrentMapShards}

abbrev pub repeat : ℕ → ℕ → Bytes
repeat ℕ.zero b = []
repeat (suc n) b = b ∷ repeat n b

-- An info hash whose first byte is 7.
abbrev pub info_hash : Bytes
info_hash = 7 ∷ repeat 19 1

abbrev pub announce_request : AnnounceRequest
announce_request = record {
  connection_id = repeat 8 9;
  action_placeholder = to_be_bytes 4 1;
  transaction_id = to_be_bytes 4 77;
  info_hash = info_hash;
  peer_id = repeat 20 65;
  bytes_downloaded = to_be_bytes 8 100;
  bytes_left = to_be_bytes 8 0;
  bytes_uploaded = to_be_bytes 8 5;
  event = event_to_bytes AnnounceEvent.completed;
  ip_address = repeat 4 0;
  key = repeat 4 3;
  peers_wanted = to_be_bytes 4 2;
  port = to_be_bytes 2 6881;
}

abbrev pub scrape_request : ScrapeRequest
scrape_request = record {
  connection_id = repeat 8 9;
  transaction_id = to_be_bytes 4 78;
  info_hashes = info_hash ∷ repeat 20 2 ∷ [];
}

abbrev pub config : Config
config = record {
  max_response_peers = 30;
  peer_announce_interval = to_be_bytes 4 900;
  peer_clients = true;
  torrent_peer_histograms = true;
}

abbrev pub containers : Containers ℕ
containers = record { vec = list_array_vec 2; index = list_index_map }

abbrev pub hashes : HashMap Bytes (TorrentData ℕ)
hashes = list_hash_map

abbrev pub now : SecondsSinceServerStart
now = record { seconds = 100 }

abbrev pub until : ℕ → ValidUntil
until seconds = record { until = record { seconds = seconds } }

abbrev pub key : ℕ → ResponsePeer ℕ
key ip = record { ip_address = ip; port = to_be_bytes 2 6881 }

abbrev pub peer : Bool → ℕ → Peer
peer is_seeder seconds = record {
  peer_id = repeat 20 66;
  is_seeder = is_seeder;
  valid_until = until seconds;
}

-- Three peers, the second of which is a seeder and the first of which has expired.
abbrev pub three_peers : PeerMap ℕ
three_peers = large (record {
  peers = (key 1, peer false 50) ∷ (key 2, peer true 150) ∷ (key 3, peer false 160) ∷ [];
  num_seeders = 1;
  completed_count = 4;
})

abbrev pub torrents : TorrentMapShards ℕ
torrents = record {
  shards = [] ∷ ((info_hash, record { peer_map = three_peers; pending_removal = false }) ∷ []) ∷ [];
}

abbrev pub client : SocketAddr
client = record { ip = v4 (10 ∷ 0 ∷ 0 ∷ 1 ∷ []); port = 6881 }
