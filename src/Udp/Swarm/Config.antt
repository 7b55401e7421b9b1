-- ===== src/Udp/Swarm/Config.antt =====
-- The configuration, messages and peers of crates/udp/src (config.rs, common.rs, swarm.rs).
use tracker_enhanced.Prelude.{ℕ, ◌-◌, ◌^◌, Bool, true, false, List, leb, if◌then◌else◌}
use tracker_enhanced.Prelude.Int.{pos, int_beq}
use tracker_enhanced.UdpProtocol.Bytes.{Bytes, get_i64}
use tracker_enhanced.UdpProtocol.Messages.{AnnounceEvent}
use tracker_enhanced.Common.Time.{ValidUntil}

-- What the swarm reads of `Config`: `protocol.max_response_peers`,
-- `protocol.peer_announce_interval` (as the bytes of `AnnounceInterval::new`),
-- `statistics.peer_clients` and `statistics.torrent_peer_histograms`.
pub record Config : Type 0 where
  pub max_response_peers : ℕ
  pub peer_announce_interval : Bytes
  pub peer_clients : Bool
  pub torrent_peer_histograms : Bool

-- A histogram is the list of the values that were recorded in it.
pub data StatisticsMessage : Type 0 where
  ipv4_peer_histogram : List ℕ → StatisticsMessage
  ipv6_peer_histogram : List ℕ → StatisticsMessage
  peer_added : Bytes → StatisticsMessage
  peer_removed : Bytes → StatisticsMessage

pub record Peer : Type 0 where
  pub peer_id : Bytes
  pub is_seeder : Bool
  pub valid_until : ValidUntil

pub data PeerStatus : Type 0 where
  seeding leeching stopped : PeerStatus

abbrev pub is_stopped : PeerStatus → Bool
is_stopped PeerStatus.stopped = true
is_stopped PeerStatus.seeding = false
is_stopped PeerStatus.leeching = false

abbrev pub is_seeding : PeerStatus → Bool
is_seeding PeerStatus.seeding = true
is_seeding PeerStatus.leeching = false
is_seeding PeerStatus.stopped = false

-- `PeerStatus::from_event_and_bytes_left`
unfoldable pub from_event_and_bytes_left : AnnounceEvent → Bytes → PeerStatus
from_event_and_bytes_left AnnounceEvent.stopped bytes_left = PeerStatus.stopped
from_event_and_bytes_left event bytes_left =
    if int_beq (get_i64 bytes_left) (pos 0) then PeerStatus.seeding else PeerStatus.leeching

abbrev pub i32_max : ℕ
i32_max = 2 ^ 31 - 1

-- `usize_to_i32_checked` and `u64_to_i32_checked`: a value beyond `i32::MAX` is cut to it.
abbrev pub usize_to_i32_checked : ℕ → ℕ
usize_to_i32_checked v = if leb v i32_max then v else i32_max

abbrev pub u64_to_i32_checked : ℕ → ℕ
u64_to_i32_checked v = if leb v i32_max then v else i32_max
