-- ===== src/Ws/Swarm/Peers.antt =====
-- crates/ws/src/workers/swarm/storage.rs: `TorrentData`, the peers of a torrent, with the answers that
-- each expects to its offers. `none` is a panic.
pub mod Counting
pub mod Expiry
use tracker_enhanced.Prelude.{
  ℕ, ◌+◌, ◌-◌, ◌≡◌, ◌↔◌, Bool, true, false, ◌&&◌, not, Option, none, some, List, [], ◌∷◌, ◌++◌,
  ◌>>=◌, arith, Eq, ◌==◌, list_eq, nat_eq, eqb, if◌then◌else◌, length, min, checked_sub,
  checked_add, u64_mod,
}
use tracker_enhanced.Prelude.Entries.{lookup, insert}
use tracker_enhanced.Crates.{IndexMap, Rng}
use tracker_enhanced.Common.Time.{SecondsSinceServerStart, ValidUntil, new_with_now, valid}
use tracker_enhanced.UdpProtocol.Bytes.{Bytes}
use tracker_enhanced.Ws.Messages.{
  AnnounceEvent, AnnounceRequest, AnnounceRequestOffer, RtcAnswer, InMessageMeta, OutMessageMeta,
  OutMessage, Out, out_meta, ErrorResponse, ErrorResponseAction, FailureReason, offer_out_message,
  answer_out_message, error_response,
}
use tracker_enhanced.Ws.Swarm.Sample.{extract_response_peers}

pub record ExpectingAnswer : Type 0 where
  pub from_peer_id : Bytes
  pub regarding_offer_id : Bytes

abbrev pub expecting_answer_beq : ExpectingAnswer → ExpectingAnswer → Bool
expecting_answer_beq a b =
    a.from_peer_id == b.from_peer_id && a.regarding_offer_id == b.regarding_offer_id

pub expecting_answer_beq_iff : (a b : ExpectingAnswer) → (expecting_answer_beq a b ≡ true) ↔ (a ≡ b)
expecting_answer_beq_iff a b = (
  λ h. ground (
    arith,
    bytes.beq_iff a.from_peer_id b.from_peer_id,
    bytes.beq_iff a.regarding_offer_id b.regarding_offer_id,
  ),
  λ h. ground (
    arith,
    bytes.beq_iff a.from_peer_id b.from_peer_id,
    bytes.beq_iff a.regarding_offer_id b.regarding_offer_id,
  ),
)
  where
    bytes : Eq Bytes
    bytes = list_eq

instance abbrev pub expecting_answer_eq : Eq ExpectingAnswer
expecting_answer_eq = record { beq = expecting_answer_beq; beq_iff = expecting_answer_beq_iff }

abbrev pub Expecting : Type 0
Expecting = List (ExpectingAnswer × ValidUntil)

pub record Peer : Type 0 where
  pub consumer_id : ℕ
  pub connection_id : ℕ
  pub seeder : Bool
  pub valid_until : ValidUntil
  pub expecting_answers : Expecting

pub record TorrentData : Type 0 where
  pub peers : List (Bytes × Peer)
  pub num_seeders : ℕ

-- `TorrentData::default`
abbrev pub default_torrent_data : TorrentData
default_torrent_data = record { peers = []; num_seeders = 0 }

-- What is read of the configuration.
pub record Config : Type 0 where
  pub max_scrape_torrents : ℕ
  pub max_offers : ℕ
  pub peer_announce_interval : ℕ
  pub max_peer_age : ℕ
  pub max_offer_age : ℕ

pub data PeerStatus : Type 0 where
  seeding leeching stopped : PeerStatus

-- `PeerStatus::from_event_and_bytes_left`
unfoldable pub from_event_and_bytes_left : AnnounceEvent → Option ℕ → PeerStatus
from_event_and_bytes_left AnnounceEvent.stopped opt_bytes_left = PeerStatus.stopped
from_event_and_bytes_left event none = PeerStatus.leeching
from_event_and_bytes_left event (some bytes_left) =
    if eqb bytes_left 0 then PeerStatus.seeding else PeerStatus.leeching

-- `request.event.unwrap_or_default()`
abbrev pub event_or_update : Option AnnounceEvent → AnnounceEvent
event_or_update none = AnnounceEvent.update
event_or_update (some event) = event

abbrev pub status_of : AnnounceRequest → PeerStatus
status_of request = from_event_and_bytes_left (event_or_update request.event) request.bytes_left

-- `num_leechers`
abbrev pub num_leechers : TorrentData → Option ℕ
num_leechers t = checked_sub (length t.peers) t.num_seeders

abbrev pub less_one_if : Bool → ℕ → Option ℕ
less_one_if b n = if b then checked_sub n 1 else some n

abbrev pub one_more_if : Bool → ℕ → Option ℕ
one_more_if b n = if b then checked_add u64_mod n 1 else some n

abbrev pub new_peer : InMessageMeta → Bool → ValidUntil → Peer
new_peer meta seeder valid_until = record {
  consumer_id = meta.out_message_consumer_id;
  connection_id = meta.connection_id;
  seeder = seeder;
  valid_until = valid_until;
  expecting_answers = [];
}

abbrev pub expecting_of : Bytes → Bytes → ExpectingAnswer
expecting_of from_peer_id regarding_offer_id = record {
  from_peer_id = from_peer_id;
  regarding_offer_id = regarding_offer_id;
}

-- The maps that the swarm is made of.
pub record Containers : Type 1 where
  pub peers : IndexMap Bytes Peer
  pub expecting : IndexMap ExpectingAnswer ValidUntil

module _ (c : Containers) where
  -- A peer that is there (`Entry::Occupied`).
  unfoldable pub update_peer :
      TorrentData → Bytes → Peer → PeerStatus → ValidUntil → Option TorrentData
  update_peer t peer_id peer PeerStatus.leeching valid_until = do
    num_seeders ← less_one_if peer.seeder t.num_seeders
    some (record {
      peers = insert peer_id (record peer { seeder = false; valid_until = valid_until }) t.peers;
      num_seeders = num_seeders;
    })
  update_peer t peer_id peer PeerStatus.seeding valid_until = do
    num_seeders ← one_more_if (not peer.seeder) t.num_seeders
    some (record {
      peers = insert peer_id (record peer { seeder = true; valid_until = valid_until }) t.peers;
      num_seeders = num_seeders;
    })
  update_peer t peer_id peer PeerStatus.stopped valid_until = do
    num_seeders ← less_one_if peer.seeder t.num_seeders
    some (record { peers = (c.peers.map_swap_remove t.peers peer_id).0; num_seeders = num_seeders })

  -- A peer that is not there (`Entry::Vacant`).
  unfoldable pub insert_peer :
      TorrentData → InMessageMeta → Bytes → PeerStatus → ValidUntil → Option TorrentData
  insert_peer t meta peer_id PeerStatus.leeching valid_until =
      some
        (record t { peers = c.peers.map_insert t.peers peer_id (new_peer meta false valid_until) })
  insert_peer t meta peer_id PeerStatus.seeding valid_until = do
    num_seeders ← one_more_if true t.num_seeders
    some (record {
      peers = c.peers.map_insert t.peers peer_id (new_peer meta true valid_until);
      num_seeders = num_seeders;
    })
  insert_peer t meta peer_id PeerStatus.stopped valid_until = some t

  -- `insert_or_update_peer`, which also returns the status.
  unfoldable pub insert_or_update_peer :
      Config
      → SecondsSinceServerStart
      → InMessageMeta
      → AnnounceRequest
      → TorrentData
      → Option TorrentData
  insert_or_update_peer config now meta request t = do
    valid_until ← new_with_now now config.max_peer_age
    elim (lookup request.peer_id t.peers) [
      | none ↦ insert_peer t meta request.peer_id (status_of request) valid_until
      | some peer ↦ update_peer t request.peer_id peer (status_of request) valid_until
    ]

  -- The peers without one, if that one was there.
  abbrev pub uncount : TorrentData → List (Bytes × Peer) → Option Peer → Option TorrentData
  uncount t peers none = some (record t { peers = peers })
  uncount t peers (some peer) = do
    num_seeders ← less_one_if peer.seeder t.num_seeders
    some (record { peers = peers; num_seeders = num_seeders })

  -- `handle_connection_closed`
  unfoldable pub handle_connection_closed : TorrentData → Bytes → Option TorrentData
  handle_connection_closed t peer_id =
      let (peers, removed) = c.peers.map_swap_remove t.peers peer_id in uncount t peers removed

  abbrev pub still_expected :
      SecondsSinceServerStart → ExpectingAnswer × ValidUntil → Unit {0} → Bool × Unit {0}
  still_expected now (k, until) u = (valid until now, u)

  -- The closure of the `retain` over the peers; the state is the number of seeders.
  unfoldable pub keep_peer :
      SecondsSinceServerStart → Bytes → Peer → Option ℕ → Option Peer × Option ℕ
  keep_peer now peer_id peer num_seeders =
      let expecting = (c.expecting.map_retain (still_expected now) peer.expecting_answers tt).0 in
      if valid peer.valid_until now
      then (some (record peer { expecting_answers = expecting }), num_seeders)
      else (none, num_seeders >>= less_one_if peer.seeder)

  -- `clean_and_get_num_peers`
  unfoldable pub clean_and_get_num_peers :
      SecondsSinceServerStart → TorrentData → Option (TorrentData × ℕ)
  clean_and_get_num_peers now t =
      let (peers, state) = c.peers.map_retain_mut (keep_peer now) t.peers (some t.num_seeders) in
      (state >>= λ num_seeders.
      some (record { peers = peers; num_seeders = num_seeders }, length peers))
