-- ===== src/Http/Swarm/Torrent/Upsert.antt =====
-- `TorrentData::upsert_peer_and_get_response_peers` as a whole: what an announce does to the torrent,
-- and what it answers.
use mathlib.Core.Path.{subst}
use tracker_enhanced.Prelude.{
  ℕ, ◌+◌, ◌<◌, ◌≡◌, refl, ap, ◌∙◌, Bool, true, false, Option, none, some, List, arith, Eq, ◌==◌,
  length, u64_mod, checked_add, if◌then◌else◌,
}
use tracker_enhanced.Prelude.Entries.{lookup, lookup-append_back, absent_without}
use tracker_enhanced.Crates.{Rng}
use tracker_enhanced.Common.Time.{ValidUntil}
use tracker_enhanced.Http.Messages.{AnnounceEvent, AnnounceRequest, ResponsePeer, response_peer_eq}
use tracker_enhanced.Http.Swarm.Peers.{
  Peer, PeerStatus, from_event_and_bytes_left, Containers, Entry,
}
use tracker_enhanced.Http.Swarm.Torrent
use tracker_enhanced.Http.Swarm.Torrent.{
  TorrentData, small, large, Config, ResponseData, is_stopped, is_seeding, num_peers_to_take,
  increment_completed, upsert_peer_and_get_response_peers,
}
use tracker_enhanced.Http.Swarm.Torrent.Invariant.{
  entries, completed_count, IsValid, IsReady, insert_lem,
}
use tracker_enhanced.Http.Swarm.Torrent.Respond.{Without, Answers, Keeps, respond_lem}

abbrev pub is_completed : AnnounceEvent → Bool
is_completed AnnounceEvent.completed = true
is_completed AnnounceEvent.started = false
is_completed AnnounceEvent.stopped = false
is_completed AnnounceEvent.empty = false

abbrev pub status_of : AnnounceRequest → PeerStatus
status_of request = from_event_and_bytes_left request.event request.bytes_left

abbrev pub completed_after : AnnounceRequest → ℕ → ℕ
completed_after request n = if is_completed request.event then n + 1 else n

checked_eq : (n : ℕ) → n + 1 < u64_mod → checked_add u64_mod n 1 ≡ some (n + 1)
checked_eq n h = ground arith

module _ {I : Type 0} ⦃e : Eq I⦄ where
  increment_lem :
      (event : AnnounceEvent) (t : TorrentData I)
      → IsValid t
      → completed_count t + 1 < u64_mod
      → (t' : TorrentData I) × (increment_completed event t ≡ some t')
        × IsValid t'
        × (entries t' ≡ entries t)
        × (completed_count t'
            ≡ (if is_completed event then completed_count t + 1 else completed_count t))
  unfolding increment_completed
  increment_lem AnnounceEvent.completed (small m) valid fits = (
    small (record m { completed_count = m.completed_count + 1 }),
    rw (checked_eq m.completed_count fits) refl,
    valid,
    refl,
    refl,
  )
  increment_lem AnnounceEvent.completed (large m) valid fits = (
    large (record m { completed_count = m.completed_count + 1 }),
    rw (checked_eq m.completed_count fits) refl,
    valid,
    refl,
    refl,
  )
  increment_lem AnnounceEvent.started t valid fits = (t, refl, valid, refl, refl)
  increment_lem AnnounceEvent.stopped t valid fits = (t, refl, valid, refl, refl)
  increment_lem AnnounceEvent.empty t valid fits = (t, refl, valid, refl, refl)

module _ {I : Type 0} ⦃e : Eq I⦄ (c : Containers I) (r : Rng) where
  -- What the announcing peer is afterwards: nothing once it has stopped.
  abbrev pub announced_peer : PeerStatus → ValidUntil → Option Peer
  announced_peer status valid_until =
      if is_stopped status
      then none
      else some (record { valid_until = valid_until; is_seeder = is_seeding status })

  -- The peers after an announce: the others are as they were.
  abbrev pub Updates : Option Peer → ResponsePeer I → TorrentData I → TorrentData I → Type 0
  Updates peer key t t' =
      (j : ResponsePeer I)
      → lookup j (entries t') ≡ (if key == j then peer else lookup j (entries t))

  -- What an announce leaves and answers, by the peers alone.
  abbrev pub Outcome :
      Config
      → AnnounceRequest
      → I
      → ValidUntil
      → TorrentData I
      → TorrentData I
      → ResponseData I
      → Type 0
  Outcome config request ip_address valid_until t t' response =
      let key : ResponsePeer I = record { ip_address = ip_address; port = request.port } in
      IsValid t'
      × Updates (announced_peer (status_of request) valid_until) key t t'
      × (completed_count t' ≡ completed_after request (completed_count t))
      × ((others : List (Entry I)) × Without key (entries t) others
          × Answers (num_peers_to_take config request.numwant) others response)

  inserted_lem :
      (key : ResponsePeer I) (peer : Peer) (t rest : TorrentData I)
      → IsReady rest
      → Without key (entries t) (entries rest)
      → length (entries t) + 1 < u64_mod
      → (t' : TorrentData I) × (Torrent.insert c rest key peer ≡ some t')
        × IsValid t'
        × Updates (some peer) key t t'
        × (completed_count t' ≡ completed_count rest)
  inserted_lem key peer t rest ready (d, get, size) fits =
      let absent = absent_without key (entries t) (entries rest) get in
      let (t', (q, valid, same, completed)) =
        insert_lem c rest key peer ready absent (omega arith) in
      (
        t',
        q,
        valid,
        (λ j. ap (lookup j) same ∙ lookup-append_back key j peer (entries t) (entries rest) get),
        completed,
      )

  -- The last part: a peer that goes on is inserted.
  finish_lem :
      (key : ResponsePeer I) (valid_until : ValidUntil) (t rest : TorrentData I)
      (status : PeerStatus)
      → Keeps status rest
      → Without key (entries t) (entries rest)
      → length (entries t) + 1 < u64_mod
      → (t' : TorrentData I) × ((if is_stopped status
            then some rest
            else Torrent.insert c rest key
                (record { valid_until = valid_until; is_seeder = is_seeding status }))
          ≡ some t')
        × IsValid t'
        × Updates (announced_peer status valid_until) key t t'
        × (completed_count t' ≡ completed_count rest)
  finish_lem key valid_until t rest PeerStatus.stopped valid (d, get, size) fits =
      (rest, refl, valid, get, refl)
  finish_lem key valid_until t rest PeerStatus.seeding ready without fits =
      inserted_lem key _ t rest ready without fits
  finish_lem key valid_until t rest PeerStatus.leeching ready without fits =
      inserted_lem key _ t rest ready without fits

  -- On a well-formed torrent whose counters have room, an announce does not fail. It leaves the
  -- torrent well formed, with the announcing peer as it says, or without it once it has stopped, and
  -- every other peer as before; the downloads grow by one exactly on the completed event; and the
  -- response counts the seeders and leechers among the other peers and holds as many of these as
  -- it may, none twice.
  pub upsert_lem :
      (config : Config) (rng : r.Source) (request : AnnounceRequest) (ip_address : I)
      (valid_until : ValidUntil) (t : TorrentData I)
      → IsValid t
      → completed_count t + 1 < u64_mod
      → length (entries t) + 1 < u64_mod
      → (t' : TorrentData I) × (response : ResponseData I) × (rng' : r.Source)
        × (upsert_peer_and_get_response_peers c r config rng request ip_address valid_until t
            ≡ some (t', response, rng'))
        × Outcome config request ip_address valid_until t t' response
  unfolding upsert_peer_and_get_response_peers
  upsert_lem config rng request ip_address valid_until t valid fits room =
      let key : ResponsePeer I = record { ip_address = ip_address; port = request.port } in
      let max = num_peers_to_take config request.numwant in
      let status = status_of request in
      let (t1, q1, valid1, same1, completed1) = increment_lem request.event t valid fits in
      let (t2, (response, rng', q2, without, answers, keeps, completed2)) =
        respond_lem c r key status max rng t1 valid1 in
      let gone = subst (λ l. Without key l (entries t2)) same1 without in
      let (t', q3, valid3, updated, completed3) =
        finish_lem key valid_until t t2 status keeps gone room in
      (
        t',
        response,
        rng',
        rw (q1, q2, q3) refl,
        (valid3, updated, completed3 ∙ completed2 ∙ completed1, (entries t2, gone, answers)),
      )
