-- ===== src/Udp/Swarm/PeerMap/Announce.antt =====
-- `PeerMap::announce` as a whole: what it does to the map of peers, and what it answers.
use mathlib.Core.Path.{subst}
use tracker_enhanced.Prelude.{
  ℕ, ◌+◌, ◌<◌, ◌≡◌, refl, sym, ap, ◌∙◌, Bool, inl, inr, Option, none, some, List, arith, Eq, ◌==◌,
  list_eq, nat_eq, length, u64_mod, checked_add, if◌then◌else◌, Bool-cases,
}
use tracker_enhanced.Prelude.Entries.{lookup, lookup-append_back, absent_without}
use tracker_enhanced.Crates.{Rng}
use tracker_enhanced.Common.Time.{ValidUntil}
use tracker_enhanced.UdpProtocol.Bytes.{get_i32}
use tracker_enhanced.UdpProtocol.Messages.{
  ResponsePeer, response_peer_eq, AnnounceRequest, AnnounceEvent,
}
use tracker_enhanced.UdpProtocol.Request.{event_to_bytes, event_from_bytes}
use tracker_enhanced.Udp.Swarm.Config.{
  Config, Peer, PeerStatus, is_stopped, is_seeding, from_event_and_bytes_left,
}
use tracker_enhanced.Udp.Swarm.Peers.{Containers, Entry}
use tracker_enhanced.Udp.Swarm.PeerMap
use tracker_enhanced.Udp.Swarm.PeerMap.{
  PeerMap, small, large, Announced, Responded, increment_completed, peers_to_take,
  announce_messages,
}
use tracker_enhanced.Udp.Swarm.PeerMap.Invariant.{
  entries, completed_count, IsValid, IsReady, insert_lem,
}
use tracker_enhanced.Udp.Swarm.PeerMap.Next.{Keeps}
use tracker_enhanced.Udp.Swarm.PeerMap.Respond.{Without, Answers, respond_lem}

abbrev pub is_completed : AnnounceRequest → Bool
is_completed request = request.event == event_to_bytes AnnounceEvent.completed

abbrev pub status_of : AnnounceRequest → PeerStatus
status_of request = from_event_and_bytes_left (event_from_bytes request.event) request.bytes_left

checked_eq : (n : ℕ) → n + 1 < u64_mod → checked_add u64_mod n 1 ≡ some (n + 1)
checked_eq n h = ground arith

module _ {I : Type 0} ⦃e : Eq I⦄ where
  abbrev Incremented : AnnounceRequest → PeerMap I → PeerMap I → Type 0
  Incremented request m m' =
      (increment_completed request.event m ≡ some m')
      × IsValid m'
      × (entries m' ≡ entries m)
      × (completed_count m'
          ≡ (if is_completed request then completed_count m + 1 else completed_count m))

  increment_lem :
      (request : AnnounceRequest) (m : PeerMap I)
      → IsValid m
      → completed_count m + 1 < u64_mod
      → (m' : PeerMap I) × Incremented request m m'
  unfolding increment_completed
  increment_lem request (small m) valid fits = elim (Bool-cases (is_completed request)) [
    | inl hit ↦ (
      small (record m { completed_count = m.completed_count + 1 }),
      (rw (hit, checked_eq m.completed_count fits), valid, refl, rw hit),
    )
    | inr miss ↦ (small m, (rw miss, valid, refl, rw miss))
  ]
  increment_lem request (large m) valid fits = elim (Bool-cases (is_completed request)) [
    | inl hit ↦ (
      large (record m { completed_count = m.completed_count + 1 }),
      (rw (hit, checked_eq m.completed_count fits), valid, refl, rw hit),
    )
    | inr miss ↦ (large m, (rw miss, valid, refl, rw miss))
  ]

module _ {I : Type 0} ⦃e : Eq I⦄ (c : Containers I) (r : Rng) where
  -- What the announcing peer is in the map afterwards: nothing once it has stopped.
  abbrev pub announced_peer : AnnounceRequest → PeerStatus → ValidUntil → Option Peer
  announced_peer request status valid_until =
      if is_stopped status
      then none
      else some (record {
        peer_id = request.peer_id;
        is_seeder = is_seeding status;
        valid_until = valid_until;
      })

  -- The peers after an announce: the others are as they were.
  abbrev pub Updates : Option Peer → ResponsePeer I → PeerMap I → PeerMap I → Type 0
  Updates peer key m m' =
      (j : ResponsePeer I)
      → lookup j (entries m') ≡ (if key == j then peer else lookup j (entries m))

  -- What an announce leaves and answers, by the peers alone.
  abbrev pub Outcome :
      Config → r.Source → AnnounceRequest → I → ValidUntil → PeerMap I → Announced c r → Type 0
  Outcome config rng request ip_address valid_until m a =
      let key : ResponsePeer I = record { ip_address = ip_address; port = request.port } in
      let max = peers_to_take config.max_response_peers (get_i32 request.peers_wanted) in
      (PeerMap.announce c r config rng request ip_address valid_until m ≡ some a)
      × IsValid a.map
      × Updates (announced_peer request (status_of request) valid_until) key m a.map
      × (completed_count a.map
          ≡ (if is_completed request then completed_count m + 1 else completed_count m))
      × (a.messages
          ≡ announce_messages config (status_of request) request.peer_id (lookup key (entries m)))
      × ((others : List (Entry I)) × Without key (entries m) others
          × Answers config request max others a.response)

  inserted_lem :
      (key : ResponsePeer I) (peer : Peer) (m rest : PeerMap I)
      → IsReady rest
      → Without key (entries m) (entries rest)
      → length (entries m) + 1 < u64_mod
      → (m' : PeerMap I) × (PeerMap.insert c rest key peer ≡ some m')
        × IsValid m'
        × Updates (some peer) key m m'
        × (completed_count m' ≡ completed_count rest)
  inserted_lem key peer m rest ready (d, get, size) fits =
      let absent = absent_without key (entries m) (entries rest) get in
      let (m', (q, valid, same, completed)) =
        insert_lem c rest key peer ready absent (omega arith) in
      (
        m',
        q,
        valid,
        (λ j. ap (lookup j) same ∙ lookup-append_back key j peer (entries m) (entries rest) get),
        completed,
      )

  -- The last part: a peer that goes on is inserted.
  finish_lem :
      (request : AnnounceRequest) (key : ResponsePeer I) (valid_until : ValidUntil) (m : PeerMap I)
      (rest : PeerMap I) (status : PeerStatus)
      → Keeps status rest
      → Without key (entries m) (entries rest)
      → length (entries m) + 1 < u64_mod
      → (m' : PeerMap I) × ((if is_stopped status
            then some rest
            else PeerMap.insert c rest key (record {
              peer_id = request.peer_id;
              is_seeder = is_seeding status;
              valid_until = valid_until;
            }))
          ≡ some m')
        × IsValid m'
        × Updates (announced_peer request status valid_until) key m m'
        × (completed_count m' ≡ completed_count rest)
  finish_lem request key valid_until m rest PeerStatus.stopped valid (d, get, size) fits =
      (rest, refl, valid, get, refl)
  finish_lem request key valid_until m rest PeerStatus.seeding ready without fits =
      inserted_lem key _ m rest ready without fits
  finish_lem request key valid_until m rest PeerStatus.leeching ready without fits =
      inserted_lem key _ m rest ready without fits

  -- On a well-formed map whose counters have room, an announce does not fail. It leaves a
  -- well-formed map in which the announcing peer is as it says, or absent once it has stopped, and
  -- every other peer is as before; the completed downloads grow by one exactly on that event; the
  -- messages tell of a peer that is new or gone; and the response counts the seeders and leechers
  -- among the other peers and holds as many of those peers as it may, none twice.
  pub announce_lem :
      (config : Config) (rng : r.Source) (request : AnnounceRequest) (ip_address : I)
      (valid_until : ValidUntil) (m : PeerMap I)
      → IsValid m
      → completed_count m + 1 < u64_mod
      → length (entries m) + 1 < u64_mod
      → (a : Announced c r) × Outcome config rng request ip_address valid_until m a
  unfolding PeerMap.announce
  announce_lem config rng request ip_address valid_until m valid fits room =
      let key : ResponsePeer I = record { ip_address = ip_address; port = request.port } in
      let max = peers_to_take config.max_response_peers (get_i32 request.peers_wanted) in
      let status = status_of request in
      let (m1, (q1, valid1, same1, completed1)) = increment_lem request m valid fits in
      let (s, others, (q2, without, answers, removed, same2, keeps, completed2)) =
        respond_lem c r config request key status max rng m1 valid1 in
      let gone = subst (λ l. Without key l others) same1 without in
      let (m', q3, valid3, updated, completed3) =
        finish_lem request key valid_until m s.map status keeps
          (subst (Without key (entries m)) (sym same2) gone) room in
      let messages = announce_messages config status request.peer_id in
      (
        record { map = m'; rng = s.rng; response = s.response; messages = messages s.removed },
        (
          rw (q1, q2, q3),
          valid3,
          updated,
          completed3 ∙ completed2 ∙ completed1,
          ap messages (removed ∙ ap (lookup key) same1),
          (others, gone, answers),
        ),
      )
