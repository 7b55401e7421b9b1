-- ===== src/Ws/Swarm/Peers/Counting.antt =====
-- The peers of a torrent stand under distinct ids and its seeders are counted right: what each
-- operation makes of the peers, and that it keeps this.
use mathlib.Core.Path.{subst}
use tracker_enhanced.Prelude.{
  ℕ, ◌+◌, ◌-◌, ◌≤◌, ◌<◌, ◌≡◌, refl, ap, Bool, true, false, not, Option, none, some, List, [], ◌∷◌,
  ◌>>=◌, arith, ◌==◌, list_eq, nat_eq, if◌then◌else◌, length, count, u64_mod, Option-cases,
  Bool-cases, inl, inr, some_inj, count-le-length,
}
use tracker_enhanced.Prelude.Entries.{
  lookup, insert, swap_remove, Distinct, lookup-insert, insert-Distinct, lookup-swap_remove,
  swap_remove-Distinct, count-swap_remove, weigh,
}
use tracker_enhanced.Common.Time.{SecondsSinceServerStart, ValidUntil, new_with_now}
use tracker_enhanced.UdpProtocol.Bytes.{Bytes}
use tracker_enhanced.Ws.Messages.{AnnounceRequest, InMessageMeta}
use tracker_enhanced.Ws.Swarm.Peers.{
  Peer, TorrentData, default_torrent_data, Config, Containers, expecting_answer_eq, PeerStatus,
  status_of, num_leechers, less_one_if, one_more_if, new_peer, update_peer, insert_peer,
  insert_or_update_peer, handle_connection_closed, uncount,
}

abbrev pub seeds : Bytes × Peer → Bool
seeds (k, p) = p.seeder

-- The expected answers of each peer stand under distinct keys.
abbrev pub Expects : List (Bytes × Peer) → Type 0
Expects l = (k : Bytes) (p : Peer) → lookup k l ≡ some p → Distinct p.expecting_answers

pub record IsValid (t : TorrentData) : Type 0 where
  pub distinct : Distinct t.peers
  pub counted : t.num_seeders ≡ count seeds t.peers
  pub expects : Expects t.peers

pub default-IsValid : IsValid default_torrent_data
unfolding lookup count
default-IsValid = record { distinct = tt; counted = refl; expects = λ k p h. cc }

module _ (t : TorrentData) (valid_t : IsValid t) where
  -- The count of leechers does not fall below zero.
  pub num_leechers_lem : num_leechers t ≡ some (length t.peers - t.num_seeders)
  num_leechers_lem = ground (arith, valid_t.counted, count-le-length seeds t.peers)

-- A peer of a torrent after it announced a status.
abbrev pub announced : InMessageMeta → ValidUntil → PeerStatus → Option Peer → Option Peer
announced meta until PeerStatus.stopped old = none
announced meta until PeerStatus.leeching none = some (new_peer meta false until)
announced meta until PeerStatus.seeding none = some (new_peer meta true until)
announced meta until PeerStatus.leeching (some p) =
    some (record p { seeder = false; valid_until = until })
announced meta until PeerStatus.seeding (some p) =
    some (record p { seeder = true; valid_until = until })

-- One peer is replaced, or removed, and the others are as before.
abbrev pub Sets : Bytes → Option Peer → TorrentData → TorrentData → Type 0
Sets peer_id o t t' =
    (j : Bytes) → lookup j t'.peers ≡ (if peer_id == j then o else lookup j t.peers)

count-insert :
    (k : Bytes) (p : Peer) (l : List (Bytes × Peer))
    → count seeds (insert k p l) + weigh seeds k (lookup k l)
      ≡ count seeds l + (if p.seeder then 1 else 0)
unfolding lookup insert count
count-insert k p [] = ground arith
count-insert k p ((j, w) ∷ l) = ground (arith, count-insert k p l)

Sets-Expects :
    (peer_id : Bytes) (o : Option Peer) (t t' : TorrentData)
    → ((p : Peer) → o ≡ some p → Distinct p.expecting_answers)
    → Sets peer_id o t t'
    → Expects t.peers
    → Expects t'.peers
Sets-Expects peer_id o t t' fresh set old k p h = elim (Bool-cases (peer_id == k)) [
  | inl here ↦ fresh p (ground (arith, set k))
  | inr there ↦ old k p (ground (arith, set k))
]

absent_set :
    (peer_id j : Bytes) (t : TorrentData)
    → lookup peer_id t.peers ≡ none
    → lookup j t.peers ≡ (if peer_id == j then none else lookup j t.peers)
absent_set peer_id j t h = elim (Bool-cases (peer_id == j)) [
  | inl here ↦ rw here (subst (λ k. lookup k t.peers ≡ none) ((list_eq.beq_iff peer_id j).0 here) h)
  | inr there ↦ rw there refl
]

module _ (c : Containers) (t : TorrentData) (valid_t : IsValid t) where
  -- A peer that is written under its id.
  pub written :
      (peer_id : Bytes) (p : Peer) (n : ℕ)
      → n + weigh seeds peer_id (lookup peer_id t.peers)
        ≡ t.num_seeders + (if p.seeder then 1 else 0)
      → Distinct p.expecting_answers
      → (let t' : TorrentData = record { peers = insert peer_id p t.peers; num_seeders = n } in
          IsValid t' × Sets peer_id (some p) t t')
  written peer_id p n sum d =
      let set : Sets peer_id (some p) t
          (record { peers = insert peer_id p t.peers; num_seeders = n }) =
        λ j. lookup-insert peer_id j p t.peers in
      (
        record {
          distinct = insert-Distinct peer_id p t.peers valid_t.distinct;
          counted = omega (arith, count-insert peer_id p t.peers, valid_t.counted);
          expects =
              Sets-Expects peer_id (some p) t
                (record { peers = insert peer_id p t.peers; num_seeders = n })
                (λ q e. subst (λ x. Distinct x.expecting_answers) (some_inj e) d) set
                valid_t.expects;
        },
        set,
      )

  removed :
      (peer_id : Bytes) (n : ℕ)
      → n + weigh seeds peer_id (lookup peer_id t.peers) ≡ t.num_seeders
      → (let t' : TorrentData = record { peers = swap_remove peer_id t.peers; num_seeders = n } in
          IsValid t' × Sets peer_id none t t')
  removed peer_id n sum =
      let set : Sets peer_id none t
          (record { peers = swap_remove peer_id t.peers; num_seeders = n }) =
        λ j. lookup-swap_remove peer_id j t.peers valid_t.distinct in
      (
        record {
          distinct = swap_remove-Distinct peer_id t.peers valid_t.distinct;
          counted = omega (arith, count-swap_remove seeds peer_id t.peers, valid_t.counted);
          expects =
              Sets-Expects peer_id none t
                (record { peers = swap_remove peer_id t.peers; num_seeders = n }) (λ q e. cc) set
                valid_t.expects;
        },
        set,
      )

  -- What an operation that sets one peer comes to.
  abbrev pub SetsTo : Option TorrentData → Bytes → Option Peer → Type 0
  SetsTo result peer_id o =
      (t' : TorrentData) × (result ≡ some t') × IsValid t' × Sets peer_id o t t'

  weight_le : (peer_id : Bytes) → weigh seeds peer_id (lookup peer_id t.peers) ≤ t.num_seeders
  weight_le peer_id = omega (arith, count-swap_remove seeds peer_id t.peers, valid_t.counted)

  less_one_eq :
      (peer_id : Bytes) (p : Peer)
      → lookup peer_id t.peers ≡ some p
      → less_one_if p.seeder t.num_seeders
        ≡ some (t.num_seeders - weigh seeds peer_id (lookup peer_id t.peers))
  less_one_eq peer_id p h =
      let low : weigh seeds peer_id (some p) ≤ t.num_seeders =
        subst (λ o. weigh seeds peer_id o ≤ t.num_seeders) h (weight_le peer_id) in
      rw h (ground arith)

  one_more_eq :
      (b : Bool)
      → t.num_seeders + 1 < u64_mod
      → one_more_if b t.num_seeders ≡ some (t.num_seeders + (if b then 1 else 0))
  one_more_eq b fits = ground arith

  update_peer_lem :
      (meta : InMessageMeta) (peer_id : Bytes) (p : Peer) (status : PeerStatus) (until : ValidUntil)
      → lookup peer_id t.peers ≡ some p
      → t.num_seeders + 1 < u64_mod
      → SetsTo
          (update_peer c t peer_id p status until)
          peer_id
          (announced meta until status (some p))
  unfolding update_peer
  update_peer_lem meta peer_id p PeerStatus.leeching until h fits =
      let n = t.num_seeders - weigh seeds peer_id (lookup peer_id t.peers) in
      let q : Peer = record p { seeder = false; valid_until = until } in
      let (ok, set) =
        written peer_id q n (omega (arith, weight_le peer_id)) (valid_t.expects peer_id p h) in
      (
        record { peers = insert peer_id q t.peers; num_seeders = n },
        rw (less_one_eq peer_id p h) refl,
        ok,
        set,
      )
  update_peer_lem meta peer_id p PeerStatus.seeding until h fits =
      let n = t.num_seeders + (if not p.seeder then 1 else 0) in
      let q : Peer = record p { seeder = true; valid_until = until } in
      let (ok, set) = written peer_id q n (rw h (ground arith)) (valid_t.expects peer_id p h) in
      (
        record { peers = insert peer_id q t.peers; num_seeders = n },
        rw (one_more_eq (not p.seeder) fits) refl,
        ok,
        set,
      )
  update_peer_lem meta peer_id p PeerStatus.stopped until h fits =
      let n = t.num_seeders - weigh seeds peer_id (lookup peer_id t.peers) in
      let (ok, set) = removed peer_id n (omega (arith, weight_le peer_id)) in
      (
        record { peers = swap_remove peer_id t.peers; num_seeders = n },
        rw (less_one_eq peer_id p h, c.peers.map_swap_remove_lem t.peers peer_id valid_t.distinct)
            refl,
        ok,
        set,
      )

  insert_peer_lem :
      (meta : InMessageMeta) (peer_id : Bytes) (status : PeerStatus) (until : ValidUntil)
      → lookup peer_id t.peers ≡ none
      → t.num_seeders + 1 < u64_mod
      → SetsTo
          (insert_peer c t meta peer_id status until)
          peer_id
          (announced meta until status none)
  unfolding insert_peer
  insert_peer_lem meta peer_id PeerStatus.leeching until h fits =
      let p = new_peer meta false until in
      let (ok, set) = written peer_id p t.num_seeders (rw h (omega arith)) tt in
      (
        record { peers = insert peer_id p t.peers; num_seeders = t.num_seeders },
        rw (c.peers.map_insert_lem t.peers peer_id p valid_t.distinct) refl,
        ok,
        set,
      )
  insert_peer_lem meta peer_id PeerStatus.seeding until h fits =
      let p = new_peer meta true until in
      let (ok, set) = written peer_id p (t.num_seeders + 1) (rw h (omega arith)) tt in
      (
        record { peers = insert peer_id p t.peers; num_seeders = t.num_seeders + 1 },
        rw (one_more_eq true fits, c.peers.map_insert_lem t.peers peer_id p valid_t.distinct) refl,
        ok,
        set,
      )
  insert_peer_lem meta peer_id PeerStatus.stopped until h fits =
      (t, refl, valid_t, λ j. absent_set peer_id j t h)

  -- An announce sets the peer that it is from, as its status says.
  pub insert_or_update_peer_lem :
      (config : Config) (now : SecondsSinceServerStart) (meta : InMessageMeta)
      (request : AnnounceRequest) (until : ValidUntil)
      → new_with_now now config.max_peer_age ≡ some until
      → t.num_seeders + 1 < u64_mod
      → SetsTo
          (insert_or_update_peer c config now meta request t)
          request.peer_id
          (announced meta until (status_of request) (lookup request.peer_id t.peers))
  unfolding insert_or_update_peer
  insert_or_update_peer_lem config now meta request until q fits =
      elim (Option-cases (lookup request.peer_id t.peers)) [
        | inl absent ↦
            rw (q, absent)
              (insert_peer_lem meta request.peer_id (status_of request) until absent fits)
        | inr (p, there) ↦
            rw (q, there)
              (update_peer_lem meta request.peer_id p (status_of request) until there fits)
      ]

  uncount_eq :
      (peer_id : Bytes)
      → uncount c t (swap_remove peer_id t.peers) (lookup peer_id t.peers)
        ≡ some (record {
          peers = swap_remove peer_id t.peers;
          num_seeders = t.num_seeders - weigh seeds peer_id (lookup peer_id t.peers);
        })
  uncount_eq peer_id = elim (Option-cases (lookup peer_id t.peers)) [
    | inl absent ↦ rw absent (ground arith)
    | inr (p, there) ↦ rw there (
        ap (λ o. o >>= λ n. some (record { peers = swap_remove peer_id t.peers; num_seeders = n }))
          (subst
            (λ o. less_one_if p.seeder t.num_seeders ≡ some (t.num_seeders - weigh seeds peer_id o))
            there (less_one_eq peer_id p there)))
  ]

  -- A closed connection removes its peer.
  pub handle_connection_closed_lem :
      (peer_id : Bytes) → SetsTo (handle_connection_closed c t peer_id) peer_id none
  unfolding handle_connection_closed
  handle_connection_closed_lem peer_id =
      let n = t.num_seeders - weigh seeds peer_id (lookup peer_id t.peers) in
      let (ok, set) = removed peer_id n (omega (arith, weight_le peer_id)) in
      (
        record { peers = swap_remove peer_id t.peers; num_seeders = n },
        rw (c.peers.map_swap_remove_lem t.peers peer_id valid_t.distinct) (uncount_eq peer_id),
        ok,
        set,
      )
