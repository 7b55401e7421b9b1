-- ===== src/Ws/Swarm/Peers/Expiry.antt =====
-- What a cleaning keeps of the peers of a torrent and of the answers that they expect.
use mathlib.Core.Path.{subst}
use tracker_enhanced.Prelude.{
  ℕ, ◌+◌, ◌-◌, ◌≡◌, refl, sym, ◌∙◌, Option, none, some, List, [], ◌∷◌, ◌>>=◌, arith, list_eq,
  nat_eq, if◌then◌else◌, length, count, retain, Bool-cases, inl, inr, some_inj, then_branch,
}
use tracker_enhanced.Prelude.Entries.{
  lookup, Distinct, retain_values, keep_value, lookup-retain_values, retain_values-Distinct,
  retain-Distinct,
}
use tracker_enhanced.Crates.{retain_state, retain_values_state}
use tracker_enhanced.Common.Time.{SecondsSinceServerStart, valid}
use tracker_enhanced.UdpProtocol.Bytes.{Bytes}
use tracker_enhanced.Ws.Swarm.Peers.{
  expecting_answer_eq, Expecting, Peer, TorrentData, Containers, less_one_if, still_expected,
  keep_peer, clean_and_get_num_peers,
}
use tracker_enhanced.Ws.Swarm.Peers.Counting.{seeds, Expects, IsValid}

-- The peer that is left of one, if it is still valid, with the answers that it still waits for.
abbrev pub cleaned_peer : SecondsSinceServerStart → Bytes → Peer → Option Peer
cleaned_peer now k p =
    if valid p.valid_until now
    then some (record p { expecting_answers = retain (λ x. valid x.1 now) p.expecting_answers })
    else none

abbrev pub cleaned : SecondsSinceServerStart → TorrentData → TorrentData
cleaned now t =
    let peers = retain_values (cleaned_peer now) t.peers in
    record { peers = peers; num_seeders = count seeds peers }

module _ (c : Containers) (now : SecondsSinceServerStart) where
  expected_eq :
      (l : Expecting)
      → retain_state (still_expected c now) l tt ≡ (retain (λ x. valid x.1 now) l, tt)
  unfolding retain_state retain
  expected_eq [] = refl
  expected_eq ((k, u) ∷ l) = ground (arith, expected_eq l)

  keep_peer_eq :
      (k : Bytes) (p : Peer) (o : Option ℕ)
      → keep_peer c now k p o ≡ (
        cleaned_peer now k p,
        if valid p.valid_until now then o else (o >>= less_one_if p.seeder),
      )
  unfolding keep_peer
  keep_peer_eq k p o =
      rw
        (
          c.expecting.map_retain_lem (still_expected c now) p.expecting_answers tt,
          expected_eq p.expecting_answers,
        )
        (elim (Bool-cases (valid p.valid_until now)) [
          | inl kept ↦ rw kept refl
          | inr dropped ↦ rw dropped refl
        ])

  retain_eq :
      (l : List (Bytes × Peer)) (n m : ℕ)
      → n ≡ count seeds l + m
      → retain_values_state (keep_peer c now) l (some n) ≡ (
        retain_values (cleaned_peer now) l,
        some (count seeds (retain_values (cleaned_peer now) l) + m),
      )
  unfolding retain_values_state retain_values count
  retain_eq [] n m h = ground arith
  retain_eq ((k, p) ∷ l) n m h = elim (Bool-cases (valid p.valid_until now)) [
    | inl kept ↦
        ground (arith, keep_peer_eq k p (some n), retain_eq l n (m + (if p.seeder then 1 else 0)))
    | inr dropped ↦
        ground (arith, keep_peer_eq k p (some n), retain_eq l (n - (if p.seeder then 1 else 0)) m)
  ]

module _ (c : Containers) (now : SecondsSinceServerStart) (t : TorrentData)
    (valid_t : IsValid t) where
  cleaned-Expects : Expects (retain_values (cleaned_peer now) t.peers)
  cleaned-Expects k p h =
      kept (lookup k t.peers) refl
        (sym (lookup-retain_values (cleaned_peer now) k t.peers valid_t.distinct) ∙ h)
    where
      kept :
          (o : Option Peer)
          → lookup k t.peers ≡ o
          → keep_value (cleaned_peer now) k o ≡ some p
          → Distinct p.expecting_answers
      kept none q e = cc
      kept (some old) q e = elim (Bool-cases (valid old.valid_until now)) [
        | inl there ↦
            subst (λ x. Distinct x.expecting_answers)
              (some_inj (
                then_branch (valid old.valid_until now)
                  (some (record old {
                    expecting_answers = retain (λ x. valid x.1 now) old.expecting_answers;
                  }))
                  none (some p) there e))
              (retain-Distinct (λ x. valid x.1 now) old.expecting_answers (valid_t.expects k old q))
        | inr gone ↦ ground arith
      ]

  -- A cleaning keeps exactly the valid peers, each with the answers that it still waits for.
  pub clean_and_get_num_peers_lem :
      (clean_and_get_num_peers c now t ≡ some (cleaned now t, length (cleaned now t).peers))
      × IsValid (cleaned now t)
      × ((j : Bytes)
          → lookup j (cleaned now t).peers ≡ keep_value (cleaned_peer now) j (lookup j t.peers))
  unfolding clean_and_get_num_peers
  clean_and_get_num_peers_lem = (
    rw
        (
          c.peers.map_retain_mut_lem (keep_peer c now) t.peers (some t.num_seeders),
          retain_eq c now t.peers t.num_seeders 0 (omega (arith, valid_t.counted)),
        )
        (ground arith),
    record {
      distinct = retain_values-Distinct (cleaned_peer now) t.peers valid_t.distinct;
      counted = refl;
      expects = cleaned-Expects;
    },
    λ j. lookup-retain_values (cleaned_peer now) j t.peers valid_t.distinct,
  )
