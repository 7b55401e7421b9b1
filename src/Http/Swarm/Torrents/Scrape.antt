-- ===== src/Http/Swarm/Torrents/Scrape.antt =====
-- What a scrape answers.
use tracker_enhanced.Prelude.{
  ◌-◌, ◌≡◌, refl, ap, ◌∙◌, Bool, true, false, ◌||◌, Option, none, some, List, [], ◌∷◌, Eq, ◌==◌,
  list_eq, nat_eq, if◌then◌else◌, length, min, take, count,
}
use tracker_enhanced.Prelude.Entries.{lookup}
use tracker_enhanced.Prelude.Ordered.{
  btree_insert, lookup-btree_insert, IsOrdered, btree_insert-IsOrdered,
}
use tracker_enhanced.UdpProtocol.Bytes.{Bytes}
use tracker_enhanced.Http.Messages.{
  ScrapeRequest, ScrapeResponse, ScrapeStatistics, response_peer_eq,
}
use tracker_enhanced.Http.Swarm.Peers.{Containers, seeds}
use tracker_enhanced.Http.Swarm.Torrent.{TorrentData, Config, u64_to_usize_checked}
use tracker_enhanced.Http.Swarm.Torrent.Invariant.{entries, completed_count, scrape_statistics_eq}
use tracker_enhanced.Http.Swarm.Torrents.{
  TorrentMap, statistics, scrape_files, handle_scrape_request,
}
use tracker_enhanced.Http.Swarm.Torrents.Announce.{IsValidMap}

-- The counts of a torrent, or zeros.
abbrev pub counts : {I : Type 0} → Option (TorrentData I) → ScrapeStatistics
counts none = record { complete = 0; incomplete = 0; downloaded = 0 }
counts (some t) = record {
  complete = count seeds (entries t);
  incomplete = length (entries t) - count seeds (entries t);
  downloaded = u64_to_usize_checked (completed_count t);
}

unfoldable pub asked : Bytes → List Bytes → Bool
asked j [] = false
asked j (info_hash ∷ info_hashes) = info_hash == j || asked j info_hashes

widen :
    (a b : Bool) (found : Option ScrapeStatistics) (old : Option ScrapeStatistics)
    (s : Option ScrapeStatistics)
    → (b ≡ true → s ≡ found)
    → (if a then found else (if b then s else old)) ≡ (if b || a then found else old)
widen true true found old s h = refl
widen false true found old s h = h refl
widen true false found old s h = refl
widen false false found old s h = refl

module _ {I : Type 0} ⦃e : Eq I⦄ (c : Containers I) (torrents : TorrentMap I)
    (ok : IsValidMap torrents) where
  statistics_eq :
      (info_hash : Bytes) (o : Option (TorrentData I))
      → lookup info_hash torrents ≡ o
      → statistics c o ≡ some (counts o)
  statistics_eq info_hash none h = refl
  statistics_eq info_hash (some t) h = scrape_statistics_eq c t (ok.each info_hash t h)

  scrape_files_lem :
      (info_hashes : List Bytes) (files : List (Bytes × ScrapeStatistics))
      → IsOrdered files
      → (files' : List (Bytes × ScrapeStatistics)) × (scrape_files c torrents info_hashes files
          ≡ some files')
        × IsOrdered files'
        × ((j : Bytes)
            → lookup j files'
              ≡ (if asked j info_hashes then some (counts (lookup j torrents)) else lookup j files))
  unfolding scrape_files asked
  scrape_files_lem [] files o = (files, refl, o, λ j. refl)
  scrape_files_lem (info_hash ∷ info_hashes) files o =
      let s = counts (lookup info_hash torrents) in
      let (files', q, o', looks) =
        scrape_files_lem info_hashes (btree_insert info_hash s files)
          (btree_insert-IsOrdered info_hash s files o) in
      (
        files',
        rw (statistics_eq info_hash (lookup info_hash torrents) refl) q,
        o',
        λ j.
            looks j
            ∙ ap (λ x. if asked j info_hashes then some (counts (lookup j torrents)) else x)
                (lookup-btree_insert info_hash j s files)
            ∙ widen (asked j info_hashes) (info_hash == j) (some (counts (lookup j torrents)))
                (lookup j files) (some s)
                (λ b.
                  ap (λ k. some (counts (lookup k torrents))) ((list_eq.beq_iff info_hash j).0 b)),
      )

  -- A scrape of well-formed torrents does not fail. Its response has, in ascending order, exactly
  -- the first hashes asked for, as many as the configuration accepts, each with the counts of its
  -- torrent, or zeros where there is none.
  pub scrape_torrents_lem :
      (config : Config) (request : ScrapeRequest)
      → (response : ScrapeResponse) × (handle_scrape_request c config request torrents
          ≡ some response)
        × IsOrdered response.files
        × ((j : Bytes)
            → lookup j response.files ≡ (
                if asked j (
                  take
                    (min (length request.info_hashes) config.max_scrape_torrents)
                    request.info_hashes)
                then some (counts (lookup j torrents))
                else none))
  unfolding handle_scrape_request lookup
  scrape_torrents_lem config request =
      let num_to_take = min (length request.info_hashes) config.max_scrape_torrents in
      let (files, q, o, looks) = scrape_files_lem (take num_to_take request.info_hashes) [] tt in
      (record { files = files }, rw q refl, o, looks)
