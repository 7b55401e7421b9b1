-- ===== src/Ws/Swarm/Torrents/Scrape.antt =====
-- What a scrape answers.
use tracker_enhanced.Prelude.{
  ◌-◌, ◌≡◌, refl, ap, ◌∙◌, Bool, true, false, ◌||◌, Option, none, some, List, [], ◌∷◌, ◌++◌, ◌==◌,
  list_eq, nat_eq, if◌then◌else◌, length, min, take, Option-cases, inl, inr,
}
use mathlib.Core.Path.{subst}
use tracker_enhanced.Prelude.Entries.{lookup, Distinct}
use tracker_enhanced.Crates.{HashMap}
use tracker_enhanced.UdpProtocol.Bytes.{Bytes}
use tracker_enhanced.Ws.Messages.{
  ScrapeRequest, ScrapeStatistics, ScrapeRequestInfoHashes, as_vec, InMessageMeta, Out, out_meta,
  scrape_response,
}
use tracker_enhanced.Ws.Swarm.Peers.{TorrentData, Config}
use tracker_enhanced.Ws.Swarm.Peers.Counting.{num_leechers_lem}
use tracker_enhanced.Ws.Swarm.Torrents.{TorrentMap, scrape_files, handle_scrape_request}
use tracker_enhanced.Ws.Swarm.Torrents.Ownership.{IsValidMap}

-- The statistics of a torrent, if it is there.
abbrev pub statistics : Option TorrentData → Option ScrapeStatistics
statistics none = none
statistics (some t) = some (record {
  complete = t.num_seeders;
  incomplete = length t.peers - t.num_seeders;
  downloaded = 0;
})

unfoldable pub asked : Bytes → List Bytes → Bool
asked j [] = false
asked j (info_hash ∷ info_hashes) = info_hash == j || asked j info_hashes

abbrev pub or_else : Option ScrapeStatistics → Option ScrapeStatistics → Option ScrapeStatistics
or_else none other = other
or_else (some s) other = some s

or_else_none : (o : Option ScrapeStatistics) → or_else o none ≡ o
or_else_none none = refl
or_else_none (some s) = refl

widen_absent :
    (a b : Bool) (found old : Option ScrapeStatistics)
    → (b ≡ true → found ≡ none)
    → (if a then or_else found old else old) ≡ (if b || a then or_else found old else old)
widen_absent true true found old h = refl
widen_absent false true found old h = let gone = h refl in rw gone refl
widen_absent a false found old h = refl

widen_present :
    (a b : Bool) (found old new : Option ScrapeStatistics) (s : ScrapeStatistics)
    → new ≡ (if b then some s else old)
    → (b ≡ true → found ≡ some s)
    → (if a then or_else found new else new) ≡ (if b || a then or_else found old else old)
widen_present true true found old new s q h = let there = h refl in rw there refl
widen_present false true found old new s q h = let there = h refl in rw there q
widen_present a false found old new s q h = ap (λ n. if a then or_else found n else n) q

module _ (h : HashMap Bytes ScrapeStatistics) (torrents : TorrentMap)
    (ok : IsValidMap torrents) where
  scrape_files_lem :
      (info_hashes : List Bytes) (files : List (Bytes × ScrapeStatistics))
      → Distinct files
      → (files' : List (Bytes × ScrapeStatistics)) × (scrape_files h torrents info_hashes files
          ≡ some files')
        × Distinct files'
        × ((j : Bytes)
            → lookup j files' ≡ (
                if asked j info_hashes
                then or_else (statistics (lookup j torrents)) (lookup j files)
                else lookup j files))
  unfolding scrape_files asked
  scrape_files_lem [] files d = (files, refl, d, λ j. refl)
  scrape_files_lem (info_hash ∷ info_hashes) files d =
      elim (Option-cases (lookup info_hash torrents)) [
        | inl absent ↦
            let (files', q, d', looks) = scrape_files_lem info_hashes files d in
            (
              files',
              rw (absent, scrape_files) q,
              d',
              λ j.
                  looks j
                  ∙ widen_absent (asked j info_hashes) (info_hash == j)
                      (statistics (lookup j torrents)) (lookup j files)
                      (λ e. found j e none absent),
            )
        | inr (t, there) ↦
            let s : ScrapeStatistics = record {
              complete = t.num_seeders;
              incomplete = length t.peers - t.num_seeders;
              downloaded = 0;
            } in
            let (files', q, d', looks) =
              scrape_files_lem info_hashes (h.hash_insert files info_hash s)
                (h.hash_insert-Distinct files info_hash s d) in
            (
              files',
              rw (there, scrape_files, num_leechers_lem t (ok.each info_hash t there)) q,
              d',
              λ j.
                  looks j
                  ∙ widen_present (asked j info_hashes) (info_hash == j)
                      (statistics (lookup j torrents)) (lookup j files)
                      (lookup j (h.hash_insert files info_hash s)) s
                      (h.lookup-hash_insert files info_hash j s d) (λ e. found j e (some t) there),
            )
      ]
    where
      found :
          (j : Bytes)
          → (info_hash == j) ≡ true
          → (o : Option TorrentData) → lookup info_hash torrents ≡ o
          → statistics (lookup j torrents) ≡ statistics o
      found j e o q =
          subst (λ k. statistics (lookup k torrents) ≡ statistics o)
            ((list_eq.beq_iff info_hash j).0 e) (ap statistics q)

  -- A scrape does not fail; it answers, on the connection that asked, with the statistics of just
  -- those torrents that are there, of the first ones asked for.
  pub handle_scrape_request_lem :
      (config : Config) (meta : InMessageMeta) (request : ScrapeRequest)
      (hashes : ScrapeRequestInfoHashes) (out : List Out)
      → request.info_hashes ≡ some hashes
      → (files : List (Bytes × ScrapeStatistics)) × (handle_scrape_request h config meta request out
            torrents
          ≡ some (out ++ (out_meta meta, scrape_response (record { files = files })) ∷ []))
        × ((j : Bytes)
            → lookup j files ≡ (
                if asked j
                  (take (min (length (as_vec hashes)) config.max_scrape_torrents) (as_vec hashes))
                then statistics (lookup j torrents)
                else none))
  unfolding handle_scrape_request lookup
  handle_scrape_request_lem config meta request hashes out q =
      let taken = take (min (length (as_vec hashes)) config.max_scrape_torrents) (as_vec hashes) in
      let (files, e, d, looks) = scrape_files_lem taken [] tt in
      (
        files,
        rw (q, handle_scrape_request, e) refl,
        λ j.
            looks j
            ∙ ap (λ o. if asked j taken then o else none)
                (or_else_none (statistics (lookup j torrents))),
      )
