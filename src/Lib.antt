-- ===== src/Lib.antt =====
-- Verification of the Aquatic BitTorrent tracker (enhanced): its UDP, HTTP and WebTorrent
-- trackers and the guards that they share.
--
-- The program. A UDP packet is parsed by `Request::parse_bytes` (crates/udp_protocol). A connect
-- request is answered with a connection id of the `ConnectionValidator`
-- (crates/udp/src/workers/socket/validator.rs), which later requests must present. Announces and
-- scrapes go to `TorrentMaps` (crates/udp/src/swarm.rs): one set of shards for each address
-- family, in a shard the torrents by info hash, in a torrent a `PeerMap`, small with up to two
-- peers or large with an index map. The HTTP tracker parses a request from the path of a GET
-- (crates/http_protocol/src/request.rs, utils.rs) and keeps its torrents in a `TorrentMaps` of
-- its own (crates/http/src/workers/swarm/storage.rs), which is not sharded; its responses are
-- bencoded (crates/http_protocol/src/response.rs). The WebTorrent tracker
-- (crates/ws/src/workers/swarm/storage.rs) also passes WebRTC offers on to random peers of a
-- torrent, remembers which answers each peer expects, and passes these back. In all three a
-- periodic cleaning drops expired peers, empty torrents and torrents that the access list
-- (crates/common/src/access_list.rs) forbids. Violations that the HTTP and WebTorrent front ends
-- see are counted by `AutoBanTracker` (crates/common/src/auto_ban.rs), which bans addresses for
-- a time or for good.
--
-- The files.
--   Prelude: shared names, Boolean tests, lists over native numbers, panics as `none`, integers,
--     maps as sequences of entries with distinct keys (Prelude/Entries), slices and sublists,
--     and `BTreeMap` with byte strings as keys (Prelude/Ordered).
--   Crates: interfaces of `indexmap`, `arrayvec`, `hashbrown` and `rand`, with what their
--     documentation promises as laws, and lists that meet them.
--   PeerMaps, Sampling, Sweep: what the trackers do alike. PeerMaps has the small maps of UDP
--     and HTTP, Sampling their random choice of peers, Sweep the cleaning of HTTP and WebTorrent
--     torrents.
--   UdpProtocol: crates/udp_protocol/src. Layout is the interface of `zerocopy` and the packed
--     layouts, Messages the structs, Request and Response the parsers and writers.
--   Common/Time, Common/Ip, Common/TextSearch: crates/common/src/lib.rs. Common/AccessList:
--     access_list.rs. Common/TrustedProxies: trusted_proxies.rs, with the choice of the address
--     of a client.
--   Common/AutoBan: auto_ban.rs. The module itself has reasons, tiers and durations; Tracker the
--     records and `record_violation`; Restore `cleanup`, `remove_ips` and `load_client_bans`;
--     Config `validate_auto_ban_config`, with what it bounds in Config/Bounds. The others are proofs, named for what they show.
--   Udp/Validator: validator.rs.
--   Udp/Swarm: swarm.rs. Config, Peers: the data; Small, Large: the operations of the two maps,
--     with their Steps; Large/Sample: the choice of peers; PeerMap: announce, scrape and
--     cleaning of one torrent, with Invariant, Next, Respond, Announce and Clean; Shards:
--     `TorrentMapShards`, with Invariant, Announce, Scrape, Clean, Sweep, Append and Totals;
--     Maps: `TorrentMaps`.
--   Http/Url, Http/Query, Http/Numbers, Http/Request, Http/Response: crates/http_protocol/src.
--     Url has utils.rs, with the interface of `hex`; Query the loop of both
--     `parse_query_string`, with that of `memchr`; Numbers `str::parse`, with that of `itoa`;
--     Request the parsers, with Write and the proofs Pairs and Roundtrip; Response the writers
--     and the compact peers, with Bencode, an independent printer of bencoded values.
--   Http/Swarm: crates/http/src/workers/swarm/storage.rs. Peers: the two maps of peers; Torrent:
--     `TorrentData`, with Invariant, Respond, Upsert and Clean; Torrents: `TorrentMap`; Maps:
--     `TorrentMaps`, with what announces and cleanings reach in Reach.
--   Ws/Messages: crates/ws_protocol/src. Ws/Swarm: crates/ws/src/workers/swarm/storage.rs.
--     Sample: `extract_response_peers`; Peers, Offers: `TorrentData`; Torrents: `TorrentMap`,
--     with Ownership of peer ids, Clean, Scrape and Reach; Maps: `TorrentMaps`.
--   Tests: concrete data, and every theorem that has hypotheses applied to it.
--
-- How the code is read. Rust methods that change `self` return the changed value; a panic
-- (`unwrap`, overflow, a full `ArrayVec`, an empty range) is `none`, and the theorems show that
-- there is none. Wire integers are their bytes in network order; `usize` has 64 bits. A random
-- source, the containers, the keyed hash and the byte order of the machine are parameters with
-- laws. Instants are nanoseconds; `Instant` has a limit that is a parameter. A WebTorrent
-- request reads the clock once; connections and consumers are numbers; fields that always hold
-- one value are left out. A query string is its characters, so that an index counts characters
-- where the code counts bytes: only `&`, `=` and `?` are looked for, which are no part of
-- another character. Loops are structural recursion, but for `pop_while` (`while peers.len() >
-- max`), whose fuel is one more than the number of peers: each round pops one.
--
-- What is not modelled. The locks of shards, torrents and records: each operation runs alone, so
-- that the window between looking up a torrent and locking it, in which a cleaning may run, is
-- not covered. Sockets, files, logs and metrics. The appends of bans to files, and the parsing
-- of those files. The loops of the HTTP and WebTorrent workers, which are asynchronous; JSON and
-- bencode deserialization, which serde derives; the other guards of crates/common, the
-- recognition of peer ids, the statistics and the set-up of the services.
-- `String::from_utf8_lossy`, `httparse` and `urlencoding` are parameters.
pub mod Prelude
pub mod Crates
pub mod Sampling
pub mod PeerMaps
pub mod Sweep
pub mod UdpProtocol
pub mod Common
pub mod Udp
pub mod Ws
pub mod Http
pub mod Tests
