-- ===== src/Tests/Addresses.antt =====
-- Witnesses for connection ids, socket addresses and the search for a text.
use tracker_enhanced.Prelude.{
  ◌+◌, ◌≤◌, ◌<◌, ◌≡◌, ◌↔◌, true, refl, [], ◌∷◌, ◌++◌, arith, list_eq, nat_eq, list_beq, ltb, take,
}
use tracker_enhanced.Common.Ip.{
  IpAddr, ip_eq, v4, v6, SocketAddr, canonical_ip_lem, IsCanonical, get_ipv6_mapped,
}
use tracker_enhanced.Common.Ip as Addresses
use tracker_enhanced.UdpProtocol.Bytes.{
  Bytes, to_be_bytes, from_be, from_be_bytes, length-to_be_bytes, from_be_bytes-to_be_bytes,
}
use tracker_enhanced.Udp.Validator.{
  ConnectionValidator, Endian, Hasher, hash, create_connection_id, connection_id_valid,
}
use tracker_enhanced.Tests.Data.{client}
use tracker_enhanced.Udp.Validator.Ids.{create_connection_id_lem, connection_id_valid_lem}
use tracker_enhanced.Common.TextSearch.{
  contains_ascii_case_insensitive, contains_ascii_case_insensitive_iff, Occurs,
}

abbrev big_endian : Endian
big_endian = record {
  to_ne_bytes = to_be_bytes 4;
  from_ne_bytes = from_be_bytes;
  length-to_ne_bytes = length-to_be_bytes 4;
  from-to_ne_bytes = from_be_bytes-to_be_bytes;
}

abbrev folding : Hasher
folding = record {
  fill_four = λ input. to_be_bytes 4 (from_be_bytes input);
  length-fill_four = λ input. length-to_be_bytes 4 (from_be_bytes input);
}

abbrev validator : ConnectionValidator
validator = record { max_connection_age = 120; keyed_hasher = folding; seconds_since_start = 1000 }

create_connection_id_lem_example :
    connection_id_valid big_endian
      (record validator { seconds_since_start = 1119 })
      client
      (create_connection_id big_endian validator client)
    ≡ ltb 1119 1120
create_connection_id_lem_example =
    create_connection_id_lem big_endian validator 1119 client (omega arith) (omega arith)

abbrev id : Bytes
id = 0 ∷ 0 ∷ 3 ∷ 232 ∷ 10 ∷ 0 ∷ 0 ∷ 1 ∷ []

connection_id_valid_lem_example :
    (id ≡ take 4 id ++ hash big_endian validator (take 4 id) client.ip)
    × (1000 < from_be_bytes (take 4 id) + 120)
    × (from_be_bytes (take 4 id) ≤ 1000 + 60)
unfolding connection_id_valid hash to_be_bytes from_be list_beq
connection_id_valid_lem_example = connection_id_valid_lem big_endian validator client id refl

abbrev mapped : SocketAddr
mapped = record {
  ip = v6 (0 ∷ 0 ∷ 0 ∷ 0 ∷ 0 ∷ 0 ∷ 0 ∷ 0 ∷ 0 ∷ 0 ∷ 255 ∷ 255 ∷ 10 ∷ 0 ∷ 0 ∷ 1 ∷ []);
  port = 80;
}

canonical_ip_lem_example :
    IsCanonical (Addresses.new mapped).ip
    × (Addresses.new (Addresses.new mapped) ≡ Addresses.new mapped)
    × (Addresses.new (get_ipv6_mapped (Addresses.new mapped)) ≡ Addresses.new mapped)
canonical_ip_lem_example = canonical_ip_lem mapped

-- The texts are "uTorrent" and "ORR".
abbrev client_name : Bytes
client_name = 117 ∷ 84 ∷ 111 ∷ 114 ∷ 114 ∷ 101 ∷ 110 ∷ 116 ∷ []

abbrev searched : Bytes
searched = 79 ∷ 82 ∷ 82 ∷ []

contains_ascii_case_insensitive_iff_example :
    (contains_ascii_case_insensitive client_name searched ≡ true) ↔ Occurs client_name searched
contains_ascii_case_insensitive_iff_example =
    contains_ascii_case_insensitive_iff client_name searched
