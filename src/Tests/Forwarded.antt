-- ===== src/Tests/Forwarded.antt =====
-- Witnesses for trusted proxies. A text of one byte is read as an address; the table is a list.
use tracker_enhanced.Prelude.{
  ◌≡◌, refl, Bool, true, false, ◌||◌, Option, none, some, List, [], ◌∷◌, ◌==◌, list_eq, nat_eq,
  list_beq,
}
use tracker_enhanced.Common.Ip.{IpAddr, ip_eq, v4, canonical_ip}
use tracker_enhanced.UdpProtocol.Bytes.{Bytes}
use tracker_enhanced.Common.TrustedProxies.{
  IpNetworkTable, is_trusted, split, last_forwarded_for_ip,
}
use tracker_enhanced.Common.TrustedProxies.Client.{last_forwarded_for_ip_lem}

abbrev parse : Bytes → Option IpAddr
parse [] = none
parse (b ∷ bs) = some (v4 (b ∷ 0 ∷ 0 ∷ 1 ∷ []))

abbrev member : List IpAddr → IpAddr → Bool
member [] a = false
member (b ∷ bs) a = b == a || member bs a

abbrev no_entries : List IpAddr → Bool
no_entries [] = true
no_entries (b ∷ bs) = false

no_entries-member : (t : List IpAddr) (a : IpAddr) → no_entries t ≡ true → member t a ≡ false
no_entries-member [] a h = refl
no_entries-member (b ∷ bs) a h = absurd cc

abbrev table_of_list : IpNetworkTable
table_of_list = record {
  Table = List IpAddr;
  is_empty = no_entries;
  matches = member;
  empty_matches = no_entries-member;
}

abbrev proxies : List IpAddr
proxies = v4 (10 ∷ 0 ∷ 0 ∷ 1 ∷ []) ∷ []

-- A client at 9 sends 7 and 8, separated by a comma; the proxy at 10 is trusted.
last_forwarded_for_ip_lem_example :
    (last_forwarded_for_ip table_of_list parse (7 ∷ 44 ∷ 8 ∷ 44 ∷ 9 ∷ 44 ∷ 10 ∷ []) proxies
      ≡ some (v4 (9 ∷ 0 ∷ 0 ∷ 1 ∷ [])))
    × (last_forwarded_for_ip table_of_list parse (7 ∷ 44 ∷ 8 ∷ 44 ∷ 9 ∷ []) proxies
        ≡ some (v4 (9 ∷ 0 ∷ 0 ∷ 1 ∷ [])))
unfolding split is_trusted canonical_ip list_beq
last_forwarded_for_ip_lem_example =
    last_forwarded_for_ip_lem table_of_list parse proxies (7 ∷ 44 ∷ 8 ∷ []) (9 ∷ []) (10 ∷ [])
      (v4 (9 ∷ 0 ∷ 0 ∷ 1 ∷ [])) refl refl refl (refl, tt)
