-- ===== src/Common/TrustedProxies.antt =====
-- crates/common/src/trusted_proxies.rs: which proxies are trusted, and the address of a client that
-- stands behind them.
pub mod Client
use tracker_enhanced.Prelude.{
  ℕ, ◌≡◌, refl, sym, ap, ◌∙◌, Bool, true, false, ◌&&◌, not, Option, none, some, List, [], ◌∷◌, ◌++◌,
  arith, Eq, ◌==◌, eqb, if◌then◌else◌,
}
use tracker_enhanced.Common.Ip.{IpAddr, ip_eq, canonical_ip}
use tracker_enhanced.UdpProtocol.Bytes.{Bytes}

-- `IpNetworkTable<()>` of `ip_network_table`, as far as it is used: an empty table matches nothing.
pub record IpNetworkTable : Type 1 where
  pub Table : Type 0
  pub is_empty : Table → Bool
  -- `longest_match(..).is_some()`
  pub matches : Table → IpAddr → Bool
  pub empty_matches : (t : Table) (a : IpAddr) → is_empty t ≡ true → matches t a ≡ false

-- `header.split(',')`: the first value and the others.
unfoldable pub split : Bytes → Bytes × List Bytes
split [] = ([], [])
split (b ∷ bs) =
    let (value, values) = split bs in if eqb b 44 then ([], value ∷ values) else (b ∷ value, values)

abbrev pub values_of : Bytes → List Bytes
values_of header = (split header).0 ∷ (split header).1

-- The two variables of the loop.
pub record Forwarded : Type 0 where
  pub leftmost_valid : Option IpAddr
  pub rightmost_untrusted : Option IpAddr

-- `get_or_insert`
abbrev pub get_or_insert : Option IpAddr → IpAddr → Option IpAddr
get_or_insert none ip = some ip
get_or_insert (some old) ip = some old

-- `or`
abbrev pub or : Option IpAddr → Option IpAddr → Option IpAddr
or none other = other
or (some ip) other = some ip

module _ (n : IpNetworkTable) where
  -- `is_trusted`
  unfoldable pub is_trusted : n.Table → IpAddr → Bool
  is_trusted table addr =
      if n.is_empty table
      then false
      else if n.matches table addr
      then true
      else (not (canonical_ip addr == addr) && n.matches table (canonical_ip addr))

-- `parse` reads an address, spaces around it being ignored: `value.trim().parse::<IpAddr>()`.
module _ (n : IpNetworkTable) (parse : Bytes → Option IpAddr) where
  abbrev pub note_ip : n.Table → Forwarded → IpAddr → Forwarded
  note_ip table f ip = record {
    leftmost_valid = get_or_insert f.leftmost_valid ip;
    rightmost_untrusted = if is_trusted n table ip then f.rightmost_untrusted else some ip;
  }

  abbrev pub note_option : n.Table → Forwarded → Option IpAddr → Forwarded
  note_option table f none = f
  note_option table f (some ip) = note_ip table f (canonical_ip ip)

  -- The loop over the values.
  unfoldable pub forwarded : n.Table → Forwarded → List Bytes → Forwarded
  forwarded table f [] = f
  forwarded table f (value ∷ values) = forwarded table (note_option table f (parse value)) values

  -- `last_forwarded_for_ip`
  unfoldable pub last_forwarded_for_ip : Bytes → n.Table → Option IpAddr
  last_forwarded_for_ip header table =
      let f =
        forwarded table (record { leftmost_valid = none; rightmost_untrusted = none })
          (values_of header) in
      or f.rightmost_untrusted f.leftmost_valid
