-- ===== src/Common/Ip.antt =====
-- crates/common/src/lib.rs: IPv4 addresses that an IPv6 socket reports, in canonical form. The
-- octets of an address are a list, of 4 or of 16 bytes.
use mathlib.Core.Path.{subst}
use tracker_enhanced.Prelude.{
  ℕ, ◌≡◌, ◌↔◌, refl, sym, ap, ◌∙◌, ◌⊎◌, inl, inr, Bool, true, false, Option, none, some, [], ◌∷◌,
  ◌++◌, arith, Eq, ◌==◌, list_eq, nat_eq, if◌then◌else◌, take, drop, Bool-cases, eq_self,
}
use tracker_enhanced.UdpProtocol.Bytes.{Bytes}

pub data IpAddr : Type 0 where
  v4 v6 : Bytes → IpAddr

abbrev pub octets : IpAddr → Bytes
octets (v4 o) = o
octets (v6 o) = o

abbrev pub ip_beq : IpAddr → IpAddr → Bool
ip_beq (v4 a) (v4 b) = a == b
ip_beq (v6 a) (v6 b) = a == b
ip_beq (v4 a) (v6 b) = false
ip_beq (v6 a) (v4 b) = false

pub ip_beq_iff : (a b : IpAddr) → (ip_beq a b ≡ true) ↔ (a ≡ b)
ip_beq_iff (v4 a) (v4 b) =
    let same : ((a == b) ≡ true) ↔ (a ≡ b) = list_eq.beq_iff a b in ground (arith, same)
ip_beq_iff (v6 a) (v6 b) =
    let same : ((a == b) ≡ true) ↔ (a ≡ b) = list_eq.beq_iff a b in ground (arith, same)
ip_beq_iff (v4 a) (v6 b) = ground arith
ip_beq_iff (v6 a) (v4 b) = ground arith

instance abbrev pub ip_eq : Eq IpAddr
ip_eq = record { beq = ip_beq; beq_iff = ip_beq_iff }

-- The first twelve octets of an IPv4-mapped address.
abbrev pub mapped_prefix : Bytes
mapped_prefix = 0 ∷ 0 ∷ 0 ∷ 0 ∷ 0 ∷ 0 ∷ 0 ∷ 0 ∷ 0 ∷ 0 ∷ 255 ∷ 255 ∷ []

-- `canonical_ip`
unfoldable pub canonical_ip : IpAddr → IpAddr
canonical_ip (v4 o) = v4 o
canonical_ip (v6 o) = if take 12 o == mapped_prefix then v4 (drop 12 o) else v6 o

-- An address and a port; the flow label and the scope of an IPv6 address are not kept.
pub record SocketAddr : Type 0 where
  pub ip : IpAddr
  pub port : ℕ

-- `CanonicalSocketAddr::new` and the readers.
abbrev pub new : SocketAddr → SocketAddr
new addr = record addr { ip = canonical_ip addr.ip }

abbrev pub get_ipv6_mapped : SocketAddr → SocketAddr
get_ipv6_mapped addr = elim addr.ip [
  | v4 o ↦ record addr { ip = v6 (mapped_prefix ++ o) }
  | v6 o ↦ addr
]

abbrev pub is_ipv4 : IpAddr → Bool
is_ipv4 (v4 o) = true
is_ipv4 (v6 o) = false

abbrev pub get_ipv4 : SocketAddr → Option SocketAddr
get_ipv4 addr = if is_ipv4 addr.ip then some addr else none

-- Not the mapped form of an IPv4 address.
abbrev pub IsCanonical : IpAddr → Type 0
IsCanonical ip = (o : Bytes) → ¬ (ip ≡ v6 (mapped_prefix ++ o))

prefix_eq : (o : Bytes) → (take 12 (mapped_prefix ++ o) == mapped_prefix) ≡ true
prefix_eq o = eq_self mapped_prefix

-- A canonical address is an IPv4 address or an IPv6 one without the prefix.
canonical-cases :
    (ip : IpAddr)
    → ((o : Bytes) × (canonical_ip ip ≡ v4 o))
      ⊎ ((o : Bytes) × (canonical_ip ip ≡ v6 o) × ((take 12 o == mapped_prefix) ≡ false))
unfolding canonical_ip
canonical-cases (v4 o) = inl (o, refl)
canonical-cases (v6 o) = elim (Bool-cases (take 12 o == mapped_prefix)) [
  | inl mapped ↦ inl (drop 12 o, rw mapped refl)
  | inr plain ↦ inr (o, rw plain refl, plain)
]

canonical-mapped : (o : Bytes) → canonical_ip (v6 (mapped_prefix ++ o)) ≡ v4 o
unfolding canonical_ip
canonical-mapped o = rw (prefix_eq o) refl

same_v4 : (o : Bytes) → canonical_ip (v4 o) ≡ v4 o
unfolding canonical_ip
same_v4 o = refl

same_v6 : (o : Bytes) → (take 12 o == mapped_prefix) ≡ false → canonical_ip (v6 o) ≡ v6 o
unfolding canonical_ip
same_v6 o plain = rw plain refl

-- A canonical address is never the IPv4-mapped form of another; making it canonical again changes
-- nothing; and the address that a dual-stack socket reports for an IPv4 address becomes that
-- address, with its port, so that both are treated alike.
pub canonical_ip_lem :
    (addr : SocketAddr)
    → IsCanonical (new addr).ip
      × (new (new addr) ≡ new addr)
      × (new (get_ipv6_mapped (new addr)) ≡ new addr)
canonical_ip_lem addr = elim (canonical-cases addr.ip) [
  | inl (o, q) ↦ ((λ p r. cc (q, r)), again (v4 o) q (same_v4 o), rw (q, canonical-mapped o) refl)
  | inr (o, q, plain) ↦ (
    (λ p r.
        let marked =
          subst (λ x. (take 12 x == mapped_prefix) ≡ false) (ap octets (sym q ∙ r)) plain in
        cc (prefix_eq p, marked)),
    again (v6 o) q (same_v6 o plain),
    rw q (rw (same_v6 o plain) refl),
  )
]
  where
    again :
        (ip : IpAddr) → canonical_ip addr.ip ≡ ip → canonical_ip ip ≡ ip → new (new addr) ≡ new addr
    again ip q same = rw (q, same) refl
