-- ===== src/Common/AutoBan.antt =====
-- crates/common/src/auto_ban.rs: how long a violation bans an address. Times are nanoseconds.
pub mod Tracker
pub mod Duration
pub mod Force
pub mod Violations
pub mod Capacity
pub mod Config
pub mod Restore
use Prim.Native.Nat.{bit_xor}
use tracker_enhanced.Prelude.{
  ℕ, suc, ◌+◌, ◌-◌, ◌*◌, ◌/◌, ◌%◌, ◌^◌, ◌≤◌, ◌≡◌, Bool, true, false, ◌&&◌, ◌||◌, not, Option, none,
  some, List, [], ◌∷◌, Eq, ltb, leb, eqb, if◌then◌else◌, get_elem?, take, drop, saturating_add,
  u32_mod, u64_mod,
}
use tracker_enhanced.Prelude.Int.{ℤ, pos, negsuc}
use tracker_enhanced.Common.Ip.{IpAddr, v4, v6}
use tracker_enhanced.UdpProtocol.Bytes.{Bytes, from_be_bytes}

pub data AutoBanReason : Type 0 where
  sql_injection path_traversal crawler missing_user_agent client_banned private_ip
        non_standard_peer_id peer_id_user_agent_mismatch :
      AutoBanReason

pub data AutoBanTier : Type 0 where
  immediate suspicious heuristic : AutoBanTier

-- `AutoBanReason::tier`
abbrev pub tier : AutoBanReason → AutoBanTier
tier AutoBanReason.sql_injection = AutoBanTier.immediate
tier AutoBanReason.path_traversal = AutoBanTier.immediate
tier AutoBanReason.client_banned = AutoBanTier.immediate
tier AutoBanReason.crawler = AutoBanTier.immediate
tier AutoBanReason.missing_user_agent = AutoBanTier.immediate
tier AutoBanReason.private_ip = AutoBanTier.suspicious
tier AutoBanReason.non_standard_peer_id = AutoBanTier.heuristic
tier AutoBanReason.peer_id_user_agent_mismatch = AutoBanTier.heuristic

abbrev pub is_client_banned : AutoBanReason → Bool
is_client_banned AutoBanReason.client_banned = true
is_client_banned AutoBanReason.sql_injection = false
is_client_banned AutoBanReason.path_traversal = false
is_client_banned AutoBanReason.crawler = false
is_client_banned AutoBanReason.missing_user_agent = false
is_client_banned AutoBanReason.private_ip = false
is_client_banned AutoBanReason.non_standard_peer_id = false
is_client_banned AutoBanReason.peer_id_user_agent_mismatch = false

abbrev pub is_immediate : AutoBanTier → Bool
is_immediate AutoBanTier.immediate = true
is_immediate AutoBanTier.suspicious = false
is_immediate AutoBanTier.heuristic = false

pub data BanKind : Type 0 where
  temporary : ℕ → BanKind
  permanent : BanKind

-- `BanKind::from_secs`
abbrev pub from_secs : ℕ → BanKind
from_secs secs = if eqb secs 0 then BanKind.permanent else BanKind.temporary secs

pub record AutoBanPolicy : Type 0 where
  pub immediate_ban_secs : ℕ
  pub client_ban_duration_secs : ℕ
  pub client_ban_jitter_secs : ℕ
  pub escalation_enabled : Bool
  pub escalation_steps : List ℕ
  pub offense_decay_secs : ℕ

-- `MAX_BAN_DURATION_SECS`
abbrev pub max_ban_duration_secs : ℕ
max_ban_duration_secs = 10 * 365 * 24 * 60 * 60

-- `rotate_left(7)` of a `u64`.
abbrev pub rotate_left_7 : ℕ → ℕ
rotate_left_7 acc = acc * 2 ^ 7 % u64_mod + acc / 2 ^ 57

-- The hash of `client_jitter`; an IPv6 address has two chunks of eight octets.
abbrev pub jitter_hash : IpAddr → ℕ
jitter_hash (v4 o) = from_be_bytes o
jitter_hash (v6 o) =
    let acc = bit_xor (rotate_left_7 0) (from_be_bytes (take 8 o)) in
    bit_xor (rotate_left_7 acc) (from_be_bytes (drop 8 o))

-- `a.saturating_mul(b)` on a `u64`.
abbrev pub saturating_mul : ℕ → ℕ → ℕ
saturating_mul a b = if ltb (a * b) u64_mod then a * b else u64_mod - 1

-- `client_jitter`; the conversions to `i64` are exact below 2^62, and a configuration admits no
-- jitter above `max_ban_duration_secs`.
unfoldable pub client_jitter : IpAddr → ℕ → ℤ
client_jitter ip jitter =
    if eqb jitter 0
    then pos 0
    else (let span = saturating_add u64_mod (saturating_mul jitter 2) 1 in
        let offset = jitter_hash ip % span in
        if leb jitter offset then pos (offset - jitter) else negsuc (jitter - offset - 1))

-- The offset added or taken away, and at least one second.
abbrev pub shift : ℕ → ℤ → ℕ
shift base (pos delta) = Prim.Native.Nat.max (saturating_add u64_mod base delta) 1
shift base (negsuc n) = Prim.Native.Nat.max (base - (n + 1)) 1

-- `AutoBanPolicy::client_ban_secs`
unfoldable pub client_ban_secs : AutoBanPolicy → IpAddr → ℕ → ℕ
client_ban_secs policy ip fallback_secs =
    let base =
      if not (eqb policy.client_ban_duration_secs 0)
      then policy.client_ban_duration_secs
      else (if not (eqb policy.immediate_ban_secs 0)
          then policy.immediate_ban_secs
          else fallback_secs) in
    if eqb base 0 then 0 else shift base (client_jitter ip policy.client_ban_jitter_secs)

-- The step of the ladder.
abbrev pub step_kind : Option ℕ → BanKind
step_kind none = BanKind.permanent
step_kind (some secs) = from_secs secs

unfoldable pub tier_kind : AutoBanPolicy → AutoBanTier → ℕ → ℕ → BanKind
tier_kind policy AutoBanTier.immediate offenses fallback_secs =
    if policy.escalation_enabled && leb 2 offenses
    then BanKind.permanent
    else (if eqb policy.immediate_ban_secs 0
        then from_secs fallback_secs
        else from_secs policy.immediate_ban_secs)
tier_kind policy AutoBanTier.suspicious offenses fallback_secs = from_secs fallback_secs
tier_kind policy AutoBanTier.heuristic offenses fallback_secs =
    if not policy.escalation_enabled
    then from_secs fallback_secs
    else step_kind (get_elem? policy.escalation_steps (offenses - 1))

-- `AutoBanPolicy::ban_kind`
unfoldable pub ban_kind : AutoBanPolicy → AutoBanReason → IpAddr → ℕ → ℕ → BanKind
ban_kind policy reason ip offenses fallback_secs =
    if is_client_banned reason
    then from_secs (client_ban_secs policy ip fallback_secs)
    else tier_kind policy (tier reason) offenses fallback_secs
