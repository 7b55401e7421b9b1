-- ===== src/Tests/Guards.antt =====
-- Witnesses for automatic bans.
use tracker_enhanced.Prelude.{
  ℕ, ◌*◌, ◌≤◌, ◌≡◌, ◌⊎◌, refl, Bool, true, false, none, List, [], ◌∷◌, arith, list_eq, nat_eq,
  list_beq, ◌==◌,
}
use tracker_enhanced.Prelude.Entries.{lookup, Distinct, retain_values}
use tracker_enhanced.Crates.{list_hash_map, HashMap}
use tracker_enhanced.Common.Ip.{IpAddr, ip_eq, v4}
use tracker_enhanced.Common.AutoBan.{
  AutoBanReason, AutoBanPolicy, BanKind, ban_kind, tier_kind, max_ban_duration_secs,
}
use tracker_enhanced.Common.AutoBan.Tracker.{
  IpRecord, AutoBanInner, record_violation, new_record, make_room, is_auto_banned,
}
use tracker_enhanced.Common.AutoBan.Violations.{record_violation_lem, Bans}
use tracker_enhanced.Common.AutoBan.Capacity.{capacity_lem, grow_lem, Fits, grown_limit}
use tracker_enhanced.Common.AutoBan.Duration.{ban_kind-client_banned, Near, client_base}
use tracker_enhanced.Common.AutoBan.Config.{
  AutoBanConfig, IpBanConfig, ConfigResult, Step, validate_auto_ban_config, validate_durations,
  validate_steps, validate_decay, validate_paths, IsPersistent,
  validate_auto_ban_config-IsPersistent,
}
use tracker_enhanced.Common.AutoBan.Config.Bounds.{validate_auto_ban_config-ban_kind}
use tracker_enhanced.Common.AutoBan.Restore.{cleanup, load_client_bans}
use tracker_enhanced.Common.AutoBan.Restore.Kept.{
  cleanup_lem, load_client_bans_lem, load_client_bans-is_auto_banned,
}
use tracker_enhanced.Tests.Data.{client}
use tracker_enhanced.UdpProtocol.Bytes.{Bytes}

abbrev records_map : HashMap IpAddr IpRecord
records_map = list_hash_map

abbrev policy : AutoBanPolicy
policy = record {
  immediate_ban_secs = 0;
  client_ban_duration_secs = 86400;
  client_ban_jitter_secs = 1800;
  escalation_enabled = false;
  escalation_steps = 300 ∷ 3600 ∷ [];
  offense_decay_secs = 86400;
}

abbrev banned : IpRecord
banned = record (new_record 0) { is_permanent = true }

-- Two banned addresses, which is as many as are tracked.
abbrev full_map : AutoBanInner
full_map = record {
  records = (v4 (1 ∷ []), banned) ∷ (v4 (2 ∷ []), banned) ∷ [];
  threshold = 3;
  window_secs = 60;
  ban_duration_secs = 3600;
  max_records = 2;
  last_capacity_cleanup = none;
  last_overflow_log = none;
}

full_map-Distinct : Distinct full_map.records
unfolding lookup list_beq
full_map-Distinct = (refl, (refl, tt))

record_violation_lem_example :
    Bans records_map 1000000 policy (v4 (1 ∷ [])) 7 full_map (
      record_violation records_map 1000000 policy AutoBanReason.private_ip (v4 (1 ∷ [])) 7 full_map)
record_violation_lem_example =
    record_violation_lem records_map 1000000 policy AutoBanReason.private_ip (v4 (1 ∷ [])) 7
      full_map full_map-Distinct

capacity_lem_example :
    Fits records_map 1000000 policy full_map
      (record_violation records_map 1000000 policy AutoBanReason.crawler (v4 (3 ∷ [])) 7 full_map).0
capacity_lem_example =
    capacity_lem records_map 1000000 policy AutoBanReason.crawler (v4 (3 ∷ [])) 7 full_map
      (omega arith)

-- The address 3 is not tracked, although the limit doubles.
abbrev after_crawler : AutoBanInner × Bool
after_crawler =
    record_violation records_map 1000000 policy AutoBanReason.crawler (v4 (3 ∷ [])) 7 full_map

grow_lem_example :
    (after_crawler.1 ≡ false)
    × (after_crawler.0.max_records ≡ grown_limit records_map 1000000 policy 2)
    × (lookup (v4 (3 ∷ [])) after_crawler.0.records ≡ none)
unfolding lookup list_beq make_room retain_values
grow_lem_example =
    grow_lem records_map 1000000 policy AutoBanReason.crawler (v4 (3 ∷ [])) 7 full_map
      full_map-Distinct refl (omega arith) (omega arith)

ban_kind-client_banned_example :
    ((client_base policy 0 ≡ 0)
      × (ban_kind policy AutoBanReason.client_banned client.ip 9 0 ≡ BanKind.permanent))
    ⊎ ((secs : ℕ) × (ban_kind policy AutoBanReason.client_banned client.ip 9 0
          ≡ BanKind.temporary secs)
        × Near 86400 1800 secs
        × (1 ≤ 86400))
ban_kind-client_banned_example =
    ban_kind-client_banned policy client.ip 9 0 (omega arith) (omega arith)

abbrev auto_ban_config : AutoBanConfig
auto_ban_config = record {
  enabled = true;
  threshold = 3;
  window_secs = 60;
  ban_duration_secs = 0;
  ban_list_path = 98 ∷ [];
  immediate_ban_secs = 0;
  escalation_enabled = true;
  escalation_steps = Step.seconds 300 ∷ Step.blank ∷ Step.seconds 3600 ∷ [];
  offense_decay_secs = 86400;
  client_ban_duration_secs = 86400;
  client_ban_jitter_secs = 1800;
}

abbrev ip_ban_config : IpBanConfig
ip_ban_config = record { mode_is_on = true; path = 98 ∷ [] }

abbrev same_path : Bytes → Bytes → Bool
same_path a b = a == b

config-accepted :
    validate_auto_ban_config same_path auto_ban_config ip_ban_config ≡ ConfigResult.accepted
unfolding validate_auto_ban_config validate_durations validate_steps validate_decay validate_paths
    list_beq
config-accepted = refl

validate_auto_ban_config-ban_kind_example : (1 ≤ 300) × (300 ≤ 2 * max_ban_duration_secs)
unfolding ban_kind tier_kind
validate_auto_ban_config-ban_kind_example =
    validate_auto_ban_config-ban_kind same_path auto_ban_config ip_ban_config
      AutoBanReason.non_standard_peer_id client.ip 1 300 config-accepted refl refl

validate_auto_ban_config-IsPersistent_example : IsPersistent same_path auto_ban_config ip_ban_config
unfolding ban_kind tier_kind
validate_auto_ban_config-IsPersistent_example =
    validate_auto_ban_config-IsPersistent same_path auto_ban_config ip_ban_config
      AutoBanReason.non_standard_peer_id client.ip 3 config-accepted refl refl

cleanup_lem_example :
    is_auto_banned (cleanup records_map 1000000 policy 7 full_map) (v4 (1 ∷ [])) 7
    ≡ is_auto_banned full_map (v4 (1 ∷ [])) 7
cleanup_lem_example =
    cleanup_lem records_map 1000000 policy 7 full_map (v4 (1 ∷ [])) full_map-Distinct

-- The file bans the address 3 for two seconds from now on.
abbrev parsed : List (IpAddr × ℕ)
parsed = (v4 (3 ∷ []), 502) ∷ []

load_client_bans_lem_example :
    is_auto_banned
      (load_client_bans records_map 5000000000 policy 7 500 parsed full_map).0
      (v4 (3 ∷ []))
      2000000006
    ≡ true
unfolding lookup list_beq
load_client_bans_lem_example =
    load_client_bans_lem records_map 5000000000 policy 7 500 2000000006 2000000007 parsed
      (v4 (3 ∷ [])) 502 full_map full_map-Distinct refl refl (omega arith)

load_client_bans-is_auto_banned_example :
    is_auto_banned
      (load_client_bans records_map 5000000000 policy 7 500 parsed full_map).0
      (v4 (1 ∷ []))
      9
    ≡ true
unfolding lookup list_beq
load_client_bans-is_auto_banned_example =
    load_client_bans-is_auto_banned records_map 5000000000 policy 7 500 9 parsed (v4 (1 ∷ []))
      full_map full_map-Distinct refl
