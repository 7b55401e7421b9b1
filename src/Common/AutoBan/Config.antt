-- ===== src/Common/AutoBan/Config.antt =====
-- crates/common/src/auto_ban.rs: `validate_auto_ban_config`. `escalation_steps` is the list of its
-- parts between commas, trimmed and read as numbers.
pub mod Bounds
use tracker_enhanced.Prelude.{
  ℕ, ◌≤◌, ◌≡◌, ◌⊎◌, inl, inr, Bool, true, false, not, ◌&&◌, List, [], ◌∷◌, arith, ltb, eqb,
  if◌then◌else◌, length,
}
use tracker_enhanced.Common.Ip.{IpAddr}
use tracker_enhanced.Common.AutoBan.{
  AutoBanPolicy, AutoBanReason, BanKind, ban_kind, max_ban_duration_secs,
}
use tracker_enhanced.Common.AutoBan.Duration.{ban_kind-IsTemporary}
use tracker_enhanced.UdpProtocol.Bytes.{Bytes}

-- A part of `escalation_steps`.
pub data Step : Type 0 where
  blank malformed : Step
  seconds : ℕ → Step

-- `parse_steps`
abbrev pub parse_steps : List Step → List ℕ
parse_steps [] = []
parse_steps (Step.blank ∷ steps) = parse_steps steps
parse_steps (Step.malformed ∷ steps) = parse_steps steps
parse_steps (Step.seconds secs ∷ steps) = secs ∷ parse_steps steps

-- The paths are their bytes.
pub record AutoBanConfig : Type 0 where
  pub enabled : Bool
  pub threshold : ℕ
  pub window_secs : ℕ
  pub ban_duration_secs : ℕ
  pub ban_list_path : Bytes
  pub immediate_ban_secs : ℕ
  pub escalation_enabled : Bool
  pub escalation_steps : List Step
  pub offense_decay_secs : ℕ
  pub client_ban_duration_secs : ℕ
  pub client_ban_jitter_secs : ℕ

pub record IpBanConfig : Type 0 where
  pub mode_is_on : Bool
  pub path : Bytes

pub data ConfigResult : Type 0 where
  accepted zero_threshold zero_window long_ban_duration long_immediate_ban long_client_ban
        long_jitter long_step malformed_step zero_decay empty_ban_list_path ip_ban_off other_path :
      ConfigResult

-- The policy of `with_policy`.
abbrev pub policy_of : AutoBanConfig → AutoBanPolicy
policy_of auto = record {
  immediate_ban_secs = auto.immediate_ban_secs;
  client_ban_duration_secs = auto.client_ban_duration_secs;
  client_ban_jitter_secs = auto.client_ban_jitter_secs;
  escalation_enabled = auto.escalation_enabled;
  escalation_steps = parse_steps auto.escalation_steps;
  offense_decay_secs = auto.offense_decay_secs;
}

-- The loop over the steps, and what follows it.
unfoldable pub validate_steps : List Step → ConfigResult → ConfigResult
validate_steps [] rest = rest
validate_steps (Step.blank ∷ steps) rest = validate_steps steps rest
validate_steps (Step.malformed ∷ steps) rest = ConfigResult.malformed_step
validate_steps (Step.seconds secs ∷ steps) rest =
    let later = validate_steps steps rest in
    if ltb max_ban_duration_secs secs then ConfigResult.long_step else later

-- `paths_refer_to_same_file` reads the file system.
module _ (paths_refer_to_same_file : Bytes → Bytes → Bool) where
  unfoldable pub validate_paths : AutoBanConfig → IpBanConfig → ConfigResult
  validate_paths auto ip_ban =
      if not (eqb auto.ban_duration_secs 0) && not auto.escalation_enabled
      then ConfigResult.accepted
      else (if eqb (length auto.ban_list_path) 0
          then ConfigResult.empty_ban_list_path
          else (if not ip_ban.mode_is_on
              then ConfigResult.ip_ban_off
              else (if not (paths_refer_to_same_file auto.ban_list_path ip_ban.path)
                  then ConfigResult.other_path
                  else ConfigResult.accepted)))

  unfoldable pub validate_decay : AutoBanConfig → IpBanConfig → ConfigResult
  validate_decay auto ip_ban =
      if auto.escalation_enabled && eqb auto.offense_decay_secs 0
      then ConfigResult.zero_decay
      else validate_paths auto ip_ban

  unfoldable pub validate_durations : AutoBanConfig → IpBanConfig → ConfigResult
  validate_durations auto ip_ban =
      if ltb max_ban_duration_secs auto.ban_duration_secs
      then ConfigResult.long_ban_duration
      else (if ltb max_ban_duration_secs auto.immediate_ban_secs
          then ConfigResult.long_immediate_ban
          else (if ltb max_ban_duration_secs auto.client_ban_duration_secs
              then ConfigResult.long_client_ban
              else (if ltb max_ban_duration_secs auto.client_ban_jitter_secs
                  then ConfigResult.long_jitter
                  else validate_steps auto.escalation_steps (validate_decay auto ip_ban))))

  -- `validate_auto_ban_config`
  unfoldable pub validate_auto_ban_config : AutoBanConfig → IpBanConfig → ConfigResult
  validate_auto_ban_config auto ip_ban =
      if not auto.enabled
      then ConfigResult.accepted
      else (if eqb auto.threshold 0
          then ConfigResult.zero_threshold
          else (if eqb auto.window_secs 0
              then ConfigResult.zero_window
              else validate_durations auto ip_ban))

  -- Permanent bans come back after a restart: they are written to the list that is loaded.
  abbrev pub IsPersistent : AutoBanConfig → IpBanConfig → Type 0
  IsPersistent auto ip_ban =
      (1 ≤ length auto.ban_list_path)
      × (ip_ban.mode_is_on ≡ true)
      × (paths_refer_to_same_file auto.ban_list_path ip_ban.path ≡ true)

  abbrev pub AllBelow : List ℕ → Type 0
  AllBelow [] = Unit
  AllBelow (secs ∷ steps) = (secs ≤ max_ban_duration_secs) × AllBelow steps

  paths_lem :
      (auto : AutoBanConfig) (ip_ban : IpBanConfig)
      → validate_paths auto ip_ban ≡ ConfigResult.accepted
      → ((1 ≤ auto.ban_duration_secs) × (auto.escalation_enabled ≡ false))
        ⊎ IsPersistent auto ip_ban
  unfolding validate_paths
  paths_lem auto ip_ban h = ground arith

  decay_lem :
      (auto : AutoBanConfig) (ip_ban : IpBanConfig)
      → validate_decay auto ip_ban ≡ ConfigResult.accepted
      → validate_paths auto ip_ban ≡ ConfigResult.accepted
  unfolding validate_decay
  decay_lem auto ip_ban h = ground arith

  steps_lem :
      (steps : List Step) (rest : ConfigResult)
      → validate_steps steps rest ≡ ConfigResult.accepted
      → (rest ≡ ConfigResult.accepted) × AllBelow (parse_steps steps)
  unfolding validate_steps
  steps_lem [] rest h = (h, tt)
  steps_lem (Step.blank ∷ steps) rest h = steps_lem steps rest h
  steps_lem (Step.malformed ∷ steps) rest h = ground arith
  steps_lem (Step.seconds secs ∷ steps) rest h = ground (arith, steps_lem steps rest)

  durations_lem :
      (auto : AutoBanConfig) (ip_ban : IpBanConfig)
      → validate_durations auto ip_ban ≡ ConfigResult.accepted
      → (auto.ban_duration_secs ≤ max_ban_duration_secs)
        × (auto.immediate_ban_secs ≤ max_ban_duration_secs)
        × (auto.client_ban_duration_secs ≤ max_ban_duration_secs)
        × (auto.client_ban_jitter_secs ≤ max_ban_duration_secs)
        × (validate_steps auto.escalation_steps (validate_decay auto ip_ban)
            ≡ ConfigResult.accepted)
  unfolding validate_durations
  durations_lem auto ip_ban h = ground arith

  enabled_lem :
      (auto : AutoBanConfig) (ip_ban : IpBanConfig)
      → validate_auto_ban_config auto ip_ban ≡ ConfigResult.accepted
      → auto.enabled ≡ true
      → (1 ≤ auto.threshold)
        × (1 ≤ auto.window_secs)
        × (validate_durations auto ip_ban ≡ ConfigResult.accepted)
  unfolding validate_auto_ban_config
  enabled_lem auto ip_ban h on = ground arith

  -- What the validation of an enabled configuration has checked about its numbers.
  pub validate_auto_ban_config_lem :
      (auto : AutoBanConfig) (ip_ban : IpBanConfig)
      → validate_auto_ban_config auto ip_ban ≡ ConfigResult.accepted
      → auto.enabled ≡ true
      → (1 ≤ auto.threshold)
        × (1 ≤ auto.window_secs)
        × (auto.ban_duration_secs ≤ max_ban_duration_secs)
        × (auto.immediate_ban_secs ≤ max_ban_duration_secs)
        × (auto.client_ban_duration_secs ≤ max_ban_duration_secs)
        × (auto.client_ban_jitter_secs ≤ max_ban_duration_secs)
        × AllBelow (parse_steps auto.escalation_steps)
  validate_auto_ban_config_lem auto ip_ban h on =
      let (threshold, window, durations) = enabled_lem auto ip_ban h on in
      let (a, b, c, d, steps) = durations_lem auto ip_ban durations in
      let (decay, below) = steps_lem auto.escalation_steps (validate_decay auto ip_ban) steps in
      (threshold, window, a, b, c, d, below)

  -- With an accepted configuration that enables automatic bans, an address is banned for good, for
  -- whatever reason, only if there is a ban list to write and it is the list of banned addresses
  -- that is loaded.
  pub validate_auto_ban_config-IsPersistent :
      (auto : AutoBanConfig) (ip_ban : IpBanConfig) (reason : AutoBanReason) (ip : IpAddr)
      (offenses : ℕ)
      → validate_auto_ban_config auto ip_ban ≡ ConfigResult.accepted
      → auto.enabled ≡ true
      → ban_kind (policy_of auto) reason ip offenses auto.ban_duration_secs ≡ BanKind.permanent
      → IsPersistent auto ip_ban
  validate_auto_ban_config-IsPersistent auto ip_ban reason ip offenses h on forever =
      let (threshold, window, durations) = enabled_lem auto ip_ban h on in
      let steps = (durations_lem auto ip_ban durations).4 in
      let decay = (steps_lem auto.escalation_steps (validate_decay auto ip_ban) steps).0 in
      elim (paths_lem auto ip_ban (decay_lem auto ip_ban decay)) [
        | inr persistent ↦ persistent
        | inl (timed, off) ↦
            let (secs, q, positive) =
              ban_kind-IsTemporary (policy_of auto) reason ip offenses auto.ban_duration_secs off
                timed in
            cc (q, forever)
      ]
