-- ===== src/Common/AutoBan/Config/Bounds.antt =====
-- How long a ban can be under a configuration that `validate_auto_ban_config` accepts.
use mathlib.Core.Path.{subst}
use tracker_enhanced.Prelude.{
  ℕ, zero, suc, ◌-◌, ◌*◌, ◌≤◌, ◌≡◌, Bool, true, false, ◌&&◌, leb, eqb, List, [], ◌∷◌, arith,
  get_elem?, Bool-cases, inl, inr,
}
use tracker_enhanced.Common.Ip.{IpAddr}
use tracker_enhanced.Common.AutoBan.{
  AutoBanReason, AutoBanTier, AutoBanPolicy, BanKind, from_secs, step_kind, tier_kind, tier,
  ban_kind, is_client_banned, max_ban_duration_secs,
}
use tracker_enhanced.Common.AutoBan.Duration.{client_base, ban_kind-client_banned}
use tracker_enhanced.Common.AutoBan.Config.{
  AutoBanConfig, IpBanConfig, ConfigResult, policy_of, validate_auto_ban_config, AllBelow,
  validate_auto_ban_config_lem,
}
use tracker_enhanced.UdpProtocol.Bytes.{Bytes}

-- A ban for a time is for a second at least and for the limit at most.
abbrev IsBounded : ℕ → BanKind → Type 0
IsBounded limit (BanKind.temporary secs) = (1 ≤ secs) × (secs ≤ limit)
IsBounded limit BanKind.permanent = Unit

eqb-positive : (secs : ℕ) → eqb secs 0 ≡ false → 1 ≤ secs
eqb-positive secs q = ground arith

from_secs-IsBounded : (limit secs : ℕ) → secs ≤ limit → IsBounded limit (from_secs secs)
from_secs-IsBounded limit secs h = elim (Bool-cases (eqb secs 0)) [
  | inl nothing ↦ rw nothing tt
  | inr something ↦ rw something (eqb-positive secs something, h)
]

module _ (paths_refer_to_same_file : Bytes → Bytes → Bool) where
  step-IsBounded :
      (steps : List ℕ) (n : ℕ)
      → AllBelow paths_refer_to_same_file steps
      → IsBounded max_ban_duration_secs (step_kind (get_elem? steps n))
  step-IsBounded [] n below = tt
  step-IsBounded (secs ∷ steps) zero (h, below) = from_secs-IsBounded max_ban_duration_secs secs h
  step-IsBounded (secs ∷ steps) (suc n) (h, below) = step-IsBounded steps n below

  tier-IsBounded :
      (policy : AutoBanPolicy) (t : AutoBanTier) (offenses fallback_secs : ℕ)
      → fallback_secs ≤ max_ban_duration_secs
      → policy.immediate_ban_secs ≤ max_ban_duration_secs
      → AllBelow paths_refer_to_same_file policy.escalation_steps
      → IsBounded max_ban_duration_secs (tier_kind policy t offenses fallback_secs)
  unfolding tier_kind
  tier-IsBounded policy AutoBanTier.suspicious offenses fallback_secs h immediate below =
      from_secs-IsBounded max_ban_duration_secs fallback_secs h
  tier-IsBounded policy AutoBanTier.heuristic offenses fallback_secs h immediate below =
      elim (Bool-cases policy.escalation_enabled) [
        | inl on ↦ rw on (step-IsBounded policy.escalation_steps (offenses - 1) below)
        | inr off ↦ rw off (from_secs-IsBounded max_ban_duration_secs fallback_secs h)
      ]
  tier-IsBounded policy AutoBanTier.immediate offenses fallback_secs h immediate below =
      elim (Bool-cases (policy.escalation_enabled && leb 2 offenses)) [
        | inl again ↦ rw again tt
        | inr first ↦ elim (Bool-cases (eqb policy.immediate_ban_secs 0)) [
          | inl inherit ↦
              rw (first, inherit) (from_secs-IsBounded max_ban_duration_secs fallback_secs h)
          | inr own ↦ rw (first, own) (eqb-positive policy.immediate_ban_secs own, immediate)
        ]
      ]

  client-IsBounded :
      (policy : AutoBanPolicy) (ip : IpAddr) (offenses fallback_secs : ℕ)
      → fallback_secs ≤ max_ban_duration_secs
      → policy.immediate_ban_secs ≤ max_ban_duration_secs
      → policy.client_ban_duration_secs ≤ max_ban_duration_secs
      → policy.client_ban_jitter_secs ≤ max_ban_duration_secs
      → IsBounded
          (2 * max_ban_duration_secs)
          (ban_kind policy AutoBanReason.client_banned ip offenses fallback_secs)
  client-IsBounded policy ip offenses fallback_secs h immediate duration jitter =
      let base : client_base policy fallback_secs ≤ max_ban_duration_secs = ground arith in
      elim (ban_kind-client_banned policy ip offenses fallback_secs (omega arith) (omega arith)) [
        | inl (nothing, q) ↦ rw q tt
        | inr (secs, q, (least, low, high), positive) ↦ rw q (least, omega arith)
      ]

  widen :
      (kind : BanKind)
      → IsBounded max_ban_duration_secs kind
      → IsBounded (2 * max_ban_duration_secs) kind
  widen (BanKind.temporary secs) (least, most) = (least, omega arith)
  widen BanKind.permanent h = tt

  -- Under an accepted configuration that enables automatic bans, a ban that is for a time, whatever
  -- the reason and the number of offences, is for a second at least and for 20 years at most: ten
  -- years of duration, and ten of jitter for a banned client.
  pub validate_auto_ban_config-ban_kind :
      (auto : AutoBanConfig) (ip_ban : IpBanConfig) (reason : AutoBanReason) (ip : IpAddr)
      (offenses secs : ℕ)
      → validate_auto_ban_config paths_refer_to_same_file auto ip_ban ≡ ConfigResult.accepted
      → auto.enabled ≡ true
      → ban_kind (policy_of auto) reason ip offenses auto.ban_duration_secs ≡ BanKind.temporary secs
      → (1 ≤ secs) × (secs ≤ 2 * max_ban_duration_secs)
  unfolding ban_kind
  validate_auto_ban_config-ban_kind auto ip_ban reason ip offenses secs accepted on h =
      let (_, _, duration, immediate, client, jitter, below) =
        validate_auto_ban_config_lem paths_refer_to_same_file auto ip_ban accepted on in
      let policy = policy_of auto in
      let fallback_secs = auto.ban_duration_secs in
      let bounded : IsBounded (2 * max_ban_duration_secs)
          (ban_kind policy reason ip offenses fallback_secs) =
        elim (Bool-cases (is_client_banned reason)) [
          | inl banned ↦
              rw banned
                (client-IsBounded policy ip offenses fallback_secs duration immediate client jitter)
          | inr other ↦ rw other (
              widen (tier_kind policy (tier reason) offenses fallback_secs) (
                tier-IsBounded policy (tier reason) offenses fallback_secs duration immediate
                  below))
        ] in
      subst (IsBounded (2 * max_ban_duration_secs)) h bounded
