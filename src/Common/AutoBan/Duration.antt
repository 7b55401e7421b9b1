-- ===== src/Common/AutoBan/Duration.antt =====
-- How long bans last.
use tracker_enhanced.Prelude.{
  ℕ, ◌+◌, ◌-◌, ◌*◌, ◌%◌, ◌≤◌, ◌<◌, ◌≡◌, ◌⊎◌, refl, true, false, not, arith, leb, eqb, if◌then◌else◌,
  saturating_add, u64_mod, Bool-cases, inl, inr,
}
use tracker_enhanced.Prelude.Int.{ℤ, pos, negsuc}
use tracker_enhanced.Common.Ip.{IpAddr}
use tracker_enhanced.Common.AutoBan.{
  AutoBanReason, AutoBanTier, AutoBanPolicy, BanKind, from_secs, client_jitter, client_ban_secs,
  tier_kind, ban_kind, shift, jitter_hash, saturating_mul, tier, is_client_banned,
}

-- The duration that a client ban is spread around.
abbrev pub client_base : AutoBanPolicy → ℕ → ℕ
client_base policy fallback_secs =
    if not (eqb policy.client_ban_duration_secs 0)
    then policy.client_ban_duration_secs
    else (if not (eqb policy.immediate_ban_secs 0)
        then policy.immediate_ban_secs
        else fallback_secs)

-- At least one second, and at most `jitter` away from `base`.
abbrev pub Near : ℕ → ℕ → ℕ → Type 0
Near base jitter secs = (1 ≤ secs) × (base ≤ secs + jitter) × (secs ≤ base + jitter)

abbrev Within : ℕ → ℤ → Type 0
Within jitter (pos delta) = delta ≤ jitter
Within jitter (negsuc n) = n + 1 ≤ jitter

offset-Within :
    (jitter offset : ℕ)
    → offset ≤ 2 * jitter
    → Within jitter
        (if leb jitter offset then pos (offset - jitter) else negsuc (jitter - offset - 1))
offset-Within jitter offset h = elim (Bool-cases (leb jitter offset)) [
  | inl up ↦ rw up (omega arith)
  | inr down ↦ rw down (below down)
]
  where
    below : leb jitter offset ≡ false → jitter - offset - 1 + 1 ≤ jitter
    below q = ground arith

span_eq :
    (jitter : ℕ)
    → 2 * jitter + 1 < u64_mod
    → saturating_add u64_mod (saturating_mul jitter 2) 1 ≡ 2 * jitter + 1
span_eq jitter h = ground arith

client_jitter-Within :
    (ip : IpAddr) (jitter : ℕ) → 2 * jitter + 1 < u64_mod → Within jitter (client_jitter ip jitter)
unfolding client_jitter
client_jitter-Within ip jitter h = elim (Bool-cases (eqb jitter 0)) [
  | inl none_at_all ↦ rw none_at_all (omega arith)
  | inr some_jitter ↦
      rw (some_jitter, span_eq jitter h)
        (offset-Within jitter (jitter_hash ip % (2 * jitter + 1)) (omega arith))
]

shift-Near :
    (base jitter : ℕ) (delta : ℤ)
    → 1 ≤ base
    → base + jitter < u64_mod
    → Within jitter delta
    → Near base jitter (shift base delta)
shift-Near base jitter (pos d) h fits within = ground arith
shift-Near base jitter (negsuc n) h fits within = ground arith

from_secs_eq : (secs : ℕ) → 1 ≤ secs → from_secs secs ≡ BanKind.temporary secs
from_secs_eq secs h = ground arith

banned_for_a_time :
    (policy : AutoBanPolicy) (ip : IpAddr) (offenses fallback_secs : ℕ)
    → 1 ≤ client_base policy fallback_secs
    → client_base policy fallback_secs + policy.client_ban_jitter_secs < u64_mod
    → 2 * policy.client_ban_jitter_secs + 1 < u64_mod
    → (secs : ℕ) × (ban_kind policy AutoBanReason.client_banned ip offenses fallback_secs
        ≡ BanKind.temporary secs)
      × Near (client_base policy fallback_secs) policy.client_ban_jitter_secs secs
unfolding ban_kind client_ban_secs
banned_for_a_time policy ip offenses fallback_secs h fits span =
    let base = client_base policy fallback_secs in
    let jitter = policy.client_ban_jitter_secs in
    let secs = shift base (client_jitter ip jitter) in
    let near =
      shift-Near base jitter (client_jitter ip jitter) h fits
        (client_jitter-Within ip jitter span) in
    let nonzero : eqb base 0 ≡ false = ground arith in
    (secs, rw nonzero (from_secs_eq secs near.0), near)

banned_for_good :
    (policy : AutoBanPolicy) (ip : IpAddr) (offenses fallback_secs : ℕ)
    → client_base policy fallback_secs ≡ 0
    → ban_kind policy AutoBanReason.client_banned ip offenses fallback_secs ≡ BanKind.permanent
unfolding ban_kind client_ban_secs
banned_for_good policy ip offenses fallback_secs h =
    let base = client_base policy fallback_secs in
    let nothing : eqb base 0 ≡ true = ground arith in rw nothing refl

-- How often a banned client comes does not matter. Where the client duration, else the immediate
-- duration, else the default one is not 0, the ban is for the first of these that is not 0, give or
-- take the jitter and at least for a second; where all three are 0, the client is banned for good.
-- This is for durations and jitters that do not overflow.
pub ban_kind-client_banned :
    (policy : AutoBanPolicy) (ip : IpAddr) (offenses fallback_secs : ℕ)
    → client_base policy fallback_secs + policy.client_ban_jitter_secs < u64_mod
    → 2 * policy.client_ban_jitter_secs + 1 < u64_mod
    → ((client_base policy fallback_secs ≡ 0)
        × (ban_kind policy AutoBanReason.client_banned ip offenses fallback_secs
            ≡ BanKind.permanent))
      ⊎ ((secs : ℕ) × (ban_kind policy AutoBanReason.client_banned ip offenses fallback_secs
            ≡ BanKind.temporary secs)
          × Near (client_base policy fallback_secs) policy.client_ban_jitter_secs secs
          × (1 ≤ client_base policy fallback_secs))
ban_kind-client_banned policy ip offenses fallback_secs fits span =
    let base = client_base policy fallback_secs in
    elim (Bool-cases (eqb base 0)) [
      | inl nothing ↦
          let zero : base ≡ 0 = ground arith in
          inl (zero, banned_for_good policy ip offenses fallback_secs zero)
      | inr something ↦
          let positive : 1 ≤ base = ground arith in
          let (secs, q, near) =
            banned_for_a_time policy ip offenses fallback_secs positive fits span in
          inr (secs, q, near, positive)
    ]

abbrev IsTemporary : BanKind → Type 0
IsTemporary kind = (secs : ℕ) × (kind ≡ BanKind.temporary secs) × (1 ≤ secs)

from_secs-IsTemporary : (secs : ℕ) → 1 ≤ secs → IsTemporary (from_secs secs)
from_secs-IsTemporary secs h = (secs, from_secs_eq secs h, h)

tier_kind-IsTemporary :
    (policy : AutoBanPolicy) (t : AutoBanTier) (offenses fallback_secs : ℕ)
    → policy.escalation_enabled ≡ false
    → 1 ≤ fallback_secs
    → IsTemporary (tier_kind policy t offenses fallback_secs)
unfolding tier_kind
tier_kind-IsTemporary policy AutoBanTier.suspicious offenses fallback_secs off h =
    from_secs-IsTemporary fallback_secs h
tier_kind-IsTemporary policy AutoBanTier.heuristic offenses fallback_secs off h =
    rw off (from_secs-IsTemporary fallback_secs h)
tier_kind-IsTemporary policy AutoBanTier.immediate offenses fallback_secs off h =
    elim (Bool-cases (eqb policy.immediate_ban_secs 0)) [
      | inl inherit ↦ rw (off, inherit) (from_secs-IsTemporary fallback_secs h)
      | inr own ↦ rw (off, own) (policy.immediate_ban_secs, refl, nonzero own)
    ]
  where
    nonzero : eqb policy.immediate_ban_secs 0 ≡ false → 1 ≤ policy.immediate_ban_secs
    nonzero q = ground arith

shift-positive : (base : ℕ) (delta : ℤ) → 1 ≤ shift base delta
shift-positive base (pos d) = omega arith
shift-positive base (negsuc n) = omega arith

client_ban_secs-positive :
    (policy : AutoBanPolicy) (ip : IpAddr) (fallback_secs : ℕ)
    → 1 ≤ fallback_secs
    → 1 ≤ client_ban_secs policy ip fallback_secs
unfolding client_ban_secs
client_ban_secs-positive policy ip fallback_secs h =
    let base = client_base policy fallback_secs in
    let nonzero : eqb base 0 ≡ false = ground arith in
    rw nonzero (shift-positive base (client_jitter ip policy.client_ban_jitter_secs))

-- Where the default duration is a time and escalation is off, no reason bans for good.
pub ban_kind-IsTemporary :
    (policy : AutoBanPolicy) (reason : AutoBanReason) (ip : IpAddr) (offenses fallback_secs : ℕ)
    → policy.escalation_enabled ≡ false
    → 1 ≤ fallback_secs
    → (secs : ℕ) × (ban_kind policy reason ip offenses fallback_secs ≡ BanKind.temporary secs)
      × (1 ≤ secs)
unfolding ban_kind
ban_kind-IsTemporary policy reason ip offenses fallback_secs off h =
    elim (Bool-cases (is_client_banned reason)) [
      | inl client ↦ rw client (
          from_secs-IsTemporary (client_ban_secs policy ip fallback_secs)
            (client_ban_secs-positive policy ip fallback_secs h))
      | inr other ↦
          rw other (tier_kind-IsTemporary policy (tier reason) offenses fallback_secs off h)
    ]
