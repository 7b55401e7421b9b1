-- ===== src/Common/AutoBan/Force.antt =====
-- A ban is in force from the instant at which it is applied, and only such a violation makes one.
use tracker_enhanced.Prelude.{
  ℕ, ◌+◌, ◌-◌, ◌*◌, ◌%◌, ◌≤◌, ◌≡◌, refl, Bool, true, false, ◌&&◌, Option, none, some, arith, ltb,
  leb, eqb, if◌then◌else◌, u32_mod, Bool-cases, inl, inr, get_elem?, lt→ltb,
}
use tracker_enhanced.Crates.{HashMap}
use tracker_enhanced.Common.Ip.{IpAddr, ip_eq}
use tracker_enhanced.Common.AutoBan.{
  AutoBanReason, AutoBanTier, AutoBanPolicy, BanKind, step_kind, is_client_banned, client_ban_secs,
  from_secs, ban_kind, tier_kind, tier,
}
use tracker_enhanced.Common.AutoBan.Tracker.{
  IpRecord, AutoBanInner, is_banned, apply_ban, clear_expired, reset_window, ban, violate_again,
  violate_first, new_record,
}

-- A duration is never zero.
abbrev Lasts : BanKind → Type 0
Lasts BanKind.permanent = Unit
Lasts (BanKind.temporary secs) = 1 ≤ secs

from_secs-Lasts : (secs : ℕ) → Lasts (from_secs secs)
from_secs-Lasts secs = elim (Bool-cases (eqb secs 0)) [
  | inl none_at_all ↦ rw none_at_all tt
  | inr some_secs ↦ rw some_secs (positive some_secs)
]
  where
    positive : eqb secs 0 ≡ false → 1 ≤ secs
    positive q = ground arith

step_kind-Lasts : (o : Option ℕ) → Lasts (step_kind o)
step_kind-Lasts none = tt
step_kind-Lasts (some secs) = from_secs-Lasts secs

tier_kind-Lasts :
    (policy : AutoBanPolicy) (t : AutoBanTier) (offenses fallback : ℕ)
    → Lasts (tier_kind policy t offenses fallback)
unfolding tier_kind
tier_kind-Lasts policy AutoBanTier.suspicious offenses fallback = from_secs-Lasts fallback
tier_kind-Lasts policy AutoBanTier.heuristic offenses fallback =
    elim (Bool-cases policy.escalation_enabled) [
      | inl on ↦ rw on (step_kind-Lasts (get_elem? policy.escalation_steps (offenses - 1)))
      | inr off ↦ rw off (from_secs-Lasts fallback)
    ]
tier_kind-Lasts policy AutoBanTier.immediate offenses fallback =
    elim (Bool-cases (policy.escalation_enabled && leb 2 offenses)) [
      | inl again ↦ rw again tt
      | inr once ↦ elim (Bool-cases (eqb policy.immediate_ban_secs 0)) [
        | inl inherit ↦ rw (once, inherit) (from_secs-Lasts fallback)
        | inr own ↦ rw (once, own) (positive policy.immediate_ban_secs own)
      ]
    ]
  where
    positive : (n : ℕ) → eqb n 0 ≡ false → 1 ≤ n
    positive n q = ground arith

ban_kind-Lasts :
    (policy : AutoBanPolicy) (reason : AutoBanReason) (ip : IpAddr) (offenses fallback : ℕ)
    → Lasts (ban_kind policy reason ip offenses fallback)
unfolding ban_kind
ban_kind-Lasts policy reason ip offenses fallback = elim (Bool-cases (is_client_banned reason)) [
  | inl client ↦ rw client (from_secs-Lasts (client_ban_secs policy ip fallback))
  | inr other ↦ rw other (tier_kind-Lasts policy (tier reason) offenses fallback)
]

-- A ban is in force at the instant at which it is applied.
apply_ban-is_banned :
    (limit : ℕ) (r : IpRecord) (kind : BanKind) (now : ℕ)
    → Lasts kind
    → is_banned (apply_ban limit r kind now) now ≡ true
unfolding apply_ban
apply_ban-is_banned limit r BanKind.permanent now h = refl
apply_ban-is_banned limit r (BanKind.temporary secs) now h =
    elim (Bool-cases (ltb (now + secs * 1000000000) limit)) [
      | inl fits ↦ rw fits (lt→ltb now (now + secs * 1000000000) (omega arith))
      | inr beyond ↦ rw beyond refl
    ]

-- Neither an old window nor an expired ban makes a ban.
clear-is_banned :
    (window_secs now n : ℕ) (r : IpRecord)
    → is_banned r now ≡ false
    → is_banned (record (clear_expired now (reset_window window_secs now r)) { count = n }) now
      ≡ false
unfolding clear_expired reset_window
clear-is_banned window_secs now n r h = ground arith

choose_lem :
    (b : Bool) (now : ℕ) (x y : IpRecord)
    → is_banned x now ≡ true
    → is_banned y now ≡ false
    → let p : IpRecord × Bool = if b then (x, true) else (y, false) in is_banned p.0 now ≡ p.1
choose_lem true now x y p q = p
choose_lem false now x y p q = q

module _ (h : HashMap IpAddr IpRecord) (limit : ℕ) (policy : AutoBanPolicy) where
  ban-is_banned :
      (reason : AutoBanReason) (ip : IpAddr) (now duration : ℕ) (r : IpRecord)
      → is_banned (ban h limit policy reason ip now duration r) now ≡ true
  unfolding ban
  ban-is_banned reason ip now duration r =
      apply_ban-is_banned limit _ _ now (ban_kind-Lasts policy reason ip _ duration)

  -- The second part of what is returned says whether the address is now banned.
  pub violate_again_lem :
      (reason : AutoBanReason) (ip : IpAddr) (now : ℕ) (inner : AutoBanInner) (r : IpRecord)
      → is_banned r now ≡ false
      → let (r', should_ban) = violate_again h limit policy reason ip now inner r in
        is_banned r' now ≡ should_ban
  unfolding violate_again
  violate_again_lem reason ip now inner r free =
      let kept = clear_expired now (reset_window inner.window_secs now r) in
      choose_lem _ now _ _
        (ban-is_banned reason ip now inner.ban_duration_secs
          (record kept { count = (kept.count + 1) % u32_mod }))
        (clear-is_banned inner.window_secs now ((kept.count + 1) % u32_mod) r free)

  pub violate_first_lem :
      (reason : AutoBanReason) (ip : IpAddr) (now : ℕ) (inner : AutoBanInner)
      → let (r', should_ban) = violate_first h limit policy reason ip now inner in
        is_banned r' now ≡ should_ban
  unfolding violate_first
  violate_first_lem reason ip now inner =
      choose_lem _ now _ _ (ban-is_banned reason ip now inner.ban_duration_secs (new_record now))
        refl
