-- ===== src/Common/AutoBan/Tracker.antt =====
-- crates/common/src/auto_ban.rs: the records of the addresses and what changes them. Each call takes
-- the lock once and runs alone; `now` is the instant it reads, in nanoseconds.
use tracker_enhanced.Prelude.{
  ℕ, ◌+◌, ◌-◌, ◌*◌, ◌/◌, ◌%◌, Bool, true, false, ◌&&◌, ◌||◌, not, Option, none, some, List, ltb,
  leb, if◌then◌else◌, length, min, saturating_add, u32_mod,
}
use tracker_enhanced.Prelude.Entries.{lookup, insert}
use tracker_enhanced.Crates.{HashMap}
use tracker_enhanced.Common.Ip.{IpAddr, ip_eq}
use tracker_enhanced.Common.AutoBan.{
  AutoBanReason, AutoBanPolicy, BanKind, tier, is_immediate, ban_kind, saturating_mul,
}

pub record IpRecord : Type 0 where
  pub count : ℕ
  pub first_violation : ℕ
  pub banned_until : Option ℕ
  pub is_permanent : Bool
  pub persisted : Bool
  pub offenses : ℕ
  pub last_offense : Option ℕ

abbrev pub before : ℕ → Option ℕ → Bool
before now none = false
before now (some until) = ltb now until

-- `IpRecord::is_banned`
abbrev pub is_banned : IpRecord → ℕ → Bool
is_banned record_ now = record_.is_permanent || before now record_.banned_until

-- `duration_since(..).as_secs()`, which is zero for a later instant.
abbrev pub secs_since : ℕ → ℕ → ℕ
secs_since now instant = (now - instant) / 1000000000

-- `map_or(true, |last| now.duration_since(last).as_secs() >= secs)`
abbrev pub is_due : ℕ → ℕ → Option ℕ → Bool
is_due secs now none = true
is_due secs now (some last) = leb secs (secs_since now last)

-- `register_offense`: the record, whose `offenses` is what is returned.
unfoldable pub register_offense : IpRecord → ℕ → ℕ → IpRecord
register_offense r now decay_secs =
    let offenses = if is_due decay_secs now r.last_offense then 0 else r.offenses in
    record r { offenses = saturating_add u32_mod offenses 1; last_offense = some now }

-- The record of the violation of an address that is not tracked.
abbrev pub new_record : ℕ → IpRecord
new_record now = record {
  count = 1;
  first_violation = now;
  banned_until = none;
  is_permanent = false;
  persisted = false;
  offenses = 0;
  last_offense = none;
}

pub record AutoBanInner : Type 0 where
  pub records : List (IpAddr × IpRecord)
  pub threshold : ℕ
  pub window_secs : ℕ
  pub ban_duration_secs : ℕ
  pub max_records : ℕ
  pub last_capacity_cleanup : Option ℕ
  pub last_overflow_log : Option ℕ

-- `HARD_MAX_RECORDS`
abbrev pub hard_max_records : ℕ
hard_max_records = 2000000

-- `Instant::checked_add`: the instants of the platform are below a limit.
abbrev pub checked_instant : ℕ → ℕ → ℕ → Option ℕ
checked_instant limit now secs =
    let until = now + secs * 1000000000 in if ltb until limit then some until else none

abbrev pub set_ban : IpRecord → Option ℕ → IpRecord
set_ban r none = record r { banned_until = none; is_permanent = true; persisted = false }
set_ban r (some until) = record r {
  banned_until = some until;
  is_permanent = false;
  persisted = false;
}

-- `apply_ban`
unfoldable pub apply_ban : ℕ → IpRecord → BanKind → ℕ → IpRecord
apply_ban limit r BanKind.permanent now = set_ban r none
apply_ban limit r (BanKind.temporary secs) now = set_ban r (checked_instant limit now secs)

-- "Reset if outside window".
unfoldable pub reset_window : ℕ → ℕ → IpRecord → IpRecord
reset_window window_secs now r =
    if leb window_secs (secs_since now r.first_violation)
    then record r { count = 0; first_violation = now }
    else r

abbrev pub passed : ℕ → Option ℕ → Bool
passed now none = false
passed now (some until) = leb until now

-- "Clear expired ban".
unfoldable pub clear_expired : ℕ → IpRecord → IpRecord
clear_expired now r =
    if not r.is_permanent && passed now r.banned_until
    then record r { banned_until = none; persisted = false; count = 0; first_violation = now }
    else r

module _ (h : HashMap IpAddr IpRecord) (limit : ℕ) (policy : AutoBanPolicy) where
  -- The offence that is counted, and the ban that it brings.
  unfoldable pub ban : AutoBanReason → IpAddr → ℕ → ℕ → IpRecord → IpRecord
  ban reason ip now ban_duration_secs r =
      let r' = register_offense r now policy.offense_decay_secs in
      apply_ban limit r' (ban_kind policy reason ip r'.offenses ban_duration_secs) now

  -- A violation of an address that has a record: the record and whether it is banned by this.
  unfoldable pub violate_again :
      AutoBanReason → IpAddr → ℕ → AutoBanInner → IpRecord → IpRecord × Bool
  violate_again reason ip now inner old =
      let kept = clear_expired now (reset_window inner.window_secs now old) in
      let r = record kept { count = (kept.count + 1) % u32_mod } in
      let triggered = is_immediate (tier reason) || leb inner.threshold r.count in
      if triggered && not (is_banned r now)
      then (ban reason ip now inner.ban_duration_secs r, true)
      else (r, false)

  -- A violation of an address that has none.
  unfoldable pub violate_first : AutoBanReason → IpAddr → ℕ → AutoBanInner → IpRecord × Bool
  violate_first reason ip now inner =
      if is_immediate (tier reason) || leb inner.threshold 1
      then (ban reason ip now inner.ban_duration_secs (new_record now), true)
      else (new_record now, false)

  -- What a cleanup keeps.
  abbrev pub keep_record : ℕ → ℕ → IpAddr → IpRecord → Option IpRecord
  keep_record window_secs now ip r =
      if is_banned r now || ltb (secs_since now r.first_violation) window_secs then some r else none

  -- The cleanup of a full map, at most once a second.
  unfoldable pub make_room : ℕ → AutoBanInner → AutoBanInner
  make_room now inner =
      if is_due 1 now inner.last_capacity_cleanup
      then record inner {
        records = h.hash_retain (keep_record inner.window_secs now) inner.records;
        last_capacity_cleanup = some now;
      }
      else inner

  -- Doubles the limit of a map that stays full, up to the hard one.
  unfoldable pub grow : ℕ → AutoBanInner → AutoBanInner
  grow now inner =
      if leb inner.max_records (length inner.records)
      then (let grown = min (saturating_mul inner.max_records 2) hard_max_records in
          if ltb inner.max_records grown
          then record inner { max_records = grown }
          else (if is_due 60 now inner.last_capacity_cleanup
              then record inner { last_capacity_cleanup = some now }
              else inner))
      else inner

  -- The log of a map that stays full.
  unfoldable pub note_overflow : ℕ → AutoBanInner → AutoBanInner
  note_overflow now inner =
      if is_due 60 now inner.last_overflow_log
      then record inner { last_overflow_log = some now }
      else inner

  unfoldable pub track_first : AutoBanReason → IpAddr → ℕ → AutoBanInner → AutoBanInner × Bool
  track_first reason ip now inner =
      let (r, should_ban) = violate_first reason ip now inner in
      (record inner { records = h.hash_insert inner.records ip r }, should_ban)

  -- The violation of an address that has no record: the last test reads the limit of before `grow`.
  unfoldable pub record_new : AutoBanReason → IpAddr → ℕ → AutoBanInner → AutoBanInner × Bool
  record_new reason ip now inner =
      if leb inner.max_records (length inner.records)
      then (let inner' = grow now (make_room now inner) in
          if leb inner.max_records (length inner'.records)
          then (note_overflow now inner', false)
          else track_first reason ip now inner')
      else track_first reason ip now inner

  unfoldable pub record_known :
      AutoBanReason → IpAddr → ℕ → AutoBanInner → IpRecord → AutoBanInner × Bool
  record_known reason ip now inner r =
      if is_banned r now
      then (inner, false)
      else (let (r', should_ban) = violate_again reason ip now inner r in
          (record inner { records = insert ip r' inner.records }, should_ban))

  -- `AutoBanTracker::record_violation`, without what it writes to files.
  unfoldable pub record_violation : AutoBanReason → IpAddr → ℕ → AutoBanInner → AutoBanInner × Bool
  record_violation reason ip now inner = elim (lookup ip inner.records) [
    | none ↦ record_new reason ip now inner
    | some r ↦ record_known reason ip now inner r
  ]

abbrev pub is_banned_option : Option IpRecord → ℕ → Bool
is_banned_option none now = false
is_banned_option (some r) now = is_banned r now

-- `AutoBanTracker::is_auto_banned`
abbrev pub is_auto_banned : AutoBanInner → IpAddr → ℕ → Bool
is_auto_banned inner ip now = is_banned_option (lookup ip inner.records) now
