-- ===== src/Common/AutoBan/Restore.antt =====
-- crates/common/src/auto_ban.rs: what is done to the records besides violations: the periodic
-- cleanup, the removal of addresses that the ban list covers, and the client bans that are restored
-- when the server starts, given the parsed lines of their file.
pub mod Kept
use tracker_enhanced.Prelude.{
  ℕ, suc, ◌+◌, ◌-◌, Bool, true, false, not, ◌&&◌, Option, none, some, List, [], ◌∷◌, Eq, ltb,
  if◌then◌else◌, length, count, saturating_add, u64_mod, nat_eq, list_eq,
}
use tracker_enhanced.Prelude.Entries.{lookup, insert}
use tracker_enhanced.Crates.{HashMap}
use tracker_enhanced.Common.Ip.{IpAddr, ip_eq}
use tracker_enhanced.Common.AutoBan.{AutoBanPolicy}
use tracker_enhanced.Common.AutoBan.Tracker.{
  IpRecord, AutoBanInner, is_banned, new_record, keep_record, checked_instant, secs_since,
}

abbrev pub Records : Type 0
Records = List (IpAddr × IpRecord)

-- `banned_count` and `tracked_count`
abbrev pub banned_count : AutoBanInner → ℕ → ℕ
banned_count inner now = count (λ e. is_banned e.1 now) inner.records

abbrev pub tracked_count : AutoBanInner → ℕ
tracked_count inner = length inner.records

-- "Keep whichever expiry is later."
abbrev pub is_longer : ℕ → Option ℕ → Bool
is_longer until none = true
is_longer until (some existing) = ltb existing until

unfoldable pub prolong : ℕ → IpRecord → IpRecord
prolong until r =
    if not r.is_permanent && is_longer until r.banned_until
    then record r { banned_until = some until; persisted = false }
    else r

module _ (h : HashMap IpAddr IpRecord) (limit : ℕ) (policy : AutoBanPolicy) where
  -- `cleanup`
  unfoldable pub cleanup : ℕ → AutoBanInner → AutoBanInner
  cleanup now inner = record inner {
    records = h.hash_retain (keep_record h limit policy inner.window_secs now) inner.records;
  }

  unfoldable pub remove_all : List IpAddr → Records → Records
  remove_all [] records = records
  remove_all (ip ∷ ips) records = remove_all ips (h.hash_remove records ip)

  -- `remove_ips`
  unfoldable pub remove_ips : List IpAddr → AutoBanInner → AutoBanInner
  remove_ips ips inner = record inner { records = remove_all ips inner.records }

  -- `entry(ip).or_insert_with` and the change of the record.
  abbrev pub restore_entry : IpAddr → ℕ → ℕ → Option IpRecord → Records → Records
  restore_entry ip until now none records =
      h.hash_insert records ip (prolong until (new_record now))
  restore_entry ip until now (some r) records = insert ip (prolong until r) records

  abbrev pub restore_until : IpAddr → ℕ → Option ℕ → Records → Records
  restore_until ip now none records = records
  restore_until ip now (some until) records = restore_entry ip until now (lookup ip records) records

  -- The loop of `load_client_bans`.
  unfoldable pub restore : ℕ → ℕ → List (IpAddr × ℕ) → Records → Records
  restore now now_unix [] records = records
  restore now now_unix ((ip, expire_unix) ∷ bans) records =
      restore now now_unix bans
        (restore_until ip now (checked_instant limit now (expire_unix - now_unix)) records)

  -- `load_client_bans`
  unfoldable pub load_client_bans : ℕ → ℕ → List (IpAddr × ℕ) → AutoBanInner → AutoBanInner × ℕ
  load_client_bans now now_unix parsed inner =
      let n = length parsed in
      if ltb 0 n
      then (let records = restore now now_unix parsed inner.records in
          let needed = saturating_add u64_mod (Prim.Native.Nat.max inner.max_records n) 100000 in
          (
            record inner {
              records = records;
              max_records = if ltb inner.max_records needed then needed else inner.max_records;
            },
            n,
          ))
      else (inner, n)
