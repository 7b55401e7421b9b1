-- ===== src/Common/AutoBan/Restore/Kept.antt =====
-- Cleaning and restoring keep the bans in force.
use mathlib.Core.Path.{subst}
use tracker_enhanced.Prelude.{
  ℕ, ◌-◌, ◌<◌, ◌≡◌, refl, sym, ap, ◌∙◌, true, Option, none, some, List, [], ◌∷◌, arith, ◌==◌,
  if◌then◌else◌, length, Bool-cases, inl, inr, eq_self, then_branch, else_branch, some_inj, lt→ltb,
}
use tracker_enhanced.Prelude.Entries.{lookup, Distinct, lookup-insert, insert-Distinct}
use tracker_enhanced.Crates.{HashMap}
use tracker_enhanced.Common.Ip.{IpAddr, ip_eq, ip_beq_iff}
use tracker_enhanced.Common.AutoBan.{AutoBanPolicy}
use tracker_enhanced.Common.AutoBan.Tracker.{
  IpRecord, AutoBanInner, is_banned, is_banned_option, is_auto_banned, new_record, keep_record,
  checked_instant,
}
use tracker_enhanced.Common.AutoBan.Violations.{kept_banned}
use tracker_enhanced.Common.AutoBan.Restore.{
  Records, prolong, cleanup, restore_entry, restore_until, restore, load_client_bans,
}

-- A record is banned at every instant at which it was, and until the instant that is given.
prolong_keeps :
    (until t : ℕ) (r : IpRecord) → is_banned r t ≡ true → is_banned (prolong until r) t ≡ true
unfolding prolong
prolong_keeps until t r h = ground arith

prolong_bans : (until t : ℕ) (r : IpRecord) → t < until → is_banned (prolong until r) t ≡ true
unfolding prolong
prolong_bans until t r h = ground arith

module _ (h : HashMap IpAddr IpRecord) (limit : ℕ) (policy : AutoBanPolicy) where
  -- The periodic cleanup changes no ban: exactly the addresses that were banned are banned.
  pub cleanup_lem :
      (now : ℕ) (inner : AutoBanInner) (j : IpAddr)
      → Distinct inner.records
      → is_auto_banned (cleanup h limit policy now inner) j now ≡ is_auto_banned inner j now
  unfolding cleanup
  cleanup_lem now inner j d =
      ap (λ o. is_banned_option o now)
        (h.lookup-hash_retain (keep_record h limit policy inner.window_secs now) inner.records j d)
      ∙ kept_banned h limit policy inner.window_secs now j (lookup j inner.records)

  entry_get :
      (ip j : IpAddr) (until now : ℕ) (o : Option IpRecord) (records : Records)
      → Distinct records
      → Distinct (restore_entry h limit policy ip until now o records)
        × (lookup j (restore_entry h limit policy ip until now o records) ≡ (
            if ip == j
            then some (prolong until (elim o [ none ↦ new_record now | some r ↦ r ]))
            else lookup j records))
  entry_get ip j until now none records d = (
    h.hash_insert-Distinct records ip (prolong until (new_record now)) d,
    h.lookup-hash_insert records ip j (prolong until (new_record now)) d,
  )
  entry_get ip j until now (some r) records d =
      (insert-Distinct ip (prolong until r) records d, lookup-insert ip j (prolong until r) records)

  old_keeps :
      (until now t : ℕ) (o : Option IpRecord)
      → is_banned_option o t ≡ true
      → is_banned (prolong until (elim o [ none ↦ new_record now | some r ↦ r ])) t ≡ true
  old_keeps until now t none banned = cc banned
  old_keeps until now t (some r) banned = prolong_keeps until t r banned

  entry_keeps :
      (ip j : IpAddr) (until now t : ℕ) (records : Records)
      → Distinct records
      → is_banned_option (lookup j records) t ≡ true
      → is_banned_option
          (lookup j (restore_entry h limit policy ip until now (lookup ip records) records))
          t
        ≡ true
  entry_keeps ip j until now t records d banned =
      ap (λ o. is_banned_option o t) (entry_get ip j until now (lookup ip records) records d).1
      ∙ elim (Bool-cases (ip == j)) [
        | inl hit ↦ rw hit (
            old_keeps until now t (lookup ip records) (
              subst (λ k. is_banned_option (lookup k records) t ≡ true)
                (sym ((ip_beq_iff ip j).0 hit)) banned))
        | inr miss ↦ rw miss banned
      ]

  entry_bans :
      (ip : IpAddr) (until now t : ℕ) (records : Records)
      → Distinct records
      → t < until
      → is_banned_option
          (lookup ip (restore_entry h limit policy ip until now (lookup ip records) records))
          t
        ≡ true
  entry_bans ip until now t records d in_time =
      ap (λ o. is_banned_option o t) (entry_get ip ip until now (lookup ip records) records d).1
      ∙ rw (eq_self ip) (prolong_bans until t _ in_time)

  until-Distinct :
      (ip : IpAddr) (now : ℕ) (o : Option ℕ) (records : Records)
      → Distinct records
      → Distinct (restore_until h limit policy ip now o records)
  until-Distinct ip now none records d = d
  until-Distinct ip now (some until) records d =
      (entry_get ip ip until now (lookup ip records) records d).0

  until_keeps :
      (ip j : IpAddr) (now t : ℕ) (o : Option ℕ) (records : Records)
      → Distinct records
      → is_banned_option (lookup j records) t ≡ true
      → is_banned_option (lookup j (restore_until h limit policy ip now o records)) t ≡ true
  until_keeps ip j now t none records d banned = banned
  until_keeps ip j now t (some until) records d banned =
      entry_keeps ip j until now t records d banned

  restore_keeps :
      (now now_unix t : ℕ) (bans : List (IpAddr × ℕ)) (j : IpAddr) (records : Records)
      → Distinct records
      → is_banned_option (lookup j records) t ≡ true
      → is_banned_option (lookup j (restore h limit policy now now_unix bans records)) t ≡ true
  unfolding restore
  restore_keeps now now_unix t [] j records d banned = banned
  restore_keeps now now_unix t ((ip, expire) ∷ bans) j records d banned =
      let o = checked_instant limit now (expire - now_unix) in
      restore_keeps now now_unix t bans j (restore_until h limit policy ip now o records)
        (until-Distinct ip now o records d) (until_keeps ip j now t o records d banned)

  restore_bans :
      (now now_unix t until : ℕ) (bans : List (IpAddr × ℕ)) (j : IpAddr) (expire : ℕ)
      (records : Records)
      → Distinct records
      → lookup j bans ≡ some expire
      → checked_instant limit now (expire - now_unix) ≡ some until
      → t < until
      → is_banned_option (lookup j (restore h limit policy now now_unix bans records)) t ≡ true
  unfolding restore lookup
  restore_bans now now_unix t until [] j expire records d found fits in_time = cc found
  restore_bans now now_unix t until ((ip, e) ∷ bans) j expire records d found fits in_time =
      let o = checked_instant limit now (e - now_unix) in
      let next = restore_until h limit policy ip now o records in
      elim (Bool-cases (ip == j)) [
        | inl hit ↦
            let same =
              some_inj (then_branch (ip == j) (some e) (lookup j bans) (some expire) hit found) in
            let here : o ≡ some until =
              ap (λ x. checked_instant limit now (x - now_unix)) same ∙ fits in
            let banned : is_banned_option (lookup ip next) t ≡ true =
              subst
                (λ o.
                  is_banned_option (lookup ip (restore_until h limit policy ip now o records)) t
                  ≡ true)
                (sym here) (entry_bans ip until now t records d in_time) in
            restore_keeps now now_unix t bans j next (until-Distinct ip now o records d) (
              subst (λ k. is_banned_option (lookup k next) t ≡ true) ((ip_beq_iff ip j).0 hit)
                banned)
        | inr miss ↦
            restore_bans now now_unix t until bans j expire next (until-Distinct ip now o records d)
              (else_branch (ip == j) (some e) (lookup j bans) (some expire) miss found) fits in_time
      ]

  loaded_records :
      (now now_unix : ℕ) (parsed : List (IpAddr × ℕ)) (inner : AutoBanInner)
      → (load_client_bans h limit policy now now_unix parsed inner).0.records
        ≡ restore h limit policy now now_unix parsed inner.records
  unfolding load_client_bans restore
  loaded_records now now_unix [] inner = refl
  loaded_records now now_unix (ban ∷ parsed) inner =
      rw (lt→ltb 0 (length (ban ∷ parsed)) (omega arith)) refl

  -- A ban that is loaded from the file is in force until its time has passed.
  pub load_client_bans_lem :
      (now now_unix t until : ℕ) (parsed : List (IpAddr × ℕ)) (ip : IpAddr) (expire : ℕ)
      (inner : AutoBanInner)
      → Distinct inner.records
      → lookup ip parsed ≡ some expire
      → checked_instant limit now (expire - now_unix) ≡ some until
      → t < until
      → is_auto_banned (load_client_bans h limit policy now now_unix parsed inner).0 ip t ≡ true
  load_client_bans_lem now now_unix t until parsed ip expire inner d found fits in_time =
      ap (λ l. is_banned_option (lookup ip l) t) (loaded_records now now_unix parsed inner)
      ∙ restore_bans now now_unix t until parsed ip expire inner.records d found fits in_time

  -- Loading the file ends no ban: an address that was banned at some instant still is.
  pub load_client_bans-is_auto_banned :
      (now now_unix t : ℕ) (parsed : List (IpAddr × ℕ)) (ip : IpAddr) (inner : AutoBanInner)
      → Distinct inner.records
      → is_auto_banned inner ip t ≡ true
      → is_auto_banned (load_client_bans h limit policy now now_unix parsed inner).0 ip t ≡ true
  load_client_bans-is_auto_banned now now_unix t parsed ip inner d banned =
      ap (λ l. is_banned_option (lookup ip l) t) (loaded_records now now_unix parsed inner)
      ∙ restore_keeps now now_unix t parsed ip inner.records d banned
