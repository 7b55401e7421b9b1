-- ===== src/Common/AutoBan/Violations.antt =====
-- What a violation does to the bans: to that of the address and to those of the others.
use mathlib.Core.Path.{subst}
use tracker_enhanced.Prelude.{
  ℕ, ◌≡◌, refl, sym, ap, ◌∙◌, Bool, false, ◌||◌, Option, none, some, List, arith, ◌==◌, ltb, leb,
  if◌then◌else◌, length, Bool-cases, Option-cases, inl, inr,
}
use tracker_enhanced.Prelude.Entries.{
  lookup, insert, Distinct, keep_value, lookup-insert, insert-Distinct,
}
use tracker_enhanced.Crates.{HashMap}
use tracker_enhanced.Common.Ip.{IpAddr, ip_eq, ip_beq_iff}
use tracker_enhanced.Common.AutoBan.{AutoBanReason, AutoBanPolicy}
use tracker_enhanced.Common.AutoBan.Tracker.{
  IpRecord, AutoBanInner, is_banned, is_banned_option, is_auto_banned, violate_again, violate_first,
  record_violation, record_new, record_known, track_first, make_room, grow, note_overflow,
  keep_record, secs_since, is_due,
}
use tracker_enhanced.Common.AutoBan.Force.{violate_again_lem, violate_first_lem}

or_false : (b : Bool) → b ≡ (b || false)
or_false b = ground arith

same_branches : (b x : Bool) → x ≡ (if b then x else x)
same_branches b x = ground arith

-- The bans after the record of one address, which was not banned, is written.
written_bans :
    (ip j : IpAddr) (now : ℕ) (r : IpRecord) (should_ban : Bool)
    (old new : List (IpAddr × IpRecord))
    → lookup j new ≡ (if ip == j then some r else lookup j old)
    → is_banned r now ≡ should_ban
    → is_banned_option (lookup ip old) now ≡ false
    → is_banned_option (lookup j new) now ≡ (
        if ip == j
        then should_ban || is_banned_option (lookup j old) now
        else is_banned_option (lookup j old) now)
written_bans ip j now r should_ban old new get verdict free =
    ap (λ o. is_banned_option o now) get ∙ elim (Bool-cases (ip == j)) [
      | inl hit ↦
          let same : is_banned_option (lookup j old) now ≡ false =
            subst (λ k. is_banned_option (lookup k old) now ≡ false) ((ip_beq_iff ip j).0 hit)
              free in
          rw (hit, same) (verdict ∙ or_false should_ban)
      | inr miss ↦ rw miss refl
    ]

module _ (h : HashMap IpAddr IpRecord) (limit : ℕ) (policy : AutoBanPolicy) where
  -- What a violation does to the bans in force: only that of its address may change, and it does
  -- exactly if the violation bans it.
  abbrev pub Bans : IpAddr → ℕ → AutoBanInner → AutoBanInner × Bool → Type 0
  Bans ip now inner out =
      Distinct out.0.records
      × ((j : IpAddr)
          → is_auto_banned out.0 j now
            ≡ (if ip == j then out.1 || is_auto_banned inner j now else is_auto_banned inner j now))

  known_lem :
      (reason : AutoBanReason) (ip : IpAddr) (now : ℕ) (inner : AutoBanInner) (r : IpRecord)
      → Distinct inner.records
      → lookup ip inner.records ≡ some r
      → Bans ip now inner (record_known h limit policy reason ip now inner r)
  unfolding record_known
  known_lem reason ip now inner r d found = elim (Bool-cases (is_banned r now)) [
    | inl banned ↦ rw banned (d, (λ j. same_branches (ip == j) (is_auto_banned inner j now)))
    | inr free ↦
        let (r', should_ban) = violate_again h limit policy reason ip now inner r in
        let verdict = violate_again_lem h limit policy reason ip now inner r free in
        rw free (
          insert-Distinct ip r' inner.records d,
          (λ j.
              written_bans ip j now r' should_ban inner.records (insert ip r' inner.records)
                (lookup-insert ip j r' inner.records) verdict
                (ap (λ o. is_banned_option o now) found ∙ free)),
        )
  ]

  -- Making room, growing and logging keep every ban in force.
  abbrev pub Spares : ℕ → AutoBanInner → AutoBanInner → Type 0
  Spares now inner inner' =
      Distinct inner'.records
      × ((j : IpAddr) → is_auto_banned inner' j now ≡ is_auto_banned inner j now)
      × ((j : IpAddr) → lookup j inner.records ≡ none → lookup j inner'.records ≡ none)

  pub kept_banned :
      (window_secs now : ℕ) (j : IpAddr) (o : Option IpRecord)
      → is_banned_option (keep_value (keep_record h limit policy window_secs now) j o) now
        ≡ is_banned_option o now
  kept_banned window_secs now j none = refl
  kept_banned window_secs now j (some r) = elim (Bool-cases (is_banned r now)) [
    | inl banned ↦ rw banned banned
    | inr free ↦ elim (Bool-cases (ltb (secs_since now r.first_violation) window_secs)) [
      | inl young ↦ rw (free, young) free
      | inr old ↦ rw (free, old) refl
    ]
  ]

  pub make_room-Spares :
      (now : ℕ) (inner : AutoBanInner)
      → Distinct inner.records
      → Spares now inner (make_room h limit policy now inner)
  unfolding make_room
  make_room-Spares now inner d =
      let keep = keep_record h limit policy inner.window_secs now in
      elim (Bool-cases (is_due 1 now inner.last_capacity_cleanup)) [
        | inl due ↦ rw due (
          h.hash_retain-Distinct keep inner.records d,
          (λ j.
              ap (λ o. is_banned_option o now) (h.lookup-hash_retain keep inner.records j d)
              ∙ kept_banned inner.window_secs now j (lookup j inner.records)),
          (λ j missing. h.lookup-hash_retain keep inner.records j d ∙ rw missing refl),
        )
        | inr early ↦ rw early (d, (λ j. refl), (λ j missing. missing))
      ]

  pub grow-records :
      (now : ℕ) (inner : AutoBanInner) → (grow h limit policy now inner).records ≡ inner.records
  unfolding grow
  grow-records now inner = ground arith

  pub note_overflow-records :
      (now : ℕ) (inner : AutoBanInner)
      → (note_overflow h limit policy now inner).records ≡ inner.records
  unfolding note_overflow
  note_overflow-records now inner = ground arith

  track_first_lem :
      (reason : AutoBanReason) (ip : IpAddr) (now : ℕ) (inner : AutoBanInner)
      → Distinct inner.records
      → lookup ip inner.records ≡ none
      → Bans ip now inner (track_first h limit policy reason ip now inner)
  unfolding track_first
  track_first_lem reason ip now inner d missing =
      let (r', should_ban) = violate_first h limit policy reason ip now inner in
      (
        h.hash_insert-Distinct inner.records ip r' d,
        (λ j.
            written_bans ip j now r' should_ban inner.records (h.hash_insert inner.records ip r')
              (h.lookup-hash_insert inner.records ip j r' d)
              (violate_first_lem h limit policy reason ip now inner)
              (ap (λ o. is_banned_option o now) missing)),
      )

  -- What a call does to a map that spares the bans of another.
  spared_lem :
      (ip : IpAddr) (now : ℕ) (inner inner' : AutoBanInner) (out : AutoBanInner × Bool)
      → Spares now inner inner'
      → Bans ip now inner' out
      → Bans ip now inner out
  spared_lem ip now inner inner' out spares bans = (bans.0, (λ j. bans.1 j ∙ rw (spares.1 j) refl))

  pub new_lem :
      (reason : AutoBanReason) (ip : IpAddr) (now : ℕ) (inner : AutoBanInner)
      → Distinct inner.records
      → lookup ip inner.records ≡ none
      → Bans ip now inner (record_new h limit policy reason ip now inner)
  unfolding record_new
  new_lem reason ip now inner d missing =
      elim (Bool-cases (leb inner.max_records (length inner.records))) [
        | inr room ↦ rw room (track_first_lem reason ip now inner d missing)
        | inl full ↦
            let made = make_room h limit policy now inner in
            let grown = grow h limit policy now made in
            let spares : Spares now inner grown =
              rw (grow-records now made) (make_room-Spares now inner d) in
            elim (Bool-cases (leb inner.max_records (length grown.records))) [
              | inr freed ↦
                  rw (full, freed)
                    (spared_lem ip now inner grown (track_first h limit policy reason ip now grown)
                      spares (track_first_lem reason ip now grown spares.0 (spares.2 ip missing)))
              | inl still ↦
                  rw (full, still)
                    (
                      subst Distinct (sym (note_overflow-records now grown)) spares.0,
                      (λ j.
                          ap (λ l. is_banned_option (lookup j l) now)
                            (note_overflow-records now grown)
                          ∙ spares.1 j
                          ∙ same_branches (ip == j) (is_auto_banned inner j now)),
                    )
            ]
      ]

  -- A violation bans its address exactly if it returns that it does, from that very instant; a ban
  -- in force stays in force, of this address and of every other, also when the records are cleaned
  -- or full; and no address stands twice in the records.
  pub record_violation_lem :
      (reason : AutoBanReason) (ip : IpAddr) (now : ℕ) (inner : AutoBanInner)
      → Distinct inner.records
      → Bans ip now inner (record_violation h limit policy reason ip now inner)
  unfolding record_violation
  record_violation_lem reason ip now inner d = elim (Option-cases (lookup ip inner.records)) [
    | inl missing ↦ rw (missing, record_violation) (new_lem reason ip now inner d missing)
    | inr (r, found) ↦ rw (found, record_violation) (known_lem reason ip now inner r d found)
  ]
