-- ===== src/Common/AutoBan/Capacity.antt =====
-- How many addresses are tracked, and what happens to a violation when the records are full.
use tracker_enhanced.Prelude.{
  ℕ, ◌+◌, ◌≤◌, ◌<◌, ◌≡◌, ◌⊎◌, refl, ap, ◌∙◌, true, false, none, some, arith, leb, length, min,
  Bool-cases, Option-cases, inl, inr, le→leb,
}
use tracker_enhanced.Prelude.Entries.{lookup, Distinct, length-insert_present}
use tracker_enhanced.Crates.{HashMap}
use tracker_enhanced.Common.Ip.{IpAddr, ip_eq}
use tracker_enhanced.Common.AutoBan.{AutoBanReason, AutoBanPolicy, saturating_mul}
use tracker_enhanced.Common.AutoBan.Tracker.{
  IpRecord, AutoBanInner, is_banned, record_violation, record_new, record_known, track_first,
  make_room, grow, note_overflow, keep_record, hard_max_records, is_due, violate_first,
  violate_again,
}
use tracker_enhanced.Common.AutoBan.Violations.{
  make_room-Spares, grow-records, note_overflow-records,
}

module _ (h : HashMap IpAddr IpRecord) (limit : ℕ) (policy : AutoBanPolicy) where
  -- No more records than the limit, which has not shrunk, nor grown beyond the hard limit.
  abbrev pub Fits : AutoBanInner → AutoBanInner → Type 0
  Fits inner inner' =
      (length inner'.records ≤ inner'.max_records)
      × (inner.max_records ≤ inner'.max_records)
      × ((inner'.max_records ≡ inner.max_records) ⊎ (inner'.max_records ≤ hard_max_records))

  length-make_room :
      (now : ℕ) (inner : AutoBanInner)
      → (length (make_room h limit policy now inner).records ≤ length inner.records)
        × ((make_room h limit policy now inner).max_records ≡ inner.max_records)
  unfolding make_room
  length-make_room now inner = elim (Bool-cases (is_due 1 now inner.last_capacity_cleanup)) [
    | inl due ↦ rw due (
      h.length-hash_retain (keep_record h limit policy inner.window_secs now) inner.records,
      refl,
    )
    | inr early ↦ rw early (omega arith, refl)
  ]

  grow_max :
      (now : ℕ) (inner : AutoBanInner)
      → (inner.max_records ≤ (grow h limit policy now inner).max_records)
        × (((grow h limit policy now inner).max_records ≡ inner.max_records)
            ⊎ ((grow h limit policy now inner).max_records ≤ hard_max_records))
  unfolding grow
  grow_max now inner = ground arith

  note_overflow_max :
      (now : ℕ) (inner : AutoBanInner)
      → (note_overflow h limit policy now inner).max_records ≡ inner.max_records
  unfolding note_overflow
  note_overflow_max now inner = ground arith

  length-track_first :
      (reason : AutoBanReason) (ip : IpAddr) (now : ℕ) (inner : AutoBanInner)
      → (length (track_first h limit policy reason ip now inner).0.records
          ≤ length inner.records + 1)
        × ((track_first h limit policy reason ip now inner).0.max_records ≡ inner.max_records)
  unfolding track_first
  length-track_first reason ip now inner = (
    h.length-hash_insert inner.records ip (violate_first h limit policy reason ip now inner).0,
    refl,
  )

  not_full : (a b : ℕ) → leb a b ≡ false → b < a
  not_full a b q = ground arith

  -- The limit of a map that was grown, after a step that keeps it.
  still_limited :
      (now : ℕ) (inner inner' : AutoBanInner)
      → inner'.max_records
        ≡ (grow h limit policy now (make_room h limit policy now inner)).max_records
      → length inner'.records ≤ inner.max_records
      → Fits inner inner'
  still_limited now inner inner' same size =
      let made = make_room h limit policy now inner in
      let (low, high) = grow_max now made in
      let cleaned = length-make_room now inner in
      (
        omega arith,
        omega arith,
        elim high [ inl kept ↦ inl (same ∙ kept ∙ cleaned.1) | inr hard ↦ inr (omega arith) ],
      )

  known-Fits :
      (reason : AutoBanReason) (ip : IpAddr) (now : ℕ) (inner : AutoBanInner) (r : IpRecord)
      → length inner.records ≤ inner.max_records
      → lookup ip inner.records ≡ some r
      → Fits inner (record_known h limit policy reason ip now inner r).0
  unfolding record_known
  known-Fits reason ip now inner r fits found = elim (Bool-cases (is_banned r now)) [
    | inl banned ↦ rw banned (fits, omega arith, inl refl)
    | inr free ↦
        let r' = (violate_again h limit policy reason ip now inner r).0 in
        rw free
          (omega (arith, length-insert_present ip r' r inner.records found), omega arith, inl refl)
  ]

  new-Fits :
      (reason : AutoBanReason) (ip : IpAddr) (now : ℕ) (inner : AutoBanInner)
      → length inner.records ≤ inner.max_records
      → Fits inner (record_new h limit policy reason ip now inner).0
  unfolding record_new
  new-Fits reason ip now inner fits =
      let made = make_room h limit policy now inner in
      let grown = grow h limit policy now made in
      let same : length grown.records ≡ length made.records =
        ap length (grow-records h limit policy now made) in
      let cleaned = length-make_room now inner in
      elim (Bool-cases (leb inner.max_records (length inner.records))) [
        | inr room ↦
            let few = not_full inner.max_records (length inner.records) room in
            let track = length-track_first reason ip now inner in
            rw room (omega arith, omega arith, inl track.1)
        | inl full ↦ elim (Bool-cases (leb inner.max_records (length grown.records))) [
          | inr freed ↦
              let few = not_full inner.max_records (length grown.records) freed in
              let track = length-track_first reason ip now grown in
              rw (full, freed)
                (still_limited now inner (track_first h limit policy reason ip now grown).0 track.1
                  (omega arith))
          | inl still ↦
              let noted : length (note_overflow h limit policy now grown).records
                  ≡ length grown.records =
                ap length (note_overflow-records h limit policy now grown) in
              rw (full, still)
                (still_limited now inner (note_overflow h limit policy now grown)
                  (note_overflow_max now grown) (omega arith))
        ]
      ]

  -- A violation never makes more records than the limit allows, whatever the map holds; the limit
  -- does not shrink, and it grows no further than the hard one.
  pub capacity_lem :
      (reason : AutoBanReason) (ip : IpAddr) (now : ℕ) (inner : AutoBanInner)
      → length inner.records ≤ inner.max_records
      → Fits inner (record_violation h limit policy reason ip now inner).0
  unfolding record_violation
  capacity_lem reason ip now inner fits = elim (Option-cases (lookup ip inner.records)) [
    | inl missing ↦ rw (missing, record_violation) (new-Fits reason ip now inner fits)
    | inr (r, found) ↦ rw (found, record_violation) (known-Fits reason ip now inner r fits found)
  ]

  -- The limit that a full map gets.
  abbrev pub grown_limit : ℕ → ℕ
  grown_limit max_records = min (saturating_mul max_records 2) hard_max_records

  grow_full :
      (now : ℕ) (inner : AutoBanInner)
      → inner.max_records ≤ length inner.records
      → inner.max_records < grown_limit inner.max_records
      → (grow h limit policy now inner).max_records ≡ grown_limit inner.max_records
  unfolding grow
  grow_full now inner full below = ground arith

  -- The violation that makes a full map grow is not recorded: where cleaning frees no room and the
  -- limit can grow, the call returns false, the limit is raised, and the address is not tracked.
  pub grow_lem :
      (reason : AutoBanReason) (ip : IpAddr) (now : ℕ) (inner : AutoBanInner)
      → Distinct inner.records
      → lookup ip inner.records ≡ none
      → inner.max_records ≤ length (make_room h limit policy now inner).records
      → inner.max_records < grown_limit inner.max_records
      → ((record_violation h limit policy reason ip now inner).1 ≡ false)
        × ((record_violation h limit policy reason ip now inner).0.max_records
            ≡ grown_limit inner.max_records)
        × (lookup ip (record_violation h limit policy reason ip now inner).0.records ≡ none)
  unfolding record_violation record_new
  grow_lem reason ip now inner d missing stays below =
      let made = make_room h limit policy now inner in
      let grown = grow h limit policy now made in
      let cleaned = length-make_room now inner in
      let same = grow-records h limit policy now made in
      let len : length grown.records ≡ length made.records = ap length same in
      let full : leb inner.max_records (length inner.records) ≡ true = le→leb _ _ (omega arith) in
      let still : leb inner.max_records (length grown.records) ≡ true = le→leb _ _ (omega arith) in
      rw (missing, record_violation, full, still)
        (
          refl,
          note_overflow_max now grown
              ∙ grow_full now made (rw cleaned.1 stays) (rw cleaned.1 below)
              ∙ ap grown_limit cleaned.1,
          ap (lookup ip) (note_overflow-records h limit policy now grown ∙ same)
              ∙ (make_room-Spares h limit policy now inner d).2 ip missing,
        )
