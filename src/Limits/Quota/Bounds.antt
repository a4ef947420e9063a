-- ===== src/Limits/Quota/Bounds.antt =====
-- Every operation on the usage table keeps the counts of every user within the limits.
use zglab_rag.Prelude.{
  ℕ, ◌≤◌, ◌≡◌, refl, ap, Bool, true, false, ◌&&◌, Option, none, some, List, [], ◌∷◌, ◌++◌, ltb,
  nat_beq, any, arith, Bool-cases, inl, inr,
}
use zglab_rag.Prelude.Rows.{find, update, delete, find-update, map_option, change}
use zglab_rag.Limits.Quota.Defs.{
  UsageRow, QuotaConfig, is_of_day, is_of_minute, requests_or_zero, minute_count, day_count,
  increased, decreased, record_usage, refund, prune_old, check_and_record, day_of, minute_of,
}

-- The counts of every user, day and minute are within the limits.
pub record Within (cfg : QuotaConfig) (rows : List UsageRow) : Type 0 where
  pub minutes : (u d m : ℕ) → minute_count u d m rows ≤ cfg.requests_per_minute
  pub days : (u d : ℕ) → day_count u d rows ≤ cfg.requests_per_day

module _ (u d u' d' m' : ℕ) (other : (nat_beq u' u && nat_beq d' d) ≡ false) where
  day_count-update_other :
      (f : UsageRow → UsageRow) (rows : List UsageRow)
      → ((r : UsageRow) → is_of_day u d (f r) ≡ is_of_day u d r)
      → day_count u d (update (is_of_minute u' d' m') f rows) ≡ day_count u d rows
  unfolding day_count update
  day_count-update_other f [] k = refl
  day_count-update_other f (r ∷ rows) k =
      ground (arith, other, k r, day_count-update_other f rows k)

  day_count-append_other :
      (n : ℕ) (rows : List UsageRow)
      → day_count u d (rows ++ record { user_id = u'; day = d'; minute = m'; requests = n } ∷ [])
        ≡ day_count u d rows
  unfolding day_count
  day_count-append_other n [] = ground (arith, other)
  day_count-append_other n (r ∷ rows) = ground (arith, other, day_count-append_other n rows)

module _ (u d m u' d' m' : ℕ)
    (other : ((nat_beq u' u && nat_beq d' d) && nat_beq m' m) ≡ false) where
  find-update_other :
      (f : UsageRow → UsageRow) (rows : List UsageRow)
      → ((r : UsageRow) → is_of_minute u d m (f r) ≡ is_of_minute u d m r)
      → find (is_of_minute u d m) (update (is_of_minute u' d' m') f rows)
        ≡ find (is_of_minute u d m) rows
  unfolding find update
  find-update_other f [] k = refl
  find-update_other f (r ∷ rows) k = ground (arith, other, k r, find-update_other f rows k)

  find-append_other :
      (n : ℕ) (rows : List UsageRow)
      → find
          (is_of_minute u d m)
          (rows ++ record { user_id = u'; day = d'; minute = m'; requests = n } ∷ [])
        ≡ find (is_of_minute u d m) rows
  unfolding find
  find-append_other n [] = ground (arith, other)
  find-append_other n (r ∷ rows) = ground (arith, other, find-append_other n rows)

same_minute :
    (u d m u' d' m' : ℕ)
    → ((nat_beq u' u && nat_beq d' d) && nat_beq m' m) ≡ true
    → (u' ≡ u) × ((d' ≡ d) × (m' ≡ m))
same_minute u d m u' d' m' h = ground arith

same_day : (u d u' d' : ℕ) → (nat_beq u' u && nat_beq d' d) ≡ true → (u' ≡ u) × (d' ≡ d)
same_day u d u' d' h = ground arith

minute_count-record_other :
    (u d m u' moment : ℕ) (rows : List UsageRow)
    → ((nat_beq u' u && nat_beq (day_of moment) d) && nat_beq (minute_of moment) m) ≡ false
    → minute_count u d m (record_usage u' moment rows) ≡ minute_count u d m rows
unfolding minute_count record_usage
minute_count-record_other u d m u' moment rows other =
    elim (Bool-cases (any (is_of_minute u' (day_of moment) (minute_of moment)) rows)) [
      | inl e ↦ rw e (
          ap requests_or_zero (
            find-update_other u d m u' (day_of moment) (minute_of moment) other increased rows
              (λ r. refl)))
      | inr e ↦ rw e (
          ap requests_or_zero
            (find-append_other u d m u' (day_of moment) (minute_of moment) other 1 rows))
    ]

day_count-record_other :
    (u d u' moment : ℕ) (rows : List UsageRow)
    → (nat_beq u' u && nat_beq (day_of moment) d) ≡ false
    → day_count u d (record_usage u' moment rows) ≡ day_count u d rows
unfolding record_usage
day_count-record_other u d u' moment rows other =
    elim (Bool-cases (any (is_of_minute u' (day_of moment) (minute_of moment)) rows)) [
      | inl e ↦ rw e (
          day_count-update_other u d u' (day_of moment) (minute_of moment) other increased rows
            (λ r. refl))
      | inr e ↦ rw e (day_count-append_other u d u' (day_of moment) (minute_of moment) other 1 rows)
    ]

module _ (cfg : QuotaConfig) (u' moment : ℕ) (rows : List UsageRow) where
  record-Within :
      Within cfg rows
      → minute_count u' (day_of moment) (minute_of moment) (record_usage u' moment rows)
        ≤ cfg.requests_per_minute
      → day_count u' (day_of moment) (record_usage u' moment rows) ≤ cfg.requests_per_day
      → Within cfg (record_usage u' moment rows)
  record-Within old by_minute by_day = record {
    minutes = λ u d m.
        elim (Bool-cases
          ((nat_beq u' u && nat_beq (day_of moment) d) && nat_beq (minute_of moment) m)) [
            | inl e ↦
                let (a, (b, c)) = same_minute u d m u' (day_of moment) (minute_of moment) e in
                rw (← a, ← b, ← c) by_minute
            | inr e ↦ rw (minute_count-record_other u d m u' moment rows e) (old.minutes u d m)
          ];
    days = λ u d. elim (Bool-cases (nat_beq u' u && nat_beq (day_of moment) d)) [
      | inl e ↦ let (a, b) = same_day u d u' (day_of moment) e in rw (← a, ← b) by_day
      | inr e ↦ rw (day_count-record_other u d u' moment rows e) (old.days u d)
    ];
  }

  pub check_and_record-Within : Within cfg rows → Within cfg (check_and_record cfg u' moment rows).1
  unfolding check_and_record
  check_and_record-Within old =
      elim (Bool-cases (
        ltb cfg.requests_per_minute
          (minute_count u' (day_of moment) (minute_of moment) (record_usage u' moment rows)))) [
            | inl e ↦ rw e old
            | inr e ↦
                elim (Bool-cases (
                  ltb cfg.requests_per_day
                    (day_count u' (day_of moment) (record_usage u' moment rows)))) [
                      | inl k ↦ rw (e, k) old
                      | inr k ↦
                          rw (e, k) (record-Within old (ground (arith, e)) (ground (arith, k)))
                    ]
          ]

day_count-update_le :
    (u d : ℕ) (q : UsageRow → Bool) (rows : List UsageRow)
    → day_count u d (update q decreased rows) ≤ day_count u d rows
unfolding day_count update
day_count-update_le u d q [] = omega arith
day_count-update_le u d q (r ∷ rows) = ground (arith, day_count-update_le u d q rows)

decreased_le :
    (q : UsageRow → Bool) (o : Option UsageRow)
    → requests_or_zero (map_option (change q decreased) o) ≤ requests_or_zero o
decreased_le q none = omega arith
decreased_le q (some r) = ground arith

day_count-delete_le :
    (u d : ℕ) (q : UsageRow → Bool) (rows : List UsageRow)
    → day_count u d (delete q rows) ≤ day_count u d rows
unfolding day_count delete
day_count-delete_le u d q [] = omega arith
day_count-delete_le u d q (r ∷ rows) = ground (arith, day_count-delete_le u d q rows)

-- A day's rows are all deleted, or all kept.
find-delete_gone :
    (u d m before : ℕ) (rows : List UsageRow)
    → ltb d before ≡ true
    → find (is_of_minute u d m) (delete (λ r. ltb r.day before) rows) ≡ none
unfolding find delete
find-delete_gone u d m before [] h = refl
find-delete_gone u d m before (r ∷ rows) h = elim (Bool-cases (ltb r.day before)) [
  | inl e ↦ rw e (find-delete_gone u d m before rows h)
  | inr e ↦ rw e (ground (arith, e, h, find-delete_gone u d m before rows h))
]

find-delete_kept :
    (u d m before : ℕ) (rows : List UsageRow)
    → ltb d before ≡ false
    → find (is_of_minute u d m) (delete (λ r. ltb r.day before) rows)
      ≡ find (is_of_minute u d m) rows
unfolding find delete
find-delete_kept u d m before [] h = refl
find-delete_kept u d m before (r ∷ rows) h = elim (Bool-cases (ltb r.day before)) [
  | inl e ↦ rw e (ground (arith, e, h, find-delete_kept u d m before rows h))
  | inr e ↦ rw e (ground (arith, e, h, find-delete_kept u d m before rows h))
]

module _ (cfg : QuotaConfig) (rows : List UsageRow) (old : Within cfg rows) where
  pub refund-Within : (u' moment : ℕ) → Within cfg (refund u' moment rows)
  unfolding refund minute_count
  refund-Within u' moment = record {
    minutes = λ u d m.
        let q = is_of_minute u' (day_of moment) (minute_of moment) in
        let kept =
          ap requests_or_zero (find-update (is_of_minute u d m) q decreased rows (λ r. refl)) in
        omega (arith, kept, decreased_le q (find (is_of_minute u d m) rows), old.minutes u d m);
    days = λ u d. omega (
      arith,
      day_count-update_le u d (is_of_minute u' (day_of moment) (minute_of moment)) rows,
      old.days u d,
    );
  }

  pub prune_old-Within : (before : ℕ) → Within cfg (prune_old before rows)
  unfolding prune_old minute_count
  prune_old-Within before = record {
    minutes = λ u d m. elim (Bool-cases (ltb d before)) [
      | inl e ↦ rw (find-delete_gone u d m before rows e) (omega arith)
      | inr e ↦ rw (find-delete_kept u d m before rows e) (old.minutes u d m)
    ];
    days = λ u d. omega (arith, day_count-delete_le u d (λ r. ltb r.day before) rows, old.days u d);
  }
