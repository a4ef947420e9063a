-- ===== src/Limits/Quota/Runs.antt =====
-- Runs of the usage guard: any of its operations, one after the other.
use zglab_rag.Prelude.{ℕ, ◌≤◌, List, [], ◌∷◌, arith}
use zglab_rag.Prelude.Rows.{find}
use zglab_rag.Limits.Quota.Defs.{
  UsageRow, QuotaConfig, minute_count, day_count, refund, prune_old, check_and_record,
}
use zglab_rag.Limits.Quota.Bounds.{Within, check_and_record-Within, refund-Within, prune_old-Within}

-- What is done to the table: a request of a user at a moment, a refund to one, and the removal of the
-- days before one.
pub data UsageOperation : Type 0 where
  request refunded : ℕ → ℕ → UsageOperation
  pruned : ℕ → UsageOperation

unfoldable pub perform : QuotaConfig → UsageOperation → List UsageRow → List UsageRow
perform cfg (request u moment) rows = (check_and_record cfg u moment rows).1
perform cfg (refunded u moment) rows = refund u moment rows
perform cfg (pruned before) rows = prune_old before rows

unfoldable pub run : QuotaConfig → List UsageOperation → List UsageRow → List UsageRow
run cfg [] rows = rows
run cfg (o ∷ os) rows = run cfg os (perform cfg o rows)

perform-Within :
    (cfg : QuotaConfig) (o : UsageOperation) (rows : List UsageRow)
    → Within cfg rows
    → Within cfg (perform cfg o rows)
unfolding perform
perform-Within cfg (request u moment) rows h = check_and_record-Within cfg u moment rows h
perform-Within cfg (refunded u moment) rows h = refund-Within cfg rows h u moment
perform-Within cfg (pruned before) rows h = prune_old-Within cfg rows h before

run-Within :
    (cfg : QuotaConfig) (os : List UsageOperation) (rows : List UsageRow)
    → Within cfg rows
    → Within cfg (run cfg os rows)
unfolding run
run-Within cfg [] rows h = h
run-Within cfg (o ∷ os) rows h =
    run-Within cfg os (perform cfg o rows) (perform-Within cfg o rows h)

-- In any run of requests, refunds and removals from an empty table, at whatever moments: the count
-- of any user in any minute is at most `requests_per_minute`, and in any day at most
-- `requests_per_day`.
pub counts-le-limits :
    (cfg : QuotaConfig) (os : List UsageOperation) (u d m : ℕ)
    → (minute_count u d m (run cfg os []) ≤ cfg.requests_per_minute)
      × (day_count u d (run cfg os []) ≤ cfg.requests_per_day)
counts-le-limits cfg os u d m =
    let w = run-Within cfg os [] (record {
      minutes = λ u d m. unfold minute_count find in omega arith;
      days = λ u d. unfold day_count in omega arith;
    }) in
    (w.minutes u d m, w.days u d)
