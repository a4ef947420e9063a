-- ===== src/Limits/Quota/Defs.antt =====
-- `UsageGuard` of src/zglab_rag/auth/quota.py and `UsageRepository` of
-- src/zglab_rag/auth/repositories.py. A moment is a number of microseconds; a day and a minute are the
-- numbers of the buckets that the code names by their dates. A limit is a natural number.
use zglab_rag.Prelude.{
  ℕ, ◌+◌, ◌-◌, ◌*◌, ◌/◌, max, Bool, ◌&&◌, Option, none, some, List, [], ◌∷◌, ◌++◌, ltb, nat_beq,
  if◌then◌else◌, any,
}
use zglab_rag.Prelude.Rows.{find, update, delete}

pub record UsageRow : Type 0 where
  pub user_id : ℕ
  pub day : ℕ
  pub minute : ℕ
  pub requests : ℕ

pub record QuotaConfig : Type 0 where
  pub requests_per_minute : ℕ
  pub requests_per_day : ℕ

abbrev pub minute_length : ℕ
minute_length = 60000000

abbrev pub day_length : ℕ
day_length = 86400000000

abbrev pub day_of : ℕ → ℕ
day_of moment = moment / day_length

abbrev pub minute_of : ℕ → ℕ
minute_of moment = moment / minute_length

-- `WHERE user_id=? AND day=?`
abbrev pub is_of_day : ℕ → ℕ → UsageRow → Bool
is_of_day u d r = nat_beq r.user_id u && nat_beq r.day d

-- `WHERE user_id=? AND day=? AND minute=?`
abbrev pub is_of_minute : ℕ → ℕ → ℕ → UsageRow → Bool
is_of_minute u d m r = is_of_day u d r && nat_beq r.minute m

abbrev pub requests_or_zero : Option UsageRow → ℕ
requests_or_zero none = 0
requests_or_zero (some r) = r.requests

-- The two numbers of `counts`.
unfoldable pub minute_count : ℕ → ℕ → ℕ → List UsageRow → ℕ
minute_count u d m rows = requests_or_zero (find (is_of_minute u d m) rows)

unfoldable pub day_count : ℕ → ℕ → List UsageRow → ℕ
day_count u d [] = 0
day_count u d (r ∷ rows) = (if is_of_day u d r then r.requests else 0) + day_count u d rows

abbrev pub increased : UsageRow → UsageRow
increased r = record r { requests = r.requests + 1 }

abbrev pub decreased : UsageRow → UsageRow
decreased r = record r { requests = r.requests - 1 }

-- `record`: the insertion, or on a conflict the update.
unfoldable pub record_usage : ℕ → ℕ → List UsageRow → List UsageRow
record_usage u moment rows =
    if any (is_of_minute u (day_of moment) (minute_of moment)) rows
    then update (is_of_minute u (day_of moment) (minute_of moment)) increased rows
    else rows
      ++ record { user_id = u; day = day_of moment; minute = minute_of moment; requests = 1 } ∷ []

-- `MAX(requests - 1, 0)`
unfoldable pub refund : ℕ → ℕ → List UsageRow → List UsageRow
refund u moment rows = update (is_of_minute u (day_of moment) (minute_of moment)) decreased rows

-- `prune_old`, before a day
unfoldable pub prune_old : ℕ → List UsageRow → List UsageRow
prune_old before rows = delete (λ r. ltb r.day before) rows

pub data QuotaOutcome : Type 0 where
  counted : QuotaOutcome
  quota_exceeded : ℕ → QuotaOutcome

-- The time to the next bucket of a length, at least 0.1 seconds.
abbrev pub until_next : ℕ → ℕ → ℕ
until_next length moment = max 100000 ((moment / length + 1) * length - moment)

-- `UsageGuard.check_and_record`: a rejection rolls the transaction back.
unfoldable pub check_and_record : QuotaConfig → ℕ → ℕ → List UsageRow → QuotaOutcome × List UsageRow
check_and_record cfg u moment rows =
    let after = record_usage u moment rows in
    if ltb cfg.requests_per_minute (minute_count u (day_of moment) (minute_of moment) after)
    then (quota_exceeded (until_next minute_length moment), rows)
    else if ltb cfg.requests_per_day (day_count u (day_of moment) after)
    then (quota_exceeded (until_next day_length moment), rows)
    else (counted, after)
