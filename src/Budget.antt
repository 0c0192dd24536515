-- ===== src/Budget.antt =====
-- src/autoswe/budget.py: the policy, the ledger's statements (`UsageRepository`) and the guard that a
-- running job's model calls go through (`BudgetGuard`). A method is a function of the database and
-- of the time `now`; it returns the database as its transaction leaves it. The theorems are in the
-- modules below.
pub mod Rows
pub mod Limits
pub mod Transfer
use mathlib.Core.Option
use autonomous_ai_software_e.Prelude.{
  ℕ, ◌+◌, ◌-◌, ◌*◌, String, Bool, true, false, ◌&&◌, Option, none, some, List, [], ◌∷◌, ◌++◌, ltb,
  leb, ◌==◌, if◌then◌else◌, str_eq, find, cas, update,
}
use autonomous_ai_software_e.Model.{
  Job, PrincipalUsage, TokenUsage, Db, no_usage, total_tokens, add_usage,
}

pub record BudgetPolicy : Type 0 where
  pub default_limit : Option ℕ
  pub limits : List (String × ℕ)
  pub reservation : ℕ

-- `dict.get(principal, default)`
unfoldable pub limit_in : String → List (String × ℕ) → Option ℕ → Option ℕ
limit_in principal [] default = default
limit_in principal ((p, n) ∷ rest) default =
    if str_eq p principal then some n else limit_in principal rest default

unfoldable pub limit_for : BudgetPolicy → String → Option ℕ
unfolding limit_in
limit_for policy principal = limit_in principal policy.limits policy.default_limit

abbrev pub smaller : ℕ → ℕ → ℕ
smaller a b = if ltb b a then b else a

abbrev pub larger : ℕ → ℕ → ℕ
larger a b = if ltb a b then b else a

-- At least one token, so a zero budget refuses every metered job.
unfoldable pub reservation_for : BudgetPolicy → Option ℕ → ℕ
reservation_for policy none = 0
reservation_for policy (some limit) = larger 1 (smaller policy.reservation limit)

-- `BudgetState.remaining`
unfoldable pub remaining : Option ℕ → ℕ → ℕ → Option ℕ
remaining none used reserved = none
remaining (some limit) used reserved =
    some (if leb (used + reserved) limit then limit - used - reserved else 0)

-- `BudgetState`, but for the period's name and the time at which it resets.
pub record BudgetState : Type 0 where
  pub principal : String
  pub period_start : ℕ
  pub limit : Option ℕ
  pub used : ℕ
  pub reserved : ℕ

-- The ledger's row for a principal and a period; a job's row.
abbrev pub is_row : String → ℕ → PrincipalUsage → Bool
is_row principal period r = str_eq r.principal principal && (r.period_start == period)

abbrev pub has_id : String → Job → Bool
has_id k j = str_eq j.id k

-- `column - amount`, never below zero
unfoldable pub decrement : ℕ → ℕ → ℕ
decrement column amount = if leb amount column then column - amount else 0

unfoldable pub fresh_row : String → ℕ → ℕ → PrincipalUsage
fresh_row principal period now = record {
  principal = principal;
  period_start = period;
  used_tokens = 0;
  reserved_tokens = 0;
  totals = no_usage;
  model_calls = 0;
  updated_at = now;
}

-- INSERT ... ON CONFLICT DO NOTHING
unfoldable pub ensure : String → ℕ → ℕ → Db → Db
unfolding fresh_row
ensure principal period now db = elim (find (is_row principal period) db.usage) [
  | none ↦ record db { usage = db.usage ++ fresh_row principal period now ∷ [] }
  | some _ ↦ db
]

unfoldable pub reserve_row : ℕ → ℕ → PrincipalUsage → PrincipalUsage
reserve_row amount now r = record r {
  reserved_tokens = r.reserved_tokens + amount;
  updated_at = now;
}

-- `none` when the row count is not 1. Does not commit.
unfoldable pub try_reserve : String → ℕ → ℕ → ℕ → ℕ → Db → Option Db
unfolding reserve_row
try_reserve principal period amount limit now db =
    Option.map (λ rows. record db { usage = rows })
      (cas (is_row principal period) (λ r. leb (r.used_tokens + r.reserved_tokens + amount) limit)
        (reserve_row amount now) db.usage)

-- Every UPDATE of `jobs` sets `updated_at` (the column's `onupdate`).
unfoldable pub add_reserved : ℕ → ℕ → Job → Job
add_reserved amount now j = record j {
  tokens_reserved = j.tokens_reserved + amount;
  updated_at = now;
}

-- Tops up a running job's reservation.
unfoldable pub extend : String → String → ℕ → ℕ → ℕ → ℕ → Db → Db × Bool
unfolding add_reserved
extend job_id principal period amount limit now db =
    elim (try_reserve principal period amount limit now db) [
      | none ↦ (db, false)
      | some db' ↦
          (record db' { jobs = update (has_id job_id) (add_reserved amount now) db'.jobs }, true)
    ]

unfoldable pub record_row : TokenUsage → ℕ → ℕ → PrincipalUsage → PrincipalUsage
unfolding add_usage total_tokens decrement
record_row usage consumed now r = record r {
  used_tokens = r.used_tokens + total_tokens usage;
  reserved_tokens = decrement r.reserved_tokens consumed;
  totals = add_usage r.totals usage;
  model_calls = r.model_calls + 1;
  updated_at = now;
}

unfoldable pub consume_reserved : ℕ → ℕ → Job → Job
unfolding decrement
consume_reserved consumed now j = record j {
  tokens_reserved = decrement j.tokens_reserved consumed;
  updated_at = now;
}

-- `UsageRepository.record`: one call's usage, with `consumed` of it taken from the reservation.
unfoldable pub record_usage : String → String → ℕ → TokenUsage → ℕ → ℕ → Db → Db
unfolding record_row consume_reserved
record_usage job_id principal period usage consumed now db = record db {
  usage = update (is_row principal period) (record_row usage consumed now) db.usage;
  jobs =
      if consumed == 0
      then db.jobs
      else update (has_id job_id) (consume_reserved consumed now) db.jobs;
}

unfoldable pub release_row : ℕ → ℕ → PrincipalUsage → PrincipalUsage
unfolding decrement
release_row amount now r = record r {
  reserved_tokens = decrement r.reserved_tokens amount;
  updated_at = now;
}

unfoldable pub clear_reserved : ℕ → Job → Job
clear_reserved now j = record j { tokens_reserved = 0; updated_at = now }

unfoldable pub release_held : String → ℕ → Job → Option ℕ → Db → Db
unfolding release_row clear_reserved
release_held job_id now held none db = db
release_held job_id now held (some period) db =
    if held.tokens_reserved == 0 then db else record db {
      usage = update (is_row held.owner period) (release_row held.tokens_reserved now) db.usage;
      jobs = update (has_id job_id) (clear_reserved now) db.jobs;
    }

-- Gives back what a job still holds, in the caller's transaction.
unfoldable pub release : String → ℕ → Db → Db
unfolding release_held
release job_id now db = elim (find (has_id job_id) db.jobs) [
  | none ↦ db
  | some held ↦ release_held job_id now held held.budget_period_start db
]

-- `UsageRepository.get`
abbrev pub usage_row : String → ℕ → Db → Option PrincipalUsage
usage_row principal period db = find (is_row principal period) db.usage

-- `UsageRepository.state`, for the period that starts at `start`
unfoldable pub state : BudgetPolicy → String → ℕ → Db → BudgetState
unfolding limit_for
state policy principal start db = elim (usage_row principal start db) [
  | none ↦ record {
    principal = principal;
    period_start = start;
    limit = limit_for policy principal;
    used = 0;
    reserved = 0;
  }
  | some row ↦ record {
    principal = principal;
    period_start = start;
    limit = limit_for policy principal;
    used = row.used_tokens;
    reserved = row.reserved_tokens;
  }
]

-- One running job's view of its principal's budget.
pub record BudgetGuard : Type 0 where
  pub policy : BudgetPolicy
  pub job_id : String
  pub principal : String
  pub period_start : ℕ
  pub limit : Option ℕ
  pub reserved : ℕ

unfoldable pub new_guard : BudgetPolicy → String → String → ℕ → ℕ → BudgetGuard
new_guard policy job_id principal period reserved = record {
  policy = policy;
  job_id = job_id;
  principal = principal;
  period_start = period;
  limit = limit_for policy principal;
  reserved = reserved;
}

-- `before_call` returns, or raises `TokenBudgetExceededError` with the tokens used so far.
pub data Admission : Type 0 where
  admitted : Admission
  exceeded : ℕ → Admission

unfoldable pub used_by : Option PrincipalUsage → ℕ
used_by none = 0
used_by (some r) = r.used_tokens

unfoldable pub top_up : BudgetGuard → ℕ → ℕ → Db × Bool → BudgetGuard × Db × Admission
unfolding used_by
top_up g limit amount (db, true) = (record g { reserved = g.reserved + amount }, db, admitted)
top_up g limit amount (db, false) =
    (g, db, exceeded (used_by (find (is_row g.principal g.period_start) db.usage)))

unfoldable pub under_limit : BudgetGuard → Option ℕ → ℕ → Db → BudgetGuard × Db × Admission
unfolding top_up
under_limit g none now db = (g, db, admitted)
under_limit g (some limit) now db =
    let amount = reservation_for g.policy g.limit in
    if ltb 0 g.reserved
    then (g, db, admitted)
    else top_up g limit amount (extend g.job_id g.principal g.period_start amount limit now db)

unfoldable pub before_call : BudgetGuard → ℕ → Db → BudgetGuard × Db × Admission
unfolding under_limit
before_call g now db = under_limit g g.limit now db

unfoldable pub after_call : BudgetGuard → TokenUsage → ℕ → Db → BudgetGuard × Db
after_call g usage now db =
    let consumed = smaller (total_tokens usage) g.reserved in
    (
      record g { reserved = g.reserved - consumed },
      record_usage g.job_id g.principal g.period_start usage consumed now db,
    )
