-- ===== src/Budget/Limits.antt =====
-- What the reported state of a budget (src/autoswe/budget.py, `BudgetState.remaining`) says of the next
-- reservation.
use mathlib.Core.Option
use autonomous_ai_software_e.Prelude.{
  ℕ, ◌+◌, ◌<◌, ◌≡◌, inl, inr, String, Bool, true, false, Option, none, some, List, arith, leb,
  if◌then◌else◌, cas_lem, Bool-cases,
}
use autonomous_ai_software_e.Model.{PrincipalUsage, Db}
use autonomous_ai_software_e.Budget.{
  BudgetPolicy, limit_for, remaining, state, usage_row, is_row, reserve_row, try_reserve,
}

abbrev pub granted : Option Db → Bool
granted none = false
granted (some db) = true

-- No limit, or at most what is left of it.
abbrev pub fits : ℕ → Option ℕ → Bool
fits amount none = true
fits amount (some left) = leb amount left

-- With a row for the principal and the period, a reservation of at least one token under the principal's
-- limit is granted exactly when it fits into the remaining tokens that the state reports.
pub try_reserve-remaining :
    (policy : BudgetPolicy) (principal : String) (period amount limit now : ℕ) (db : Db)
    {row : PrincipalUsage}
    → limit_for policy principal ≡ some limit
    → usage_row principal period db ≡ some row
    → 0 < amount
    → (let st = state policy principal period db in
        granted (try_reserve principal period amount limit now db)
        ≡ fits amount (remaining st.limit st.used st.reserved))
unfolding state try_reserve
try_reserve-remaining policy principal period amount limit now db {row} bound there pos =
    rw
      (
        cas_lem (is_row principal period)
            (λ r. leb (r.used_tokens + r.reserved_tokens + amount) limit) (reserve_row amount now)
            db.usage,
        there,
      )
      (rw (there, state)
        (left_over (limit_for policy principal) row.used_tokens row.reserved_tokens _ bound))
  where
    left_over :
        (l : Option ℕ) (used reserved : ℕ) (rows : List PrincipalUsage)
        → l ≡ some limit
        → granted (
            Option.map
              (λ rows. record db { usage = rows })
              (if leb (used + reserved + amount) limit then some rows else none))
          ≡ fits amount (remaining l used reserved)
    left_over l used reserved rows e =
        unfold remaining in
        rw e (elim (Bool-cases (leb (used + reserved + amount) limit)) [
          | inl y ↦ rw y (ground arith)
          | inr n ↦ rw n (ground arith)
        ])
