-- ===== src/Repository/Reservations/Calls.antt =====
-- A running job's model calls (src/autoswe/budget.py, `BudgetGuard`) keep the reservations sound, and the
-- guard's count of what the job holds stays that of the job's row.
use mathlib.Core.Option.{some-injective}
use autonomous_ai_software_e.Prelude.{
  ℕ, ◌≤◌, ◌≡◌, sym, ap, ◌∙◌, inl, inr, String, Bool, true, false, Option, none, some, arith, ◌==◌,
  ltb, find, Bool-cases, Option-cases, All-update,
}
use autonomous_ai_software_e.Model.{Job, Db, TokenUsage, terminal}
use autonomous_ai_software_e.Budget.{
  BudgetGuard, has_id, decrement, add_reserved, extend, try_reserve, consume_reserved, record_usage,
  before_call, after_call, under_limit, top_up, reservation_for,
}
use autonomous_ai_software_e.Budget.Transfer.{
  Leak, extend-Conserved, record_usage-Conserved, try_reserve-Granted, jobs-Granted,
}
use autonomous_ai_software_e.Repository.Reservations.{Holds, Sound}

-- The guard belongs to the job: the same principal and period, and the same reservation.
pub record Synced (g : BudgetGuard) (db : Db) : Type 0 where
  pub job : Job
  pub found : find (has_id g.job_id) db.jobs ≡ some job
  pub owner : job.owner ≡ g.principal
  pub period : job.budget_period_start ≡ some g.period_start
  pub reserved : job.tokens_reserved ≡ g.reserved

-- A top-up of a job that has not ended.
extend-Sound :
    {L : Leak} (k p : String) (s amount limit now : ℕ) (db : Db) {j : Job}
    → find (has_id k) db.jobs ≡ some j
    → (j.owner ≡ p) × (j.budget_period_start ≡ some s)
    → terminal j.status ≡ false
    → Sound L db
    → Sound L (extend k p s amount limit now db).0
unfolding extend
extend-Sound k p s amount limit now db {j} found mine alive v = record {
  conserved = extend-Conserved _ k p s amount limit now db found mine v.conserved;
  holds = elim (Option-cases (try_reserve p s amount limit now db)) [
    | inl e ↦ rw (e, extend) v.holds
    | inr (db', e) ↦
        rw (e, extend)
          (rw (jobs-Granted p s amount limit now (try_reserve-Granted p s amount limit now db e)) (
            All-update Holds (has_id k) (add_reserved amount now) db.jobs v.holds
              (λ i q h. more i q)))
  ];
}
  where
    more : (i : Job) → find (has_id k) db.jobs ≡ some i → Holds (add_reserved amount now i)
    more i q =
        let same : i ≡ j = some-injective i j (sym q ∙ found) in
        record {
          settled = λ t. cc (t, alive, ap (λ (x : Job). terminal x.status) same);
          backed = λ n. cc (n, mine.1, ap (λ (x : Job). x.budget_period_start) same);
        }

record_usage-Sound :
    {L : Leak} (k p : String) (s : ℕ) (usage : TokenUsage) (consumed now : ℕ) (db : Db) {j : Job}
    → find (has_id k) db.jobs ≡ some j
    → (j.owner ≡ p) × (j.budget_period_start ≡ some s)
    → consumed ≤ j.tokens_reserved
    → Sound L db
    → Sound L (record_usage k p s usage consumed now db)
unfolding record_usage
record_usage-Sound k p s usage consumed now db {j} found mine enough v = record {
  conserved = record_usage-Conserved _ k p s usage consumed now db found mine enough v.conserved;
  holds = elim (Bool-cases (consumed == 0)) [
    | inl z ↦ rw (z, record_usage) v.holds
    | inr n ↦
        rw (n, record_usage)
          (All-update Holds (has_id k) (consume_reserved consumed now) db.jobs v.holds
            (λ i q h. less i h))
  ];
}
  where
    still_zero : (n : ℕ) → n ≡ 0 → decrement n consumed ≡ 0
    still_zero n z = unfold decrement in ground arith

    less : (i : Job) → Holds i → Holds (consume_reserved consumed now i)
    less i h = record {
      settled = λ t. still_zero i.tokens_reserved (h.settled t);
      backed = λ n. still_zero i.tokens_reserved (h.backed n);
    }

under_limit-Sound :
    {L : Leak} (g : BudgetGuard) (limit : Option ℕ) (now : ℕ) (db : Db) (sync : Synced g db)
    → terminal sync.job.status ≡ false
    → Sound L db
    → Sound L (under_limit g limit now db).1
unfolding under_limit top_up
under_limit-Sound {L} g none now db sync alive v = v
under_limit-Sound {L} g (some l) now db sync alive v = elim (Bool-cases (ltb 0 g.reserved)) [
  | inl y ↦ rw (y, under_limit) v
  | inr n ↦
      rw (n, under_limit)
        (topped (extend g.job_id g.principal g.period_start _ l now db) (
          extend-Sound g.job_id g.principal g.period_start (reservation_for g.policy g.limit) l now
            db sync.found (sync.owner, sync.period) alive v))
]
  where
    topped :
        (r : Db × Bool) → Sound L r.0 → Sound L (top_up g l (reservation_for g.policy g.limit) r).1
    topped (d, true) w = w
    topped (d, false) w = w

-- Before a call, of a job that has not ended.
pub before_call-Sound :
    {L : Leak} (g : BudgetGuard) (now : ℕ) (db : Db) (sync : Synced g db)
    → terminal sync.job.status ≡ false
    → Sound L db
    → Sound L (before_call g now db).1
unfolding before_call
before_call-Sound g now db sync alive v = under_limit-Sound g g.limit now db sync alive v

-- After a call, whatever has become of the job.
pub after_call-Sound :
    {L : Leak} (g : BudgetGuard) (usage : TokenUsage) (now : ℕ) (db : Db)
    → Synced g db
    → Sound L db
    → Sound L (after_call g usage now db).1
unfolding after_call
after_call-Sound g usage now db sync v =
    record_usage-Sound g.job_id g.principal g.period_start usage _ now db sync.found
      (sync.owner, sync.period) (rw sync.reserved (ground arith)) v
