-- ===== src/Metering/Calls.antt =====
-- What a metered call of src/autoswe/metering.py keeps: the guard's count agrees with the job's row, and no
-- call goes out that the budget does not cover.
use mathlib.Core.Option.{some-injective}
use mathlib.Core.Path.{subst}
use autonomous_ai_software_e.Prelude.{
  ℕ, ◌+◌, ◌-◌, ◌<◌, ◌≡◌, refl, ap, ◌∙◌, inl, inr, Bool, true, false, Option, none, some, arith, ltb,
  ◌==◌, update, Bool-cases, Option-cases, find-update_self, find-passes,
}
use autonomous_ai_software_e.Model.{Job, Db, TokenUsage, total_tokens}
use autonomous_ai_software_e.Budget.{
  BudgetGuard, Admission, admitted, exceeded, has_id, decrement, smaller, add_reserved,
  consume_reserved, extend, try_reserve, record_usage, top_up, under_limit, before_call, after_call,
  reservation_for,
}
use autonomous_ai_software_e.Budget.Transfer.{try_reserve-Granted, jobs-Granted}
use autonomous_ai_software_e.Repository.Reservations.Calls.{Synced}
use autonomous_ai_software_e.Metering.{
  MeteredProvider, Reply, responds, breaks, over_budget, price, report_usage, settle_call, ask_if,
  call,
}

reservation-pos :
    (g : BudgetGuard) (l : ℕ) → g.limit ≡ some l → 0 < reservation_for g.policy g.limit
unfolding reservation_for
reservation-pos g l e = rw e (ground arith)

topped-covered :
    (g : BudgetGuard) (l amount : ℕ) (r : Db × Bool)
    → 0 < amount
    → (top_up g l amount r).2 ≡ admitted
    → 0 < (top_up g l amount r).0.reserved
unfolding top_up
topped-covered g l amount (d, true) pos q = omega (arith, pos)
topped-covered g l amount (d, false) pos q = cc

under_limit-covered :
    (g : BudgetGuard) (limit : Option ℕ) (now : ℕ) (db : Db) {l : ℕ}
    → limit ≡ some l
    → 0 < reservation_for g.policy g.limit
    → (under_limit g limit now db).2 ≡ admitted
    → 0 < (under_limit g limit now db).0.reserved
unfolding under_limit
under_limit-covered g none now db e pos h = cc
under_limit-covered g (some l) now db e pos h = elim (Bool-cases (ltb 0 g.reserved)) [
  | inl y ↦ rw (y, under_limit) (ground arith)
  | inr n ↦
      rw (n, under_limit)
        (topped-covered g l _
          (extend g.job_id g.principal g.period_start (reservation_for g.policy g.limit) l now db)
          pos (rw (n, under_limit) at h))
]

-- A call that the guard lets pass is one of a principal without a limit, or the guard holds at least one
-- reserved token for it.
pub before_call-covered :
    (g : BudgetGuard) (now l : ℕ) (db : Db)
    → g.limit ≡ some l
    → (before_call g now db).2 ≡ admitted
    → 0 < (before_call g now db).0.reserved
unfolding before_call
before_call-covered g now l db e h =
    under_limit-covered g g.limit now db e (reservation-pos g l e) h

-- The job's row after an update that keeps the principal and the period.
Synced-update :
    (g : BudgetGuard) (n : ℕ) (f : Job → Job) (db db' : Db) (sync : Synced g db)
    → db'.jobs ≡ update (has_id g.job_id) f db.jobs
    → ((j : Job)
        → ((f j).id ≡ j.id)
          × ((f j).owner ≡ j.owner)
          × ((f j).budget_period_start ≡ j.budget_period_start))
    → (f sync.job).tokens_reserved ≡ n
    → Synced (record g { reserved = n }) db'
Synced-update g n f db db' sync jobs keeps amount =
    let (ids, owner, period) = keeps sync.job in
    record {
      job = f sync.job;
      found = rw jobs (
          find-update_self (has_id g.job_id) f db.jobs sync.found
            (rw ids (find-passes (has_id g.job_id) db.jobs sync.found)));
      owner = owner ∙ sync.owner;
      period = period ∙ sync.period;
      reserved = amount;
    }

-- What a top-up leaves, by whether it was granted.
abbrev Extended : BudgetGuard → ℕ → Db × Bool → Type 0
Extended g amount (d, true) = Synced (record g { reserved = g.reserved + amount }) d
Extended g amount (d, false) = Synced g d

extend-Extended :
    (g : BudgetGuard) (l amount now : ℕ) (db : Db)
    → Synced g db
    → Extended g amount (extend g.job_id g.principal g.period_start amount l now db)
unfolding extend
extend-Extended g l amount now db sync =
    elim (Option-cases (try_reserve g.principal g.period_start amount l now db)) [
      | inl e ↦ rw (e, extend) sync
      | inr (d, e) ↦
          let same =
            jobs-Granted g.principal g.period_start amount l now
              (try_reserve-Granted g.principal g.period_start amount l now db e) in
          rw (e, extend)
            (Synced-update g (g.reserved + amount) (add_reserved amount now) db _ sync
              (ap (update (has_id g.job_id) (add_reserved amount now)) same)
              (λ j. unfold add_reserved in (refl, refl, refl))
              (unfold add_reserved in ap (λ (n : ℕ). n + amount) sync.reserved))
    ]

top_up-Synced :
    (g : BudgetGuard) (l amount : ℕ) (r : Db × Bool)
    → Extended g amount r
    → Synced (top_up g l amount r).0 (top_up g l amount r).1
unfolding top_up
top_up-Synced g l amount (d, true) s = s
top_up-Synced g l amount (d, false) s = s

under_limit-Synced :
    (g : BudgetGuard) (limit : Option ℕ) (now : ℕ) (db : Db)
    → Synced g db
    → (let r = under_limit g limit now db in Synced r.0 r.1)
unfolding under_limit
under_limit-Synced g none now db sync = sync
under_limit-Synced g (some l) now db sync = elim (Bool-cases (ltb 0 g.reserved)) [
  | inl y ↦ rw (y, under_limit) sync
  | inr n ↦ rw (n, under_limit) (top_up-Synced g l _ _ (extend-Extended g l _ now db sync))
]

before_call-Synced :
    (g : BudgetGuard) (now : ℕ) (db : Db)
    → Synced g db
    → (let r = before_call g now db in Synced r.0 r.1)
unfolding before_call
before_call-Synced g now db sync = under_limit-Synced g g.limit now db sync

after_call-Synced :
    (g : BudgetGuard) (usage : TokenUsage) (now : ℕ) (db : Db)
    → Synced g db
    → (let r = after_call g usage now db in Synced r.0 r.1)
unfolding after_call record_usage
after_call-Synced g usage now db sync =
    let n = smaller (total_tokens usage) g.reserved in
    elim (Bool-cases (n == 0)) [
      | inl z ↦
          rw (z, after_call, record_usage)
            (record {
              job = sync.job;
              found = sync.found;
              owner = sync.owner;
              period = sync.period;
              reserved = sync.reserved ∙ (ground arith);
            })
      | inr p ↦
          rw (p, after_call, record_usage)
            (Synced-update g (g.reserved - n) (consume_reserved n now) db _ sync refl
              (λ j. unfold consume_reserved in (refl, refl, refl))
              (unfold consume_reserved in unfold decrement in rw sync.reserved (ground arith)))
    ]

-- The provider's guard agrees with the job's row, where it has one.
abbrev pub InStep : MeteredProvider → Db → Type 0
InStep p db = (g : BudgetGuard) → p.guard ≡ some g → Synced g db

-- The provider's call, and what other processes write during it, leave the job's reservation alone.
abbrev pub Leaves : (Db → Db × Reply) → Type 0
Leaves ask = (g : BudgetGuard) (db : Db) → Synced g db → Synced g (ask db).0

settle_call-InStep :
    (now : ℕ) (p : MeteredProvider) (q : Db × Reply)
    → InStep p q.0
    → (let r = settle_call now p q in InStep r.0 r.1)
unfolding settle_call report_usage
settle_call-InStep now p (db, breaks e) s = s
settle_call-InStep now p (db, over_budget n) s = s
settle_call-InStep now p (db, responds r) s = elim (Bool-cases p.metered) [
  | inr n ↦ rw (n, settle_call) s
  | inl y ↦ elim (Option-cases p.guard) [
    | inl e ↦ rw (y, settle_call) (rw e (λ g q. cc))
    | inr (g, e) ↦
        rw (y, settle_call)
          (rw e (λ g' q.
            subst (λ (x : BudgetGuard). Synced x (after_call g (price p.pricing r) now db).1)
              (some-injective _ _ q) (after_call-Synced g (price p.pricing r) now db (s g e))))
  ]
]

-- A metered call, whether it is answered, fails or is refused by the budget, leaves the guard with the
-- count of reserved tokens that the job's row holds, in the same period and for the same principal.
pub call-InStep :
    (ask : Db → Db × Reply) (now : ℕ) (p : MeteredProvider) (db : Db)
    → Leaves ask
    → InStep p db
    → (let r = call ask now p db in InStep r.0 r.1)
unfolding call
call-InStep ask now p db leaves s = elim (Option-cases p.guard) [
  | inl e ↦ rw (e, call) (settle_call-InStep now p (ask db) (λ g q. cc))
  | inr (g, e) ↦ rw (e, call) (asked (before_call g now db) (before_call-Synced g now db (s g e)))
]
  where
    one : (g : BudgetGuard) (d : Db) → Synced g d → InStep (record p { guard = some g }) d
    one g d sync g' q = subst (λ (x : BudgetGuard). Synced x d) (some-injective g g' q) sync

    asked :
        (q : BudgetGuard × Db × Admission)
        → Synced q.0 q.1
        → (let r = ask_if ask now p q in InStep r.0 r.1)
    asked (g, d, admitted) sync =
        unfold ask_if in
        settle_call-InStep now (record p { guard = some g }) (ask d)
          (one g (ask d).0 (leaves g d sync))
    asked (g, d, exceeded n) sync = unfold ask_if in one g d sync
