-- ===== src/History/Log.antt =====
-- What one transaction of src/autoswe/repository.py does to the event log: nothing, one event with the next
-- number, or the removal of the events of a job that goes.
pub mod Steps
pub mod Grows
use mathlib.Core.Option.{some-injective}
use autonomous_ai_software_e.Prelude.{
  ℕ, ◌+◌, ◌≡◌, refl, sym, ap, ◌∙◌, inl, inr, String, Bool, true, false, not, ◌&&◌, Option, none,
  some, List, [], ◌∷◌, ◌++◌, ◌==◌, ltb, leb, str_eq, find, cas, keep_if, Bool-cases, Option-cases,
}
use autonomous_ai_software_e.Model.{
  JobStatus, StageName, Job, JobEvent, Payload, Submission, TokenUsage, Db, publishing, status_eq,
  terminal, empty_db,
}
use autonomous_ai_software_e.Budget.{
  BudgetGuard, has_id, is_row, ensure, try_reserve, extend, record_usage, release, release_held,
  under_limit, top_up, before_call, after_call, reservation_for, reserve_row,
}
use autonomous_ai_software_e.Repository.Statements.{
  GeneratedFile, add_event, status_of, update_job, heartbeat, update_stage, skip_pending_stages,
  upsert_files, discard_files, delete, claim_publication, record_publication, set_publication,
  is_none, get_owned,
}
use autonomous_ai_software_e.Repository.Submit.{
  Reservation, reserve_for, collides, insert_job, create,
}
use autonomous_ai_software_e.Repository.Queue.{
  claimable, start, claim, cancel_queued, flag_cancel, cancel_running, skip_stages, request_cancel,
  with_values, finish, abandon, reap,
}
use autonomous_ai_software_e.Repository.Requeue.{
  back_to_queue, rewind, requeue, run_at_once, run_later, reset_for_retry, schedule_retry,
  fresh_attempt, reserve_again, retry_failed,
}

-- The log, and its next number.
abbrev pub log : Db → List JobEvent × ℕ
log db = (db.events, db.next_event)

pub data Logged (d e : Db) : Type 0 where
  quiet : log e ≡ log d → Logged d e
  writes :
      (event : JobEvent)
      → event.id ≡ d.next_event
      → log e ≡ (d.events ++ event ∷ [], d.next_event + 1)
      → Logged d e

pub add_event-Logged :
    (k kind : String) (payload : Payload) (now : ℕ) (x : Db) {d : Db}
    → log x ≡ log d
    → Logged d (add_event k kind payload now x)
unfolding add_event
add_event-Logged k kind payload now x {d} h =
    writes
      (record { id = x.next_event; job_id = k; kind = kind; payload = payload; created_at = now })
      (ap (λ (l : List JobEvent × ℕ). l.1) h)
      (ap
        (λ (l : List JobEvent × ℕ). (
          l.0
              ++ record {
                id = x.next_event;
                job_id = k;
                kind = kind;
                payload = payload;
                created_at = now;
              }
                ∷ [],
          l.1 + 1,
        ))
        h)

pub log-ensure : (p : String) (s now : ℕ) (db : Db) → log (ensure p s now db) ≡ log db
unfolding ensure
log-ensure p s now db = elim (Option-cases (find (is_row p s) db.usage)) [
  | inl e ↦ rw (e, ensure) refl
  | inr (r, e) ↦ rw (e, ensure) refl
]

pub log-try_reserve :
    (p : String) (s amount limit now : ℕ) (db : Db) {d : Db}
    → try_reserve p s amount limit now db ≡ some d
    → log d ≡ log db
unfolding try_reserve
log-try_reserve p s amount limit now db {d} h =
    elim (Option-cases (
      cas (is_row p s) (λ r. leb (r.used_tokens + r.reserved_tokens + amount) limit)
        (reserve_row amount now) db.usage)) [
          | inl e ↦ cc (rw (e, try_reserve) at h)
          | inr (rows, e) ↦
              ap log
                (sym (some-injective (record db { usage = rows }) d (rw (e, try_reserve) at h)))
        ]

pub log-release : (k : String) (now : ℕ) (db : Db) → log (release k now db) ≡ log db
unfolding release release_held
log-release k now db = elim (Option-cases (find (has_id k) db.jobs)) [
  | inl e ↦ rw (e, release) refl
  | inr (j, e) ↦ rw (e, release) (held j j.budget_period_start)
]
  where
    held : (j : Job) (o : Option ℕ) → log (release_held k now j o db) ≡ log db
    held j none = refl
    held j (some p) = elim (Bool-cases (j.tokens_reserved == 0)) [
      | inl y ↦ rw (y, release_held) refl
      | inr n ↦ rw (n, release_held) refl
    ]

pub log-requeue :
    (k : String) (from : JobStatus) (values : Job → Job) (now : ℕ) (db : Db) {d : Db}
    → requeue k from values now db ≡ some d
    → log d ≡ log db
unfolding requeue rewind
log-requeue k from values now db {d} h =
    elim (Option-cases
      (cas (has_id k) (λ j. status_eq j.status from) (back_to_queue values now) db.jobs)) [
        | inl e ↦ cc (rw (e, requeue) at h)
        | inr (jobs, e) ↦ ap log (
            sym
              (some-injective (rewind k now (record db { jobs = jobs })) d (rw (e, requeue) at h)))
      ]

pub log-reserve_for :
    (id : String) (sub : Submission) (r : Option Reservation) (now : ℕ) (db : Db) {job : Job}
    {d : Db}
    → reserve_for id sub r now db ≡ some (job, d)
    → log d ≡ log db
unfolding reserve_for
log-reserve_for id sub none now db h = ap (λ (t : Job × Db). log t.1) (sym (some-injective _ _ h))
log-reserve_for id sub (some r) now db h = elim (Option-cases r.limit) [
  | inl e ↦
      ap (λ (t : Job × Db). log t.1) (sym (some-injective _ _ (rw (e, reserve_for) at h)))
      ∙ log-ensure sub.owner r.period_start now db
  | inr (l, e) ↦
      elim (Option-cases (
        try_reserve sub.owner r.period_start r.amount l now
          (ensure sub.owner r.period_start now db))) [
            | inl n ↦ cc (rw (e, n, reserve_for) at h)
            | inr (d', g) ↦
                ap (λ (t : Job × Db). log t.1)
                  (sym (some-injective _ _ (rw (e, g, reserve_for) at h)))
                ∙ log-try_reserve sub.owner r.period_start r.amount l now _ g
                ∙ log-ensure sub.owner r.period_start now db
          ]
]

pub log-reserve_again :
    (owner : String) (r : Option Reservation) (now : ℕ) (db : Db) {d : Db}
    → reserve_again owner r now db ≡ some d
    → log d ≡ log db
unfolding reserve_again
log-reserve_again owner none now db {d} h = ap log (sym (some-injective db d h))
log-reserve_again owner (some r) now db {d} h = elim (Option-cases r.limit) [
  | inl e ↦
      ap log (sym (some-injective _ _ (rw (e, reserve_again) at h)))
      ∙ log-ensure owner r.period_start now db
  | inr (l, e) ↦
      log-try_reserve owner r.period_start r.amount l now _ (rw (e, reserve_again) at h)
      ∙ log-ensure owner r.period_start now db
]
