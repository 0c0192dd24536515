-- ===== src/Sandbox/Verdicts.antt =====
-- The status of a run: `_classify` and `_result` of src/autoswe/sandbox/backends.py, and `_verdict` and `_check`
-- of src/autoswe/sandbox/inside/entry.py. Messages, counts and durations are left out.
use autonomous_ai_software_e.Prelude.{
  ℕ, ◌+◌, ◌≡◌, refl, ap, ◌∙◌, inl, inr, String, Bool, true, false, not, ◌&&◌, Option, none, some,
  arith, ◌==◌, if◌then◌else◌, str_eq, Bool-cases, Option-cases,
}

pub data SandboxStatus : Type 0 where
  passed failed no_tests timeout resource_limit error : SandboxStatus

unfoldable pub repairable : SandboxStatus → Bool
repairable SandboxStatus.failed = true
repairable SandboxStatus.timeout = true
repairable SandboxStatus.resource_limit = true
repairable _ = false

pub data LimitKind : Type 0 where
  memory pids output archive : LimitKind

-- An exit code: a number, a signal's (negative), or none.
pub data Exit : Type 0 where
  code : ℕ → Exit
  signal : ℕ → Exit
  unknown : Exit

unfoldable pub exited_with : ℕ → Exit → Bool
exited_with n (code m) = m == n
exited_with n _ = false

-- The entry script's report: its status as it is written, whether its other fields can be read as a
-- SandboxResult's, and the status and the limit where they can be read too.
pub record EntryReport : Type 0 where
  pub status : String
  pub others_valid : Bool
  pub parsed : Option (SandboxStatus × Option LimitKind)

-- A result, or the ValidationError of a report.
pub data Classified : Type 0 where
  result : SandboxStatus → Option LimitKind → Classified
  raises : Classified

unfoldable pub result_of : Option EntryReport → Classified
result_of none = result SandboxStatus.error none
result_of (some r) = elim r.parsed [
  | some (status, limit) ↦
      if r.others_valid then result status limit else result SandboxStatus.error none
  | none ↦ result SandboxStatus.error none
]

-- The branch of a container that was killed for its memory.
unfoldable pub out_of_memory : Option EntryReport → Classified
out_of_memory none = result SandboxStatus.resource_limit (some memory)
out_of_memory (some r) =
    if r.others_valid then result SandboxStatus.resource_limit (some memory) else raises

unfoldable pub says_timeout : Option EntryReport → Bool
says_timeout none = false
says_timeout (some r) = str_eq r.status "timeout"

-- A run that was killed before it reported.
unfoldable pub without_report : Option EntryReport → Exit → Classified
unfolding result_of exited_with
without_report none exit =
    if exited_with 137 exit
    then result SandboxStatus.resource_limit (some memory)
    else result_of none
without_report (some r) exit = result_of (some r)

unfoldable pub classify : Bool → Bool → Bool → Option EntryReport → Exit → Classified
unfolding out_of_memory says_timeout without_report
classify timed_out overflow oom_killed report exit =
    if timed_out
    then result SandboxStatus.timeout none
    else if overflow
    then result SandboxStatus.resource_limit (some output)
    else if oom_killed && not (says_timeout report)
    then out_of_memory report
    else without_report report exit

-- A step of the entry script.
pub record EntryStep : Type 0 where
  pub missing : Bool
  pub timed_out : Bool
  pub exit : Exit

pub record Summary : Type 0 where
  pub collected : ℕ
  pub failed : ℕ
  pub errors : ℕ

unfoldable pub verdict : EntryStep → Summary → SandboxStatus
unfolding exited_with
verdict step summary =
    let failures = summary.failed + summary.errors in
    if step.missing
    then SandboxStatus.error
    else if step.timed_out
    then SandboxStatus.timeout
    else if exited_with 0 step.exit && failures == 0 && summary.collected == 0
    then SandboxStatus.no_tests
    else if exited_with 0 step.exit && failures == 0
    then SandboxStatus.passed
    else SandboxStatus.failed

pub data CheckStatus : Type 0 where
  passed failed timeout error : CheckStatus

unfoldable pub check : EntryStep → ℕ → CheckStatus
unfolding exited_with
check step count =
    if step.timed_out
    then CheckStatus.timeout
    else if exited_with 0 step.exit
    then CheckStatus.passed
    else if count == 0
    then CheckStatus.error
    else CheckStatus.failed

-- What stands behind a verdict that the tests have passed.
pub record Clean (step : EntryStep) (summary : Summary) : Type 0 where
  pub there : step.missing ≡ false
  pub in_time : step.timed_out ≡ false
  pub zero_exit : exited_with 0 step.exit ≡ true
  pub none_failed : summary.failed + summary.errors ≡ 0
  pub some_collected : (summary.collected == 0) ≡ false

-- What stands behind a result that the run has passed.
pub record Trusted (timed_out overflow oom_killed : Bool) (report : Option EntryReport)
    : Type 0 where
  pub in_time : timed_out ≡ false
  pub within : overflow ≡ false
  pub alive : oom_killed && not (says_timeout report) ≡ false
  pub reported :
      (r : EntryReport) × (limit : Option LimitKind) × (report ≡ some r)
      × (r.others_valid ≡ true)
      × (r.parsed ≡ some (SandboxStatus.passed, limit))

-- The tests are said to have passed only when their tool was there, ended in time with the code 0, and
-- collected at least one test and none that failed.
pub verdict-Clean :
    (step : EntryStep) (summary : Summary)
    → verdict step summary ≡ SandboxStatus.passed
    → Clean step summary
unfolding verdict
verdict-Clean step summary h = record {
  there = ground (arith, h);
  in_time = ground (arith, h);
  zero_exit = ground (arith, h);
  none_failed = ground (arith, h);
  some_collected = ground (arith, h);
}

result_of-passed :
    (report : Option EntryReport) {limit : Option LimitKind}
    → result_of report ≡ result SandboxStatus.passed limit
    → (r : EntryReport) × (other : Option LimitKind) × (report ≡ some r)
      × (r.others_valid ≡ true)
      × (r.parsed ≡ some (SandboxStatus.passed, other))
unfolding result_of
result_of-passed none h = cc
result_of-passed (some r) {limit} h = elim (Option-cases r.parsed) [
  | inl e ↦ cc (rw (e, result_of) at h)
  | inr ((status, other), e) ↦ elim (Bool-cases r.others_valid) [
    | inr n ↦ cc (rw (e, n, result_of) at h)
    | inl y ↦
        let same : result status other ≡ result SandboxStatus.passed limit =
          rw (e, y, result_of) at h in
        let is_passed : status ≡ SandboxStatus.passed = cc same in
        (r, other, refl, y, e ∙ ap (λ s. some (s, other)) is_passed)
  ]
]

out_of_memory-not_passed :
    (report : Option EntryReport) {limit : Option LimitKind}
    → out_of_memory report ≡ result SandboxStatus.passed limit
    → ⊥
unfolding out_of_memory
out_of_memory-not_passed none h = cc
out_of_memory-not_passed (some r) h = elim (Bool-cases r.others_valid) [
  | inl y ↦ cc (rw (y, out_of_memory) at h)
  | inr n ↦ cc (rw (n, out_of_memory) at h)
]

without_report-passed :
    (report : Option EntryReport) (exit : Exit) {limit : Option LimitKind}
    → without_report report exit ≡ result SandboxStatus.passed limit
    → result_of report ≡ result SandboxStatus.passed limit
unfolding without_report
without_report-passed (some r) exit h = h
without_report-passed none exit h = elim (Bool-cases (exited_with 137 exit)) [
  | inl y ↦ cc (rw (y, without_report) at h)
  | inr n ↦ rw (n, without_report) at h
]

-- A run counts as passed only when it ended in time, kept within its output, was not killed for its
-- memory, unless its report speaks of a timeout, and left a readable report that says so.
pub classify-Trusted :
    (timed_out overflow oom_killed : Bool) (report : Option EntryReport) (exit : Exit)
    {limit : Option LimitKind}
    → classify timed_out overflow oom_killed report exit ≡ result SandboxStatus.passed limit
    → Trusted timed_out overflow oom_killed report
unfolding classify
classify-Trusted true overflow oom_killed report exit h = cc
classify-Trusted false true oom_killed report exit h = cc
classify-Trusted false false oom_killed report exit {limit} h =
    elim (Bool-cases (oom_killed && not (says_timeout report))) [
      | inl y ↦ absurd (out_of_memory-not_passed report {limit = limit} (rw (y, classify) at h))
      | inr n ↦
          let quiet = without_report-passed report exit {limit = limit} (rw (n, classify) at h) in
          record {
            in_time = refl;
            within = refl;
            alive = n;
            reported = result_of-passed report {limit = limit} quiet;
          }
    ]
