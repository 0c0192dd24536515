-- ===== src/Tests/Calls.antt =====
-- A metered call of the job "a", and what is left of the budget of its principal.
use mathlib.Core.Option.{some-injective}
use mathlib.Core.Path.{subst}
use autonomous_ai_software_e.Prelude.{◌<◌, ◌≡◌, refl, true, some, [], find, cas, arith}
use autonomous_ai_software_e.Model.{Db, TokenUsage, PrincipalUsage}
use autonomous_ai_software_e.Budget.{
  BudgetPolicy, BudgetGuard, limit_for, reservation_for, new_guard, before_call, admitted, state,
  remaining, usage_row, ensure, try_reserve, extend, fresh_row, reserve_row,
}
use autonomous_ai_software_e.Budget.Limits.{granted, fits, try_reserve-remaining}
use autonomous_ai_software_e.Repository.Submit.{create, new_job}
use autonomous_ai_software_e.Repository.Reservations.Calls.{Synced}
use autonomous_ai_software_e.Metering.{MeteredProvider, Reply, responds, call}
use autonomous_ai_software_e.Metering.Calls.{InStep, before_call-covered, call-InStep}
use autonomous_ai_software_e.Tests.Jobs.{order, submitted}

abbrev policy : BudgetPolicy
policy = record { default_limit = some 100; limits = []; reservation = 20 }

abbrev row : PrincipalUsage
row = reserve_row 10 5 (fresh_row "ann" 0 5)

limited : limit_for policy "ann" ≡ some 100
unfolding limit_for
limited = refl

row_there : usage_row "ann" 0 submitted ≡ some row
unfolding create ensure try_reserve find cas
row_there = refl

try_reserve-remaining_example :
    granted (try_reserve "ann" 0 91 100 9 submitted)
    ≡ fits 91 (
        remaining
          (state policy "ann" 0 submitted).limit
          (state policy "ann" 0 submitted).used
          (state policy "ann" 0 submitted).reserved)
try_reserve-remaining_example =
    try_reserve-remaining policy "ann" 0 91 100 9 submitted limited row_there (omega arith)

-- A guard that has nothing left tops up.
abbrev spent : BudgetGuard
spent = new_guard policy "a" "ann" 0 0

topped_up : (before_call spent 9 submitted).2 ≡ admitted
unfolding create before_call new_guard limit_for reservation_for extend ensure try_reserve find cas
topped_up = refl

spent_limit : spent.limit ≡ some 100
unfolding new_guard limit_for
spent_limit = refl

before_call-covered_example : 0 < (before_call spent 9 submitted).0.reserved
before_call-covered_example = before_call-covered spent 9 100 submitted spent_limit topped_up

abbrev guard : BudgetGuard
guard = new_guard policy "a" "ann" 0 10

in_step : Synced guard submitted
unfolding create new_guard ensure try_reserve find cas
in_step = record {
  job = new_job "a" order (some 0) 10 5;
  found = refl;
  owner = refl;
  period = refl;
  reserved = refl;
}

abbrev seven_tokens : TokenUsage
seven_tokens = record {
  input_tokens = 3;
  output_tokens = 4;
  cache_read_input_tokens = 0;
  cache_creation_input_tokens = 0;
  cost_microusd = 0;
  unpriced_calls = 0;
}

abbrev provider : MeteredProvider
provider = record {
  metered = true;
  pricing = record { unit = 1; models = [] };
  meter = record { total = seven_tokens; calls = 0 };
  guard = some guard;
}

abbrev llm_reply : Db → Db × Reply
llm_reply db =
    (db, responds (record { output = "{}"; model = "m"; usage = seven_tokens; billed = [] }))

guarded : InStep provider submitted
guarded g e = subst (λ (x : BudgetGuard). Synced x submitted) (some-injective guard g e) in_step

call-InStep_example :
    InStep (call llm_reply 9 provider submitted).0 (call llm_reply 9 provider submitted).1
call-InStep_example = call-InStep llm_reply 9 provider submitted (λ g db s. s) guarded
