-- ===== src/Metering.antt =====
-- src/autoswe/metering.py, with the prices of src/autoswe/pricing.py and the response of src/autoswe/llm/base.py: a
-- model call is admitted by the budget's guard, answered by the provider, priced, added to the meter and
-- reported to the ledger. Spans and metrics are left out. A price is a whole number of parts of which
-- `unit` make a micro-dollar per token.
pub mod Calls
use autonomous_ai_software_e.Prelude.{
  ℕ, ◌+◌, ◌-◌, ◌*◌, ◌/◌, String, Bool, true, false, Option, none, some, List, [], ◌∷◌,
  if◌then◌else◌,
}
use autonomous_ai_software_e.Model.{TokenUsage, Db, add_usage}
use autonomous_ai_software_e.Budget.{
  BudgetGuard, Admission, admitted, exceeded, before_call, after_call,
}
use autonomous_ai_software_e.Orchestrator.Pipeline.{Dict, lookup}

pub record ModelPrice : Type 0 where
  pub input : ℕ
  pub output : ℕ
  pub cache_read : ℕ
  pub cache_write : ℕ

pub record PricingTable : Type 0 where
  pub unit : ℕ
  pub models : Dict ModelPrice

-- `ROUND_HALF_UP` of n / d
abbrev pub round_half_up : ℕ → ℕ → ℕ
round_half_up n d = (2 * n + d) / (2 * d)

-- The total includes the cache's reads and writes.
unfoldable pub uncached_input_tokens : TokenUsage → ℕ
uncached_input_tokens u = u.input_tokens - u.cache_read_input_tokens - u.cache_creation_input_tokens

unfoldable pub cost_microusd : PricingTable → String → TokenUsage → Option ℕ
unfolding lookup uncached_input_tokens
cost_microusd table model u = elim (lookup model table.models) [
  | none ↦ none
  | some price ↦ some (
      round_half_up
        (uncached_input_tokens u * price.input
          + u.cache_read_input_tokens * price.cache_read
          + u.cache_creation_input_tokens * price.cache_write
          + u.output_tokens * price.output)
        table.unit)
]

pub record LlmResponse : Type 0 where
  pub output : String
  pub model : String
  pub usage : TokenUsage
  pub billed : List (String × TokenUsage)

-- The loop of `price`: the cost of the priced entries, and whether one was not priced.
unfoldable pub price_entries : PricingTable → List (String × TokenUsage) → ℕ × Bool
unfolding cost_microusd
price_entries table [] = (0, false)
price_entries table ((model, u) ∷ rest) =
    let (cost, unpriced) = price_entries table rest in
    elim (cost_microusd table model u) [ none ↦ (cost, true) | some c ↦ (c + cost, unpriced) ]

abbrev pub entries : LlmResponse → List (String × TokenUsage)
entries r = elim r.billed [ [] ↦ (r.model, r.usage) ∷ [] | e ∷ es ↦ e ∷ es ]

unfoldable pub price : PricingTable → LlmResponse → TokenUsage
unfolding price_entries
price table r =
    let (cost, unpriced) = price_entries table (entries r) in
    record r.usage { cost_microusd = cost; unpriced_calls = if unpriced then 1 else 0 }

pub record UsageMeter : Type 0 where
  pub total : TokenUsage
  pub calls : ℕ

unfoldable pub add : TokenUsage → UsageMeter → UsageMeter
add usage m = record { total = add_usage m.total usage; calls = m.calls + 1 }

pub record MeteredProvider : Type 0 where
  pub metered : Bool
  pub pricing : PricingTable
  pub meter : UsageMeter
  pub guard : Option BudgetGuard

unfoldable pub new_provider :
    Bool → PricingTable → UsageMeter → Option BudgetGuard → MeteredProvider
new_provider metered pricing meter guard = record {
  metered = metered;
  pricing = pricing;
  meter = meter;
  guard = if metered then guard else none;
}

-- What a call returns or raises: a response, the provider's error, or the budget's.
pub data Reply : Type 0 where
  responds : LlmResponse → Reply
  breaks : String → Reply
  over_budget : ℕ → Reply

unfoldable pub report_usage :
    TokenUsage → ℕ → MeteredProvider → Option BudgetGuard → Db → MeteredProvider × Db
report_usage usage now p none db = (p, db)
report_usage usage now p (some g) db =
    let (g', db') = after_call g usage now db in (record p { guard = some g' }, db')

-- After the provider's answer.
unfoldable pub settle_call : ℕ → MeteredProvider → Db × Reply → MeteredProvider × Db × Reply
unfolding price add report_usage
settle_call now p (db, responds r) =
    let usage = price p.pricing r in
    let (p', db') = report_usage usage now (record p { meter = add usage p.meter }) p.guard db in
    if p.metered
    then (p', db', responds (record r { usage = usage }))
    else (record p { meter = add r.usage p.meter }, db, responds r)
settle_call now p (db, reply) = (p, db, reply)

-- `ask` is the provider's call, during which other processes may write to the database.
unfoldable pub ask_if :
    (Db → Db × Reply)
    → ℕ
    → MeteredProvider
    → BudgetGuard × Db × Admission
    → MeteredProvider × Db × Reply
unfolding settle_call
ask_if ask now p (g, db, admitted) = settle_call now (record p { guard = some g }) (ask db)
ask_if ask now p (g, db, exceeded used) = (record p { guard = some g }, db, over_budget used)

unfoldable pub call : (Db → Db × Reply) → ℕ → MeteredProvider → Db → MeteredProvider × Db × Reply
unfolding ask_if settle_call
call ask now p db = elim p.guard [
  | none ↦ settle_call now p (ask db)
  | some g ↦ ask_if ask now p (before_call g now db)
]
