-- ===== src/Budget/Rows.antt =====
-- The ledger's rows and the jobs' rows of one principal and period (src/autoswe/budget.py).
use autonomous_ai_software_e.Prelude.{
  ℕ, ◌+◌, ◌≡◌, refl, inl, inr, String, Bool, true, false, ◌&&◌, Option, none, some, List, arith,
  ◌==◌, if◌then◌else◌, str_eq, eq_iff, find, update, sum_by, Bool-cases, &&-elim, find-passes,
  find-update_self, find-update_other, sum_by-update, sum_by-update_same,
}
use autonomous_ai_software_e.Model.{Job, PrincipalUsage}
use autonomous_ai_software_e.Budget.{is_row, has_id}

abbrev pub reserved_of : Option PrincipalUsage → ℕ
reserved_of none = 0
reserved_of (some r) = r.reserved_tokens

abbrev pub used_of : Option PrincipalUsage → ℕ
used_of none = 0
used_of (some r) = r.used_tokens

-- What the ledger says is reserved.
abbrev pub reserved_in : String → ℕ → List PrincipalUsage → ℕ
reserved_in principal period rows = reserved_of (find (is_row principal period) rows)

abbrev pub used_in : String → ℕ → List PrincipalUsage → ℕ
used_in principal period rows = used_of (find (is_row principal period) rows)

abbrev pub in_period : ℕ → Option ℕ → Bool
in_period period none = false
in_period period (some s) = s == period

-- What one job holds of a principal's period.
abbrev pub due : String → ℕ → Job → ℕ
due principal period j =
    if str_eq j.owner principal && in_period period j.budget_period_start
    then j.tokens_reserved
    else 0

-- What all jobs together hold of it.
abbrev pub held_by : String → ℕ → List Job → ℕ
held_by principal period = sum_by (due principal period)

-- `n` if the two keys are one, else 0.
abbrev pub share : String → ℕ → String → ℕ → ℕ → ℕ
share p s p' s' n = if str_eq p p' && (s == s') then n else 0

pub due-share :
    (p p' : String) (s s' : ℕ) (j : Job)
    → j.owner ≡ p
    → j.budget_period_start ≡ some s
    → due p' s' j ≡ share p s p' s' j.tokens_reserved
due-share p p' s s' j ho hs = rw (ho, hs) refl

pub is_row_iff :
    (p : String) (s : ℕ) (r : PrincipalUsage)
    → is_row p s r ≡ true
    → (r.principal ≡ p) × (r.period_start ≡ s)
is_row_iff p s r h = let (a, b) = &&-elim _ _ h in ((eq_iff r.principal p).0 a, ground arith)

-- Two keys are one, or no row has both.
pub keys_apart :
    (p p' : String) (s s' : ℕ)
    → (str_eq p p' && (s == s')) ≡ false
    → (r : PrincipalUsage) → is_row p s r ≡ true
    → is_row p' s' r ≡ false
keys_apart p p' s s' h r k = let (a, b) = is_row_iff p s r k in rw (a, b) h

keys_same : (p p' : String) (s s' : ℕ) → (str_eq p p' && (s == s')) ≡ true → (p ≡ p') × (s ≡ s')
keys_same p p' s s' h = let (a, b) = &&-elim _ _ h in ((eq_iff p p').0 a, ground arith)

module _ (f : PrincipalUsage → PrincipalUsage)
    (keeps : (r : PrincipalUsage)
      → ((f r).principal ≡ r.principal) × ((f r).period_start ≡ r.period_start)) where
  keeps_key : (p : String) (s : ℕ) (r : PrincipalUsage) → is_row p s (f r) ≡ is_row p s r
  keeps_key p s r = rw ((keeps r).0, (keeps r).1) refl

  pub find-update-row :
      (p p' : String) (s s' : ℕ) (rows : List PrincipalUsage) {r : PrincipalUsage}
      → find (is_row p s) rows ≡ some r
      → find (is_row p' s') (update (is_row p s) f rows)
        ≡ (if str_eq p p' && (s == s') then some (f r) else find (is_row p' s') rows)
  find-update-row p p' s s' rows {r} h = elim (Bool-cases (str_eq p p' && (s == s'))) [
    | inl e ↦
        let (a, b) = keys_same p p' s s' e in
        rw e (
          rw (← a, ← b)
            (find-update_self (is_row p s) f rows h
              (rw keeps_key (find-passes (is_row p s) rows h))))
    | inr e ↦ rw e (
        find-update_other (is_row p s) (is_row p' s') f rows
          (λ q k. (keys_apart p p' s s' e q k, rw keeps_key (keys_apart p p' s s' e q k))))
  ]

  -- How an update of one row changes what the ledger says is reserved, of any row.
  pub reserved_in-update :
      (p p' : String) (s s' : ℕ) (rows : List PrincipalUsage) {r : PrincipalUsage}
      → find (is_row p s) rows ≡ some r
      → reserved_in p' s' (update (is_row p s) f rows) + share p s p' s' r.reserved_tokens
        ≡ reserved_in p' s' rows + share p s p' s' (f r).reserved_tokens
  reserved_in-update p p' s s' rows {r} h = elim (Bool-cases (str_eq p p' && (s == s'))) [
    | inl e ↦
        let (a, b) = keys_same p p' s s' e in
        rw (find-update-row p p' s s' rows h, e) (rw (← a, ← b, h) (omega arith))
    | inr e ↦ rw (find-update-row p p' s s' rows h, e) refl
  ]

-- How an update of one job changes what all jobs hold of a principal's period.
pub held_by-update :
    (f : Job → Job) (k p p' : String) (s s' : ℕ) (jobs : List Job) {j : Job}
    → find (has_id k) jobs ≡ some j
    → (j.owner ≡ p) × (j.budget_period_start ≡ some s)
    → ((f j).owner ≡ p) × ((f j).budget_period_start ≡ some s)
    → held_by p' s' (update (has_id k) f jobs) + share p s p' s' j.tokens_reserved
      ≡ held_by p' s' jobs + share p s p' s' (f j).tokens_reserved
held_by-update f k p p' s s' jobs {j} found (a, b) (c, d) =
    rw (← due-share p p' s s' j a b, ← due-share p p' s s' (f j) c d)
      (sum_by-update (due p' s') (has_id k) f jobs found)

-- A change that leaves owner, period and reservation alone changes nothing of it.
pub held_by-update_same :
    (f : Job → Job) (k p : String) (s : ℕ) (jobs : List Job)
    → ((j : Job) → due p s (f j) ≡ due p s j)
    → held_by p s (update (has_id k) f jobs) ≡ held_by p s jobs
held_by-update_same f k p s jobs same = sum_by-update_same (due p s) (has_id k) f jobs same
