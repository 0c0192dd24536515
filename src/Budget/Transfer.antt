-- ===== src/Budget/Transfer.antt =====
-- The transfers between the ledger and the jobs (src/autoswe/budget.py): a reservation, a top-up, a
-- call's conversion of reservation into usage, and the release of what is left.
use mathlib.Core.Option.{some-injective}
use autonomous_ai_software_e.Prelude.{
  ℕ, ◌+◌, ◌≤◌, ◌≡◌, refl, sym, ap, ◌∙◌, if◌then◌else◌, inl, inr, String, Option, none, some, List,
  arith, leb, leb→le, ◌==◌, eq_refl, find, cas, update, Bool-cases, Option-cases, cas-find,
  cas-update, update-none, update-same, update-agree, le-sum_by,
}
use autonomous_ai_software_e.Model.{Job, PrincipalUsage, TokenUsage, Db}
use autonomous_ai_software_e.Budget.{
  is_row, has_id, decrement, reserve_row, try_reserve, add_reserved, extend, record_row,
  consume_reserved, record_usage, release_row, clear_reserved, release_held, release,
}
use autonomous_ai_software_e.Budget.Rows.{
  reserved_in, due, due-share, held_by, share, reserved_in-update, held_by-update,
}

-- Tokens of each principal and period that the ledger keeps for jobs which are gone.
abbrev pub Leak : Type 0
Leak = String → ℕ → ℕ

-- Of every principal and period the ledger's reservation is what its jobs hold, and what has leaked.
abbrev pub Conserved : Leak → Db → Type 0
Conserved L db = (p : String) (s : ℕ) → reserved_in p s db.usage ≡ held_by p s db.jobs + L p s

-- What a reservation that is granted has found and done.
pub record Granted (p : String) (s amount limit now : ℕ) (db db' : Db) : Type 0 where
  pub row : PrincipalUsage
  pub found : find (is_row p s) db.usage ≡ some row
  pub fits : row.used_tokens + row.reserved_tokens + amount ≤ limit
  pub written : db' ≡ record db { usage = update (is_row p s) (reserve_row amount now) db.usage }

pub try_reserve-Granted :
    (p : String) (s amount limit now : ℕ) (db : Db) {db' : Db}
    → try_reserve p s amount limit now db ≡ some db'
    → Granted p s amount limit now db db'
unfolding try_reserve
try_reserve-Granted p s amount limit now db {db'} h =
    elim (Option-cases (
      cas (is_row p s) (λ r. leb (r.used_tokens + r.reserved_tokens + amount) limit)
        (reserve_row amount now) db.usage)) [
          | inl e ↦ absurd (none_ne (rw e at h))
          | inr (t, e) ↦
              let (r, found, fits) = cas-find _ _ _ db.usage e in
              record {
                row = r;
                found = found;
                fits = leb→le _ _ fits;
                written = cc (rw e at h, cas-update _ _ _ db.usage e);
              }
        ]
  where
    none_ne : ◌≡◌ {A = Option Db} none (some db') → ⊥
    none_ne q = cc

share-add :
    (p p' : String) (s s' a b : ℕ) → share p s p' s' (a + b) ≡ share p s p' s' a + share p s p' s' b
share-add p p' s s' a b = ground arith

share_mono : (p p' : String) (s s' a b : ℕ) → a ≤ b → share p s p' s' a ≤ share p s p' s' b
share_mono p p' s s' a b h = ground arith

pub reserved_in-Granted :
    (p p' : String) (s s' amount limit now : ℕ) {db db' : Db}
    → Granted p s amount limit now db db'
    → reserved_in p' s' db'.usage ≡ reserved_in p' s' db.usage + share p s p' s' amount
unfolding reserve_row
reserved_in-Granted p p' s s' amount limit now {db} {db'} g = rw g.written (
    omega (
      arith,
      reserved_in-update (reserve_row amount now) (λ r. (refl, refl)) p p' s s' db.usage g.found,
      share-add p p' s s' g.row.reserved_tokens amount,
    ))

pub jobs-Granted :
    (p : String) (s amount limit now : ℕ) {db db' : Db}
    → Granted p s amount limit now db db'
    → db'.jobs ≡ db.jobs
jobs-Granted p s amount limit now g = ap (λ (d : Db). d.jobs) g.written

-- The transaction of a top-up moves the same amount into the ledger and into the job.
pub extend-Conserved :
    (L : Leak) (k p : String) (s amount limit now : ℕ) (db : Db) {j : Job}
    → find (has_id k) db.jobs ≡ some j
    → (j.owner ≡ p) × (j.budget_period_start ≡ some s)
    → Conserved L db
    → Conserved L (extend k p s amount limit now db).0
unfolding extend
extend-Conserved L k p s amount limit now db {j} found mine c p' s' =
    elim (Option-cases (try_reserve p s amount limit now db)) [
      | inl e ↦ rw (e, extend) (c p' s')
      | inr (db', e) ↦ rw (e, extend) (granted db' (try_reserve-Granted p s amount limit now db e))
    ]
  where
    granted :
        (db' : Db)
        → Granted p s amount limit now db db'
        → reserved_in p' s' db'.usage
          ≡ held_by p' s' (update (has_id k) (add_reserved amount now) db'.jobs) + L p' s'
    granted db' g = rw (jobs-Granted p s amount limit now g) (
        omega (
          arith,
          c p' s',
          reserved_in-Granted p p' s s' amount limit now g,
          held_by-update (add_reserved amount now) k p p' s s' db.jobs found mine mine,
          share-add p p' s s' j.tokens_reserved amount,
        ))

decrement-exact : (n m : ℕ) → m ≤ n → decrement n m + m ≡ n
unfolding decrement
decrement-exact n m h = ground arith

decrement-zero : (n : ℕ) → decrement n 0 ≡ n
unfolding decrement
decrement-zero n = ground arith

-- A row's counters change; the ledger's reservation of its key falls by `n`, if it holds that much.
reserved_in-fall :
    (f : PrincipalUsage → PrincipalUsage) (p p' : String) (s s' n : ℕ) (rows : List PrincipalUsage)
    → ((r : PrincipalUsage)
        → ((f r).principal ≡ r.principal) × ((f r).period_start ≡ r.period_start))
    → ((r : PrincipalUsage) → (f r).reserved_tokens ≡ decrement r.reserved_tokens n)
    → n ≤ reserved_in p s rows
    → reserved_in p' s' (update (is_row p s) f rows) + share p s p' s' n ≡ reserved_in p' s' rows
reserved_in-fall f p p' s s' n rows keeps falls h = elim (Option-cases (find (is_row p s) rows)) [
  | inl e ↦ rw (update-none (is_row p s) f rows e) (let z : n ≤ 0 = rw e at h in ground arith)
  | inr (r, e) ↦
      let le : n ≤ r.reserved_tokens = rw e at h in
      omega (
        arith,
        reserved_in-update f keeps p p' s s' rows e,
        ap (share p s p' s') (falls r),
        ap (share p s p' s') (decrement-exact r.reserved_tokens n le),
        share-add p p' s s' (decrement r.reserved_tokens n) n,
      )
]

due-share_mine :
    (p p' : String) (s s' : ℕ) (j : Job)
    → (j.owner ≡ p) × (j.budget_period_start ≡ some s)
    → due p' s' j ≡ share p s p' s' j.tokens_reserved
due-share_mine p p' s s' j (a, b) = due-share p p' s s' j a b

-- A job's reservation is part of the ledger's.
pub held-le-reserved :
    (L : Leak) (k p : String) (s : ℕ) (db : Db) {j : Job}
    → find (has_id k) db.jobs ≡ some j
    → (j.owner ≡ p) × (j.budget_period_start ≡ some s)
    → Conserved L db
    → j.tokens_reserved ≤ reserved_in p s db.usage
held-le-reserved L k p s db {j} found mine c = omega (
  arith,
  c p s,
  le-sum_by (due p s) (has_id k) db.jobs found,
  due-share_mine p p s s j mine,
  share_self p s j.tokens_reserved,
)
  where
    share_self : (p : String) (s n : ℕ) → share p s p s n ≡ n
    share_self p s n = ground (arith, eq_refl p)

-- A call takes the same amount from the ledger's reservation and from the job's.
pub record_usage-Conserved :
    (L : Leak) (k p : String) (s : ℕ) (usage : TokenUsage) (consumed now : ℕ) (db : Db) {j : Job}
    → find (has_id k) db.jobs ≡ some j
    → (j.owner ≡ p) × (j.budget_period_start ≡ some s)
    → consumed ≤ j.tokens_reserved
    → Conserved L db
    → Conserved L (record_usage k p s usage consumed now db)
unfolding record_usage
record_usage-Conserved L k p s usage consumed now db {j} found mine enough c p' s' =
    elim (Bool-cases (consumed == 0)) [
      | inl z ↦
          rw (z, record_usage)
            (omega (arith, c p' s', ledger, share_zero p p' s s' consumed (ground arith)))
      | inr n ↦
          rw (n, record_usage)
            (omega (
              arith,
              c p' s',
              ledger,
              held_by-update (consume_reserved consumed now) k p p' s s' db.jobs found mine mine,
              share-add p p' s s' (decrement j.tokens_reserved consumed) consumed,
              ap (share p s p' s') (decrement-exact j.tokens_reserved consumed enough),
            ))
    ]
  where
    share_zero : (p p' : String) (s s' n : ℕ) → n ≡ 0 → share p s p' s' n ≡ 0
    share_zero p p' s s' n h = ground arith

    le_trans' : {a b c : ℕ} → a ≤ b → b ≤ c → a ≤ c
    le_trans' h k = omega arith

    ledger :
        reserved_in p' s' (update (is_row p s) (record_row usage consumed now) db.usage)
          + share p s p' s' consumed
        ≡ reserved_in p' s' db.usage
    ledger =
        reserved_in-fall (record_row usage consumed now) p p' s s' consumed db.usage
          (λ r. (refl, refl)) (λ r. refl)
          (le_trans' enough (held-le-reserved L k p s db found mine c))

-- A release takes from the ledger what the job held.
pub release-Conserved :
    (L : Leak) (k : String) (now : ℕ) (db : Db) → Conserved L db → Conserved L (release k now db)
unfolding release
release-Conserved L k now db c p' s' = elim (Option-cases (find (has_id k) db.jobs)) [
  | inl e ↦ rw (e, release) (c p' s')
  | inr (j, e) ↦ rw (e, release) (held_job j e)
]
  where
    share_none : (p p' : String) (s s' : ℕ) → share p s p' s' 0 ≡ 0
    share_none p p' s s' = ground arith

    paid :
        (j : Job) (s : ℕ)
        → find (has_id k) db.jobs ≡ some j
        → j.budget_period_start ≡ some s
        → reserved_in p' s' (update (is_row j.owner s) (release_row j.tokens_reserved now) db.usage)
          ≡ held_by p' s' (update (has_id k) (clear_reserved now) db.jobs) + L p' s'
    paid j s e b = omega (
      arith,
      c p' s',
      reserved_in-fall (release_row j.tokens_reserved now) j.owner p' s s' j.tokens_reserved
          db.usage (λ r. (refl, refl)) (λ r. refl)
          (held-le-reserved L k j.owner s db e (refl, b) c),
      held_by-update (clear_reserved now) k j.owner p' s s' db.jobs e (refl, b) (refl, b),
      share_none j.owner p' s s',
    )

    held_job :
        (j : Job)
        → find (has_id k) db.jobs ≡ some j
        → reserved_in p' s' (release_held k now j j.budget_period_start db).usage
          ≡ held_by p' s' (release_held k now j j.budget_period_start db).jobs + L p' s'
    held_job j e = elim (Option-cases j.budget_period_start) [
      | inl n ↦ rw n (c p' s')
      | inr (s, b) ↦ elim (Bool-cases (j.tokens_reserved == 0)) [
        | inl z ↦ rw (b, z, release_held) (c p' s')
        | inr z ↦ rw (b, z, release_held) (paid j s e b)
      ]
    ]

-- What a release leaves of a job's row.
abbrev pub free_up : ℕ → Job → Job
free_up now j = if j.tokens_reserved == 0 then j else clear_reserved now j

-- A release changes the job's row alone, which then holds nothing.
pub jobs-release :
    (k : String) (now : ℕ) (db : Db)
    → ((j : Job)
        → find (has_id k) db.jobs ≡ some j
        → j.budget_period_start ≡ none
        → j.tokens_reserved ≡ 0)
    → (release k now db).jobs ≡ update (has_id k) (free_up now) db.jobs
unfolding release
jobs-release k now db backed = elim (Option-cases (find (has_id k) db.jobs)) [
  | inl e ↦ rw (e, release) (sym (update-none (has_id k) (free_up now) db.jobs e))
  | inr (j, e) ↦ rw (e, release) (held_job j e)
]
  where
    nothing :
        (j : Job)
        → find (has_id k) db.jobs ≡ some j
        → j.tokens_reserved ≡ 0
        → db.jobs ≡ update (has_id k) (free_up now) db.jobs
    nothing j e z = sym (update-same (has_id k) (free_up now) db.jobs e (rw z refl))

    held_job :
        (j : Job)
        → find (has_id k) db.jobs ≡ some j
        → (release_held k now j j.budget_period_start db).jobs
          ≡ update (has_id k) (free_up now) db.jobs
    held_job j e = elim (Option-cases j.budget_period_start) [
      | inl n ↦ rw n (nothing j e (backed j e n))
      | inr (s, b) ↦ elim (Bool-cases (j.tokens_reserved == 0)) [
        | inl z ↦ rw (b, z, release_held) (nothing j e (ground arith))
        | inr z ↦
            rw (b, z, release_held)
              (update-agree (has_id k) (clear_reserved now) (free_up now) db.jobs
                (λ r q. rw (some-injective r j (sym q ∙ e), z) refl))
      ]
    ]
