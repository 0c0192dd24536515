-- ===== src/History/Log/Grows.antt =====
-- The log of a job over any history: its numbers grow, and while the job is there nothing leaves it.
use mathlib.Core.Path.{subst}
use autonomous_ai_software_e.Prelude.{
  ℕ, ◌+◌, ◌≤◌, ◌<◌, ◌≡◌, ◌≢◌, refl, sym, ap, ◌∙◌, inl, inr, String, Bool, false, not, none, List,
  [], ◌∷◌, ◌++◌, arith, str_eq, eq_iff, eq_refl, find, keep_if, Bool-cases,
}
use autonomous_ai_software_e.Model.{JobEvent, Db, empty_db}
use autonomous_ai_software_e.Budget.{has_id}
use autonomous_ai_software_e.Repository.Statements.{delete}
use autonomous_ai_software_e.History.{Step, Reach, Reach-trans, here, next}
use autonomous_ai_software_e.History.Lifecycle.{Distinct, Reach-Distinct, find-removed}
use autonomous_ai_software_e.History.Log.{Logged, quiet, writes}
use autonomous_ai_software_e.History.Log.Steps.{Step-Logged}

-- The numbers grow from `n`, and stay below `next_event`.
Numbered : ℕ → List JobEvent → ℕ → Type 0
Numbered n [] bound = n < bound
Numbered n (e ∷ es) bound = (n < e.id) × Numbered e.id es bound

Numbered-append :
    (n : ℕ) (es : List JobEvent) (e : JobEvent) (bound : ℕ)
    → e.id ≡ bound
    → Numbered n es bound
    → Numbered n (es ++ e ∷ []) (bound + 1)
unfolding Numbered
Numbered-append n [] e bound same h = (omega (arith, same, h), omega (arith, same))
Numbered-append n (x ∷ es) e bound same h = (h.0, Numbered-append x.id es e bound same h.1)

Numbered-lower :
    (m n : ℕ) (es : List JobEvent) (bound : ℕ) → m ≤ n → Numbered n es bound → Numbered m es bound
unfolding Numbered
Numbered-lower m n [] bound le h = omega (arith, le, h)
Numbered-lower m n (e ∷ es) bound le h = (omega (arith, le, h.0), h.1)

Numbered-keep_if :
    (n : ℕ) (p : JobEvent → Bool) (es : List JobEvent) (bound : ℕ)
    → Numbered n es bound
    → Numbered n (keep_if p es) bound
unfolding Numbered
Numbered-keep_if n p [] bound h = h
Numbered-keep_if n p (e ∷ es) bound h =
    let rest = Numbered-keep_if e.id p es bound h.1 in
    elim (Bool-cases (p e)) [
      | inl y ↦ rw y (h.0, rest)
      | inr m ↦ rw m (Numbered-lower n e.id (keep_if p es) bound (omega (arith, h.0)) rest)
    ]

pub Ordered : Db → Type 0
Ordered db = Numbered 0 db.events db.next_event

Logged-Ordered : {d e : Db} → Logged d e → Ordered d → Ordered e
unfolding Ordered
Logged-Ordered {d} {e} (quiet same) o =
    subst (λ (l : List JobEvent × ℕ). Numbered 0 l.0 l.1) (sym same) o
Logged-Ordered {d} {e} (writes event number same) o =
    subst (λ (l : List JobEvent × ℕ). Numbered 0 l.0 l.1) (sym same)
      (Numbered-append 0 d.events event d.next_event number o)

delete-Ordered : (k : String) (d : Db) → Ordered d → Ordered (delete k d)
unfolding Ordered delete
delete-Ordered k d o = Numbered-keep_if 0 _ d.events d.next_event o

Step-Ordered : {d e : Db} → Step d e → Ordered d → Ordered e
Step-Ordered {d} s o = elim (Step-Logged s) [
  | inl l ↦ Logged-Ordered l o
  | inr (k, same) ↦ rw same (delete-Ordered k d o)
]

pub Reach-Ordered : {db : Db} → Reach empty_db db → Ordered db
unfolding Ordered Numbered
Reach-Ordered here = omega arith
Reach-Ordered (next r s) = Step-Ordered s (Reach-Ordered r)

-- A job's log.
abbrev pub log_of : String → Db → List JobEvent
log_of k db = keep_if (λ e. str_eq e.job_id k) db.events

abbrev pub Ascending : ℕ → List JobEvent → Type 0
Ascending n [] = Unit
Ascending n (e ∷ es) = (n < e.id) × Ascending e.id es

-- The job's log has only grown between the two databases.
abbrev pub Grows : String → Db → Db → Type 0
Grows k old new = (more : List JobEvent) × (log_of k old ++ more ≡ log_of k new)

Numbered-Ascending : (n : ℕ) (es : List JobEvent) (bound : ℕ) → Numbered n es bound → Ascending n es
unfolding Numbered
Numbered-Ascending n [] bound h = tt
Numbered-Ascending n (e ∷ es) bound h = (h.0, Numbered-Ascending e.id es bound h.1)

-- After any history the numbers of a job's log grow.
pub Reach-Ascending : (k : String) {db : Db} → Reach empty_db db → Ascending 0 (log_of k db)
unfolding Ordered
Reach-Ascending k {db} r =
    Numbered-Ascending 0 (log_of k db) db.next_event
      (Numbered-keep_if 0 (λ e. str_eq e.job_id k) db.events db.next_event (Reach-Ordered r))

-- A history after each of whose steps the job is there.
pub data Lasting (k : String) (d : Db) : Db → Type 0 where
  still : Lasting k d d
  then_step : {e f : Db} → Lasting k d e → Step e f → find (has_id k) f.jobs ≢ none → Lasting k d f

pub Lasting-Reach : (k : String) {d e : Db} → Lasting k d e → Reach d e
Lasting-Reach k still = here
Lasting-Reach k (then_step l s there) = next (Lasting-Reach k l) s

pub append_assoc : (xs ys zs : List JobEvent) → (xs ++ ys) ++ zs ≡ xs ++ (ys ++ zs)
append_assoc [] ys zs = refl
append_assoc (x ∷ xs) ys zs = ap (λ (t : List JobEvent). x ∷ t) (append_assoc xs ys zs)

append_nil : (xs : List JobEvent) → xs ++ [] ≡ xs
append_nil [] = refl
append_nil (x ∷ xs) = ap (λ (t : List JobEvent). x ∷ t) (append_nil xs)

of_job-append :
    (k : String) (es fs : List JobEvent)
    → keep_if (λ e. str_eq e.job_id k) (es ++ fs)
      ≡ keep_if (λ e. str_eq e.job_id k) es ++ keep_if (λ e. str_eq e.job_id k) fs
of_job-append k [] fs = refl
of_job-append k (e ∷ es) fs = ground (arith, of_job-append k es fs)

-- The removal of another job's events.
of_job-other :
    (k other : String) (es : List JobEvent)
    → str_eq other k ≡ false
    → keep_if (λ e. str_eq e.job_id k) (keep_if (λ e. not (str_eq e.job_id other)) es)
      ≡ keep_if (λ e. str_eq e.job_id k) es
of_job-other k other [] h = refl
of_job-other k other (e ∷ es) h = elim (Bool-cases (str_eq e.job_id other)) [
  | inl y ↦
      let same = (eq_iff e.job_id other).0 y in
      rw (same, eq_refl other, h) (of_job-other k other es h)
  | inr n ↦ ground (arith, n, of_job-other k other es h)
]

delete-Grows :
    (k other : String) (d : Db)
    → Distinct d.jobs
    → find (has_id k) (delete other d).jobs ≢ none
    → Grows k d (delete other d)
unfolding delete
delete-Grows k other d distinct there = elim (Bool-cases (str_eq other k)) [
  | inl y ↦ absurd (there (rw (← (eq_iff other k).0 y) (find-removed other d.jobs distinct)))
  | inr n ↦ ([], append_nil (log_of k d) ∙ sym (of_job-other k other d.events n))
]

Step-Grows :
    (k : String) {d e : Db}
    → Distinct d.jobs
    → Step d e
    → find (has_id k) e.jobs ≢ none
    → Grows k d e
Step-Grows k {d} {e} distinct s there = elim (Step-Logged s) [
  | inl (quiet same) ↦
      let events : e.events ≡ d.events = ap (λ (l : List JobEvent × ℕ). l.0) same in
      ([], rw events (append_nil (log_of k d)))
  | inl (writes event number same) ↦
      let events : e.events ≡ d.events ++ event ∷ [] = ap (λ (l : List JobEvent × ℕ). l.0) same in
      (
        keep_if (λ e. str_eq e.job_id k) (event ∷ []),
        rw events (sym (of_job-append k d.events (event ∷ []))),
      )
  | inr (other, same) ↦
      let kept = delete-Grows k other d distinct (rw same at there) in rw same kept
]

Grows-trans : (k : String) (a b c : Db) → Grows k a b → Grows k b c → Grows k a c
Grows-trans k a b c (more, e) (rest, f) = (
  more ++ rest,
  sym (append_assoc (log_of k a) more rest) ∙ ap (λ (t : List JobEvent). t ++ rest) e ∙ f,
)

-- While a job is there, its log only grows.
pub Lasting-Grows : (k : String) {d e : Db} → Reach empty_db d → Lasting k d e → Grows k d e
Lasting-Grows k {d} r still = ([], append_nil (log_of k d))
Lasting-Grows k {d} {e} r (then_step {e = m} l s there) =
    Grows-trans k d m e (Lasting-Grows k r l)
      (Step-Grows k (Reach-Distinct (Reach-trans r (Lasting-Reach k l))) s there)
