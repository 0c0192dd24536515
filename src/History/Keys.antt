-- ===== src/History/Keys.antt =====
-- The idempotency keys over any history (src/autoswe/repository.py): an owner's key names one job.
use mathlib.Core.Option.{some-injective}
use autonomous_ai_software_e.Prelude.{
  ◌≡◌, refl, ap, inl, inr, String, Bool, true, false, ◌&&◌, Option, none, some, List, [], ◌∷◌, ◌++◌,
  arith, str_eq, eq_iff, eq_refl, find, update, remove, Bool-cases, find-append, &&-elim,
}
use autonomous_ai_software_e.Model.{Job, Db, empty_db}
use autonomous_ai_software_e.Budget.{has_id}
use autonomous_ai_software_e.Repository.Statements.{delete}
use autonomous_ai_software_e.Repository.Submit.{same_key, with_key, by_idempotency_key, collides}
use autonomous_ai_software_e.History.{Reach, here, next}
use autonomous_ai_software_e.History.Reservations.{Reach-Sound}
use autonomous_ai_software_e.History.Changes.{SameRow, Change, unchanged, updated, inserted}
use autonomous_ai_software_e.History.Changes.Steps.{Step-Change}

-- No row below has the row's owner and key.
Unkeyed : Job → List Job → Type 0
Unkeyed j js = (key : String) → j.idempotency_key ≡ some key → find (with_key j.owner key) js ≡ none

Unique : List Job → Type 0
Unique [] = Unit
Unique (j ∷ js) = Unkeyed j js × Unique js

with_key-SameRow :
    (owner key : String) (a b : Job) → SameRow a b → with_key owner key a ≡ with_key owner key b
unfolding with_key
with_key-SameRow owner key a b same = rw same.1 refl

-- No row passes a test that an update does not touch, or that a removal leaves fewer rows to.
none-update :
    (p is : Job → Bool) (f : Job → Job) (js : List Job)
    → ((j : Job) → p (f j) ≡ p j)
    → find p js ≡ none
    → find p (update is f js) ≡ none
unfolding find update
none-update p is f [] same h = refl
none-update p is f (j ∷ js) same h = ground (arith, same j, none-update p is f js same)

none-remove : (p is : Job → Bool) (js : List Job) → find p js ≡ none → find p (remove is js) ≡ none
unfolding find remove
none-remove p is [] h = refl
none-remove p is (j ∷ js) h = ground (arith, none-remove p is js)

Unkeyed-update :
    (is : Job → Bool) (f : Job → Job) (j : Job) (js : List Job)
    → ((i : Job) → SameRow (f i) i)
    → Unkeyed j js
    → Unkeyed j (update is f js)
unfolding Unkeyed
Unkeyed-update is f j js same u key e =
    none-update (with_key j.owner key) is f js (λ i. with_key-SameRow j.owner key (f i) i (same i))
      (u key e)

Unkeyed-SameRow : (a b : Job) (js : List Job) → SameRow a b → Unkeyed b js → Unkeyed a js
unfolding Unkeyed
Unkeyed-SameRow a b js same u = rw same.1 u

Unique-update :
    (is : Job → Bool) (f : Job → Job) (js : List Job)
    → ((i : Job) → SameRow (f i) i)
    → Unique js
    → Unique (update is f js)
unfolding Unique update
Unique-update is f [] same u = tt
Unique-update is f (j ∷ js) same u = elim (Bool-cases (is j)) [
  | inl y ↦ rw y (Unkeyed-SameRow (f j) j js (same j) u.0, u.1)
  | inr n ↦ rw n (Unkeyed-update is f j js same u.0, Unique-update is f js same u.1)
]

same_key-some : (o : Option String) (key : String) → same_key o (some key) ≡ true → o ≡ some key
unfolding same_key
same_key-some none key h = cc
same_key-some (some other) key h = ap some ((eq_iff other key).0 h)

with_key-parts :
    (owner key : String) (j : Job)
    → with_key owner key j ≡ true
    → (j.owner ≡ owner) × (j.idempotency_key ≡ some key)
unfolding with_key
with_key-parts owner key j h =
    let (a, b) = &&-elim (str_eq j.owner owner) (same_key j.idempotency_key (some key)) h in
    ((eq_iff j.owner owner).0 a, same_key-some j.idempotency_key key b)

-- The two sides of a collision.
with_key-other :
    (j job : Job) (key : String)
    → j.idempotency_key ≡ some key
    → (str_eq j.owner job.owner && same_key j.idempotency_key job.idempotency_key) ≡ false
    → with_key j.owner key job ≡ false
unfolding same_key
with_key-other j job key e h = elim (Bool-cases (with_key j.owner key job)) [
  | inr n ↦ n
  | inl y ↦
      let (owners, keys) = with_key-parts j.owner key job y in
      cc (rw (e, keys, owners, eq_refl j.owner, eq_refl key) at h)
]

Unique-append :
    (job : Job) (js : List Job) → collides job js ≡ false → Unique js → Unique (js ++ job ∷ [])
unfolding Unique Unkeyed collides find
Unique-append job [] h u = (λ key e. refl, tt)
Unique-append job (j ∷ js) h u =
    let apart : (str_eq j.owner job.owner && same_key j.idempotency_key job.idempotency_key)
        ≡ false =
      ground arith in
    (
      λ key e.
          rw (find-append (with_key j.owner key) js (job ∷ []), u.0 key e)
            (rw (with_key-other j job key e apart) refl),
      Unique-append job js (ground arith) u.1,
    )

Unique-remove : (is : Job → Bool) (js : List Job) → Unique js → Unique (remove is js)
unfolding Unique Unkeyed remove
Unique-remove is [] u = tt
Unique-remove is (j ∷ js) u = elim (Bool-cases (is j)) [
  | inl y ↦ rw y u.1
  | inr n ↦
      rw n (λ key e. none-remove (with_key j.owner key) is js (u.0 key e), Unique-remove is js u.1)
]

Change-Unique : {a b : List Job} → Change a b → Unique a → Unique b
Change-Unique unchanged u = u
Change-Unique {a} (updated k f same edge) u = Unique-update (has_id k) f a same u
Change-Unique {a} (inserted j fresh q) u = Unique-append j a fresh u

Reach-Unique : {db : Db} → Reach empty_db db → Unique db.jobs
unfolding Unique delete
Reach-Unique here = tt
Reach-Unique (next {d} r s) = elim (Step-Change s (Reach-Sound r)) [
  | inl c ↦ Change-Unique c (Reach-Unique r)
  | inr (k, e) ↦ rw e (Unique-remove (has_id k) d.jobs (Reach-Unique r))
]

with_key_self :
    (j : Job) (key : String) → j.idempotency_key ≡ some key → with_key j.owner key j ≡ true
unfolding with_key same_key
with_key_self j key e = rw (e, eq_refl j.owner) (rw (eq_refl key) refl)

key-only :
    (k key : String) (js : List Job) {j : Job}
    → Unique js
    → find (has_id k) js ≡ some j
    → j.idempotency_key ≡ some key
    → find (with_key j.owner key) js ≡ some j
unfolding Unique Unkeyed find with_key same_key
key-only k key [] u h e = cc
key-only k key (x ∷ xs) {j} u h e = elim (Bool-cases (has_id k x)) [
  | inl y ↦
      let same : x ≡ j = some-injective x j (rw y at h) in rw same (rw (with_key_self j key e) refl)
  | inr n ↦
      let rest = key-only k key xs {j = j} u.1 (rw n at h) e in
      elim (Bool-cases (with_key j.owner key x)) [
        | inr m ↦ rw m rest
        | inl m ↦ absurd (clash m rest)
      ]
]
  where
    clash : with_key j.owner key x ≡ true → find (with_key j.owner key) xs ≡ some j → ⊥
    clash m rest =
        let (owners, keys) = with_key-parts j.owner key x m in
        cc (rest, rw owners at (u.0 key keys))

-- After any history from an empty database, a job that is there is the one that its owner's key finds.
pub by_idempotency_key-only :
    (k key : String) {db : Db} {j : Job}
    → Reach empty_db db
    → find (has_id k) db.jobs ≡ some j
    → j.idempotency_key ≡ some key
    → by_idempotency_key j.owner key db ≡ some j
unfolding by_idempotency_key
by_idempotency_key-only k key {db} r h e = key-only k key db.jobs (Reach-Unique r) h e
