-- ===== src/Prelude/Table.antt =====
-- A table with a primary key, as the rows in insertion order. The condition on the key is a test
-- `is` that at most one row passes; an UPDATE that names the key changes that row or none.
use Prim.Native.Nat.{ℕ, ◌+◌, ◌≤◌}
use mathlib.Core.Path.{◌≡◌, refl, ap}
use mathlib.Core.Logic.{inl, inr}
use mathlib.Core.Bool.{Bool, true, false}
use mathlib.Core.Option
use mathlib.Core.Option.{Option, none, some, some-injective}
use mathlib.Core.List.{List, [], ◌∷◌, ◌++◌}
use native.Mathlib.Omega.{arith}
use autonomous_ai_software_e.Prelude.Tests.{if◌then◌else◌, Bool-cases, Option-cases}
use autonomous_ai_software_e.Prelude.Lists.{sum_by, All}

module _ {ℓ} {R : Type ℓ} where
  -- `SELECT ... WHERE key`, at most one row.
  unfoldable pub find : (R → Bool) → List R → Option R
  find is [] = none
  find is (r ∷ rs) = if is r then some r else find is rs

  -- The compare-and-set `UPDATE ... SET f WHERE key AND guard`: `none` when no row matched.
  unfoldable pub cas : (R → Bool) → (R → Bool) → (R → R) → List R → Option (List R)
  cas is guard f [] = none
  cas is guard f (r ∷ rs) =
      if is r
      then (if guard r then some (f r ∷ rs) else none)
      else Option.map (λ t. r ∷ t) (cas is guard f rs)

  -- `UPDATE ... SET f WHERE key`, whose row count nobody reads.
  unfoldable pub update : (R → Bool) → (R → R) → List R → List R
  update is f [] = []
  update is f (r ∷ rs) = if is r then f r ∷ rs else r ∷ update is f rs

  -- `UPDATE ... SET f WHERE test` on any number of rows.
  unfoldable pub update_all : (R → Bool) → (R → R) → List R → List R
  update_all test f [] = []
  update_all test f (r ∷ rs) = (if test r then f r else r) ∷ update_all test f rs

  -- A compare-and-set that matches has found a row that passes the guard.
  pub cas-find :
      (is guard : R → Bool) (f : R → R) (rs : List R) {t : List R}
      → cas is guard f rs ≡ some t
      → (r : R) × (find is rs ≡ some r) × (guard r ≡ true)
  unfolding cas find
  cas-find is guard f [] h = cc
  cas-find is guard f (r ∷ rs) h = elim (Bool-cases (is r)) [
    | inl e ↦ (r, rw e, ground arith)
    | inr e ↦ elim (Option-cases (cas is guard f rs)) [
      | inl n ↦ cc (rw (e, n) at h)
      | inr (t', s) ↦ let (q, found, passed) = cas-find is guard f rs s in (q, rw e found, passed)
    ]
  ]

  -- It is then the plain update of that row.
  pub cas-update :
      (is guard : R → Bool) (f : R → R) (rs : List R) {t : List R}
      → cas is guard f rs ≡ some t
      → t ≡ update is f rs
  unfolding cas update
  cas-update is guard f [] h = cc
  cas-update is guard f (r ∷ rs) h = elim (Option-cases (cas is guard f rs)) [
    | inl n ↦ ground arith
    | inr (t', s) ↦ ground (arith, cas-update is guard f rs {t = t'})
  ]

  -- It matches exactly when the row is there and passes the guard.
  pub cas_lem :
      (is guard : R → Bool) (f : R → R) (rs : List R)
      → cas is guard f rs ≡ elim (find is rs) [
        | none ↦ none
        | some r ↦ if guard r then some (update is f rs) else none
      ]
  unfolding cas find update
  cas_lem is guard f [] = refl
  cas_lem is guard f (r ∷ rs) = ground (arith, cas_lem is guard f rs)

  -- What the updated row is found as.
  pub find-update_self :
      (is : R → Bool) (f : R → R) (rs : List R) {r : R}
      → find is rs ≡ some r
      → is (f r) ≡ true
      → find is (update is f rs) ≡ some (f r)
  unfolding find update
  find-update_self is f [] h k = cc
  find-update_self is f (q ∷ rs) {r} h k = ground (arith, find-update_self is f rs {r = r})

  -- Another row is found as it was.
  pub find-update_other :
      (is other : R → Bool) (f : R → R) (rs : List R)
      → ((r : R) → is r ≡ true → (other r ≡ false) × (other (f r) ≡ false))
      → find other (update is f rs) ≡ find other rs
  unfolding find update
  find-update_other is other f [] apart = refl
  find-update_other is other f (r ∷ rs) apart =
      ground (arith, apart r, find-update_other is other f rs apart)

  -- How an update changes a sum over the rows.
  pub sum_by-update :
      (w : R → ℕ) (is : R → Bool) (f : R → R) (rs : List R) {r : R}
      → find is rs ≡ some r
      → sum_by w (update is f rs) + w r ≡ sum_by w rs + w (f r)
  unfolding find update
  sum_by-update w is f [] h = cc
  sum_by-update w is f (q ∷ rs) {r} h = ground (arith, sum_by-update w is f rs {r = r})

  pub sum_by-update_same :
      (w : R → ℕ) (is : R → Bool) (f : R → R) (rs : List R)
      → ((r : R) → w (f r) ≡ w r)
      → sum_by w (update is f rs) ≡ sum_by w rs
  unfolding update
  sum_by-update_same w is f [] same = refl
  sum_by-update_same w is f (r ∷ rs) same =
      ground (arith, same r, sum_by-update_same w is f rs same)

  pub All-find {κ} :
      (P : R → Type κ) (is : R → Bool) (rs : List R) {r : R} → All P rs → find is rs ≡ some r → P r
  unfolding find
  All-find P is [] h e = cc
  All-find P is (q ∷ rs) {r} h e = elim (Bool-cases (is q)) [
    | inl y ↦ let same : some q ≡ some r = rw y at e in rw (← (some-injective q r same)) h.0
    | inr n ↦ All-find P is rs h.1 (rw n at e)
  ]

  pub All-update {κ} :
      (P : R → Type κ) (is : R → Bool) (f : R → R) (rs : List R)
      → All P rs
      → ((r : R) → find is rs ≡ some r → P r → P (f r))
      → All P (update is f rs)
  unfolding find update
  All-update P is f [] h k = h
  All-update P is f (r ∷ rs) h k = elim (Bool-cases (is r)) [
    | inl y ↦ rw y (k r (rw y) h.0, h.1)
    | inr n ↦ rw n (h.0, All-update P is f rs h.1 (λ q e. k q (rw n e)))
  ]

  -- What is found passes the test.
  pub find-passes : (is : R → Bool) (rs : List R) {r : R} → find is rs ≡ some r → is r ≡ true
  unfolding find
  find-passes is [] h = cc
  find-passes is (q ∷ rs) {r} h = ground (arith, find-passes is rs {r = r})

  -- A row that is found counts in every sum.
  pub le-sum_by :
      (w : R → ℕ) (is : R → Bool) (rs : List R) {r : R} → find is rs ≡ some r → w r ≤ sum_by w rs
  unfolding find
  le-sum_by w is [] h = cc
  le-sum_by w is (q ∷ rs) {r} h = ground (arith, le-sum_by w is rs {r = r})

  -- An update that finds no row changes nothing.
  pub update-none :
      (is : R → Bool) (f : R → R) (rs : List R) → find is rs ≡ none → update is f rs ≡ rs
  unfolding find update
  update-none is f [] h = refl
  update-none is f (q ∷ rs) h = ground (arith, update-none is f rs)

  -- `DELETE ... WHERE key`
  unfoldable pub remove : (R → Bool) → List R → List R
  remove is [] = []
  remove is (r ∷ rs) = if is r then rs else r ∷ remove is rs

  pub update-update :
      (is : R → Bool) (f g : R → R) (rs : List R)
      → ((r : R) → is (f r) ≡ is r)
      → update is g (update is f rs) ≡ update is (λ r. g (f r)) rs
  unfolding update
  update-update is f g [] same = refl
  update-update is f g (r ∷ rs) same = ground (arith, same r, update-update is f g rs same)

  -- Two changes that agree on the row that is found.
  pub update-agree :
      (is : R → Bool) (f g : R → R) (rs : List R)
      → ((r : R) → find is rs ≡ some r → f r ≡ g r)
      → update is f rs ≡ update is g rs
  unfolding find update
  update-agree is f g [] same = refl
  update-agree is f g (r ∷ rs) same = elim (Bool-cases (is r)) [
    | inl y ↦ rw y (ap (λ t. t ∷ rs) (same r (rw y)))
    | inr n ↦ rw n (ap (λ t. r ∷ t) (update-agree is f g rs (λ q e. same q (rw n e))))
  ]

  pub sum_by-remove :
      (w : R → ℕ) (is : R → Bool) (rs : List R) {r : R}
      → find is rs ≡ some r
      → sum_by w (remove is rs) + w r ≡ sum_by w rs
  unfolding find remove
  sum_by-remove w is [] h = cc
  sum_by-remove w is (q ∷ rs) {r} h = ground (arith, sum_by-remove w is rs {r = r})

  pub remove-none : (is : R → Bool) (rs : List R) → find is rs ≡ none → remove is rs ≡ rs
  unfolding find remove
  remove-none is [] h = refl
  remove-none is (q ∷ rs) h = ground (arith, remove-none is rs)

  pub All-remove {κ} :
      (P : R → Type κ) (is : R → Bool) (rs : List R) → All P rs → All P (remove is rs)
  unfolding remove
  All-remove P is [] h = h
  All-remove P is (r ∷ rs) h = elim (Bool-cases (is r)) [
    | inl y ↦ rw y h.1
    | inr n ↦ rw n (h.0, All-remove P is rs h.1)
  ]

  pub find-remove_other :
      (is other : R → Bool) (rs : List R)
      → ((r : R) → is r ≡ true → other r ≡ false)
      → find other (remove is rs) ≡ find other rs
  unfolding find remove
  find-remove_other is other [] apart = refl
  find-remove_other is other (r ∷ rs) apart =
      ground (arith, apart r, find-remove_other is other rs apart)

  pub find-append :
      (is : R → Bool) (rs ts : List R)
      → find is (rs ++ ts) ≡ elim (find is rs) [ none ↦ find is ts | some r ↦ some r ]
  unfolding find
  find-append is [] ts = refl
  find-append is (r ∷ rs) ts = ground (arith, find-append is rs ts)

  pub update-same :
      (is : R → Bool) (f : R → R) (rs : List R) {r : R}
      → find is rs ≡ some r
      → f r ≡ r
      → update is f rs ≡ rs
  unfolding find update
  update-same is f [] h e = refl
  update-same is f (q ∷ rs) {r} h e = ground (arith, update-same is f rs {r = r})
