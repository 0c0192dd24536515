-- ===== src/Api/Stream/Complete.antt =====
-- What the event stream of src/autoswe/api/jobs.py sends.
use mathlib.Core.Path.{subst}
use autonomous_ai_software_e.Prelude.{
  ℕ, zero, suc, ◌<◌, ◌≤◌, ◌≡◌, refl, sym, ap, ◌∙◌, inl, inr, String, Bool, true, false, ◌&&◌,
  Option, List, [], ◌∷◌, ◌++◌, arith, ltb, str_eq, keep_if, take, map, All, All-map, Bool-cases,
}
use autonomous_ai_software_e.Model.{JobStatus, JobEvent, Db, empty_db}
use autonomous_ai_software_e.Repository.Statements.{status_of, events_after}
use autonomous_ai_software_e.History.Log.Grows.{
  log_of, Ascending, Grows, append_assoc, Reach-Ascending, Lasting, Lasting-Grows,
}
use autonomous_ai_software_e.History.{Reach}
use autonomous_ai_software_e.Api.Stream.{
  Poll, at_events, Frame, event, keep_alive, ended, last_id, is_over, keep_alive_if, generate,
}

-- The events among the frames.
abbrev pub sent : List Frame → List JobEvent
sent [] = []
sent (event e ∷ fs) = e ∷ sent fs
sent (keep_alive ∷ fs) = sent fs
sent (ended s ∷ fs) = sent fs

-- What of a log stands after a number.
abbrev pub after : ℕ → List JobEvent → List JobEvent
after cursor log = keep_if (λ e. ltb cursor e.id) log

pub sent-map : (es : List JobEvent) → sent (map event es) ≡ es
sent-map [] = refl
sent-map (e ∷ es) = ap (λ (t : List JobEvent). e ∷ t) (sent-map es)

pub sent-over :
    (es : List JobEvent) (s : Option JobStatus) → sent (map event es ++ ended s ∷ []) ≡ es
sent-over [] s = refl
sent-over (e ∷ es) s = ap (λ (t : List JobEvent). e ∷ t) (sent-over es s)

pub sent-turn :
    (es : List JobEvent) (quiet : Bool) (fs : List Frame)
    → sent (map event es ++ keep_alive_if quiet ++ fs) ≡ es ++ sent fs
unfolding keep_alive_if
sent-turn [] true fs = refl
sent-turn [] false fs = refl
sent-turn (e ∷ es) quiet fs = ap (λ (t : List JobEvent). e ∷ t) (sent-turn es quiet fs)

pub after-append : (c : ℕ) (xs ys : List JobEvent) → after c (xs ++ ys) ≡ after c xs ++ after c ys
after-append c [] ys = refl
after-append c (x ∷ xs) ys = ground (arith, after-append c xs ys)

take-append : (n : ℕ) (xs : List JobEvent) → (rest : List JobEvent) × (take n xs ++ rest ≡ xs)
take-append zero xs = (xs, refl)
take-append (suc n) [] = ([], refl)
take-append (suc n) (x ∷ xs) =
    let (rest, e) = take-append n xs in (rest, ap (λ (t : List JobEvent). x ∷ t) e)

pub events_after-eq :
    (k : String) (c n : ℕ) (db : Db) → events_after k c n db ≡ take n (after c (log_of k db))
unfolding events_after
events_after-eq k c n db = ap (take n) (both db.events)
  where
    both :
        (es : List JobEvent)
        → keep_if (λ e. str_eq e.job_id k && ltb c e.id) es
          ≡ after c (keep_if (λ e. str_eq e.job_id k) es)
    both [] = refl
    both (e ∷ es) = ground (arith, both es)

-- Of an ascending log, what is above a number that is no larger than its first is all of it.
after_all : (c n : ℕ) (xs : List JobEvent) → c ≤ n → Ascending n xs → after c xs ≡ xs
after_all c n [] h o = refl
after_all c n (x ∷ xs) h o = ground (arith, o.0, after_all c x.id xs (omega (arith, o.0)) o.1)

after-head :
    (c n : ℕ) (xs : List JobEvent) {e : JobEvent} {ys : List JobEvent}
    → Ascending n xs
    → after c xs ≡ e ∷ ys
    → n < e.id
after-head c n [] o h = cc
after-head c n (x ∷ xs) {e} {ys} o h = elim (Bool-cases (ltb c x.id)) [
  | inl y ↦ let same : x ∷ after c xs ≡ e ∷ ys = rw y at h in rw (← ∷-head same) o.0
  | inr m ↦ omega (arith, o.0, after-head c x.id xs {e = e} {ys = ys} o.1 (rw m at h))
]
  where
    ∷-head : {x e : JobEvent} {xs ys : List JobEvent} → x ∷ xs ≡ e ∷ ys → x ≡ e
    ∷-head h = cc

-- What stands after the first of the events that are left.
after-next :
    (c n : ℕ) (xs : List JobEvent) {e : JobEvent} {ys : List JobEvent}
    → Ascending n xs
    → after c xs ≡ e ∷ ys
    → after e.id xs ≡ ys
after-next c n [] o h = cc
after-next c n (x ∷ xs) {e} {ys} o h = elim (Bool-cases (ltb c x.id)) [
  | inl y ↦
      let same : x ∷ after c xs ≡ e ∷ ys = rw y at h in
      let head : x ≡ e = cc same in
      let tail : after c xs ≡ ys = cc same in
      let self : ltb x.id x.id ≡ false = ground arith in
      subst (λ (i : JobEvent). after i.id (x ∷ xs) ≡ ys) head
        (rw self (
          after_all x.id x.id xs (omega arith) o.1
          ∙ sym (after_all c x.id xs (ground arith) o.1)
          ∙ tail))
  | inr m ↦
      let rest : after c xs ≡ e ∷ ys = rw m at h in
      let over : ltb e.id x.id ≡ false = ground (arith, after-head c x.id xs {e = e} o.1 rest) in
      rw over (after-next c x.id xs {e = e} {ys = ys} o.1 rest)
]

-- What stands after the last of the events that were taken.
after-last_id :
    (c : ℕ) (xs pre rest : List JobEvent)
    → Ascending 0 xs
    → pre ++ rest ≡ after c xs
    → after (last_id c pre) xs ≡ rest
unfolding last_id
after-last_id c xs [] rest o h = sym h
after-last_id c xs (e ∷ pre) rest o h =
    after-last_id e.id xs pre rest o (sym (after-next c 0 xs {e = e} {ys = pre ++ rest} o (sym h)))

module _ (k : String) (last : Db) (order : Ascending 0 (log_of k last)) where
  abbrev whole : ℕ → List JobEvent
  whole c = after c (log_of k last)

  -- One turn's events are the next of the final log.
  turn :
      (c : ℕ) (db : Db)
      → Grows k db last
      → (rest : List JobEvent) × (events_after k c 200 db ++ rest ≡ whole c)
  turn c db (more, grown) =
      let (left, e) = take-append 200 (after c (log_of k db)) in
      (
        left ++ after c more,
        rw (events_after-eq k c 200 db) (
            sym (append_assoc (take 200 (after c (log_of k db))) left (after c more))
            ∙ ap (λ (t : List JobEvent). t ++ after c more) e
            ∙ sym (after-append c (log_of k db) more)
            ∙ ap (after c) grown),
      )

  generate-prefix :
      (c : ℕ) (ps : List Poll)
      → All (λ p. Grows k (at_events p) last) ps
      → (rest : List JobEvent) × (sent (generate k c ps) ++ rest ≡ whole c)
  unfolding generate
  generate-prefix c [] h = (whole c, refl)
  generate-prefix c (p ∷ ps) h =
      let events = events_after k c 200 (at_events p) in
      let status = status_of k p.at_status in
      let (left, e) = turn c (at_events p) h.0 in
      let (rest, f) = generate-prefix (last_id c events) ps h.1 in
      elim (Bool-cases (is_over status events)) [
        | inl y ↦ (left, rw (y, generate) (rw (sent-over events status) e))
        | inr m ↦ elim (Bool-cases p.disconnected) [
          | inl d ↦ (left, rw (m, d, generate) (rw (sent-map events) e))
          | inr d ↦ (
            rest,
            rw (m, d, generate)
                (goes_on events (generate k (last_id c events) ps) p.quiet c left rest e
                  (f ∙ after-last_id c (log_of k last) events left order e)),
          )
        ]
      ]
    where
      goes_on :
          (events : List JobEvent) (frames : List Frame) (quiet : Bool) (c : ℕ)
          (left rest : List JobEvent)
          → events ++ left ≡ whole c
          → sent frames ++ rest ≡ left
          → sent (map event events ++ keep_alive_if quiet ++ frames) ++ rest ≡ whole c
      goes_on events frames quiet c left rest e f =
          rw (sent-turn events quiet frames)
            (append_assoc events (sent frames) rest ∙ ap (λ (t : List JobEvent). events ++ t) f ∙ e)

  generate-whole :
      (cursor : ℕ) (ps : List Poll)
      → All (λ p. Grows k (at_events p) last) ps
      → sent (generate k cursor ps)
          ++ after (last_id cursor (sent (generate k cursor ps))) (log_of k last)
        ≡ after cursor (log_of k last)
  generate-whole cursor ps h =
      let (rest, e) = generate-prefix cursor ps h in
      rw (after-last_id cursor (log_of k last) (sent (generate k cursor ps)) rest order e) e

-- After any history, in which the events are numbered in the order in which their transactions
-- commit, and while the job stays there whatever else happens between the turns, the events that a
-- stream has sent, and then those of the log that stand after the last one sent, are the log after
-- the cursor: the stream sends the events from its cursor on in their order, each once and none left
-- out, and a client that resumes after the last one that it has received misses nothing.
pub generate-Complete :
    (k : String) (last : Db) (cursor : ℕ) (ps : List Poll)
    → Reach empty_db last
    → All (λ p. Reach empty_db (at_events p) × Lasting k (at_events p) last) ps
    → sent (generate k cursor ps)
        ++ after (last_id cursor (sent (generate k cursor ps))) (log_of k last)
      ≡ after cursor (log_of k last)
generate-Complete k last cursor ps r h = generate-whole k last (Reach-Ascending k r) cursor ps (
    All-map (λ p. Reach empty_db (at_events p) × Lasting k (at_events p) last)
      (λ p. Grows k (at_events p) last) ps (λ p q. Lasting-Grows k q.0 q.1) h)
