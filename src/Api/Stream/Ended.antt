-- ===== src/Api/Stream/Ended.antt =====
-- The `end` event of the stream of src/autoswe/api/jobs.py.
use mathlib.Core.Option.{some-injective}
use autonomous_ai_software_e.Prelude.{
  ℕ, suc, ap, take, All, ◌≡◌, refl, sym, ◌∙◌, inl, inr, String, Bool, true, false, Option, none,
  some, List, [], ◌∷◌, ◌++◌, map, Bool-cases, &&-elim,
}
use autonomous_ai_software_e.Model.{JobStatus, JobEvent, empty_db, terminal}
use autonomous_ai_software_e.Repository.Statements.{status_of, events_after}
use autonomous_ai_software_e.Validation.Text.{is_empty}
use autonomous_ai_software_e.History.{Reach}
use autonomous_ai_software_e.History.Log.Grows.{log_of, Lasting, Lasting-Grows}
use autonomous_ai_software_e.Api.Stream.{
  Poll, at_events, Frame, event, keep_alive, ended, last_id, is_over, keep_alive_if, generate,
}
use autonomous_ai_software_e.Api.Stream.Complete.{
  sent, sent-over, sent-turn, after, after-append, events_after-eq,
}

-- How the frames end: with the status of an `end` event, if there is one.
abbrev pub end_of : List Frame → Option (Option JobStatus)
end_of [] = none
end_of (ended s ∷ fs) = some s
end_of (event e ∷ fs) = end_of fs
end_of (keep_alive ∷ fs) = end_of fs

end_of-events : (es : List JobEvent) (fs : List Frame) → end_of (map event es ++ fs) ≡ end_of fs
end_of-events [] fs = refl
end_of-events (e ∷ es) fs = end_of-events es fs

end_of-no_events : (es : List JobEvent) → end_of (map event es) ≡ none
end_of-no_events [] = refl
end_of-no_events (e ∷ es) = end_of-no_events es

end_of-turn :
    (es : List JobEvent) (quiet : Bool) (fs : List Frame)
    → end_of (map event es ++ keep_alive_if quiet ++ fs) ≡ end_of fs
unfolding keep_alive_if
end_of-turn [] true fs = refl
end_of-turn [] false fs = refl
end_of-turn (e ∷ es) quiet fs = end_of-turn es quiet fs

last_id-append : (c : ℕ) (es fs : List JobEvent) → last_id c (es ++ fs) ≡ last_id (last_id c es) fs
unfolding last_id
last_id-append c [] fs = refl
last_id-append c (e ∷ es) fs = last_id-append e.id es fs

-- One of the turns.
pub data AnyPoll (P : Poll → Type 0) : List Poll → Type 0 where
  this : {p : Poll} {ps : List Poll} → P p → AnyPoll P (p ∷ ps)
  later : {p : Poll} {ps : List Poll} → AnyPoll P ps → AnyPoll P (p ∷ ps)

-- A turn that has seen that the job had ended, and before which all that was then in its log was sent.
pub record Replayed (k : String) (s : JobStatus) (cursor : ℕ) (p : Poll) : Type 0 where
  pub seen : status_of k p.at_status ≡ some s
  pub over : terminal s ≡ true
  pub nothing : after cursor (log_of k p.at_status) ≡ []

is_empty-eq : (es : List JobEvent) → is_empty es ≡ true → es ≡ []
is_empty-eq [] h = refl
is_empty-eq (e ∷ es) h = cc

-- What happens between the two reads of a turn is transactions, and the job stays there.
abbrev pub Follows : String → Poll → Type 0
Follows k p = Reach empty_db p.at_status × Lasting k p.at_status (at_events p)

take_nothing : (n : ℕ) (es : List JobEvent) → take (suc n) es ≡ [] → es ≡ []
take_nothing n [] h = refl
take_nothing n (e ∷ es) h = cc

append_nothing : (es fs : List JobEvent) → es ++ fs ≡ [] → es ≡ []
append_nothing [] fs h = refl
append_nothing (e ∷ es) fs h = cc

-- When the second read finds no event, there was none at the first.
nothing-before :
    (k : String) (c : ℕ) (p : Poll)
    → Follows k p
    → events_after k c 200 (at_events p) ≡ []
    → after c (log_of k p.at_status) ≡ []
nothing-before k c p (r, l) h =
    let (more, grown) = Lasting-Grows k r l in
    let now = take_nothing 199 _ (sym (events_after-eq k c 200 (at_events p)) ∙ h) in
    append_nothing (after c (log_of k p.at_status)) (after c more)
      (sym (after-append c (log_of k p.at_status) more) ∙ ap (after c) grown ∙ now)

over_events :
    (k : String) (s : JobStatus) (c : ℕ) (p : Poll)
    → is_over (status_of k p.at_status) (events_after k c 200 (at_events p)) ≡ true
    → status_of k p.at_status ≡ some s
    → (terminal s ≡ true) × (events_after k c 200 (at_events p) ≡ [])
unfolding is_over
over_events k s c p y e =
    let (done, left) =
      &&-elim (terminal s) (is_empty (events_after k c 200 (at_events p))) (rw e at y) in
    (done, is_empty-eq _ left)

end_of-over :
    (es : List JobEvent) (s : Option JobStatus) → end_of (map event es ++ ended s ∷ []) ≡ some s
end_of-over [] s = refl
end_of-over (e ∷ es) s = end_of-over es s

-- A stream that ends with a status had nothing left to send when it read that status: if what
-- happens between the two reads of each turn is transactions that leave the job there, one turn has
-- read that the job had ended with that status, and the log of the job, as it was when the status
-- was read, held nothing beyond the last event that the stream has sent.
pub generate-Ended :
    (k : String) (s : JobStatus) (cursor : ℕ) (ps : List Poll)
    → All (Follows k) ps
    → end_of (generate k cursor ps) ≡ some (some s)
    → AnyPoll (Replayed k s (last_id cursor (sent (generate k cursor ps)))) ps
unfolding generate last_id
generate-Ended k s c [] f h = cc
generate-Ended k s c (p ∷ ps) f h =
    let events = events_after k c 200 (at_events p) in
    let status = status_of k p.at_status in
    let frames = generate k (last_id c events) ps in
    elim (Bool-cases (is_over status events)) [
      | inl y ↦
          let same =
            some-injective status (some s)
              (sym (end_of-over events status) ∙ rw (y, generate) at h) in
          let (done, none_left) = over_events k s c p y same in
          let replayed : Replayed k s c p = record {
            seen = same;
            over = done;
            nothing = nothing-before k c p f.0 none_left;
          } in
          this (rw (y, generate) (rw (sent-over events status) (rw none_left replayed)))
      | inr m ↦ elim (Bool-cases p.disconnected) [
        | inl d ↦
            let cut : end_of (map event events) ≡ some (some s) = rw (m, d, generate) at h in
            cc (end_of-no_events events, cut)
        | inr d ↦
            let more = sym (end_of-turn events p.quiet frames) ∙ rw (m, d, generate) at h in
            later (
              rw (m, d, generate)
                (rw (sent-turn events p.quiet frames, last_id-append c events (sent frames))
                  (generate-Ended k s (last_id c events) ps f.1 more)))
      ]
    ]
