-- ===== src/Cycle/Watchdog.antt =====
-- internal/cycle/watchdog.go: the sweep that looks for legs that never finished, without the lines
-- that it prints. A write to the forge answers an error or none; the times of the trusted markers of
-- a pull request, the clock and the timeout are parameters. Times are seconds; a marker of the future
-- has age 0.
pub mod Ends
pub mod Events
pub mod Retries
pub mod Sums
mod Tests
use crossrev.Prelude.{
  ℕ, zero, ◌+◌, ◌-◌, String, Bool, true, false, Option, none, some, List, [], ◌∷◌, ◌==◌, nat_Eq,
  text_Eq, ltb, any, if◌then◌else◌,
}
use crossrev.Prelude.Bytes.{codes, cut}
use crossrev.Core.Pass.{leg_review, leg_resolve}
use crossrev.Policy.Labels.{
  label_stop, label_halted, label_watchdog_retried, label_awaiting_resolution, awaiting_label,
}
use crossrev.Policy.Guards.{join_words}
use crossrev.Cycle.Requests.{FatalError}

pub record Waiting : Type 0 where
  pub pr : ℕ
  pub labels : List String
  pub head_sha : String
  pub draft : Bool

pub record Summary : Type 0 where
  pub checked : ℕ
  pub retried : ℕ
  pub halted : ℕ
  pub drafts : ℕ

-- A write to the forge.
pub data Call : Type 0 where
  ensure : String → Call
  add remove : ℕ → String → Call
  comment : ℕ → Call

-- What a sweep wrote, in order, its counters, and the error that stopped it.
pub record Sweep : Type 0 where
  pub calls : List Call
  pub summary : Summary
  pub error : Option FatalError

abbrev pub done : Summary → Sweep
done summary = record { calls = []; summary = summary; error = none }

abbrev pub refuse : Summary → FatalError → Sweep
refuse summary e = record { calls = []; summary = summary; error = some e }

abbrev pub wrote : Call → Sweep → Sweep
wrote c s = record s { calls = c ∷ s.calls }

-- A write whose error stops the sweep.
abbrev pub wrote_unless : Call → Summary → Option FatalError → Sweep → Sweep
wrote_unless c summary none rest = wrote c rest
wrote_unless c summary (some e) rest = wrote c (refuse summary e)

-- `watchdogHasLabel`.
unfoldable pub has_label : List String → String → Bool
has_label labels want = any (λ label. label == want) labels

abbrev found : {A : Type 0} → Option A → Bool
found none = false
found (some a) = true

-- The leg whose label the pull request waits behind: the name is looked for in the joined labels.
unfoldable pub waiting_leg : List String → String
waiting_leg labels =
    if found (cut (codes label_awaiting_resolution) (codes (join_words labels)))
    then leg_resolve
    else leg_review

-- The timeout in force, in seconds.
abbrev pub in_force : ℕ → ℕ
in_force timeout = if timeout == 0 then 1800 else timeout

module _ (failure : Call → Option FatalError) where
  -- `rest` is the sweep after this pull request, from its counters on.
  pub retry : Waiting → String → Summary → (Summary → Sweep) → Sweep
  unfolding has_label
  retry pr leg summary rest =
      let label = awaiting_label leg in
      let halting = add pr.pr label_halted in
      let marking = add pr.pr label_watchdog_retried in
      let firing = add pr.pr label in
      let halted = wrote (remove pr.pr label) (
        wrote (ensure label_halted) (
          wrote_unless halting summary (failure halting) (
            wrote_unless (comment pr.pr) summary (failure (comment pr.pr))
              (rest (record summary { halted = summary.halted + 1 }))))) in
      let retried = wrote (ensure label_watchdog_retried) (
        wrote_unless marking summary (failure marking) (
          wrote (remove pr.pr label) (
            wrote_unless firing summary (failure firing)
              (rest (record summary { retried = summary.retried + 1 }))))) in
      if has_label pr.labels label_watchdog_retried then halted else retried

  module _ (marker_times : ℕ → List ℕ) (timeout now : ℕ) (timeout_refusal : Option FatalError) where
    abbrev pub last_time : ℕ → List ℕ → ℕ
    last_time t [] = t
    last_time t (u ∷ us) = last_time u us

    -- A pull request with markers: the age is that of the newest.
    pub judge_age : Waiting → String → Summary → ℕ → Option FatalError → (Summary → Sweep) → Sweep
    judge_age pr leg summary time (some e) rest = refuse summary e
    judge_age pr leg summary time none rest =
        if ltb (now - time) (in_force timeout) then rest summary else retry pr leg summary rest

    pub judge_markers : Waiting → String → Summary → List ℕ → (Summary → Sweep) → Sweep
    unfolding judge_age
    judge_markers pr leg summary [] rest = retry pr leg summary rest
    judge_markers pr leg summary (t ∷ ts) rest =
        judge_age pr leg summary (last_time t ts) timeout_refusal rest

    pub sweep : Summary → List Waiting → Sweep
    unfolding judge_markers
    sweep summary [] = done summary
    sweep summary (pr ∷ prs) =
        let checked = record summary { checked = summary.checked + 1 } in
        let judged =
          judge_markers pr (waiting_leg pr.labels) checked (marker_times pr.pr)
            (λ s. sweep s prs) in
        let drafted = sweep (record checked { drafts = checked.drafts + 1 }) prs in
        let stopped = sweep checked prs in
        if has_label pr.labels label_stop then stopped else if pr.draft then drafted else judged

    -- `Watchdog.Run`.
    unfoldable pub watch : String → List Waiting → Sweep
    unfolding sweep
    watch author waiting =
        if author == ""
        then refuse (record { checked = 0; retried = 0; halted = 0; drafts = 0 })
            (record {
              reason = "cannot determine which App's markers to trust";
              action =
                  "Automated mode reads markers only from the App that writes them. In a workflow, set CROSSREV_APP_SLUG from the token step's app-slug output. Locally, run: crossrev auth status";
            })
        else sweep (record { checked = 0; retried = 0; halted = 0; drafts = 0 }) waiting
