-- ===== src/Cycle/Restart.antt =====
-- internal/cycle/restart.go: `crossrev restart`, which puts a halted pull request back to the leg that
-- halted, without the line that it prints. The reads of the repository, the pull request, the
-- configuration and the trusted markers are parameters: each gives what it read or its error.
pub mod Guards
pub mod Rewrites
mod Tests
use crossrev.Prelude.{
  ◌-◌, ℕ, ◌+◌, String, Bool, true, false, not, ◌&&◌, Option, none, some, List, [], ◌∷◌, ◌++◌, map,
  ◌==◌, ◌!=◌, leb, nat_Eq, text_Eq, ltb, Result, ok, err, if◌then◌else◌,
}
use crossrev.Prelude.Bytes.{Bytes, codes}
use crossrev.Prelude.Scan.{bytes_Eq}
use crossrev.Prelude.Text.{itoa, ◌++◌ as append}
use crossrev.Core.Pass.{leg_review, leg_resolve, pass_complete, pass_started, pass_incomplete}
use crossrev.Core.Revision.{Slug, slug_text, slug_incomplete}
use crossrev.Core.Status.{verdict_blocked, verdict_converged}
use crossrev.Policy.Labels.{
  label_stop, label_halted, label_converged, label_awaiting_resolution, label_awaiting_review,
  label_watchdog_retried, awaiting_label, pass_halted,
}
use crossrev.State.Opt.{value}
use crossrev.State.Marker.{Marker}
use crossrev.State.Passes.{current_review_pass, marker_for}
use crossrev.Cycle.Requests.{FatalError}
use crossrev.Cycle.Status.{
  StatusInput, status_has_label, status_markers_escalated, settled_label, is_declined,
}
use crossrev.Cycle.Watchdog.{Call, add, remove}

abbrev blocked_review : Option Marker → Bool
blocked_review none = false
blocked_review (some m) = m.state == pass_complete && value "" m.verdict == verdict_blocked

-- A complete review whose findings no resolve leg answered.
abbrev unanswered : Option Marker → Option Marker → Bool
unanswered none resolve = false
unanswered (some m) none =
    m.state == pass_complete
    && value "" m.verdict != verdict_blocked
    && value "" m.verdict != verdict_converged
unanswered (some m) (some resolve) = false

abbrev halted_resolve : StatusInput → Option Marker → Bool
halted_resolve input none = false
halted_resolve input (some m) = m.state == pass_complete && settled_label input m == pass_halted

-- The leg of the newest marker, where that is an open claim.
abbrev open_leg : Option Marker → String
open_leg none = leg_review
open_leg (some m) =
    if m.state == pass_started
    then m.leg
    else if m.state == pass_incomplete
    then m.leg
    else leg_review

abbrev newest : Option Marker → List Marker → Option Marker
newest o [] = o
newest o (m ∷ ms) = newest (some m) ms

-- `restartLeg`, on the markers of the input.
unfoldable pub restart_leg : StatusInput → String
restart_leg input =
    let pass = current_review_pass input.markers in
    let review = marker_for input.markers pass leg_review in
    let resolve = marker_for input.markers pass leg_resolve in
    if is_declined (marker_for input.markers (pass + 1) leg_review)
    then leg_review
    else if ltb 0 (status_markers_escalated input input.markers)
    then leg_review
    else if halted_resolve input resolve
    then leg_resolve
    else if blocked_review review
    then leg_review
    else if unanswered review resolve
    then leg_resolve
    else open_leg (newest none input.markers)

-- What a restart wrote, in order, and the error that stopped it.
pub record Restarted : Type 0 where
  pub calls : List Call
  pub error : Option FatalError

pub record Pull : Type 0 where
  pub state : Bytes
  pub labels : List String

abbrev refused : String → String → Restarted
refused reason action = record {
  calls = [];
  error = some (record { reason = reason; action = action });
}

upper : ℕ → ℕ
upper c = if leb b'a' c && leb c b'z' then c - 32 else c

-- `strings.EqualFold(state, "OPEN")`: no letter of the word folds to one outside ASCII.
unfoldable pub is_open : Bytes → Bool
unfolding upper
is_open state = map upper state == codes "OPEN"

-- `%s#%d`.
abbrev pub named_pull : Slug → ℕ → String
named_pull repo pr = append (slug_text repo) (append "#" (itoa pr))

unfoldable pub restart_not_halted : Slug → ℕ → List String → Restarted
unfolding status_has_label
restart_not_halted repo pr labels =
    let is_not = λ (why : String). append (named_pull repo pr) (append " is not halted — " why) in
    if status_has_label labels label_awaiting_review
    then refused (is_not "it is awaiting review") (append "Run: crossrev review --pr " (itoa pr))
    else if status_has_label labels label_awaiting_resolution
    then refused (is_not "it is awaiting resolution")
        (append "Run: crossrev resolve --pr " (itoa pr))
    else if status_has_label labels label_converged
    then refused (is_not "it has converged") (
        append "There is nothing to restart. Run `crossrev status --pr "
          (append (itoa pr) "` to see its state."))
    else refused (is_not "it has no CrossRev loop state yet")
        (append "Run: crossrev status --pr " (itoa pr))

-- The writes, where `failure` is the answer of the forge to a label that is added.
pub rewrite : (Call → Option FatalError) → ℕ → List String → String → Restarted
unfolding status_has_label
rewrite failure pr labels leg =
    let awaiting = awaiting_label leg in
    let before = if status_has_label labels awaiting then remove pr awaiting ∷ [] else [] in
    let after =
      if status_has_label labels label_watchdog_retried
      then remove pr label_watchdog_retried ∷ []
      else [] in
    elim (failure (add pr awaiting)) [
      | some e ↦ record { calls = before ++ add pr awaiting ∷ []; error = some e }
      | none ↦ record {
        calls = before ++ add pr awaiting ∷ remove pr label_halted ∷ after;
        error = none;
      }
    ]

module _ (failure : Call → Option FatalError) (repo_slug : Option Slug)
    (pull_request : Slug → ℕ → Option Pull)
    (input : Slug → ℕ → Pull → Result FatalError StatusInput) where
  pub restart_from : Slug → ℕ → Pull → Result FatalError StatusInput → Restarted
  unfolding restart_leg rewrite
  restart_from repo pr pull (err e) = record { calls = []; error = some e }
  restart_from repo pr pull (ok read) = rewrite failure pr pull.labels (restart_leg read)

  pub restart_pull : Slug → ℕ → Option Pull → Restarted
  unfolding restart_from restart_not_halted is_open status_has_label slug_text
  restart_pull repo pr none =
      refused (append "could not read " (named_pull repo pr))
        "Check the number, and that `gh auth status` passes for that repository."
  restart_pull repo pr (some pull) =
      if not (is_open pull.state)
      then refused (append (named_pull repo pr) " is not open")
          "crossrev only runs on open pull requests. Reopen it, or pick another number."
      else if status_has_label pull.labels label_stop
      then refused
          (if status_has_label pull.labels label_halted
            then append (named_pull repo pr) " is halted, but it also carries crossrev/stop"
            else append (named_pull repo pr) " carries crossrev/stop")
          (append
            "crossrev/stop is the human brake, and no command clears it. Remove it by hand once the loop should run again: gh pr edit "
            (append (itoa pr) " --remove-label crossrev/stop"))
      else if not (status_has_label pull.labels label_halted)
      then restart_not_halted repo pr pull.labels
      else restart_from repo pr pull (input repo pr pull)

  pub restart_repo : ℕ → Option Slug → Restarted
  unfolding restart_pull
  restart_repo pr none =
      refused "could not work out which repository this is"
        "Run crossrev from a checkout with a GitHub remote, or pass --repo owner/name."
  restart_repo pr (some repo) = restart_pull repo pr (pull_request repo pr)

  -- `Restart.Run`.
  unfoldable pub restart : Slug → ℕ → Restarted
  unfolding restart_repo
  restart repo pr = restart_repo pr (if slug_incomplete repo then repo_slug else some repo)
