-- ===== src/Cycle/Driver.antt =====
-- internal/cycle/cycle.go and bound.go: `Driver.Run` and `finishAtBound`. The legs, the context load
-- and the pairing check are parameters that act on a world.
pub mod Guards
pub mod Safety
pub mod Counts
mod Tests
use crossrev.Prelude.{
  ℕ, zero, suc, String, Bool, true, false, not, ◌&&◌, Option, none, some, List, [], ◌∷◌, Result, ok,
  err, ◌==◌, ◌!=◌, nat_Eq, text_Eq, leb, if◌then◌else◌,
}
use crossrev.Prelude.Text.{itoa, ◌++◌}
use crossrev.Core.Revision.{Slug, slug_text}
use crossrev.Core.Pass.{leg_review, leg_resolve, pass_started, pass_complete}
use crossrev.State.Marker.{Marker}
use crossrev.State.Passes.{marker_for, or_zero, current_review_pass, current_pass_complete}
use crossrev.Cycle.Readings.{
  State, ReviewReading, review_continues, review_halted, review_finished, ResolveReading,
  resolve_continues, resolve_halted, resolve_converged, read_review, read_resolve,
}
use crossrev.Cycle.Requests.{
  trigger_human, trigger_automatic, Request, LegRequest, LoadRequest, FatalError, Driver, Event,
  loaded, review_ran, resolve_ran, said, ended, nudged, Stopped, Trace, stop, tell, leg_request,
  reload, reload_loaded, first_load, pull_request,
}

unfoldable pub cap_without_starting : ℕ → State → String
cap_without_starting max state =
    "Reached max_passes_per_cycle ("
    ++ itoa max
    ++ ") on "
    ++ pull_request state
    ++ " without starting another pass."

-- The tip, unless the request asks for none.
abbrev pub tip : Request → Trace
tip req = if req.no_tips then stop 0 none else tell nudged (stop 0 none)

abbrev pub after_review : Bool → Request → ReviewReading → Trace → Trace
after_review tips req review_continues rest = rest
after_review tips req (review_halted line) rest = tell (ended line) (stop 0 none)
after_review tips req (review_finished line) rest =
    tell (ended line) (if tips then tip req else stop 0 none)

abbrev pub after_resolve : Bool → Request → ResolveReading → Trace → Trace
after_resolve tips req resolve_continues rest = rest
after_resolve tips req (resolve_halted line) rest = tell (ended line) (stop 0 none)
after_resolve tips req (resolve_converged line) rest =
    tell (ended line) (if tips then tip req else stop 0 none)

module _ {W : Type 0} (d : Driver W) where
  abbrev pub after_load : Result FatalError State × W → (State → W → Trace) → Trace
  after_load (err e, w) next = stop 1 (some e)
  after_load (ok state, w) next = tell (loaded state) (next state w)

  abbrev pub load_then : LoadRequest → W → (State → W → Trace) → Trace
  load_then req w next = after_load (d.load req w) next

  abbrev pub after_leg : Bool × W → (W → Trace) → Trace
  after_leg (true, w) next = stop 1 none
  after_leg (false, w) next = next w

  abbrev pub review_then : LegRequest → W → (W → Trace) → Trace
  review_then leg w next = tell (review_ran leg) (after_leg (d.review leg w) next)

  abbrev pub resolve_then : LegRequest → W → (W → Trace) → Trace
  resolve_then leg w next = tell (resolve_ran leg) (after_leg (d.resolve leg w) next)

  -- What comes before a pass: nothing before the first, a load and the bound before each other.
  pub start_pass : Bool → Request → ℕ → State → W → (State → W → Trace) → Trace
  start_pass true req max state w next = next state w
  start_pass false req max state w next = load_then (reload req) w (λ state w.
      if leb max (current_review_pass state.markers)
      then tell (ended (cap_without_starting max state)) (stop 0 none)
      else next state w)

  -- The loop, with the passes that are left of `max`.
  pub rounds : Request → ℕ → ℕ → Bool → State → W → Trace
  unfolding start_pass
  rounds req max zero first state w =
      tell
        (ended (
          "Reached max_passes_per_cycle ("
          ++ itoa max
          ++ ") on "
          ++ pull_request state
          ++ " without converging. Every finding and reply is on the pull request."))
        (tip req)
  rounds req max (suc left) first state w = start_pass first req max state w (λ state w.
      review_then (leg_request req (not first)) w (λ w. load_then (reload req) w (λ state w.
        let pass = current_review_pass state.markers in
        after_review true req (read_review state pass) (
          resolve_then (leg_request req false) w (λ w. load_then (reload req) w (λ state w.
            after_resolve true req (read_resolve state pass)
              (rounds req max left false state w)))))))

  -- The second half of `finishAtBound`: the resolve leg that the pass is owed.
  pub finish_resolve : Request → ℕ → ℕ → State → W → Trace
  finish_resolve req max pass state w = after_review false req (read_review state pass) (
      if current_pass_complete state.markers pass leg_resolve
      then tell (ended (cap_without_starting max state)) (stop 0 none)
      else tell
          (said (
            "Pass "
            ++ itoa pass
            ++ " is unfinished, and max_passes_per_cycle ("
            ++ itoa max
            ++ ") starts no further pass. Its resolve leg is still owed."))
          (resolve_then (leg_request req false) w (λ w.
            load_then (reload_loaded state) w (λ state w.
              after_resolve false req (read_resolve state pass) (
                tell
                  (ended (
                    "Reached max_passes_per_cycle ("
                    ++ itoa max
                    ++ ") on "
                    ++ pull_request state
                    ++ " — pass "
                    ++ itoa pass
                    ++ " is resolved, and no further pass starts."))
                  (stop 0 none))))))

  pub finish_at_bound : Request → ℕ → ℕ → State → W → Trace
  unfolding finish_resolve
  finish_at_bound req max pass state w =
      let marker = or_zero (marker_for state.markers pass leg_review) in
      if marker.state != pass_complete
      then tell
          (said (
            "Pass "
            ++ itoa pass
            ++ " is unfinished, and max_passes_per_cycle ("
            ++ itoa max
            ++ ") starts no further pass. Resuming its review."))
          (review_then (leg_request req (marker.state != pass_started)) w (λ w.
            load_then (reload_loaded state) w (λ state w.
              let pass = current_review_pass state.markers in
              if (or_zero (marker_for state.markers pass leg_review)).state != pass_complete
              then tell
                  (ended (
                    "Stopped on pass "
                    ++ itoa pass
                    ++ " of "
                    ++ pull_request state
                    ++ " — the review leg did not finish, so no resolve leg follows it."))
                  (stop 0 none)
              else finish_resolve req max pass state w)))
      else finish_resolve req max pass state w

  abbrev pub pairing_refusal : Request → Option FatalError
  pairing_refusal req = elim d.pairing [ none ↦ none | some check ↦ check req.harness_override ]

  pub begin : Request → State → W → Trace
  unfolding rounds finish_at_bound
  begin req state w =
      let max = state.max_passes_per_cycle in
      let pass = current_review_pass state.markers in
      tell
        (said (
          "Cycling "
          ++ pull_request state
          ++ ", up to "
          ++ itoa max
          ++ " passes. Ctrl-C is safe — each leg finishes the write in flight."))
        (if leb max pass
          then finish_at_bound req max pass state w
          else rounds req max max true state w)

  -- What follows the first load.
  abbrev pub start : Request → State → W → Trace
  start req state w =
      if state.draft
      then tell
          (said (
            pull_request state
            ++ " is a draft pull request, so an automatic invocation does not run on it."))
          (tell (said "Mark it ready for review, or run the leg yourself.") (stop 0 none))
      else elim (pairing_refusal req) [
        | some refusal ↦ stop 1 (some refusal)
        | none ↦ begin req state w
      ]

  unfoldable pub run : Request → W → Trace
  unfolding begin
  run req w =
      if req.pr == 0
      then stop 1 (
          some (record {
            reason = "crossrev cycle needs a pull request number";
            action = "Usage: crossrev cycle --pr 42";
          }))
      else if req.trigger != trigger_human && req.trigger != trigger_automatic
      then stop 1 (
          some (record {
            reason = "unknown cycle trigger: " ++ req.trigger;
            action = "Use --trigger human or --trigger automatic.";
          }))
      else load_then (first_load req) w (λ state w. start req state w)
