-- ===== src/Cycle/Readings/Decisions.antt =====
-- When a reading ends the cycle, and how.
use crossrev.Prelude.{
  ap, sym, ◌∙◌, ℕ, ◌<◌, ◌⊎◌, ◌↔◌, ◌≢◌, String, true, false, Option, none, some, List, ◌≡◌, refl,
  nat_Eq, text_Eq, arith, eq_iff,
}
use mathlib.Core.Bool.{false≢true}
use crossrev.Core.Pass.{leg_review, leg_resolve, pass_complete}
use crossrev.Core.Status.{verdict_blocked, verdict_converged}
use crossrev.Policy.Labels.{pass_converged, pass_halted, pass_awaiting_review, resolve_pass_label}
use crossrev.State.Opt.{value}
use crossrev.State.Marker.{Marker}
use crossrev.State.Passes.{marker_for, or_zero, marker_converges}
use crossrev.Cycle.Readings.{
  State, review_continues, resolve_converged, read_review, read_resolve, decide_review, verdict_of,
  actionable_count, escalated_count, has_stop, resolve_label, review_supports, as_policy_resolve,
}

abbrev pub review_of : State → ℕ → Marker
review_of state pass = or_zero (marker_for state.markers pass leg_review)

converged-ne-blocked : verdict_converged ≢ verdict_blocked
converged-ne-blocked = ground (arith, eq_iff verdict_converged verdict_blocked)

word-ne :
    (pass_halted ≢ pass_converged) × ("" ≢ pass_converged) × (pass_awaiting_review ≢ pass_converged)
word-ne = ground (
  arith,
  eq_iff pass_halted pass_converged,
  eq_iff "" pass_converged,
  eq_iff pass_awaiting_review pass_converged,
)

-- A review pass goes on to its resolve leg exactly where the reviewer finished and either reported
-- issues of which some are actionable, or reported convergence on a marker that cannot support it.
pub read_review-continues_iff :
    (state : State) (pass : ℕ)
    → let m = review_of state pass in
      (read_review state pass ≡ review_continues) ↔ (
        (verdict_of m ≢ verdict_blocked)
        × (((verdict_of m ≢ verdict_converged)
              × (0 < actionable_count m.findings state.min_fix_severity))
            ⊎ ((verdict_of m ≡ verdict_converged) × (marker_converges m ≡ false))))
unfolding read_review decide_review
read_review-continues_iff state pass =
    let m = review_of state pass in
    ground (
      arith,
      eq_iff (verdict_of m) verdict_blocked,
      eq_iff (verdict_of m) verdict_converged,
      converged-ne-blocked,
    )

converged_after-settled :
    (state : State) (m : Marker)
    → resolve_label state.markers (some m) ≡ pass_converged
    → (m.state ≡ pass_complete) × (value "" m.commit_sha ≡ "") × (escalated_count state.markers ≡ 0)
unfolding resolve_label resolve_pass_label as_policy_resolve
converged_after-settled state m e =
    ground (arith, e, eq_iff m.state pass_complete, eq_iff (value "" m.commit_sha) "", word-ne)

supports-converges :
    (found : Option Marker)
    → review_supports found ≡ true
    → (r : Marker) × (found ≡ some r)
      × (marker_converges r ≡ true)
      × (value "" r.verdict ≢ verdict_blocked)
unfolding review_supports
supports-converges none e = absurd (false≢true e)
supports-converges (some r) e =
    (r, refl, ground (arith, e), ground (arith, e, eq_iff (value "" r.verdict) verdict_blocked))

label-found :
    (markers : List Marker) (found : Option Marker)
    → resolve_label markers found ≡ pass_converged
    → (m : Marker) × (found ≡ some m)
unfolding resolve_label
label-found markers none e = absurd (word-ne.1 e)
label-found markers (some m) e = (m, refl)

read_resolve-parts :
    (state : State) (pass : ℕ) (line : String)
    → read_resolve state pass ≡ resolve_converged line
    → let found = marker_for state.markers pass leg_resolve in
      (value false (or_zero found).blocked ≡ false)
      × (has_stop state.labels ≡ false)
      × (resolve_label state.markers found ≡ pass_converged)
      × (review_supports (marker_for state.markers pass leg_review) ≡ true)
unfolding read_resolve
read_resolve-parts state pass line e = ground (
  arith,
  e,
  eq_iff (resolve_label state.markers (marker_for state.markers pass leg_resolve)) pass_converged,
  eq_iff (resolve_label state.markers (marker_for state.markers pass leg_resolve)) pass_halted,
)

-- A run reports convergence after a resolve leg only where that leg is complete, pushed nothing and
-- is not blocked, no escalation stands on the pull request, no stop label is on it, and the review
-- of the pass supports the report and was not blocked.
pub read_resolve-converged :
    (state : State) (pass : ℕ) (line : String)
    → read_resolve state pass ≡ resolve_converged line
    → (m : Marker) × (r : Marker) × (marker_for state.markers pass leg_resolve ≡ some m)
      × (marker_for state.markers pass leg_review ≡ some r)
      × (m.state ≡ pass_complete)
      × (value "" m.commit_sha ≡ "")
      × (value false m.blocked ≡ false)
      × (escalated_count state.markers ≡ 0)
      × (has_stop state.labels ≡ false)
      × (marker_converges r ≡ true)
      × (value "" r.verdict ≢ verdict_blocked)
read_resolve-converged state pass line e =
    let (blocked, stop, label, supports) = read_resolve-parts state pass line e in
    let (m, found) = label-found state.markers (marker_for state.markers pass leg_resolve) label in
    let (r, review, converges, verdict) = supports-converges _ supports in
    let (complete, commit, escalated) =
      converged_after-settled state m (ap (resolve_label state.markers) (sym found) ∙ label) in
    (
      m,
      r,
      found,
      review,
      complete,
      commit,
      ap (λ o. value false (or_zero o).blocked) (sym found) ∙ blocked,
      escalated,
      stop,
      converges,
      verdict,
    )
