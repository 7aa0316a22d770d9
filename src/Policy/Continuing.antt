-- ===== src/Policy/Continuing.antt =====
-- When the loop goes on, when it converges, and when it halts.
use crossrev.Prelude.{false, ◌≡◌, ◌≢◌, ◌↔◌, ◌⊎◌, ◌≤◌, ◌<◌, arith, eq_iff}
use crossrev.Core.Status.{verdict_converged}
use crossrev.Policy.Termination.{Termination, continue, converged, should_continue}

pub record IsUnderCaps (t : Termination) : Type 0 where
  pub passes : (t.max_passes_per_cycle ≡ 0) ⊎ (t.pass < t.max_passes_per_cycle)
  pub prs : (t.max_prs_per_day ≡ 0) ⊎ (t.other_prs_today < t.max_prs_per_day)
  pub files : (t.max_files_changed_per_pr ≡ 0) ⊎ (t.files_changed ≤ t.max_files_changed_per_pr)

-- Another pass goes ahead exactly when nobody stopped it, the resolver is not blocked, the verdict is
-- not converged, and each cap that is set has room.
pub should_continue-continue_iff :
    (t : Termination)
    → ((should_continue t).action ≡ continue)
      ↔ ((t.stop ≡ false) × (t.blocked ≡ false) × (t.verdict ≢ verdict_converged) × IsUnderCaps t)
unfolding should_continue
should_continue-continue_iff t = ground (arith, eq_iff t.verdict verdict_converged)

-- The loop converges exactly on a converged verdict that neither a stop nor a blocked resolver
-- outranks; the caps do not come into it.
pub should_continue-converged_iff :
    (t : Termination)
    → ((should_continue t).action ≡ converged)
      ↔ ((t.stop ≡ false) × (t.blocked ≡ false) × (t.verdict ≡ verdict_converged))
unfolding should_continue
should_continue-converged_iff t = ground (arith, eq_iff t.verdict verdict_converged)
