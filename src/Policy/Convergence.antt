-- ===== src/Policy/Convergence.antt =====
-- internal/policy/convergence.go: the one convergence predicate. The counts are counts of files,
-- findings and records, so they are natural numbers, and `Required <= 0` is a test for zero.
use crossrev.Prelude.{ℕ, Bool, true, false, not, ◌&&◌, ◌||◌, ◌!=◌, nat_Eq, leb, if◌then◌else◌}

pub record Convergence : Type 0 where
  pub unresolved_fixable : ℕ
  pub ledger_current : Bool
  pub required : ℕ
  pub covered : ℕ
  pub outstanding : ℕ
  pub could_not_review : ℕ
  pub scope_reported : Bool
  pub confirmation_required : Bool
  pub confirmation_complete : Bool

unfoldable pub converged : Convergence → Bool
converged c =
    if c.unresolved_fixable != 0
    then false
    else if not c.ledger_current
    then false
    else if leb c.required 0 || c.covered != c.required
    then false
    else if c.outstanding != 0
    then false
    else if c.could_not_review != 0
    then false
    else if not c.scope_reported
    then false
    else if c.confirmation_required && not c.confirmation_complete
    then false
    else true
