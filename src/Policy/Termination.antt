-- ===== src/Policy/Termination.antt =====
-- internal/policy/termination.go: whether the loop runs another pass. The caps and the counts are
-- natural numbers; a cap of zero bounds nothing.
use crossrev.Prelude.{ℕ, String, Bool, ◌&&◌, ◌==◌, text_Eq, leb, ltb, if◌then◌else◌}
use crossrev.Prelude.Text.{itoa, ◌++◌}
use crossrev.Core.Status.{verdict_converged}

pub data Action : Type 0 where
  continue converged halt : Action

pub record Termination : Type 0 where
  pub verdict : String
  pub pass : ℕ
  pub max_passes_per_cycle : ℕ
  pub stop : Bool
  pub blocked : Bool
  pub other_prs_today : ℕ
  pub max_prs_per_day : ℕ
  pub files_changed : ℕ
  pub max_files_changed_per_pr : ℕ

pub record Decision : Type 0 where
  pub action : Action
  pub reason : String

unfoldable pub should_continue : Termination → Decision
should_continue t =
    if t.stop
    then record { action = halt; reason = "a human applied crossrev/stop" }
    else if t.blocked
    then record { action = halt; reason = "the resolver reported blocked" }
    else if t.verdict == verdict_converged
    then record { action = converged; reason = "nothing at or above min_fix_severity remains" }
    else if ltb 0 t.max_passes_per_cycle && leb t.max_passes_per_cycle t.pass
    then record {
      action = halt;
      reason = "reached max_passes_per_cycle (" ++ itoa t.max_passes_per_cycle ++ ")";
    }
    else if ltb 0 t.max_prs_per_day && leb t.max_prs_per_day t.other_prs_today
    then record {
      action = halt;
      reason =
          "reached max_prs_per_day ("
          ++ itoa t.max_prs_per_day
          ++ ") — "
          ++ itoa t.other_prs_today
          ++ " other pull requests were already reviewed in the last 24 hours";
    }
    else if ltb 0 t.max_files_changed_per_pr && ltb t.max_files_changed_per_pr t.files_changed
    then record {
      action = halt;
      reason =
          itoa t.files_changed
          ++ " files changed, above max_files_changed_per_pr ("
          ++ itoa t.max_files_changed_per_pr
          ++ ")";
    }
    else record { action = continue; reason = "issues remain and no cap is reached" }
