-- ===== src/Policy/Severity.antt =====
-- internal/policy/severity.go: which findings the resolve leg may change code for.
use crossrev.Prelude.{ℕ, String, Bool, false, ◌==◌, text_Eq, nat_Eq, leb, if◌then◌else◌}
use crossrev.Core.Finding.{severity_high, severity_medium, severity_low}

unfoldable pub severity_rank : String → ℕ
severity_rank s =
    if s == severity_high
    then 3
    else if s == severity_medium
    then 2
    else if s == severity_low
    then 1
    else 0

unfoldable pub should_fix : String → String → Bool → Bool
should_fix severity min_fix_severity pre_existing =
    if pre_existing
    then false
    else let bar = severity_rank min_fix_severity in
      if bar == 0 then false else leb bar (severity_rank severity)
