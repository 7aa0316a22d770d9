-- ===== src/Policy/Fixing.antt =====
-- Severity thresholds: which findings are fixed, and what moving a severity or a threshold does.
use crossrev.Prelude.{String, Bool, true, false, ◌≡◌, ◌↔◌, ◌⊎◌, ◌≤◌, ◌<◌, arith, eq_iff}
use crossrev.Core.Finding.{severity_high, severity_medium, severity_low}
use crossrev.Policy.Severity.{severity_rank, should_fix}

-- One of the three severity words of the schema.
abbrev pub IsSeverity : String → Type 0
IsSeverity s = (s ≡ severity_high) ⊎ (s ≡ severity_medium) ⊎ (s ≡ severity_low)

severity_rank-IsSeverity : (s : String) → (0 < severity_rank s) ↔ IsSeverity s
unfolding severity_rank
severity_rank-IsSeverity s =
    ground (arith, eq_iff s severity_high, eq_iff s severity_medium, eq_iff s severity_low)

-- A finding may be fixed exactly when it is not pre-existing, its severity and the threshold are
-- both words of the schema, and the severity ranks no lower than the threshold.
pub should_fix_iff :
    (severity bar : String) (pre_existing : Bool)
    → (should_fix severity bar pre_existing ≡ true) ↔ (
        (pre_existing ≡ false)
        × IsSeverity severity
        × IsSeverity bar
        × (severity_rank bar ≤ severity_rank severity))
unfolding should_fix
should_fix_iff severity bar pre_existing =
    ground (arith, severity_rank-IsSeverity severity, severity_rank-IsSeverity bar)

-- What may be fixed under a threshold may be fixed at a higher severity, and under a lower threshold
-- that is a word of the schema.
pub should_fix_mono :
    (low high bar lower : String) (pre_existing : Bool)
    → severity_rank low ≤ severity_rank high
    → severity_rank lower ≤ severity_rank bar
    → IsSeverity lower
    → should_fix low bar pre_existing ≡ true
    → should_fix high lower pre_existing ≡ true
unfolding should_fix
should_fix_mono low high bar lower pre_existing h k w f =
    ground (arith, severity_rank-IsSeverity lower)
