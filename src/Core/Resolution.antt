-- ===== src/Core/Resolution.antt =====
-- internal/core/resolution.go: its words, the lists of them and their parsers.
use crossrev.Prelude.{String, Bool, ◌&&◌, List, [], ◌∷◌, ◌==◌, text_Eq, ok, if◌then◌else◌}
use crossrev.Core.Words.{Parsed, refuse}

abbrev pub resolution_fixed : String
resolution_fixed = "fixed"

abbrev pub resolution_skipped : String
resolution_skipped = "skipped"

abbrev pub resolution_deferred : String
resolution_deferred = "deferred"

abbrev pub resolution_disputed : String
resolution_disputed = "disputed"

abbrev pub resolution_escalated : String
resolution_escalated = "escalated"

abbrev pub err_resolution : String
err_resolution = "a resolution is not one the resolve schema lists"

unfoldable pub resolutions : List String
resolutions =
    resolution_fixed ∷ resolution_skipped ∷ resolution_deferred ∷ resolution_disputed
    ∷ resolution_escalated ∷ []

unfoldable pub parse_resolution : String → Parsed
parse_resolution s =
    if s == resolution_fixed
    then ok resolution_fixed
    else if s == resolution_skipped
    then ok resolution_skipped
    else if s == resolution_deferred
    then ok resolution_deferred
    else if s == resolution_disputed
    then ok resolution_disputed
    else if s == resolution_escalated
    then ok resolution_escalated
    else refuse err_resolution s

-- A deferred finding's `crossrev_tracked` field: absent, present and empty, or a value.
pub record Tracked : Type 0 where
  pub present : Bool
  pub value : String

unfoldable pub unfiled : Tracked → Bool
unfiled t = t.present && t.value == ""
