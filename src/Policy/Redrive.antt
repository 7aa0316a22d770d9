-- ===== src/Policy/Redrive.antt =====
-- internal/policy/redrive.go: whether a finished pass may be driven again. A nil marker is `none`.
use crossrev.Prelude.{
  ℕ, String, Bool, true, false, ◌&&◌, Option, none, some, List, length, count_if, ◌==◌, ◌!=◌,
  text_Eq, nat_Eq, ltb, if◌then◌else◌,
}
use crossrev.Core.Resolution.{
  Tracked, unfiled, resolution_fixed, resolution_deferred, resolution_escalated,
}
use crossrev.Core.Status.{verdict_blocked}
use crossrev.Core.Pass.{pass_complete, pass_incomplete}

pub record ResolutionRecord : Type 0 where
  pub resolution : String
  pub tracked : Tracked

-- An absent, null or empty commit is the empty text, and an absent list is the empty list.
pub record ResolveMarker : Type 0 where
  pub blocked : Bool
  pub commit_sha : String
  pub resolutions : List ResolutionRecord

pub record ReviewMarker : Type 0 where
  pub state : String
  pub verdict : String

unfoldable pub count_resolution : ResolveMarker → String → ℕ
count_resolution m want = count_if (λ r. r.resolution == want) m.resolutions

unfoldable pub unfiled_deferrals : ResolveMarker → ℕ
unfiled_deferrals m =
    count_if (λ r. r.resolution == resolution_deferred && unfiled r.tracked) m.resolutions

unfoldable pub review_incomplete : Option ReviewMarker → Bool
review_incomplete none = false
review_incomplete (some m) = m.state == pass_incomplete

unfoldable pub review_settled : Option ReviewMarker → Bool
review_settled none = false
review_settled (some m) = m.state == pass_complete

unfoldable pub resolve_unpushed_fix : ResolveMarker → Bool
resolve_unpushed_fix m =
    if m.commit_sha != "" then false else ltb 0 (count_resolution m resolution_fixed)

unfoldable pub resolve_unrecorded : ResolveMarker → Bool
resolve_unrecorded m = m.commit_sha == "" && length m.resolutions == 0

unfoldable pub resolve_redrivable : ResolveMarker → Bool
resolve_redrivable m =
    if m.blocked
    then true
    else if ltb 0 (count_resolution m resolution_escalated)
    then true
    else if resolve_unpushed_fix m
    then true
    else if resolve_unrecorded m
    then true
    else ltb 0 (unfiled_deferrals m)

unfoldable pub review_redrivable : Option ReviewMarker → Bool
review_redrivable none = false
review_redrivable (some m) =
    if m.state == pass_incomplete
    then true
    else if m.state != pass_complete
    then false
    else m.verdict == verdict_blocked

-- The pair of `keep` and `advance`.
unfoldable pub redrive_revision : Option ReviewMarker → String → String → Bool × Bool
redrive_revision m marker_head_sha current_head_sha =
    if review_incomplete m && current_head_sha == marker_head_sha
    then (true, false)
    else (false, true)
