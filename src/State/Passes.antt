-- ===== src/State/Passes.antt =====
-- internal/prstate/pass.go, claim.go and converge.go: what is read off a list of markers.
pub mod Newest
pub mod Numbering
mod Tests
use crossrev.Prelude.{
  ℕ, ◌+◌, String, Bool, true, false, not, ◌&&◌, Option, none, some, List, [], ◌∷◌, ◌==◌, ◌!=◌,
  nat_Eq, text_Eq, ltb, leb, filter_if, if◌then◌else◌,
}
use crossrev.Core.Pass.{leg_review, pass_started, pass_complete, declined}
use crossrev.State.Opt.{value, get, has_value}
use crossrev.State.Marker.{Marker, zero_marker, coverage_present}

unfoldable pub ran : List Marker → List Marker
ran markers = filter_if (λ m. not (declined m.state)) markers

-- The loops that keep the highest pass so far.
pub highest_pass : ℕ → List Marker → ℕ
highest_pass highest [] = highest
highest_pass highest (m ∷ ms) = highest_pass (if ltb highest m.pass then m.pass else highest) ms

unfoldable pub max_pass : List Marker → ℕ
unfolding highest_pass
max_pass markers = highest_pass 0 markers

pub highest_review : ℕ → List Marker → ℕ
highest_review highest [] = highest
highest_review highest (m ∷ ms) =
    highest_review (if m.leg == leg_review && ltb highest m.pass then m.pass else highest) ms

unfoldable pub current_review_pass : List Marker → ℕ
unfolding highest_review ran
current_review_pass markers = highest_review 0 (ran markers)

-- `Pass`: the pass that the next review belongs to.
unfoldable pub next_pass : List Marker → ℕ
unfolding current_review_pass
next_pass markers = current_review_pass markers + 1

abbrev pub is_for : ℕ → String → Marker → Bool
is_for pass leg m = m.pass == pass && m.leg == leg

unfoldable pub current_pass_complete : List Marker → ℕ → String → Bool
current_pass_complete [] pass leg = false
current_pass_complete (m ∷ ms) pass leg =
    let rest = current_pass_complete ms pass leg in
    if is_for pass leg m && m.state == pass_complete then true else rest

-- The loop keeps the last marker that matches.
pub newest_from : Option Marker → List Marker → ℕ → String → Option Marker
newest_from newest [] pass leg = newest
newest_from newest (m ∷ ms) pass leg =
    newest_from (if is_for pass leg m then some m else newest) ms pass leg

unfoldable pub marker_for : List Marker → ℕ → String → Option Marker
unfolding newest_from
marker_for markers pass leg = newest_from none markers pass leg

-- A caller that drops the second result reads the zero marker where there is none.
abbrev pub or_zero : Option Marker → Marker
or_zero none = zero_marker
or_zero (some m) = m

abbrev started_only : Option Marker → Option Marker
started_only none = none
started_only (some m) = if m.state != pass_started then none else some m

unfoldable pub open_claim : List Marker → ℕ → String → Option Marker
unfolding marker_for
open_claim markers pass leg = started_only (marker_for markers pass leg)

-- The head of the last review in the list, or the empty text.
pub last_reviewed : String → List Marker → String
last_reviewed last [] = last
last_reviewed last (m ∷ ms) =
    last_reviewed (if m.leg == leg_review then value "" m.head_sha else last) ms

unfoldable pub is_new_revision : List Marker → String → Bool
unfolding last_reviewed ran
is_new_revision markers head_sha =
    let last = last_reviewed "" (ran markers) in if last == "" then true else last != head_sha

unfoldable pub marker_converges : Marker → Bool
unfolding coverage_present
marker_converges m =
    if m.state != pass_complete
    then false
    else if has_value m.coverage_stop
    then false
    else if leb 2 m.version
    then (if not (coverage_present m) then false else true)
    else true

unfoldable pub marker_head_current : Marker → String → Bool
marker_head_current m head_sha = elim (get m.head_sha) [
  | none ↦ false
  | some head ↦ if head == "" then false else head == head_sha
]

unfoldable pub confirmation_settled : Marker → String → Bool
confirmation_settled m head_sha = elim (get m.confirmation_base_sha) [
  | none ↦ true
  | some base ↦ if base == "" then true else elim (get m.confirmation_head_sha) [
    | none ↦ false
    | some confirmed ↦ if confirmed == "" then false else confirmed == head_sha
  ]
]
