-- ===== src/Policy/Tests.antt =====
-- The policy rules at single points.
use crossrev.Prelude.{
  ℕ, ◌≤◌, ◌↔◌, String, true, false, none, [], ◌∷◌, ◌≡◌, refl, ◌==◌, text_Eq, arith, if◌then◌else◌,
}
use crossrev.Policy.Severity.{severity_rank, should_fix}
use crossrev.Policy.Convergence.{Convergence}
use crossrev.Policy.Termination.{Termination, continue, should_continue}
use crossrev.Policy.Redrive.{ResolveMarker, ReviewMarker}
use crossrev.Policy.Labels.{pass_label_name}
use crossrev.Prelude.Text.{itoa}
use crossrev.Prelude.Bytes.{has_prefix}
use crossrev.Policy.Badges.{label_colour, label_description}
use crossrev.Policy.Guards.{PushTarget, assert_push_target, LegSettings}
use crossrev.Policy.Pushing.{IsPushable, assert_push_target-none_iff}

rank_up : severity_rank "medium" ≤ severity_rank "high"
unfolding severity_rank
rank_up = omega arith

bar_down : severity_rank "low" ≤ severity_rank "medium"
unfolding severity_rank
bar_down = omega arith

medium_fixed : should_fix "medium" "medium" false ≡ true
unfolding should_fix severity_rank
medium_fixed = refl

abbrev none_left : ℕ
none_left = 0

abbrev one_left : ℕ
one_left = 1

abbrev head_sha : String
head_sha = "abc"

abbrev reported : String
reported = "m"

abbrev covered_all : Convergence
covered_all = record {
  unresolved_fixable = 0;
  ledger_current = true;
  required = 4;
  covered = 4;
  outstanding = 0;
  could_not_review = 0;
  scope_reported = true;
  confirmation_required = false;
  confirmation_complete = false;
}

-- Everything is covered but the reviewer's report of its scope.
abbrev unreported : Convergence
unreported = record covered_all { scope_reported = false }

abbrev unfiled_deferral : ResolveMarker
unfiled_deferral = record {
  blocked = false;
  commit_sha = "";
  resolutions =
      record { resolution = "deferred"; tracked = record { present = true; value = "" } } ∷ [];
}

abbrev incomplete_review : ReviewMarker
incomplete_review = record { state = "incomplete"; verdict = "" }

abbrev second_pass : Termination
second_pass = record {
  verdict = "issues-remain";
  pass = 1;
  max_passes_per_cycle = 3;
  stop = false;
  blocked = false;
  other_prs_today = 2;
  max_prs_per_day = 5;
  files_changed = 12;
  max_files_changed_per_pr = 0;
}

second_pass_goes_on : (should_continue second_pass).action ≡ continue
unfolding should_continue
second_pass_goes_on = refl

abbrev own_branch : PushTarget
own_branch = record {
  current = record { sha = "abc"; ref = "fix" };
  head = record { sha = "abc"; ref = "fix" };
  head_branch = "fix";
  default_branch = "main";
  head_repo = record { owner = "o"; name = "n" };
  origin_repo = record { owner = "o"; name = "n" };
  maintainer_can_modify = "";
  cross_repo = "false";
}

assert_push_target-none_iff_example : (assert_push_target own_branch ≡ none) ↔ IsPushable own_branch
assert_push_target-none_iff_example = assert_push_target-none_iff own_branch

abbrev leaked_environment : String → String
leaked_environment name = if name == "ANTHROPIC_BASE_URL" then "http://localhost" else ""

abbrev claude_leg : LegSettings
claude_leg = record { harness = "claude"; endpoint = ""; model = "a" }

abbrev codex_leg : LegSettings
codex_leg = record { harness = "codex"; endpoint = ""; model = "b" }

pass_label_reads : label_description (pass_label_name 12) ≡ "crossrev: reached pass 12"
unfolding label_description pass_label_name itoa has_prefix
pass_label_reads = refl

other_label_colour : label_colour "bug" ≡ "ededed"
unfolding label_colour has_prefix
other_label_colour = refl
