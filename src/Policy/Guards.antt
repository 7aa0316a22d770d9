-- ===== src/Policy/Guards.antt =====
-- internal/policy/guards.go: the guards that refuse a push, an inherited environment, and two legs
-- that one model answered. A Go `error` is an optional refusal.
use crossrev.Prelude.{
  String, Bool, true, false, not, ◌&&◌, ◌||◌, Option, none, some, List, [], ◌∷◌, ◌==◌, ◌!=◌,
  text_Eq, filter_if, if◌then◌else◌,
}
use crossrev.Prelude.Text.{◌++◌}
use crossrev.Core.Revision.{Revision, revision_equal, Slug, slug_equal, slug_text, slug_incomplete}

pub record Refusal : Type 0 where
  pub message : String
  pub hint : String

abbrev pub flag_true : String
flag_true = "true"

abbrev pub flag_false : String
flag_false = "false"

pub record PushTarget : Type 0 where
  pub current : Revision
  pub head : Revision
  pub head_branch : String
  pub default_branch : String
  pub head_repo : Slug
  pub origin_repo : Slug
  pub maintainer_can_modify : String
  pub cross_repo : String

unfoldable pub assert_push_target : PushTarget → Option Refusal
unfolding revision_equal slug_equal slug_incomplete
assert_push_target t =
    if not (revision_equal t.current t.head)
    then some (record {
      message =
          "the tree is at revision '" ++ t.current.sha ++ "' but the pull request is at '"
          ++ t.head.sha ++ "'";
      hint = "crossrev pushes only to the revision under review.";
    })
    else if t.head_branch == t.default_branch
    then some (record {
      message =
          "the pull request's head branch is the repository default branch ('" ++ t.default_branch
          ++ "')";
      hint =
          "crossrev refuses to push to a default branch. Re-open the pull request from a feature branch.";
    })
    else if slug_incomplete t.head_repo
    then some (record {
      message = "could not determine the head repository for this pull request";
      hint = "The pull request metadata is missing head repository information.";
    })
    else if not (slug_equal t.head_repo t.origin_repo)
    then some (record {
      message =
          "the pull request's head is in '"
          ++ slug_text t.head_repo
          ++ "' but this checkout pushes to '"
          ++ slug_text t.origin_repo
          ++ "'";
      hint = "crossrev pushes only to the head repository of the pull request under review.";
    })
    else if t.cross_repo != flag_false && t.maintainer_can_modify != flag_true
    then some (record {
      message = "the contributor has not allowed maintainer edits on " ++ slug_text t.head_repo;
      hint =
          "The contributor has not allowed maintainer edits on this pull request, so the fix cannot be pushed.";
    })
    else none

unfoldable pub endpoint_variables : List String
endpoint_variables = "ANTHROPIC_BASE_URL" ∷ "ANTHROPIC_AUTH_TOKEN" ∷ []

-- `strings.Join(words, " ")`.
abbrev pub join_words : List String → String
join_words [] = ""
join_words (w ∷ []) = w
join_words (w ∷ v ∷ ws) = w ++ " " ++ join_words (v ∷ ws)

abbrev refuse_leaked : List String → Option Refusal
refuse_leaked [] = none
refuse_leaked (name ∷ names) = some (record {
  message =
      "these endpoint variables are set in the environment CrossRev inherited: "
      ++ join_words (name ∷ names);
  hint =
      "They redirect the harness process-wide, so a leg would silently run on the wrong model and the loop would complete normally with no error anywhere. Unset them; CrossRev sets them per invocation.";
})

-- The environment is a Go map: a missing name reads as the empty text.
unfoldable pub assert_env_clean : (String → String) → Option Refusal
unfolding endpoint_variables
assert_env_clean env = refuse_leaked (filter_if (λ name. env name != "") endpoint_variables)

pub record LegSettings : Type 0 where
  pub harness : String
  pub endpoint : String
  pub model : String

pub data Difference : Type 0 where
  same different : Difference

unfoldable pub configured_difference : LegSettings → LegSettings → Difference
configured_difference reviewer resolver =
    if reviewer.harness != resolver.harness
      || reviewer.endpoint != resolver.endpoint
      || reviewer.model != resolver.model
    then different
    else same

unfoldable pub model_reported : String → Bool
model_reported model = model != "" && model != "null"

abbrev is_different : Difference → Bool
is_different different = true
is_different same = false

unfoldable pub assert_models_diverged : Difference → String → String → Option Refusal
unfolding model_reported
assert_models_diverged configured reviewer_model resolver_model =
    if not (is_different configured)
    then none
    else if not (model_reported reviewer_model) || not (model_reported resolver_model)
    then none
    else if reviewer_model != resolver_model
    then none
    else some (record {
      message =
          "both legs were configured to differ but the same model answered each: "
          ++ reviewer_model;
      hint =
          "This is the failure the cross-model design exists to prevent, and it completes normally when unchecked. Check the endpoint block and that no endpoint variable is exported.";
    })
