-- ===== src/Policy/Pushing.antt =====
-- What a guard that lets a leg through has made sure of.
use crossrev.Prelude.{String, none, ◌≡◌, ◌≢◌, ◌↔◌, ◌⊎◌, arith, eq_iff}
use crossrev.Policy.Guards.{
  PushTarget, assert_push_target, flag_true, flag_false, assert_env_clean, LegSettings,
  configured_difference, assert_models_diverged,
}

-- What must hold of a pull request before a push.
pub record IsPushable (t : PushTarget) : Type 0 where
  pub at_head : t.current.sha ≡ t.head.sha
  pub off_default : t.head_branch ≢ t.default_branch
  pub owner_known : t.head_repo.owner ≢ ""
  pub name_known : t.head_repo.name ≢ ""
  pub same_owner : t.head_repo.owner ≡ t.origin_repo.owner
  pub same_name : t.head_repo.name ≡ t.origin_repo.name
  pub permitted : (t.cross_repo ≡ flag_false) ⊎ (t.maintainer_can_modify ≡ flag_true)

-- The push guard lets a push through exactly when the tree is at the head under review, the head
-- branch is not the default branch, the head repository is known and is the origin, and the branch
-- is the repository's own or the contributor allows maintainer edits.
pub assert_push_target-none_iff : (t : PushTarget) → (assert_push_target t ≡ none) ↔ IsPushable t
unfolding assert_push_target
assert_push_target-none_iff t = ground (
  arith,
  eq_iff t.current.sha t.head.sha,
  eq_iff t.head_branch t.default_branch,
  eq_iff t.head_repo.owner "",
  eq_iff t.head_repo.name "",
  eq_iff t.head_repo.owner t.origin_repo.owner,
  eq_iff t.head_repo.name t.origin_repo.name,
  eq_iff t.cross_repo flag_false,
  eq_iff t.maintainer_can_modify flag_true,
)

-- The environment guard lets a leg through exactly when neither endpoint variable has a value.
pub assert_env_clean-none_iff :
    (env : String → String)
    → (assert_env_clean env ≡ none)
      ↔ ((env "ANTHROPIC_BASE_URL" ≡ "") × (env "ANTHROPIC_AUTH_TOKEN" ≡ ""))
unfolding assert_env_clean
assert_env_clean-none_iff env =
    ground (arith, eq_iff (env "ANTHROPIC_BASE_URL") "", eq_iff (env "ANTHROPIC_AUTH_TOKEN") "")

-- Two legs that differ in no setting are never refused; two that differ are refused exactly when
-- both report one and the same model.
pub assert_models_diverged-none_iff :
    (reviewer resolver : LegSettings) (a b : String)
    → (assert_models_diverged (configured_difference reviewer resolver) a b ≡ none) ↔ (
        ((reviewer.harness ≡ resolver.harness)
          × (reviewer.endpoint ≡ resolver.endpoint)
          × (reviewer.model ≡ resolver.model))
        ⊎ (a ≡ "")
        ⊎ (a ≡ "null")
        ⊎ (a ≢ b))
unfolding assert_models_diverged configured_difference
assert_models_diverged-none_iff reviewer resolver a b = ground (
  arith,
  eq_iff reviewer.harness resolver.harness,
  eq_iff reviewer.endpoint resolver.endpoint,
  eq_iff reviewer.model resolver.model,
  eq_iff a "",
  eq_iff a "null",
  eq_iff b "",
  eq_iff b "null",
  eq_iff a b,
)
