-- ===== src/Cycle/Restart/Rewrites.antt =====
-- What a restart leaves of the labels of a pull request.
use crossrev.Prelude.{
  arith, ap, ◌∙◌, ℕ, ◌≢◌, ◌⊎◌, String, Bool, true, false, not, ◌&&◌, ◌||◌, none, List, [], ◌∷◌,
  ◌++◌, ◌≡◌, refl, ◌==◌, ◌!=◌, text_Eq, eq_iff, if◌then◌else◌, text-eq_self,
}
use crossrev.Core.Pass.{leg_review, leg_resolve}
use crossrev.Policy.Labels.{label_halted, label_watchdog_retried, awaiting_label}
use crossrev.Cycle.Status.{status_has_label}
use crossrev.Cycle.Watchdog.{Call, add, remove, has_label}
use crossrev.Cycle.Watchdog.Events.{after_call, after_calls, has_after-add, has_after-remove}
use crossrev.Cycle.Watchdog.Retries.{awaiting-ne}
use crossrev.Cycle.Restart.{rewrite}

after_calls-append :
    (pr : ℕ) (labels : List String) (xs ys : List Call)
    → after_calls pr labels (xs ++ ys) ≡ after_calls pr (after_calls pr labels xs) ys
after_calls-append pr labels [] ys = refl
after_calls-append pr labels (x ∷ xs) ys = after_calls-append pr (after_call pr labels x) xs ys

has-dropped :
    (pr : ℕ) (labels : List String) (b : Bool) (label want : String)
    → has_label (after_calls pr labels (if b then remove pr label ∷ [] else [])) want
      ≡ (has_label labels want && not (b && want == label))
has-dropped pr labels true label want = has_after-remove pr labels label want
has-dropped pr labels false label want = ground arith

-- The labels after a restart whose writes all land.
abbrev pub restarted_labels : ℕ → List String → String → List String
restarted_labels pr labels leg = after_calls pr labels (rewrite (λ c. none) pr labels leg).calls

has-restarted :
    (pr : ℕ) (labels : List String) (leg want : String)
    → has_label (restarted_labels pr labels leg) want ≡ (
        ((has_label labels want
            && not (status_has_label labels (awaiting_label leg) && want == awaiting_label leg))
          || awaiting_label leg == want)
        && want != label_halted
        && not (status_has_label labels label_watchdog_retried && want == label_watchdog_retried))
unfolding rewrite
has-restarted pr labels leg want =
    let a = awaiting_label leg in
    let before = if status_has_label labels a then remove pr a ∷ [] else [] in
    let after =
      if status_has_label labels label_watchdog_retried
      then remove pr label_watchdog_retried ∷ []
      else [] in
    let first = after_calls pr labels before in
    ap (λ ls. has_label ls want)
      (after_calls-append pr labels before (add pr a ∷ remove pr label_halted ∷ after))
    ∙ has-dropped pr (after_call pr (after_call pr first (add pr a)) (remove pr label_halted))
        (status_has_label labels label_watchdog_retried) label_watchdog_retried want
    ∙ ground (
      arith,
      has_after-remove pr (after_call pr first (add pr a)) label_halted want,
      has_after-add pr first a want,
      has-dropped pr labels (status_has_label labels a) a want,
    )

same_has_label :
    (labels : List String) (want : String) → has_label labels want ≡ status_has_label labels want
unfolding has_label status_has_label
same_has_label labels want = refl

-- A restart whose writes all land leaves the pull request waiting for the leg, neither halted nor
-- marked as retried, and changes no other label.
pub restart-labels :
    (pr : ℕ) (labels : List String) (leg : String)
    → (leg ≡ leg_review) ⊎ (leg ≡ leg_resolve)
    → let after = restarted_labels pr labels leg in
      (has_label after (awaiting_label leg) ≡ true)
      × (has_label after label_halted ≡ false)
      × (has_label after label_watchdog_retried ≡ false)
      × ((want : String)
          → want ≢ awaiting_label leg
          → want ≢ label_halted
          → want ≢ label_watchdog_retried
          → has_label after want ≡ has_label labels want)
restart-labels pr labels leg h =
    let ne = awaiting-ne leg h in
    let a = awaiting_label leg in
    let halted_is = eq_iff a label_halted in
    let retried_is = eq_iff a label_watchdog_retried in
    let had = same_has_label labels label_watchdog_retried in
    (
      has-restarted pr labels leg a ∙ ground (arith, ne, text-eq_self a, halted_is, retried_is),
      has-restarted pr labels leg label_halted ∙ ground (arith, ne, text-eq_self label_halted),
      has-restarted pr labels leg label_watchdog_retried
          ∙ ground (
            arith,
            ne,
            had,
            text-eq_self label_watchdog_retried,
            eq_iff a label_watchdog_retried,
          ),
      λ want u v w.
          has-restarted pr labels leg want
          ∙ ground (
            arith,
            u,
            v,
            w,
            eq_iff want a,
            eq_iff a want,
            eq_iff want label_halted,
            eq_iff want label_watchdog_retried,
          ),
    )
