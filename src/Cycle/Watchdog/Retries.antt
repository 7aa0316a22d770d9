-- ===== src/Cycle/Watchdog/Retries.antt =====
-- What two sweeps do to the labels of a pull request whose leg never finishes.
use crossrev.Prelude.{
  ap, ◌∙◌, ℕ, suc, ◌≢◌, ◌⊎◌, inl, inr, String, Bool, true, false, not, ◌&&◌, ◌||◌, none, List, ◌≡◌,
  ◌==◌, ◌!=◌, nat_Eq, text_Eq, arith, eq_iff, Bool-cases, if◌then◌else◌, text-eq_self,
}
use crossrev.Core.Pass.{leg_review, leg_resolve}
use crossrev.Policy.Labels.{
  label_halted, label_watchdog_retried, label_awaiting_review, label_awaiting_resolution,
  awaiting_label,
}
use crossrev.Cycle.Watchdog.Events.{
  after_call, after_calls, fires, fired, nat-eq_self, has_after-add, has_after-remove, fires-other,
  fires-again,
}
use crossrev.Cycle.Watchdog.{Waiting, Summary, add, remove, done, has_label, retry}

-- The labels of a pull request after one retry whose writes all land.
abbrev pub retried_labels : Waiting → String → Summary → List String
retried_labels pr leg summary =
    after_calls pr.pr pr.labels (retry (λ c. none) pr leg summary done).calls

has_after-halting :
    (pr : Waiting) (leg want : String) (summary : Summary)
    → has_label pr.labels label_watchdog_retried ≡ true
    → has_label (retried_labels pr leg summary) want
      ≡ ((has_label pr.labels want && want != awaiting_label leg) || label_halted == want)
unfolding retry
has_after-halting pr leg want summary p = rw p (
    has_after-add pr.pr (after_call pr.pr pr.labels (remove pr.pr (awaiting_label leg)))
      label_halted want
    ∙ ap (λ b. b || label_halted == want)
        (has_after-remove pr.pr pr.labels (awaiting_label leg) want))

has_after-firing :
    (pr : Waiting) (leg want : String) (summary : Summary)
    → has_label pr.labels label_watchdog_retried ≡ false
    → has_label (retried_labels pr leg summary) want ≡ (
        ((has_label pr.labels want || label_watchdog_retried == want) && want != awaiting_label leg)
        || awaiting_label leg == want)
unfolding retry
has_after-firing pr leg want summary p =
    let marked = after_call pr.pr pr.labels (add pr.pr label_watchdog_retried) in
    rw p (
      has_after-add pr.pr (after_call pr.pr marked (remove pr.pr (awaiting_label leg)))
        (awaiting_label leg) want
      ∙ ap (λ b. b || awaiting_label leg == want)
          (has_after-remove pr.pr marked (awaiting_label leg) want
            ∙ ap (λ b. b && want != awaiting_label leg)
                (has_after-add pr.pr pr.labels label_watchdog_retried want)))

pub awaiting-ne :
    (leg : String)
    → (leg ≡ leg_review) ⊎ (leg ≡ leg_resolve)
    → (awaiting_label leg ≢ label_halted) × (awaiting_label leg ≢ label_watchdog_retried)
unfolding awaiting_label
awaiting-ne leg h = ground (
  arith,
  h,
  eq_iff leg leg_review,
  eq_iff leg leg_resolve,
  eq_iff leg_resolve leg_review,
  eq_iff label_awaiting_review label_halted,
  eq_iff label_awaiting_review label_watchdog_retried,
  eq_iff label_awaiting_resolution label_halted,
  eq_iff label_awaiting_resolution label_watchdog_retried,
)

-- How often one retry whose writes all land fires the label of the leg.
abbrev pub retry_fires : Waiting → String → Summary → ℕ
retry_fires pr leg summary =
    fired pr.pr (awaiting_label leg) pr.labels (retry (λ c. none) pr leg summary done).calls

halting-fires :
    (pr : Waiting) (leg : String) (summary : Summary)
    → has_label pr.labels label_watchdog_retried ≡ true
    → (label_halted == awaiting_label leg) ≡ false
    → retry_fires pr leg summary ≡ 0
unfolding retry
halting-fires pr leg summary p q = simp (p, q, nat-eq_self pr.pr)

firing-fires :
    (pr : Waiting) (leg : String) (summary : Summary)
    → has_label pr.labels label_watchdog_retried ≡ false
    → (label_watchdog_retried == awaiting_label leg) ≡ false
    → retry_fires pr leg summary ≡ 1
unfolding retry
firing-fires pr leg summary p q =
    let marked = after_call pr.pr pr.labels (add pr.pr label_watchdog_retried) in
    let first = fires-other pr.pr label_watchdog_retried (awaiting_label leg) pr.labels q in
    let second = fires-again pr.pr (awaiting_label leg) marked in
    let again =
      fires pr.pr (awaiting_label leg) (after_call pr.pr marked (remove pr.pr (awaiting_label leg)))
        (add pr.pr (awaiting_label leg)) in
    let n : ℕ = if again then 1 else 0 in
    rw p (
      ap (λ (b : Bool). if b then suc n else n) first
      ∙ ap (λ (b : Bool). if b then 1 else 0) second)

-- After a retry whose writes all land the pull request has the mark of a retry; it has the awaiting
-- label exactly where the mark was not there before, and the halted label exactly where the mark or
-- that label was there before. The first retry puts the awaiting label on once while the pull request
-- does not have it, which fires the leg again, and a later one never does.
pub retry-labels :
    (pr : Waiting) (leg : String) (summary : Summary)
    → (leg ≡ leg_review) ⊎ (leg ≡ leg_resolve)
    → let labels = retried_labels pr leg summary in
      (has_label labels label_watchdog_retried ≡ true)
      × (has_label labels (awaiting_label leg) ≡ not (has_label pr.labels label_watchdog_retried))
      × (has_label labels label_halted
          ≡ (has_label pr.labels label_halted || has_label pr.labels label_watchdog_retried))
      × (retry_fires pr leg summary ≡ (if has_label pr.labels label_watchdog_retried then 0 else 1))
retry-labels pr leg summary h =
    let ne = awaiting-ne leg h in
    let own = text-eq_self (awaiting_label leg) in
    let mark_is = eq_iff (awaiting_label leg) label_watchdog_retried in
    let halt_is = eq_iff (awaiting_label leg) label_halted in
    let mark_to = eq_iff label_watchdog_retried (awaiting_label leg) in
    let halt_to = eq_iff label_halted (awaiting_label leg) in
    elim (Bool-cases (has_label pr.labels label_watchdog_retried)) [
      | inl p ↦ (
        has_after-halting pr leg label_watchdog_retried summary p
            ∙ ground (arith, p, ne, own, mark_is, halt_is, mark_to, halt_to),
        has_after-halting pr leg (awaiting_label leg) summary p
            ∙ ground (arith, p, ne, own, mark_is, halt_is, mark_to, halt_to),
        has_after-halting pr leg label_halted summary p
            ∙ ground (arith, p, ne, own, mark_is, halt_is, mark_to, halt_to),
        halting-fires pr leg summary p (ground (arith, ne, halt_to)) ∙ ground (arith, p),
      )
      | inr p ↦ (
        has_after-firing pr leg label_watchdog_retried summary p
            ∙ ground (arith, p, ne, own, mark_is, halt_is, mark_to, halt_to),
        has_after-firing pr leg (awaiting_label leg) summary p
            ∙ ground (arith, p, ne, own, mark_is, halt_is, mark_to, halt_to),
        has_after-firing pr leg label_halted summary p
            ∙ ground (arith, p, ne, own, mark_is, halt_is, mark_to, halt_to),
        firing-fires pr leg summary p (ground (arith, ne, mark_to)) ∙ ground (arith, p),
      )
    ]
