-- ===== src/Resolve/Convergence/Agreement.antt =====
-- A resolve pass that settles and a report of the status read the same coverage.
use crossrev.Prelude.{
  arith, String, ℕ, Bool, true, false, not, ◌&&◌, Option, none, some, Result, ok, err, ◌≡◌, refl,
  sym, ap, ◌∙◌, length, nat_Eq, text_Eq, inl, inr, Bool-cases,
}
use crossrev.Policy.Convergence.{Convergence, converged}
use crossrev.State.Opt.{has_value}
use crossrev.State.Marker.{Marker, Handle, Claim, unclaimed, claimed, malformed, coverage_handle}
use crossrev.State.Passes.{confirmation_settled}
use crossrev.State.Ledger.{Generation, LedgerError}
use crossrev.Cycle.Status.{
  Coverage, Read, StatusInput, convergence_of, store_for, judge_generation, judge_store,
  judge_claim, status_coverage_converges,
}
use crossrev.Cycle.Status.Counts.{tally-Adds, convergence_of-Adds}
use crossrev.Resolve.Convergence.{
  Settling, zero_convergence, resolve_confirmation, resolve_store_for, if_current, read_current,
  generation_if_current, settled_counts, counts_of, convergence_for, resolve_convergence,
}

-- What a pass of this number settles, on the pull request of a report.
abbrev pub settling_of : StatusInput → Marker → ℕ → Settling
settling_of input review pass = record {
  review = review;
  coverage = input.coverage;
  base = input.base;
  head = input.head;
  markers = input.markers;
  resolutions = input.resolutions;
  pass = pass;
}

pub confirmation-agrees :
    (m : Marker) (head_sha : String)
    → ((resolve_confirmation m head_sha).0 && not (resolve_confirmation m head_sha).1)
      ≡ not (confirmation_settled m head_sha)
unfolding resolve_confirmation confirmation_settled
confirmation-agrees m head_sha = ground arith

-- Counts that differ in the confirmation alone.
abbrev SameCounts : Convergence → Convergence → Type 0
SameCounts c d =
    (c.unresolved_fixable ≡ d.unresolved_fixable)
    × (c.ledger_current ≡ d.ledger_current)
    × (c.required ≡ d.required)
    × (c.covered ≡ d.covered)
    × (c.outstanding ≡ d.outstanding)
    × (c.could_not_review ≡ d.could_not_review)
    × (c.scope_reported ≡ d.scope_reported)

converged-confirmed :
    (c d : Convergence) (settled : Bool)
    → SameCounts c d
    → d.confirmation_required ≡ false
    → (c.confirmation_required && not c.confirmation_complete) ≡ not settled
    → converged c ≡ (converged d && settled)
unfolding converged
converged-confirmed c d settled h k l = ground arith

settled_counts-SameCounts :
    (s : Settling) (coverage : Coverage)
    → length coverage.paths ≡ length coverage.records
    → SameCounts (settled_counts s coverage) (convergence_of coverage)
unfolding settled_counts
settled_counts-SameCounts s coverage h =
    let a = tally-Adds (record zero_convergence { ledger_current = true }) coverage.records in
    let b = convergence_of-Adds coverage in
    (
      a.3 ∙ sym b.3,
      a.4 ∙ sym b.4,
      h ∙ sym b.5,
      a.0 ∙ sym b.0,
      a.1 ∙ sym b.1,
      a.2 ∙ sym b.2,
      sym b.6,
    )

settled_counts-agrees :
    (s : Settling) (coverage : Coverage)
    → length coverage.paths ≡ length coverage.records
    → converged (settled_counts s coverage)
      ≡ (converged (convergence_of coverage) && confirmation_settled s.review s.head.sha)
unfolding settled_counts
settled_counts-agrees s coverage h =
    converged-confirmed (settled_counts s coverage) (convergence_of coverage)
      (confirmation_settled s.review s.head.sha) (settled_counts-SameCounts s coverage h)
      ((convergence_of-Adds coverage).7) (confirmation_of s coverage)
  where
    confirmation_of :
        (s : Settling) (coverage : Coverage)
        → ((settled_counts s coverage).confirmation_required
            && not (settled_counts s coverage).confirmation_complete)
          ≡ not (confirmation_settled s.review s.head.sha)
    confirmation_of s coverage = confirmation-agrees s.review s.head.sha

zero-refuses : converged zero_convergence ≡ false
unfolding converged
zero-refuses = refl

-- Each generation that a store reads has as many paths as records.
abbrev pub PathPerRecord : StatusInput → Type 0
PathPerRecord input =
    (h : Handle) (read : Read) (g : Generation Coverage)
    → store_for input.coverage h ≡ some read
    → read h ≡ ok g
    → length g.rest.paths ≡ length g.rest.records

module _ (input : StatusInput) (review : Marker) (pass : ℕ) where
  read_agrees :
      (r : Result LedgerError (Generation Coverage))
      → ((g : Generation Coverage) → r ≡ ok g → length g.rest.paths ≡ length g.rest.records)
      → converged
          (counts_of (settling_of input review pass) (if_current (settling_of input review pass) r))
        ≡ (judge_generation input review r && confirmation_settled review input.head.sha)
  unfolding counts_of if_current judge_generation
  read_agrees (err e) h = zero-refuses
  read_agrees (ok g) h =
      ground (
        arith,
        zero-refuses,
        settled_counts-agrees (settling_of input review pass) g.rest (h g refl),
      )

  store_agrees :
      PathPerRecord input
      → (h : Handle) (o : Option Read) → store_for input.coverage h ≡ o
      → converged (
          counts_of
            (settling_of input review pass)
            (read_current (settling_of input review pass) h o))
        ≡ (judge_store input review h o && confirmation_settled review input.head.sha)
  unfolding read_current judge_store counts_of
  store_agrees p h none e = zero-refuses
  store_agrees p h (some read) e = read_agrees (read h) (λ g k. p h read g e k)

  -- A convergence that is read says what the report says, and none is read where the report takes a
  -- marker that claims nothing.
  abbrev pub Agrees : Option Convergence → Type 0
  Agrees none = status_coverage_converges input review ≡ true
  Agrees (some c) =
      converged c
      ≡ (status_coverage_converges input review && confirmation_settled review input.head.sha)

  abbrev AgreesOn : Claim → Option Convergence → Type 0
  AgreesOn k none = judge_claim input review k ≡ true
  AgreesOn k (some c) =
      converged c ≡ (judge_claim input review k && confirmation_settled review input.head.sha)

  claim_agrees :
      PathPerRecord input
      → (k : Claim) → AgreesOn k (convergence_for (settling_of input review pass) k)
  unfolding convergence_for generation_if_current judge_claim resolve_store_for store_for
  claim_agrees p (malformed h e) = zero-refuses
  claim_agrees p unclaimed = elim (Bool-cases (has_value review.coverage_manifest_id)) [
    | inl e ↦ rw e (simp (e, zero-refuses))
    | inr e ↦ rw e (ap not e)
  ]
  claim_agrees p (claimed h) = store_agrees p h (store_for input.coverage h) refl

-- On one pull request, with as many paths as records in each generation that its stores read, the
-- coverage that a settling resolve pass reads converges exactly where the status report takes the
-- coverage of the review and the repairs are confirmed at the head; and a pass reads no coverage
-- only where the report asks for none.
pub resolve_convergence-Agrees :
    (input : StatusInput) (review : Marker) (pass : ℕ)
    → PathPerRecord input
    → Agrees input review pass (resolve_convergence (settling_of input review pass))
unfolding resolve_convergence status_coverage_converges
resolve_convergence-Agrees input review pass p =
    claim_agrees input review pass p (coverage_handle review)
