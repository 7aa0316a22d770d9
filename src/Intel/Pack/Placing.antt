-- ===== src/Intel/Pack/Placing.antt =====
-- Packing loses no file and places none twice.
use crossrev.Prelude.{
  ℕ, ◌+◌, ◌<◌, ◌⊎◌, String, Bool, true, not, ◌||◌, List, [], ◌∷◌, ◌≡◌, refl, leb, count_if,
  filter_if, arith, eq_iff, Bool-cases, inl, inr, sym, ap, ◌∙◌,
}
use crossrev.Intel.Plan.{
  FileUnit, Call, BatchPlan, PlanOptions, Limits, is_over_budget, shared_context_halts,
}
use crossrev.Intel.Pack.{
  pack_units, plan_calls, outstanding_of, packing_of, sort_by_path, insert_by_path, start_packing,
  empty_plan, halt_shared_context,
}
use crossrev.Intel.Pack.Collected.{split_parts}
use crossrev.Intel.Pack.Taking.{parts_of, placed, pack_units-Takes}

count_if-insert :
    (q : FileUnit → Bool) (u : FileUnit) (us : List FileUnit)
    → count_if q (insert_by_path u us) ≡ count_if q (u ∷ us)
unfolding insert_by_path
count_if-insert q u [] = refl
count_if-insert q u (v ∷ us) = ground (arith, count_if-insert q u us)

count_if-sort :
    (q : FileUnit → Bool) (us : List FileUnit) → count_if q (sort_by_path us) ≡ count_if q us
unfolding sort_by_path
count_if-sort q [] = refl
count_if-sort q (u ∷ us) = ground (arith, count_if-insert q u (sort_by_path us), count_if-sort q us)

-- The plan that the loop makes when the shared context fits.
abbrev pub loop_plan : List FileUnit → (String → Bool) → PlanOptions → (Call → ℕ) → BatchPlan
loop_plan required accepted opts measure =
    pack_units (packing_of opts measure)
      (start_packing
        (record empty_plan { over_budget = is_over_budget opts.limits opts.shared_bytes }))
      (outstanding_of required accepted)

abbrev pub halted_plan : BatchPlan
halted_plan = record empty_plan { halt_reason = halt_shared_context }

halts_over :
    (l : Limits) (shared_bytes : ℕ)
    → shared_context_halts l shared_bytes ≡ true
    → l.hard_bytes < shared_bytes
unfolding shared_context_halts
halts_over l shared_bytes q = ground (arith, q)

pub plan_calls-cases :
    (required : List FileUnit) (accepted : String → Bool) (opts : PlanOptions) (measure : Call → ℕ)
    → ((plan_calls required accepted opts measure ≡ halted_plan)
        × ((opts.limits.pack_bytes ≡ 0)
            ⊎ (opts.limits.hard_bytes ≡ 0)
            ⊎ (opts.limits.hard_bytes < opts.shared_bytes)))
      ⊎ (plan_calls required accepted opts measure ≡ loop_plan required accepted opts measure)
unfolding plan_calls
plan_calls-cases required accepted opts measure =
    elim (Bool-cases (leb opts.limits.pack_bytes 0 || leb opts.limits.hard_bytes 0)) [
      | inl p ↦ rw p (inl (refl, ground (arith, p)))
      | inr p ↦ rw p (elim (Bool-cases (shared_context_halts opts.limits opts.shared_bytes)) [
        | inl q ↦ rw q (inl (refl, inr (inr (halts_over opts.limits opts.shared_bytes q))))
        | inr q ↦ rw q (inr refl)
      ])
    ]

placed_by_loop :
    (required : List FileUnit) (accepted : String → Bool) (opts : PlanOptions) (measure : Call → ℕ)
    → let plan = loop_plan required accepted opts measure in
      (split : List FileUnit) × (split_parts plan.calls ≡ parts_of (packing_of opts measure) split)
      × ((q : FileUnit → Bool)
          → placed q plan + count_if q split
            ≡ count_if q (filter_if (λ u. not (accepted u.id)) required))
unfolding outstanding_of
placed_by_loop required accepted opts measure =
    let (split, t) =
      pack_units-Takes (packing_of opts measure)
        (start_packing
          (record empty_plan { over_budget = is_over_budget opts.limits opts.shared_bytes }))
        (outstanding_of required accepted) in
    (
      split,
      t.parts,
      λ q.
          omega
            (arith, t.counts q, count_if-sort q (filter_if (λ u. not (accepted u.id)) required)),
    )

pub halt_reason_nonempty : ¬ (halt_shared_context ≡ "")
halt_reason_nonempty e = ground (arith, e, eq_iff halt_shared_context "")

-- A plan that does not halt places each required file with no accepted verdict, and nothing else,
-- exactly once: in a whole-file call, among the skipped, among the carried, or among the files of
-- `split`, whose parts are the part calls, in order.
pub plan_calls-places :
    (required : List FileUnit) (accepted : String → Bool) (opts : PlanOptions) (measure : Call → ℕ)
    → (plan_calls required accepted opts measure).halt_reason ≡ ""
    → let plan = plan_calls required accepted opts measure in
      (split : List FileUnit) × (split_parts plan.calls ≡ parts_of (packing_of opts measure) split)
      × ((q : FileUnit → Bool)
          → placed q plan + count_if q split
            ≡ count_if q (filter_if (λ u. not (accepted u.id)) required))
plan_calls-places required accepted opts measure h =
    elim (plan_calls-cases required accepted opts measure) [
      | inl (e, _) ↦ absurd (halt_reason_nonempty (sym (ap (λ p. p.halt_reason) e) ∙ h))
      | inr e ↦ rw e (placed_by_loop required accepted opts measure)
    ]
