-- ===== src/Intel/Pack/Halting.antt =====
-- When packing halts.
use crossrev.Prelude.{
  ℕ, ◌<◌, ◌⊎◌, ◌↔◌, inl, inr, String, Bool, ◌||◌, List, [], ◌∷◌, ◌≡◌, refl, sym, ap, ◌∙◌, leb, ◌==◌,
  nat_Eq, text_Eq, arith, Bool-cases,
}
use crossrev.Intel.Plan.{FileUnit, Call, PlanOptions, shared_context_halts}
use crossrev.Intel.Pack.{
  Packing, Packed, add_calls, flush, pack_oversized, pack_alone, make_room, pack_candidate,
  pack_unit, carry, pack_units, packing_of, outstanding_of, plan_calls,
}
use crossrev.Intel.Pack.Placing.{halted_plan, halt_reason_nonempty, plan_calls-cases}

halt_reason-oversized :
    (k : Packing) (s : Packed) (u : FileUnit)
    → (pack_oversized k s u).plan.halt_reason ≡ s.plan.halt_reason
unfolding pack_oversized add_calls
halt_reason-oversized k s u = ground arith

halt_reason-alone :
    (k : Packing) (s : Packed) (u : FileUnit)
    → (pack_alone k s u).plan.halt_reason ≡ s.plan.halt_reason
unfolding pack_alone flush add_calls
halt_reason-alone k s u =
    ground (arith, halt_reason-oversized k s u, halt_reason-oversized k (flush s) u)

halt_reason-unit :
    (k : Packing) (s : Packed) (u : FileUnit)
    → (pack_unit k s u).plan.halt_reason ≡ s.plan.halt_reason
unfolding pack_unit pack_candidate make_room flush add_calls
halt_reason-unit k s u = ground (arith, halt_reason-alone k s u, halt_reason-alone k (flush s) u)

halt_reason-units :
    (k : Packing) (s : Packed) (us : List FileUnit)
    → (pack_units k s us).halt_reason ≡ s.plan.halt_reason
unfolding pack_units carry flush add_calls
halt_reason-units k s [] = refl
halt_reason-units k s (u ∷ us) = elim (Bool-cases (s.admitted == k.max_units)) [
  | inl e ↦ rw e refl
  | inr e ↦ rw e (halt_reason-units k (pack_unit k s u) us ∙ halt_reason-unit k s u)
]

-- Why a plan halts.
abbrev pub CannotPack : PlanOptions → Type 0
CannotPack opts =
    (opts.limits.pack_bytes ≡ 0)
    ⊎ (opts.limits.hard_bytes ≡ 0)
    ⊎ (opts.limits.hard_bytes < opts.shared_bytes)

halts :
    (required : List FileUnit) (accepted : String → Bool) (opts : PlanOptions) (measure : Call → ℕ)
    → CannotPack opts
    → plan_calls required accepted opts measure ≡ halted_plan
unfolding plan_calls shared_context_halts
halts required accepted opts measure h =
    elim (Bool-cases (leb opts.limits.pack_bytes 0 || leb opts.limits.hard_bytes 0)) [
      | inl p ↦ rw p refl
      | inr p ↦ rw p (elim (Bool-cases (shared_context_halts opts.limits opts.shared_bytes)) [
        | inl q ↦ rw q refl
        | inr q ↦ ground (arith, p, q, h)
      ])
    ]

-- The plan is the halted one, with no call and no file carried or skipped, exactly when a budget is
-- zero or the shared context alone is past the hard limit; what the files are does not come into it.
pub plan_calls-halted_iff :
    (required : List FileUnit) (accepted : String → Bool) (opts : PlanOptions) (measure : Call → ℕ)
    → (plan_calls required accepted opts measure ≡ halted_plan) ↔ CannotPack opts
plan_calls-halted_iff required accepted opts measure = (
  λ e. elim (plan_calls-cases required accepted opts measure) [
    | inl (_, c) ↦ c
    | inr f ↦ absurd (
        halt_reason_nonempty (
          ap (λ p. p.halt_reason) (sym e ∙ f)
          ∙ halt_reason-units (packing_of opts measure) _ (outstanding_of required accepted)))
  ],
  halts required accepted opts measure,
)
