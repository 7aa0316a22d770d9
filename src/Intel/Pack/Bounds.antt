-- ===== src/Intel/Pack/Bounds.antt =====
-- The caps that every packed call and every pass keeps.
use crossrev.Prelude.{
  suc, Bool-cases, inr, String, ℕ, ◌≤◌, Bool, List, [], ◌∷◌, refl, arith, inl, All, ◌==◌, nat_Eq,
  text_Eq,
}
use crossrev.Intel.Plan.{PlanOptions, BatchPlan, FileUnit, Call}
use crossrev.Intel.Pack.{
  make_room, pack_oversized, pack_alone, pack_candidate, pack_unit, pack_units, carry, plan_calls,
  packing_of, Packing, Packed, flush,
}
use crossrev.Intel.Pack.Steps.{KeepsCaps, Bounded, flush-Bounded, pack_unit-Bounded, taken_in}
use crossrev.Intel.Pack.{outstanding_of}
use crossrev.Intel.Pack.Placing.{plan_calls-cases}

oversized-admits :
    (k : Packing) (s : Packed) (u : FileUnit) → (pack_oversized k s u).admitted ≤ suc s.admitted
unfolding pack_oversized
oversized-admits k s u = ground arith

alone-admits :
    (k : Packing) (s : Packed) (u : FileUnit) → (pack_alone k s u).admitted ≤ suc s.admitted
unfolding pack_alone flush
alone-admits k s u = ground (arith, oversized-admits k s u, oversized-admits k (flush s) u)

unit-admits :
    (k : Packing) (s : Packed) (u : FileUnit) → (pack_unit k s u).admitted ≤ suc s.admitted
unfolding pack_unit pack_candidate make_room flush
unit-admits k s u = ground (arith, alone-admits k s u, alone-admits k (flush s) u)

-- The calls keep the caps of one call, and took in no more units than a pass may.
abbrev pub WithinCaps : Packing → BatchPlan → Type 0
WithinCaps k plan = All (KeepsCaps k) plan.calls × (taken_in plan.calls ≤ k.max_units)

flush-WithinCaps :
    (k : Packing) (s : Packed)
    → Bounded k s
    → s.admitted ≤ k.max_units
    → WithinCaps k (flush s).plan
flush-WithinCaps k s b le =
    ((flush-Bounded k s b).calls, unfold flush in omega (arith, (flush-Bounded k s b).taken, le))

pack_units-WithinCaps :
    (k : Packing) (s : Packed) (us : List FileUnit)
    → Bounded k s
    → 1 ≤ k.max_files
    → s.admitted ≤ k.max_units
    → WithinCaps k (pack_units k s us)
unfolding pack_units carry
pack_units-WithinCaps k s [] b n le = flush-WithinCaps k s b le
pack_units-WithinCaps k s (u ∷ us) b n le =
    let rest = pack_units-WithinCaps k (pack_unit k s u) us (pack_unit-Bounded k s u b n) n in
    elim (Bool-cases (s.admitted == k.max_units)) [
      | inl e ↦ rw e (
          flush-WithinCaps k (carry s (u ∷ us))
            (record {
              calls = b.calls;
              open_files = b.open_files;
              open_size = b.open_size;
              taken = b.taken;
            })
            le)
      | inr e ↦ rw e (rest (ground (arith, e, le, unit-admits k s u)))
    ]

packing_of-some_file :
    (opts : PlanOptions) (measure : Call → ℕ) → 1 ≤ (packing_of opts measure).max_files
unfolding packing_of
packing_of-some_file opts measure = ground arith

-- Every whole-file call has at most `max_files` files, and measures at most the budget unless it is
-- one file that no line of a diff can be cut from; every part has an index below its count; and the
-- calls take in at most `max_units` files, a split file counting once.
pub plan_calls-WithinCaps :
    (required : List FileUnit) (accepted : String → Bool) (opts : PlanOptions) (measure : Call → ℕ)
    → WithinCaps (packing_of opts measure) (plan_calls required accepted opts measure)
plan_calls-WithinCaps required accepted opts measure =
    elim (plan_calls-cases required accepted opts measure) [
      | inl (e, _) ↦ rw e (tt, omega arith)
      | inr e ↦ rw e (
          pack_units-WithinCaps (packing_of opts measure) _ (outstanding_of required accepted)
            (record {
              calls = tt;
              open_files = omega arith;
              open_size = inl refl;
              taken = omega arith;
            })
            (packing_of-some_file opts measure) (omega arith))
    ]
