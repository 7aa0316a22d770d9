-- ===== src/Intel/Pack/Tests.antt =====
-- Three files that share two calls.
use crossrev.Prelude.{
  ◌↔◌, ℕ, ◌+◌, ◌*◌, String, Bool, false, not, List, [], ◌∷◌, ◌++◌, ◌≡◌, refl, length, count_if,
  filter_if,
}
use crossrev.Prelude.Bytes.{codes, newline}
use crossrev.Intel.Plan.{FileUnit, Call, files, part, PlanOptions, shared_context_halts}
use crossrev.Intel.Pack.{plan_calls, packing_of, outstanding_of, add_calls}
use crossrev.Intel.Pack.Collected.{split_parts}
use crossrev.Intel.Pack.Taking.{parts_of, placed}
use crossrev.Intel.Pack.Placing.{plan_calls-places, halted_plan}
use crossrev.Intel.Pack.Halting.{CannotPack, plan_calls-halted_iff}
use crossrev.Intel.Pack.Bounds.{WithinCaps, plan_calls-WithinCaps}

abbrev named_unit : String → FileUnit
named_unit name = record {
  id = name;
  path = codes name;
  body = [];
  generated = "";
  diff = codes "@@ -1,1 +1,1 @@" ++ newline ∷ codes "-x" ++ newline ∷ codes "+y";
}

abbrev three_units : List FileUnit
three_units = named_unit "b.go" ∷ named_unit "a.go" ∷ named_unit "c.go" ∷ []

abbrev nothing_accepted : String → Bool
nothing_accepted id = false

abbrev options : PlanOptions
options = record {
  limits = record { window_tokens = 200000; pack_bytes = 8000; hard_bytes = 9000 };
  shared_bytes = 100;
  max_files_per_call = 2;
  max_units_per_pass = 0;
}

abbrev by_count : Call → ℕ
by_count (files us) = length us * 1000
by_count (part p) = 500

three_units_plan : (plan_calls three_units nothing_accepted options by_count).halt_reason ≡ ""
unfolding plan_calls shared_context_halts outstanding_of packing_of add_calls
three_units_plan = refl

plan_calls-places_example :
    let plan = plan_calls three_units nothing_accepted options by_count in
    (split : List FileUnit) × (split_parts plan.calls
      ≡ parts_of (packing_of options by_count) split)
    × ((q : FileUnit → Bool)
        → placed q plan + count_if q split
          ≡ count_if q (filter_if (λ u. not (nothing_accepted u.id)) three_units))
plan_calls-places_example =
    plan_calls-places three_units nothing_accepted options by_count three_units_plan

plan_calls-WithinCaps_example :
    WithinCaps
      (packing_of options by_count)
      (plan_calls three_units nothing_accepted options by_count)
plan_calls-WithinCaps_example = plan_calls-WithinCaps three_units nothing_accepted options by_count

-- The shared context alone is past the hard limit.
abbrev crowded : PlanOptions
crowded = record options { shared_bytes = 9500 }

plan_calls-halted_iff_example :
    (plan_calls three_units nothing_accepted crowded by_count ≡ halted_plan) ↔ CannotPack crowded
plan_calls-halted_iff_example = plan_calls-halted_iff three_units nothing_accepted crowded by_count
