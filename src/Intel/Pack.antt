-- ===== src/Intel/Pack.antt =====
-- internal/intel/batch.go: `PlanCalls`, the loop that fills the calls of a pass.
pub mod Collected
pub mod Taking
pub mod Steps
pub mod Placing
pub mod Bounds
pub mod Halting
mod Tests
use crossrev.Prelude.{
  ℕ, ◌+◌, String, Bool, true, false, not, ◌&&◌, ◌||◌, List, [], ◌∷◌, ◌++◌, map, ◌==◌, ◌!=◌, nat_Eq,
  text_Eq, ltb, leb, length, filter_if, if◌then◌else◌,
}
use crossrev.Prelude.Bytes.{Bytes}
use crossrev.Intel.Split.{Block}
use crossrev.Intel.Plan.{
  FileUnit, Call, files, part, BatchPlan, Limits, PlanOptions, is_over_budget, shared_context_halts,
  unit_blocks, split_and_verify,
}

abbrev pub max_files_per_batch : ℕ
max_files_per_batch = 40

abbrev pub max_units_per_pass : ℕ
max_units_per_pass = 400

abbrev pub carry_review_budget_reached : String
carry_review_budget_reached = "review_budget_reached"

abbrev pub halt_shared_context : String
halt_shared_context = "shared_context_exceeds_window"

-- What the loop reads and does not change.
pub record Packing : Type 0 where
  pub max_files : ℕ
  pub max_units : ℕ
  pub call_budget : ℕ
  pub shared_bytes : ℕ
  pub measure : Call → ℕ

-- The plan so far, the open call, and `admittedCount`.
pub record Packed : Type 0 where
  pub plan : BatchPlan
  pub current : List FileUnit
  pub admitted : ℕ

unfoldable pub add_calls : BatchPlan → List Call → BatchPlan
add_calls plan calls = record plan { calls = plan.calls ++ calls }

abbrev pub open_call : List FileUnit → List Call
open_call [] = []
open_call (u ∷ us) = files (u ∷ us) ∷ []

pub flush : Packed → Packed
flush s = record s { plan = add_calls s.plan (open_call s.current); current = [] }

pub fits : Packing → List FileUnit → Bool
fits k us = leb (k.measure (files us)) k.call_budget

pub has_blocks : List Bytes × List Block → Bool
has_blocks (header, []) = false
has_blocks (header, b ∷ bs) = true

-- A file that fits no call alone.
pub pack_oversized : Packing → Packed → FileUnit → Packed
pack_oversized k s unit =
    if unit.generated != ""
    then record s { plan = record s.plan { skipped = s.plan.skipped ++ unit ∷ [] } }
    else if not (has_blocks (unit_blocks unit))
    then record s { plan = add_calls s.plan (files (unit ∷ []) ∷ []); admitted = s.admitted + 1 }
    else record s {
      plan =
          add_calls s.plan
            (map part (split_and_verify unit k.call_budget k.shared_bytes k.measure));
      admitted = s.admitted + 1;
    }

abbrev pub admit : Packed → List FileUnit → Packed
admit s us = record s { current = us; admitted = s.admitted + 1 }

-- The candidate did not fit: the open call is closed, and the file is tried alone.
pub pack_alone : Packing → Packed → FileUnit → Packed
pack_alone k s unit =
    if length s.current == 0
    then pack_oversized k s unit
    else if fits k (unit ∷ [])
    then admit (flush s) (unit ∷ [])
    else pack_oversized k (flush s) unit

pub make_room : Packing → Packed → Packed
make_room k s = if leb k.max_files (length s.current) then flush s else s

pub pack_candidate : Packing → Packed → FileUnit → Packed
pack_candidate k s unit =
    if fits k (s.current ++ unit ∷ [])
    then admit s (s.current ++ unit ∷ [])
    else pack_alone k s unit

-- One round of the loop, below the test of the pass budget.
pub pack_unit : Packing → Packed → FileUnit → Packed
pack_unit k s unit = pack_candidate k (make_room k s) unit

pub carry : Packed → List FileUnit → Packed
carry s us = record s {
  plan = record s.plan {
    carried = s.plan.carried ++ us;
    carry_reason = carry_review_budget_reached;
  };
}

pub pack_units : Packing → Packed → List FileUnit → BatchPlan
pack_units k s [] = (flush s).plan
pack_units k s (unit ∷ units) =
    let rest = pack_units k (pack_unit k s unit) units in
    if s.admitted == k.max_units then (flush (carry s (unit ∷ units))).plan else rest

-- Go's `<` on strings.
pub path_lt : Bytes → Bytes → Bool
path_lt a [] = false
path_lt [] (d ∷ b) = true
path_lt (c ∷ a) (d ∷ b) = ltb c d || (c == d) && path_lt a b

-- `sort.Slice` by the path.
pub insert_by_path : FileUnit → List FileUnit → List FileUnit
unfolding path_lt
insert_by_path u [] = u ∷ []
insert_by_path u (v ∷ vs) =
    let rest = insert_by_path u vs in if path_lt v.path u.path then v ∷ rest else u ∷ v ∷ vs

pub sort_by_path : List FileUnit → List FileUnit
unfolding insert_by_path
sort_by_path [] = []
sort_by_path (u ∷ us) = insert_by_path u (sort_by_path us)

abbrev pub empty_plan : BatchPlan
empty_plan = record {
  calls = [];
  carried = [];
  carry_reason = "";
  skipped = [];
  halt_reason = "";
  over_budget = false;
}

abbrev pub start_packing : BatchPlan → Packed
start_packing plan = record { plan = plan; current = []; admitted = 0 }

-- The cap that applies: the option, or the default where it is zero.
abbrev pub or_default : ℕ → ℕ → ℕ
or_default n d = if leb n 0 then d else n

unfoldable pub packing_of : PlanOptions → (Call → ℕ) → Packing
packing_of opts measure = record {
  max_files = or_default opts.max_files_per_call max_files_per_batch;
  max_units = or_default opts.max_units_per_pass max_units_per_pass;
  call_budget =
      if ltb opts.limits.pack_bytes opts.shared_bytes
      then opts.limits.hard_bytes
      else opts.limits.pack_bytes;
  shared_bytes = opts.shared_bytes;
  measure = measure;
}

-- The required files with no accepted verdict, in path order.
unfoldable pub outstanding_of : List FileUnit → (String → Bool) → List FileUnit
unfolding sort_by_path
outstanding_of required accepted = sort_by_path (filter_if (λ u. not (accepted u.id)) required)

unfoldable pub plan_calls : List FileUnit → (String → Bool) → PlanOptions → (Call → ℕ) → BatchPlan
unfolding flush fits has_blocks pack_oversized pack_alone make_room pack_candidate pack_unit carry
    pack_units
plan_calls required accepted opts measure =
    if leb opts.limits.pack_bytes 0 || leb opts.limits.hard_bytes 0
    then record empty_plan { halt_reason = halt_shared_context }
    else if shared_context_halts opts.limits opts.shared_bytes
    then record empty_plan { halt_reason = halt_shared_context }
    else pack_units (packing_of opts measure)
        (start_packing
          (record empty_plan { over_budget = is_over_budget opts.limits opts.shared_bytes }))
        (outstanding_of required accepted)
