-- ===== src/Intel/Plan.antt =====
-- internal/intel/batch.go: packing the outstanding files of a pass into calls. Sizes and budgets
-- are natural numbers: a difference that Go finds negative is 0 here, and falls under the same test.
-- What a call measures when it is rendered is a parameter, as it is in the source.
pub mod Parts
mod Tests
use crossrev.Prelude.{
  ℕ, zero, suc, ◌+◌, ◌-◌, ◌*◌, ◌/◌, ◌≤◌, String, Bool, true, false, not, ◌&&◌, ◌||◌, List, [], ◌∷◌,
  ◌++◌, Option, none, some, ◌==◌, ◌!=◌, nat_Eq, text_Eq, ltb, leb, length, filter_if, if◌then◌else◌,
}
use crossrev.Prelude.Bytes.{Bytes}
use crossrev.Intel.Split.{
  Block, PartContent, part_bytes, content_bytes, split_diff_content, synth_blocks,
}
use crossrev.Intel.Chunk.{repack_content}

-- The fields of `FileUnit` that packing reads.
pub record FileUnit : Type 0 where
  pub id : String
  pub path : Bytes
  pub body : Bytes
  pub generated : String
  pub diff : Bytes

pub record FilePart : Type 0 where
  pub unit : FileUnit
  pub index : ℕ
  pub count : ℕ
  pub diff : Bytes

-- A `Call` has files or a part.
pub data Call : Type 0 where
  files : List FileUnit → Call
  part : FilePart → Call

pub record BatchPlan : Type 0 where
  pub calls : List Call
  pub carried : List FileUnit
  pub carry_reason : String
  pub skipped : List FileUnit
  pub halt_reason : String
  pub over_budget : Bool

-- internal/intel/budget.go.
pub record Limits : Type 0 where
  pub window_tokens : ℕ
  pub pack_bytes : ℕ
  pub hard_bytes : ℕ

pub record PlanOptions : Type 0 where
  pub limits : Limits
  pub shared_bytes : ℕ
  pub max_files_per_call : ℕ
  pub max_units_per_pass : ℕ

-- `OverBudget`. `int(0.75 * float64(p))` is exact for every p below 2 ^ 51.
unfoldable pub is_over_budget : Limits → ℕ → Bool
is_over_budget l shared_bytes =
    if leb l.pack_bytes 0
    then false
    else leb (l.pack_bytes * 3 / 4) shared_bytes && leb shared_bytes l.hard_bytes

unfoldable pub shared_context_halts : Limits → ℕ → Bool
shared_context_halts l shared_bytes = ltb 0 l.hard_bytes && ltb l.hard_bytes shared_bytes

abbrev or_synthesised : FileUnit → List Bytes × List Block → List Bytes × List Block
or_synthesised unit (header, b ∷ bs) = (header, b ∷ bs)
or_synthesised unit (header, []) =
    if length unit.body == 0 then ([], []) else synth_blocks unit.path unit.body

unfoldable pub unit_blocks : FileUnit → List Bytes × List Block
unit_blocks unit =
    if length unit.diff == 0
    then or_synthesised unit ([], [])
    else or_synthesised unit (split_diff_content unit.diff)

at_least_one : ℕ → ℕ
at_least_one n = if ltb n 1 then 1 else n

unfoldable pub shrink_content : PartContent → ℕ → List PartContent
unfolding at_least_one
shrink_content pc content_budget =
    let half = at_least_one (content_bytes pc / 2) in
    repack_content pc.header pc.blocks
      (if leb content_budget half then at_least_one (content_budget / 2) else half)

module _ (measure : Call → ℕ) (call_budget : ℕ) (unit : FileUnit) where
  -- The test of one content: the part is measured before it has an index.
  pub fits_alone : PartContent → Bool
  fits_alone pc =
      leb (measure (part (record { unit = unit; index = 0; count = 0; diff = part_bytes pc })))
        call_budget

  pub rebuild : ℕ → List PartContent → List PartContent
  rebuild content_budget [] = []
  rebuild content_budget (pc ∷ pcs) =
      (if fits_alone pc then pc ∷ [] else shrink_content pc content_budget)
      ++ rebuild content_budget pcs

  pub settled : List PartContent → Bool
  settled [] = true
  settled (pc ∷ pcs) = fits_alone pc && settled pcs

  -- The rounds that are left of `verifyRounds`.
  pub verify : ℕ → ℕ → List PartContent → List PartContent
  unfolding fits_alone rebuild settled
  verify zero content_budget contents = contents
  verify (suc rounds) content_budget contents =
      let again = verify rounds content_budget (rebuild content_budget contents) in
      if settled contents then rebuild content_budget contents else again

abbrev pub verify_rounds : ℕ
verify_rounds = 5

abbrev pub part_slack_bytes : ℕ
part_slack_bytes = 4 * 1024

unfoldable pub content_budget_of : ℕ → ℕ → ℕ
content_budget_of call_budget shared_bytes =
    let b = call_budget - shared_bytes - part_slack_bytes in if ltb b 512 then 512 else b

pub number_parts : FileUnit → ℕ → ℕ → List PartContent → List FilePart
number_parts unit count index [] = []
number_parts unit count index (pc ∷ pcs) =
    record { unit = unit; index = index; count = count; diff = part_bytes pc }
    ∷ number_parts unit count (index + 1) pcs

abbrev pub verified_contents :
    (Call → ℕ) → FileUnit → ℕ → ℕ → List Bytes × List Block → List PartContent
verified_contents measure unit call_budget shared_bytes (header, blocks) =
    let content_budget = content_budget_of call_budget shared_bytes in
    verify measure call_budget unit verify_rounds content_budget
      (repack_content header blocks content_budget)

parts_of_blocks : (Call → ℕ) → FileUnit → ℕ → ℕ → List Bytes × List Block → List FilePart
parts_of_blocks measure unit call_budget shared_bytes (header, []) =
    record { unit = unit; index = 0; count = 1; diff = [] } ∷ []
parts_of_blocks measure unit call_budget shared_bytes (header, b ∷ bs) =
    let contents = verified_contents measure unit call_budget shared_bytes (header, b ∷ bs) in
    number_parts unit (length contents) 0 contents

unfoldable pub split_and_verify : FileUnit → ℕ → ℕ → (Call → ℕ) → List FilePart
unfolding verify number_parts parts_of_blocks
split_and_verify unit call_budget shared_bytes measure =
    parts_of_blocks measure unit call_budget shared_bytes (unit_blocks unit)
