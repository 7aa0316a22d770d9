-- ===== src/Intel/Plan/Parts.antt =====
-- The parts of one file: what they hold, and their numbers.
use mathlib.Core.List.{append_assoc, flatten}
use crossrev.Prelude.{
  ℕ, zero, suc, ◌+◌, ◌<◌, ◌≤◌, List, [], ◌∷◌, ◌++◌, map, ◌≡◌, refl, ap, ◌∙◌, length, arith, All,
  Bool-cases, inl, inr, count_if, ◌==◌, nat_Eq,
}
use crossrev.Prelude.Bytes.{Bytes}
use crossrev.Intel.Split.{Block, PartContent, part_bytes}
use crossrev.Intel.Chunk.Bodies.{bodies, part_bodies, part_bodies-repack_content}
use crossrev.Intel.Plan.{
  FileUnit, FilePart, Call, unit_blocks, shrink_content, fits_alone, rebuild, settled, verify,
  verify_rounds, number_parts, verified_contents, parts_of_blocks, split_and_verify,
}

part_bodies-append :
    (ps qs : List PartContent) → part_bodies (ps ++ qs) ≡ part_bodies ps ++ part_bodies qs
part_bodies-append [] qs = refl
part_bodies-append (p ∷ ps) qs = simp (part_bodies-append ps qs, append_assoc)

part_bodies-shrink_content :
    (pc : PartContent) (n : ℕ) → part_bodies (shrink_content pc n) ≡ bodies pc.blocks
unfolding shrink_content
part_bodies-shrink_content pc n = part_bodies-repack_content pc.header pc.blocks _

module _ (measure : Call → ℕ) (call_budget : ℕ) (unit : FileUnit) where
  part_bodies-rebuild :
      (n : ℕ) (pcs : List PartContent)
      → part_bodies (rebuild measure call_budget unit n pcs) ≡ part_bodies pcs
  unfolding rebuild
  part_bodies-rebuild n [] = refl
  part_bodies-rebuild n (pc ∷ pcs) =
      let rest = part_bodies-rebuild n pcs in
      elim (Bool-cases (fits_alone measure call_budget unit pc)) [
        | inl f ↦ rw f (ap (λ r. bodies pc.blocks ++ r) rest)
        | inr f ↦ rw f (
            simp (
              part_bodies-append (shrink_content pc n) (rebuild measure call_budget unit n pcs),
              part_bodies-shrink_content,
              rest,
            ))
      ]

  part_bodies-verify :
      (rounds n : ℕ) (pcs : List PartContent)
      → part_bodies (verify measure call_budget unit rounds n pcs) ≡ part_bodies pcs
  unfolding verify
  part_bodies-verify zero n pcs = refl
  part_bodies-verify (suc rounds) n pcs = elim (Bool-cases (settled measure call_budget unit pcs)) [
    | inl s ↦ rw s (part_bodies-rebuild n pcs)
    | inr s ↦ rw s (part_bodies-verify rounds n _ ∙ part_bodies-rebuild n pcs)
  ]

-- The parts from the index `i` on of `count` parts in all.
abbrev pub AreNumbered : ℕ → ℕ → List FilePart → Type 0
AreNumbered count i [] = i ≡ count
AreNumbered count i (p ∷ ps) = (p.index ≡ i) × (p.count ≡ count) × AreNumbered count (i + 1) ps

number_parts-AreNumbered :
    (unit : FileUnit) (count i : ℕ) (pcs : List PartContent)
    → i + length pcs ≡ count
    → AreNumbered count i (number_parts unit count i pcs)
unfolding number_parts
number_parts-AreNumbered unit count i [] e = omega (arith, e)
number_parts-AreNumbered unit count i (pc ∷ pcs) e =
    (refl, refl, number_parts-AreNumbered unit count (i + 1) pcs (omega (arith, e)))

diff-number_parts :
    (unit : FileUnit) (count i : ℕ) (pcs : List PartContent)
    → map (λ p. p.diff) (number_parts unit count i pcs) ≡ map part_bytes pcs
unfolding number_parts
diff-number_parts unit count i [] = refl
diff-number_parts unit count i (pc ∷ pcs) =
    ap (λ r. part_bytes pc ∷ r) (diff-number_parts unit count (i + 1) pcs)

pub length-number_parts :
    (unit : FileUnit) (count i : ℕ) (pcs : List PartContent)
    → length (number_parts unit count i pcs) ≡ length pcs
unfolding number_parts
length-number_parts unit count i [] = refl
length-number_parts unit count i (pc ∷ pcs) = ap suc (length-number_parts unit count (i + 1) pcs)

lt_count :
    (n i : ℕ) (ps : List FilePart) → AreNumbered n i ps → (i ≤ n) × All (λ p. p.index < p.count) ps
lt_count n i [] h = (omega (arith, h), tt)
lt_count n i (p ∷ ps) (e, f, h) =
    let (le, rest) = lt_count n (i + 1) ps h in (omega (arith, le), (omega (arith, e, f, le), rest))

no_first :
    (n i : ℕ) (ps : List FilePart)
    → 0 < i
    → AreNumbered n i ps
    → count_if (λ p. p.index == 0) ps ≡ 0
no_first n i [] l h = refl
no_first n i (p ∷ ps) l (e, f, h) = ground (arith, e, l, no_first n (i + 1) ps (omega arith) h)

pub AreNumbered-bounds :
    (n : ℕ) (ps : List FilePart)
    → AreNumbered n 0 ps
    → All (λ p. p.index < p.count) ps × (count_if (λ p. p.index == 0) ps ≤ 1)
AreNumbered-bounds n [] h = (tt, omega arith)
AreNumbered-bounds n (p ∷ ps) h =
    ((lt_count n 0 (p ∷ ps) h).1, ground (arith, no_first n 1 ps (omega arith) h.2))

number_all :
    (unit : FileUnit) (pcs : List PartContent)
    → let ps = number_parts unit (length pcs) 0 pcs in AreNumbered (length ps) 0 ps
number_all unit pcs =
    rw (length-number_parts unit (length pcs) 0 pcs)
      (number_parts-AreNumbered unit (length pcs) 0 pcs (omega arith))

-- The parts of `blocks`: their diffs are contents with the body lines of the blocks, and they are
-- numbered through.
abbrev pub Covers : List Block → List FilePart → Type 0
Covers blocks ps =
    (contents : List PartContent) × (map (λ p. p.diff) ps ≡ map part_bytes contents)
    × (part_bodies contents ≡ bodies blocks)
    × AreNumbered (length ps) 0 ps

parts_of_blocks-Covers :
    (measure : Call → ℕ) (unit : FileUnit) (call_budget shared_bytes : ℕ) (header : List Bytes)
    (blocks : List Block)
    → Covers blocks (parts_of_blocks measure unit call_budget shared_bytes (header, blocks))
unfolding parts_of_blocks
parts_of_blocks-Covers measure unit call_budget shared_bytes header [] = (
  record { header = []; blocks = [] } ∷ [],
  unfold part_bytes flatten in refl,
  refl,
  (refl, refl, refl),
)
parts_of_blocks-Covers measure unit call_budget shared_bytes header (b ∷ bs) = (
  verified_contents measure unit call_budget shared_bytes (header, b ∷ bs),
  diff-number_parts unit _ 0 _,
  part_bodies-verify measure call_budget unit verify_rounds _ _
      ∙ part_bodies-repack_content header (b ∷ bs) _,
  number_all unit _,
)

-- Whatever a call measures and however often a part is packed again, the parts of a file hold the
-- body lines of the file's blocks, each once and in order, and are numbered from 0 to their count.
pub split_and_verify-Covers :
    (unit : FileUnit) (call_budget shared_bytes : ℕ) (measure : Call → ℕ)
    → Covers (unit_blocks unit).1 (split_and_verify unit call_budget shared_bytes measure)
unfolding split_and_verify
split_and_verify-Covers unit call_budget shared_bytes measure =
    parts_of_blocks-Covers measure unit call_budget shared_bytes (unit_blocks unit).0
      (unit_blocks unit).1
