-- ===== src/Cycle/Status/Records.antt =====
-- What a converged tally says of the records of a generation.
use crossrev.Prelude.{
  arith, suc, ◌+◌, ◌≤◌, true, List, [], ◌∷◌, ◌≡◌, ◌≢◌, refl, length, nat_Eq, text_Eq, eq_iff, All,
}
use crossrev.Core.Coverage.{file_verdict_could_not_review}
use crossrev.Policy.Convergence.{Convergence, converged}
use crossrev.State.Opt.{value}
use crossrev.Cycle.Status.{
  CoverageRecord, Coverage, Tally, left, covered, unread, ignored, tally_of, count,
  coverage_record_outstanding, coverage_record_unit, tally, untallied, convergence_of,
}

-- A record of a file with a verdict, which is not that the file could not be reviewed.
abbrev pub IsCovered : CoverageRecord → Type 0
IsCovered r =
    (r.kind ≡ coverage_record_unit)
    × (value "" r.verdict ≢ "")
    × (value "" r.verdict ≢ file_verdict_could_not_review)

-- What the loop over the records leaves.
abbrev Tallied : Convergence → List CoverageRecord → Convergence → Type 0
Tallied c rs t =
    (t.covered ≤ c.covered + length rs)
    × (c.outstanding ≤ t.outstanding)
    × (c.could_not_review ≤ t.could_not_review)
    × (t.required ≡ c.required)
    × (t.scope_reported ≡ c.scope_reported)

count-Tallied :
    (t : Tally) (c u : Convergence) (r : CoverageRecord) (rs : List CoverageRecord)
    → Tallied (count t c) rs u
    → Tallied c (r ∷ rs) u
unfolding count
count-Tallied left c u r rs h = ground arith
count-Tallied covered c u r rs h = ground arith
count-Tallied unread c u r rs h = ground arith
count-Tallied ignored c u r rs h = ground arith

tally-Tallied : (c : Convergence) (rs : List CoverageRecord) → Tallied c rs (tally c rs)
unfolding tally
tally-Tallied c [] = ground arith
tally-Tallied c (r ∷ rs) =
    count-Tallied (tally_of r) c (tally (count (tally_of r) c) rs) r rs
      (tally-Tallied (count (tally_of r) c) rs)

-- Full counts leave no other case than `covered`.
count-covered :
    (t : Tally) (c u : Convergence) (rs : List CoverageRecord)
    → Tallied (count t c) rs u
    → u.covered ≡ c.covered + suc (length rs)
    → u.outstanding ≡ c.outstanding
    → u.could_not_review ≡ c.could_not_review
    → t ≡ covered
unfolding count
count-covered left c u rs h a b d = absurd (omega (arith, h, a, b))
count-covered covered c u rs h a b d = refl
count-covered unread c u rs h a b d = absurd (omega (arith, h, a, d))
count-covered ignored c u rs h a b d = absurd (omega (arith, h, a))

covered-IsCovered : (r : CoverageRecord) → tally_of r ≡ covered → IsCovered r
unfolding tally_of
covered-IsCovered r h = ground (
  arith,
  eq_iff r.kind coverage_record_outstanding,
  eq_iff r.kind coverage_record_unit,
  eq_iff (value "" r.verdict) "",
  eq_iff (value "" r.verdict) file_verdict_could_not_review,
)

tally-IsCovered :
    (c : Convergence) (rs : List CoverageRecord)
    → (tally c rs).covered ≡ c.covered + length rs
    → (tally c rs).outstanding ≡ c.outstanding
    → (tally c rs).could_not_review ≡ c.could_not_review
    → All IsCovered rs
unfolding tally count
tally-IsCovered c [] h k l = tt
tally-IsCovered c (r ∷ rs) h k l =
    let f = tally-Tallied (count (tally_of r) c) rs in
    let e = count-covered (tally_of r) c (tally (count (tally_of r) c) rs) rs f h k l in
    let step : count (tally_of r) c ≡ record c { covered = c.covered + 1 } = rw e refl in
    (
      covered-IsCovered r e,
      tally-IsCovered (count (tally_of r) c) rs (ground (arith, h, step)) (ground (arith, k, step))
          (ground (arith, l, step)),
    )

converged-parts :
    (c : Convergence)
    → converged c ≡ true
    → (1 ≤ c.required)
      × (c.covered ≡ c.required)
      × (c.outstanding ≡ 0)
      × (c.could_not_review ≡ 0)
      × (c.scope_reported ≡ true)
unfolding converged
converged-parts c h = ground arith

-- A converged tally of a generation covers each of its records, and there is one.
pub convergence_of-All :
    (coverage : Coverage)
    → converged (convergence_of coverage) ≡ true
    → (1 ≤ length coverage.records)
      × All IsCovered coverage.records
      × (coverage.examined_scope ≢ "")
unfolding convergence_of
convergence_of-All coverage h =
    let p = converged-parts (convergence_of coverage) h in
    let t = tally-Tallied (untallied coverage) coverage.records in
    (
      omega (arith, p, t),
      tally-IsCovered (untallied coverage) coverage.records (omega (arith, p, t)) p.2 p.3,
      ground (arith, p, t, eq_iff coverage.examined_scope ""),
    )
