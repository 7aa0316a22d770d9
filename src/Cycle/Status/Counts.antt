-- ===== src/Cycle/Status/Counts.antt =====
-- The tally of the records of a generation, count by count.
use crossrev.Prelude.{
  arith, ◌+◌, suc, Bool, true, false, List, [], ◌∷◌, ◌≡◌, ◌≢◌, refl, count_if, nat_Eq, text_Eq,
  eq_iff, All, ◌==◌, if◌then◌else◌,
}
use crossrev.Core.Coverage.{file_verdict_could_not_review}
use crossrev.Policy.Convergence.{Convergence}
use crossrev.State.Opt.{value}
use crossrev.Cycle.Status.{
  CoverageRecord, Tally, left, covered, unread, ignored, tally_of, count,
  coverage_record_outstanding, coverage_record_unit, tally, Coverage, convergence_of, untallied,
}

abbrev counts_left : Tally → Bool
counts_left left = true
counts_left covered = false
counts_left unread = false
counts_left ignored = false

abbrev counts_unread : Tally → Bool
counts_unread left = false
counts_unread covered = false
counts_unread unread = true
counts_unread ignored = false

abbrev counts_covered : Tally → Bool
counts_covered left = false
counts_covered covered = true
counts_covered unread = true
counts_covered ignored = false

abbrev is_left : CoverageRecord → Bool
is_left r = counts_left (tally_of r)

abbrev is_unread : CoverageRecord → Bool
is_unread r = counts_unread (tally_of r)

abbrev has_verdict : CoverageRecord → Bool
has_verdict r = counts_covered (tally_of r)

-- A record of a file.
abbrev pub is_unit : CoverageRecord → Bool
is_unit r = r.kind == coverage_record_unit

-- What the loop over the records adds, and what it leaves alone.
abbrev pub Adds : Convergence → List CoverageRecord → Convergence → Type 0
Adds c rs t =
    (t.covered ≡ c.covered + count_if has_verdict rs)
    × (t.outstanding ≡ c.outstanding + count_if is_left rs)
    × (t.could_not_review ≡ c.could_not_review + count_if is_unread rs)
    × (t.unresolved_fixable ≡ c.unresolved_fixable)
    × (t.ledger_current ≡ c.ledger_current)
    × (t.required ≡ c.required)
    × (t.scope_reported ≡ c.scope_reported)
    × (t.confirmation_required ≡ c.confirmation_required)

-- What one case adds, and the records after it.
abbrev AddsCase : Convergence → Tally → List CoverageRecord → Convergence → Type 0
AddsCase c k rs t =
    (t.covered
      ≡ c.covered
        + (if counts_covered k then suc (count_if has_verdict rs) else count_if has_verdict rs))
    × (t.outstanding
        ≡ c.outstanding
          + (if counts_left k then suc (count_if is_left rs) else count_if is_left rs))
    × (t.could_not_review
        ≡ c.could_not_review
          + (if counts_unread k then suc (count_if is_unread rs) else count_if is_unread rs))
    × (t.unresolved_fixable ≡ c.unresolved_fixable)
    × (t.ledger_current ≡ c.ledger_current)
    × (t.required ≡ c.required)
    × (t.scope_reported ≡ c.scope_reported)
    × (t.confirmation_required ≡ c.confirmation_required)

case-Adds :
    (k : Tally) (c u : Convergence) (rs : List CoverageRecord)
    → Adds (count k c) rs u
    → AddsCase c k rs u
unfolding count
case-Adds left c u rs h = ground arith
case-Adds covered c u rs h = ground arith
case-Adds unread c u rs h = ground arith
case-Adds ignored c u rs h = ground arith

pub tally-Adds : (c : Convergence) (rs : List CoverageRecord) → Adds c rs (tally c rs)
unfolding tally
tally-Adds c [] = ground arith
tally-Adds c (r ∷ rs) =
    case-Adds (tally_of r) c (tally (count (tally_of r) c) rs) rs
      (tally-Adds (count (tally_of r) c) rs)

-- Neither outstanding, nor of a file without a verdict or with that it could not be reviewed.
abbrev pub IsSettled : CoverageRecord → Type 0
IsSettled r =
    (r.kind ≢ coverage_record_outstanding)
    × ((r.kind ≡ coverage_record_unit)
        → (value "" r.verdict ≢ "") × (value "" r.verdict ≢ file_verdict_could_not_review))

record-IsSettled :
    (r : CoverageRecord)
    → is_left r ≡ false
    → is_unread r ≡ false
    → IsSettled r × (has_verdict r ≡ is_unit r)
unfolding tally_of
record-IsSettled r h k = ground (
  arith,
  eq_iff r.kind coverage_record_outstanding,
  eq_iff r.kind coverage_record_unit,
  eq_iff (value "" r.verdict) "",
  eq_iff (value "" r.verdict) file_verdict_could_not_review,
)

records-IsSettled :
    (rs : List CoverageRecord)
    → count_if is_left rs ≡ 0
    → count_if is_unread rs ≡ 0
    → All IsSettled rs × (count_if has_verdict rs ≡ count_if is_unit rs)
records-IsSettled [] h k = (tt, refl)
records-IsSettled (r ∷ rs) h k =
    let a : (is_left r ≡ false) × (count_if is_left rs ≡ 0) = ground arith in
    let b : (is_unread r ≡ false) × (count_if is_unread rs ≡ 0) = ground arith in
    let (settled, unit) = record-IsSettled r a.0 b.0 in
    let (all_settled, units) = records-IsSettled rs a.1 b.1 in
    ((settled, all_settled), rw (unit, units) refl)

-- A tally from nothing that leaves no record outstanding and none unread has settled each record,
-- and covered as many as there are records of files.
pub tally-IsSettled :
    (c : Convergence) (rs : List CoverageRecord)
    → c.covered ≡ 0
    → (tally c rs).outstanding ≡ 0
    → (tally c rs).could_not_review ≡ 0
    → All IsSettled rs × ((tally c rs).covered ≡ count_if is_unit rs)
tally-IsSettled c rs e h k =
    let t = tally-Adds c rs in
    let (settled, units) = records-IsSettled rs (omega (arith, t, h)) (omega (arith, t, k)) in
    (settled, omega (arith, t, e, units))

-- The counts of a report.
pub convergence_of-Adds :
    (coverage : Coverage) → Adds (untallied coverage) coverage.records (convergence_of coverage)
unfolding convergence_of
convergence_of-Adds coverage = tally-Adds (untallied coverage) coverage.records
