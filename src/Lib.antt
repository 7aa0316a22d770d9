-- ===== src/Lib.antt =====
-- Crossrev reviews a pull request with one AI tool and resolves the findings with another, in passes,
-- until nothing is left or a cap is reached. All of its state stands on the pull request: labels,
-- and markers in comments. The parts modelled here decide; what they call (GitHub, git, the tools,
-- JSON) is a parameter or is taken at its result.
--
-- Core (internal/core): the vocabulary that the parts share, as texts, with a parser for each word
-- list (Finding, Resolution, Status, Pass, Coverage), revisions and slugs (Revision), and the line
-- spans that a reviewer was shown (Spans: `MergeLineSpans`, `Union`, `CoversHead`).
-- Policy (internal/policy): pure rules over records of counts and flags: `Converged`
-- (Convergence), `ShouldContinue` (Termination), `ShouldFix` (Severity), the labels of finished
-- passes (Labels) and their colours and descriptions (Badges), what may be driven again (Redrive),
-- and the guards on a push, the environment and the models (Guards).
-- Intel (internal/intel): packing the files of a pass into calls. Split and Chunk model split.go on
-- lists of bytes, Plan models `splitAndVerify` and the records of batch.go and budget.go, Pack the
-- loop of `PlanCalls`, and Merge `MergeSplitVerdicts`. What a rendered call measures is a function
-- that the packing is given, as in the source.
-- State (internal/prstate): markers and the coverage handle on one (Marker), and what is read off a
-- list of them (Passes). A field that is absent, null or set is an `Opt`. Findings and resolutions
-- are JSON in the source; a marker here holds what decoding gives, `none` where it fails.
-- Cycle (internal/cycle): the readings of finished legs (Readings: count.go, `readReview`,
-- `readResolve`) and the driver (Driver: `Driver.Run`, `finishAtBound`) over two legs, a context
-- load and a pairing check that act on a world of any type. A run is the list of the events that
-- it makes and how it stopped. Watchdog is the sweep of `Watchdog.Run` for legs that never
-- finished, as the list of its writes, its counters and the error that stopped it. Cycle uses
-- State and Policy; of the other parts only Resolve uses Cycle, for what a status reads of coverage.
-- Status says in a word how the loop stands, from the labels, the markers and the coverage that they
-- name, and Restart puts a halted pull request back to a leg. Liveness is the probe that says whether
-- the run behind a claim still works.
-- Diff (internal/diff): the parser (Parser, over Quoting), and what is read off a parsed diff:
-- `LineRanges` (Ranges), `Anchor` and `ChangedLine` (Anchor), and the texts of `Numbered`, `Excluded`
-- and `Only` (Output).
-- Review (internal/review): Ledger is the store of coverage that falls back from git refs to the marker,
-- and the parent of a publication. The stores stand behind an interface (State/Ledger); the marker
-- store is State/MarkerStore (markerstore.go), over a codec that is a parameter, and the store on refs
-- is a parameter.
-- Resolve (internal/resolve): Convergence is the coverage that a settling resolve pass reads, and the
-- label that it leaves (convergence.go, mutate.go).
-- Vcs (internal/vcs): Lock is the run lock of a pull request, on a disk that is a function from paths,
-- for a process whose machine is a parameter. Liveness reads the line that Lock writes.
-- Prompt (internal/prompt): Quote is the quoting of repository text. RefName in State (refname.go) names
-- the ref of a slot.
-- Forge (internal/forge): Count is the daily count over the pages of comments, on fuel that counts pages.
--
-- Counts, sizes, line numbers and pass numbers are natural numbers: where Go could find a negative
-- difference the test that follows treats it as 0. The loop of the driver is recursion on the passes
-- that are left of the cap, and the rounds of `splitAndVerify` on the rounds that are left of five,
-- as in the source; `itoa` has the number's value plus one as fuel, which is more than its digits.
-- `sort.Slice` and `sort.Ints` are insertion sorts. The integer arithmetic of `OverBudget` stands for
-- a floating-point product that is exact below 2 ^ 51.
--
-- A hunk header that starts at a negative number, which git never writes, is not modelled. Line
-- numbers of spans are unbounded, where `End + 1` in `MergeLineSpans` wraps at 2 ^ 63 - 1. The records of
-- a generation are read at their kind and verdict, and its paths at their number.
--
-- Not modelled: the rest of the review and resolve legs, the store on refs and the codecs of internal/prstate,
-- configuration, the clipping of diffs, git, the rest of the forge, harness descriptors, the
-- rendering of prompts, credentials and the command line; skip reasons, and `ComputeLimits`, which
-- computes in floating point.
mod Prelude
pub mod Core
pub mod Policy
pub mod Intel
pub mod State
pub mod Cycle
pub mod Diff
pub mod Review
pub mod Prompt
pub mod Resolve
pub mod Vcs
pub mod Forge
