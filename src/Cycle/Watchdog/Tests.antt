-- ===== src/Cycle/Watchdog/Tests.antt =====
-- Runs of the sweep of internal/cycle/watchdog.go over two pull requests.
use crossrev.Prelude.{
  if◌then◌else◌, false, ℕ, inr, true, false, not, ◌||◌, Option, none, List, [], ◌∷◌, length, ◌≡◌,
  refl,
}
use crossrev.Core.Pass.{leg_resolve}
use crossrev.Policy.Labels.{
  label_halted, label_watchdog_retried, label_awaiting_review, label_awaiting_resolution,
  awaiting_label,
}
use crossrev.Cycle.Requests.{FatalError}
use crossrev.Cycle.Watchdog.{Waiting, Summary, Call, has_label, watch}
use crossrev.Cycle.Watchdog.Sums.{Adds, watch-Adds}
use crossrev.Cycle.Watchdog.Retries.{retried_labels, retry_fires, retry-labels}

abbrev no_failure : Call → Option FatalError
no_failure c = none

abbrev no_markers : ℕ → List ℕ
no_markers n = []

abbrev first : Waiting
first = record { pr = 7; labels = label_awaiting_review ∷ []; head_sha = "abc"; draft = false }

abbrev second : Waiting
second = record {
  pr = 8;
  labels = label_awaiting_resolution ∷ label_watchdog_retried ∷ [];
  head_sha = "def";
  draft = false;
}

abbrev nothing : Summary
nothing = record { checked = 0; retried = 0; halted = 0; drafts = 0 }

two_legs :
    (watch no_failure no_markers 0 5000 none "crossrev[bot]" (first ∷ second ∷ [])).summary
    ≡ record { checked = 2; retried = 1; halted = 1; drafts = 0 }
unfolding watch has_label crossrev.Cycle.Watchdog.retry
two_legs = refl

watch-Adds_example :
    Adds
      (length (first ∷ second ∷ []))
      (watch no_failure no_markers 0 5000 none "crossrev[bot]" (first ∷ second ∷ []))
watch-Adds_example =
    watch-Adds no_failure no_markers 0 5000 none "crossrev[bot]" (first ∷ second ∷ [])

retry-labels_example :
    (has_label (retried_labels second leg_resolve nothing) label_watchdog_retried ≡ true)
    × (has_label (retried_labels second leg_resolve nothing) (awaiting_label leg_resolve)
        ≡ not (has_label second.labels label_watchdog_retried))
    × (has_label (retried_labels second leg_resolve nothing) label_halted
        ≡ (has_label second.labels label_halted || has_label second.labels label_watchdog_retried))
    × (retry_fires second leg_resolve nothing
        ≡ (if has_label second.labels label_watchdog_retried then 0 else 1))
retry-labels_example = retry-labels second leg_resolve nothing (inr refl)
