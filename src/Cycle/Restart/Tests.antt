-- ===== src/Cycle/Restart/Tests.antt =====
-- A restart of a halted pull request on which nothing ran.
use crossrev.Prelude.{
  ℕ, ◌≢◌, inl, String, true, false, Option, none, some, [], ◌∷◌, ◌≡◌, refl, Result, ok, err,
}
use crossrev.Prelude.Bytes.{codes}
use crossrev.Core.Pass.{leg_review}
use crossrev.Core.Revision.{Slug}
use crossrev.Policy.Labels.{
  label_halted, label_watchdog_retried, label_awaiting_review, awaiting_label,
}
use crossrev.Cycle.Requests.{FatalError}
use crossrev.Cycle.Status.{StatusInput}
use crossrev.Cycle.Watchdog.{Call, add, remove, has_label}
use crossrev.Cycle.Restart.{Pull, restart}
use crossrev.Cycle.Restart.Guards.{MayRewrite, restart-MayRewrite}
use crossrev.Cycle.Restart.Rewrites.{restarted_labels, restart-labels}

abbrev slug : Slug
slug = record { owner = "o"; name = "n" }

abbrev halted : Pull
halted = record {
  state = codes "open";
  labels = label_halted ∷ label_watchdog_retried ∷ "bug" ∷ [];
}

abbrev nothing_ran : StatusInput
nothing_ran = record {
  labels = halted.labels;
  markers = [];
  coverage = record {
    refs = none;
    marker = λ h. err (record { text = []; refused = false; lost = true });
    producer = record { harness = "claude"; model = ""; effort = ""; endpoint = "" };
  };
  base = record { sha = "b"; ref = "" };
  head = record { sha = "h"; ref = "" };
  head_sha = "h";
  min_fix = "high";
  resolutions = λ m. [];
  findings = λ m. [];
}

abbrev lands : Call → Option FatalError
lands c = none

abbrev pulls : Slug → ℕ → Option Pull
pulls repo pr = some halted

abbrev inputs : Slug → ℕ → Pull → Result FatalError StatusInput
inputs repo pr pull = ok nothing_ran

restart_writes :
    (restart lands none pulls inputs slug 7).calls
    ≡ add 7 label_awaiting_review ∷ remove 7 label_halted ∷ remove 7 label_watchdog_retried ∷ []
unfolding restart crossrev.Core.Revision.slug_incomplete awaiting_label
    crossrev.State.Passes.marker_for crossrev.Cycle.Status.status_markers_escalated
restart_writes = refl

restart-MayRewrite_example :
    MayRewrite lands none pulls inputs 7 (restart lands none pulls inputs slug 7)
restart-MayRewrite_example = restart-MayRewrite lands none pulls inputs slug 7

restart-labels_example :
    (let after = restarted_labels 7 halted.labels leg_review in
      (has_label after (awaiting_label leg_review) ≡ true)
      × (has_label after label_halted ≡ false)
      × (has_label after label_watchdog_retried ≡ false)
      × ((want : String)
          → want ≢ awaiting_label leg_review
          → want ≢ label_halted
          → want ≢ label_watchdog_retried
          → has_label after want ≡ has_label halted.labels want))
restart-labels_example = restart-labels 7 halted.labels leg_review (inl refl)
