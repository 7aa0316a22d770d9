-- ===== src/Cycle/Watchdog/Ends.antt =====
-- A leg that stays silent is given up on at the second sweep.
use crossrev.Prelude.{ℕ, ◌-◌, ◌≤◌, String, false, none, List, [], ◌∷◌, ◌≡◌, text_Eq, nat_Eq}
use crossrev.Policy.Labels.{label_stop}
use crossrev.Cycle.Watchdog.{Waiting, Summary, has_label, in_force, last_time, watch}
use crossrev.Cycle.Watchdog.Events.{after_calls}

module _ (marker_times : ℕ → List ℕ) (timeout now : ℕ) (author : String) where
  -- The labels of a pull request after a sweep over it alone, whose writes all land.
  abbrev pub swept_labels : Waiting → List String
  swept_labels pr =
      after_calls pr.pr pr.labels
        (watch (λ c. none) marker_times timeout now none author (pr ∷ [])).calls

  -- No trusted marker is younger than the timeout, nobody stopped the loop, and it is no draft.
  abbrev pub IsStuck : Waiting → Type 0
  IsStuck pr =
      (has_label pr.labels label_stop ≡ false)
      × (pr.draft ≡ false)
      × ((t : ℕ) (ts : List ℕ)
          → marker_times pr.pr ≡ t ∷ ts
          → in_force timeout ≤ now - last_time (λ c. none) marker_times timeout now none t ts)

  abbrev one_checked : Summary
  one_checked = record { checked = 1; retried = 0; halted = 0; drafts = 0 }
