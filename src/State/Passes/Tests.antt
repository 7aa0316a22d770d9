-- ===== src/State/Passes/Tests.antt =====
-- Two reviews, of which the second was declined.
use crossrev.Prelude.{nat_Eq, List, [], ◌∷◌, ◌≡◌, refl}
use crossrev.Core.Pass.{declined}
use crossrev.State.Marker.{Marker, zero_marker}
use crossrev.State.Passes.{next_pass, max_pass}

abbrev two_reviews : List Marker
two_reviews =
    record zero_marker { leg = "review"; pass = 1; state = "complete" }
    ∷ record zero_marker { leg = "review"; pass = 2; state = "declined" }
    ∷ []

-- The declined pass is shown but not numbered past.
two_reviews_numbers : (next_pass two_reviews ≡ 2) × (max_pass two_reviews ≡ 2)
unfolding next_pass max_pass declined
two_reviews_numbers = (refl, refl)
