-- ===== src/Cycle/Driver/Guards.antt =====
-- What is known of the pull request when a leg runs.
use crossrev.Prelude.{
  ◌≤◌, ◌≢◌, Result, ℕ, ◌<◌, ◌⊎◌, Bool, true, false, Option, none, some, List, [], ◌∷◌, ok, err, ◌≡◌,
  text_Eq, nat_Eq, arith, if◌then◌else◌,
}
use crossrev.Core.Pass.{leg_review, pass_started, pass_complete}
use crossrev.State.Marker.{Marker}
use crossrev.State.Passes.{marker_for, or_zero, current_review_pass}
use crossrev.Cycle.Readings.{
  State, ReviewReading, review_continues, review_halted, review_finished, ResolveReading,
  resolve_continues, resolve_halted, resolve_converged, read_review,
}
use crossrev.Cycle.Requests.{
  Request, LegRequest, FatalError, Driver, Event, loaded, review_ran, resolve_ran, said, ended,
  nudged, Trace, stop,
}
use crossrev.Cycle.Driver.{tip, after_review, after_resolve, after_load, after_leg}

abbrev pub newest_review : State → Marker
newest_review s = or_zero (marker_for s.markers (current_review_pass s.markers) leg_review)

-- The newest review pass is below the cap; or it is at the cap and unfinished, and then the leg is
-- told to apply the cap itself unless the pass has an open claim, which it resumes.
abbrev pub MayReview : ℕ → Option State → LegRequest → Type 0
MayReview max none leg = ⊥
MayReview max (some s) leg =
    (current_review_pass s.markers < max)
    ⊎ ((max ≤ current_review_pass s.markers)
        × ((newest_review s).state ≢ pass_complete)
        × ((leg.continuation ≡ true) ⊎ ((newest_review s).state ≡ pass_started)))

-- The newest review pass left something for the resolve leg.
abbrev pub MayResolve : Option State → Type 0
MayResolve none = ⊥
MayResolve (some s) = read_review s (current_review_pass s.markers) ≡ review_continues

-- Each leg is allowed by the state that was loaded since the leg before it.
abbrev pub Guarded : ℕ → Option State → List Event → Type 0
Guarded max last [] = Unit
Guarded max last (loaded s ∷ es) = Guarded max (some s) es
Guarded max last (review_ran leg ∷ es) = MayReview max last leg × Guarded max none es
Guarded max last (resolve_ran leg ∷ es) = MayResolve last × Guarded max none es
Guarded max last (said line ∷ es) = Guarded max last es
Guarded max last (ended line ∷ es) = Guarded max last es
Guarded max last (nudged ∷ es) = Guarded max last es

pub tip-Guarded : (req : Request) (max : ℕ) (last : Option State) → Guarded max last (tip req).0
tip-Guarded req max last = ground arith

tip_if-Guarded :
    (tips : Bool) (req : Request) (max : ℕ) (last : Option State)
    → Guarded max last (if tips then tip req else stop 0 none).0
tip_if-Guarded true req max last = tip-Guarded req max last
tip_if-Guarded false req max last = tt

pub after_review-Guarded :
    (tips : Bool) (req : Request) (max : ℕ) (s : State) (rest : Trace) (reading : ReviewReading)
    → read_review s (current_review_pass s.markers) ≡ reading
    → (read_review s (current_review_pass s.markers) ≡ review_continues
        → Guarded max (some s) rest.0)
    → Guarded max (some s) (after_review tips req reading rest).0
after_review-Guarded tips req max s rest review_continues e h = h e
after_review-Guarded tips req max s rest (review_halted line) e h = tt
after_review-Guarded tips req max s rest (review_finished line) e h =
    tip_if-Guarded tips req max (some s)

pub after_resolve-Guarded :
    (tips : Bool) (req : Request) (max : ℕ) (last : Option State) (rest : Trace)
    (reading : ResolveReading)
    → Guarded max last rest.0
    → Guarded max last (after_resolve tips req reading rest).0
after_resolve-Guarded tips req max last rest resolve_continues h = h
after_resolve-Guarded tips req max last rest (resolve_halted line) h = tt
after_resolve-Guarded tips req max last rest (resolve_converged line) h =
    tip_if-Guarded tips req max last

module _ {W : Type 0} (d : Driver W) (max : ℕ) where
  pub after_load-Guarded :
      (last : Option State) (r : Result FatalError State × W) (next : State → W → Trace)
      → ((s : State) (w : W) → Guarded max (some s) (next s w).0)
      → Guarded max last (after_load d r next).0
  after_load-Guarded last (err e, w) next h = tt
  after_load-Guarded last (ok s, w) next h = h s w

  pub after_leg-Guarded :
      (last : Option State) (r : Bool × W) (next : W → Trace)
      → ((w : W) → Guarded max last (next w).0)
      → Guarded max last (after_leg d r next).0
  after_leg-Guarded last (true, w) next h = tt
  after_leg-Guarded last (false, w) next h = h w
