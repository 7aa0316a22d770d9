-- ===== src/Cycle/Driver/Counts.antt =====
-- How many legs a run makes.
use crossrev.Prelude.{
  inl, inr, ℕ, zero, suc, ◌≤◌, Bool, true, false, not, ◌&&◌, none, Result, ok, err, ◌≡◌, refl, leb,
  ◌!=◌, text_Eq, nat_Eq, ◌==◌, Bool-cases, Option-cases, arith, count_if, if◌then◌else◌,
}
use crossrev.Core.Pass.{leg_review, leg_resolve, pass_complete}
use crossrev.State.Passes.{marker_for, or_zero, current_review_pass, current_pass_complete}
use crossrev.Cycle.Readings.{
  State, ReviewReading, review_continues, review_halted, review_finished, ResolveReading,
  resolve_continues, resolve_halted, resolve_converged, read_review, read_resolve,
}
use crossrev.Cycle.Requests.{
  Request, LegRequest, Driver, Event, loaded, review_ran, resolve_ran, said, ended, nudged, Trace,
  FatalError, stop, tell, leg_request, first_load, reload, reload_loaded, trigger_human,
  trigger_automatic,
}
use crossrev.Cycle.Driver.{
  tip, after_review, after_resolve, after_load, after_leg, start_pass, rounds, finish_resolve,
  finish_at_bound, begin, start, run, pairing_refusal,
}

abbrev pub is_review : Event → Bool
is_review (review_ran leg) = true
is_review (loaded s) = false
is_review (resolve_ran leg) = false
is_review (said line) = false
is_review (ended line) = false
is_review nudged = false

abbrev pub is_resolve : Event → Bool
is_resolve (resolve_ran leg) = true
is_resolve (loaded s) = false
is_resolve (review_ran leg) = false
is_resolve (said line) = false
is_resolve (ended line) = false
is_resolve nudged = false

-- At most so many legs of each kind.
pub record AtMost (n m : ℕ) (t : Trace) : Type 0 where
  pub reviews : count_if is_review t.0 ≤ n
  pub resolves : count_if is_resolve t.0 ≤ m

no_leg :
    (n m : ℕ) (t : Trace) → count_if is_review t.0 ≡ 0 → count_if is_resolve t.0 ≡ 0 → AtMost n m t
no_leg n m t e f = record { reviews = omega (arith, e); resolves = omega (arith, f) }

-- An event that is no leg.
past :
    (n m : ℕ) (e : Event) (t : Trace)
    → is_review e ≡ false
    → is_resolve e ≡ false
    → AtMost n m t
    → AtMost n m (tell e t)
past n m e t f g h = record {
  reviews = ground (arith, f, h.reviews);
  resolves = ground (arith, g, h.resolves);
}

tip_if-AtMost :
    (tips : Bool) (req : Request) (n m : ℕ) → AtMost n m (if tips then tip req else stop 0 none)
tip_if-AtMost tips req n m = no_leg n m _ (ground arith) (ground arith)

after_review-AtMost :
    (tips : Bool) (req : Request) (reading : ReviewReading) (rest : Trace) (n m : ℕ)
    → AtMost n m rest
    → AtMost n m (after_review tips req reading rest)
after_review-AtMost tips req review_continues rest n m h = h
after_review-AtMost tips req (review_halted line) rest n m h = (no_leg _ _ _ refl refl)
after_review-AtMost tips req (review_finished line) rest n m h =
    past n m (ended line) _ refl refl (tip_if-AtMost tips req n m)

after_resolve-AtMost :
    (tips : Bool) (req : Request) (reading : ResolveReading) (rest : Trace) (n m : ℕ)
    → AtMost n m rest
    → AtMost n m (after_resolve tips req reading rest)
after_resolve-AtMost tips req resolve_continues rest n m h = h
after_resolve-AtMost tips req (resolve_halted line) rest n m h = (no_leg _ _ _ refl refl)
after_resolve-AtMost tips req (resolve_converged line) rest n m h =
    past n m (ended line) _ refl refl (tip_if-AtMost tips req n m)

either-AtMost :
    (b : Bool) (x y : Trace) (n m : ℕ)
    → AtMost n m x
    → AtMost n m y
    → AtMost n m (if b then x else y)
either-AtMost true x y n m f g = f
either-AtMost false x y n m f g = g

module _ {W : Type 0} (d : Driver W) where
  after_load-AtMost :
      (r : Result FatalError State × W) (next : State → W → Trace) (n m : ℕ)
      → ((s : State) (w : W) → AtMost n m (next s w))
      → AtMost n m (after_load d r next)
  after_load-AtMost (err e, w) next n m h = (no_leg _ _ _ refl refl)
  after_load-AtMost (ok s, w) next n m h = past n m (loaded s) (next s w) refl refl (h s w)

  review_then-AtMost :
      (leg : LegRequest) (r : Bool × W) (next : W → Trace) (n m : ℕ)
      → ((w : W) → AtMost n m (next w))
      → AtMost (suc n) m (tell (review_ran leg) (after_leg d r next))
  review_then-AtMost leg (true, w) next n m h = record {
    reviews = omega arith;
    resolves = omega arith;
  }
  review_then-AtMost leg (false, w) next n m h = record {
    reviews = omega (arith, (h w).reviews);
    resolves = (h w).resolves;
  }

  resolve_then-AtMost :
      (leg : LegRequest) (r : Bool × W) (next : W → Trace) (n m : ℕ)
      → ((w : W) → AtMost n m (next w))
      → AtMost n (suc m) (tell (resolve_ran leg) (after_leg d r next))
  resolve_then-AtMost leg (true, w) next n m h = record {
    reviews = omega arith;
    resolves = omega arith;
  }
  resolve_then-AtMost leg (false, w) next n m h = record {
    reviews = (h w).reviews;
    resolves = omega (arith, (h w).resolves);
  }

  start_pass-AtMost :
      (first : Bool) (req : Request) (max : ℕ) (state : State) (w : W) (next : State → W → Trace)
      (n m : ℕ)
      → ((s : State) (w : W) → AtMost n m (next s w))
      → AtMost n m (start_pass d first req max state w next)
  unfolding start_pass
  start_pass-AtMost true req max state w next n m h = h state w
  start_pass-AtMost false req max state w next n m h =
      after_load-AtMost (d.load (reload req) w) _ n m (λ s w.
        either-AtMost (leb max (current_review_pass s.markers)) _ (next s w) n m
          (no_leg _ _ _ refl refl) (h s w))

  rounds-AtMost :
      (req : Request) (max left : ℕ) (first : Bool) (state : State) (w : W)
      → AtMost left left (rounds d req max left first state w)
  unfolding rounds
  rounds-AtMost req max zero first state w = no_leg _ _ _ (ground arith) (ground arith)
  rounds-AtMost req max (suc left) first state w =
      start_pass-AtMost first req max state w _ (suc left) (suc left) (λ s w.
        review_then-AtMost (leg_request req (not first)) _ _ left (suc left) (λ w.
          after_load-AtMost (d.load (reload req) w) _ left (suc left) (λ s w.
            after_review-AtMost true req _ _ left (suc left) (
              resolve_then-AtMost (leg_request req false) _ _ left left (λ w.
                after_load-AtMost (d.load (reload req) w) _ left left (λ t w.
                  after_resolve-AtMost true req (read_resolve t (current_review_pass s.markers))
                    (rounds d req max left false t w) left left
                    (rounds-AtMost req max left false t w)))))))

  finish_resolve-AtMost :
      (req : Request) (max pass n : ℕ) (state : State) (w : W)
      → AtMost n 1 (finish_resolve d req max pass state w)
  unfolding finish_resolve
  finish_resolve-AtMost req max pass n state w =
      after_review-AtMost false req (read_review state pass) _ n 1 (
        either-AtMost (current_pass_complete state.markers pass leg_resolve) _ _ n 1
          (no_leg _ _ _ refl refl)
          (past n 1 (said _) _ refl refl (
            resolve_then-AtMost (leg_request req false) (d.resolve (leg_request req false) w) _ n 0
              (λ w. after_load-AtMost (d.load (reload_loaded state) w) _ n 0 (λ t w.
                after_resolve-AtMost false req (read_resolve t pass) (tell (ended _) (stop 0 none))
                  n 0 (no_leg _ _ _ refl refl))))))

  finish_at_bound-AtMost :
      (req : Request) (max pass : ℕ) (state : State) (w : W)
      → AtMost 1 1 (finish_at_bound d req max pass state w)
  unfolding finish_at_bound
  finish_at_bound-AtMost req max pass state w =
      either-AtMost ((or_zero (marker_for state.markers pass leg_review)).state != pass_complete) _
        _ 1 1
        (past 1 1 (said _) _ refl refl (
          review_then-AtMost _ _ _ 0 1 (λ w.
            after_load-AtMost (d.load (reload_loaded state) w) _ 0 1 (λ s w.
              either-AtMost
                ((or_zero (marker_for s.markers (current_review_pass s.markers) leg_review)).state
                  != pass_complete)
                _ _ 0 1 (no_leg _ _ _ refl refl)
                (finish_resolve-AtMost req max (current_review_pass s.markers) 0 s w)))))
        (finish_resolve-AtMost req max pass 1 state w)

-- How many legs of each kind a run may make: one where the newest pass is at the cap already, and
-- the cap where it is not.
abbrev pub allowed_legs : State → ℕ
allowed_legs state =
    if leb state.max_passes_per_cycle (current_review_pass state.markers)
    then 1
    else state.max_passes_per_cycle

begin-AtMost :
    {W : Type 0} (d : Driver W) (req : Request) (state : State) (w : W)
    → AtMost (allowed_legs state) (allowed_legs state) (begin d req state w)
unfolding begin
begin-AtMost d req state w =
    let max = state.max_passes_per_cycle in
    let pass = current_review_pass state.markers in
    past _ _ (said _) _ refl refl (elim (Bool-cases (leb max pass)) [
      | inl p ↦ rw p (finish_at_bound-AtMost d req max pass state w)
      | inr p ↦ rw p (rounds-AtMost d req max max true state w)
    ])

start-AtMost :
    {W : Type 0} (d : Driver W) (req : Request) (state : State) (w : W)
    → AtMost (allowed_legs state) (allowed_legs state) (start d req state w)
start-AtMost d req state w =
    either-AtMost state.draft _ _ _ _ (no_leg _ _ _ refl refl)
      (elim (Option-cases (pairing_refusal d req)) [
        | inl q ↦ rw q (begin-AtMost d req state w)
        | inr (r, q) ↦ rw q (no_leg _ _ _ refl refl)
      ])

-- A run whose first load gives `state` makes at most one leg of each kind where the newest review
-- pass is at the cap already, and at most as many as the cap where it is not.
pub run-AtMost :
    {W : Type 0} (d : Driver W) (req : Request) (w v : W) (state : State)
    → d.load (first_load req) w ≡ (ok state, v)
    → AtMost (allowed_legs state) (allowed_legs state) (run d req w)
unfolding run
run-AtMost d req w v state e = either-AtMost (req.pr == 0) _ _ _ _ (no_leg _ _ _ refl refl) (
    either-AtMost (req.trigger != trigger_human && req.trigger != trigger_automatic) _ _ _ _
      (no_leg _ _ _ refl refl)
      (rw e (past _ _ (loaded state) _ refl refl (start-AtMost d req state v))))
