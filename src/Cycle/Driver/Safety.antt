-- ===== src/Cycle/Driver/Safety.antt =====
-- No leg of a run goes out unguarded.
use crossrev.Prelude.{
  ◌≤◌, ℕ, zero, suc, ◌<◌, inl, inr, Bool, true, false, Option, none, some, ok, ◌≡◌, refl, leb, ◌!=◌,
  text_Eq, nat_Eq, ◌==◌, Bool-cases, arith, ◌&&◌, Option-cases, not, eq_iff, if◌then◌else◌,
}
use mathlib.Core.Bool.{false≢true}
use crossrev.Core.Pass.{leg_review, leg_resolve, pass_started, pass_complete}
use crossrev.State.Passes.{marker_for, or_zero, current_review_pass, current_pass_complete}
use crossrev.Cycle.Readings.{State, read_review, read_resolve}
use crossrev.Cycle.Requests.{
  trigger_human, trigger_automatic, Request, LegRequest, Driver, ended, Trace, stop, tell,
  leg_request, reload, reload_loaded, first_load,
}
use crossrev.Cycle.Driver.{
  start, after_review, after_resolve, after_leg, load_then, resolve_then, start_pass, rounds,
  finish_resolve, finish_at_bound, begin, run, pairing_refusal,
}
use crossrev.Cycle.Driver.Guards.{
  Guarded, tip-Guarded, after_review-Guarded, after_resolve-Guarded, after_load-Guarded,
  after_leg-Guarded,
}

module _ {W : Type 0} (d : Driver W) (max : ℕ) where
  start_pass-Guarded :
      (first : Bool) (req : Request) (last : Option State) (state : State) (w : W)
      (next : State → W → Trace)
      → (first ≡ true → Guarded max last (next state w).0)
      → ((s : State) (w : W)
          → current_review_pass s.markers < max
          → Guarded max (some s) (next s w).0)
      → Guarded max last (start_pass d first req max state w next).0
  unfolding start_pass
  start_pass-Guarded true req last state w next h j = h refl
  start_pass-Guarded false req last state w next h j =
      after_load-Guarded d max last (d.load (reload req) w) _ (λ s w.
        elim (Bool-cases (leb max (current_review_pass s.markers))) [
          | inl p ↦ rw p tt
          | inr p ↦ rw p (j s w (ground (arith, p)))
        ])

  not_first : {P : Type 0} → false ≡ true → P
  not_first e = absurd (false≢true e)

  -- The rest of a round, from its review leg on.
  round-Guarded :
      (req : Request) (leg : LegRequest) (w : W) (rest : State → W → Trace)
      → ((s : State) (w : W) → Guarded max (some s) (rest s w).0)
      → Guarded max none
          (after_leg d (d.review leg w) (λ w. load_then d (reload req) w (λ state w.
            let pass = current_review_pass state.markers in
            after_review true req (read_review state pass) (
              resolve_then d (leg_request req false) w (λ w.
                load_then d
                  (reload req)
                  w
                  (λ s w. after_resolve true req (read_resolve s pass) (rest s w))))))).0
  round-Guarded req leg w rest h = after_leg-Guarded d max none (d.review leg w) _ (λ w.
      after_load-Guarded d max none (d.load (reload req) w) _ (λ s w.
        after_review-Guarded true req max s _ _ refl (λ e. (
          e,
          after_leg-Guarded d max none (d.resolve (leg_request req false) w) _ (λ w.
              after_load-Guarded d max none (d.load (reload req) w) _ (λ t w.
                after_resolve-Guarded true req max (some t) (rest t w)
                  (read_resolve t (current_review_pass s.markers)) (h t w))),
        ))))

  rounds-Guarded :
      (req : Request) (left : ℕ) (first : Bool) (last : Option State) (state : State) (w : W)
      → (first ≡ true → (last ≡ some state) × (current_review_pass state.markers < max))
      → Guarded max last (rounds d req max left first state w).0
  unfolding rounds
  rounds-Guarded req zero first last state w h = tip-Guarded req max last
  rounds-Guarded req (suc left) first last state w h =
      start_pass-Guarded first req last state w _
        (λ e. rw ((h e).0) (
          inl (h e).1,
          round-Guarded req (leg_request req (not first)) w (rounds d req max left false)
              (λ s w. rounds-Guarded req left false (some s) s w not_first),
        ))
        (λ s w lt. (
          inl lt,
          round-Guarded req (leg_request req (not first)) w (rounds d req max left false)
              (λ s w. rounds-Guarded req left false (some s) s w not_first),
        ))

  finish_resolve-Guarded :
      (req : Request) (state : State) (w : W)
      → Guarded max
          (some state)
          (finish_resolve d req max (current_review_pass state.markers) state w).0
  unfolding finish_resolve
  finish_resolve-Guarded req state w = after_review-Guarded false req max state _ _ refl (λ e.
      elim (Bool-cases
        (current_pass_complete state.markers (current_review_pass state.markers) leg_resolve)) [
          | inl p ↦ rw p tt
          | inr p ↦ rw p (
            e,
            after_leg-Guarded d max none (d.resolve (leg_request req false) w) _ (λ w.
                after_load-Guarded d max none (d.load (reload_loaded state) w) _ (λ t w.
                  after_resolve-Guarded false req max (some t) (tell (ended _) (stop 0 none))
                    (read_resolve t (current_review_pass state.markers)) tt)),
          )
        ])

  finish_at_bound-Guarded :
      (req : Request) (state : State) (w : W)
      → max ≤ current_review_pass state.markers
      → Guarded max
          (some state)
          (finish_at_bound d req max (current_review_pass state.markers) state w).0
  unfolding finish_at_bound
  finish_at_bound-Guarded req state w le =
      let marker =
        or_zero (marker_for state.markers (current_review_pass state.markers) leg_review) in
      elim (Bool-cases (marker.state != pass_complete)) [
        | inl p ↦ rw p (
          inr (
            le,
            ground (arith, p, eq_iff marker.state pass_complete),
            ground (arith, eq_iff marker.state pass_started),
          ),
          after_leg-Guarded d max none (d.review (leg_request req (marker.state != pass_started)) w)
              _
              (λ w. after_load-Guarded d max none (d.load (reload_loaded state) w) _ (λ s w.
                elim (Bool-cases (
                  (or_zero (marker_for s.markers (current_review_pass s.markers) leg_review)).state
                  != pass_complete)) [
                    | inl q ↦ rw q tt
                    | inr q ↦ rw q (finish_resolve-Guarded req s w)
                  ])),
        )
        | inr p ↦ rw p (finish_resolve-Guarded req state w)
      ]

begin-Guarded :
    {W : Type 0} (d : Driver W) (req : Request) (state : State) (w : W)
    → Guarded state.max_passes_per_cycle (some state) (begin d req state w).0
unfolding begin
begin-Guarded d req state w =
    let max = state.max_passes_per_cycle in
    elim (Bool-cases (leb max (current_review_pass state.markers))) [
      | inl p ↦ rw p (finish_at_bound-Guarded d max req state w (ground (arith, p)))
      | inr p ↦
          rw p (
            rounds-Guarded d max req max true (some state) state w (λ f. (refl, ground (arith, p))))
    ]

either-Guarded :
    (max : ℕ) (last : Option State) (b : Bool) (x y : Trace)
    → Guarded max last x.0
    → Guarded max last y.0
    → Guarded max last (if b then x else y).0
either-Guarded max last true x y f g = f
either-Guarded max last false x y f g = g

loaded_run :
    {W : Type 0} (d : Driver W) (req : Request) (w : W) (state : State)
    → Guarded state.max_passes_per_cycle (some state) (start d req state w).0
loaded_run d req w state =
    either-Guarded state.max_passes_per_cycle (some state) state.draft _ _ tt
      (elim (Option-cases (pairing_refusal d req)) [
        | inl q ↦ rw q (begin-Guarded d req state w)
        | inr (r, q) ↦ rw q tt
      ])

-- Every review leg of a run goes out while the newest review pass is below the cap of the first load,
-- or to finish an unfinished pass at the cap, and then it has an open claim or the leg is told to
-- apply the cap; every resolve leg goes out after a review that left something to act on; each is
-- judged on the state loaded since the leg before it.
pub run-Guarded :
    {W : Type 0} (d : Driver W) (req : Request) (w v : W) (state : State)
    → d.load (first_load req) w ≡ (ok state, v)
    → Guarded state.max_passes_per_cycle none (run d req w).0
unfolding run
run-Guarded d req w v state e = elim (Bool-cases (req.pr == 0)) [
  | inl p ↦ rw p tt
  | inr p ↦
      rw p (elim (Bool-cases (req.trigger != trigger_human && req.trigger != trigger_automatic)) [
        | inl q ↦ rw q tt
        | inr q ↦ rw q (rw e (loaded_run d req v state))
      ])
]
