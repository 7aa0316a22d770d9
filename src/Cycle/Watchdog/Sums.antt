-- ===== src/Cycle/Watchdog/Sums.antt =====
-- The counters of a sweep.
use crossrev.Prelude.{
  true, false, if◌then◌else◌, ℕ, ◌+◌, ◌≤◌, ◌⊎◌, inl, inr, ◌≢◌, String, Bool, Option, none, some,
  List, [], ◌∷◌, ◌≡◌, refl, ◌-◌, ◌==◌, text_Eq, ltb, length, arith, Bool-cases,
}
use crossrev.Policy.Labels.{label_stop, label_halted, label_watchdog_retried, awaiting_label}
use crossrev.Cycle.Requests.{FatalError}
use crossrev.Cycle.Watchdog.{
  Waiting, Summary, Call, add, comment, Sweep, refuse, wrote_unless, has_label, waiting_leg,
  in_force, retry, judge_age, judge_markers, sweep, watch,
}

abbrev pub handled : Summary → ℕ
handled s = s.retried + s.halted + s.drafts

-- No pull request is counted twice, and all of `total` are checked unless an error stopped the sweep.
abbrev pub Adds : ℕ → Sweep → Type 0
Adds total r =
    (handled r.summary ≤ r.summary.checked)
    × (r.summary.checked ≤ total)
    × ((r.summary.checked ≡ total) ⊎ (r.error ≢ none))

refuse-Adds :
    (total : ℕ) (s : Summary) (e : FatalError)
    → handled s ≤ s.checked
    → s.checked ≤ total
    → Adds total (refuse s e)
refuse-Adds total s e h le = (h, le, inr (λ p. ground (arith, p)))

unless-Adds :
    (total : ℕ) (c : Call) (s : Summary) (o : Option FatalError) (rest : Sweep)
    → handled s ≤ s.checked
    → s.checked ≤ total
    → Adds total rest
    → Adds total (wrote_unless c s o rest)
unless-Adds total c s none rest h le r = r
unless-Adds total c s (some e) rest h le r = refuse-Adds total s e h le

either-Adds :
    (total : ℕ) (b : Bool) (x y : Sweep)
    → Adds total x
    → Adds total y
    → Adds total (if b then x else y)
either-Adds total true x y f g = f
either-Adds total false x y f g = g

-- What the rest of a sweep does from counters that allow for the pull requests so far.
abbrev Goes : ℕ → ℕ → (Summary → Sweep) → Type 0
Goes total checked rest =
    (s : Summary) → handled s ≤ s.checked → s.checked ≡ checked → Adds total (rest s)

retry-Adds :
    (failure : Call → Option FatalError) (total : ℕ) (pr : Waiting) (leg : String) (s : Summary)
    (rest : Summary → Sweep)
    → handled s + 1 ≤ s.checked
    → s.checked ≤ total
    → Goes total s.checked rest
    → Adds total (retry failure pr leg s rest)
unfolding retry
retry-Adds failure total pr leg s rest h le go =
    let label = awaiting_label leg in
    let weak : handled s ≤ s.checked = omega (arith, h) in
    elim (Bool-cases (has_label pr.labels label_watchdog_retried)) [
      | inl p ↦ rw p (
          unless-Adds total (add pr.pr label_halted) s (failure (add pr.pr label_halted)) _ weak le
            (unless-Adds total (comment pr.pr) s (failure (comment pr.pr)) _ weak le
              (go (record s { halted = s.halted + 1 }) (omega (arith, h)) refl)))
      | inr p ↦ rw p (
          unless-Adds total (add pr.pr label_watchdog_retried) s
            (failure (add pr.pr label_watchdog_retried)) _ weak le
            (unless-Adds total (add pr.pr label) s (failure (add pr.pr label)) _ weak le
              (go (record s { retried = s.retried + 1 }) (omega (arith, h)) refl)))
    ]

module _ (failure : Call → Option FatalError) (marker_times : ℕ → List ℕ) (timeout now : ℕ)
    (refusal : Option FatalError) where
  judge_age-Adds :
      (total : ℕ) (pr : Waiting) (leg : String) (s : Summary) (time : ℕ) (o : Option FatalError)
      (rest : Summary → Sweep)
      → handled s + 1 ≤ s.checked
      → s.checked ≤ total
      → Goes total s.checked rest
      → Adds total (judge_age failure marker_times timeout now refusal pr leg s time o rest)
  unfolding judge_age
  judge_age-Adds total pr leg s time (some e) rest h le go =
      refuse-Adds total s e (omega (arith, h)) le
  judge_age-Adds total pr leg s time none rest h le go =
      elim (Bool-cases (ltb (now - time) (in_force timeout))) [
        | inl p ↦ rw p (go s (omega (arith, h)) refl)
        | inr p ↦ rw p (retry-Adds failure total pr leg s rest h le go)
      ]

  judge_markers-Adds :
      (total : ℕ) (pr : Waiting) (leg : String) (s : Summary) (times : List ℕ)
      (rest : Summary → Sweep)
      → handled s + 1 ≤ s.checked
      → s.checked ≤ total
      → Goes total s.checked rest
      → Adds total (judge_markers failure marker_times timeout now refusal pr leg s times rest)
  unfolding judge_markers
  judge_markers-Adds total pr leg s [] rest h le go = retry-Adds failure total pr leg s rest h le go
  judge_markers-Adds total pr leg s (t ∷ ts) rest h le go =
      judge_age-Adds total pr leg s _ refusal rest h le go

  sweep-Adds :
      (total : ℕ) (s : Summary) (prs : List Waiting)
      → handled s ≤ s.checked
      → s.checked + length prs ≡ total
      → Adds total (sweep failure marker_times timeout now refusal s prs)
  unfolding sweep
  sweep-Adds total s [] h e = (h, omega (arith, e), inl (omega (arith, e)))
  sweep-Adds total s (pr ∷ prs) h e =
      let checked = record s { checked = s.checked + 1 } in
      either-Adds total (has_label pr.labels label_stop) _ _
        (sweep-Adds total checked prs (omega (arith, h)) (omega (arith, e)))
        (either-Adds total pr.draft _ _
          (sweep-Adds total (record checked { drafts = checked.drafts + 1 }) prs (omega (arith, h))
            (omega (arith, e)))
          (judge_markers-Adds total pr (waiting_leg pr.labels) checked (marker_times pr.pr) _
            (omega (arith, h)) (omega (arith, e))
            (λ u v f. sweep-Adds total u prs v (omega (arith, e, f)))))

-- A sweep handles no more pull requests than it checks, checks no more than it was handed, and
-- checks all of them unless an error stopped it.
pub watch-Adds :
    (failure : Call → Option FatalError) (marker_times : ℕ → List ℕ) (timeout now : ℕ)
    (refusal : Option FatalError) (author : String) (waiting : List Waiting)
    → Adds (length waiting) (watch failure marker_times timeout now refusal author waiting)
unfolding watch
watch-Adds failure marker_times timeout now refusal author waiting =
    let zero : Summary = record { checked = 0; retried = 0; halted = 0; drafts = 0 } in
    either-Adds (length waiting) (author == "") _ _
      (refuse-Adds (length waiting) zero _ (omega arith) (omega arith))
      (sweep-Adds failure marker_times timeout now refusal (length waiting) zero waiting
        (omega arith) (omega arith))
