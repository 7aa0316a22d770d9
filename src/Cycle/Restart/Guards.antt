-- ===== src/Cycle/Restart/Guards.antt =====
-- When a restart writes.
use crossrev.Prelude.{
  arith, ℕ, String, true, false, Option, none, some, List, [], ◌≡◌, refl, ◌⊎◌, inl, inr, Result, ok,
  err, if◌then◌else◌, Bool-cases,
}
use crossrev.Core.Revision.{Slug, slug_incomplete}
use crossrev.Policy.Labels.{label_stop, label_halted}
use crossrev.Cycle.Requests.{FatalError}
use crossrev.Cycle.Status.{StatusInput, status_has_label}
use crossrev.Cycle.Watchdog.{Call}
use crossrev.Cycle.Restart.{
  Restarted, Pull, is_open, restart_not_halted, restart_from, restart_pull, restart_repo, restart,
  restart_leg, rewrite,
}

restart_not_halted-calls :
    (repo : Slug) (pr : ℕ) (labels : List String) → (restart_not_halted repo pr labels).calls ≡ []
unfolding restart_not_halted
restart_not_halted-calls repo pr labels = ground arith

module _ (failure : Call → Option FatalError) (repo_slug : Option Slug)
    (pull_request : Slug → ℕ → Option Pull)
    (input : Slug → ℕ → Pull → Result FatalError StatusInput) where
  -- A restart that writes what is written for a pull request that is open, halted and not stopped.
  abbrev pub MayRewrite : ℕ → Restarted → Type 0
  MayRewrite pr r =
      (r.calls ≡ [])
      ⊎ ((repo : Slug) × (pull : Pull) × (read : StatusInput) × (pull_request repo pr ≡ some pull)
          × (is_open pull.state ≡ true)
          × (status_has_label pull.labels label_stop ≡ false)
          × (status_has_label pull.labels label_halted ≡ true)
          × (input repo pr pull ≡ ok read)
          × (r ≡ rewrite failure pr pull.labels (restart_leg read)))

  restart_from-MayRewrite :
      (repo : Slug) (pr : ℕ) (pull : Pull) (r : Result FatalError StatusInput)
      → pull_request repo pr ≡ some pull
      → is_open pull.state ≡ true
      → status_has_label pull.labels label_stop ≡ false
      → status_has_label pull.labels label_halted ≡ true
      → input repo pr pull ≡ r
      → MayRewrite pr (restart_from failure repo_slug pull_request input repo pr pull r)
  unfolding restart_from
  restart_from-MayRewrite repo pr pull (err e) p a b c q = inl refl
  restart_from-MayRewrite repo pr pull (ok read) p a b c q =
      inr (repo, pull, read, p, a, b, c, q, refl)

  restart_pull-MayRewrite :
      (repo : Slug) (pr : ℕ) (o : Option Pull)
      → pull_request repo pr ≡ o
      → MayRewrite pr (restart_pull failure repo_slug pull_request input repo pr o)
  unfolding restart_pull
  restart_pull-MayRewrite repo pr none p = inl refl
  restart_pull-MayRewrite repo pr (some pull) p = elim (Bool-cases (is_open pull.state)) [
    | inr a ↦ simp a (inl refl)
    | inl a ↦ elim (Bool-cases (status_has_label pull.labels label_stop)) [
      | inl b ↦ simp (a, b) (inl refl)
      | inr b ↦ elim (Bool-cases (status_has_label pull.labels label_halted)) [
        | inl c ↦
            simp (a, b, c) (restart_from-MayRewrite repo pr pull (input repo pr pull) p a b c refl)
        | inr c ↦ simp (a, b, c) (inl (restart_not_halted-calls repo pr pull.labels))
      ]
    ]
  ]

  restart_repo-MayRewrite :
      (pr : ℕ) (o : Option Slug)
      → MayRewrite pr (restart_repo failure repo_slug pull_request input pr o)
  unfolding restart_repo
  restart_repo-MayRewrite pr none = inl refl
  restart_repo-MayRewrite pr (some repo) =
      restart_pull-MayRewrite repo pr (pull_request repo pr) refl

  -- A restart writes nothing, or rewrites the labels for the leg that halted, which it does only for a
  -- pull request that reads as open, carries the halted label and does not carry the stop label.
  pub restart-MayRewrite :
      (repo : Slug) (pr : ℕ) → MayRewrite pr (restart failure repo_slug pull_request input repo pr)
  unfolding restart
  restart-MayRewrite repo pr =
      restart_repo-MayRewrite pr (if slug_incomplete repo then repo_slug else some repo)
