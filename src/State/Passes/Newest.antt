-- ===== src/State/Passes/Newest.antt =====
-- The marker of one leg of one pass.
use crossrev.Prelude.{
  ℕ, String, Bool, true, false, Option, none, some, List, [], ◌∷◌, ◌++◌, ◌≡◌, refl, any, ap, inl,
  inr, ◌⊎◌, Bool-cases,
}
use crossrev.State.Marker.{Marker}
use crossrev.State.Passes.{is_for, newest_from, marker_for}

-- The last of `ms` that passes the test, where one does.
abbrev pub IsLast : (Marker → Bool) → List Marker → Option Marker → Type 0
IsLast test ms none = any test ms ≡ false
IsLast test ms (some m) =
    (before : List Marker) × (after : List Marker) × (ms ≡ before ++ m ∷ after)
    × (test m ≡ true)
    × (any test after ≡ false)

abbrev Keeps : Option Marker → (Marker → Bool) → List Marker → Option Marker → Type 0
Keeps newest test ms found =
    ((any test ms ≡ false) × (found ≡ newest))
    ⊎ ((m : Marker) × (found ≡ some m) × IsLast test ms (some m))

newest_from-Keeps :
    (newest : Option Marker) (ms : List Marker) (pass : ℕ) (leg : String)
    → Keeps newest (is_for pass leg) ms (newest_from newest ms pass leg)
unfolding newest_from
newest_from-Keeps newest [] pass leg = inl (refl, refl)
newest_from-Keeps newest (m ∷ ms) pass leg = elim (Bool-cases (is_for pass leg m)) [
  | inl p ↦ rw p (elim (newest_from-Keeps (some m) ms pass leg) [
    | inl (a, e) ↦ inr (m, e, ([], ms, refl, p, a))
    | inr (n, e, (b, c, f, t, a)) ↦ inr (n, e, (m ∷ b, c, ap (λ r. m ∷ r) f, t, a))
  ])
  | inr p ↦ rw p (elim (newest_from-Keeps newest ms pass leg) [
    | inl (a, e) ↦ inl (a, e)
    | inr (n, e, (b, c, f, t, a)) ↦ inr (n, e, (m ∷ b, c, ap (λ r. m ∷ r) f, t, a))
  ])
]

-- `marker_for` finds the last marker of the list that is for the pass and the leg, and none exactly
-- where no marker is.
pub marker_for-IsLast :
    (markers : List Marker) (pass : ℕ) (leg : String)
    → IsLast (is_for pass leg) markers (marker_for markers pass leg)
unfolding marker_for
marker_for-IsLast markers pass leg = elim (newest_from-Keeps none markers pass leg) [
  | inl (a, e) ↦ rw e a
  | inr (m, e, l) ↦ rw e l
]
