-- ===== src/State/Passes/Numbering.antt =====
-- The number of the next pass.
use crossrev.Prelude.{
  ℕ, ◌+◌, ◌<◌, ◌≤◌, ◌⊎◌, inl, Bool, not, ◌&&◌, List, [], ◌∷◌, ◌≡◌, refl, ◌==◌, nat_Eq, text_Eq, ltb,
  leb, count_if, filter_if, arith, ◌∙◌, ◌∙◌, sym, if◌then◌else◌,
}
use crossrev.Core.Pass.{leg_review, declined}
use crossrev.State.Marker.{Marker}
use crossrev.State.Passes.{ran, highest_review, current_review_pass, next_pass}

count_if-filter_if :
    (p q : Marker → Bool) (ms : List Marker)
    → count_if q (filter_if p ms) ≡ count_if (λ m. p m && q m) ms
count_if-filter_if p q [] = refl
count_if-filter_if p q (m ∷ ms) = ground (arith, count_if-filter_if p q ms)

-- One step of the loop.
abbrev higher : ℕ → Marker → ℕ
higher highest m = if m.leg == leg_review && ltb highest m.pass then m.pass else highest

le_highest : (highest : ℕ) (ms : List Marker) → highest ≤ highest_review highest ms
unfolding highest_review
le_highest highest [] = omega arith
le_highest highest (m ∷ ms) = ground (arith, le_highest (higher highest m) ms)

none_above :
    (highest found : ℕ) (ms : List Marker)
    → highest_review highest ms ≡ found
    → count_if (λ m. m.leg == leg_review && ltb found m.pass) ms ≡ 0
unfolding highest_review
none_above highest found [] e = refl
none_above highest found (m ∷ ms) e =
    ground (arith, e, none_above (higher highest m) found ms e, le_highest (higher highest m) ms)

attained :
    (highest found : ℕ) (ms : List Marker)
    → highest_review highest ms ≡ found
    → (found ≡ highest) ⊎ (0 < count_if (λ m. m.leg == leg_review && m.pass == found) ms)
unfolding highest_review
attained highest found [] e = inl (sym e)
attained highest found (m ∷ ms) e = ground (arith, attained (higher highest m) found ms e)

-- A review marker whose pass took place.
abbrev pub reviewed : Marker → Bool
reviewed m = not (declined m.state) && m.leg == leg_review

count_if-cong :
    (p q : Marker → Bool)
    → ((m : Marker) → p m ≡ q m)
    → (ms : List Marker) → count_if p ms ≡ count_if q ms
count_if-cong p q h [] = refl
count_if-cong p q h (m ∷ ms) = ground (arith, h m, count_if-cong p q h ms)

by_ran :
    (p q : Marker → Bool)
    → ((m : Marker) → q m ≡ (not (declined m.state) && p m))
    → (ms : List Marker) → count_if q ms ≡ count_if p (ran ms)
unfolding ran
by_ran p q h ms =
    count_if-cong q _ h ms ∙ sym (count_if-filter_if (λ m. not (declined m.state)) p ms)

-- No review that took place has the next pass's number or a higher one, and unless that number is 1
-- some review that took place has the number before it. Declined markers do not count.
pub next_pass-IsNext :
    (markers : List Marker)
    → (count_if (λ m. reviewed m && leb (next_pass markers) m.pass) markers ≡ 0)
      × ((next_pass markers ≡ 1)
          ⊎ (0 < count_if (λ m. reviewed m && m.pass + 1 == next_pass markers) markers))
unfolding next_pass current_review_pass ran
next_pass-IsNext markers =
    let found = highest_review 0 (ran markers) in
    (
      by_ran (λ m. m.leg == leg_review && ltb found m.pass)
            (λ m. reviewed m && leb (found + 1) m.pass) (λ m. ground arith) markers
          ∙ none_above 0 found (ran markers) refl,
      ground (
        arith,
        attained 0 found (ran markers) refl,
        by_ran (λ m. m.leg == leg_review && m.pass == found)
            (λ m. reviewed m && m.pass + 1 == found + 1) (λ m. ground arith) markers,
      ),
    )
