-- ===== src/Diff/Anchor/Nearest.antt =====
-- The line that `Anchor` answers among the lines that a diff offers.
use crossrev.Prelude.{
  ap, ◌==◌, ◌&&◌, ◌||◌, nat_Eq, ltb, Bool-cases, arith, ℕ, ◌≤◌, ◌<◌, ◌≢◌, String, true, false,
  Option, none, some, List, [], ◌∷◌, ◌≡◌, refl, ◌⊎◌, inl, inr, ◌↔◌, text_Eq, eq_iff, nat_eq_iff,
  leb,
}
use crossrev.Core.Finding.{side_left}
use crossrev.Prelude.Bytes.{Bytes}
use crossrev.Diff.Lines.{Section, Line}
use crossrev.Diff.Anchor.{Best, distance, is_in, offered, next, nearest_from, within, anchor}

-- Line `v` is closer to the line asked for than `u`, or as close and not after it.
abbrev pub Nearer : ℕ → ℕ → ℕ → Type 0
Nearer want v u =
    (distance v want < distance u want) ⊎ ((distance v want ≡ distance u want) × (v ≤ u))

-- The section has the path and the line has number `u` on the side.
abbrev pub OffersOne : List Section → Bytes → String → Line → ℕ → Type 0
OffersOne sections path side l u =
    (l.header ≡ false)
    × (is_in path sections l.section ≡ true)
    × (((side ≡ side_left) × (l.has_old ≡ true) × (l.old_no ≡ u))
        ⊎ ((side ≢ side_left) × (l.has_new ≡ true) × (l.new_no ≡ u)))

abbrev pub Offers : List Section → Bytes → String → List Line → ℕ → Type 0
Offers sections path side [] u = ⊥
Offers sections path side (l ∷ ls) u =
    OffersOne sections path side l u ⊎ Offers sections path side ls u

-- What an answer of `Anchor` means.
abbrev pub IsNearest : (ℕ → Type 0) → ℕ → ℕ → Option ℕ → Type 0
IsNearest P want bound none = (u : ℕ) → P u → bound < distance u want
IsNearest P want bound (some v) =
    P v × (distance v want ≤ bound) × ((u : ℕ) → P u → Nearer want v u)

abbrev Names : Option ℕ → ℕ → Type 0
Names none u = ⊥
Names (some v) u = v ≡ u

offered-Names :
    (sections : List Section) (path : Bytes) (side : String) (l : Line) (u : ℕ)
    → Names (offered sections path side l) u ↔ OffersOne sections path side l u
unfolding offered
offered-Names sections path side l u = ground (arith, eq_iff side side_left)

abbrev Holds : ℕ → Option Best → ℕ → Type 0
Holds want none u = ⊥
Holds want (some b) u = (b.line ≡ u) × (b.dist ≡ distance u want)

-- The best so far of the numbers that satisfy `P`.
abbrev IsBest : (ℕ → Type 0) → ℕ → Option Best → Type 0
IsBest P want none = (u : ℕ) → P u → ⊥
IsBest P want (some b) =
    P b.line × (b.dist ≡ distance b.line want) × ((u : ℕ) → P u → Nearer want b.line u)

same_distance : (a b want : ℕ) → a ≡ b → distance a want ≡ distance b want
same_distance a b want e = ap (λ x. distance x want) e

next-IsBest :
    (P Q : ℕ → Type 0) (want : ℕ) (best : Option Best) (o : Option ℕ)
    → ((u : ℕ) → Q u ↔ (P u ⊎ Names o u))
    → IsBest P want best
    → IsBest Q want (next want best o)
unfolding next
next-IsBest P Q want none none split h = λ u q. ground (arith, split u, h u)
next-IsBest P Q want none (some v) split h =
    ((split v).1 (inr refl), refl, λ u q. ground (arith, split u, h u, same_distance v u want))
next-IsBest P Q want (some b) none split h =
    ((split b.line).1 (inl h.0), h.1, λ u q. ground (arith, split u, h.2 u))
next-IsBest P Q want (some b) (some v) split h =
    elim (Bool-cases
      (ltb (distance v want) b.dist || (distance v want == b.dist && ltb v b.line))) [
        | inl p ↦ rw p (
          (split v).1 (inr refl),
          refl,
          λ u q. ground (
            arith,
            p,
            h.1,
            nat_eq_iff (distance v want) b.dist,
            split u,
            h.2 u,
            same_distance v u want,
          ),
        )
        | inr p ↦ rw p (
          (split b.line).1 (inl h.0),
          h.1,
          λ u q. ground (
            arith,
            p,
            h.1,
            nat_eq_iff (distance v want) b.dist,
            split u,
            h.2 u,
            same_distance v u want,
          ),
        )
      ]

IsBest-iff :
    (P Q : ℕ → Type 0) (want : ℕ) (best : Option Best)
    → ((u : ℕ) → P u ↔ Q u)
    → IsBest P want best
    → IsBest Q want best
IsBest-iff P Q want none same h = λ u q. h u ((same u).1 q)
IsBest-iff P Q want (some b) same h = ((same b.line).0 h.0, h.1, λ u q. h.2 u ((same u).1 q))

nearest_from-IsBest :
    (P : ℕ → Type 0) (sections : List Section) (path : Bytes) (side : String) (want : ℕ)
    (best : Option Best) (lines : List Line)
    → IsBest P want best
    → IsBest
        (λ u. P u ⊎ Offers sections path side lines u)
        want
        (nearest_from sections path side want best lines)
unfolding nearest_from
nearest_from-IsBest P sections path side want none [] h = λ u q. ground (arith, q, h u)
nearest_from-IsBest P sections path side want (some b) [] h =
    (inl h.0, h.1, λ u q. ground (arith, q, h.2 u))
nearest_from-IsBest P sections path side want best (l ∷ ls) h =
    let o = offered sections path side l in
    let P' : ℕ → Type 0 = λ u. P u ⊎ Names o u in
    IsBest-iff (λ u. P' u ⊎ Offers sections path side ls u)
      (λ u. P u ⊎ Offers sections path side (l ∷ ls) u) want _
      (λ u. ground (arith, offered-Names sections path side l u))
      (nearest_from-IsBest P' sections path side want (next want best o) ls
        (next-IsBest P P' want best o (λ u. ((λ q. q), λ q. q)) h))

within-IsNearest :
    (P Q : ℕ → Type 0) (want bound : ℕ) (best : Option Best)
    → ((u : ℕ) → P u ↔ Q u)
    → IsBest P want best
    → IsNearest Q want bound (within bound best)
unfolding within
within-IsNearest P Q want bound none same h = λ u q. ground (arith, same u, h u)
within-IsNearest P Q want bound (some b) same h = elim (Bool-cases (leb b.dist bound)) [
  | inl p ↦ rw p ((same b.line).0 h.0, ground (arith, p, h.1), λ u q. h.2 u ((same u).1 q))
  | inr p ↦ rw p (λ u q. ground (arith, p, h.1, h.2 u ((same u).1 q)))
]

-- The anchor is a line that the diff offers on the side, under the path, within the bound; no line
-- that is offered is closer, and of two as close it is the lower. There is no anchor exactly where
-- every line that is offered is further away than the bound.
pub anchor-IsNearest :
    (sections : List Section) (path : Bytes) (side : String) (lines : List Line) (want bound : ℕ)
    → IsNearest
        (Offers sections path side lines)
        want
        bound
        (anchor sections path side lines want bound)
unfolding anchor
anchor-IsNearest sections path side lines want bound =
    within-IsNearest (λ u. ⊥ ⊎ Offers sections path side lines u) (Offers sections path side lines)
      want bound _ (λ u. ground arith)
      (nearest_from-IsBest (λ u. ⊥) sections path side want none lines (λ u q. q))
