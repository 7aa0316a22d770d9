-- ===== src/Cycle/Watchdog/Events.antt =====
-- What the writes of a sweep do to the labels of a pull request, and the events that they fire.
use crossrev.Prelude.{
  ap, ◌∙◌, nat_eq_iff, ℕ, suc, inl, inr, String, Bool, true, false, not, ◌&&◌, ◌||◌, List, [], ◌∷◌,
  ◌++◌, ◌≡◌, refl, ◌==◌, ◌!=◌, nat_Eq, text_Eq, any, filter_if, arith, eq_iff, Bool-cases,
  if◌then◌else◌, text-eq_self,
}
use crossrev.Cycle.Watchdog.{Call, ensure, add, remove, comment, has_label}

-- What a forge does with one write to the labels of a pull request.
abbrev pub after_call : ℕ → List String → Call → List String
after_call pr labels (ensure label) = labels
after_call pr labels (comment n) = labels
after_call pr labels (add n label) =
    if n == pr then (if has_label labels label then labels else labels ++ label ∷ []) else labels
after_call pr labels (remove n label) =
    if n == pr then filter_if (λ l. l != label) labels else labels

abbrev pub after_calls : ℕ → List String → List Call → List String
after_calls pr labels [] = labels
after_calls pr labels (c ∷ cs) = after_calls pr (after_call pr labels c) cs

-- Whether a write puts a label on a pull request that does not have it, which is what fires an event.
abbrev pub fires : ℕ → String → List String → Call → Bool
fires pr want labels (ensure label) = false
fires pr want labels (comment n) = false
fires pr want labels (remove n label) = false
fires pr want labels (add n label) = n == pr && label == want && not (has_label labels label)

-- How many of the writes fire an event for a label.
abbrev pub fired : ℕ → String → List String → List Call → ℕ
fired pr want labels [] = 0
fired pr want labels (c ∷ cs) =
    let later = fired pr want (after_call pr labels c) cs in
    if fires pr want labels c then suc later else later

any-append : (p : String → Bool) (xs ys : List String) → any p (xs ++ ys) ≡ (any p xs || any p ys)
any-append p [] ys = refl
any-append p (x ∷ xs) ys = ground (arith, any-append p xs ys)

same_has :
    (labels : List String) (label want : String)
    → label ≡ want
    → has_label labels label ≡ has_label labels want
same_has labels label want e = ap (has_label labels) e

has-add :
    (labels : List String) (label want : String)
    → has_label (if has_label labels label then labels else labels ++ label ∷ []) want
      ≡ (has_label labels want || label == want)
unfolding has_label
has-add labels label want = elim (Bool-cases (has_label labels label)) [
  | inl p ↦ rw p (ground (arith, p, eq_iff label want, same_has labels label want))
  | inr p ↦ rw p (any-append (λ l. l == want) labels (label ∷ []) ∙ ground arith)
]

has-remove :
    (labels : List String) (label want : String)
    → has_label (filter_if (λ l. l != label) labels) want ≡ (has_label labels want && want != label)
unfolding has_label
has-remove [] label want = refl
has-remove (l ∷ ls) label want =
    ground (arith, has-remove ls label want, eq_iff l label, eq_iff l want, eq_iff want label)

pub nat-eq_self : (n : ℕ) → (n == n) ≡ true
nat-eq_self n = ground (arith, nat_eq_iff n n)

pub has_after-add :
    (pr : ℕ) (labels : List String) (label want : String)
    → has_label (after_call pr labels (add pr label)) want
      ≡ (has_label labels want || label == want)
has_after-add pr labels label want = rw (nat-eq_self pr) (has-add labels label want)

pub has_after-remove :
    (pr : ℕ) (labels : List String) (label want : String)
    → has_label (after_call pr labels (remove pr label)) want
      ≡ (has_label labels want && want != label)
has_after-remove pr labels label want = rw (nat-eq_self pr) (has-remove labels label want)

pub fires-other :
    (pr : ℕ) (label want : String) (labels : List String)
    → (label == want) ≡ false
    → fires pr want labels (add pr label) ≡ false
fires-other pr label want labels h = simp (h, nat-eq_self pr)

pub fires-again :
    (pr : ℕ) (label : String) (labels : List String)
    → fires pr label (after_call pr labels (remove pr label)) (add pr label) ≡ true
fires-again pr label labels =
    let gone = has_after-remove pr labels label label in
    let own = text-eq_self label in let here = nat-eq_self pr in ground (arith, gone, own, here)
