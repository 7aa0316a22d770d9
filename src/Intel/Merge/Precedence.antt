-- ===== src/Intel/Merge/Precedence.antt =====
-- The merged verdict, and the numbers that it names.
use crossrev.Prelude.{
  nat_eq_iff, Bool-cases, inl, inr, text-eq_self, ℕ, ◌≢◌, String, Bool, true, false, ◌&&◌, ◌||◌,
  List, [], ◌∷◌, ◌++◌, ◌≡◌, refl, ◌∙◌, ◌==◌, nat_Eq, text_Eq, ltb, length, any, arith, eq_iff,
  if◌then◌else◌,
}
use crossrev.Core.Coverage.{
  file_verdict_no_issue, file_verdict_finding, file_verdict_not_affected,
  file_verdict_could_not_review,
}
use crossrev.Intel.Merge.{
  SplitVerdict, contains, keep_new, settle, merge_from, merge_split_verdicts,
}

abbrev pub has : String → List SplitVerdict → Bool
has word parts = any (λ p. p.verdict == word) parts

abbrev pub all_unaffected : List SplitVerdict → Bool
all_unaffected [] = true
all_unaffected (p ∷ ps) = p.verdict == file_verdict_not_affected && all_unaffected ps

-- The order of the verdicts, with what the loop has read before `parts`.
abbrev ranked : Bool → Bool → List SplitVerdict → String
ranked found unanimous parts =
    if has file_verdict_could_not_review parts
    then file_verdict_could_not_review
    else if found || has file_verdict_finding parts
    then file_verdict_finding
    else if unanimous && all_unaffected parts
    then file_verdict_not_affected
    else file_verdict_no_issue

words-ne :
    (file_verdict_finding ≢ file_verdict_could_not_review)
    × (file_verdict_not_affected ≢ file_verdict_could_not_review)
    × (file_verdict_not_affected ≢ file_verdict_finding)
    × (file_verdict_no_issue ≢ file_verdict_finding)
words-ne = ground (
  arith,
  eq_iff file_verdict_finding file_verdict_could_not_review,
  eq_iff file_verdict_not_affected file_verdict_could_not_review,
  eq_iff file_verdict_not_affected file_verdict_finding,
  eq_iff file_verdict_no_issue file_verdict_finding,
)

join-finding :
    (unread found : Bool) (rest : String)
    → (if unread then file_verdict_could_not_review else file_verdict_finding) ≡ (
        if unread
        then file_verdict_could_not_review
        else if found || true
        then file_verdict_finding
        else rest)
join-finding unread found rest = ground arith

and-false : (b : Bool) → (b && false) ≡ false
and-false true = refl
and-false false = refl

verdict-merge_from :
    (verdict : String) (numbers : List ℕ) (unanimous : Bool) (parts : List SplitVerdict)
    → (merge_from verdict numbers unanimous parts).0
      ≡ ranked (verdict == file_verdict_finding) unanimous parts
unfolding merge_from settle
verdict-merge_from verdict numbers unanimous [] =
    ground (arith, eq_iff verdict file_verdict_finding)
verdict-merge_from verdict numbers unanimous (p ∷ ps) =
    let found =
      verdict-merge_from file_verdict_finding (keep_new numbers p.finding_numbers) false ps in
    let unaffected = verdict-merge_from verdict numbers unanimous ps in
    let other = verdict-merge_from verdict numbers false ps in
    elim (Bool-cases (p.verdict == file_verdict_could_not_review)) [
      | inl a ↦ rw a refl
      | inr a ↦ rw a (elim (Bool-cases (p.verdict == file_verdict_finding)) [
        | inl b ↦ rw b (
            found
            ∙ rw (text-eq_self file_verdict_finding) (
                join-finding (has file_verdict_could_not_review ps)
                  (verdict == file_verdict_finding) _))
        | inr b ↦ rw b (elim (Bool-cases (p.verdict == file_verdict_not_affected)) [
          | inl c ↦ rw c unaffected
          | inr c ↦ rw c (other ∙ rw (and-false unanimous) refl)
        ])
      ])
    ]

-- The merged verdict: a part that could not be reviewed decides it, then a part with a finding, then
-- parts, at least one, that are all unaffected; otherwise there is no issue.
pub merge_split_verdicts-ranked :
    (parts : List SplitVerdict)
    → (merge_split_verdicts parts).0 ≡ (
        if has file_verdict_could_not_review parts
        then file_verdict_could_not_review
        else if has file_verdict_finding parts
        then file_verdict_finding
        else if ltb 0 (length parts) && all_unaffected parts
        then file_verdict_not_affected
        else file_verdict_no_issue)
unfolding merge_split_verdicts
merge_split_verdicts-ranked parts =
    verdict-merge_from file_verdict_no_issue [] (ltb 0 (length parts)) parts
    ∙ ground (arith, eq_iff file_verdict_no_issue file_verdict_finding, words-ne)

pub contains-append :
    (xs ys : List ℕ) (n : ℕ) → contains (xs ++ ys) n ≡ (contains xs n || contains ys n)
contains-append [] ys n = refl
contains-append (x ∷ xs) ys n = ground (arith, contains-append xs ys n)

pub contains-keep_new :
    (numbers ns : List ℕ) (n : ℕ)
    → contains (keep_new numbers ns) n ≡ (contains numbers n || contains ns n)
unfolding keep_new
contains-keep_new numbers [] n = ground arith
contains-keep_new numbers (m ∷ ns) n = elim (Bool-cases (contains numbers m)) [
  | inl p ↦ rw p (ground (arith, contains-keep_new numbers ns n, nat_eq_iff m n, p))
  | inr p ↦ rw p (
      ground
        (arith, contains-keep_new (numbers ++ m ∷ []) ns n, contains-append numbers (m ∷ []) n))
]
