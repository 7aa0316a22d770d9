-- ===== src/Intel/Merge/Numbers.antt =====
-- The numbers of the merged verdict.
use crossrev.Prelude.{
  ℕ, ◌<◌, inl, inr, String, Bool, true, false, not, ◌&&◌, ◌||◌, List, [], ◌∷◌, ◌++◌, ◌≡◌, refl, ◌∙◌,
  ◌==◌, nat_Eq, text_Eq, leb, ltb, length, any, All, arith, Bool-cases, nat_eq_iff,
}
use crossrev.Core.Coverage.{
  file_verdict_no_issue, file_verdict_finding, file_verdict_not_affected,
  file_verdict_could_not_review,
}
use crossrev.Intel.Merge.{
  SplitVerdict, contains, keep_new, insert_number, sort_numbers, settle, merge_from,
  merge_split_verdicts,
}
use crossrev.Intel.Merge.Precedence.{has, contains-append, contains-keep_new}

abbrev pub Ascending : List ℕ → Type 0
Ascending [] = Unit
Ascending (n ∷ ns) = All (λ m. n < m) ns × Ascending ns

abbrev Distinct : List ℕ → Type 0
Distinct [] = Unit
Distinct (n ∷ ns) = (contains ns n ≡ false) × Distinct ns

Distinct-append :
    (ns : List ℕ) (n : ℕ) → Distinct ns → contains ns n ≡ false → Distinct (ns ++ n ∷ [])
Distinct-append [] n d e = (refl, tt)
Distinct-append (m ∷ ns) n d e = (
  ground (arith, d.0, e, contains-append ns (n ∷ []) m, nat_eq_iff m n, nat_eq_iff n m),
  Distinct-append ns n d.1 (ground (arith, e)),
)

keep_new-Distinct : (numbers ns : List ℕ) → Distinct numbers → Distinct (keep_new numbers ns)
unfolding keep_new
keep_new-Distinct numbers [] d = d
keep_new-Distinct numbers (n ∷ ns) d = elim (Bool-cases (contains numbers n)) [
  | inl p ↦ rw p (keep_new-Distinct numbers ns d)
  | inr p ↦ rw p (keep_new-Distinct (numbers ++ n ∷ []) ns (Distinct-append numbers n d p))
]

contains-insert :
    (n : ℕ) (ms : List ℕ) (k : ℕ) → contains (insert_number n ms) k ≡ contains (n ∷ ms) k
unfolding insert_number
contains-insert n [] k = refl
contains-insert n (m ∷ ms) k = ground (arith, contains-insert n ms k)

contains-sort : (ns : List ℕ) (k : ℕ) → contains (sort_numbers ns) k ≡ contains ns k
unfolding sort_numbers
contains-sort [] k = refl
contains-sort (n ∷ ns) k = ground (arith, contains-insert n (sort_numbers ns) k, contains-sort ns k)

above_trans : (a b : ℕ) (ns : List ℕ) → a < b → All (λ m. b < m) ns → All (λ m. a < m) ns
above_trans a b [] lt h = tt
above_trans a b (n ∷ ns) lt h = (omega (arith, lt, h.0), above_trans a b ns lt h.1)

insert-above :
    (b n : ℕ) (ms : List ℕ) → b < n → All (λ m. b < m) ms → All (λ m. b < m) (insert_number n ms)
unfolding insert_number
insert-above b n [] lt h = (lt, tt)
insert-above b n (m ∷ ms) lt h = elim (Bool-cases (leb n m)) [
  | inl p ↦ rw p (lt, h)
  | inr p ↦ rw p (h.0, insert-above b n ms lt h.1)
]

insert-Ascending :
    (n : ℕ) (ms : List ℕ) → Ascending ms → contains ms n ≡ false → Ascending (insert_number n ms)
unfolding insert_number
insert-Ascending n [] h e = (tt, tt)
insert-Ascending n (m ∷ ms) h e = elim (Bool-cases (leb n m)) [
  | inl p ↦ rw p (let lt : n < m = ground (arith, p, e) in ((lt, above_trans n m ms lt h.0), h))
  | inr p ↦
      rw p
        (insert-above m n ms (ground (arith, p)) h.0, insert-Ascending n ms h.1 (ground (arith, e)))
]

sort-Ascending : (ns : List ℕ) → Distinct ns → Ascending (sort_numbers ns)
unfolding sort_numbers
sort-Ascending [] d = tt
sort-Ascending (n ∷ ns) d =
    insert-Ascending n (sort_numbers ns) (sort-Ascending ns d.1) (contains-sort ns n ∙ d.0)

-- The numbers that the parts with a finding name.
abbrev pub names : List SplitVerdict → ℕ → Bool
names parts n = any (λ p. p.verdict == file_verdict_finding && contains p.finding_numbers n) parts

settle-Ascending :
    (verdict : String) (numbers : List ℕ) (unanimous : Bool)
    → Distinct numbers
    → Ascending (settle verdict numbers unanimous).1
unfolding settle
settle-Ascending verdict numbers unanimous d = elim (Bool-cases (verdict == file_verdict_finding)) [
  | inl p ↦ rw p (sort-Ascending numbers d)
  | inr p ↦ rw p (elim (Bool-cases unanimous) [ inl q ↦ rw q tt | inr q ↦ rw q tt ])
]

merge_from-Ascending :
    (verdict : String) (numbers : List ℕ) (unanimous : Bool) (parts : List SplitVerdict)
    → Distinct numbers
    → Ascending (merge_from verdict numbers unanimous parts).1
unfolding merge_from
merge_from-Ascending verdict numbers unanimous [] d = settle-Ascending verdict numbers unanimous d
merge_from-Ascending verdict numbers unanimous (p ∷ ps) d =
    let found =
      merge_from-Ascending file_verdict_finding (keep_new numbers p.finding_numbers) false ps
        (keep_new-Distinct numbers p.finding_numbers d) in
    let unaffected = merge_from-Ascending verdict numbers unanimous ps d in
    let other = merge_from-Ascending verdict numbers false ps d in
    elim (Bool-cases (p.verdict == file_verdict_could_not_review)) [
      | inl a ↦ rw a tt
      | inr a ↦ rw a (elim (Bool-cases (p.verdict == file_verdict_finding)) [
        | inl b ↦ rw b found
        | inr b ↦ rw b (elim (Bool-cases (p.verdict == file_verdict_not_affected)) [
          | inl c ↦ rw c unaffected
          | inr c ↦ rw c other
        ])
      ])
    ]

contains-settle :
    (verdict : String) (numbers : List ℕ) (unanimous : Bool) (n : ℕ)
    → contains (settle verdict numbers unanimous).1 n
      ≡ (verdict == file_verdict_finding && contains numbers n)
unfolding settle
contains-settle verdict numbers unanimous n = ground (arith, contains-sort numbers n)

contains-merge_from :
    (verdict : String) (numbers : List ℕ) (unanimous : Bool) (parts : List SplitVerdict) (n : ℕ)
    → (verdict == file_verdict_finding || not (contains numbers n)) ≡ true
    → contains (merge_from verdict numbers unanimous parts).1 n
      ≡ (not (has file_verdict_could_not_review parts) && (contains numbers n || names parts n))
unfolding merge_from
contains-merge_from verdict numbers unanimous [] n h =
    contains-settle verdict numbers unanimous n ∙ ground (arith, h)
contains-merge_from verdict numbers unanimous (p ∷ ps) n h =
    let found =
      contains-merge_from file_verdict_finding (keep_new numbers p.finding_numbers) false ps n
        refl in
    let unaffected = contains-merge_from verdict numbers unanimous ps n h in
    let other = contains-merge_from verdict numbers false ps n h in
    elim (Bool-cases (p.verdict == file_verdict_could_not_review)) [
      | inl a ↦ rw a refl
      | inr a ↦ rw a (elim (Bool-cases (p.verdict == file_verdict_finding)) [
        | inl b ↦ rw b (found ∙ rw (contains-keep_new numbers p.finding_numbers n) (ground arith))
        | inr b ↦ rw b (elim (Bool-cases (p.verdict == file_verdict_not_affected)) [
          | inl c ↦ rw c unaffected
          | inr c ↦ rw c other
        ])
      ])
    ]

-- The merged numbers are in ascending order, with none twice, and hold a number exactly where no
-- part was left unreviewed and some part with a finding names it.
pub merge_split_verdicts-numbers :
    (parts : List SplitVerdict) (n : ℕ)
    → Ascending (merge_split_verdicts parts).1
      × (contains (merge_split_verdicts parts).1 n
          ≡ (not (has file_verdict_could_not_review parts) && names parts n))
unfolding merge_split_verdicts
merge_split_verdicts-numbers parts n = (
  merge_from-Ascending file_verdict_no_issue [] (ltb 0 (length parts)) parts tt,
  contains-merge_from file_verdict_no_issue [] (ltb 0 (length parts)) parts n refl,
)
