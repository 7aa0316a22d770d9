-- ===== src/Forge/Count/Paging.antt =====
-- What the count of a repository's comments is, page by page.
use crossrev.Prelude.{
  arith, ℕ, zero, suc, ◌+◌, ◌≤◌, ◌<◌, Bool, false, not, ◌&&◌, ◌||◌, Option, some, List, [], ◌∷◌,
  ◌++◌, length, any, length-append, ◌==◌, nat_Eq, ltb, leb, Result, ok, if◌then◌else◌, ◌≡◌, refl,
  sym, ap, ◌∙◌, Bool-cases, inl, inr,
}
use mathlib.Core.List.{flatten}
use crossrev.Prelude.Bytes.{Bytes}
use crossrev.Prelude.Scan.{bytes_Eq, bytes_eq_iff}
use crossrev.Forge.Count.{
  comments_per_page, Comment, counts_as_review, DailyCount, comment_counts, contains_url, fold_page,
  judge_page, count_pages, prs_reviewed_today,
}

-- Each text stands once.
abbrev pub IsDistinct : List Bytes → Type 0
IsDistinct [] = Unit
IsDistinct (u ∷ us) = (contains_url u us ≡ false) × IsDistinct us

-- Whether a comment that counts has this address.
abbrev pub counted_at : DailyCount → List Comment → Bytes → Bool
counted_at req cs url = any (λ c. comment_counts req c && c.issue_url == url) cs

contains-snoc :
    (url u : Bytes) (us : List Bytes)
    → contains_url url (us ++ u ∷ []) ≡ (contains_url url us || u == url)
contains-snoc url u [] = ground arith
contains-snoc url u (v ∷ us) = ground (arith, contains-snoc url u us)

IsDistinct-snoc :
    (u : Bytes) (us : List Bytes)
    → IsDistinct us
    → contains_url u us ≡ false
    → IsDistinct (us ++ u ∷ [])
IsDistinct-snoc u [] h k = (refl, tt)
IsDistinct-snoc u (v ∷ us) h k =
    let other : ((u == v) ≡ false) × (contains_url u us ≡ false) =
      ground (arith, bytes_eq_iff u v, bytes_eq_iff v u) in
    (contains-snoc v u us ∙ ground (arith, h, other), IsDistinct-snoc u us h.1 other.1)

fold_page-IsDistinct :
    (req : DailyCount) (seen : List Bytes) (cs : List Comment)
    → IsDistinct seen
    → IsDistinct (fold_page req seen cs)
unfolding fold_page
fold_page-IsDistinct req seen [] h = h
fold_page-IsDistinct req seen (c ∷ cs) h =
    elim (Bool-cases (comment_counts req c && not (contains_url c.issue_url seen))) [
      | inl p ↦ rw p (
          fold_page-IsDistinct req (seen ++ c.issue_url ∷ []) cs
            (IsDistinct-snoc c.issue_url seen h (ground (arith, p))))
      | inr p ↦ rw p (fold_page-IsDistinct req seen cs h)
    ]

fold_page-contains :
    (req : DailyCount) (seen : List Bytes) (cs : List Comment) (url : Bytes)
    → contains_url url (fold_page req seen cs) ≡ (contains_url url seen || counted_at req cs url)
unfolding fold_page
fold_page-contains req seen [] url = ground arith
fold_page-contains req seen (c ∷ cs) url =
    elim (Bool-cases (comment_counts req c && not (contains_url c.issue_url seen))) [
      | inl p ↦ rw p (
          fold_page-contains req (seen ++ c.issue_url ∷ []) cs url
          ∙ ground (arith, p, contains-snoc url c.issue_url seen))
      | inr p ↦
          rw p
            (fold_page-contains req seen cs url ∙ ground (arith, p, bytes_eq_iff c.issue_url url))
    ]

fold_page-append :
    (req : DailyCount) (seen : List Bytes) (a b : List Comment)
    → fold_page req seen (a ++ b) ≡ fold_page req (fold_page req seen a) b
unfolding fold_page
fold_page-append req seen [] b = refl
fold_page-append req seen (c ∷ a) b =
    fold_page-append req
      (if comment_counts req c && not (contains_url c.issue_url seen)
        then seen ++ c.issue_url ∷ []
        else seen)
      a b

fold_none : (req : DailyCount) (seen : List Bytes) → fold_page req seen [] ≡ seen
unfolding fold_page
fold_none req seen = refl

fold_page-grows :
    (req : DailyCount) (seen : List Bytes) (cs : List Comment)
    → length seen ≤ length (fold_page req seen cs)
unfolding fold_page
fold_page-grows req seen [] = omega arith
fold_page-grows req seen (c ∷ cs) =
    elim (Bool-cases (comment_counts req c && not (contains_url c.issue_url seen))) [
      | inl p ↦ rw p (
          omega (
            arith,
            fold_page-grows req (seen ++ c.issue_url ∷ []) cs,
            length-append seen (c.issue_url ∷ []),
          ))
      | inr p ↦ rw p (fold_page-grows req seen cs)
    ]

-- A count, or the cap where there is one and the count reaches it.
abbrev pub capped : ℕ → ℕ → ℕ
capped cap n = if ltb 0 cap && leb cap n then cap else n

module _ {E : Type 0} (read : ℕ → Result E (List Comment)) (req : DailyCount) where
  -- The read answers with these pages from this number on: full ones, then one that is not full.
  abbrev pub Pages : ℕ → List (List Comment) → Type 0
  Pages page [] = ⊥
  Pages page (last ∷ []) = (read page ≡ ok last) × (length last < comments_per_page)
  Pages page (cs ∷ ds ∷ rest) =
      (read page ≡ ok cs) × (length cs ≡ comments_per_page) × Pages (page + 1) (ds ∷ rest)

  last_page :
      (later : List Bytes → Option (Result E ℕ)) (seen : List Bytes) (cs : List Comment)
      → length cs < comments_per_page
      → judge_page req later seen (ok cs)
        ≡ some (ok (capped req.cap (length (fold_page req seen cs))))
  unfolding judge_page
  last_page later seen cs h = ground arith

  full_page :
      (later : List Bytes → Option (Result E ℕ)) (seen : List Bytes) (cs : List Comment) (n : ℕ)
      → length cs ≡ comments_per_page
      → length (fold_page req seen cs) ≤ n
      → later (fold_page req seen cs) ≡ some (ok (capped req.cap n))
      → judge_page req later seen (ok cs) ≡ some (ok (capped req.cap n))
  unfolding judge_page
  full_page later seen cs n h k e = ground (arith, e)

  count_pages-capped :
      (fuel page : ℕ) (seen : List Bytes) (pages : List (List Comment))
      → Pages page pages
      → length pages ≤ fuel
      → count_pages read req fuel page seen
        ≡ some (ok (capped req.cap (length (fold_page req seen (flatten pages)))))
  unfolding count_pages flatten
  count_pages-capped fuel page seen [] h k = absurd h
  count_pages-capped zero page seen (cs ∷ pages) h k = absurd (omega arith)
  count_pages-capped (suc fuel) page seen (cs ∷ []) h k =
      ap (judge_page req (count_pages read req fuel (page + 1)) seen) h.0
      ∙ last_page (count_pages read req fuel (page + 1)) seen cs h.1
      ∙ ap (λ us. some (ok (capped req.cap (length us)))) (sym (fold_end seen cs))
    where
      fold_end :
          (seen : List Bytes) (cs : List Comment)
          → fold_page req seen (cs ++ []) ≡ fold_page req seen cs
      fold_end seen cs = fold_page-append req seen cs [] ∙ fold_none req (fold_page req seen cs)
  count_pages-capped (suc fuel) page seen (cs ∷ ds ∷ rest) h k =
      let more = flatten (ds ∷ rest) in
      let next = fold_page req seen cs in
      ap (judge_page req (count_pages read req fuel (page + 1)) seen) h.0
      ∙ full_page (count_pages read req fuel (page + 1)) seen cs (length (fold_page req next more))
          h.1 (fold_page-grows req next more)
          (count_pages-capped fuel (page + 1) next (ds ∷ rest) h.2 (omega arith))
      ∙ ap (λ us. some (ok (capped req.cap (length us)))) (sym (fold_page-append req seen cs more))

  -- Where the read answers with full pages and then one that is not, and the fuel is as many pages, the
  -- count is 0 where the current pull request has a review in the window, and otherwise the number of
  -- distinct addresses of the comments that count, or the cap where there is one and they reach it.
  pub prs_reviewed_today-IsExact :
      (fuel : ℕ) (pages : List (List Comment))
      → Pages 1 pages
      → length pages ≤ fuel
      → (urls : List Bytes) × IsDistinct urls
        × ((url : Bytes) → contains_url url urls ≡ counted_at req (flatten pages) url)
        × (prs_reviewed_today read req fuel
            ≡ some (
                ok (
                  if any (λ m. counts_as_review m req.cutoff) req.current_markers
                  then 0
                  else capped req.cap (length urls))))
  unfolding prs_reviewed_today
  prs_reviewed_today-IsExact fuel pages h k = (
    fold_page req [] (flatten pages),
    fold_page-IsDistinct req [] (flatten pages) tt,
    fold_page-contains req [] (flatten pages),
    elim (Bool-cases (any (λ m. counts_as_review m req.cutoff) req.current_markers)) [
      | inl p ↦ rw p refl
      | inr p ↦ rw p (count_pages-capped fuel 1 [] pages h k)
    ],
  )
