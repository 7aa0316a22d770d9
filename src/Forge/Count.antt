-- ===== src/Forge/Count.antt =====
-- internal/forge/count.go: how many pull requests were reviewed in a window. The comments of a page,
-- and the marker that a body decodes to, are parameters; instants are seconds since the epoch.
pub mod Paging
mod Tests
use crossrev.Prelude.{
  ℕ, zero, suc, ◌+◌, String, Bool, true, false, not, ◌&&◌, ◌||◌, Option, none, some, List, [], ◌∷◌,
  ◌++◌, length, any, ◌==◌, ◌!=◌, text_Eq, ltb, leb, Result, ok, err, if◌then◌else◌,
}
use crossrev.Prelude.Bytes.{Bytes, itoa_bytes}
use crossrev.Prelude.Scan.{bytes_Eq}
use crossrev.Core.Pass.{leg_review, declined}
use crossrev.State.RefName.{has_suffix}

abbrev pub comments_per_page : ℕ
comments_per_page = 100

-- What the count reads of a marker.
pub record CountedMarker : Type 0 where
  pub leg : String
  pub state : String
  pub ts : ℕ

-- A comment; `marker` is what its body decodes to (`reviewMarkerOf`).
pub record Comment : Type 0 where
  pub author_login : String
  pub marker : Option CountedMarker
  pub issue_url : Bytes

pub record DailyCount : Type 0 where
  pub author : String
  pub cutoff : ℕ
  pub cap : ℕ
  pub current_pr : ℕ
  pub current_markers : List CountedMarker

unfoldable pub counts_as_review : CountedMarker → ℕ → Bool
counts_as_review m cutoff = m.leg == leg_review && not (declined m.state) && ltb cutoff m.ts

pub marker_counts : DailyCount → Option CountedMarker → Bool
unfolding counts_as_review
marker_counts req none = false
marker_counts req (some m) = counts_as_review m req.cutoff

-- Whether a comment reaches the test of the list.
unfoldable pub comment_counts : DailyCount → Comment → Bool
unfolding marker_counts
comment_counts req c =
    if c.author_login != req.author
    then false
    else if not (marker_counts req c.marker)
    then false
    else not (c.issue_url == [] || has_suffix c.issue_url (b'/' ∷ itoa_bytes req.current_pr))

abbrev pub contains_url : Bytes → List Bytes → Bool
contains_url url seen = any (λ u. u == url) seen

-- The loop over the comments of a page.
pub fold_page : DailyCount → List Bytes → List Comment → List Bytes
unfolding comment_counts
fold_page req seen [] = seen
fold_page req seen (c ∷ cs) =
    fold_page req
      (if comment_counts req c && not (contains_url c.issue_url seen)
        then seen ++ c.issue_url ∷ []
        else seen)
      cs

-- What is made of the list once a page has been folded in; `later` reads the next page.
pub judge_page :
    {E : Type 0}
    → DailyCount
    → (List Bytes → Option (Result E ℕ))
    → List Bytes
    → Result E (List Comment)
    → Option (Result E ℕ)
unfolding fold_page
judge_page req later seen (err e) = some (err e)
judge_page req later seen (ok comments) =
    let next = later (fold_page req seen comments) in
    if ltb 0 req.cap && leb req.cap (length (fold_page req seen comments))
    then some (ok req.cap)
    else if ltb (length comments) comments_per_page
    then some (ok (length (fold_page req seen comments)))
    else next

module _ {E : Type 0} (repo_issue_comments : ℕ → Result E (List Comment)) (req : DailyCount) where
  -- The loop over the pages, on fuel: `none` where it runs out.
  pub count_pages : ℕ → ℕ → List Bytes → Option (Result E ℕ)
  unfolding judge_page
  count_pages zero page seen = none
  count_pages (suc fuel) page seen =
      judge_page req (count_pages fuel (page + 1)) seen (repo_issue_comments page)

  unfoldable pub prs_reviewed_today : ℕ → Option (Result E ℕ)
  unfolding count_pages counts_as_review
  prs_reviewed_today fuel =
      if any (λ m. counts_as_review m req.cutoff) req.current_markers
      then some (ok 0)
      else count_pages fuel 1 []
