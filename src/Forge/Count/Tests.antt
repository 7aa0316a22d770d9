-- ===== src/Forge/Count/Tests.antt =====
-- A page on which the trusted author marked one pull request twice (internal/forge/count.go).
use crossrev.Prelude.{
  arith, ℕ, some, [], ◌∷◌, List, ◌≡◌, refl, any, length, Result, ok, if◌then◌else◌, String,
}
use mathlib.Core.List.{flatten}
use crossrev.Prelude.Bytes.{Bytes, codes}
use crossrev.Core.Pass.{leg_review, pass_complete}
use crossrev.Forge.Count.{
  Comment, CountedMarker, counts_as_review, DailyCount, contains_url, prs_reviewed_today,
}
use crossrev.Forge.Count.Paging.{IsDistinct, counted_at, capped, Pages, prs_reviewed_today-IsExact}

abbrev marked : CountedMarker
marked = record { leg = leg_review; state = pass_complete; ts = 20 }

abbrev marked_by : String → Bytes → Comment
marked_by author url = record { author_login = author; marker = some marked; issue_url = url }

abbrev page : List Comment
page =
    marked_by "app" (codes "r/issues/5")
    ∷ marked_by "app" (codes "r/issues/5")
    ∷ marked_by "eve" (codes "r/issues/6")
    ∷ marked_by "app" (codes "r/issues/7")
    ∷ []

abbrev req : DailyCount
req = record { author = "app"; cutoff = 10; cap = 3; current_pr = 7; current_markers = [] }

abbrev read : ℕ → Result String (List Comment)
read n = ok page

page-counted : prs_reviewed_today read req 1 ≡ some (ok 1)
unfolding prs_reviewed_today crossrev.Core.Pass.declined crossrev.State.RefName.has_suffix
    crossrev.Prelude.Bytes.itoa_bytes
page-counted = refl

one_page : Pages read req 1 (page ∷ [])
one_page = (refl, omega arith)

prs_reviewed_today-IsExact_example :
    (urls : List Bytes) × IsDistinct urls
    × ((url : Bytes) → contains_url url urls ≡ counted_at req (flatten (page ∷ [])) url)
    × (prs_reviewed_today read req 1
        ≡ some (
            ok (
              if any (λ m. counts_as_review m req.cutoff) req.current_markers
              then 0
              else capped req.cap (length urls))))
prs_reviewed_today-IsExact_example =
    prs_reviewed_today-IsExact read req 1 (page ∷ []) one_page (omega arith)
