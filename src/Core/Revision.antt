-- ===== src/Core/Revision.antt =====
-- internal/core/revision.go and repository.go: the identities that the push guard compares.
use crossrev.Prelude.{String, Bool, ◌&&◌, ◌||◌, ◌==◌, text_Eq}
use crossrev.Prelude.Text.{◌++◌}

-- One git commit, and the ref that it was read through. The zero value has no object name.
pub record Revision : Type 0 where
  pub sha : String
  pub ref : String

-- `Equal` compares identity alone.
unfoldable pub revision_equal : Revision → Revision → Bool
revision_equal r other = r.sha == other.sha

pub record RevisionPair : Type 0 where
  pub base : Revision
  pub head : Revision

unfoldable pub pair_equal : RevisionPair → RevisionPair → Bool
unfolding revision_equal
pair_equal p other = revision_equal p.base other.base && revision_equal p.head other.head

unfoldable pub pair_incomplete : RevisionPair → Bool
pair_incomplete p = p.base.sha == "" || p.head.sha == ""

pub record Slug : Type 0 where
  pub owner : String
  pub name : String

-- Go's `==` on the two halves.
unfoldable pub slug_equal : Slug → Slug → Bool
slug_equal s other = s.owner == other.owner && s.name == other.name

unfoldable pub slug_text : Slug → String
slug_text s = s.owner ++ "/" ++ s.name

unfoldable pub slug_incomplete : Slug → Bool
slug_incomplete s = s.owner == "" || s.name == ""
