-- ===== src/Core/Words.antt =====
-- What the closed vocabularies of internal/core share. Each Go type of words is a string type, so a
-- word is a text here, and a parser decides which texts are words.
use crossrev.Prelude.{String, List, ◌==◌, text_Eq, any, Result, ok, err, if◌then◌else◌}

-- `fmt.Errorf("%w: %q", sentinel, s)`: the sentinel that it wraps, and the refused text.
pub record WordError : Type 0 where
  pub sentinel : String
  pub word : String

abbrev pub Parsed : Type 0
Parsed = Result WordError String

abbrev pub refuse : String → String → Parsed
refuse sentinel s = err (record { sentinel = sentinel; word = s })

-- What a parser of a closed vocabulary answers: a listed word as it is, and else the refusal.
abbrev pub closed : String → List String → String → Parsed
closed sentinel words s = if any (λ w. s == w) words then ok s else refuse sentinel s
