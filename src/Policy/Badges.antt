-- ===== src/Policy/Badges.antt =====
-- internal/policy/labels.go: the colours and the descriptions of labels.
use Prim.Native.Char.{code}
use Prim.Native.String.{String}
use crossrev.Prelude.{Bool, false, ◌||◌, ◌==◌, nat_Eq, text_Eq, if◌then◌else◌}
use crossrev.Prelude.Text.{◌++◌}
use crossrev.Prelude.Bytes.{codes, has_prefix}
use crossrev.Policy.Labels.{
  label_awaiting_review, label_awaiting_resolution, label_converged, label_halted, label_stop,
  label_watchdog_retried, label_pass_prefix,
}

unfoldable pub label_colour : String → String
label_colour label =
    if label == label_awaiting_review
    then "0969da"
    else if label == label_awaiting_resolution
    then "8250df"
    else if label == label_converged
    then "1a7f37"
    else if label == label_halted
    then "bc4c00"
    else if label == label_stop
    then "cf222e"
    else if label == label_watchdog_retried
    then "fbca04"
    else if has_prefix (codes label) (codes label_pass_prefix)
    then "57606a"
    else "ededed"

has_hyphen : String → Bool
has_hyphen String.[] = false
has_hyphen (String.◌∷◌ c s) = code c == b'-' || has_hyphen s

-- `label[strings.LastIndex(label, "-")+1:]`: the whole text where it has no hyphen.
after_last_hyphen : String → String
unfolding has_hyphen
after_last_hyphen String.[] = String.[]
after_last_hyphen (String.◌∷◌ c s) =
    let later = after_last_hyphen s in
    if has_hyphen s then later else if code c == b'-' then s else String.◌∷◌ c s

unfoldable pub label_description : String → String
unfolding after_last_hyphen
label_description label =
    if label == label_awaiting_review
    then "crossrev: a review is owed on this pull request"
    else if label == label_awaiting_resolution
    then "crossrev: the review landed, the resolve leg is owed"
    else if label == label_converged
    then "crossrev: the loop finished on its own"
    else if label == label_halted
    then "crossrev: stopped short, a human is needed"
    else if label == label_stop
    then "crossrev: apply this to stop the loop"
    else if label == label_watchdog_retried
    then "crossrev: the watchdog retried this leg once"
    else if has_prefix (codes label) (codes label_pass_prefix)
    then "crossrev: reached pass " ++ after_last_hyphen label
    else "crossrev loop state"
