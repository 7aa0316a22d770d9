-- ===== src/State/RefName.antt =====
-- internal/prstate/refname.go: the name of the ref that holds the coverage of a slot. A namespace is
-- read by bytes; each byte that is refused is ASCII, so the runes of the loop find the same.
mod Checked
pub mod Own
mod Tests
use crossrev.Prelude.{
  ℕ, String, Bool, true, false, not, ◌&&◌, ◌||◌, Option, none, some, List, [], ◌∷◌, ◌++◌, length,
  any, ◌==◌, nat_Eq, text_Eq, leb, ltb, Result, ok, err, if◌then◌else◌,
}
use crossrev.Prelude.Bytes.{Bytes, codes, has_prefix, itoa_bytes}
use crossrev.Prelude.Scan.{bytes_Eq, split_on}
use crossrev.State.Ledger.{SlotRef}

abbrev pub default_slot : String
default_slot = "reviewer1"

-- `strings.HasSuffix`.
unfoldable pub has_suffix : Bytes → Bytes → Bool
has_suffix [] p = [] == p
has_suffix (c ∷ s) p = (c ∷ s) == p || has_suffix s p

-- `strings.Contains`.
pub contains : Bytes → Bytes → Bool
unfolding has_prefix
contains [] p = has_prefix [] p
contains (c ∷ s) p = has_prefix (c ∷ s) p || contains s p

-- One constructor for each error of `ValidNamespace`.
pub data NamespaceError : Type 0 where
  empty_namespace outside_refs no_component reserved : NamespaceError
  empty_component leading_dot lock_suffix two_dots at_brace : NamespaceError
  control_character space_character forbidden_character : NamespaceError

-- The bytes of `~^:?*[\]`.
forbidden : ℕ → Bool
forbidden c = any (λ d. d == c) (codes "~^:?*[\\]")

-- The loop over the characters of a component.
pub check_bytes : Bytes → Option NamespaceError
unfolding forbidden
check_bytes [] = none
check_bytes (c ∷ s) =
    let rest = check_bytes s in
    if leb c 31 || c == 127
    then some control_character
    else if c == 32
    then some space_character
    else if forbidden c
    then some forbidden_character
    else rest

pub check_part : Bytes → Option NamespaceError
unfolding has_prefix has_suffix contains check_bytes
check_part part =
    if part == []
    then some empty_component
    else if has_prefix part (codes ".")
    then some leading_dot
    else if has_suffix part (codes ".lock")
    then some lock_suffix
    else if contains part (codes "..")
    then some two_dots
    else if contains part (codes "@{")
    then some at_brace
    else check_bytes part

-- The loop over the components below `refs`.
pub check_parts : List Bytes → Option NamespaceError
unfolding check_part
check_parts [] = none
check_parts (part ∷ parts) =
    let rest = check_parts parts in elim (check_part part) [ some e ↦ some e | none ↦ rest ]

pub is_reserved : Bytes → Bool
is_reserved part =
    part == codes "heads" || part == codes "tags" || part == codes "pull" || part == codes "remotes"

pub check_components : List Bytes → Option NamespaceError
unfolding is_reserved check_parts
check_components [] = some no_component
check_components (first ∷ []) = some no_component
check_components (first ∷ second ∷ parts) =
    if is_reserved second then some reserved else check_parts (second ∷ parts)

-- `none` where the namespace is accepted.
unfoldable pub valid_namespace : Bytes → Option NamespaceError
unfolding has_prefix check_components
valid_namespace ns =
    if ns == []
    then some empty_namespace
    else if not (has_prefix ns (codes "refs/"))
    then some outside_refs
    else check_components (split_on b'/' ns)

pub is_alphanumeric : ℕ → Bool
is_alphanumeric c = leb b'A' c && leb c b'Z' || leb b'a' c && leb c b'z' || leb b'0' c && leb c b'9'

pub is_slot_byte : ℕ → Bool
unfolding is_alphanumeric
is_slot_byte c = is_alphanumeric c || c == b'.' || c == b'_' || c == b'-'

all_slot_bytes : Bytes → Bool
unfolding is_slot_byte
all_slot_bytes [] = true
all_slot_bytes (c ∷ s) = is_slot_byte c && all_slot_bytes s

-- The match of `[A-Za-z0-9][A-Za-z0-9._-]{0,63}`.
unfoldable pub valid_slot : Bytes → Bool
unfolding is_alphanumeric all_slot_bytes
valid_slot [] = false
valid_slot (c ∷ s) = is_alphanumeric c && all_slot_bytes s && leb (length s) 63

pub data RefNameError : Type 0 where
  bad_namespace : NamespaceError → RefNameError
  bad_slot bad_number : RefNameError

pub slot_of : SlotRef → Bytes
slot_of ref = if ref.slot == "" then codes default_slot else codes ref.slot

-- The name below the namespace, after both inputs have been accepted.
abbrev pub name_below : Bytes → ℕ → Bytes → Bytes
name_below ns number slot =
    ns ++ (codes "/pr/" ++ (itoa_bytes number ++ (b'/' ∷ (slot ++ codes "/coverage"))))

pub name_of : Option NamespaceError → Bytes → ℕ → Bytes → Result RefNameError Bytes
unfolding valid_slot
name_of (some e) ns number slot = err (bad_namespace e)
name_of none ns number slot =
    if not (valid_slot slot)
    then err bad_slot
    else if number == 0
    then err bad_number
    else ok (name_below ns number slot)

-- A pull request's number is not negative here; 0 stands for the numbers that are refused.
unfoldable pub ref_name : Bytes → SlotRef → Result RefNameError Bytes
unfolding valid_namespace slot_of name_of
ref_name ns ref = name_of (valid_namespace ns) ns ref.number (slot_of ref)
