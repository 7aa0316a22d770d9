-- ===== src/State/RefName/Checked.antt =====
-- What an accepted namespace and an accepted slot are made of.
use crossrev.Prelude.{
  arith, ℕ, ◌≤◌, Bool, true, false, ◌||◌, none, List, [], ◌∷◌, ◌++◌, ◌≡◌, ◌≢◌, refl, ◌⊎◌, ap, ◌∙◌,
  ◌==◌, nat_Eq, nat_eq_iff, length, All,
}
use crossrev.Prelude.Bytes.{Bytes, codes, has_prefix}
use crossrev.Prelude.Bytes.Cuts.{has_prefix-append}
use crossrev.Prelude.Scan.{bytes_Eq, bytes_eq_iff, split_on, split_on-part}
use crossrev.State.RefName.{
  has_suffix, contains, NamespaceError, check_bytes, check_part, check_parts, is_reserved,
  check_components, valid_namespace, is_alphanumeric, is_slot_byte, all_slot_bytes, valid_slot,
  slot_of, name_below, name_of, ref_name,
}

-- No control character, no space and none of `~^:?*[\]`.
abbrev pub IsPlain : ℕ → Type 0
IsPlain c =
    (33 ≤ c)
    × (c ≢ 127)
    × (c ≢ b'~')
    × (c ≢ b'^')
    × (c ≢ b':')
    × (c ≢ b'?')
    × (c ≢ b'*')
    × (c ≢ b'[')
    × (c ≢ b'\\')
    × (c ≢ b']')

-- A component that git takes in the name of a ref.
abbrev pub IsSafePart : Bytes → Type 0
IsSafePart part =
    (part ≢ [])
    × ((s : Bytes) → part ≢ codes "." ++ s)
    × ((s : Bytes) → part ≢ s ++ codes ".lock")
    × ((s t : Bytes) → part ≢ s ++ codes ".." ++ t)
    × ((s t : Bytes) → part ≢ s ++ codes "@{" ++ t)
    × All IsPlain part

-- The first component below `refs` is none of git's own.
abbrev pub IsOutside : List Bytes → Type 0
IsOutside [] = ⊥
IsOutside (part ∷ parts) =
    (part ≢ codes "heads")
    × (part ≢ codes "tags")
    × (part ≢ codes "pull")
    × (part ≢ codes "remotes")

has_suffix-append : (s p : Bytes) → has_suffix (s ++ p) p ≡ true
unfolding has_suffix
has_suffix-append [] [] = refl
has_suffix-append [] (c ∷ p) = ground (arith, bytes_eq_iff (c ∷ p) (c ∷ p))
has_suffix-append (c ∷ s) p = ground (arith, has_suffix-append s p)

contains-append : (s p t : Bytes) → contains (s ++ p ++ t) p ≡ true
unfolding contains
contains-append [] [] [] = has_prefix-append [] []
contains-append [] [] (c ∷ t) = ground (arith, has_prefix-append [] (c ∷ t))
contains-append [] (c ∷ p) t = ground (arith, has_prefix-append (c ∷ p) t)
contains-append (c ∷ s) p t = ground (arith, contains-append s p t)

check_bytes-All : (s : Bytes) → check_bytes s ≡ none → All IsPlain s
unfolding check_bytes crossrev.State.RefName.forbidden
check_bytes-All [] h = tt
check_bytes-All (c ∷ s) h = ground (arith, check_bytes-All s)

check_part-tests :
    (part : Bytes)
    → check_part part ≡ none
    → ((part == []) ≡ false)
      × (has_prefix part (codes ".") ≡ false)
      × (has_suffix part (codes ".lock") ≡ false)
      × (contains part (codes "..") ≡ false)
      × (contains part (codes "@{") ≡ false)
      × (check_bytes part ≡ none)
unfolding check_part
check_part-tests part h = ground arith

check_part-IsSafePart : (part : Bytes) → check_part part ≡ none → IsSafePart part
check_part-IsSafePart part h =
    let (some_byte, dot, lock, dots, brace, plain) = check_part-tests part h in
    (
      λ e. ground (arith, bytes_eq_iff part []),
      λ s e. cc (ap (λ x. has_prefix x (codes ".")) e, has_prefix-append (codes ".") s),
      λ s e. cc (ap (λ x. has_suffix x (codes ".lock")) e, has_suffix-append s (codes ".lock")),
      λ s t e. cc (ap (λ x. contains x (codes "..")) e, contains-append s (codes "..") t),
      λ s t e. cc (ap (λ x. contains x (codes "@{")) e, contains-append s (codes "@{") t),
      check_bytes-All part plain,
    )

check_parts-All : (parts : List Bytes) → check_parts parts ≡ none → All IsSafePart parts
unfolding check_parts
check_parts-All [] h = tt
check_parts-All (part ∷ parts) h = ground (arith, check_part-IsSafePart part, check_parts-All parts)

not_reserved :
    (part : Bytes)
    → is_reserved part ≡ false
    → ((part == codes "heads") ≡ false)
      × ((part == codes "tags") ≡ false)
      × ((part == codes "pull") ≡ false)
      × ((part == codes "remotes") ≡ false)
unfolding is_reserved
not_reserved part h = or_parts _ _ _ _ h
  where
    or_parts :
        (a b c d : Bool)
        → (a || b || c || d) ≡ false
        → (a ≡ false) × (b ≡ false) × (c ≡ false) × (d ≡ false)
    or_parts a b c d h = ground arith

check_components-tests :
    (first second : Bytes) (parts : List Bytes)
    → check_components (first ∷ second ∷ parts) ≡ none
    → ((second == codes "heads") ≡ false)
      × ((second == codes "tags") ≡ false)
      × ((second == codes "pull") ≡ false)
      × ((second == codes "remotes") ≡ false)
      × (check_parts (second ∷ parts) ≡ none)
unfolding check_components
check_components-tests first second parts h =
    let p : (is_reserved second ≡ false) × (check_parts (second ∷ parts) ≡ none) = ground arith in
    let (a, b, c, d) = not_reserved second p.0 in (a, b, c, d, p.1)

differs : (s t : Bytes) → (s == t) ≡ false → s ≢ t
differs s t h = ground (arith, bytes_eq_iff s t)

check_components-Outside :
    (first : Bytes) (parts : List Bytes)
    → check_components (first ∷ parts) ≡ none
    → IsOutside parts × All IsSafePart parts
unfolding check_components
check_components-Outside first [] h = cc
check_components-Outside first (second ∷ parts) h =
    let (a, b, c, d, safe) = check_components-tests first second parts h in
    (
      (differs second _ a, differs second _ b, differs second _ c, differs second _ d),
      check_parts-All (second ∷ parts) safe,
    )

has_prefix-parts : (s p : Bytes) → has_prefix s p ≡ true → (t : Bytes) × (s ≡ p ++ t)
unfolding has_prefix
has_prefix-parts s [] h = (s, refl)
has_prefix-parts [] (d ∷ p) h = cc
has_prefix-parts (c ∷ s) (d ∷ p) h =
    let e : (c ≡ d) × (has_prefix s p ≡ true) = ground (arith, nat_eq_iff c d) in
    let (t, q) = has_prefix-parts s p e.1 in (t, cc (e.0, q))

-- What an accepted namespace has for components.
abbrev pub Namespace : Bytes → Type 0
Namespace ns =
    (parts : List Bytes) × (split_on b'/' ns ≡ codes "refs" ∷ parts)
    × IsOutside parts
    × All IsSafePart parts

under_refs :
    (ns t : Bytes)
    → ns ≡ codes "refs/" ++ t
    → check_components (split_on b'/' ns) ≡ none
    → Namespace ns
under_refs ns t e h =
    let p : split_on b'/' ns ≡ codes "refs" ∷ split_on b'/' t =
      ap (split_on b'/') e
      ∙ split_on-part b'/' (codes "refs") t (refl, (refl, (refl, (refl, tt)))) in
    let (a, b) =
      check_components-Outside (codes "refs") (split_on b'/' t) (cc (ap check_components p, h)) in
    (split_on b'/' t, p, a, b)

pub valid_namespace-Namespace : (ns : Bytes) → valid_namespace ns ≡ none → Namespace ns
unfolding valid_namespace
valid_namespace-Namespace ns h =
    let p : (has_prefix ns (codes "refs/") ≡ true) × (check_components (split_on b'/' ns) ≡ none) =
      ground arith in
    let (t, e) = has_prefix-parts ns (codes "refs/") p.0 in under_refs ns t e p.1

abbrev pub IsAlphanumeric : ℕ → Type 0
IsAlphanumeric c = ((b'A' ≤ c) × (c ≤ b'Z')) ⊎ ((b'a' ≤ c) × (c ≤ b'z')) ⊎ ((b'0' ≤ c) × (c ≤ b'9'))

-- A byte of the name of a slot.
abbrev pub IsSlotByte : ℕ → Type 0
IsSlotByte c = IsAlphanumeric c ⊎ (c ≡ b'.') ⊎ (c ≡ b'_') ⊎ (c ≡ b'-')

-- The name of a slot: no slash, no leading dot or dash, at most 64 bytes.
abbrev pub IsSlot : Bytes → Type 0
IsSlot [] = ⊥
IsSlot (c ∷ s) = IsAlphanumeric c × All IsSlotByte s × (length s ≤ 63)

is_slot_byte-IsSlotByte : (c : ℕ) → is_slot_byte c ≡ true → IsSlotByte c
unfolding is_slot_byte is_alphanumeric
is_slot_byte-IsSlotByte c h = ground arith

all_slot_bytes-All : (s : Bytes) → all_slot_bytes s ≡ true → All IsSlotByte s
unfolding all_slot_bytes
all_slot_bytes-All [] h = tt
all_slot_bytes-All (c ∷ s) h = ground (arith, is_slot_byte-IsSlotByte c, all_slot_bytes-All s)

is_alphanumeric-IsAlphanumeric : (c : ℕ) → is_alphanumeric c ≡ true → IsAlphanumeric c
unfolding is_alphanumeric
is_alphanumeric-IsAlphanumeric c h = ground arith

pub valid_slot-IsSlot : (s : Bytes) → valid_slot s ≡ true → IsSlot s
unfolding valid_slot
valid_slot-IsSlot [] h = cc
valid_slot-IsSlot (c ∷ s) h =
    let p : (is_alphanumeric c ≡ true) × (all_slot_bytes s ≡ true) × (length s ≤ 63) =
      ground arith in
    (is_alphanumeric-IsAlphanumeric c p.0, all_slot_bytes-All s p.1, p.2)
