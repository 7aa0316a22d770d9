-- ===== src/State/RefName/Own.antt =====
-- Where the ref of a slot stands among the refs of a repository.
use crossrev.Prelude.{
  arith, ℕ, true, Option, none, some, List, [], ◌∷◌, ◌++◌, ◌≡◌, ◌≢◌, refl, sym, inl, ap, ◌∙◌,
  nat_Eq, All, All-weaken, ok,
}
use crossrev.Prelude.Bytes.Digits.{IsDigit, itoa-All}
use crossrev.Prelude.Bytes.{Bytes, codes, itoa_bytes}
use crossrev.Prelude.Scan.{
  bytes_Eq, split_on, Differs, split_on-part, split_on-last, split_on-append,
}
use crossrev.State.Ledger.{SlotRef}
use crossrev.State.RefName.{
  NamespaceError, valid_namespace, valid_slot, slot_of, name_below, name_of, ref_name,
}
use crossrev.State.RefName.Checked.{
  IsSafePart, IsOutside, valid_namespace-Namespace, IsSlotByte, IsSlot, valid_slot-IsSlot,
}

digit-Differs : (c : ℕ) → IsDigit c → Differs b'/' c
digit-Differs c h = ground arith

slot_byte-Differs : (c : ℕ) → IsSlotByte c → Differs b'/' c
slot_byte-Differs c h = ground arith

IsSlot-Differs : (s : Bytes) → IsSlot s → All (Differs b'/') s
IsSlot-Differs [] h = absurd h
IsSlot-Differs (c ∷ s) h =
    (slot_byte-Differs c (inl h.0), All-weaken IsSlotByte (Differs b'/') slot_byte-Differs s h.1)

-- The components that the name of a ref has below its namespace.
abbrev pub below : ℕ → Bytes → List Bytes
below number slot = codes "pr" ∷ itoa_bytes number ∷ slot ∷ codes "coverage" ∷ []

split-name_below :
    (ns : Bytes) (number : ℕ) (slot : Bytes)
    → IsSlot slot
    → split_on b'/' (name_below ns number slot) ≡ split_on b'/' ns ++ below number slot
split-name_below ns number slot h =
    let rest = slot ++ codes "/coverage" in
    let digits = All-weaken IsDigit (Differs b'/') digit-Differs _ (itoa-All number) in
    split_on-append b'/' ns (codes "pr/" ++ (itoa_bytes number ++ (b'/' ∷ rest)))
    ∙ ap (λ t. split_on b'/' ns ++ t)
        (split_on-part b'/' (codes "pr") (itoa_bytes number ++ (b'/' ∷ rest)) (refl, (refl, tt))
          ∙ ap (λ t. codes "pr" ∷ t)
              (split_on-part b'/' (itoa_bytes number) rest digits
                ∙ ap (λ t. itoa_bytes number ∷ t)
                    (split_on-part b'/' slot (codes "coverage") (IsSlot-Differs slot h)
                      ∙ ap (λ t. slot ∷ t)
                          (split_on-last b'/' (codes "coverage")
                            (refl, (refl, (refl, (refl, (refl, (refl, (refl, (refl, tt))))))))))))

-- The ref of a slot under a namespace: below `refs`, outside what git keeps there, with the
-- components of the namespace, each of them safe, then those of the slot.
abbrev pub IsOwn : Bytes → ℕ → Bytes → Bytes → Type 0
IsOwn ns number slot name =
    (parts : List Bytes) × (split_on b'/' ns ≡ codes "refs" ∷ parts)
    × IsOutside parts
    × All IsSafePart parts
    × IsSlot slot
    × (number ≢ 0)
    × (split_on b'/' name ≡ codes "refs" ∷ (parts ++ below number slot))

name_of-IsOwn :
    (o : Option NamespaceError) (ns : Bytes) (number : ℕ) (slot name : Bytes)
    → valid_namespace ns ≡ o
    → name_of o ns number slot ≡ ok name
    → IsOwn ns number slot name
unfolding name_of
name_of-IsOwn (some e) ns number slot name v h = cc
name_of-IsOwn none ns number slot name v h =
    let (parts, p, outside, safe) = valid_namespace-Namespace ns v in
    let q : (valid_slot slot ≡ true) × (number ≢ 0) × (name_below ns number slot ≡ name) =
      ground arith in
    let s = valid_slot-IsSlot slot q.0 in
    (
      parts,
      p,
      outside,
      safe,
      s,
      q.1,
      ap (split_on b'/') (sym q.2)
          ∙ split-name_below ns number slot s
          ∙ ap (λ t. t ++ below number slot) p,
    )

-- A ref name that the program makes has the components `refs`, those of the namespace, `pr`, the
-- number, the slot and `coverage`. The one after `refs` is not `heads`, `tags`, `pull` or `remotes`,
-- each of the namespace is a safe component, and the slot is one component of safe characters.
pub ref_name-IsOwn :
    (ns : Bytes) (ref : SlotRef) (name : Bytes)
    → ref_name ns ref ≡ ok name
    → IsOwn ns ref.number (slot_of ref) name
unfolding ref_name
ref_name-IsOwn ns ref name h =
    name_of-IsOwn (valid_namespace ns) ns ref.number (slot_of ref) name refl h
