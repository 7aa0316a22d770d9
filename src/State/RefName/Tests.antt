-- ===== src/State/RefName/Tests.antt =====
-- A slot's ref under the usual namespace (internal/prstate/refname.go).
use crossrev.Prelude.{◌≡◌, refl, true, none, some, ok, err}
use crossrev.Prelude.Bytes.{codes}
use crossrev.Prelude.Scan.{split_on}
use crossrev.State.Ledger.{SlotRef}
use crossrev.State.RefName.{
  valid_namespace, valid_slot, slot_of, ref_name, reserved, lock_suffix, forbidden_character,
}
use crossrev.State.RefName.Own.{IsOwn, ref_name-IsOwn}

abbrev first_slot : SlotRef
first_slot = record { repo = record { owner = "o"; name = "r" }; number = 7; slot = "" }

first_slot-named :
    ref_name (codes "refs/x") first_slot ≡ ok (codes "refs/x/pr/7/reviewer1/coverage")
unfolding ref_name split_on crossrev.Prelude.Bytes.itoa_bytes
first_slot-named = refl

ref_name-IsOwn_example :
    IsOwn (codes "refs/x") 7 (slot_of first_slot) (codes "refs/x/pr/7/reviewer1/coverage")
ref_name-IsOwn_example =
    ref_name-IsOwn (codes "refs/x") first_slot (codes "refs/x/pr/7/reviewer1/coverage")
      first_slot-named

branches-refused : valid_namespace (codes "refs/heads/x") ≡ some reserved
unfolding valid_namespace split_on
branches-refused = refl

lock-refused : valid_namespace (codes "refs/a.lock") ≡ some lock_suffix
unfolding valid_namespace split_on
lock-refused = refl

bracket-refused : valid_namespace (codes "refs/a]") ≡ some forbidden_character
unfolding valid_namespace split_on
bracket-refused = refl

-- Neither stands in a ref of git.
two_dots-taken : valid_slot (codes "a..b") ≡ true
unfolding valid_slot
two_dots-taken = refl

lock-taken : valid_slot (codes "a.lock") ≡ true
unfolding valid_slot
lock-taken = refl
