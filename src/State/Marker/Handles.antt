-- ===== src/State/Marker/Handles.antt =====
-- The coverage handle on a marker.
use crossrev.Prelude.{
  String, inl, inr, none, [], ◌∷◌, ◌≡◌, refl, ◌!=◌, text_Eq, nat_Eq, ◌∙◌, ap, Bool-cases,
  if◌then◌else◌, eq_iff, arith,
}
use crossrev.Prelude.Bytes.{Bytes}
use crossrev.State.Opt.{Opt, absent, null, set, value}
use crossrev.State.Marker.{
  Marker, Handle, claimed, rotate, payload_of, judge, handle_error, named_handle, coverage_handle,
  record_coverage,
}

-- A payload as a store returns it: none, or some bytes.
abbrev pub IsPayload : Opt Bytes → Type 0
IsPayload absent = Unit
IsPayload null = ⊥
IsPayload (set []) = ⊥
IsPayload (set (c ∷ bytes)) = Unit

commit_kept : (c : String) → value "" (if c != "" then set c else absent) ≡ c
commit_kept c = elim (Bool-cases (c != "")) [
  | inl p ↦ rw p refl
  | inr p ↦ rw p (ground (arith, p, eq_iff c ""))
]

payload_kept : (old : Bytes) (p : Opt Bytes) → IsPayload p → payload_of (rotate old p).0 ≡ p
payload_kept old absent q = refl
payload_kept old (set (c ∷ bytes)) q = refl
payload_kept old (set []) q = absurd q
payload_kept old null q = absurd q

named_handle-record_coverage :
    (h : Handle) (m : Marker) → IsPayload h.payload → named_handle (record_coverage h m) ≡ h
unfolding record_coverage
named_handle-record_coverage h m p =
    rw (commit_kept h.commit, payload_kept m.coverage_payload h.payload p) refl

judge_by : (h k : Handle) → h ≡ k → handle_error k ≡ none → judge h (handle_error h) ≡ claimed k
judge_by h k e v = ap (λ x. judge x (handle_error x)) e ∙ ap (judge k) v

-- A valid handle with a payload that is not empty, or with none, is read back from the marker that
-- it is recorded on, whatever the marker said before.
pub coverage_handle-record_coverage :
    (h : Handle) (m : Marker)
    → handle_error h ≡ none
    → IsPayload h.payload
    → coverage_handle (record_coverage h m) ≡ claimed h
unfolding coverage_handle record_coverage
coverage_handle-record_coverage h m v p =
    judge_by (named_handle (record_coverage h m)) h (named_handle-record_coverage h m p) v
