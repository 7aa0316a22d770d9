-- ===== src/Intel/Pack/Taking.antt =====
-- What each step of the packing takes in, and where it puts it.
use mathlib.Core.List.{append_assoc, append-nil}
use crossrev.Prelude.{
  ℕ, ◌+◌, Bool, not, List, [], ◌∷◌, ◌++◌, map, ◌≡◌, refl, sym, ◌∙◌, ap, ◌!=◌, ◌==◌, nat_Eq, text_Eq,
  leb, length, count_if, arith, Bool-cases, inl, inr,
}
use crossrev.Intel.Plan.{
  FileUnit, FilePart, Call, files, part, BatchPlan, unit_blocks, split_and_verify,
}
use crossrev.Intel.Pack.Collected.{
  whole_files, split_parts, count_if-append, whole_files-append, split_parts-append,
  whole_files-parts, split_parts-parts, whole_files-open_call, split_parts-open_call,
}
use crossrev.Intel.Pack.{
  Packing, Packed, add_calls, open_call, flush, fits, has_blocks, pack_oversized, admit, pack_alone,
  make_room, pack_candidate, pack_unit, carry, pack_units,
}

abbrev pub parts_of : Packing → List FileUnit → List FilePart
parts_of k [] = []
parts_of k (u ∷ us) = split_and_verify u k.call_budget k.shared_bytes k.measure ++ parts_of k us

parts_of-append :
    (k : Packing) (us vs : List FileUnit) → parts_of k (us ++ vs) ≡ parts_of k us ++ parts_of k vs
parts_of-append k [] vs = refl
parts_of-append k (u ∷ us) vs = simp (parts_of-append k us vs, append_assoc)

-- How many files of a kind the plan has placed in whole-file calls, skipped or carried.
abbrev pub placed : (FileUnit → Bool) → BatchPlan → ℕ
placed q plan =
    count_if q (whole_files plan.calls) + count_if q plan.skipped + count_if q plan.carried

-- From `s` to `t` the packing took in `taken`, of which the files of `split` went into parts.
pub record Takes (k : Packing) (s t : Packed) (taken split : List FileUnit) : Type 0 where
  pub parts : split_parts t.plan.calls ≡ split_parts s.plan.calls ++ parts_of k split
  pub counts :
      (q : FileUnit → Bool)
      → placed q t.plan + count_if q t.current + count_if q split
        ≡ placed q s.plan + count_if q s.current + count_if q taken

Takes-trans :
    {k : Packing} {s t u : Packed} {xs ys vs ws : List FileUnit}
    → Takes k s t xs vs
    → Takes k t u ys ws
    → Takes k s u (xs ++ ys) (vs ++ ws)
Takes-trans {k} {s} {t} {u} {xs} {ys} {vs} {ws} a b = record {
  parts = b.parts ∙ ap (λ r. r ++ parts_of k ws) a.parts ∙ simp (append_assoc, parts_of-append);
  counts =
      λ q. omega (arith, a.counts q, b.counts q, count_if-append q xs ys, count_if-append q vs ws);
}

placed-add_calls :
    (q : FileUnit → Bool) (plan : BatchPlan) (cs : List Call)
    → placed q (add_calls plan cs) ≡ placed q plan + count_if q (whole_files cs)
unfolding add_calls
placed-add_calls q plan cs =
    rw whole_files-append
      (omega (arith, count_if-append q (whole_files plan.calls) (whole_files cs)))

parts-add_calls :
    (plan : BatchPlan) (cs : List Call)
    → split_parts (add_calls plan cs).calls ≡ split_parts plan.calls ++ split_parts cs
unfolding add_calls
parts-add_calls plan cs = split_parts-append plan.calls cs

nothing : (k : Packing) (s : Packed) → Takes k s s [] []
nothing k s = record { parts = sym (append-nil _); counts = λ q. refl }

flush-Takes : (k : Packing) (s : Packed) → Takes k s (flush s) [] []
unfolding flush
flush-Takes k s = record {
  parts =
      parts-add_calls s.plan (open_call s.current)
      ∙ ap (λ r. split_parts s.plan.calls ++ r) (split_parts-open_call s.current);
  counts = λ q.
      rw (placed-add_calls q s.plan (open_call s.current), whole_files-open_call) (omega arith);
}

admit-Takes :
    (k : Packing) (s : Packed) (u : FileUnit)
    → Takes k s (admit s (s.current ++ u ∷ [])) (u ∷ []) []
admit-Takes k s u = record {
  parts = sym (append-nil _);
  counts = λ q. omega (arith, count_if-append q s.current (u ∷ []));
}

-- A step that takes in one file, and says whether the file went into parts.
abbrev Steps : Packing → Packed → Packed → FileUnit → Type 0
Steps k s t u = (split : List FileUnit) × Takes k s t (u ∷ []) split

pack_oversized-Steps :
    (k : Packing) (s : Packed) (u : FileUnit) → Steps k s (pack_oversized k s u) u
unfolding pack_oversized
pack_oversized-Steps k s u = elim (Bool-cases (u.generated != "")) [
  | inl g ↦ rw g (
    [],
    record {
      parts = sym (append-nil _);
      counts = λ q. omega (arith, count_if-append q s.plan.skipped (u ∷ []));
    },
  )
  | inr g ↦ rw g (elim (Bool-cases (not (has_blocks (unit_blocks u)))) [
    | inl b ↦ rw b (
      [],
      record {
        parts = parts-add_calls s.plan (files (u ∷ []) ∷ []);
        counts = λ q. omega (arith, placed-add_calls q s.plan (files (u ∷ []) ∷ []));
      },
    )
    | inr b ↦ rw b (
      u ∷ [],
      record {
        parts =
            parts-add_calls s.plan
              (map part (split_and_verify u k.call_budget k.shared_bytes k.measure))
            ∙ ap (λ r. split_parts s.plan.calls ++ r) (split_parts-parts _ ∙ sym (append-nil _));
        counts = λ q. rw (placed-add_calls q s.plan _, whole_files-parts) (omega arith);
      },
    )
  ])
]

after_flush : (k : Packing) (s t : Packed) (u : FileUnit) → Steps k (flush s) t u → Steps k s t u
after_flush k s t u (split, h) = (split, Takes-trans (flush-Takes k s) h)

pack_alone-Steps : (k : Packing) (s : Packed) (u : FileUnit) → Steps k s (pack_alone k s u) u
unfolding pack_alone
pack_alone-Steps k s u = elim (Bool-cases (length s.current == 0)) [
  | inl e ↦ rw e (pack_oversized-Steps k s u)
  | inr e ↦ rw e (elim (Bool-cases (fits k (u ∷ []))) [
    | inl f ↦ rw f (
        after_flush k s (admit (flush s) (u ∷ [])) u
          ([], unfold flush in admit-Takes k (flush s) u))
    | inr f ↦
        rw f (after_flush k s (pack_oversized k (flush s) u) u (pack_oversized-Steps k (flush s) u))
  ])
]

pack_candidate-Steps :
    (k : Packing) (s : Packed) (u : FileUnit) → Steps k s (pack_candidate k s u) u
unfolding pack_candidate
pack_candidate-Steps k s u = elim (Bool-cases (fits k (s.current ++ u ∷ []))) [
  | inl f ↦ rw f ([], admit-Takes k s u)
  | inr f ↦ rw f (pack_alone-Steps k s u)
]

pack_unit-Steps : (k : Packing) (s : Packed) (u : FileUnit) → Steps k s (pack_unit k s u) u
unfolding pack_unit make_room
pack_unit-Steps k s u = elim (Bool-cases (leb k.max_files (length s.current))) [
  | inl f ↦
      rw f (after_flush k s (pack_candidate k (flush s) u) u (pack_candidate-Steps k (flush s) u))
  | inr f ↦ rw f (pack_candidate-Steps k s u)
]

carry-Takes : (k : Packing) (s : Packed) (us : List FileUnit) → Takes k s (carry s us) us []
unfolding carry
carry-Takes k s us = record {
  parts = sym (append-nil _);
  counts = λ q. omega (arith, count_if-append q s.plan.carried us);
}

abbrev pub ended : BatchPlan → Packed
ended plan = record { plan = plan; current = []; admitted = 0 }

flush-ended :
    {k : Packing} {s t : Packed} {xs vs : List FileUnit}
    → Takes k s t xs vs
    → Takes k s (ended (flush t).plan) xs vs
unfolding flush
flush-ended {k} {s} {t} {xs} {vs} h = record {
  parts = (flush-Takes k t).parts ∙ append-nil _ ∙ h.parts;
  counts = λ q. omega (arith, (flush-Takes k t).counts q, h.counts q);
}

pub pack_units-Takes :
    (k : Packing) (s : Packed) (us : List FileUnit)
    → (split : List FileUnit) × Takes k s (ended (pack_units k s us)) us split
unfolding pack_units
pack_units-Takes k s [] = ([], flush-ended (nothing k s))
pack_units-Takes k s (u ∷ us) = elim (Bool-cases (s.admitted == k.max_units)) [
  | inl e ↦ rw e ([], flush-ended (carry-Takes k s (u ∷ us)))
  | inr e ↦ rw e (
      let (x, h) = pack_unit-Steps k s u in
      let (y, j) = pack_units-Takes k (pack_unit k s u) us in (x ++ y, Takes-trans h j))
]
