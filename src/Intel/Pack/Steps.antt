-- ===== src/Intel/Pack/Steps.antt =====
-- The caps of one call, which each step of the packing keeps.
use crossrev.Prelude.{
  map, true, suc, leb, ◌!=◌, Bool-cases, inr, ℕ, ◌+◌, ◌<◌, ◌≤◌, ◌⊎◌, Bool, false, List, [], ◌∷◌,
  ◌++◌, ◌≡◌, refl, length, length-append, count_if, arith, inl, All, All-append, ◌==◌, nat_Eq,
  text_Eq,
}
use crossrev.Intel.Plan.{split_and_verify, FileUnit, FilePart, Call, files, part, unit_blocks}
use crossrev.Intel.Plan.Parts.{AreNumbered-bounds, split_and_verify-Covers}
use crossrev.Intel.Pack.{
  admit, make_room, pack_oversized, pack_alone, pack_candidate, pack_unit, Packing, Packed,
  add_calls, open_call, flush, fits, has_blocks,
}
use crossrev.Intel.Pack.Collected.{
  whole_files-parts, split_parts-parts, count_if-append, whole_files, split_parts,
  whole_files-append, split_parts-append, whole_files-open_call, split_parts-open_call,
}

abbrev pub IsUnsplittable : Packing → List FileUnit → Type 0
IsUnsplittable k us =
    (u : FileUnit) × (us ≡ u ∷ []) × (has_blocks (unit_blocks u) ≡ false) × (fits k us ≡ false)

-- A whole-file call within both caps, or one file too large for a call and with no line to split.
abbrev pub KeepsCaps : Packing → Call → Type 0
KeepsCaps k (files us) =
    (length us ≤ k.max_files) × ((k.measure (files us) ≤ k.call_budget) ⊎ IsUnsplittable k us)
KeepsCaps k (part p) = (p.index < p.count)

abbrev pub is_first : FilePart → Bool
is_first p = p.index == 0

-- How many units the calls took in: the whole files, and the first parts.
abbrev pub taken_in : List Call → ℕ
taken_in cs = length (whole_files cs) + count_if is_first (split_parts cs)

pub record Bounded (k : Packing) (s : Packed) : Type 0 where
  pub calls : All (KeepsCaps k) s.plan.calls
  pub open_files : length s.current ≤ k.max_files
  pub open_size : (length s.current ≡ 0) ⊎ (k.measure (files s.current) ≤ k.call_budget)
  pub taken : taken_in s.plan.calls + length s.current ≤ s.admitted

taken_in-append : (cs ds : List Call) → taken_in (cs ++ ds) ≡ taken_in cs + taken_in ds
taken_in-append cs ds =
    rw (whole_files-append cs ds, split_parts-append cs ds)
      (omega (
        arith,
        length-append (whole_files cs) (whole_files ds),
        count_if-append is_first (split_parts cs) (split_parts ds),
      ))

split_bounds :
    (k : Packing) (u : FileUnit)
    → let ps = split_and_verify u k.call_budget k.shared_bytes k.measure in
      All (λ p. p.index < p.count) ps × (count_if is_first ps ≤ 1)
split_bounds k u =
    let (contents, d, b, n) = split_and_verify-Covers u k.call_budget k.shared_bytes k.measure in
    AreNumbered-bounds _ _ n

open_call-KeepsCaps :
    (k : Packing) (us : List FileUnit)
    → length us ≤ k.max_files
    → (length us ≡ 0) ⊎ (k.measure (files us) ≤ k.call_budget)
    → All (KeepsCaps k) (open_call us)
open_call-KeepsCaps k [] n m = tt
open_call-KeepsCaps k (u ∷ us) n m = ((n, ground (arith, m)), tt)

pub flush-Bounded : (k : Packing) (s : Packed) → Bounded k s → Bounded k (flush s)
unfolding flush add_calls
flush-Bounded k s b = record {
  calls =
      All-append (KeepsCaps k) s.plan.calls (open_call s.current) b.calls
        (open_call-KeepsCaps k s.current b.open_files b.open_size);
  open_files = omega arith;
  open_size = inl refl;
  taken =
      rw
        (
          taken_in-append s.plan.calls (open_call s.current),
          whole_files-open_call,
          split_parts-open_call,
        )
        (omega (arith, b.taken));
}

map_part-KeepsCaps :
    (k : Packing) (ps : List FilePart)
    → All (λ p. p.index < p.count) ps
    → All (KeepsCaps k) (map part ps)
map_part-KeepsCaps k [] h = tt
map_part-KeepsCaps k (p ∷ ps) h = (h.0, map_part-KeepsCaps k ps h.1)

admit-Bounded :
    (k : Packing) (s : Packed) (us : List FileUnit)
    → Bounded k s
    → length us ≤ k.max_files
    → fits k us ≡ true
    → length us ≤ suc (length s.current)
    → Bounded k (admit s us)
unfolding fits
admit-Bounded k s us b n f le = record {
  calls = b.calls;
  open_files = n;
  open_size = inr (ground (arith, f));
  taken = omega (arith, b.taken, le);
}

pack_oversized-Bounded :
    (k : Packing) (s : Packed) (u : FileUnit)
    → Bounded k s
    → 1 ≤ k.max_files
    → fits k (u ∷ []) ≡ false
    → Bounded k (pack_oversized k s u)
unfolding pack_oversized add_calls
pack_oversized-Bounded k s u b n f = elim (Bool-cases (u.generated != "")) [
  | inl g ↦ rw g (record {
    calls = b.calls;
    open_files = b.open_files;
    open_size = b.open_size;
    taken = b.taken;
  })
  | inr g ↦ rw g (elim (Bool-cases (has_blocks (unit_blocks u))) [
    | inl h ↦ rw h (record {
      calls = All-append (KeepsCaps k) s.plan.calls _ b.calls (
          map_part-KeepsCaps k (split_and_verify u k.call_budget k.shared_bytes k.measure)
            (split_bounds k u).0);
      open_files = b.open_files;
      open_size = b.open_size;
      taken =
          rw (taken_in-append s.plan.calls _, whole_files-parts, split_parts-parts)
            (omega (arith, b.taken, (split_bounds k u).1));
    })
    | inr h ↦ rw h (record {
      calls = All-append (KeepsCaps k) s.plan.calls _ b.calls ((n, inr (u, refl, h, f)), tt);
      open_files = b.open_files;
      open_size = b.open_size;
      taken = rw (taken_in-append s.plan.calls _) (omega (arith, b.taken));
    })
  ])
]

no_open :
    (k : Packing) (us : List FileUnit) (u : FileUnit)
    → (length us == 0) ≡ true
    → fits k (us ++ u ∷ []) ≡ false
    → fits k (u ∷ []) ≡ false
no_open k [] u e f = f
no_open k (v ∷ us) u e f = ground (arith, e)

pack_alone-Bounded :
    (k : Packing) (s : Packed) (u : FileUnit)
    → Bounded k s
    → 1 ≤ k.max_files
    → fits k (s.current ++ u ∷ []) ≡ false
    → Bounded k (pack_alone k s u)
unfolding pack_alone
pack_alone-Bounded k s u b n f = elim (Bool-cases (length s.current == 0)) [
  | inl e ↦ rw e (pack_oversized-Bounded k s u b n (no_open k s.current u e f))
  | inr e ↦ rw e (elim (Bool-cases (fits k (u ∷ []))) [
    | inl g ↦
        rw g (
          admit-Bounded k (flush s) (u ∷ []) (flush-Bounded k s b) n g
            (unfold flush in omega arith))
    | inr g ↦ rw g (pack_oversized-Bounded k (flush s) u (flush-Bounded k s b) n g)
  ])
]

pack_candidate-Bounded :
    (k : Packing) (s : Packed) (u : FileUnit)
    → Bounded k s
    → length s.current < k.max_files
    → Bounded k (pack_candidate k s u)
unfolding pack_candidate
pack_candidate-Bounded k s u b n = elim (Bool-cases (fits k (s.current ++ u ∷ []))) [
  | inl f ↦ rw f (
      admit-Bounded k s (s.current ++ u ∷ []) b (omega (arith, n, length-append s.current (u ∷ [])))
        f (omega (arith, length-append s.current (u ∷ []))))
  | inr f ↦ rw f (pack_alone-Bounded k s u b (omega (arith, n)) f)
]

pub pack_unit-Bounded :
    (k : Packing) (s : Packed) (u : FileUnit)
    → Bounded k s
    → 1 ≤ k.max_files
    → Bounded k (pack_unit k s u)
unfolding pack_unit make_room flush
pack_unit-Bounded k s u b n = elim (Bool-cases (leb k.max_files (length s.current))) [
  | inl f ↦ rw f (pack_candidate-Bounded k (flush s) u (flush-Bounded k s b) (omega (arith, n)))
  | inr f ↦ rw f (pack_candidate-Bounded k s u b (ground (arith, f)))
]
