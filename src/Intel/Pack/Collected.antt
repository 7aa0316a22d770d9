-- ===== src/Intel/Pack/Collected.antt =====
-- What the calls of a plan hold: the files in whole, and the parts.
use mathlib.Core.List.{append_assoc, append-nil}
use crossrev.Prelude.{◌+◌, Bool, List, [], ◌∷◌, ◌++◌, map, ◌≡◌, refl, ap, count_if, arith}
use crossrev.Intel.Plan.{FileUnit, FilePart, Call, files, part}
use crossrev.Intel.Pack.{open_call}

-- The files of the whole-file calls, in order.
abbrev pub whole_files : List Call → List FileUnit
whole_files [] = []
whole_files (files us ∷ cs) = us ++ whole_files cs
whole_files (part p ∷ cs) = whole_files cs

-- The parts of the split files, in order.
abbrev pub split_parts : List Call → List FilePart
split_parts [] = []
split_parts (files us ∷ cs) = split_parts cs
split_parts (part p ∷ cs) = p ∷ split_parts cs

pub count_if-append {ℓ} :
    {A : Type ℓ} (q : A → Bool) (us vs : List A)
    → count_if q (us ++ vs) ≡ count_if q us + count_if q vs
count_if-append q [] vs = omega arith
count_if-append q (u ∷ us) vs = ground (arith, count_if-append q us vs)

pub whole_files-append :
    (cs ds : List Call) → whole_files (cs ++ ds) ≡ whole_files cs ++ whole_files ds
whole_files-append [] ds = refl
whole_files-append (files us ∷ cs) ds = simp (whole_files-append cs ds, append_assoc)
whole_files-append (part p ∷ cs) ds = whole_files-append cs ds

pub split_parts-append :
    (cs ds : List Call) → split_parts (cs ++ ds) ≡ split_parts cs ++ split_parts ds
split_parts-append [] ds = refl
split_parts-append (files us ∷ cs) ds = split_parts-append cs ds
split_parts-append (part p ∷ cs) ds = ap (λ r. p ∷ r) (split_parts-append cs ds)

pub whole_files-parts : (ps : List FilePart) → whole_files (map part ps) ≡ []
whole_files-parts [] = refl
whole_files-parts (p ∷ ps) = whole_files-parts ps

pub split_parts-parts : (ps : List FilePart) → split_parts (map part ps) ≡ ps
split_parts-parts [] = refl
split_parts-parts (p ∷ ps) = ap (λ r. p ∷ r) (split_parts-parts ps)

pub whole_files-open_call : (us : List FileUnit) → whole_files (open_call us) ≡ us
whole_files-open_call [] = refl
whole_files-open_call (u ∷ us) = append-nil (u ∷ us)

pub split_parts-open_call : (us : List FileUnit) → split_parts (open_call us) ≡ []
split_parts-open_call [] = refl
split_parts-open_call (u ∷ us) = refl
