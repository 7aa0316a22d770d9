-- ===== src/State/Opt.antt =====
-- internal/prstate/opt.go: a field that is absent, present and null, or present and set.
use crossrev.Prelude.{Bool, true, false, Option, none, some}

pub data Opt {ℓ} (A : Type ℓ) : Type ℓ where
  absent null : Opt A
  set : A → Opt A

-- `Value`, with the type's zero value.
abbrev pub value {ℓ} : {A : Type ℓ} → A → Opt A → A
value zero_value (set a) = a
value zero_value absent = zero_value
value zero_value null = zero_value

-- `Get`.
abbrev pub get {ℓ} : {A : Type ℓ} → Opt A → Option A
get (set a) = some a
get absent = none
get null = none

-- `Present`.
abbrev pub present {ℓ} : {A : Type ℓ} → Opt A → Bool
present absent = false
present null = true
present (set a) = true

-- The second result of `Get`.
abbrev pub has_value {ℓ} : {A : Type ℓ} → Opt A → Bool
has_value (set a) = true
has_value absent = false
has_value null = false
