-- ===== src/Base/Checked.antt =====
-- Code that may read outside a buffer, which C leaves undefined, with loops on fuel.
use mathlib.Core.Path.{◌≡◌, refl}
use mathlib.Core.Option.{Option, none, some}

pub data Checked {ℓ} (A : Type ℓ) : Type ℓ where
  ok : A → Checked A
  out_of_bounds out_of_fuel : Checked A

-- What follows a computation that may not have returned.
infixl 5 ◌>>=◌
abbrev pub ◌>>=◌ {κ ℓ} : {X : Type κ} {Y : Type ℓ} → Checked X → (X → Checked Y) → Checked Y
out_of_bounds >>= k = out_of_bounds
out_of_fuel >>= k = out_of_fuel
ok x >>= k = k x

-- The result of a loop on fuel.
abbrev pub fueled {ℓ} : {A : Type ℓ} → Option A → Checked A
fueled none = out_of_fuel
fueled (some a) = ok a

-- Inversion of a chain that succeeds.
pub >>=-eq-ok {κ ℓ} :
    {X : Type κ} {Y : Type ℓ} (first : Checked X) (next : X → Checked Y) {y : Y}
    → (first >>= next) ≡ ok y
    → (x : X) × (first ≡ ok x) × (next x ≡ ok y)
>>=-eq-ok out_of_bounds next e = cc
>>=-eq-ok out_of_fuel next e = cc
>>=-eq-ok (ok x) next e = (x, refl, e)

pub ok-injective {ℓ} : {A : Type ℓ} {a b : A} → ok a ≡ ok b → a ≡ b
ok-injective h = cc
