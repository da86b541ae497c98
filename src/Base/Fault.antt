-- ===== src/Base/Fault.antt =====
-- `none` is a fault: undefined behaviour or an abort, such as a write outside an array.
-- status_t is the outcome that the code reports to its callers.
use mathlib.Core.Path.{◌≡◌, refl, ap, ◌∙◌}
use mathlib.Core.Option.{Option, none, some}
use mathlib.Core.Bool.{Bool, true, false}

infixl 5 ◌>>=◌ ◌>>◌
abbrev pub ◌>>=◌ {ℓ κ} : {A : Type ℓ} {B : Type κ} → Option A → (A → Option B) → Option B
some a >>= f = f a
none >>= f = none

abbrev pub ◌>>◌ {ℓ} : {B : Type ℓ} → Option (Unit {0}) → Option B → Option B
m >> k = m >>= λ _. k

-- A bind without a fault has no fault in its parts.
pub bind-some {ℓ κ} :
    {A : Type ℓ} {B : Type κ} (m : Option A) (f : A → Option B) {b : B}
    → (m >>= f) ≡ some b
    → (a : A) × (m ≡ some a) × (f a ≡ some b)
bind-some (some a) f e = (a, refl, e)
bind-some none f e = cc

-- A bind whose first part is known.
pub bind-eq {ℓ κ} :
    {A : Type ℓ} {B : Type κ} (m : Option A) (f : A → Option B) {a : A} {o : Option B}
    → m ≡ some a
    → f a ≡ o
    → (m >>= f) ≡ o
bind-eq m f e h = ap (λ x. x >>= f) e ∙ h

pub some_inj {ℓ} : {A : Type ℓ} {a b : A} → some a ≡ some b → a ≡ b
some_inj e = cc

-- Undefined behaviour unless the test holds.
abbrev pub require : Bool → Option (Unit {0})
require true = some tt
require false = none

-- status_t, as far as the code uses it: OK and INVALID_OPERATION.
pub data Status : Type 0 where
  ok invalid_operation : Status

abbrev pub is_ok : Status → Bool
is_ok ok = true
is_ok invalid_operation = false
