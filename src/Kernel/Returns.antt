-- ===== src/Kernel/Returns.antt =====
-- Total correctness of a run: it neither faults nor sleeps for ever, and its result has a property.
use rpc_kern.Base.{◌≡◌, refl}
use rpc_kern.Kernel.{World, Run, ok, fault, asleep, M, and_then}

pub data Returns {ℓ} {A : Type ℓ} (P : A → World → Type 0) : Run A → Type ℓ where
  returns : {a : A} {w : World} → P a w → Returns P (ok a w)

module _ {ℓ κ} {A : Type ℓ} {B : Type κ} {P : A → World → Type 0} {Q : B → World → Type 0} where
  -- A run of two parts: the second is shown for every outcome that the first can have.
  pub chain :
      {r : Run A} {f : A → M B}
      → Returns P r
      → ((a : A) (w : World) → P a w → Returns Q (f a w))
      → Returns Q (and_then r f)
  chain (returns p) rest = rest _ _ p

pub weaken {ℓ} :
    {A : Type ℓ} {P Q : A → World → Type 0} {r : Run A}
    → Returns P r
    → ((a : A) (w : World) → P a w → Q a w)
    → Returns Q r
weaken (returns p) f = returns (f _ _ p)

pub and_then_assoc {ℓ κ ι} :
    {A : Type ℓ} {B : Type κ} {C : Type ι} (r : Run A) (f : A → M B) (g : B → M C)
    → and_then (and_then r f) g ≡ and_then r (λ a w. and_then (f a w) g)
and_then_assoc (ok a w) f g = refl
and_then_assoc fault f g = refl
and_then_assoc asleep f g = refl

-- A run whose second part faults for every outcome of the first.
pub chain-fault {ℓ κ} :
    {A : Type ℓ} {B : Type κ} {P : A → World → Type 0} {r : Run A} (f : A → M B)
    → Returns P r
    → ((a : A) (w : World) → P a w → f a w ≡ fault)
    → and_then r f ≡ fault
chain-fault f (returns p) rest = rest _ _ p
