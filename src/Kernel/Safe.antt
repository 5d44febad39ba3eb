-- ===== src/Kernel/Safe.antt =====
-- Partial correctness of a run that may sleep for ever: it does not fault, and if it returns, its
-- result has a property.
use rpc_kern.Base.{◌≡◌, refl}
use rpc_kern.Kernel.{World, Run, ok, fault, asleep, M, and_then}
use rpc_kern.Kernel.Returns.{Returns, returns}

pub data Safe {ℓ} {A : Type ℓ} (P : A → World → Type 0) : Run A → Type ℓ where
  stops : {a : A} {w : World} → P a w → Safe P (ok a w)
  sleeps : Safe P asleep

module _ {ℓ κ} {A : Type ℓ} {B : Type κ} {P : A → World → Type 0} {Q : B → World → Type 0} where
  -- A run of two parts: the second is shown for every outcome that the first can have.
  pub chain-Safe :
      {r : Run A} {f : A → M B}
      → Safe P r
      → ((a : A) (w : World) → P a w → Safe Q (f a w))
      → Safe Q (and_then r f)
  chain-Safe (stops p) rest = rest _ _ p
  chain-Safe sleeps rest = sleeps

  -- The first part returns.
  pub after-Safe :
      {r : Run A} {f : A → M B}
      → Returns P r
      → ((a : A) (w : World) → P a w → Safe Q (f a w))
      → Safe Q (and_then r f)
  after-Safe (returns p) rest = rest _ _ p

pub Returns-Safe {ℓ} : {A : Type ℓ} {P : A → World → Type 0} {r : Run A} → Returns P r → Safe P r
Returns-Safe (returns p) = stops p

pub weaken-Safe {ℓ} :
    {A : Type ℓ} {P Q : A → World → Type 0} {r : Run A}
    → Safe P r
    → ((a : A) (w : World) → P a w → Q a w)
    → Safe Q r
weaken-Safe (stops p) f = stops (f _ _ p)
weaken-Safe sleeps f = sleeps

-- If a run returns, its result has a property.
pub data Post {ℓ} {A : Type ℓ} (P : A → World → Type 0) : Run A → Type ℓ where
  gives : {a : A} {w : World} → P a w → Post P (ok a w)
  faults : Post P fault
  hangs : Post P asleep

module _ {ℓ κ} {A : Type ℓ} {B : Type κ} {P : A → World → Type 0} {Q : B → World → Type 0} where
  pub chain-Post :
      {r : Run A} {f : A → M B}
      → Post P r
      → ((a : A) (w : World) → P a w → Post Q (f a w))
      → Post Q (and_then r f)
  chain-Post (gives p) rest = rest _ _ p
  chain-Post faults rest = faults
  chain-Post hangs rest = hangs

-- Two continuations that agree wherever the first part can return.
pub and_then-agree {ℓ κ} :
    {A : Type ℓ} {B : Type κ} {P : A → World → Type 0} {r : Run A} (f g : A → M B)
    → Post P r
    → ((a : A) (w : World) → P a w → f a w ≡ g a w)
    → and_then r f ≡ and_then r g
and_then-agree f g (gives p) same = same _ _ p
and_then-agree f g faults same = refl
and_then-agree f g hangs same = refl

pub trivially {ℓ} : {A : Type ℓ} (r : Run A) → Post (λ _ _. Unit {0}) r
trivially (ok a w) = gives tt
trivially fault = faults
trivially asleep = hangs

pub weaken-Post {ℓ} :
    {A : Type ℓ} {P Q : A → World → Type 0} {r : Run A}
    → Post P r
    → ((a : A) (w : World) → P a w → Q a w)
    → Post Q r
weaken-Post (gives p) f = gives (f _ _ p)
weaken-Post faults f = faults
weaken-Post hangs f = hangs
