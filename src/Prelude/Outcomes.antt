-- ===== src/Prelude/Outcomes.antt =====
-- How a run of the code ends: with a value, by a panic, in undefined behaviour (a read of memory that
-- was never written), or, in the model only, short of fuel. Rust's `Result`.
use mathlib.Core.Path.{◌≡◌, refl, subst}
use mathlib.Core.Bool.{Bool, true, false}
use local_sync.Prelude.Tests.{if◌then◌else◌}
use mathlib.Core.Option.{Option, none, some}

pub data Outcome {ℓ} (A : Type ℓ) : Type ℓ where
  done : A → Outcome A
  panic : Outcome A
  fault : Outcome A
  out_of_fuel : Outcome A

infixl 5 ◌>>=◌ ◌>>◌
abbrev pub ◌>>=◌ {ℓ κ} : {A : Type ℓ} {B : Type κ} → Outcome A → (A → Outcome B) → Outcome B
done a >>= f = f a
panic >>= f = panic
fault >>= f = fault
out_of_fuel >>= f = out_of_fuel

abbrev pub ◌>>◌ {ℓ} : {B : Type ℓ} → Outcome (Unit {0}) → Outcome B → Outcome B
m >> k = m >>= λ _. k

-- `assert!(b)`
abbrev pub assert : Bool → Outcome (Unit {0})
assert true = done tt
assert false = panic

-- a read through `MaybeUninit`, or `unwrap_unchecked`
abbrev pub assume_init {ℓ} : {A : Type ℓ} → Option A → Outcome A
assume_init none = fault
assume_init (some a) = done a

-- `unwrap` and `expect`
abbrev pub unwrap {ℓ} : {A : Type ℓ} → Option A → Outcome A
unwrap none = panic
unwrap (some a) = done a

pub data Result {ℓ κ} (E : Type ℓ) (A : Type κ) : Type (ℓ ⊔ κ) where
  ok : A → Result E A
  err : E → Result E A

-- Total correctness of a run: it ends with a value, and the value satisfies `P`.
pub data Returns {ℓ κ} {A : Type ℓ} (P : A → Type κ) : Outcome A → Type (ℓ ⊔ κ) where
  returns : {a : A} → P a → Returns P (done a)

module _ {ℓ κ μ} {A : Type ℓ} {P : A → Type κ} where
  pub Returns-bind {ν} :
      {B : Type ν} {Q : B → Type μ} {m : Outcome A} {f : A → Outcome B}
      → Returns P m
      → ((a : A) → P a → Returns Q (f a))
      → Returns Q (m >>= f)
  Returns-bind (returns p) next = next _ p

  -- Through one more bind
  pub Returns-through {ν ξ} :
      {B : Type ν} {C : Type ξ} {Q : C → Type μ} {m : Outcome A} (f : A → Outcome B)
      (g : B → Outcome C)
      → Returns P m
      → ((a : A) → P a → Returns Q (f a >>= g))
      → Returns Q ((m >>= f) >>= g)
  Returns-through f g (returns p) next = next _ p

  pub Returns-mono :
      {Q : A → Type μ} {m : Outcome A} → Returns P m → ((a : A) → P a → Q a) → Returns Q m
  Returns-mono (returns p) weaken = returns (weaken _ p)

module _ {ℓ κ} {A : Type ℓ} {P : A → Type κ} where
  pub Returns-assert :
      {m : Outcome A} (b : Bool) → b ≡ true → Returns P m → Returns P (assert b >> m)
  Returns-assert true e r = r
  Returns-assert false e r = cc

  pub Returns-if :
      {m k : Outcome A} (b : Bool)
      → (b ≡ true → Returns P m)
      → (b ≡ false → Returns P k)
      → Returns P (if b then m else k)
  Returns-if true left right = left refl
  Returns-if false left right = right refl

-- The value of a run that returns
pub Returns-value {ℓ κ} :
    {A : Type ℓ} {P : A → Type κ} {m : Outcome A} {a : A} → Returns P m → m ≡ done a → P a
Returns-value {A} {P} (returns {a = x} p) e = subst P (value_eq e) p
  where
    value_eq : {x y : A} → done x ≡ done y → x ≡ y
    value_eq e = cc

-- A run that returns, with its value
pub Returns-done {ℓ κ} :
    {A : Type ℓ} {P : A → Type κ} {m : Outcome A} → Returns P m → (a : A) × (m ≡ done a) × P a
Returns-done (returns {a} p) = (a, refl, p)

-- Two things that hold of one run
pub Returns-both {ℓ κ μ} :
    {A : Type ℓ} {P : A → Type κ} {Q : A → Type μ} {m : Outcome A}
    → Returns P m
    → Returns Q m
    → Returns (λ a. P a × Q a) m
Returns-both (returns p) r = returns (p, Returns-value r refl)

-- Partial correctness: the value satisfies `P` if there is one.
pub data Ensures {ℓ κ} {A : Type ℓ} (P : A → Type κ) : Outcome A → Type (ℓ ⊔ κ) where
  yields : {a : A} → P a → Ensures P (done a)
  panics : Ensures P panic
  faults : Ensures P fault
  stops : Ensures P out_of_fuel

module _ {ℓ κ μ ν} {A : Type ℓ} {P : A → Type κ} {B : Type μ} {Q : B → Type ν} where
  pub Ensures-bind :
      {m : Outcome A} {f : A → Outcome B}
      → Ensures P m
      → ((a : A) → P a → Ensures Q (f a))
      → Ensures Q (m >>= f)
  Ensures-bind (yields p) next = next _ p
  Ensures-bind panics next = panics
  Ensures-bind faults next = faults
  Ensures-bind stops next = stops

-- A run that returns, with what it ensures
module _ {ℓ κ ν} {A : Type ℓ} {P : A → Type κ} {Q : A → Type ν} where
  pub Returns-Ensures : {m : Outcome A} → Returns P m → Ensures Q m → Returns (λ a. P a × Q a) m
  Returns-Ensures (returns p) (yields q) = returns (p, q)

-- When nothing is known of the first value
pub Ensures-next {ℓ μ ν} :
    {A : Type ℓ} {B : Type μ} {Q : B → Type ν} (m : Outcome A) {f : A → Outcome B}
    → ((a : A) → Ensures Q (f a))
    → Ensures Q (m >>= f)
Ensures-next (done a) next = next a
Ensures-next panic next = panics
Ensures-next fault next = faults
Ensures-next out_of_fuel next = stops

pub Ensures-if {ℓ κ} :
    {A : Type ℓ} {P : A → Type κ} {m k : Outcome A} (b : Bool)
    → Ensures P m
    → Ensures P k
    → Ensures P (if b then m else k)
Ensures-if true left right = left
Ensures-if false left right = right
