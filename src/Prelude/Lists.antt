-- ===== src/Prelude/Lists.antt =====
-- Lists measured by native numbers, and predicates on them by recursion.
use Prim.Native.Nat.{ℕ, suc, ◌+◌}
use mathlib.Core.Path.{◌≡◌, refl, subst}
use mathlib.Core.Bool.{Bool, true, false, ◌||◌}
use mathlib.Core.List.{List, [], ◌∷◌, ◌++◌, reverse, reverse-cons}
use native.Mathlib.Omega.{arith}
use local_sync.Prelude.Tests.{◌==◌, ==_self}

module _ {ℓ} {A : Type ℓ} where
  abbrev pub length : List A → ℕ
  length [] = 0
  length (x ∷ xs) = suc (length xs)

  pub length-append : (xs ys : List A) → length (xs ++ ys) ≡ length xs + length ys
  length-append [] ys = omega arith
  length-append (x ∷ xs) ys = omega (arith, length-append xs ys)

  abbrev pub All {κ} : (A → Type κ) → List A → Type κ
  All P [] = Unit
  All P (x ∷ xs) = P x × All P xs

  pub append-eq-nil : (xs ys : List A) → xs ++ ys ≡ [] → (xs ≡ []) × (ys ≡ [])
  append-eq-nil [] ys e = (refl, e)
  append-eq-nil (x ∷ xs) ys e = cc

-- Membership and distinctness of addresses, as tests.
abbrev pub has : ℕ → List ℕ → Bool
has a [] = false
has a (x ∷ xs) = (x == a) || has a xs

abbrev pub Distinct : List ℕ → Type 0
Distinct [] = Unit
Distinct (x ∷ xs) = (has x xs ≡ false) × Distinct xs

pub has-append : (a : ℕ) (xs ys : List ℕ) → has a (xs ++ ys) ≡ (has a xs || has a ys)
has-append a [] ys = refl
has-append a (x ∷ xs) ys = ground (arith, has-append a xs ys)

-- A list with one element more at any place.
pub Distinct-insert :
    (a : ℕ) (xs ys : List ℕ)
    → has a (xs ++ ys) ≡ false
    → Distinct (xs ++ ys)
    → Distinct (xs ++ a ∷ ys)
Distinct-insert a [] ys h d = (h, d)
Distinct-insert a (x ∷ xs) ys h d = (
  ground (arith, has-append x xs ys, has-append x xs (a ∷ ys)),
  Distinct-insert a xs ys (ground arith) d.1,
)

pub Distinct-delete :
    (a : ℕ) (xs ys : List ℕ)
    → Distinct (xs ++ a ∷ ys)
    → (has a (xs ++ ys) ≡ false) × Distinct (xs ++ ys)
Distinct-delete a [] ys d = d
Distinct-delete a (x ∷ xs) ys d =
    let rest = Distinct-delete a xs ys d.1 in
    (
      ground (arith, has-append x xs (a ∷ ys)),
      (ground (arith, has-append x xs ys, has-append x xs (a ∷ ys)), rest.1),
    )

-- The two parts of a list without repetition share nothing.
pub Distinct-split :
    (xs ys : List ℕ)
    → Distinct (xs ++ ys)
    → Distinct xs × Distinct ys × ((a : ℕ) → has a xs ≡ true → has a ys ≡ false)
Distinct-split [] ys d = (tt, d, λ a i. cc)
Distinct-split (x ∷ xs) ys d =
    let (l, r, apart) = Distinct-split xs ys d.1 in
    ((ground (arith, has-append x xs ys), l), r, λ a i. ground (arith, has-append x xs ys, apart a))

-- What is in a list differs from what is not.
pub has_apart : (a b : ℕ) (xs : List ℕ) → has a xs ≡ false → has b xs ≡ true → (a == b) ≡ false
has_apart a b [] out i = cc
has_apart a b (x ∷ xs) out i = ground (arith, has_apart a b xs)

pub has-reverse : (a : ℕ) (xs : List ℕ) → has a (reverse xs) ≡ has a xs
has-reverse a [] = refl
has-reverse a (x ∷ xs) =
    rw (reverse-cons x xs) (ground (arith, has-append a (reverse xs) (x ∷ []), has-reverse a xs))

pub Distinct-reverse : (xs : List ℕ) → Distinct (reverse xs) → Distinct xs
Distinct-reverse [] d = tt
Distinct-reverse (x ∷ xs) d =
    let parts = Distinct-split (reverse xs) (x ∷ []) (subst Distinct (reverse-cons x xs) d) in
    (ground (arith, parts.2 x, has-reverse x xs, ==_self x), Distinct-reverse xs parts.0)
