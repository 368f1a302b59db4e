-- ===== src/Prelude/Members.antt =====
-- Finite sets of addresses as lists: taking one out, the size of a part, and sums over a list.
use Prim.Native.Nat.{ℕ, zero, suc, ◌+◌, ◌≤◌, ◌<◌}
use mathlib.Core.Path.{◌≡◌, refl, subst, ap, ◌∙◌}
use mathlib.Core.Logic.{inl, inr}
use mathlib.Core.Bool.{true, false}
use mathlib.Core.List.{List, [], ◌∷◌, ◌++◌}
use native.Mathlib.Omega.{arith}
use local_sync.Prelude.Tests.{◌==◌, ==_self, if◌then◌else◌, Bool-cases, eq_of_test}
use local_sync.Prelude.Lists.{length, has, has_apart, All, Distinct}

abbrev pub delete : ℕ → List ℕ → List ℕ
delete p [] = []
delete p (x ∷ xs) = let rest = delete p xs in if x == p then xs else x ∷ rest

module _ (p : ℕ) where
  pub has-delete_other : (q : ℕ) (l : List ℕ) → (p == q) ≡ false → has q (delete p l) ≡ has q l
  has-delete_other q [] ne = refl
  has-delete_other q (x ∷ l) ne = ground (arith, has-delete_other q l)

  pub has-delete_le : (q : ℕ) (l : List ℕ) → has q (delete p l) ≡ true → has q l ≡ true
  has-delete_le q [] h = h
  has-delete_le q (x ∷ l) h = ground (arith, has-delete_le q l)

  pub has-delete_self : (l : List ℕ) → Distinct l → has p (delete p l) ≡ false
  has-delete_self [] d = refl
  has-delete_self (x ∷ l) d = ground (arith, has-delete_self l d.1)

  pub delete-Distinct : (l : List ℕ) → Distinct l → Distinct (delete p l)
  delete-Distinct [] d = tt
  delete-Distinct (x ∷ l) d = elim (Bool-cases (x == p)) [
    | inl e ↦ rw e d.1
    | inr ne ↦ rw ne (ground (arith, has-delete_other x l, d.0), delete-Distinct l d.1)
  ]

  pub length-delete : (l : List ℕ) → has p l ≡ true → length (delete p l) + 1 ≡ length l
  length-delete [] h = cc
  length-delete (x ∷ l) h = ground (arith, length-delete l)

  pub delete-absent : (l : List ℕ) → has p l ≡ false → delete p l ≡ l
  delete-absent [] h = refl
  delete-absent (x ∷ l) h = ground (arith, delete-absent l)

  pub length-delete_le : (l : List ℕ) → length (delete p l) ≤ length l
  length-delete_le [] = omega arith
  length-delete_le (x ∷ l) = ground (arith, length-delete_le l)

-- Two members of a list of at most one are the same.
pub one_member : (p q : ℕ) (l : List ℕ) → length l ≤ 1 → has p l ≡ true → has q l ≡ true → p ≡ q
one_member p q [] few hp hq = cc
one_member p q (x ∷ []) few hp hq = ground (arith, few, hp, hq)
one_member p q (x ∷ y ∷ l) few hp hq = absurd (ground (arith, few))

-- A list without repetition is no longer than one that has all its members.
pub length-le :
    (xs ys : List ℕ)
    → Distinct xs
    → ((q : ℕ) → has q xs ≡ true → has q ys ≡ true)
    → length xs ≤ length ys
length-le [] ys d sub = omega arith
length-le (x ∷ xs) ys d sub =
    let inside : has x ys ≡ true = sub x (ground (arith, ==_self x)) in
    omega (
      arith,
      length-delete x ys inside,
      length-le xs (delete x ys) d.1
          (λ q i. has-delete_other x q ys (has_apart x q xs d.0 i) ∙ sub q (ground (arith, i))),
    )

-- A member splits the list.
pub has-split :
    (p : ℕ) (l : List ℕ) → has p l ≡ true → (xs : List ℕ) × (ys : List ℕ) × (l ≡ xs ++ p ∷ ys)
has-split p [] h = cc
has-split p (x ∷ l) h = elim (Bool-cases (x == p)) [
  | inl e ↦ ([], l, ap (λ a. a ∷ l) (eq_of_test x p e))
  | inr ne ↦
      let (xs, ys, e) = has-split p l (ground (arith, h, ne)) in (x ∷ xs, ys, ap (λ r. x ∷ r) e)
]

abbrev pub total : (ℕ → ℕ) → List ℕ → ℕ
total f [] = 0
total f (p ∷ ps) = f p + total f ps

pub total-same :
    (f g : ℕ → ℕ) (l : List ℕ) → ((q : ℕ) → has q l ≡ true → g q ≡ f q) → total g l ≡ total f l
total-same f g [] same = refl
total-same f g (x ∷ l) same = omega (
  arith,
  same x (ground (arith, ==_self x)),
  total-same f g l (λ q i. same q (ground (arith, i))),
)

pub total-le :
    (f g : ℕ → ℕ) (l : List ℕ) → ((q : ℕ) → has q l ≡ true → f q ≤ g q) → total f l ≤ total g l
total-le f g [] le = omega arith
total-le f g (x ∷ l) le =
    omega
      (arith, le x (ground (arith, ==_self x)), total-le f g l (λ q i. le q (ground (arith, i))))

-- A change at one member.
pub total-update :
    (f g : ℕ → ℕ) (p : ℕ) (l : List ℕ)
    → Distinct l
    → has p l ≡ true
    → ((q : ℕ) → (p == q) ≡ false → g q ≡ f q)
    → total g l + f p ≡ total f l + g p
total-update f g p [] d h same = cc
total-update f g p (x ∷ l) d h same = elim (Bool-cases (x == p)) [
  | inl e ↦
      let same_p : x ≡ p = eq_of_test x p e in
      omega (
        arith,
        ap f same_p,
        ap g same_p,
        total-same f g l (λ q i. same q (ground (arith, has_apart x q l d.0 i, same_p))),
      )
  | inr ne ↦
      omega
        (arith, same x (ground (arith, ne)), total-update f g p l d.1 (ground (arith, h, ne)) same)
]

pub total-delete :
    (f : ℕ → ℕ) (p : ℕ) (l : List ℕ) → has p l ≡ true → total f (delete p l) + f p ≡ total f l
total-delete f p [] h = cc
total-delete f p (x ∷ l) h = elim (Bool-cases (x == p)) [
  | inl e ↦ rw e (omega (arith, ap f (eq_of_test x p e)))
  | inr ne ↦ rw ne (omega (arith, total-delete f p l (ground (arith, h, ne))))
]

pub All-has {ℓ} : (P : ℕ → Type ℓ) (l : List ℕ) (q : ℕ) → All P l → has q l ≡ true → P q
All-has P [] q all there = cc
All-has P (x ∷ l) q all there = elim (Bool-cases (x == q)) [
  | inl e ↦ subst P (eq_of_test x q e) all.0
  | inr ne ↦ All-has P l q all.1 (ground (arith, there, ne))
]

-- The numbers below a bound
abbrev below : ℕ → List ℕ
below zero = []
below (suc n) = n ∷ below n

length-below : (n : ℕ) → length (below n) ≡ n
length-below zero = refl
length-below (suc n) = omega (arith, length-below n)

has-below : (n q : ℕ) → q < n → has q (below n) ≡ true
has-below zero q small = absurd (omega (arith, small))
has-below (suc n) q small = elim (Bool-cases (n == q)) [
  | inl e ↦ rw e refl
  | inr ne ↦ rw ne (has-below n q (ground (arith, small, ne)))
]

-- Different numbers below a bound are no more than the bound.
pub few_below : (n : ℕ) (l : List ℕ) → Distinct l → All (λ a. a < n) l → length l ≤ n
few_below n l d all = omega (
  arith,
  length-below n,
  length-le l (below n) d λ q i. has-below n q (All-has (λ a. a < n) l q all i),
)
