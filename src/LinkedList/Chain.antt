-- ===== src/LinkedList/Chain.antt =====
-- Runs of nodes whose `next` and `prev` pointers agree, for src/linked_list.rs.
use local_sync.Prelude.{
  ◌≡◌, refl, true, false, ◌==◌, has_apart, Option, none, some, List, [], ◌∷◌, ◌++◌, arith, has,
  Distinct, ==_self,
}
use local_sync.LinkedList.{Ptr, Links, set_prev, set_next, Store}

-- The first node of `xs`, or what follows it; the last node, or what stands before it.
abbrev pub first : List Ptr → Option Ptr → Option Ptr
first [] after = after
first (p ∷ xs) after = some p

abbrev pub final : Option Ptr → List Ptr → Option Ptr
final before [] = before
final before (p ∷ xs) = final (some p) xs

-- `xs` is linked both ways, between `before` and `after`.
abbrev pub Chain : Links → Option Ptr → List Ptr → Option Ptr → Type 0
Chain m before [] after = Unit
Chain m before (p ∷ xs) after =
    ((m p).prev ≡ before) × ((m p).next ≡ first xs after) × Chain m (some p) xs after

pub record IsList (s : Store) (xs : List Ptr) : Type 0 where
  pub head : s.head ≡ first xs none
  pub tail : s.tail ≡ final none xs
  pub chain : Chain s.links none xs none
  pub distinct : Distinct xs

pub final-append : (b : Option Ptr) (xs ys : List Ptr) → final b (xs ++ ys) ≡ final (final b xs) ys
final-append b [] ys = refl
final-append b (x ∷ xs) ys = final-append (some x) xs ys

pub Chain-split :
    (m : Links) (b a : Option Ptr) (xs ys : List Ptr)
    → Chain m b (xs ++ ys) a
    → Chain m b xs (first ys a) × Chain m (final b xs) ys a
Chain-split m b a [] ys c = (tt, c)
Chain-split m b a (x ∷ []) ys c = ((c.0, c.1, tt), c.2)
Chain-split m b a (x ∷ y ∷ xs) ys c =
    let (l, r) = Chain-split m (some x) a (y ∷ xs) ys c.2 in ((c.0, c.1, l), r)

pub Chain-join :
    (m : Links) (b a : Option Ptr) (xs ys : List Ptr)
    → Chain m b xs (first ys a)
    → Chain m (final b xs) ys a
    → Chain m b (xs ++ ys) a
Chain-join m b a [] ys l r = r
Chain-join m b a (x ∷ []) ys l r = (l.0, l.1, r)
Chain-join m b a (x ∷ y ∷ xs) ys l r = (l.0, l.1, Chain-join m (some x) a (y ∷ xs) ys l.2 r)

-- A chain survives any change that spares its own nodes.
pub frame :
    (m n : Links) (b a : Option Ptr) (xs : List Ptr)
    → Chain m b xs a
    → ((p : Ptr) → has p xs ≡ true → n p ≡ m p)
    → Chain n b xs a
frame m n b a [] c same = tt
frame m n b a (x ∷ xs) c same = (
  ground (arith, same x),
  ground (arith, same x),
  frame m n (some x) a xs c.2 λ p i. same p (ground arith),
)

-- A chain that is not empty has a last node, and it is one of its own.
pub final-has :
    (x : Ptr) (xs : List Ptr) → (r : Ptr) × (final (some x) xs ≡ some r) × (has r (x ∷ xs) ≡ true)
final-has x [] = (x, refl, ground (arith, ==_self x))
final-has x (y ∷ xs) = let (r, e, i) = final-has y xs in (r, e, ground arith)

-- The writes that give a chain another neighbour on the right, or on the left.
abbrev pub end_at : Option Ptr → Option Ptr → Links → Links
end_at none v m = m
end_at (some r) v m = set_next r v m

abbrev pub start_at : Option Ptr → Option Ptr → Links → Links
start_at none v m = m
start_at (some r) v m = set_prev r v m

pub end_at_off :
    (o v : Option Ptr) (m : Links) (p r : Ptr)
    → o ≡ some r
    → (p == r) ≡ false
    → end_at o v m p ≡ m p
end_at_off none v m p r e ne = refl
end_at_off (some q) v m p r e ne = ground arith

pub start_at_off :
    (o v : Option Ptr) (m : Links) (p r : Ptr)
    → o ≡ some r
    → (p == r) ≡ false
    → start_at o v m p ≡ m p
start_at_off none v m p r e ne = refl
start_at_off (some q) v m p r e ne = ground arith

pub Chain-end_at :
    (m : Links) (b a v : Option Ptr) (xs : List Ptr)
    → Chain m b xs a
    → Distinct xs
    → Chain (end_at (final b xs) v m) b xs v
Chain-end_at m b a v [] c d = tt
Chain-end_at m b a v (x ∷ []) c d = ground (arith, ==_self x)
Chain-end_at m b a v (x ∷ y ∷ xs) c d =
    let rest = Chain-end_at m (some x) a v (y ∷ xs) c.2 d.1 in
    let (r, e, i) = final-has y xs in
    let off = end_at_off (final (some y) xs) v m x r e (has_apart x r (y ∷ xs) d.0 i) in
    (rw off c.0, rw off c.1, rest)

pub Chain-start_at :
    (m : Links) (b a v : Option Ptr) (xs : List Ptr)
    → Chain m b xs a
    → Distinct xs
    → Chain (start_at (first xs none) v m) v xs a
Chain-start_at m b a v [] c d = tt
Chain-start_at m b a v (x ∷ xs) c d =
    (ground (arith, ==_self x), ground arith, frame m _ (some x) a xs c.2 λ p i. ground arith)

-- The right neighbour of the last node.
pub final-next :
    (m : Links) (b a : Option Ptr) (x : Ptr) (xs : List Ptr) (r : Ptr)
    → Chain m b (x ∷ xs) a
    → final (some x) xs ≡ some r
    → (m r).next ≡ a
final-next m b a x [] r c e = ground arith
final-next m b a x (y ∷ xs) r c e = final-next m (some x) a y xs r c.2 e
