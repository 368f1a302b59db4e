-- ===== src/LinkedList/Cut.antt =====
-- Taking one node out of a chain: the pointer writes that `pop_back` and `remove` share.
use local_sync.Prelude.{
  ◌≡◌, refl, ◌∙◌, true, false, ◌==◌, Option, none, some, List, [], ◌∷◌, ◌++◌, arith, has, has_apart,
  Distinct, Distinct-split,
}
use local_sync.LinkedList.{Ptr, Links}
use local_sync.LinkedList.Chain.{
  first, final, Chain, end_at, start_at, Chain-end_at, Chain-start_at, end_at_off, start_at_off,
  final-has, Chain-split, Chain-join, frame,
}

-- The neighbours of the node that goes are linked to one another.
abbrev pub cut : Option Ptr → Option Ptr → Links → Links
cut l r m = start_at r l (end_at l r m)

final_off :
    (xs : List Ptr) (v : Option Ptr) (m : Links) (p : Ptr)
    → has p xs ≡ false
    → end_at (final none xs) v m p ≡ m p
final_off [] v m p out = refl
final_off (x ∷ xs) v m p out =
    let (r, e, i) = final-has x xs in
    end_at_off (final (some x) xs) v m p r e (has_apart p r (x ∷ xs) out i)

first_off :
    (ys : List Ptr) (v : Option Ptr) (m : Links) (p : Ptr)
    → has p ys ≡ false
    → start_at (first ys none) v m p ≡ m p
first_off [] v m p out = refl
first_off (y ∷ ys) v m p out =
    start_at_off (some y) v m p y refl (has_apart p y (y ∷ ys) out (ground arith))

module _ (xs ys : List Ptr) (m : Links) where
  pub cut_off :
      (p : Ptr)
      → has p xs ≡ false
      → has p ys ≡ false
      → cut (final none xs) (first ys none) m p ≡ m p
  cut_off p out_l out_r =
      first_off ys (final none xs) (end_at (final none xs) (first ys none) m) p out_r
      ∙ final_off xs (first ys none) m p out_l

  module _ (q : Ptr) (c : Chain m none (xs ++ q ∷ ys) none) (d : Distinct (xs ++ q ∷ ys)) where
    pub cut_left : Chain m none xs (some q)
    cut_left = (Chain-split m none none xs (q ∷ ys) c).0

    pub cut_right : Chain m (final none xs) (q ∷ ys) none
    cut_right = (Chain-split m none none xs (q ∷ ys) c).1

    apart : (a : Ptr) → has a xs ≡ true → has a (q ∷ ys) ≡ false
    apart = (Distinct-split xs (q ∷ ys) d).2

    -- Whatever the two writes to the node itself are.
    pub Chain-cut :
        (n : Links)
        → ((p : Ptr) → (q == p) ≡ false → n p ≡ cut (final none xs) (first ys none) m p)
        → Chain n none (xs ++ ys) none
    Chain-cut n same =
        Chain-join n none none xs ys
          (frame m1 n none (first ys none) xs left
            λ p i. same p (ground (arith, apart p)) ∙ first_off ys l m1 p (ground (arith, apart p)))
          (frame m2 n l none ys right λ p i. same p (ground (arith, here.0, has_apart q p ys)))
      where
        here : Distinct (q ∷ ys)
        here = (Distinct-split xs (q ∷ ys) d).1

        l : Option Ptr
        l = final none xs

        m1 : Links
        m1 = end_at l (first ys none) m

        m2 : Links
        m2 = start_at (first ys none) l m1

        left : Chain m1 none xs (first ys none)
        left =
            Chain-end_at m none (some q) (first ys none) xs cut_left
              (Distinct-split xs (q ∷ ys) d).0

        right : Chain m2 l ys none
        right =
            Chain-start_at m1 (some q) none l ys
              (frame m m1 (some q) none ys cut_right.2
                λ p i. final_off xs (first ys none) m p (ground (arith, apart p)))
              here.1
