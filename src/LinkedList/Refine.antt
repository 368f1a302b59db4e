-- ===== src/LinkedList/Refine.antt =====
-- What the operations of src/linked_list.rs do to the sequence of nodes that a list stands for.
use local_sync.Prelude.{
  ◌≡◌, refl, sym, ◌∙◌, true, false, Option, none, some, List, [], ◌∷◌, ◌++◌, arith, ◌==◌, ==_self,
  has, done, Returns, returns, append-nil,
}
use local_sync.LinkedList.{
  Ptr, Links, unlinked, set_prev, set_next, Store, new, push_front, pop_back, is_empty, remove,
}
use local_sync.LinkedList.Chain.{first, final, IsList, frame, final-append, final-has}
use local_sync.LinkedList.Cut.{cut}
use local_sync.LinkedList.Splice.{
  spliced, popped, remove-spliced, pop_back-popped, prev_here, next_here, IsList-cut, outside,
  left_ok, right_ok,
}

-- Nodes outside `xs` keep their pointers.
abbrev pub SameOutside : List Ptr → Store → Store → Type 0
SameOutside xs s t = (q : Ptr) → has q xs ≡ false → t.links q ≡ s.links q

pub new-IsList : (m : Links) → IsList (new m) []
unfolding new
new-IsList m = record { head = refl; tail = refl; chain = tt; distinct = tt }

-- `push_front` of a node that is not in a well-linked list returns, and the list then holds that
-- node followed by the old ones; the nodes outside keep their pointers.
pub push_front-cons :
    (p : Ptr) (s : Store) (xs : List Ptr)
    → IsList s xs
    → has p xs ≡ false
    → Returns (λ t. IsList t (p ∷ xs) × SameOutside (p ∷ xs) s t) (push_front p s)
unfolding push_front
push_front-cons p s [] is out =
    rw (is.head, is.tail)
      (returns (
        record {
          head = refl;
          tail = refl;
          chain = ground (arith, ==_self p);
          distinct = (refl, tt);
        },
        λ q i. ground arith,
      ))
push_front-cons p s (x ∷ xs) is out =
    let (r, e, i) = final-has x xs in
    let ne : (x == p) ≡ false = ground arith in
    let m = set_prev x (some p) (set_prev p none (set_next p (some x) s.links)) in
    rw (is.head, is.tail, ne, e)
      (returns (
        record {
          head = refl;
          tail = sym e;
          chain = (
            ground (arith, ==_self p),
            ground (arith, ==_self p),
            (
              ground (arith, ==_self x),
              ground (arith, ==_self x),
              frame s.links m (some x) none xs is.chain.2 λ q j. ground arith,
            ),
          );
          distinct = (out, is.distinct);
        },
        λ q j. ground arith,
      ))

abbrev pub Popped : Ptr → Store → List Ptr → Option Ptr × Store → Type 0
Popped q s xs (out, t) =
    (out ≡ some q) × IsList t xs × (t.links q ≡ unlinked) × SameOutside (xs ++ q ∷ []) s t

-- `pop_back` of a well-linked list that ends in `q` gives `q`; the list then holds the others in
-- their order, the pointers of `q` are cleared, and the nodes outside the list keep theirs.
pub pop_back-last :
    (q : Ptr) (s : Store) (xs : List Ptr) → IsList s (xs ++ q ∷ []) → Popped q s xs (pop_back s)
pop_back-last q s xs is =
    rw
      (pop_back-popped (final none xs) q s (is.tail ∙ final-append none xs (q ∷ []))
        (prev_here q s xs [] is))
      (
        refl,
        rw append-nil at (IsList-cut q s xs [] is t refl refl same),
        ground (arith, ==_self q),
        outside q s xs [] is t same,
      )
  where
    t : Store
    t = popped (final none xs) q s

    same : (p : Ptr) → (q == p) ≡ false → t.links p ≡ cut (final none xs) none s.links p
    same p ne = ground arith

pub pop_back-nil : (s : Store) → IsList s [] → pop_back s ≡ (none, s)
unfolding pop_back
pop_back-nil s is = rw (is.tail, pop_back)

abbrev pub Removed : Ptr → Store → List Ptr → List Ptr → Option Ptr × Store → Type 0
Removed q s xs ys (out, t) =
    (out ≡ some q) × IsList t (xs ++ ys) × (t.links q ≡ unlinked) × SameOutside (xs ++ q ∷ ys) s t

-- `remove` of a node from the middle of a well-linked list returns that node; the list then holds
-- the nodes before it and after it in their order, the node's own pointers are cleared, and the
-- nodes outside the list keep theirs.
pub remove-append :
    (q : Ptr) (s : Store) (xs ys : List Ptr)
    → IsList s (xs ++ q ∷ ys)
    → Returns (Removed q s xs ys) (remove q s)
remove-append q s xs ys is =
    rw
      (remove-spliced (final none xs) (first ys none) q s (prev_here q s xs ys is)
        (next_here q s xs ys is) (left_ok q s xs ys is) (right_ok q s xs ys is))
      (returns (
        refl,
        IsList-cut q s xs ys is t refl refl same,
        ground (arith, ==_self q),
        outside q s xs ys is t same,
      ))
  where
    t : Store
    t = spliced (final none xs) (first ys none) q s

    same : (p : Ptr) → (q == p) ≡ false → t.links p ≡ cut (final none xs) (first ys none) s.links p
    same p ne = ground arith

-- `remove` of a node that is not in a well-linked list and has no `prev` gives nothing and changes
-- nothing.
pub remove_absent :
    (q : Ptr) (s : Store) (xs : List Ptr)
    → IsList s xs
    → has q xs ≡ false
    → (s.links q).prev ≡ none
    → remove q s ≡ done (none, s)
unfolding remove
remove_absent q s [] is out clean = rw (clean, is.head)
remove_absent q s (x ∷ xs) is out clean =
    let ne : (x == q) ≡ false = ground arith in rw (clean, is.head, ne)

-- On a well-linked list `is_empty` never panics, and answers whether the list has no node.
pub is_empty_lem :
    (s : Store) (xs : List Ptr)
    → IsList s xs
    → is_empty s ≡ done (elim xs [ [] ↦ true | _ ∷ _ ↦ false ])
unfolding is_empty
is_empty_lem s [] is = rw (is.head, is.tail)
is_empty_lem s (x ∷ xs) is = rw is.head
