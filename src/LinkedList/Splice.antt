-- ===== src/LinkedList/Splice.antt =====
-- The stores that `pop_back` and `remove` leave, as functions of the node's two neighbours.
use local_sync.Prelude.{
  ◌≡◌, refl, ◌∙◌, sym, false, ◌==◌, ==_self, has_apart, Option, none, some, List, [], ◌∷◌, ◌++◌,
  arith, has, Distinct-delete, has-append, append-nil, done,
}
use local_sync.LinkedList.{Ptr, set_prev, set_next, Store, pop_back, remove}
use local_sync.LinkedList.Chain.{first, final, Chain, IsList, final-append, final-has, final-next}
use local_sync.LinkedList.Cut.{cut, cut_off, cut_left, cut_right, Chain-cut}

abbrev pub head_after : Option Ptr → Option Ptr → Store → Option Ptr
head_after none r s = r
head_after (some a) r s = s.head

abbrev pub tail_after : Option Ptr → Option Ptr → Store → Option Ptr
tail_after l none s = l
tail_after l (some b) s = s.tail

abbrev pub spliced : Option Ptr → Option Ptr → Ptr → Store → Store
spliced l r q s = record {
  head = head_after l r s;
  tail = tail_after l r s;
  links = set_prev q none (set_next q none (cut l r s.links));
}

abbrev pub popped : Option Ptr → Ptr → Store → Store
popped l q s = record {
  head = head_after l none s;
  tail = l;
  links = set_next q none (set_prev q none (cut l none s.links));
}

abbrev pub LeftOk : Option Ptr → Ptr → Store → Type 0
LeftOk none q s = s.head ≡ some q
LeftOk (some a) q s = ((s.links a).next ≡ some q) × ((q == a) ≡ false)

abbrev pub RightOk : Option Ptr → Ptr → Store → Type 0
RightOk none q s = s.tail ≡ some q
RightOk (some b) q s = (s.links b).prev ≡ some q

pub remove-spliced :
    (l r : Option Ptr) (q : Ptr) (s : Store)
    → (s.links q).prev ≡ l
    → (s.links q).next ≡ r
    → LeftOk l q s
    → RightOk r q s
    → remove q s ≡ done (some q, spliced l r q s)
unfolding remove
remove-spliced none none q s el er hl hr = ground (arith, ==_self q)
remove-spliced none (some b) q s el er hl hr = ground (arith, ==_self q)
remove-spliced (some a) none q s el er hl hr = ground (arith, ==_self q)
remove-spliced (some a) (some b) q s el er hl hr = ground (arith, ==_self q)

pub pop_back-popped :
    (l : Option Ptr) (q : Ptr) (s : Store)
    → s.tail ≡ some q
    → (s.links q).prev ≡ l
    → pop_back s ≡ (some q, popped l q s)
unfolding pop_back
pop_back-popped none q s et el = simp (et, el)
pop_back-popped (some a) q s et el = simp (et, el)

head_after-first :
    (xs ys : List Ptr) (q : Ptr) (s : Store)
    → s.head ≡ first (xs ++ q ∷ ys) none
    → head_after (final none xs) (first ys none) s ≡ first (xs ++ ys) none
head_after-first [] ys q s e = refl
head_after-first (x ∷ xs) ys q s e = let (r, f, i) = final-has x xs in rw (f, head_after) e

tail_after-final :
    (xs ys : List Ptr) (q : Ptr) (s : Store)
    → s.tail ≡ final none (xs ++ q ∷ ys)
    → tail_after (final none xs) (first ys none) s ≡ final none (xs ++ ys)
tail_after-final xs [] q s e = rw append-nil
tail_after-final xs (y ∷ ys) q s e =
    e ∙ final-append none xs (q ∷ y ∷ ys) ∙ sym (final-append none xs (y ∷ ys))

module _ (q : Ptr) (s : Store) (xs ys : List Ptr) (is : IsList s (xs ++ q ∷ ys)) where
  pub prev_here : (s.links q).prev ≡ final none xs
  prev_here = (cut_right xs ys s.links q is.chain is.distinct).0

  pub next_here : (s.links q).next ≡ first ys none
  next_here = (cut_right xs ys s.links q is.chain is.distinct).1

  -- Any store with these ends, and these pointers outside the node, stands for the rest.
  pub IsList-cut :
      (t : Store)
      → t.head ≡ head_after (final none xs) (first ys none) s
      → t.tail ≡ tail_after (final none xs) (first ys none) s
      → ((p : Ptr) → (q == p) ≡ false → t.links p ≡ cut (final none xs) (first ys none) s.links p)
      → IsList t (xs ++ ys)
  IsList-cut t eh et same = record {
    head = eh ∙ head_after-first xs ys q s is.head;
    tail = et ∙ tail_after-final xs ys q s is.tail;
    chain = Chain-cut xs ys s.links q is.chain is.distinct t.links same;
    distinct = (Distinct-delete q xs ys is.distinct).1;
  }

  pub outside :
      (t : Store)
      → ((p : Ptr) → (q == p) ≡ false → t.links p ≡ cut (final none xs) (first ys none) s.links p)
      → (p : Ptr) → has p (xs ++ q ∷ ys) ≡ false
      → t.links p ≡ s.links p
  outside t same p out =
      let split = has-append p xs (q ∷ ys) in
      same p (ground (arith, split))
      ∙ cut_off xs ys s.links p (ground (arith, split)) (ground (arith, split))

  -- What the two assertions of `remove` check.
  pub left_ok : LeftOk (final none xs) q s
  left_ok = go xs is.head (cut_left xs ys s.links q is.chain is.distinct) out
    where
      out : has q xs ≡ false
      out = ground (arith, (Distinct-delete q xs ys is.distinct).0, has-append q xs ys)

      go :
          (zs : List Ptr)
          → s.head ≡ first (zs ++ q ∷ ys) none
          → Chain s.links none zs (some q)
          → has q zs ≡ false
          → LeftOk (final none zs) q s
      go [] e c out = e
      go (z ∷ zs) e c out =
          let (r, f, i) = final-has z zs in
          rw f (final-next s.links none (some q) z zs r c f, has_apart q r (z ∷ zs) out i)

  pub right_ok : RightOk (first ys none) q s
  right_ok = go ys is.tail (cut_right xs ys s.links q is.chain is.distinct)
    where
      go :
          (zs : List Ptr)
          → s.tail ≡ final none (xs ++ q ∷ zs)
          → Chain s.links (final none xs) (q ∷ zs) none
          → RightOk (first zs none) q s
      go [] e c = e ∙ final-append none xs (q ∷ [])
      go (z ∷ zs) e c = c.2.0
