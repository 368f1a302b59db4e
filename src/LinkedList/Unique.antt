-- ===== src/LinkedList/Unique.antt =====
-- src/linked_list.rs: the pointers of a list determine the nodes it holds, and their order.
use mathlib.Core.List.{reverse-reverse}
use local_sync.Prelude.{◌≡◌, refl, sym, ap, ap₂, ◌∙◌, Option, none, some, List, [], ◌∷◌, reverse}
use local_sync.LinkedList.{Ptr, Links, Store}
use local_sync.LinkedList.Chain.{first, Chain, IsList}
use local_sync.LinkedList.Fifo.{IsFifo}

Chain-unique :
    (m : Links) (a b : Option Ptr) (xs ys : List Ptr)
    → Chain m a xs none
    → Chain m b ys none
    → first xs none ≡ first ys none
    → xs ≡ ys
Chain-unique m a b [] [] c d e = refl
Chain-unique m a b [] (y ∷ ys) c d e = cc
Chain-unique m a b (x ∷ xs) [] c d e = cc
Chain-unique m a b (x ∷ xs) (y ∷ ys) (_, next, c) (_, next2, d) e =
    let same : x ≡ y = cc in
    ap₂ (λ p l. p ∷ l) same
      (Chain-unique m (some x) (some y) xs ys c d (sym next ∙ ap (λ p. (m p).next) same ∙ next2))

IsList-unique : (s : Store) (xs ys : List Ptr) → IsList s xs → IsList s ys → xs ≡ ys
IsList-unique s xs ys i j =
    Chain-unique s.links none none xs ys i.chain j.chain (sym i.head ∙ j.head)

pub IsFifo-unique : (s : Store) (ws vs : List Ptr) → IsFifo s ws → IsFifo s vs → ws ≡ vs
IsFifo-unique s ws vs i j =
    sym (reverse-reverse ws)
    ∙ ap reverse (IsList-unique s (reverse ws) (reverse vs) i.list j.list)
    ∙ reverse-reverse vs
