-- ===== src/LinkedList/Fifo.antt =====
-- The list of src/linked_list.rs as its only client uses it: `push_front` at one end, `pop_back` at
-- the other, `remove` anywhere. The nodes are listed oldest first.
use mathlib.Core.List.{reverse-append}
use local_sync.Prelude.{
  ◌≡◌, ◌∙◌, ap, subst, false, none, some, List, [], ◌∷◌, ◌++◌, reverse, reverse-cons, append_assoc,
  arith, ◌==◌, if◌then◌else◌, Bool-cases, eq_of_test, inl, inr, ◌||◌, has, has_apart, has-append,
  has-reverse, Distinct, Distinct-reverse, done, Returns, Returns-mono,
}
use local_sync.LinkedList
use local_sync.LinkedList.{Ptr, Links, Pointers, unlinked, Store}
use local_sync.LinkedList.Chain.{IsList, final-append, frame}
use local_sync.LinkedList.Refine.{
  new-IsList, push_front-cons, pop_back-last, pop_back-nil, remove-append, remove_absent,
}

pub record IsFifo (q : Store) (ws : List Ptr) : Type 0 where
  pub list : IsList q (reverse ws)
  pub clean : (p : Ptr) → has p ws ≡ false → q.links p ≡ unlinked

pub IsFifo-Distinct : {q : Store} (ws : List Ptr) → IsFifo q ws → Distinct ws
IsFifo-Distinct ws is = Distinct-reverse ws is.list.distinct

pub new-IsFifo : (m : Links) → ((p : Ptr) → m p ≡ unlinked) → IsFifo (LinkedList.new m) []
unfolding LinkedList.new
new-IsFifo m clean = record { list = new-IsList m; clean = λ p out. clean p }

module _ {q : Store} (p : Ptr) (ws : List Ptr) where
  -- A new node goes behind all others.
  pub push_front-snoc :
      IsFifo q ws
      → has p ws ≡ false
      → Returns (λ t. IsFifo t (ws ++ p ∷ [])) (LinkedList.push_front p q)
  push_front-snoc is out =
      Returns-mono (push_front-cons p q (reverse ws) is.list (has-reverse p ws ∙ out))
        λ t (list, same). record {
          list = rw (reverse-append ws (p ∷ [])) list;
          clean = λ a o.
              same a (ground (arith, split a, has-reverse a ws))
              ∙ is.clean a (ground (arith, split a));
        }
    where
      split : (a : Ptr) → has a (ws ++ p ∷ []) ≡ (has a ws || has a (p ∷ []))
      split a = has-append a ws (p ∷ [])

  reversed : IsFifo q (p ∷ ws) → IsList q (reverse ws ++ p ∷ [])
  reversed is = subst (IsList q) (reverse-cons p ws) is.list

  -- The oldest node is the last of the list, and the one that comes off.
  pub pop_back-oldest :
      IsFifo q (p ∷ ws) → ((LinkedList.pop_back q).0 ≡ some p) × IsFifo (LinkedList.pop_back q).1 ws
  pop_back-oldest is =
      let (out, list, own, same) = pop_back-last p q (reverse ws) (reversed is) in
      (
        out,
        record {
          list = list;
          clean = λ a o. elim (Bool-cases (p == a)) [
            | inl e ↦
                subst (λ x. (LinkedList.pop_back q).1.links x ≡ unlinked) (eq_of_test p a e) own
            | inr ne ↦
                same a (ground (arith, has-append a (reverse ws) (p ∷ []), has-reverse a ws))
                ∙ is.clean a (ground arith)
          ];
        },
      )

  pub last-oldest : IsFifo q (p ∷ ws) → LinkedList.last q ≡ some p
  unfolding LinkedList.last
  last-oldest is = (reversed is).tail ∙ final-append none (reverse ws) (p ∷ [])

module _ {q : Store} where
  pub pop_back-none : IsFifo q [] → LinkedList.pop_back q ≡ (none, q)
  pop_back-none is = pop_back-nil q is.list

  pub last-none : IsFifo q [] → LinkedList.last q ≡ none
  unfolding LinkedList.last
  last-none is = is.list.tail

  -- A node in the queue is taken out, whatever its place; the others keep their order.
  pub remove-inside :
      (p : Ptr) (xs ys : List Ptr)
      → IsFifo q (xs ++ p ∷ ys)
      → Returns (λ (out, t). (out ≡ some p) × IsFifo t (xs ++ ys)) (LinkedList.remove p q)
  remove-inside p xs ys is =
      Returns-mono (remove-append p q (reverse ys) (reverse xs) (subst (IsList q) around is.list))
        λ (out, t) (e, list, own, same). (
          e,
          record {
            list = rw (reverse-append xs ys) list;
            clean = λ a o. elim (Bool-cases (p == a)) [
              | inl e ↦ subst (λ x. t.links x ≡ unlinked) (eq_of_test p a e) own
              | inr ne ↦
                  same a (
                    ground (
                      arith,
                      has-append a (reverse ys) (p ∷ reverse xs),
                      has-reverse a ys,
                      has-reverse a xs,
                      has-append a xs ys,
                    ))
                  ∙ is.clean a (ground (arith, has-append a xs ys, has-append a xs (p ∷ ys)))
            ];
          },
        )
    where
      around : reverse (xs ++ p ∷ ys) ≡ reverse ys ++ p ∷ reverse xs
      around =
          rw (reverse-append xs (p ∷ ys), reverse-cons p ys)
            (append_assoc (reverse ys) (p ∷ []) (reverse xs))

  pub remove-outside :
      (p : Ptr) (ws : List Ptr)
      → IsFifo q ws
      → has p ws ≡ false
      → LinkedList.remove p q ≡ done (none, q)
  remove-outside p ws is out =
      remove_absent p q (reverse ws) is.list (has-reverse p ws ∙ out)
        (ap (λ (l : Pointers). l.prev) (is.clean p out))

  -- A node that is written anew outside the queue.
  pub IsFifo-reset :
      (p : Ptr) (ws : List Ptr)
      → IsFifo q ws
      → has p ws ≡ false
      → IsFifo (record q { links = λ a. if a == p then unlinked else q.links a }) ws
  IsFifo-reset p ws is out = record {
    list = record {
      head = is.list.head;
      tail = is.list.tail;
      chain =
          frame q.links (λ a. if a == p then unlinked else q.links a) none none (reverse ws)
            is.list.chain (λ a i. ground (arith, has_apart p a (reverse ws), has-reverse p ws));
      distinct = is.list.distinct;
    };
    clean = λ a o. ground (arith, is.clean a);
  }
