-- ===== src/Mpsc/Drain.antt =====
-- src/mpsc/block.rs: a new queue, its length, and `free_blocks` along the chain of all blocks.
use local_sync.Prelude.{
  ℕ, zero, suc, ◌≤◌, ◌≡◌, refl, sym, ap, ◌∙◌, subst, Option, none, some, List, [], ◌∷◌, ◌++◌, arith,
  ◌==◌, ==_self, if◌then◌else◌, length, has, has_apart, Distinct, Bool, true, false, ◌||◌, Returns,
  returns, Returns-mono,
}
use local_sync.Mpsc.Block
use local_sync.Mpsc.Block.{Address, Block, Queue, new_block, free_loop, free_blocks, found}
use local_sync.Mpsc.Layout.{IsQueue, Used, Free, Heap, SameOn, front, first, stored}

==_sym : (a b : ℕ) → (a == b) ≡ (b == a)
==_sym a b = ground arith

both {ℓ} :
    {A : Type ℓ} (x y : Bool) (o : Option A)
    → (if y then none else (if x then none else o)) ≡ (if (x || y) then none else o)
both true true o = refl
both true false o = refl
both false true o = refl
both false false o = refl

front-first :
    (ps : List Address) (t : Address) (fs : List Address) → front (ps ++ t ∷ fs) ≡ some (first ps t)
front-first [] t fs = refl
front-first (p ∷ ps) t fs = refl

module _ {ℓ} {T : Type ℓ} where
  -- A new queue is well formed and its only block holds no value.
  pub new-IsQueue : (heap : Heap T) (p : Address) → IsQueue (Block.new heap p) [] [] []
  unfolding Block.new
  new-IsQueue heap p = record {
    head = refl;
    begin = 0;
    used = record {
      v = λ _. none;
      block = stored heap Block.new_block p;
      slots = tt;
      room = omega arith;
    };
    free = tt;
    distinct = (refl, tt);
    below = (omega arith, tt);
    count = refl;
  }

  -- Blocks linked one to the next, the last to none.
  abbrev Linked : Heap T → List Address → Type ℓ
  Linked h [] = Unit {ℓ}
  Linked h (p ∷ ps) = ((b : Block T) × (h p ≡ some b) × (b.next ≡ front ps)) × Linked h ps

  Linked-Free : (h : Heap T) (fs : List Address) → Free h fs → Linked h fs
  Linked-Free h [] f = tt
  Linked-Free h (a ∷ fs) ((v, e), f) = ((_, e, refl), Linked-Free h fs f)

  Linked-Used :
      (h : Heap T) (b : ℕ) (ps : List Address) (t : Address) (fs : List Address) (xs : List T)
      → Used h b ps t (front fs) xs
      → Free h fs
      → Linked h (ps ++ t ∷ fs)
  Linked-Used h b [] t fs xs u f = ((_, u.block, refl), Linked-Free h fs f)
  Linked-Used h b (p ∷ []) t fs xs (ys, zs, e, full, rest) f =
      ((_, full.block, refl), Linked-Used h 0 [] t fs zs rest f)
  Linked-Used h b (p ∷ r ∷ ps) t fs xs (ys, zs, e, full, rest) f =
      ((_, full.block, refl), Linked-Used h 0 (r ∷ ps) t fs zs rest f)

  Linked-frame : (h h' : Heap T) (ps : List Address) → SameOn ps h h' → Linked h ps → Linked h' ps
  Linked-frame h h' [] same l = tt
  Linked-frame h h' (p ∷ ps) same ((b, e, n), l) = (
    (b, same p (ground (arith, ==_self p)) ∙ e, n),
    Linked-frame h h' ps (λ a i. same a (ground arith)) l,
  )

  abbrev pub Freed : Queue T → List Address → Queue T → Type ℓ
  Freed q ps u = (a : Address) → u.heap a ≡ (if has a ps then none else q.heap a)

  free_loop-Freed :
      (fuel : ℕ) (q : Queue T) (ps : List Address)
      → Linked q.heap ps
      → Distinct ps
      → length ps ≤ fuel
      → Returns (Freed q ps) (free_loop fuel (front ps) q)
  unfolding free_loop
  free_loop-Freed fuel q [] l d enough = returns (λ a. refl)
  free_loop-Freed zero q (p ∷ ps) l d enough = absurd (omega arith)
  free_loop-Freed (suc fuel) q (p ∷ ps) ((b, e, n), l) d enough =
      let q1 : Queue T = record q { heap = λ a. if a == p then none else q.heap a } in
      let spares : SameOn ps q.heap q1.heap = λ a i. ground (arith, has_apart p a ps d.0 i) in
      rw (e, n)
        (Returns-mono
          (free_loop-Freed fuel q1 ps (Linked-frame q.heap q1.heap ps spares l) d.1
            (omega (arith, enough)))
          λ u f a.
            f a
            ∙ both (a == p) (has a ps) (q.heap a)
            ∙ ap (λ c. if (c || has a ps) then none else q.heap a) (==_sym a p))

  -- With fuel for each block, `free_blocks` on a well-formed queue returns; exactly the queue's
  -- blocks are freed, and none is read or freed after it was freed.
  pub free_blocks-Freed :
      (fuel : ℕ) (q : Queue T) (ps fs : List Address) (xs : List T)
      → IsQueue q ps fs xs
      → length (ps ++ q.tail ∷ fs) ≤ fuel
      → Returns (Freed q (ps ++ q.tail ∷ fs)) (free_blocks fuel q)
  unfolding free_blocks
  free_blocks-Freed fuel q ps fs xs is enough =
      subst (λ o. Returns (Freed q (ps ++ q.tail ∷ fs)) (free_loop fuel o q))
        (front-first ps q.tail fs ∙ ap some (sym is.head))
        (free_loop-Freed fuel q (ps ++ q.tail ∷ fs)
          (Linked-Used q.heap is.begin ps q.tail fs xs is.used is.free) is.distinct enough)

  -- On a queue whose blocks hold `xs`, `len` is the length of `xs`, and `is_empty` answers whether
  -- `xs` is empty.
  pub len_lem :
      (q : Queue T) (ps fs : List Address) (xs : List T)
      → IsQueue q ps fs xs
      → (Block.len q ≡ length xs) × (Block.is_empty q ≡ (elim xs [ [] ↦ true | _ ∷ _ ↦ false ]))
  unfolding Block.len Block.is_empty
  len_lem q ps fs [] is = (is.count, ground (arith, is.count))
  len_lem q ps fs (x ∷ xs) is = (is.count, ground (arith, is.count))
