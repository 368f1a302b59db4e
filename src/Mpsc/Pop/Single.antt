-- ===== src/Mpsc/Pop/Single.antt =====
-- src/mpsc/block.rs: what a pop leaves of the blocks, and a pop from the only block in use.
use local_sync.Prelude.{
  ℕ, ◌+◌, ◌<◌, ◌≡◌, ◌⊎◌, inl, refl, ap, ◌∙◌, Option, none, some, List, [], ◌∷◌, ◌++◌, arith, ◌==◌,
  ==_self, ltb, length, has, has-append, All, true, false, Returns, returns,
}
use local_sync.Mpsc.Block.{Address, Queue, block_cap, set_slot, pop_unchecked}
use local_sync.Mpsc.Layout.{
  IsQueue, Used, Slots, Free-frame, Full-frame, SameOn, stored, spared, Heap, front, first,
}
use local_sync.Mpsc.Push.{apart_front}

pub All-insert {ℓ} :
    (P : Address → Type ℓ) (a : Address) (xs ys : List Address)
    → P a
    → All P (xs ++ ys)
    → All P (xs ++ a ∷ ys)
All-insert P a [] ys h r = (h, r)
All-insert P a (x ∷ xs) ys h r = (r.0, All-insert P a xs ys h r.1)

-- The block at the head is none of the others.
pub head_apart :
    (p : Address) (ps : List Address) (t : Address) (fs : List Address)
    → has p (ps ++ t ∷ fs) ≡ false
    → (has p ps ≡ false) × (has p (t ∷ []) ≡ false) × (has p fs ≡ false)
head_apart p ps t fs out =
    let parts = has-append p ps (t ∷ fs) in
    (ground (arith, parts), ground (arith, parts), ground (arith, parts))

module _ {ℓ} {T : Type ℓ} where
  -- The block at the tail, and the whole once that block is linked to another.
  pub record Tail (h : Heap T) (b : ℕ) (ps : List Address) (t : Address) (after : Option Address)
      (xs : List T) : Type ℓ where
    pub v : ℕ → Option T
    pub tb : ℕ
    pub e : ℕ
    pub block : h t ≡ some (record { next = after; values = v; begin = tb; end = e })
    pub relink :
        (h' : Heap T) (n : Option Address)
        → SameOn ps h h'
        → h' t ≡ some (record { next = n; values = v; begin = tb; end = e })
        → Used h' b ps t n xs

  pub Used-Tail :
      (h : Heap T) (b : ℕ) (ps : List Address) (t : Address) (after : Option Address) (xs : List T)
      → Used h b ps t after xs
      → Tail h b ps t after xs
  Used-Tail h b [] t after xs u = record {
    v = u.v;
    tb = b;
    e = b + length xs;
    block = u.block;
    relink = λ h' n same w. record { v = u.v; block = w; slots = u.slots; room = u.room };
  }
  Used-Tail h b (p ∷ ps) t after xs (ys, zs, split, full, rest) =
      let g = Used-Tail h 0 ps t after zs rest in
      record {
        v = g.v;
        tb = g.tb;
        e = g.e;
        block = g.block;
        relink = λ h' n same w. (
          ys,
          zs,
          split,
          Full-frame h h' b p (first ps t) ys (same p (ground (arith, ==_self p))) full,
          g.relink h' n (λ a i. same a (ground arith)) w,
        );
      }

  pub Slots-clear :
      (v : ℕ → Option T) (i j : ℕ) (xs : List T)
      → j < i
      → Slots v i xs
      → Slots (set_slot j none v) i xs
  Slots-clear v i j [] lt s = tt
  Slots-clear v i j (x ∷ xs) lt s =
      (ground (arith, s.0), Slots-clear v (i + 1) j xs (omega arith) s.1)

  -- The value read is `x`, and the blocks hold `xs`: they stand as before, or the one that was the
  -- head has moved behind the tail, in front of the blocks to reuse.
  abbrev pub Popped : List Address → List Address → T → List T → T × Queue T → Type ℓ
  Popped ps fs x xs (v, u) =
      (v ≡ x)
      × (IsQueue u ps fs xs
          ⊎ ((p : Address) × (rest : List Address) × (ps ≡ p ∷ rest) × IsQueue u rest (p ∷ fs) xs))

  -- All values stand in one block.
  pub pop-single :
      (x : T) (q : Queue T) (fs : List Address) (xs : List T)
      → IsQueue q [] fs (x ∷ xs)
      → Returns (Popped [] fs x xs) (pop_unchecked q)
  unfolding pop_unchecked
  pop-single x q fs xs is =
      let u = is.used in
      let b = is.begin in
      let t = q.tail in
      let some_left : (b + length (x ∷ xs) == b) ≡ false = ground arith in
      let inside : ltb b block_cap ≡ true = ground (arith, u.room) in
      let counted : ltb 0 q.len ≡ true = ground (arith, is.count) in
      let stays : (b + 1 == block_cap) ≡ false = ground (arith, u.room) in
      let off = (apart_front [] t fs is.distinct).1 in
      rw (is.head, u.block, some_left, inside, counted, stays, u.slots.0)
        (returns (
          refl,
          inl (record {
            head = refl;
            begin = b + 1;
            used = record {
              v = set_slot b none u.v;
              block =
                  stored q.heap _ t
                  ∙ ap
                      (λ k. some (record {
                        next = front fs;
                        values = set_slot b none u.v;
                        begin = b + 1;
                        end = k;
                      }))
                      (omega arith);
              slots = Slots-clear u.v (b + 1) b xs (omega arith) u.slots.1;
              room = omega (arith, u.room);
            };
            free = Free-frame q.heap _ fs (spared q.heap _ fs t off) is.free;
            distinct = is.distinct;
            below = is.below;
            count = omega (arith, is.count);
          }),
        ))
