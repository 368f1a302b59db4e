-- ===== src/Mpsc/Pop.antt =====
-- The theorem on `pop_unchecked` of src/mpsc/block.rs, by where the value lies: in the only block,
-- inside the first of several, or at that block's end.
mod Single
use local_sync.Prelude.{
  ℕ, ◌+◌, ◌<◌, ◌≡◌, inl, inr, refl, sym, ap, ◌∙◌, subst, Option, none, some, List, [], ◌∷◌, ◌++◌,
  append_assoc, arith, ◌==◌, ==_self, ltb, length, has, has-append, Distinct, Distinct-insert, All,
  true, false, Returns, returns, Returns-mono,
}
use local_sync.Mpsc.Block.{
  Address, Block, Queue, block_cap, store, set_slot, pop_unchecked, recycle,
}
use local_sync.Mpsc.Layout.{
  IsQueue, IsFull, Used, Slots, Free-frame, Full-frame, SameOn, stored, spared, Heap, front, first,
}
use local_sync.Mpsc.Push.{apart_front}
pub use local_sync.Mpsc.Pop.Single.{Popped}
use local_sync.Mpsc.Pop.Single.{All-insert, head_apart, Used-Tail, Slots-clear, pop-single}

module _ {ℓ} {T : Type ℓ} where
  -- The block at the head is read, and more is left in it.
  pop-inside :
      (x : T) (q : Queue T) (p : Address) (ps fs : List Address) (xs ys zs : List T)
      → (is : IsQueue q (p ∷ ps) fs (x ∷ xs)) → IsFull q.heap is.begin p (first ps q.tail) (x ∷ ys)
      → Used q.heap 0 ps q.tail (front fs) zs
      → xs ≡ ys ++ zs
      → (is.begin + 1 == block_cap) ≡ false
      → Returns (Popped (p ∷ ps) fs x xs) (pop_unchecked q)
  unfolding pop_unchecked
  pop-inside x q p ps fs xs ys zs is u rest split stays =
      let b = is.begin in
      let some_left : (block_cap == b) ≡ false = ground (arith, u.busy) in
      let inside : ltb b block_cap ≡ true = ground (arith, u.busy) in
      let counted : ltb 0 q.len ≡ true = ground (arith, is.count) in
      let tail = Used-Tail q.heap 0 ps q.tail (front fs) zs rest in
      let (off_ps, off_t, off_fs) = head_apart p ps q.tail fs is.distinct.0 in
      let blk : Block T = record {
        next = some (first ps q.tail);
        values = set_slot b none u.v;
        begin = b + 1;
        end = block_cap;
      } in
      rw (is.head, u.block, some_left, inside, counted, stays, u.slots.0)
        (returns (
          refl,
          inl (record {
            head = refl;
            begin = b + 1;
            used = (
              ys,
              zs,
              split,
              record {
                v = set_slot b none u.v;
                block = stored q.heap blk p;
                slots = Slots-clear u.v (b + 1) b ys (omega arith) u.slots.1;
                filled = omega (arith, u.filled);
                busy = ground (arith, u.busy, stays);
              },
              tail.relink (store p blk q.heap) (front fs) (spared q.heap blk ps p off_ps) (
                  spared q.heap blk (q.tail ∷ []) p off_t q.tail (ground (arith, ==_self q.tail))
                  ∙ tail.block),
            );
            free = Free-frame q.heap _ fs (spared q.heap blk fs p off_fs) is.free;
            distinct = is.distinct;
            below = is.below;
            count = omega (arith, is.count);
          }),
        ))

  -- The last value of the block at the head is read: the block goes behind the tail.
  pop-recycles :
      (x : T) (q : Queue T) (p : Address) (ps fs : List Address) (xs : List T)
      → (is : IsQueue q (p ∷ ps) fs (x ∷ xs)) → IsFull q.heap is.begin p (first ps q.tail) (x ∷ [])
      → Used q.heap 0 ps q.tail (front fs) xs
      → (is.begin + 1 == block_cap) ≡ true
      → Returns (Popped (p ∷ ps) fs x xs) (pop_unchecked q)
  unfolding pop_unchecked recycle
  pop-recycles x q p ps fs xs is u rest ends =
      let b = is.begin in
      let some_left : (block_cap == b) ≡ false = ground (arith, u.busy) in
      let inside : ltb b block_cap ≡ true = ground (arith, u.busy) in
      let counted : ltb 0 q.len ≡ true = ground (arith, is.count) in
      let tail = Used-Tail q.heap 0 ps q.tail (front fs) xs rest in
      let apart : (q.tail == p) ≡ false =
        ground (arith, is.distinct.0, has-append p ps (q.tail ∷ fs)) in
      let (off_ps, off_t, off_fs) = head_apart p ps q.tail fs is.distinct.0 in
      let (t_ps, t_fs) = apart_front ps q.tail fs is.distinct.1 in
      let blk : Block T = record {
        next = some (first ps q.tail);
        values = set_slot b none u.v;
        begin = b + 1;
        end = block_cap;
      } in
      let blk1 : Block T = record {
        next = front fs;
        values = set_slot b none u.v;
        begin = 0;
        end = 0;
      } in
      let last : Block T = record {
        next = some p;
        values = tail.v;
        begin = tail.tb;
        end = tail.e;
      } in
      let h1 : Heap T = store p blk q.heap in
      let h2 : Heap T = store p blk1 h1 in
      let same : (l : List Address)
          → has q.tail l ≡ false
          → has p l ≡ false
          → SameOn l q.heap (store q.tail last h2) =
        λ l t_out p_out a i.
          spared h2 last l q.tail t_out a i
          ∙ spared h1 blk1 l p p_out a i
          ∙ spared q.heap blk l p p_out a i in
      let shift = append_assoc ps (q.tail ∷ []) in
      rw (is.head, u.block, some_left, inside, counted, ends, apart, tail.block, u.slots.0)
        (returns (
          refl,
          inr (
            p,
            ps,
            refl,
            record {
              head = refl;
              begin = 0;
              used =
                  tail.relink (store q.tail last h2) (some p) (same ps t_ps off_ps)
                    (stored h2 last q.tail);
              free = (
                (
                  set_slot b none u.v,
                  spared h2 last (p ∷ []) q.tail (ground arith) p (ground (arith, ==_self p))
                      ∙ stored h1 blk1 p,
                ),
                Free-frame q.heap _ fs (same fs t_fs off_fs) is.free,
              );
              distinct = subst Distinct (shift (p ∷ fs)) (
                  Distinct-insert p (ps ++ q.tail ∷ []) fs
                    (subst (λ l. has p l ≡ false) (sym (shift fs)) is.distinct.0)
                    (subst Distinct (sym (shift fs)) is.distinct.1));
              below = subst (All (λ a. a < q.fresh)) (shift (p ∷ fs)) (
                  All-insert (λ a. a < q.fresh) p (ps ++ q.tail ∷ []) fs is.below.0
                    (subst (All (λ a. a < q.fresh)) (sym (shift fs)) is.below.1));
              count = omega (arith, is.count);
            },
          ),
        ))

  -- `pop_unchecked` on a queue whose blocks hold a value `x` and then `xs` returns `x`, and the
  -- blocks then hold `xs`; so no assertion fails, no slot is read that holds no value, and all
  -- blocks stay in the queue: they stand where they stood, or the first one, read to its end, now
  -- stands right behind the tail, ahead of the blocks to reuse.
  pub pop_unchecked-IsQueue :
      (x : T) (q : Queue T) (ps fs : List Address) (xs : List T)
      → IsQueue q ps fs (x ∷ xs)
      → Returns (Popped ps fs x xs) (pop_unchecked q)
  pop_unchecked-IsQueue x q [] fs xs is = pop-single x q fs xs is
  pop_unchecked-IsQueue x q (p ∷ ps) fs xs is = from_head is.used
    where
      from_head :
          Used q.heap is.begin (p ∷ ps) q.tail (front fs) (x ∷ xs)
          → Returns (Popped (p ∷ ps) fs x xs) (pop_unchecked q)
      from_head ([], zs, split, full, rest) = absurd (omega (arith, full.filled, full.busy))
      from_head (y ∷ [], zs, split, full, rest) =
          let same : y ≡ x = cc in
          let others : zs ≡ xs = cc in
          pop-recycles x q p ps fs xs is
            (subst (λ a. IsFull q.heap is.begin p (first ps q.tail) (a ∷ [])) same full)
            (subst (Used q.heap 0 ps q.tail (front fs)) others rest) (ground (arith, full.filled))
      from_head (y ∷ z ∷ ys, zs, split, full, rest) =
          let same : y ≡ x = cc in
          let others : xs ≡ (z ∷ ys) ++ zs = cc in
          pop-inside x q p ps fs xs (z ∷ ys) zs is
            (subst (λ a. IsFull q.heap is.begin p (first ps q.tail) (a ∷ z ∷ ys)) same full) rest
            others (ground (arith, full.filled))

  -- The queue after, wherever its blocks stand
  pub pop_unchecked-holds :
      (x : T) (q : Queue T) (ps fs : List Address) (xs : List T)
      → IsQueue q ps fs (x ∷ xs)
      → Returns
          (λ (v, u). (v ≡ x) × ((ls : List Address) × (gs : List Address) × IsQueue u ls gs xs))
          (pop_unchecked q)
  pop_unchecked-holds x q ps fs xs is =
      Returns-mono (pop_unchecked-IsQueue x q ps fs xs is) λ (v, u) (e, after).
        (e, elim after [ inl h ↦ (ps, fs, h) | inr (p, rest, split, h) ↦ (rest, p ∷ fs, h) ])
