-- ===== src/Mpsc/Fresh.antt =====
-- src/mpsc/block.rs: which addresses the blocks have, so that a loop over all blocks ends.
use local_sync.Prelude.{
  ℕ, none, ◌-◌, zero, suc, ◌+◌, ◌≤◌, ◌≡◌, refl, ◌∙◌, List, [], ◌∷◌, ◌++◌, arith, length, ◌==◌,
  Bool-cases, inl, inr, not, ltb, unwrap, assert, assume_init, Returns, returns, Returns-bind,
  Ensures, Ensures-bind, Ensures-next, Ensures-if, yields, stops, Returns-Ensures,
}
use local_sync.Prelude.Members.{few_below}
use local_sync.Mpsc.Block
use local_sync.Mpsc.Block.{
  Address, Block, Queue, set_slot, load, store, reset, block_is_empty, block_cap, pop_unchecked,
  recycle, free_blocks,
}
use local_sync.Mpsc.Drain.{free_blocks-Freed}
use local_sync.Mpsc.Chan.{Chan, drain, drop_chan}
use local_sync.Mpsc.Order.{Holds, drain-Holds}

module _ {ℓ} {T : Type ℓ} where
  -- Only a push allocates.
  recycle-fresh :
      (p : Address) (blk : Block T) (q : Queue T)
      → Ensures (λ u. u.fresh ≡ q.fresh) (recycle p blk q)
  unfolding recycle
  recycle-fresh p blk q = Ensures-next (unwrap blk.next) λ next. Ensures-next (load q.tail q) λ t.
      Ensures-next
        (load q.tail (record q { heap = store p (record (reset blk) { next = t.next }) q.heap }))
        λ t2. yields refl

  pop_unchecked-fresh : (q : Queue T) → Ensures (λ (v, u). u.fresh ≡ q.fresh) (pop_unchecked q)
  unfolding pop_unchecked
  pop_unchecked-fresh q = Ensures-next (load q.head q) λ b.
      Ensures-next (assert (not (block_is_empty b))) λ _.
        Ensures-next (assert (ltb b.begin block_cap)) λ _. Ensures-next (assert (ltb 0 q.len)) λ _.
          let blk : Block T = record b {
            begin = b.begin + 1;
            values = set_slot b.begin none b.values;
          } in
          let q1 : Queue T = record q { heap = store q.head blk q.heap; len = q.len - 1 } in
          Ensures-bind {P = λ u. u.fresh ≡ q.fresh}
            (Ensures-if (blk.begin == block_cap) (recycle-fresh q.head blk q1)
              (yields {a = q1} refl))
            λ u e. Ensures-next (assume_init (b.values b.begin)) λ v. yields e

  pub drain-fresh : (fuel : ℕ) (q : Queue T) → Ensures (λ (v, u). u.fresh ≡ q.fresh) (drain fuel q)
  unfolding drain
  drain-fresh zero q = Ensures-if (Block.is_empty q) (yields refl) stops
  drain-fresh (suc fuel) q = elim (Bool-cases (Block.is_empty q)) [
    | inl e ↦ rw (e, drain) (yields refl)
    | inr ne ↦
        rw (ne, drain)
          (Ensures-bind (pop_unchecked-fresh q)
            λ (v, q1) e. Ensures-bind (drain-fresh fuel q1) λ (vs, q2) e2. yields (e2 ∙ e))
  ]

  -- `Drop for Chan` on a queue that holds `xs`
  pub drop_chan-lost {κ} :
      {S : Type κ} (fuel blocks : ℕ) (c : Chan T S) (xs : List T)
      → Holds c.queue xs
      → length xs ≤ fuel
      → c.queue.fresh ≤ blocks
      → Returns (λ (vals, d). vals ≡ xs) (drop_chan fuel blocks c)
  unfolding drop_chan
  drop_chan-lost fuel blocks c xs h enough room =
      Returns-bind
        (Returns-Ensures (drain-Holds fuel c.queue xs h enough) (drain-fresh fuel c.queue))
        λ (vals, q) ((e, (ps, fs, is)), same).
          Returns-bind
            (free_blocks-Freed blocks q ps fs [] is (
              omega
                (arith, few_below q.fresh (ps ++ q.tail ∷ fs) is.distinct is.below, same, room)))
            λ u f. returns e
