-- ===== src/Mpsc/Push.antt =====
-- The theorem on `push_unchecked` of src/mpsc/block.rs, by whether the block at the tail is full
-- then.
use local_sync.Prelude.{
  ◌+◌, ◌<◌, ◌≡◌, refl, sym, ◌∙◌, subst, inl, inr, Option, none, some, List, [], ◌∷◌, ◌++◌,
  append_assoc, arith, ==_self, ltb, lt→ltb, Bool-cases, length-append, has, has-append, Distinct,
  Distinct-split, Distinct-insert, All, append-nil, false, Returns, returns,
}
use local_sync.Mpsc.Block
use local_sync.Mpsc.Block.{
  Address, Block, Queue, block_cap, store, set_slot, new_block, push_unchecked,
}
use local_sync.Mpsc.Layout.{IsQueue, Free-frame, Used-Growth, spared, front, first}

-- An address above all others is not among them.
below_apart : (n : Address) (l : List Address) → All (λ a. a < n) l → has n l ≡ false
below_apart n [] h = refl
below_apart n (x ∷ l) h = ground (arith, below_apart n l h.1, h.0)

below_snoc :
    (n : Address) (l : List Address) → All (λ a. a < n) l → All (λ a. a < n + 1) (l ++ n ∷ [])
below_snoc n [] h = (omega arith, tt)
below_snoc n (x ∷ l) h = (omega (arith, h.0), below_snoc n l h.1)

first_snoc : (l : List Address) (a c : Address) → first l a ≡ first (l ++ a ∷ []) c
first_snoc [] a c = refl
first_snoc (d ∷ l) a c = refl

-- The parts of a queue do not overlap.
pub apart_front :
    (ps : List Address) (t : Address) (fs : List Address)
    → Distinct (ps ++ t ∷ fs)
    → (has t ps ≡ false) × (has t fs ≡ false)
apart_front ps t fs d =
    let (l, r, apart) = Distinct-split ps (t ∷ fs) d in (ground (arith, apart t, ==_self t), r.0)

module _ {ℓ} {T : Type ℓ} (x : T) (q : Queue T) (ps : List Address) (xs : List T) where
  abbrev Pushed : Queue T → Type ℓ
  Pushed u = (ps' : List Address) × (fs' : List Address) × IsQueue u ps' fs' (xs ++ x ∷ [])

  -- The write filled the block at the tail, so the tail moves: to a block to reuse, or to a new one.
  moved :
      (fs : List Address) (is : IsQueue q ps fs xs)
      → let g = Used-Growth q.heap is.begin ps q.tail (front fs) xs x is.used in
        let blk : Block T = record {
          next = front fs;
          values = set_slot g.e (some x) g.v;
          begin = g.tb;
          end = g.e + 1;
        } in
        g.e + 1 ≡ block_cap
        → Pushed (
            Block.advance
              (front fs)
              blk
              (record q { heap = store q.tail blk q.heap; len = q.len + 1 }))
  moved [] is full =
      let g = Used-Growth q.heap is.begin ps q.tail none xs x is.used in
      let (out, off) = apart_front ps q.tail [] is.distinct in
      let new_one = below_apart q.fresh (ps ++ q.tail ∷ []) is.below in
      let both = has-append q.fresh ps (q.tail ∷ []) in
      let blk : Block T = record {
        next = none;
        values = set_slot g.e (some x) g.v;
        begin = g.tb;
        end = g.e + 1;
      } in
      let mid : Address → Option (Block T) =
        store q.fresh Block.new_block (store q.tail blk q.heap) in
      let mid_new : mid q.fresh ≡ some Block.new_block = ground (arith, ==_self q.fresh) in
      (
        ps ++ q.tail ∷ [],
        [],
        record {
          head = is.head ∙ first_snoc ps q.tail q.fresh;
          begin = is.begin;
          used =
              g.extend _ q.fresh none (λ _. none)
                (λ a i.
                  spared mid (record blk { next = some q.fresh }) ps q.tail out a i
                  ∙ spared (store q.tail blk q.heap) Block.new_block ps q.fresh
                      (ground (arith, new_one, both)) a i
                  ∙ spared q.heap blk ps q.tail out a i)
                (ground (arith, ==_self q.tail)) full
                (spared mid (record blk { next = some q.fresh }) (q.fresh ∷ []) q.tail
                    (ground (arith, new_one, both)) q.fresh (ground (arith, ==_self q.fresh))
                  ∙ mid_new);
          free = tt;
          distinct =
              Distinct-insert q.fresh (ps ++ q.tail ∷ []) [] (rw append-nil new_one)
                (rw append-nil is.distinct);
          below = below_snoc q.fresh (ps ++ q.tail ∷ []) is.below;
          count = omega (arith, is.count, length-append xs (x ∷ []));
        },
      )
  moved (f ∷ fs) is full =
      let g = Used-Growth q.heap is.begin ps q.tail (some f) xs x is.used in
      let (out, off) = apart_front ps q.tail (f ∷ fs) is.distinct in
      let ((v, e), rest) = is.free in
      let regroup = append_assoc ps (q.tail ∷ []) (f ∷ fs) in
      (
        ps ++ q.tail ∷ [],
        fs,
        record {
          head = is.head ∙ first_snoc ps q.tail f;
          begin = is.begin;
          used =
              g.extend _ f (front fs) v (spared q.heap _ ps q.tail out)
                (ground (arith, ==_self q.tail)) full
                (spared q.heap _ (f ∷ fs) q.tail off f (ground (arith, ==_self f)) ∙ e);
          free = Free-frame q.heap _ fs (spared q.heap _ fs q.tail (ground (arith, off))) rest;
          distinct = subst Distinct (sym regroup) is.distinct;
          below = subst (All (λ a. a < q.fresh)) (sym regroup) is.below;
          count = omega (arith, is.count, length-append xs (x ∷ []));
        },
      )

  -- `push_unchecked` on a queue whose blocks hold `xs` returns, and the blocks then hold `xs` and
  -- the new value behind it; the tail has room again, in the same block, in a block to reuse, or in
  -- a new one.
  pub push_unchecked-IsQueue :
      (fs : List Address) → IsQueue q ps fs xs → Returns Pushed (push_unchecked x q)
  unfolding push_unchecked
  push_unchecked-IsQueue fs is =
      let g = Used-Growth q.heap is.begin ps q.tail (front fs) xs x is.used in
      let (out, off) = apart_front ps q.tail fs is.distinct in
      rw (g.block, lt→ltb g.e block_cap g.room)
        (elim (Bool-cases (ltb (g.e + 1) block_cap)) [
          | inl more ↦ rw more (
              returns (
                ps,
                fs,
                record {
                  head = is.head;
                  begin = is.begin;
                  used =
                      g.grow _ (front fs) (spared q.heap _ ps q.tail out)
                        (ground (arith, ==_self q.tail)) (ground arith);
                  free = Free-frame q.heap _ fs (spared q.heap _ fs q.tail off) is.free;
                  distinct = is.distinct;
                  below = is.below;
                  count = omega (arith, is.count, length-append xs (x ∷ []));
                },
              ))
          | inr full ↦ rw full (returns (moved fs is (ground (arith, g.room))))
        ])
