-- ===== src/Mpsc/Block.antt =====
-- src/mpsc/block.rs: the queue of values in linked blocks of 32 slots.
-- A block is named by its address. `heap` holds the blocks that are allocated: to read through a
-- pointer to any other is undefined behaviour. `fresh` is the address that the next `Box::new` gives.
use local_sync.Prelude.{
  ℕ, zero, suc, ◌+◌, ◌-◌, Bool, not, Option, none, some, ◌==◌, ltb, if◌then◌else◌, Outcome, done,
  panic, fault, out_of_fuel, ◌>>=◌, ◌>>◌, assert, assume_init, unwrap,
}

abbrev pub Address : Type 0
Address = ℕ

abbrev pub block_cap : ℕ
block_cap = 32

-- `values`: `none` is a slot that holds no value.
pub record Block {ℓ} (T : Type ℓ) : Type ℓ where
  pub next : Option Address
  pub values : ℕ → Option T
  pub begin : ℕ
  pub end : ℕ

pub record Queue {ℓ} (T : Type ℓ) : Type ℓ where
  pub head : Address
  pub tail : Address
  pub len : ℕ
  pub heap : Address → Option (Block T)
  pub fresh : Address

module _ {ℓ} {T : Type ℓ} where
  -- `Block::new`
  abbrev pub new_block : Block T
  new_block = record { next = none; values = λ _. none; begin = 0; end = 0 }

  unfoldable pub block_len : Block T → Outcome ℕ
  block_len b = if ltb b.end b.begin then panic else done (b.end - b.begin)

  abbrev pub block_is_empty : Block T → Bool
  block_is_empty b = b.end == b.begin

  abbrev pub can_write : Block T → Bool
  can_write b = ltb b.end block_cap

  abbrev pub reset : Block T → Block T
  reset b = record b { next = none; begin = 0; end = 0 }

  abbrev pub set_slot : ℕ → Option T → (ℕ → Option T) → ℕ → Option T
  set_slot i v f j = if j == i then v else f j

  -- a read and a write through a pointer
  abbrev pub found : Option (Block T) → Outcome (Block T)
  found none = fault
  found (some b) = done b

  abbrev pub load : Address → Queue T → Outcome (Block T)
  load p q = found (q.heap p)

  abbrev pub store : Address → Block T → (Address → Option (Block T)) → Address → Option (Block T)
  store p b heap a = if a == p then some b else heap a

  -- `Queue::new`, on a heap with a first free address
  unfoldable pub new : (Address → Option (Block T)) → Address → Queue T
  new heap p = record { head = p; tail = p; len = 0; heap = store p new_block heap; fresh = p + 1 }

  unfoldable pub len : Queue T → ℕ
  len q = q.len

  unfoldable pub is_empty : Queue T → Bool
  is_empty q = q.len == 0

  -- "make sure tail point to a valid block", on the block that was written.
  abbrev pub advance : Option Address → Block T → Queue T → Queue T
  advance (some p) blk q = record q { tail = p }
  advance none blk q = record q {
    tail = q.fresh;
    heap = store q.tail (record blk { next = some q.fresh }) (store q.fresh new_block q.heap);
    fresh = q.fresh + 1;
  }

  -- The assertion is the bounds check of the indexing.
  unfoldable pub push_unchecked : T → Queue T → Outcome (Queue T)
  push_unchecked value q = do
    b ← load q.tail q
    assert (ltb b.end block_cap)
    let blk = record b { end = b.end + 1; values = set_slot b.end (some value) b.values }
    let q1 = record q { heap = store q.tail blk q.heap; len = q.len + 1 }
    if can_write blk then done q1 else done (advance blk.next blk q1)

  -- "Update head of queue", and "Move block to the tail and reset it": `blk` stands at `p`.
  unfoldable pub recycle : Address → Block T → Queue T → Outcome (Queue T)
  recycle p blk q = do
    next ← unwrap blk.next
    let q1 = record q { head = next }
    t ← load q1.tail q1
    let q2 = record q1 { heap = store p (record (reset blk) { next = t.next }) q1.heap }
    t2 ← load q2.tail q2
    done (record q2 { heap = store q2.tail (record t2 { next = some p }) q2.heap })

  -- The assertions: the head block is not empty, the index is in bounds, `len` does not go below zero.
  unfoldable pub pop_unchecked : Queue T → Outcome (T × Queue T)
  unfolding recycle
  pop_unchecked q = do
    b ← load q.head q
    assert (not (block_is_empty b))
    assert (ltb b.begin block_cap)
    let blk = record b { begin = b.begin + 1; values = set_slot b.begin none b.values }
    assert (ltb 0 q.len)
    let q1 = record q { heap = store q.head blk q.heap; len = q.len - 1 }
    q2 ← (if blk.begin == block_cap then recycle q.head blk q1 else done q1)
    value ← assume_init (b.values b.begin)
    done (value, q2)

  -- The loop of `free_blocks`: each block is read, and then freed.
  unfoldable pub free_loop : ℕ → Option Address → Queue T → Outcome (Queue T)
  free_loop fuel none q = done q
  free_loop zero (some p) q = out_of_fuel
  free_loop (suc fuel) (some p) q = do
    b ← load p q
    free_loop fuel b.next (record q { heap = λ a. if a == p then none else q.heap a })

  -- The debug build makes `head` dangle, against a second call: this is left out, and a second call
  -- reads a freed block.
  unfoldable pub free_blocks : ℕ → Queue T → Outcome (Queue T)
  unfolding free_loop
  free_blocks fuel q = free_loop fuel (some q.head) q
