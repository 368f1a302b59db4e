-- ===== src/Tests/Blocks.antt =====
-- The theorems on src/mpsc/block.rs at concrete queues.
use local_sync.Prelude.{ℕ, refl, none, some, List, [], ◌∷◌, arith, ◌==◌, if◌then◌else◌, Returns}
use local_sync.Mpsc.Block.{Address, Queue, push_unchecked, pop_unchecked, free_blocks}
use local_sync.Mpsc.Layout.{IsQueue}
use local_sync.Mpsc.Push.{push_unchecked-IsQueue}
use local_sync.Mpsc.Pop.{Popped, pop_unchecked-IsQueue}
use local_sync.Mpsc.Drain.{Freed, free_blocks-Freed}

-- The block at 1 is written to the end, and all but its last slot is read; the next one holds one value.
abbrev two_blocks : Queue ℕ
two_blocks = record {
  head = 1;
  tail = 2;
  len = 2;
  heap = λ a.
      if a == 1
      then some (record {
        next = some 2;
        values = λ i. if i == 31 then some 7 else none;
        begin = 31;
        end = 32;
      })
      else if a == 2
      then some (record {
        next = none;
        values = λ i. if i == 0 then some 9 else none;
        begin = 0;
        end = 1;
      })
      else none;
  fresh = 3;
}

two_blocks-IsQueue : IsQueue two_blocks (1 ∷ []) [] (7 ∷ 9 ∷ [])
two_blocks-IsQueue = record {
  head = refl;
  begin = 31;
  used = (
    7 ∷ [],
    9 ∷ [],
    refl,
    record { v = _; block = refl; slots = (refl, tt); filled = refl; busy = omega arith },
    record { v = _; block = refl; slots = (refl, tt); room = omega arith },
  );
  free = tt;
  distinct = (refl, (refl, tt));
  below = (omega arith, (omega arith, tt));
  count = refl;
}

-- One slot is left to write in the only block.
abbrev nearly_full : Queue ℕ
nearly_full = record {
  head = 1;
  tail = 1;
  len = 1;
  heap = λ a.
      if a == 1
      then some (record {
        next = none;
        values = λ i. if i == 30 then some 7 else none;
        begin = 30;
        end = 31;
      })
      else none;
  fresh = 2;
}

nearly_full-IsQueue : IsQueue nearly_full [] [] (7 ∷ [])
nearly_full-IsQueue = record {
  head = refl;
  begin = 30;
  used = record { v = _; block = refl; slots = (refl, tt); room = omega arith };
  free = tt;
  distinct = (refl, tt);
  below = (omega arith, tt);
  count = refl;
}

push_unchecked-IsQueue_example :
    Returns
      (λ u. (ps : List Address) × (fs : List Address) × IsQueue u ps fs (7 ∷ 8 ∷ []))
      (push_unchecked 8 nearly_full)
push_unchecked-IsQueue_example =
    push_unchecked-IsQueue 8 nearly_full [] (7 ∷ []) [] nearly_full-IsQueue

pop_unchecked-IsQueue_example : Returns (Popped (1 ∷ []) [] 7 (9 ∷ [])) (pop_unchecked two_blocks)
pop_unchecked-IsQueue_example =
    pop_unchecked-IsQueue 7 two_blocks (1 ∷ []) [] (9 ∷ []) two_blocks-IsQueue

free_blocks-Freed_example : Returns (Freed two_blocks (1 ∷ 2 ∷ [])) (free_blocks 2 two_blocks)
free_blocks-Freed_example =
    free_blocks-Freed 2 two_blocks (1 ∷ []) [] (7 ∷ 9 ∷ []) two_blocks-IsQueue (omega arith)
