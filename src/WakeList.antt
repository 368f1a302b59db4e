-- ===== src/WakeList.antt =====
-- src/wake_list.rs: the batch of at most 32 wakers that `add_permits` collects.
-- A `Waker` is the name of the task that it wakes; to wake it is to append it to a log.
use local_sync.Prelude.{
  ℕ, zero, suc, ◌+◌, ◌≤◌, ◌<◌, ◌≡◌, Bool, Option, none, some, List, [], ◌∷◌, ◌++◌, ◌==◌, ltb, leb,
  if◌then◌else◌, Outcome, done, panic, ◌>>=◌, ◌>>◌, assert, assume_init,
}
pub mod Wakes

abbrev pub Waker : Type 0
Waker = ℕ

abbrev pub num_wakers : ℕ
num_wakers = 32

-- `inner` is the array of `MaybeUninit` slots: `none` is a slot that was never written.
pub record WakeList : Type 0 where
  pub inner : ℕ → Option Waker
  pub curr : ℕ

unfoldable pub new : WakeList
new = record { inner = λ _. none; curr = 0 }

unfoldable pub can_push : WakeList → Bool
can_push l = ltb l.curr num_wakers

abbrev store : ℕ → Waker → (ℕ → Option Waker) → ℕ → Option Waker
store i w f j = if j == i then some w else f j

-- The second assertion is the bounds check of the indexing.
unfoldable pub push : WakeList → Waker → Outcome WakeList
unfolding can_push
push l w = do
  assert (can_push l)
  assert (ltb l.curr num_wakers)
  done (record { inner = store l.curr w l.inner; curr = l.curr + 1 })

-- The loop of `wake_all`, over the value of `curr`.
wake_loop : ℕ → (ℕ → Option Waker) → List Waker → Outcome (List Waker)
wake_loop zero inner log = done log
wake_loop (suc i) inner log = do w ← assume_init (inner i); wake_loop i inner (log ++ w ∷ [])

unfoldable pub wake_all : WakeList → List Waker → Outcome (WakeList × List Waker)
unfolding wake_loop
wake_all l log = do
  assert (leb l.curr num_wakers)
  log' ← wake_loop l.curr l.inner log
  done (record l { curr = 0 }, log')

-- `drop_in_place` of the first `n` slots, in order: the wakers that are dropped.
drop_loop : ℕ → (ℕ → Option Waker) → Outcome (List Waker)
drop_loop zero inner = done []
drop_loop (suc i) inner = do
  rest ← drop_loop i inner
  w ← assume_init (inner i)
  done (rest ++ w ∷ [])

unfoldable pub drop : WakeList → Outcome (List Waker)
unfolding drop_loop
drop l = drop_loop l.curr l.inner
