-- ===== src/OnceCell/Init.antt =====
-- src/once_cell.rs: the futures of `get_or_try_init` and `get_or_init` as state machines. The waiter of
-- a task lives at the address `p`; `answer` is what the future that `f` returned answers when it is
-- polled within this poll.
use local_sync.Prelude.{
  ℕ, not, if◌then◌else◌, Outcome, done, panic, ◌>>=◌, ◌>>◌, assert, Result, ok, err,
}
use local_sync.LinkedList.{Ptr}
use local_sync.WakeList.{Waker}
use local_sync.Semaphore.Inner.{Inner}
use local_sync.Semaphore.Acquire
use local_sync.Semaphore.Acquire.{AcquireError, Poll, ready, pending}
use local_sync.Semaphore.Public
use local_sync.Semaphore.Public.{SemaphorePermit, AcquireResult}
use local_sync.OnceCell.{OnceCell, initialized, get_unchecked, set_value}

-- Where a task stands: not polled yet, in `acquire().await`, in `f().await` with the permit, or done.
pub data Task : Type 0 where
  starting : Task
  acquiring : AcquireResult → Task
  running : SemaphorePermit → Task
  finished : Task

-- What a poll hands back: its result, the task, and the cell.
abbrev pub Polled {ℓ κ} : Type κ → Type ℓ → Type (ℓ ⊔ κ)
Polled A T = Poll A × Task × OnceCell T

module _ {ℓ κ} {T : Type ℓ} {E : Type κ} where
  -- `get_or_try_init`
  -- `f().await`, and what follows
  unfoldable pub try_value :
      ℕ → Poll (Result E T) → SemaphorePermit → OnceCell T → Outcome (Polled (Result E T) T)
  unfolding set_value
  try_value fuel pending permit c = done (pending, running permit, c)
  try_value fuel (ready (ok value)) permit c =
      set_value fuel value permit c >>= λ (v, c1). done (ready (ok v), finished, c1)
  try_value fuel (ready (err e)) permit c = Public.drop_permit fuel permit c.semaphore >>= λ s.
      done (ready (err e), finished, record c { semaphore = s })

  -- After a poll of the future `r`, which is dropped when it is ready
  unfoldable pub try_acquired :
      ℕ
      → Ptr
      → Poll (Result E T)
      → OnceCell T
      → Poll (Result AcquireError SemaphorePermit) × AcquireResult × Inner
      → Outcome (Polled (Result E T) T)
  unfolding try_value
  try_acquired fuel p answer c (pending, r, s) =
      done (pending, acquiring r, record c { semaphore = s })
  try_acquired fuel p answer c (ready (ok permit), r, s) = Acquire.drop fuel p r.acquire s >>= λ t.
      let c1 = record c { semaphore = t } in
      assert (not (initialized c1)) >> try_value fuel answer permit c1
  try_acquired fuel p answer c (ready (err e), r, s) = Acquire.drop fuel p r.acquire s >>= λ t.
      let c1 = record c { semaphore = t } in
      assert (initialized c1) >> (get_unchecked c1 >>= λ v. done (ready (ok v), finished, c1))

  unfoldable pub try_acquire_permit :
      ℕ
      → Waker
      → Ptr
      → Poll (Result E T)
      → AcquireResult
      → OnceCell T
      → Outcome (Polled (Result E T) T)
  unfolding try_acquired
  try_acquire_permit fuel cx p answer r c =
      Public.poll_result fuel cx p r c.semaphore >>= λ polled. try_acquired fuel p answer c polled

  -- A poll of the future; one that is done panics.
  unfoldable pub poll_try_init :
      ℕ → Waker → Ptr → Poll (Result E T) → Task → OnceCell T → Outcome (Polled (Result E T) T)
  unfolding try_acquire_permit try_value
  poll_try_init fuel cx p answer starting c =
      if initialized c
      then (get_unchecked c >>= λ v. done (ready (ok v), finished, c))
      else (let (r, s) = Public.acquire p c.semaphore in
          try_acquire_permit fuel cx p answer r (record c { semaphore = s }))
  poll_try_init fuel cx p answer (acquiring r) c = try_acquire_permit fuel cx p answer r c
  poll_try_init fuel cx p answer (running permit) c = try_value fuel answer permit c
  poll_try_init fuel cx p answer finished c = panic

module _ {ℓ} {T : Type ℓ} where
  -- `get_or_init`
  unfoldable pub init_value : ℕ → Poll T → SemaphorePermit → OnceCell T → Outcome (Polled T T)
  unfolding set_value
  init_value fuel pending permit c = done (pending, running permit, c)
  init_value fuel (ready value) permit c =
      set_value fuel value permit c >>= λ (v, c1). done (ready v, finished, c1)

  unfoldable pub init_acquired :
      ℕ
      → Ptr
      → Poll T
      → OnceCell T
      → Poll (Result AcquireError SemaphorePermit) × AcquireResult × Inner
      → Outcome (Polled T T)
  unfolding init_value
  init_acquired fuel p answer c (pending, r, s) =
      done (pending, acquiring r, record c { semaphore = s })
  init_acquired fuel p answer c (ready (ok permit), r, s) = Acquire.drop fuel p r.acquire s >>= λ t.
      let c1 = record c { semaphore = t } in
      assert (not (initialized c1)) >> init_value fuel answer permit c1
  init_acquired fuel p answer c (ready (err e), r, s) = Acquire.drop fuel p r.acquire s >>= λ t.
      let c1 = record c { semaphore = t } in
      assert (initialized c1) >> (get_unchecked c1 >>= λ v. done (ready v, finished, c1))

  unfoldable pub init_acquire_permit :
      ℕ → Waker → Ptr → Poll T → AcquireResult → OnceCell T → Outcome (Polled T T)
  unfolding init_acquired
  init_acquire_permit fuel cx p answer r c =
      Public.poll_result fuel cx p r c.semaphore >>= λ polled. init_acquired fuel p answer c polled

  unfoldable pub poll_init : ℕ → Waker → Ptr → Poll T → Task → OnceCell T → Outcome (Polled T T)
  unfolding init_acquire_permit init_value
  poll_init fuel cx p answer starting c =
      if initialized c
      then (get_unchecked c >>= λ v. done (ready v, finished, c))
      else (let (r, s) = Public.acquire p c.semaphore in
          init_acquire_permit fuel cx p answer r (record c { semaphore = s }))
  poll_init fuel cx p answer (acquiring r) c = init_acquire_permit fuel cx p answer r c
  poll_init fuel cx p answer (running permit) c = init_value fuel answer permit c
  poll_init fuel cx p answer finished c = panic

  -- A task that is dropped before it is done drops the future that it awaits, or its permit.
  unfoldable pub drop_task : ℕ → Ptr → Task → OnceCell T → Outcome (OnceCell T)
  drop_task fuel p starting c = done c
  drop_task fuel p (acquiring r) c =
      Acquire.drop fuel p r.acquire c.semaphore >>= λ s. done (record c { semaphore = s })
  drop_task fuel p (running permit) c =
      Public.drop_permit fuel permit c.semaphore >>= λ s. done (record c { semaphore = s })
  drop_task fuel p finished c = done c
