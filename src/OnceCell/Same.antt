-- ===== src/OnceCell/Same.antt =====
-- src/once_cell.rs: `get_or_init` against `get_or_try_init`.
use local_sync.Prelude.{
  ℕ, ◌≡◌, refl, true, false, not, Bool, Outcome, done, panic, fault, out_of_fuel, ◌>>=◌, ◌>>◌,
  if◌then◌else◌, assert, Result, ok, err,
}
use local_sync.LinkedList.{Ptr}
use local_sync.WakeList.{Waker}
use local_sync.Semaphore.Inner.{Inner}
use local_sync.Semaphore.Acquire
use local_sync.Semaphore.Acquire.{AcquireError, Poll, ready, pending}
use local_sync.Semaphore.Public
use local_sync.Semaphore.Public.{SemaphorePermit, AcquireResult}
use local_sync.OnceCell.{OnceCell, initialized, get_unchecked, set_value}
use local_sync.OnceCell.Init.{
  Task, starting, acquiring, running, finished, Polled, try_value, try_acquired, try_acquire_permit,
  poll_try_init, init_value, init_acquired, init_acquire_permit, poll_init,
}

module _ {ℓ κ} {T : Type ℓ} (E : Type κ) where
  -- An answer without an error
  abbrev pub ok_poll : Poll T → Poll (Result E T)
  ok_poll pending = pending
  ok_poll (ready v) = ready (ok v)

  abbrev pub ok_result : Polled T T → Polled (Result E T) T
  ok_result (r, task, c) = (ok_poll r, task, c)

  unfoldable pub ok_run : Outcome (Polled T T) → Outcome (Polled (Result E T) T)
  ok_run m = m >>= λ r. done (ok_result r)

  bind_same {μ} :
      {A : Type μ} (m : Outcome A) (f : A → Outcome (Polled T T))
      (g : A → Outcome (Polled (Result E T) T))
      → ((a : A) → ok_run (f a) ≡ g a)
      → ok_run (m >>= f) ≡ (m >>= g)
  unfolding ok_run
  bind_same (done a) f g same = same a
  bind_same panic f g same = refl
  bind_same fault f g same = refl
  bind_same out_of_fuel f g same = refl

  assert_same :
      (b : Bool) (m : Outcome (Polled T T)) (k : Outcome (Polled (Result E T) T))
      → ok_run m ≡ k
      → ok_run (assert b >> m) ≡ (assert b >> k)
  unfolding ok_run
  assert_same true m k same = same
  assert_same false m k same = refl

  if_same :
      (b : Bool) (m n : Outcome (Polled T T)) (k l : Outcome (Polled (Result E T) T))
      → ok_run m ≡ k
      → ok_run n ≡ l
      → ok_run (if b then m else n) ≡ (if b then k else l)
  unfolding ok_run
  if_same true m n k l left right = left
  if_same false m n k l left right = right

  value_same :
      (fuel : ℕ) (answer : Poll T) (permit : SemaphorePermit) (c : OnceCell T)
      → ok_run (init_value fuel answer permit c) ≡ try_value fuel (ok_poll answer) permit c
  unfolding ok_run init_value try_value
  value_same fuel pending permit c = refl
  value_same fuel (ready value) permit c = bind_same (set_value fuel value permit c) _ _ λ r. refl

  read_same :
      (c : OnceCell T)
      → ok_run (get_unchecked c >>= λ v. done (ready v, finished, c))
        ≡ (get_unchecked c >>= λ v. done (ready (ok v), finished, c))
  unfolding ok_run
  read_same c = bind_same (get_unchecked c) (λ v. done (ready v, finished, c)) _ λ v. refl

  acquired_same :
      (fuel : ℕ) (p : Ptr) (answer : Poll T) (c : OnceCell T)
      (polled : Poll (Result AcquireError SemaphorePermit) × AcquireResult × Inner)
      → ok_run (init_acquired fuel p answer c polled)
        ≡ try_acquired fuel p (ok_poll answer) c polled
  unfolding ok_run init_acquired try_acquired
  acquired_same fuel p answer c (pending, r, s) = refl
  acquired_same fuel p answer c (ready (ok permit), r, s) =
      bind_same (Acquire.drop fuel p r.acquire s) _ _ λ t.
        assert_same (not (initialized c)) _ _
          (value_same fuel answer permit (record c { semaphore = t }))
  acquired_same fuel p answer c (ready (err e), r, s) =
      bind_same (Acquire.drop fuel p r.acquire s) _ _
        λ t. assert_same (initialized c) _ _ (read_same (record c { semaphore = t }))

  permit_same :
      (fuel : ℕ) (cx : Waker) (p : Ptr) (answer : Poll T) (r : AcquireResult) (c : OnceCell T)
      → ok_run (init_acquire_permit fuel cx p answer r c)
        ≡ try_acquire_permit fuel cx p (ok_poll answer) r c
  unfolding init_acquire_permit try_acquire_permit
  permit_same fuel cx p answer r c =
      bind_same (Public.poll_result fuel cx p r c.semaphore) _ _
        λ polled. acquired_same fuel p answer c polled

  -- A poll of `get_or_init` does what a poll of `get_or_try_init` does when the initializer answers
  -- the same without an error, at every place of the task and on every cell: the same panics and
  -- faults, the same task and cell, and the same answer.
  pub poll_init-poll_try_init :
      (fuel : ℕ) (cx : Waker) (p : Ptr) (answer : Poll T) (task : Task) (c : OnceCell T)
      → ok_run (poll_init fuel cx p answer task c) ≡ poll_try_init fuel cx p (ok_poll answer) task c
  unfolding ok_run poll_init poll_try_init
  poll_init-poll_try_init fuel cx p answer starting c =
      let (r, s) = Public.acquire p c.semaphore in
      if_same (initialized c) _ _ _ _ (read_same c)
        (permit_same fuel cx p answer r (record c { semaphore = s }))
  poll_init-poll_try_init fuel cx p answer (acquiring r) c = permit_same fuel cx p answer r c
  poll_init-poll_try_init fuel cx p answer (running permit) c = value_same fuel answer permit c
  poll_init-poll_try_init fuel cx p answer finished c = refl
