-- ===== src/Semaphore/Public.antt =====
-- src/semaphore.rs: the public `Semaphore` and its permits. A permit's reference to its semaphore is
-- the state that its operations take.
use local_sync.Prelude.{ℕ, Bool, Outcome, done, ◌>>=◌, Result, ok, err}
use local_sync.LinkedList.{Ptr, Links}
use local_sync.WakeList.{Waker}
use local_sync.Semaphore.Inner
use local_sync.Semaphore.Inner.{Inner, Waiter, TryAcquireError}
use local_sync.Semaphore.Release.{release}
use local_sync.Semaphore.Acquire
use local_sync.Semaphore.Acquire.{Acquire, AcquireError, Poll, ready, pending}

pub record SemaphorePermit : Type 0 where
  pub permits : ℕ

pub record OwnedSemaphorePermit : Type 0 where
  pub permits : ℕ

-- `AcquireResult(acquire, semaphore, permits)`
pub record AcquireResult : Type 0 where
  pub acquire : Acquire
  pub permits : ℕ

unfoldable pub new : (Ptr → Waiter) → Links → ℕ → Inner
new nodes links permits = Inner.new nodes links permits

unfoldable pub available_permits : Inner → ℕ
available_permits s = Inner.available_permits s

unfoldable pub add_permits : ℕ → ℕ → Inner → Outcome Inner
add_permits fuel n s = release fuel n s

unfoldable pub acquire_many : ℕ → Ptr → Inner → AcquireResult × Inner
acquire_many n p s = let (a, t) = Acquire.new n p s in (record { acquire = a; permits = n }, t)

unfoldable pub acquire : Ptr → Inner → AcquireResult × Inner
acquire p s = let (a, t) = Acquire.new 1 p s in (record { acquire = a; permits = 1 }, t)

-- `ready!(..)?`, and the permit
abbrev pub permit_of :
    ℕ → Poll (Result AcquireError (Unit {0})) → Poll (Result AcquireError SemaphorePermit)
permit_of n pending = pending
permit_of n (ready (err e)) = ready (err e)
permit_of n (ready (ok u)) = ready (ok (record { permits = n }))

-- `Future::poll` for `AcquireResult`
unfoldable pub poll_result :
    ℕ
    → Waker
    → Ptr
    → AcquireResult
    → Inner
    → Outcome (Poll (Result AcquireError SemaphorePermit) × AcquireResult × Inner)
poll_result fuel cx p r s = do
  ((polled, t), a) ← Acquire.poll fuel cx p r.acquire s
  done (permit_of r.permits polled, record r { acquire = a }, t)

abbrev pub granted_permit :
    ℕ → Result TryAcquireError (Unit {0}) × Inner → Result TryAcquireError SemaphorePermit × Inner
granted_permit n (ok u, s) = (ok (record { permits = n }), s)
granted_permit n (err e, s) = (err e, s)

unfoldable pub try_acquire_many :
    ℕ → Inner → Outcome (Result TryAcquireError SemaphorePermit × Inner)
try_acquire_many n s = do r ← Inner.try_acquire n s; done (granted_permit n r)

unfoldable pub try_acquire : Inner → Outcome (Result TryAcquireError SemaphorePermit × Inner)
try_acquire s = do r ← Inner.try_acquire 1 s; done (granted_permit 1 r)

abbrev pub granted_owned :
    ℕ
    → Result TryAcquireError (Unit {0}) × Inner
    → Result TryAcquireError OwnedSemaphorePermit × Inner
granted_owned n (ok u, s) = (ok (record { permits = n }), s)
granted_owned n (err e, s) = (err e, s)

unfoldable pub try_acquire_many_owned :
    ℕ → Inner → Outcome (Result TryAcquireError OwnedSemaphorePermit × Inner)
try_acquire_many_owned n s = do r ← Inner.try_acquire n s; done (granted_owned n r)

unfoldable pub try_acquire_owned :
    Inner → Outcome (Result TryAcquireError OwnedSemaphorePermit × Inner)
try_acquire_owned s = do r ← Inner.try_acquire 1 s; done (granted_owned 1 r)

unfoldable pub close : ℕ → Inner → Outcome Inner
close fuel s = Inner.close fuel s

unfoldable pub is_closed : Inner → Bool
is_closed s = Inner.is_closed s

-- `Drop for SemaphorePermit` and for `OwnedSemaphorePermit`
unfoldable pub drop_permit : ℕ → SemaphorePermit → Inner → Outcome Inner
unfolding add_permits
drop_permit fuel p s = add_permits fuel p.permits s

unfoldable pub drop_owned : ℕ → OwnedSemaphorePermit → Inner → Outcome Inner
unfolding add_permits
drop_owned fuel p s = add_permits fuel p.permits s

-- `forget` takes the permit, whose `Drop` then runs.
unfoldable pub forget : ℕ → SemaphorePermit → Inner → Outcome Inner
unfolding drop_permit
forget fuel p s = drop_permit fuel (record p { permits = 0 }) s

unfoldable pub forget_owned : ℕ → OwnedSemaphorePermit → Inner → Outcome Inner
unfolding drop_owned
forget_owned fuel p s = drop_owned fuel (record p { permits = 0 }) s
