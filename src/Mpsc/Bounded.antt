-- ===== src/Mpsc/Bounded.antt =====
-- src/mpsc/bounded.rs: `channel`, and the future of `send` as a state machine. The waiter of a send lives
-- at the address `p`. The other operations pass the calls on to src/mpsc/chan.rs.
pub mod Runs
pub mod Fits
pub mod Taking
pub mod Flow
pub mod Handover
use local_sync.Prelude.{ℕ, Bool, Option, List, Outcome, done, panic, ◌>>=◌, Result, ok, err}
use local_sync.LinkedList.{Ptr, Links}
use local_sync.WakeList.{Waker}
use local_sync.Semaphore.Inner
use local_sync.Semaphore.Inner.{Inner, Waiter}
use local_sync.Semaphore.Acquire
use local_sync.Semaphore.Acquire.{Acquire, AcquireError, Poll, ready, pending}
use local_sync.Mpsc.Block
use local_sync.Mpsc.Block.{Address}
use local_sync.Mpsc.Chan
use local_sync.Mpsc.Chan.{Chan, SendError, rx_closed, TryRecvError, inner_permits}

-- Where a send stands: not polled yet, in `acquire(1).await`, or done.
pub data Sending {ℓ} (T : Type ℓ) : Type ℓ where
  starting : T → Sending T
  acquiring : T → Acquire → Sending T
  finished : Sending T

module _ {ℓ} {T : Type ℓ} where
  unfoldable pub channel :
      (Address → Option (Block.Block T)) → Address → (Ptr → Waiter) → Links → ℕ → Chan T Inner
  unfolding Chan.channel
  channel heap a nodes links buffer = Chan.channel heap a (Inner.new nodes links buffer)

  -- After a poll of the future `a`, which is dropped when it is ready
  unfoldable pub send_acquired :
      ℕ
      → Ptr
      → T
      → Chan T Inner
      → Acquire.Polled × Acquire
      → Outcome (Poll (Result SendError (Unit {0})) × Sending T × Chan T Inner)
  unfolding Chan.send inner_permits
  send_acquired fuel p value c ((pending, s), a) =
      done (pending, acquiring value a, record c { semaphore = s })
  send_acquired fuel p value c ((ready (err e), s), a) = Acquire.drop fuel p a s >>= λ t.
      done (ready (err rx_closed), finished, record c { semaphore = t })
  send_acquired fuel p value c ((ready (ok u), s), a) = Acquire.drop fuel p a s >>= λ t.
      Chan.send (inner_permits fuel) value (record c { semaphore = t }) >>= λ (r, d).
      done (ready r, finished, d)

  unfoldable pub send_await :
      ℕ
      → Waker
      → Ptr
      → T
      → Acquire
      → Chan T Inner
      → Outcome (Poll (Result SendError (Unit {0})) × Sending T × Chan T Inner)
  unfolding send_acquired
  send_await fuel cx p value a c =
      Acquire.poll fuel cx p a c.semaphore >>= λ polled. send_acquired fuel p value c polled

  -- A poll of `send`; one that is done panics.
  unfoldable pub poll_send :
      ℕ
      → Waker
      → Ptr
      → Sending T
      → Chan T Inner
      → Outcome (Poll (Result SendError (Unit {0})) × Sending T × Chan T Inner)
  unfolding send_await
  poll_send fuel cx p (starting value) c =
      let (a, s) = Acquire.new 1 p c.semaphore in
      send_await fuel cx p value a (record c { semaphore = s })
  poll_send fuel cx p (acquiring value a) c = send_await fuel cx p value a c
  poll_send fuel cx p finished c = panic

  unfoldable pub drop_send : ℕ → Ptr → Sending T → Chan T Inner → Outcome (Chan T Inner)
  drop_send fuel p (starting value) c = done c
  drop_send fuel p (acquiring value a) c =
      Acquire.drop fuel p a c.semaphore >>= λ s. done (record c { semaphore = s })
  drop_send fuel p finished c = done c

  unfoldable pub is_closed : Chan T Inner → Bool
  unfolding Chan.is_closed
  is_closed c = Chan.is_closed (inner_permits 0) c

  unfoldable pub clone_tx : Chan T Inner → Chan T Inner
  clone_tx c = Chan.clone_tx c

  -- `recv` polls `poll_recv`.
  unfoldable pub poll_recv :
      ℕ → Waker → Chan T Inner → Outcome (Chan.Poll (Option T) × Chan T Inner)
  unfolding Chan.recv inner_permits
  poll_recv fuel cx c = Chan.recv (inner_permits fuel) cx c

  unfoldable pub try_recv : ℕ → Chan T Inner → Outcome (Result TryRecvError T × Chan T Inner)
  unfolding Chan.try_recv inner_permits
  try_recv fuel c = Chan.try_recv (inner_permits fuel) c

  unfoldable pub close : ℕ → Chan T Inner → Outcome (Chan T Inner)
  unfolding Chan.close_rx inner_permits
  close fuel c = Chan.close_rx (inner_permits fuel) c
