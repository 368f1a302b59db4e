-- ===== src/Mpsc/Unbounded.antt =====
-- src/mpsc/unbounded.rs: src/mpsc/chan.rs over the semaphore that has no bound.
pub mod Runs
pub mod Calls
pub mod Fine
pub mod Steps
pub mod Receiving
pub mod Flow
pub mod Wakes
use local_sync.Prelude.{
  ◌≡◌, refl, ◌++◌, ◌∷◌, [], List, false, Bool, Option, Outcome, Result, ok, Returns, Returns-mono,
}
use local_sync.WakeList.{Waker}
use local_sync.Mpsc.Block
use local_sync.Mpsc.Block.{Address}
use local_sync.Mpsc.Chan
use local_sync.Mpsc.Chan.{Chan, SendError, TryRecvError, Unlimited, unlimited, unlimited_permits}
use local_sync.Mpsc.Order.{Holds, send-Sent, try_recv-oldest}

module _ {ℓ} {T : Type ℓ} where
  unfoldable pub channel : (Address → Option (Block.Block T)) → Address → Chan T Unlimited
  unfolding Chan.channel
  channel heap a = Chan.channel heap a unlimited

  unfoldable pub send :
      T → Chan T Unlimited → Outcome (Result SendError (Unit {0}) × Chan T Unlimited)
  unfolding Chan.send unlimited_permits
  send value c = Chan.send unlimited_permits value c

  unfoldable pub is_closed : Chan T Unlimited → Bool
  unfolding Chan.is_closed
  is_closed c = Chan.is_closed unlimited_permits c

  unfoldable pub clone_tx : Chan T Unlimited → Chan T Unlimited
  clone_tx c = Chan.clone_tx c

  -- `recv` polls `poll_recv`.
  unfoldable pub poll_recv :
      Waker → Chan T Unlimited → Outcome (Chan.Poll (Option T) × Chan T Unlimited)
  unfolding Chan.recv unlimited_permits
  poll_recv cx c = Chan.recv unlimited_permits cx c

  unfoldable pub try_recv : Chan T Unlimited → Outcome (Result TryRecvError T × Chan T Unlimited)
  unfolding Chan.try_recv unlimited_permits
  try_recv c = Chan.try_recv unlimited_permits c

  unfoldable pub close : Chan T Unlimited → Outcome (Chan T Unlimited)
  unfolding Chan.close_rx unlimited_permits
  close c = Chan.close_rx unlimited_permits c

  -- On an unbounded channel that is not closed and whose queue holds a value `x` and then `xs`,
  -- `send` accepts a value, and `try_recv` then returns `x` and leaves `xs` and the new value.
  pub send-try_recv :
      (x y : T) (c : Chan T Unlimited) (xs : List T)
      → Holds c.queue (x ∷ xs)
      → c.semaphore.closed ≡ false
      → Returns
          (λ (r, d).
            (r ≡ ok tt)
            × Returns (λ (s, e). (s ≡ ok x) × Holds e.queue (xs ++ y ∷ [])) (try_recv d))
          (send y c)
  unfolding send try_recv unlimited_permits
  send-try_recv x y c xs h free =
      Returns-mono (send-Sent unlimited_permits y c (x ∷ xs) h free) λ (r, d) (e, s). (
        e,
        Returns-mono (try_recv-oldest unlimited_permits x d (xs ++ y ∷ []) d.semaphore s.holds refl)
            λ (v, e2) (same, g, _). (same, g),
      )
