-- ===== src/Oneshot/Refine.antt =====
-- src/oneshot.rs: the operations on the shared part against those of Spec, on the states that stand
-- for a channel.
mod Halves
use local_sync.Prelude.{
  ◌≡◌, refl, ap, Bool, true, false, not, Option, none, some, List, [], ◌∷◌, ◌++◌, ◌==◌,
  if◌then◌else◌, done, Bool-cases, eq_of_test, inl, inr,
}
use local_sync.WakeList.{Waker}
use local_sync.Oneshot.State
use local_sync.Oneshot.Inner
use local_sync.Oneshot.Inner.{Inner}
use local_sync.Oneshot.Spec
use local_sync.Oneshot.Spec.{Channel, concrete}
pub use local_sync.Oneshot.Refine.Halves.{of_parts, complete_lem, send_lem, close_lem, drop_lem}
use local_sync.Oneshot.Refine.Halves.{same_task}

module _ {ℓ} {T : Type ℓ} where
  poll_closed_parts :
      (cx : Waker) (rx tx : Option Waker) (se sh : Bool) (v : Option T) (l d : List Waker)
      → Inner.poll_closed cx (concrete (of_parts rx tx se sh v l d))
        ≡ (let (r, a) = Spec.poll_closed cx (of_parts rx tx se sh v l d) in done (r, concrete a))
  unfolding Inner.poll_closed Spec.poll_closed State.is_rx_task_set State.is_complete
      State.is_closed State.is_tx_task_set State.set_rx_task State.unset_rx_task State.set_complete
      State.set_closed State.set_tx_task State.unset_tx_task
  poll_closed_parts cx none none true true v l d = refl
  poll_closed_parts cx none none true false v l d = refl
  poll_closed_parts cx none none false true v l d = refl
  poll_closed_parts cx none none false false v l d = refl
  poll_closed_parts cx none (some w) true true v l d = refl
  poll_closed_parts cx none (some w) true false v l d =
      same_task w cx
        (λ x e. done (Inner.pending, concrete (of_parts none (some x) true false v l e))) d
  poll_closed_parts cx none (some w) false true v l d = refl
  poll_closed_parts cx none (some w) false false v l d =
      same_task w cx
        (λ x e. done (Inner.pending, concrete (of_parts none (some x) false false v l e))) d
  poll_closed_parts cx (some r) none true true v l d = refl
  poll_closed_parts cx (some r) none true false v l d = refl
  poll_closed_parts cx (some r) none false true v l d = refl
  poll_closed_parts cx (some r) none false false v l d = refl
  poll_closed_parts cx (some r) (some w) true true v l d = refl
  poll_closed_parts cx (some r) (some w) true false v l d =
      same_task w cx
        (λ x e. done (Inner.pending, concrete (of_parts (some r) (some x) true false v l e))) d
  poll_closed_parts cx (some r) (some w) false true v l d = refl
  poll_closed_parts cx (some r) (some w) false false v l d =
      same_task w cx
        (λ x e. done (Inner.pending, concrete (of_parts (some r) (some x) false false v l e))) d

  pub poll_closed_lem :
      (cx : Waker) (c : Channel T)
      → Inner.poll_closed cx (concrete c)
        ≡ (let (r, a) = Spec.poll_closed cx c in done (r, concrete a))
  poll_closed_lem cx c =
      poll_closed_parts cx c.rx_task c.tx_task c.sent c.shut c.value c.woken c.dropped

  poll_recv_parts :
      (cx : Waker) (rx tx : Option Waker) (se sh : Bool) (v : Option T) (l d : List Waker)
      → Inner.poll_recv cx (concrete (of_parts rx tx se sh v l d))
        ≡ (let (r, a) = Spec.poll_recv cx (of_parts rx tx se sh v l d) in done (r, concrete a))
  unfolding Inner.poll_recv Spec.poll_recv State.is_rx_task_set State.is_complete State.is_closed
      State.is_tx_task_set State.set_rx_task State.unset_rx_task State.set_complete State.set_closed
      State.set_tx_task State.unset_tx_task
  poll_recv_parts cx none none true true v l d = refl
  poll_recv_parts cx none none true false v l d = refl
  poll_recv_parts cx none none false true v l d = refl
  poll_recv_parts cx none none false false v l d = refl
  poll_recv_parts cx none (some w) true true v l d = refl
  poll_recv_parts cx none (some w) true false v l d = refl
  poll_recv_parts cx none (some w) false true v l d = refl
  poll_recv_parts cx none (some w) false false v l d = refl
  poll_recv_parts cx (some r) none true true v l d = refl
  poll_recv_parts cx (some r) none true false v l d = refl
  poll_recv_parts cx (some r) none false true v l d = refl
  poll_recv_parts cx (some r) none false false v l d =
      same_task r cx
        (λ x e. done (Inner.pending, concrete (of_parts (some x) none false false v l e))) d
  poll_recv_parts cx (some r) (some w) true true v l d = refl
  poll_recv_parts cx (some r) (some w) true false v l d = refl
  poll_recv_parts cx (some r) (some w) false true v l d = refl
  poll_recv_parts cx (some r) (some w) false false v l d =
      same_task r cx
        (λ x e. done (Inner.pending, concrete (of_parts (some x) (some w) false false v l e))) d

  pub poll_recv_lem :
      (cx : Waker) (c : Channel T)
      → Inner.poll_recv cx (concrete c) ≡ (let (r, a) = Spec.poll_recv cx c in done (r, concrete a))
  poll_recv_lem cx c =
      poll_recv_parts cx c.rx_task c.tx_task c.sent c.shut c.value c.woken c.dropped

  try_recv_parts :
      (rx tx : Option Waker) (se sh : Bool) (v : Option T) (l d : List Waker)
      → Inner.try_recv true (concrete (of_parts rx tx se sh v l d))
        ≡ (let (r, b, a) = Spec.try_recv (of_parts rx tx se sh v l d) in (r, b, concrete a))
  unfolding Inner.try_recv Spec.try_recv State.is_rx_task_set State.is_complete State.is_closed
      State.is_tx_task_set State.set_rx_task State.unset_rx_task State.set_complete State.set_closed
      State.set_tx_task State.unset_tx_task
  try_recv_parts none none true true v l d = refl
  try_recv_parts none none true false v l d = refl
  try_recv_parts none none false true v l d = refl
  try_recv_parts none none false false v l d = refl
  try_recv_parts none (some w) true true v l d = refl
  try_recv_parts none (some w) true false v l d = refl
  try_recv_parts none (some w) false true v l d = refl
  try_recv_parts none (some w) false false v l d = refl
  try_recv_parts (some r) none true true v l d = refl
  try_recv_parts (some r) none true false v l d = refl
  try_recv_parts (some r) none false true v l d = refl
  try_recv_parts (some r) none false false v l d = refl
  try_recv_parts (some r) (some w) true true v l d = refl
  try_recv_parts (some r) (some w) true false v l d = refl
  try_recv_parts (some r) (some w) false true v l d = refl
  try_recv_parts (some r) (some w) false false v l d = refl

  pub try_recv_lem :
      (c : Channel T)
      → Inner.try_recv true (concrete c) ≡ (let (r, b, a) = Spec.try_recv c in (r, b, concrete a))
  try_recv_lem c = try_recv_parts c.rx_task c.tx_task c.sent c.shut c.value c.woken c.dropped
