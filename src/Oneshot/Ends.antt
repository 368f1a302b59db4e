-- ===== src/Oneshot/Ends.antt =====
-- src/oneshot.rs: what one half sees when the other has gone, in any history of the two handles.
use local_sync.Prelude.{
  ◌≡◌, refl, ap, Bool, true, false, Option, none, some, List, [], done, err, Returns, returns,
}
use local_sync.WakeList.{Waker}
use local_sync.Oneshot.State
use local_sync.Oneshot.Inner
use local_sync.Oneshot.Inner.{Inner}
use local_sync.Oneshot.Spec
use local_sync.Oneshot.Spec.{Channel, concrete, open_channel}
use local_sync.Oneshot.Refine.{send_lem, poll_recv_lem, drop_lem, of_parts}
use local_sync.Oneshot.Handles
use local_sync.Oneshot.Handles.{Sender, Receiver, Shared, rc, held}
use local_sync.Oneshot.Worlds.{World, Reach, has_receiver}
use local_sync.Oneshot.Fates.{
  unsent, cell, all_lost, world, tx_rc, rx_rc, tx_held, rx_held, Fine, both, sender_only,
  receiver_only, neither, alone,
}
use local_sync.Oneshot.Ledger.{Reach-Fine}

absurd {ℓ} : {A : Type ℓ} → false ≡ true → A
absurd e = cc

closed_at {ℓ} :
    (T : Type ℓ) (r w : Option Waker) (l d : List Waker)
    → Handles.is_closed tx_rc (
        World.shared {T = T}
          (world tx_held none (concrete (of_parts r w false true none l d)) 1 true unsent))
      ≡ done true
unfolding Handles.is_closed Inner.is_closed State.is_closed
closed_at T none none l d = refl
closed_at T none (some x) l d = refl
closed_at T (some x) none l d = refl
closed_at T (some x) (some y) l d = refl

module _ {ℓ} {T : Type ℓ} where
  hung_up_at :
      (t : T) (r w : Option Waker) (l d : List Waker)
      → Returns
          (λ (res, s). (res ≡ err t) × (s.live ≡ false) × (s.lost ≡ []))
          (Handles.send tx_rc t (
            World.shared
              (world tx_held none (concrete (of_parts r w false true none l d)) 1 true unsent)))
  unfolding Handles.send Spec.send Handles.drop_rc
  hung_up_at t r w l d =
      rw (send_lem t (of_parts r w false true none l d), drop_lem (of_parts r w true true none l d))
        (returns (refl, refl, refl))

  -- In every such history in which the sender is there and the receiver has no `Rc` left,
  -- `is_closed` is true, and `send` returns with the value as its error; the allocation is then
  -- freed and no value was dropped.
  pub Reach-hung_up :
      (t : T) (w : World T)
      → Reach w
      → w.sender ≡ tx_held
      → has_receiver w.receiver ≡ false
      → (Handles.is_closed tx_rc w.shared ≡ done true)
        × Returns
            (λ (r, s). (r ≡ err t) × (s.live ≡ false) × (s.lost ≡ []))
            (Handles.send tx_rc t w.shared)
  Reach-hung_up t w before have gone = hung_up (Reach-Fine w before) have gone
    where
      hung_up :
          {w : World T}
          → Fine w
          → w.sender ≡ tx_held
          → has_receiver w.receiver ≡ false
          → (Handles.is_closed tx_rc w.shared ≡ done true)
            × Returns
                (λ (r, s). (r ≡ err t) × (s.live ≡ false) × (s.lost ≡ []))
                (Handles.send tx_rc t w.shared)
      hung_up (both r w sh l d) have gone = cc
      hung_up (sender_only r w g l d) have gone = (closed_at T r w l d, hung_up_at t r w l d)
      hung_up (receiver_only r w sh f l d) have gone = cc
      hung_up (neither g s f l d e) have gone = cc

  poll-ready :
      (cx : Waker) (r w : Option Waker) (sh : Bool) (v : Option T) (l d : List Waker) (lo : List T)
      → Returns
          (λ (res, _, s). (res ≡ Inner.ready (Inner.received v)) × (s.inner.value ≡ none))
          (Handles.poll rx_rc cx
            (World.shared (alone (concrete (of_parts r w true sh v l d)) [] [] [] lo)))
  unfolding Handles.poll Inner.poll Spec.poll_recv Handles.drop_rc
  poll-ready cx r w sh none l d lo =
      rw (poll_recv_lem cx (of_parts r w true sh none l d)) (returns (refl, refl))
  poll-ready cx r w sh (some t) l d lo =
      rw
        (
          poll_recv_lem cx (of_parts r w true sh (some t) l d),
          drop_lem (of_parts r w true sh none l d),
        )
        (returns (refl, refl))

  -- In every such history in which the sender has sent or was dropped and the receiver has its
  -- `Rc`, a poll of the receiver is ready: with the value in the cell, or with the error if there
  -- is none; and the cell is empty after.
  pub Reach-ended :
      (cx : Waker) (w : World T)
      → Reach w
      → w.sender ≡ none
      → w.receiver ≡ rx_held
      → Returns
          (λ (r, _, s).
            (r ≡ Inner.ready (Inner.received w.shared.inner.value)) × (s.inner.value ≡ none))
          (Handles.poll rx_rc cx w.shared)
  Reach-ended cx w before gone have = ended (Reach-Fine w before) gone have
    where
      ended :
          {w : World T}
          → Fine w
          → w.sender ≡ none
          → w.receiver ≡ rx_held
          → Returns
              (λ (r, _, s).
                (r ≡ Inner.ready (Inner.received w.shared.inner.value)) × (s.inner.value ≡ none))
              (Handles.poll rx_rc cx w.shared)
      ended (both r w sh l d) gone have = cc
      ended (sender_only r w g l d) gone have = cc
      ended (receiver_only r w sh f l d) gone have = poll-ready cx r w sh (cell f) l d (all_lost f)
      ended (neither true s f l d e) gone have = cc
      ended (neither false s f l d e) gone have = absurd (ap has_receiver have)
