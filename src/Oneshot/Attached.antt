-- ===== src/Oneshot/Attached.antt =====
-- src/oneshot.rs: the calls of the handles while the sender has its `Rc`.
use mathlib.Core.List.Perm
use local_sync.Prelude.{inl, refl, Bool, true, false, Option, none, some, List, returns}
use local_sync.WakeList.{Waker}
use local_sync.Oneshot.Inner
use local_sync.Oneshot.Inner.{Inner}
use local_sync.Oneshot.Spec
use local_sync.Oneshot.Spec.{Channel, concrete, open_channel}
use local_sync.Oneshot.Refine.{
  complete_lem, send_lem, close_lem, poll_closed_lem, poll_recv_lem, try_recv_lem, drop_lem,
  of_parts,
}
use local_sync.Oneshot.Handles
use local_sync.Oneshot.Handles.{Sender, Receiver, Shared, rc, held}
use local_sync.Oneshot.Worlds
use local_sync.Oneshot.Worlds.{
  World, Op, Reach, start, after, step, allowed, opened, has_sender, has_receiver, holders,
}
use local_sync.Oneshot.Fates.{
  unsent, waiting, returned, spent, world, tx_held, rx_held, both, sender_only, receiver_only,
  neither,
}
use local_sync.Oneshot.Account.{Moves, freed-account, refresh_rx, refresh_tx}

module _ {ℓ} {T : Type ℓ} where
  pub send-both :
      (t : T) (r w : Option Waker) (sh : Bool) (l d : List Waker)
      → (Moves {T = T}
          (Worlds.send t)
          (world tx_held rx_held (concrete (of_parts r w false sh none l d)) 2 true unsent))
  unfolding step Handles.send Spec.send Handles.drop_rc
  send-both t r w true l d =
      rw (send_lem t (of_parts r w false true none l d))
        (returns (receiver_only r w true (returned t) l d, inl (Perm.refl _)))
  send-both t r w false l d =
      rw (send_lem t (of_parts r w false false none l d))
        (returns (receiver_only r w false (waiting t) (Spec.log l r) d, inl (Perm.refl _)))

  pub drop_sender-both :
      (r w : Option Waker) (sh : Bool) (l d : List Waker)
      → (Moves {T = T} Worlds.drop_sender
          (world tx_held rx_held (concrete (of_parts r w false sh none l d)) 2 true unsent))
  unfolding step Handles.drop_sender Inner.drop_sender Spec.complete Handles.drop_rc
  drop_sender-both r w true l d =
      rw (complete_lem (of_parts r w false true none l d))
        (returns (receiver_only r w true unsent l d, inl (Perm.refl _)))
  drop_sender-both r w false l d =
      rw (complete_lem (of_parts r w false false none l d))
        (returns (receiver_only r w false unsent (Spec.log l r) d, inl (Perm.refl _)))

  pub send-sender_only :
      (t : T) (r w : Option Waker) (g : Bool) (l d : List Waker)
      → (Moves {T = T}
          (Worlds.send t)
          (world tx_held (spent g) (concrete (of_parts r w false true none l d)) 1 true unsent))
  unfolding step Handles.send Spec.send Handles.drop_rc
  send-sender_only t r w g l d =
      rw (send_lem t (of_parts r w false true none l d), drop_lem (of_parts r w true true none l d))
        (returns (neither g _ (returned t) l _ refl, inl (freed-account d r w)))

  pub drop_sender-sender_only :
      (r w : Option Waker) (g : Bool) (l d : List Waker)
      → (Moves {T = T} Worlds.drop_sender
          (world tx_held (spent g) (concrete (of_parts r w false true none l d)) 1 true unsent))
  unfolding step Handles.drop_sender Inner.drop_sender Spec.complete Handles.drop_rc
  drop_sender-sender_only r w g l d =
      rw
        (
          complete_lem (of_parts r w false true none l d),
          drop_lem (of_parts r w true true none l d),
        )
        (returns (neither g _ unsent l _ refl, inl (freed-account d r w)))

  pub drop_receiver-both :
      (r w : Option Waker) (sh : Bool) (l d : List Waker)
      → (Moves {T = T} Worlds.drop_receiver
          (world tx_held rx_held (concrete (of_parts r w false sh none l d)) 2 true unsent))
  unfolding step Handles.drop_receiver Inner.close_receiver Spec.close Handles.drop_rc
  drop_receiver-both r w sh l d =
      rw (close_lem (of_parts r w false sh none l d))
        (returns (sender_only r w true (Spec.log l w) d, inl (Perm.refl _)))

  pub poll_closed-both :
      (cx : Waker) (r w : Option Waker) (sh : Bool) (l d : List Waker)
      → (Moves {T = T}
          (Worlds.poll_closed cx)
          (world tx_held rx_held (concrete (of_parts r w false sh none l d)) 2 true unsent))
  unfolding step Handles.poll_closed Spec.poll_closed
  poll_closed-both cx r w true l d =
      rw (poll_closed_lem cx (of_parts r w false true none l d))
        (returns (both r w true l d, inl (Perm.refl _)))
  poll_closed-both cx r w false l d =
      rw (poll_closed_lem cx (of_parts r w false false none l d))
        (returns (both r (some cx) false l (Spec.refresh d w cx), refresh_tx cx d r w))

  pub close-both :
      (r w : Option Waker) (sh : Bool) (l d : List Waker)
      → (Moves {T = T} Worlds.close
          (world tx_held rx_held (concrete (of_parts r w false sh none l d)) 2 true unsent))
  unfolding step Handles.close Inner.close_receiver Spec.close
  close-both r w sh l d =
      rw (close_lem (of_parts r w false sh none l d))
        (returns (both r w true (Spec.log l w) d, inl (Perm.refl _)))

  pub try_recv-both :
      (r w : Option Waker) (sh : Bool) (l d : List Waker)
      → (Moves {T = T} Worlds.try_recv
          (world tx_held rx_held (concrete (of_parts r w false sh none l d)) 2 true unsent))
  unfolding step Handles.try_recv Spec.try_recv Handles.drop_rc
  try_recv-both r w true l d =
      rw (try_recv_lem (of_parts r w false true none l d))
        (returns (sender_only r w false l d, inl (Perm.refl _)))
  try_recv-both r w false l d =
      rw (try_recv_lem (of_parts r w false false none l d))
        (returns (both r w false l d, inl (Perm.refl _)))

  pub poll-both :
      (cx : Waker) (r w : Option Waker) (sh : Bool) (l d : List Waker)
      → (Moves {T = T}
          (Worlds.poll cx)
          (world tx_held rx_held (concrete (of_parts r w false sh none l d)) 2 true unsent))
  unfolding step Handles.poll Inner.poll Spec.poll_recv
  poll-both cx r w true l d =
      rw (poll_recv_lem cx (of_parts r w false true none l d))
        (returns (both r w true l d, inl (Perm.refl _)))
  poll-both cx r w false l d =
      rw (poll_recv_lem cx (of_parts r w false false none l d))
        (returns (both (some cx) w false l (Spec.refresh d r cx), refresh_rx cx d r w))

  pub poll_closed-sender_only :
      (cx : Waker) (r w : Option Waker) (g : Bool) (l d : List Waker)
      → (Moves {T = T}
          (Worlds.poll_closed cx)
          (world tx_held (spent g) (concrete (of_parts r w false true none l d)) 1 true unsent))
  unfolding step Handles.poll_closed Spec.poll_closed
  poll_closed-sender_only cx r w g l d =
      rw (poll_closed_lem cx (of_parts r w false true none l d))
        (returns (sender_only r w g l d, inl (Perm.refl _)))
