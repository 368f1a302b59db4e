-- ===== src/Oneshot/Steps.antt =====
-- src/oneshot.rs: each call of a handle leads from a world of Fates to such a world.
use mathlib.Core.List.Perm
use local_sync.Prelude.{
  inl, ℕ, ◌≡◌, refl, Bool, true, false, Option, none, List, [], ◌∷◌, ◌++◌, append-nil, returns,
}
use local_sync.WakeList.{Waker}
use local_sync.Oneshot.Inner
use local_sync.Oneshot.Inner.{Inner}
use local_sync.Oneshot.Spec
use local_sync.Oneshot.Spec.{Channel, concrete, open_channel}
use local_sync.Oneshot.Refine.{close_lem, of_parts}
use local_sync.Oneshot.Handles
use local_sync.Oneshot.Handles.{Sender, Receiver, Shared, rc, held}
use local_sync.Oneshot.Worlds
use local_sync.Oneshot.Worlds.{
  World, Op, Reach, start, after, step, allowed, opened, has_sender, has_receiver, holders,
}
use local_sync.Oneshot.Fates.{
  Fate, unsent, waiting, returned, received, dropped, spent, cell, all_sent, all_back, all_got,
  all_lost, world, rx_held, Fine, both, sender_only, receiver_only, neither, freed,
  drop_receiver-alone, try_recv-alone, poll-alone, poll-ended,
}
use local_sync.Oneshot.Attached.{
  send-both, drop_sender-both, send-sender_only, drop_sender-sender_only, drop_receiver-both,
  poll_closed-both, close-both, try_recv-both, poll-both, poll_closed-sender_only,
}
use local_sync.Oneshot.Account.{Moves, freed-account}

module _ {ℓ} {T : Type ℓ} where
  close-last :
      (r w : Option Waker) (sh : Bool) (f : Fate T) (l d : List Waker)
      → (Moves {T = T} Worlds.close
          (world none rx_held (concrete (of_parts r w true sh (cell f) l d)) 1 true f))
  unfolding step Handles.close Inner.close_receiver Spec.close
  close-last r w sh f l d =
      rw (close_lem (of_parts r w true sh (cell f) l d))
        (returns (receiver_only r w true f l d, inl (Perm.refl _)))

  -- A value that the receiver leaves in the cell is dropped with the allocation.
  settle_dropped :
      (g : Bool) (c : Channel T) (f : Fate T)
      → Fine (freed g c (all_sent f) (all_back f) (all_got f) (all_lost f ++ held (cell f)))
  settle_dropped g c unsent = neither g _ unsent c.woken _ refl
  settle_dropped g c (waiting t) = neither g _ (dropped t) c.woken _ refl
  settle_dropped g c (returned t) = neither g _ (returned t) c.woken _ refl
  settle_dropped g c (received t) = neither g _ (received t) c.woken _ refl
  settle_dropped g c (dropped t) = neither g _ (dropped t) c.woken _ refl

  settle_taken :
      (g : Bool) (c : Channel T) (f : Fate T)
      → Fine (freed g c (all_sent f) (all_back f) (all_got f ++ held (cell f)) (all_lost f ++ []))
  settle_taken g c unsent = neither g _ unsent c.woken _ refl
  settle_taken g c (waiting t) = neither g _ (received t) c.woken _ refl
  settle_taken g c (returned t) = neither g _ (returned t) c.woken _ refl
  settle_taken g c (received t) = neither g _ (received t) c.woken _ refl
  settle_taken g c (dropped t) = neither g _ (dropped t) c.woken _ refl

  module _ (r w : Option Waker) (sh : Bool) (l d : List Waker) where
    drop_receiver-last :
        (f : Fate T)
        → (Moves {T = T} Worlds.drop_receiver
            (world none rx_held (concrete (of_parts r w true sh (cell f) l d)) 1 true f))
    drop_receiver-last f =
        rw
          (drop_receiver-alone r w sh l d (all_sent f) (all_back f) (all_got f) (all_lost f)
            (cell f))
          (returns (
            settle_dropped true (of_parts r w true true (cell f) l d) f,
            inl (freed-account d r w),
          ))

    try_recv-last :
        (f : Fate T)
        → (Moves {T = T} Worlds.try_recv
            (world none rx_held (concrete (of_parts r w true sh (cell f) l d)) 1 true f))
    try_recv-last f =
        rw (try_recv-alone r w sh l d (all_sent f) (all_back f) (all_got f) (all_lost f) (cell f)) (
          returns (settle_taken false (of_parts r w true sh none l d) f, inl (freed-account d r w)))

    poll-last :
        (cx : Waker) (f : Fate T)
        → (Moves {T = T}
            (Worlds.poll cx)
            (world none rx_held (concrete (of_parts r w true sh (cell f) l d)) 1 true f))
    poll-last cx (waiting t) = rw (poll-alone r w sh l d (t ∷ []) [] [] [] cx t) (
        returns (
          settle_taken false (of_parts r w true sh none l d) (waiting t),
          inl (freed-account d r w),
        ))
    poll-last cx unsent =
        rw (poll-ended r w sh l d [] [] [] [] cx)
          (returns (receiver_only r w sh unsent l d, inl (Perm.refl _)))
    poll-last cx (returned t) =
        rw (poll-ended r w sh l d (t ∷ []) (t ∷ []) [] [] cx)
          (returns (receiver_only r w sh (returned t) l d, inl (Perm.refl _)))
    poll-last cx (received t) =
        rw (poll-ended r w sh l d (t ∷ []) [] (t ∷ []) [] cx)
          (returns (receiver_only r w sh (received t) l d, inl (Perm.refl _)))
    poll-last cx (dropped t) =
        rw (poll-ended r w sh l d (t ∷ []) [] [] (t ∷ []) cx)
          (returns (receiver_only r w sh (dropped t) l d, inl (Perm.refl _)))

  -- The steps of a receiver that has no `Rc` change nothing but the receiver itself.
  module _ (tx : Option Sender) (i : Inner T) (n : ℕ) (live : Bool) (f : Fate T)
      (fine : (g : Bool) → Fine (world tx (spent g) i n live f)) where
    close-spent : (g : Bool) → (Moves {T = T} Worlds.close (world tx (spent g) i n live f))
    unfolding step Handles.close
    close-spent true = returns (fine true, inl (Perm.refl _))
    close-spent false = returns (fine false, inl (Perm.refl _))

    try_recv-spent : (g : Bool) → (Moves {T = T} Worlds.try_recv (world tx (spent g) i n live f))
    unfolding step Handles.try_recv
    try_recv-spent true = returns (fine true, inl (Perm.refl _))
    try_recv-spent false = rw (append-nil (all_got f)) (returns (fine false, inl (Perm.refl _)))

    poll-spent :
        (cx : Waker) (g : Bool)
        → allowed (Worlds.poll cx) (world tx (spent g) i n live f) ≡ true
        → (Moves {T = T} (Worlds.poll cx) (world tx (spent g) i n live f))
    unfolding step Handles.poll allowed
    poll-spent cx true may = returns (fine true, inl (Perm.refl _))
    poll-spent cx false may = cc

    drop_receiver-spent :
        (g : Bool) → (Moves {T = T} Worlds.drop_receiver (world tx (spent g) i n live f))
    unfolding step Handles.drop_receiver
    drop_receiver-spent true = returns (fine true, inl (Perm.refl _))
    drop_receiver-spent false = returns (fine true, inl (Perm.refl _))

  pub step-Fine : (op : Op T) {w : World T} → Fine w → allowed op w ≡ true → (Moves {T = T} op w)
  unfolding step Handles.is_closed
  step-Fine (Worlds.send t) (both r w sh l d) may = send-both t r w sh l d
  step-Fine (Worlds.send t) (sender_only r w g l d) may = send-sender_only t r w g l d
  step-Fine (Worlds.send t) (receiver_only r w sh f l d) may =
      returns (receiver_only r w sh f l d, inl (Perm.refl _))
  step-Fine (Worlds.send t) (neither g s f l d e) may =
      returns (neither g s f l d e, inl (Perm.refl _))
  step-Fine Worlds.drop_sender (both r w sh l d) may = drop_sender-both r w sh l d
  step-Fine Worlds.drop_sender (sender_only r w g l d) may = drop_sender-sender_only r w g l d
  step-Fine Worlds.drop_sender (receiver_only r w sh f l d) may =
      returns (receiver_only r w sh f l d, inl (Perm.refl _))
  step-Fine Worlds.drop_sender (neither g s f l d e) may =
      returns (neither g s f l d e, inl (Perm.refl _))
  step-Fine Worlds.is_closed (both r w sh l d) may = returns (both r w sh l d, inl (Perm.refl _))
  step-Fine Worlds.is_closed (sender_only r w g l d) may =
      returns (sender_only r w g l d, inl (Perm.refl _))
  step-Fine Worlds.is_closed (receiver_only r w sh f l d) may =
      returns (receiver_only r w sh f l d, inl (Perm.refl _))
  step-Fine Worlds.is_closed (neither g s f l d e) may =
      returns (neither g s f l d e, inl (Perm.refl _))
  step-Fine (Worlds.poll_closed cx) (both r w sh l d) may = poll_closed-both cx r w sh l d
  step-Fine (Worlds.poll_closed cx) (sender_only r w g l d) may =
      poll_closed-sender_only cx r w g l d
  step-Fine (Worlds.poll_closed cx) (receiver_only r w sh f l d) may =
      returns (receiver_only r w sh f l d, inl (Perm.refl _))
  step-Fine (Worlds.poll_closed cx) (neither g s f l d e) may =
      returns (neither g s f l d e, inl (Perm.refl _))
  step-Fine Worlds.close (both r w sh l d) may = close-both r w sh l d
  step-Fine Worlds.close (sender_only r w g l d) may =
      close-spent _ _ 1 true unsent (λ h. sender_only r w h l d) g
  step-Fine Worlds.close (receiver_only r w sh f l d) may = close-last r w sh f l d
  step-Fine Worlds.close (neither g s f l d e) may =
      close-spent none _ 0 false f (λ h. neither h s f l d e) g
  step-Fine Worlds.try_recv (both r w sh l d) may = try_recv-both r w sh l d
  step-Fine Worlds.try_recv (sender_only r w g l d) may =
      try_recv-spent _ _ 1 true unsent (λ h. sender_only r w h l d) g
  step-Fine Worlds.try_recv (receiver_only r w sh f l d) may = try_recv-last r w sh l d f
  step-Fine Worlds.try_recv (neither g s f l d e) may =
      try_recv-spent none _ 0 false f (λ h. neither h s f l d e) g
  step-Fine (Worlds.poll cx) (both r w sh l d) may = poll-both cx r w sh l d
  step-Fine (Worlds.poll cx) (sender_only r w g l d) may =
      poll-spent _ _ 1 true unsent (λ h. sender_only r w h l d) cx g may
  step-Fine (Worlds.poll cx) (receiver_only r w sh f l d) may = poll-last r w sh l d cx f
  step-Fine (Worlds.poll cx) (neither g s f l d e) may =
      poll-spent none _ 0 false f (λ h. neither h s f l d e) cx g may
  step-Fine Worlds.drop_receiver (both r w sh l d) may = drop_receiver-both r w sh l d
  step-Fine Worlds.drop_receiver (sender_only r w g l d) may =
      drop_receiver-spent _ _ 1 true unsent (λ h. sender_only r w h l d) g
  step-Fine Worlds.drop_receiver (receiver_only r w sh f l d) may = drop_receiver-last r w sh l d f
  step-Fine Worlds.drop_receiver (neither g s f l d e) may =
      drop_receiver-spent none _ 0 false f (λ h. neither h s f l d e) g
