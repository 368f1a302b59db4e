-- ===== src/Oneshot/Ledger.antt =====
-- src/oneshot.rs: what becomes of the value and of the allocation, in any history of the two handles.
use local_sync.Prelude.{
  ◌<◌, ◌⊎◌, inl, inr, ◌≡◌, refl, true, false, none, [], ◌++◌, Returns, subst, Returns-done, length,
  arith, ◌≤◌, returns, Returns-value, Returns-mono,
}
use local_sync.Oneshot.State
use local_sync.Oneshot.Inner
use local_sync.Oneshot.Inner.{Inner}
use local_sync.Oneshot.Handles
use local_sync.Oneshot.Handles.{Sender, Receiver, Shared, rc, held}
use local_sync.Oneshot.Worlds.{
  World, Op, Reach, start, after, step, allowed, opened, has_sender, has_receiver, holders,
}
use local_sync.Oneshot.Fates.{
  Fate, unsent, waiting, returned, received, dropped, cell, all_sent, all_back, all_got, all_lost,
  Fine, both, sender_only, receiver_only, neither,
}
use local_sync.Oneshot.Account.{Accounts}
use local_sync.Oneshot.Steps.{step-Fine}

module _ {ℓ} {T : Type ℓ} where
  start-Fine : Fine (opened {T = T})
  unfolding opened Handles.channel Inner.channel State.new
  start-Fine = both none none false [] []

  pub Reach-Fine : (w : World T) → Reach w → Fine w
  Reach-Fine w start = start-Fine
  Reach-Fine w (after op {v} before may e) =
      (Returns-value (step-Fine op (Reach-Fine v before) may) e).0

  -- Clients who own the two handles of a new channel call them in any order, as long as they do not
  -- poll a receiver that has let go of the channel. Each such call returns, to a history of the
  -- same kind: no `unwrap` fails, no handle reaches the allocation after it was freed, it is not
  -- freed twice, and no task slot is read that holds no waker.
  pub step-Worlds :
      (w : World T) (op : Op T) → Reach w → allowed op w ≡ true → Returns Reach (step op w)
  step-Worlds w op before may =
      let (v, e, _) = Returns-done (step-Fine op (Reach-Fine w before) may) in
      rw e (returns (after op before may e))

  -- In every such history at most one value was given to `send`, and it is in exactly one place:
  -- given back by `send`, handed out by the receiver, dropped, or in the cell.
  pub Reach-ledger :
      (w : World T)
      → Reach w
      → (w.sent ≡ w.back ++ w.got ++ w.shared.lost ++ held w.shared.inner.value)
        × (length w.sent ≤ 1)
  Reach-ledger w before = ledger (Reach-Fine w before)
    where
      ledger_of :
          (f : Fate T)
          → (all_sent f ≡ all_back f ++ all_got f ++ all_lost f ++ held (cell f))
            × (length (all_sent f) ≤ 1)
      ledger_of unsent = (refl, omega arith)
      ledger_of (waiting t) = (refl, omega arith)
      ledger_of (returned t) = (refl, omega arith)
      ledger_of (received t) = (refl, omega arith)
      ledger_of (dropped t) = (refl, omega arith)

      ledger :
          {w : World T}
          → Fine w
          → (w.sent ≡ w.back ++ w.got ++ w.shared.lost ++ held w.shared.inner.value)
            × (length w.sent ≤ 1)
      ledger (both r w sh l d) = (refl, omega arith)
      ledger (sender_only r w g l d) = (refl, omega arith)
      ledger (receiver_only r w sh f l d) = ledger_of f
      ledger (neither g s f l d e) =
          subst
            (λ v.
              (all_sent f ≡ all_back f ++ all_got f ++ all_lost f ++ held v)
              × (length (all_sent f) ≤ 1))
            e (ledger_of f)

  -- The count, and the allocation live with an `Rc`, or freed with nothing left in it
  abbrev pub Counted : World T → Type ℓ
  Counted w =
      (w.shared.strong ≡ holders (has_sender w.sender) (has_receiver w.receiver))
      × (((w.shared.live ≡ true) × (0 < w.shared.strong))
          ⊎ ((w.shared.live ≡ false)
              × (w.shared.strong ≡ 0)
              × (w.shared.inner.tx_task ≡ none)
              × (w.shared.inner.rx_task ≡ none)
              × (w.shared.inner.value ≡ none)))

  -- In every such history the allocation counts the handles that still have their `Rc`; it is live
  -- as long as there is one, and once it is freed both task slots and the cell are empty. Each call
  -- that may follow returns and keeps the account of the wakers, so that none leaks and none is
  -- dropped twice: those that were dropped and those in the task slots are together the same as
  -- before, up to their order, or the same and the waker of the task that polls.
  pub Reach-freed :
      (w : World T) (op : Op T)
      → Reach w
      → allowed op w ≡ true
      → Counted w × Returns (Accounts op w) (step op w)
  Reach-freed w op before may =
      let f = Reach-Fine w before in
      (freed_of f, Returns-mono (step-Fine op f may) λ v (_, account). account)
    where
      freed_of : {w : World T} → Fine w → Counted w
      freed_of (both r w sh l d) = (refl, inl (refl, omega arith))
      freed_of (sender_only r w true l d) = (refl, inl (refl, omega arith))
      freed_of (sender_only r w false l d) = (refl, inl (refl, omega arith))
      freed_of (receiver_only r w sh f l d) = (refl, inl (refl, omega arith))
      freed_of (neither true s f l d e) = (refl, inr (refl, refl, refl, refl, refl))
      freed_of (neither false s f l d e) = (refl, inr (refl, refl, refl, refl, refl))
