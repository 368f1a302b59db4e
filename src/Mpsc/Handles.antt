-- ===== src/Mpsc/Handles.antt =====
-- src/mpsc/chan.rs: `Tx` and `Rx`, each with its `Rc<Chan<T, S>>`, over the one allocation that all
-- of them point to. The allocation counts its `Rc`s; the last one to go drops the `Chan` and frees it.
-- To use an `Rc` of a freed allocation is undefined behaviour. `lost` logs the values that the drops
-- of `Rx` and `Chan` take out of the queue. The loops of the drops have fuel for the values and for
-- the blocks.
use local_sync.Prelude.{
  ℕ, zero, suc, ◌+◌, Bool, true, false, Option, none, List, [], ◌++◌, if◌then◌else◌, Outcome, done,
  fault, ◌>>=◌, Result,
}
use local_sync.WakeList.{Waker}
use local_sync.Mpsc.Block
use local_sync.Mpsc.Block.{Address}
use local_sync.Mpsc.Chan
use local_sync.Mpsc.Chan.{Chan, Permits, SendError, TryRecvError, Poll}

-- An `Rc` to the allocation
pub data Rc : Type 0 where
  rc : Rc

pub record Tx : Type 0 where
  pub chan : Rc

pub record Rx : Type 0 where
  pub chan : Rc

-- `Rx::new`
abbrev pub new_rx : Rc → Rx
new_rx r = record { chan = r }

pub record Shared {ℓ κ} (T : Type ℓ) (S : Type κ) : Type (ℓ ⊔ κ) where
  pub chan : Chan T S
  pub strong : ℕ
  pub live : Bool
  pub lost : List T

module _ {ℓ κ} {T : Type ℓ} {S : Type κ} where
  -- `Chan::new`
  unfoldable pub new : (Address → Option (Block.Block T)) → Address → S → Chan T S
  unfolding Block.new
  new heap p s = record {
    queue = Block.new heap p;
    semaphore = s;
    rx_waker = none;
    tx_count = 0;
    woken = [];
  }

  -- `Tx::new`, with the `Rc` that it is given
  unfoldable pub new_tx : Rc → Shared T S → Tx × Shared T S
  new_tx r s =
      (record { chan = r }, record s { chan = record s.chan { tx_count = s.chan.tx_count + 1 } })

  -- `Rc::new`, and `clone` for the sender
  unfoldable pub channel : (Address → Option (Block.Block T)) → Address → S → Tx × Rx × Shared T S
  unfolding new new_tx
  channel heap p semaphore =
      let s : Shared T S = record {
        chan = new heap p semaphore;
        strong = 2;
        live = true;
        lost = [];
      } in
      let (tx, s1) = new_tx rc s in (tx, new_rx rc, s1)

  -- A use of the `Chan` through an `Rc`, with a result, and without one
  abbrev pub deref {μ} :
      {A : Type μ}
      → Rc
      → (Chan T S → Outcome (A × Chan T S))
      → Shared T S
      → Outcome (A × Shared T S)
  deref r use_chan s =
      if s.live then (use_chan s.chan >>= λ (a, c). done (a, record s { chan = c })) else fault

  abbrev pub with_chan : Rc → (Chan T S → Outcome (Chan T S)) → Shared T S → Outcome (Shared T S)
  with_chan r use_chan s =
      if s.live then (use_chan s.chan >>= λ c. done (record s { chan = c })) else fault

  -- The last `Rc`: `Drop for Chan`
  abbrev pub free : ℕ → ℕ → Shared T S → Outcome (Shared T S)
  free fuel blocks s = do
    (vals, c) ← Chan.drop_chan fuel blocks s.chan
    done (record s { chan = c; strong = zero; live = false; lost = s.lost ++ vals })

  abbrev pub release : ℕ → ℕ → ℕ → Shared T S → Outcome (Shared T S)
  release fuel blocks zero s = fault
  release fuel blocks (suc zero) s = free fuel blocks s
  release fuel blocks (suc (suc n)) s = done (record s { strong = suc n })

  -- `Drop for Rc`
  unfoldable pub drop_rc : ℕ → ℕ → Rc → Shared T S → Outcome (Shared T S)
  unfolding Chan.drop_chan
  drop_rc fuel blocks r s = if s.live then release fuel blocks s.strong s else fault

  -- `Clone for Tx`
  unfoldable pub clone_tx : Tx → Shared T S → Outcome (Tx × Shared T S)
  unfolding Chan.clone_tx
  clone_tx tx s = do
    s1 ← with_chan tx.chan (λ c. done (Chan.clone_tx c)) s
    done (tx, record s1 { strong = suc s1.strong })

module _ {ℓ κ} {T : Type ℓ} {S : Type κ} (permits : Permits S) where
  -- `Drop for Tx`, and the drop of its field
  unfoldable pub drop_tx : ℕ → ℕ → Tx → Shared T S → Outcome (Shared T S)
  unfolding Chan.drop_tx drop_rc
  drop_tx fuel blocks tx s = do
    s1 ← with_chan tx.chan (Chan.drop_tx permits) s
    drop_rc fuel blocks tx.chan s1

  abbrev pub drained : List T × Shared T S → Shared T S
  drained (vals, s) = record s { lost = s.lost ++ vals }

  -- `Drop for Rx`, and the drop of its field
  unfoldable pub drop_rx : ℕ → ℕ → Rx → Shared T S → Outcome (Shared T S)
  unfolding Chan.drop_rx drop_rc
  drop_rx fuel blocks rx s = do
    r ← deref rx.chan (Chan.drop_rx permits fuel) s
    drop_rc fuel blocks rx.chan (drained r)

  unfoldable pub send : Tx → T → Shared T S → Outcome (Result SendError (Unit {0}) × Shared T S)
  unfolding Chan.send
  send tx value s = deref tx.chan (Chan.send permits value) s

  unfoldable pub recv : Rx → Waker → Shared T S → Outcome (Poll (Option T) × Shared T S)
  unfolding Chan.recv
  recv rx cx s = deref rx.chan (Chan.recv permits cx) s

  unfoldable pub try_recv : Rx → Shared T S → Outcome (Result TryRecvError T × Shared T S)
  unfolding Chan.try_recv
  try_recv rx s = deref rx.chan (Chan.try_recv permits) s

  unfoldable pub close : Rx → Shared T S → Outcome (Shared T S)
  unfolding Chan.close_rx
  close rx s = with_chan rx.chan (Chan.close_rx permits) s
