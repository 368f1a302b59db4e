-- ===== src/Mpsc/Chan.antt =====
-- src/mpsc/chan.rs over src/mpsc/semaphore.rs: the part that all handles share, and the operations of
-- `Tx` and `Rx`. `woken` logs the receiver's wakers that are woken.
use local_sync.Prelude.{
  ℕ, zero, suc, ◌+◌, ◌-◌, Bool, true, false, Option, none, some, List, [], ◌∷◌, ◌++◌, ◌==◌, ltb,
  if◌then◌else◌, Outcome, done, out_of_fuel, ◌>>=◌, ◌>>◌, assert, Result, ok, err,
}
use local_sync.WakeList.{Waker}
use local_sync.Semaphore.Inner
use local_sync.Semaphore.Inner.{Inner}
use local_sync.Semaphore.Release.{release}
use local_sync.Mpsc.Block
use local_sync.Mpsc.Block.{Queue, Address, push_unchecked, pop_unchecked, free_blocks}

-- The trait `Semaphore`, as operations on a state `S`.
pub record Permits {κ} (S : Type κ) : Type κ where
  pub add : ℕ → S → Outcome S
  pub close : S → Outcome S
  pub is_closed : S → Bool

-- `Unlimited`
pub record Unlimited : Type 0 where
  pub closed : Bool

unfoldable pub unlimited : Unlimited
unlimited = record { closed = false }

unfoldable pub unlimited_permits : Permits Unlimited
unlimited_permits = record {
  add = λ n s. done s;
  close = λ s. done (record { closed = true });
  is_closed = λ s. s.closed;
}

-- The core of the semaphore as an instance; its loops run on fuel.
unfoldable pub inner_permits : ℕ → Permits Inner
inner_permits fuel = record {
  add = λ n s. release fuel n s;
  close = λ s. Inner.close fuel s;
  is_closed = λ s. Inner.is_closed s;
}

pub data SendError : Type 0 where
  rx_closed : SendError

pub data TryRecvError : Type 0 where
  empty : TryRecvError
  disconnected : TryRecvError

pub data Poll {ℓ} (A : Type ℓ) : Type ℓ where
  ready : A → Poll A
  pending : Poll A

pub record Chan {ℓ κ} (T : Type ℓ) (S : Type κ) : Type (ℓ ⊔ κ) where
  pub queue : Queue T
  pub semaphore : S
  pub rx_waker : Option Waker
  pub tx_count : ℕ
  pub woken : List Waker

-- The waker that is registered after a poll by `cx`
abbrev pub registered : Option Waker → Waker → Option Waker
registered none cx = some cx
registered (some w) cx = if w == cx then some w else some cx

module _ {ℓ} {T : Type ℓ} where
  -- "consume all elements": the values that are dropped
  unfoldable pub drain : ℕ → Queue T → Outcome (List T × Queue T)
  unfolding Block.is_empty pop_unchecked
  drain zero q = if Block.is_empty q then done ([], q) else out_of_fuel
  drain (suc fuel) q = elim (Block.is_empty q) [
    | true ↦ done ([], q)
    | false ↦ (do (val, q1) ← pop_unchecked q; (rest, q2) ← drain fuel q1; done (val ∷ rest, q2))
  ]

module _ {ℓ κ} {T : Type ℓ} {S : Type κ} where
  -- `channel`: one `Tx`, which counts itself, and the `Rx`
  unfoldable pub channel : (Address → Option (Block.Block T)) → Address → S → Chan T S
  unfolding Block.new
  channel heap p s = record {
    queue = Block.new heap p;
    semaphore = s;
    rx_waker = none;
    tx_count = 1;
    woken = [];
  }

  -- `replace(None)` or `take()`, and `wake`
  abbrev pub wake_rx : Chan T S → Option Waker → Chan T S
  wake_rx c none = record c { rx_waker = none }
  wake_rx c (some w) = record c { rx_waker = none; woken = c.woken ++ w ∷ [] }

  unfoldable pub clone_tx : Chan T S → Chan T S
  clone_tx c = record c { tx_count = c.tx_count + 1 }

  -- `Drop for Chan`
  unfoldable pub drop_chan : ℕ → ℕ → Chan T S → Outcome (List T × Chan T S)
  unfolding drain free_blocks
  drop_chan fuel blocks c = do
    (vals, q) ← drain fuel c.queue
    q2 ← free_blocks blocks q
    done (vals, record c { queue = q2 })

module _ {ℓ κ} {T : Type ℓ} {S : Type κ} (permits : Permits S) where
  unfoldable pub send : T → Chan T S → Outcome (Result SendError (Unit {0}) × Chan T S)
  unfolding push_unchecked
  send value c =
      if permits.is_closed c.semaphore
      then done (err rx_closed, c)
      else (push_unchecked value c.queue >>= λ q.
          done (ok tt, wake_rx (record c { queue = q }) c.rx_waker))

  unfoldable pub is_closed : Chan T S → Bool
  is_closed c = permits.is_closed c.semaphore

  -- `Drop for Tx`; the count goes below zero only with a panic.
  unfoldable pub drop_tx : Chan T S → Outcome (Chan T S)
  drop_tx c = do
    assert (ltb 0 c.tx_count)
    let c1 = record c { tx_count = c.tx_count - 1 }
    if c.tx_count == 1
        then (permits.close c1.semaphore >>= λ s.
            done (wake_rx (record c1 { semaphore = s }) c1.rx_waker))
        else done c1

  -- A value out of the queue, and its permit back
  abbrev pub take_one : Chan T S → Outcome (T × Chan T S)
  take_one c = do
    (val, q) ← pop_unchecked c.queue
    s ← permits.add 1 c.semaphore
    done (val, record c { queue = q; semaphore = s })

  unfoldable pub try_recv : Chan T S → Outcome (Result TryRecvError T × Chan T S)
  unfolding Block.is_empty pop_unchecked
  try_recv c =
      if Block.is_empty c.queue
      then done (if c.tx_count == 0 then err disconnected else err empty, c)
      else (take_one c >>= λ (val, c1). done (ok val, c1))

  unfoldable pub recv : Waker → Chan T S → Outcome (Poll (Option T) × Chan T S)
  unfolding Block.is_empty pop_unchecked
  recv cx c =
      if Block.is_empty c.queue
      then (if c.tx_count == 0
          then done (ready none, c)
          else done (pending, record c { rx_waker = registered c.rx_waker cx }))
      else (take_one c >>= λ (val, c1). done (ready (some val), c1))

  unfoldable pub close_rx : Chan T S → Outcome (Chan T S)
  close_rx c = do s ← permits.close c.semaphore; done (record c { semaphore = s })

  -- `Drop for Rx`
  unfoldable pub drop_rx : ℕ → Chan T S → Outcome (List T × Chan T S)
  unfolding drain Block.len
  drop_rx fuel c = do
    s ← permits.close c.semaphore
    let len = Block.len c.queue
    (vals, q) ← drain fuel c.queue
    s2 ← permits.add len s
    done (vals, record c { queue = q; semaphore = s2 })
