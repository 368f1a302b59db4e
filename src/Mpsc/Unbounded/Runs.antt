-- ===== src/Mpsc/Unbounded/Runs.antt =====
-- src/mpsc/unbounded.rs: a channel without a bound with its handles, and the operations of its clients
-- in any order. `txs` counts the senders and `rx` says whether the receiver is there; who has let go of
-- a handle calls nothing. `accepted` logs the values that `send` took, and `taken` those that the
-- receiver handed out.
use local_sync.Prelude.{
  ℕ, zero, suc, ◌≤◌, ◌≡◌, Bool, true, false, Option, none, some, List, [], ◌∷◌, ◌++◌, Outcome, done,
  ◌>>=◌, Result, ok, err,
}
use local_sync.WakeList.{Waker}
use local_sync.Mpsc.Block
use local_sync.Mpsc.Block.{Address}
use local_sync.Mpsc.Chan.{
  SendError, TryRecvError, Poll, ready, pending, Unlimited, unlimited, unlimited_permits,
}
use local_sync.Mpsc.Handles
use local_sync.Mpsc.Handles.{Tx, Rx, Shared, rc}

pub record Run {ℓ} (T : Type ℓ) : Type ℓ where
  pub shared : Shared T Unlimited
  pub txs : ℕ
  pub rx : Bool
  pub accepted : List T
  pub taken : List T

pub data Op {ℓ} (T : Type ℓ) : Type ℓ where
  send : T → Op T
  clone_tx : Op T
  drop_tx : Op T
  recv : Waker → Op T
  try_recv : Op T
  close : Op T
  drop_rx : Op T

abbrev pub tx_rc : Tx
tx_rc = record { chan = rc }

abbrev pub rx_rc : Rx
rx_rc = record { chan = rc }

module _ {ℓ} {T : Type ℓ} where
  abbrev pub logged : T → Result SendError (Unit {0}) → List T
  logged t (ok _) = t ∷ []
  logged t (err _) = []

  abbrev pub received : Poll (Option T) → List T
  received pending = []
  received (ready none) = []
  received (ready (some t)) = t ∷ []

  abbrev pub tried : Result TryRecvError T → List T
  tried (ok t) = t ∷ []
  tried (err _) = []

  -- With a sender, and with the receiver
  abbrev pub send_by : T → Run T → ℕ → Outcome (Run T)
  send_by t r zero = done r
  send_by t r (suc n) = Handles.send unlimited_permits tx_rc t r.shared >>= λ (res, s).
      done (record r { shared = s; accepted = r.accepted ++ logged t res })

  abbrev pub clone_by : Run T → ℕ → Outcome (Run T)
  clone_by r zero = done r
  clone_by r (suc n) = Handles.clone_tx tx_rc r.shared >>= λ (_, s).
      done (record r { shared = s; txs = suc (suc n) })

  abbrev pub drop_by : ℕ → ℕ → Run T → ℕ → Outcome (Run T)
  drop_by fuel blocks r zero = done r
  drop_by fuel blocks r (suc n) =
      Handles.drop_tx unlimited_permits fuel blocks tx_rc r.shared >>= λ s.
      done (record r { shared = s; txs = n })

  abbrev pub recv_by : Waker → Run T → Bool → Outcome (Run T)
  recv_by cx r false = done r
  recv_by cx r true = Handles.recv unlimited_permits rx_rc cx r.shared >>= λ (res, s).
      done (record r { shared = s; taken = r.taken ++ received res })

  abbrev pub try_by : Run T → Bool → Outcome (Run T)
  try_by r false = done r
  try_by r true = Handles.try_recv unlimited_permits rx_rc r.shared >>= λ (res, s).
      done (record r { shared = s; taken = r.taken ++ tried res })

  abbrev pub close_by : Run T → Bool → Outcome (Run T)
  close_by r false = done r
  close_by r true =
      Handles.close unlimited_permits rx_rc r.shared >>= λ s. done (record r { shared = s })

  abbrev pub drop_rx_by : ℕ → ℕ → Run T → Bool → Outcome (Run T)
  drop_rx_by fuel blocks r false = done r
  drop_rx_by fuel blocks r true =
      Handles.drop_rx unlimited_permits fuel blocks rx_rc r.shared >>= λ s.
      done (record r { shared = s; rx = false })

  unfoldable pub step : ℕ → ℕ → Op T → Run T → Outcome (Run T)
  unfolding unlimited_permits Handles.send Handles.clone_tx Handles.drop_tx Handles.recv
      Handles.try_recv Handles.close Handles.drop_rx
  step fuel blocks (send t) r = send_by t r r.txs
  step fuel blocks clone_tx r = clone_by r r.txs
  step fuel blocks drop_tx r = drop_by fuel blocks r r.txs
  step fuel blocks (recv cx) r = recv_by cx r r.rx
  step fuel blocks try_recv r = try_by r r.rx
  step fuel blocks close r = close_by r r.rx
  step fuel blocks drop_rx r = drop_rx_by fuel blocks r r.rx

  unfoldable pub opened : (Address → Option (Block.Block T)) → Address → Run T
  unfolding Handles.channel unlimited
  opened heap p =
      let (tx, rx, s) = Handles.channel heap p unlimited in
      record { shared = s; txs = 1; rx = true; accepted = []; taken = [] }

-- The runs that clients can bring about. The loops of a drop are given fuel for each value in the queue,
-- and for each block that was ever allocated.
pub data Reach {ℓ} {T : Type ℓ} : Run T → Type ℓ where
  start : (heap : Address → Option (Block.Block T)) (p : Address) → Reach (opened heap p)
  after :
      (fuel blocks : ℕ) (op : Op T) {r s : Run T}
      → Reach r
      → r.shared.chan.queue.len ≤ fuel
      → r.shared.chan.queue.fresh ≤ blocks
      → step fuel blocks op r ≡ done s
      → Reach s
