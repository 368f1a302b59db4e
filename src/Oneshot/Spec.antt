-- ===== src/Oneshot/Spec.antt =====
-- What src/oneshot.rs is to do, apart from the word of flags: two flags, and two slots that know
-- whether they hold a waker.
use local_sync.Prelude.{
  Bool, true, false, Option, none, some, is_some, List, [], ◌∷◌, ◌++◌, ◌==◌, if◌then◌else◌, Result,
  ok, err,
}
use local_sync.WakeList.{Waker}
use local_sync.Oneshot.State.{word}
use local_sync.Oneshot.Inner.{
  Inner, RecvError, recv_error, TryRecvError, empty, closed, Poll, ready, pending, received,
}

pub record Channel {ℓ} (T : Type ℓ) : Type ℓ where
  pub sent : Bool
  pub shut : Bool
  pub value : Option T
  pub tx_task : Option Waker
  pub rx_task : Option Waker
  pub woken : List Waker
  pub dropped : List Waker

-- A log after the waker of a slot, if it holds one
abbrev pub log : List Waker → Option Waker → List Waker
log l none = l
log l (some w) = l ++ w ∷ []

-- The wakers dropped when `cx` polls: one that does not wake the same task makes room.
abbrev pub refresh : List Waker → Option Waker → Waker → List Waker
refresh l none cx = l
refresh l (some w) cx = if w == cx then l else l ++ w ∷ []

module _ {ℓ} {T : Type ℓ} where
  -- The program's state that stands for a channel
  abbrev pub concrete : Channel T → Inner T
  concrete c = record {
    state = word (is_some c.rx_task) c.sent c.shut (is_some c.tx_task);
    value = c.value;
    tx_task = c.tx_task;
    rx_task = c.rx_task;
    woken = c.woken;
    dropped = c.dropped;
  }

  unfoldable pub open_channel : Channel T
  open_channel = record {
    sent = false;
    shut = false;
    value = none;
    tx_task = none;
    rx_task = none;
    woken = [];
    dropped = [];
  }

  unfoldable pub complete : Channel T → Channel T
  complete c = record c { sent = true; woken = if c.shut then c.woken else log c.woken c.rx_task }

  unfoldable pub send : T → Channel T → Result T (Unit {0}) × Channel T
  send t c =
      if c.shut
      then (err t, record c { sent = true; value = none })
      else (ok tt, record c { sent = true; value = some t; woken = log c.woken c.rx_task })

  unfoldable pub close : Channel T → Channel T
  close c = record c { shut = true; woken = if c.sent then c.woken else log c.woken c.tx_task }

  unfoldable pub poll_closed : Waker → Channel T → Poll (Unit {0}) × Channel T
  poll_closed cx c =
      if c.shut
      then (ready tt, c)
      else (pending, record c { tx_task = some cx; dropped = refresh c.dropped c.tx_task cx })

  unfoldable pub poll_recv : Waker → Channel T → Poll (Result RecvError T) × Channel T
  poll_recv cx c =
      if c.sent
      then (ready (received c.value), record c { value = none })
      else if c.shut
      then (ready (err recv_error), c)
      else (pending, record c { rx_task = some cx; dropped = refresh c.dropped c.rx_task cx })

  abbrev pub tried : Option T → Result TryRecvError T
  tried (some v) = ok v
  tried none = err closed

  unfoldable pub try_recv : Channel T → Result TryRecvError T × Bool × Channel T
  try_recv c =
      if c.sent
      then (tried c.value, false, record c { value = none })
      else if c.shut
      then (err closed, false, c)
      else (err empty, true, c)
