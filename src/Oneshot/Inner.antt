-- ===== src/Oneshot/Inner.antt =====
-- src/oneshot.rs: the part that both halves share, and the operations of `Sender` and `Receiver`.
-- A task slot is `none` while it holds no waker: to read it then is undefined behaviour. `woken` logs
-- the wakers in the order in which they are woken, and `dropped` the wakers that are dropped.
use local_sync.Prelude.{
  ℕ, Bool, true, false, not, ◌&&◌, Option, none, some, List, [], ◌∷◌, ◌++◌, ◌==◌, if◌then◌else◌,
  Outcome, done, panic, ◌>>=◌, assume_init, unwrap, Result, ok, err,
}
use local_sync.WakeList.{Waker}
use local_sync.Oneshot.State

pub data RecvError : Type 0 where
  recv_error : RecvError

pub data TryRecvError : Type 0 where
  empty : TryRecvError
  closed : TryRecvError

pub data Poll {ℓ} (A : Type ℓ) : Type ℓ where
  ready : A → Poll A
  pending : Poll A

pub record Inner {ℓ} (T : Type ℓ) : Type ℓ where
  pub state : ℕ
  pub value : Option T
  pub tx_task : Option Waker
  pub rx_task : Option Waker
  pub woken : List Waker
  pub dropped : List Waker

-- `Task::will_wake`. Two wakers wake the same task if they are equal.
abbrev pub will_wake : Option Waker → Waker → Outcome Bool
will_wake t cx = do w ← assume_init t; done (w == cx)

module _ {ℓ} {T : Type ℓ} where
  -- `channel`, but for the two handles
  unfoldable pub channel : Inner T
  unfolding State.new
  channel = record {
    state = State.new;
    value = none;
    tx_task = none;
    rx_task = none;
    woken = [];
    dropped = [];
  }

  -- `with_task(Waker::wake_by_ref)`
  abbrev pub wake_by_ref : Option Waker → Inner T → Outcome (Inner T)
  wake_by_ref t s = do w ← assume_init t; done (record s { woken = s.woken ++ w ∷ [] })

  -- `drop_task`
  abbrev pub drop_tx_task : Inner T → Outcome (Inner T)
  drop_tx_task s = do
    w ← assume_init s.tx_task
    done (record s { tx_task = none; dropped = s.dropped ++ w ∷ [] })

  abbrev pub drop_rx_task : Inner T → Outcome (Inner T)
  drop_rx_task s = do
    w ← assume_init s.rx_task
    done (record s { rx_task = none; dropped = s.dropped ++ w ∷ [] })

  -- `complete`; the cell's new content is what the code calls `prev`.
  unfoldable pub complete : Inner T → Outcome (Bool × Inner T)
  complete s =
      let prev = State.set_complete s.state in
      let s1 = record s { state = prev } in
      if State.is_closed prev
      then done (false, s1)
      else if State.is_rx_task_set prev
      then (wake_by_ref s1.rx_task s1 >>= λ s2. done (true, s2))
      else done (true, s1)

  abbrev pub consume_value : Inner T → Option T × Inner T
  consume_value s = (s.value, record s { value = none })

  -- `Inner::close`
  unfoldable pub close : Inner T → Outcome (Inner T)
  close s =
      let prev = State.set_closed s.state in
      let s1 = record s { state = prev } in
      if State.is_tx_task_set prev && not (State.is_complete prev)
      then wake_by_ref s1.tx_task s1
      else done s1

  -- `Sender::send`. The sender is used up: its `Drop` finds no `inner`.
  unfoldable pub send : T → Inner T → Outcome (Result T (Unit {0}) × Inner T)
  unfolding complete
  send t s = do
    (completed, s1) ← complete (record s { value = some t })
    if completed
        then done (ok tt, s1)
        else (do let (v, s2) = consume_value s1; back ← unwrap v; done (err back, s2))

  -- `Drop for Sender`
  unfoldable pub drop_sender : Inner T → Outcome (Inner T)
  unfolding complete
  drop_sender s = do (_, s1) ← complete s; done s1

  unfoldable pub is_closed : Inner T → Bool
  is_closed s = State.is_closed s.state

  -- `poll_closed` from "Attempt to set the task" on; `state` is the local variable.
  abbrev pub register_tx : Waker → ℕ → Inner T → Outcome (Poll (Unit {0}) × Inner T)
  register_tx cx state s =
      if State.is_tx_task_set state
      then done (pending, s)
      else let s1 = record s { tx_task = some cx; state = State.set_tx_task s.state } in
        if State.is_closed s1.state then done (ready tt, s1) else done (pending, s1)

  -- The branch in which the waker has changed.
  abbrev pub replace_tx : Waker → Inner T → Outcome (Poll (Unit {0}) × Inner T)
  replace_tx cx s =
      let state = State.unset_tx_task s.state in
      let s1 = record s { state = state } in
      if State.is_closed state
      then done (ready tt, record s1 { state = State.set_tx_task s1.state })
      else (drop_tx_task s1 >>= λ s2. register_tx cx state s2)

  -- `Sender::poll_closed`
  unfoldable pub poll_closed : Waker → Inner T → Outcome (Poll (Unit {0}) × Inner T)
  poll_closed cx s =
      if State.is_closed s.state
      then done (ready tt, s)
      else if State.is_tx_task_set s.state
      then (will_wake s.tx_task cx >>= λ same.
          if same then register_tx cx s.state s else replace_tx cx s)
      else register_tx cx s.state s

  -- A poll of the future of `closed`, which polls `poll_closed`
  unfoldable pub await_closed : Waker → Inner T → Outcome (Poll (Unit {0}) × Inner T)
  unfolding poll_closed
  await_closed cx s = poll_closed cx s

  abbrev pub received : Option T → Result RecvError T
  received (some v) = ok v
  received none = err recv_error

  abbrev pub take_value : Inner T → Poll (Result RecvError T) × Inner T
  take_value s = let (v, s1) = consume_value s in (ready (received v), s1)

  abbrev pub register_rx : Waker → ℕ → Inner T → Outcome (Poll (Result RecvError T) × Inner T)
  register_rx cx state s =
      if State.is_rx_task_set state
      then done (pending, s)
      else let s1 = record s { rx_task = some cx; state = State.set_rx_task s.state } in
        if State.is_complete s1.state then done (take_value s1) else done (pending, s1)

  abbrev pub replace_rx : Waker → Inner T → Outcome (Poll (Result RecvError T) × Inner T)
  replace_rx cx s =
      let state = State.unset_rx_task s.state in
      let s1 = record s { state = state } in
      if State.is_complete state
      then done (take_value (record s1 { state = State.set_rx_task s1.state }))
      else (drop_rx_task s1 >>= λ s2. register_rx cx state s2)

  -- `Inner::poll_recv`
  unfoldable pub poll_recv : Waker → Inner T → Outcome (Poll (Result RecvError T) × Inner T)
  poll_recv cx s =
      if State.is_complete s.state
      then done (take_value s)
      else if State.is_closed s.state
      then done (ready (err recv_error), s)
      else if State.is_rx_task_set s.state
      then (will_wake s.rx_task cx >>= λ same.
          if same then register_rx cx s.state s else replace_rx cx s)
      else register_rx cx s.state s

  -- `Receiver::try_recv` on a receiver that has its `inner`, or has lost it; and whether it has it after.
  unfoldable pub try_recv : Bool → Inner T → Result TryRecvError T × Bool × Inner T
  try_recv false s = (err closed, false, s)
  try_recv true s =
      if State.is_complete s.state
      then (let (v, s1) = consume_value s in
          (elim v [ some x ↦ ok x | none ↦ err closed ], false, s1))
      else if State.is_closed s.state
      then (err closed, false, s)
      else (err empty, true, s)

  -- `Future::poll` for `Receiver`: an error leaves `inner` in place, a value takes it away.
  abbrev pub attached : Poll (Result RecvError T) → Bool
  attached pending = true
  attached (ready (err e)) = true
  attached (ready (ok v)) = false

  unfoldable pub poll :
      Waker → Bool → Inner T → Outcome (Poll (Result RecvError T) × Bool × Inner T)
  unfolding poll_recv
  poll cx false s = panic
  poll cx true s = do (r, s1) ← poll_recv cx s; done (r, attached r, s1)

  -- `Receiver::close`, and `Drop for Receiver`
  unfoldable pub close_receiver : Bool → Inner T → Outcome (Inner T)
  unfolding close
  close_receiver false s = done s
  close_receiver true s = close s

  -- `Drop for Inner`
  unfoldable pub drop : Inner T → Outcome (Inner T)
  drop s = do
    s1 ← (if State.is_rx_task_set s.state then drop_rx_task s else done s)
    if State.is_tx_task_set s.state then drop_tx_task s1 else done s1
