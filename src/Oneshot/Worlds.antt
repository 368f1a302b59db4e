-- ===== src/Oneshot/Worlds.antt =====
-- src/oneshot.rs: the two handles in the hands of their clients, who call what they like in any order.
-- `sent` lists the values that were given to `send`, `back` those that it gave back, and `got` those
-- that the receiver handed out.
use local_sync.Prelude.{
  ℕ, ◌≡◌, Bool, true, false, Option, none, some, is_some, List, [], ◌∷◌, ◌++◌, Outcome, done, ◌>>=◌,
  Result, ok, err,
}
use local_sync.WakeList.{Waker}
use local_sync.Oneshot.Inner.{RecvError, TryRecvError, Poll, ready, pending}
use local_sync.Oneshot.Handles
use local_sync.Oneshot.Handles.{Sender, Receiver, Shared}

pub record World {ℓ} (T : Type ℓ) : Type ℓ where
  pub sender : Option Sender
  pub receiver : Option Receiver
  pub shared : Shared T
  pub sent : List T
  pub back : List T
  pub got : List T

pub data Op {ℓ} (T : Type ℓ) : Type ℓ where
  send : T → Op T
  drop_sender : Op T
  is_closed : Op T
  poll_closed : Waker → Op T
  close : Op T
  try_recv : Op T
  poll : Waker → Op T
  drop_receiver : Op T

abbrev pub has_sender : Option Sender → Bool
has_sender none = false
has_sender (some tx) = is_some tx.inner

abbrev pub has_receiver : Option Receiver → Bool
has_receiver none = false
has_receiver (some rx) = is_some rx.inner

-- How many handles have an `Rc`
abbrev pub holders : Bool → Bool → ℕ
holders true true = 2
holders true false = 1
holders false true = 1
holders false false = 0

-- `poll` panics after it handed out the value, or `try_recv` anything but `Empty`.
abbrev pub can_poll : Option Receiver → Bool
can_poll none = true
can_poll (some rx) = is_some rx.inner

module _ {ℓ} {T : Type ℓ} where
  abbrev pub given_back : Result T (Unit {0}) → List T
  given_back (ok _) = []
  given_back (err t) = t ∷ []

  abbrev pub tried : Result TryRecvError T → List T
  tried (ok t) = t ∷ []
  tried (err _) = []

  abbrev pub polled : Poll (Result RecvError T) → List T
  polled pending = []
  polled (ready (ok t)) = t ∷ []
  polled (ready (err _)) = []

  -- `send` and the drops take the handle itself; a client who has let go of a handle calls nothing.
  abbrev pub send_with : T → World T → Option Sender → Outcome (World T)
  send_with t w none = done w
  send_with t w (some tx) = do
    (res, s) ← Handles.send tx t w.shared
    done (record w {
      sender = none;
      shared = s;
      sent = w.sent ++ t ∷ [];
      back = w.back ++ given_back res;
    })

  abbrev pub drop_sender_with : World T → Option Sender → Outcome (World T)
  drop_sender_with w none = done w
  drop_sender_with w (some tx) =
      Handles.drop_sender tx w.shared >>= λ s. done (record w { sender = none; shared = s })

  abbrev pub is_closed_with : World T → Option Sender → Outcome (World T)
  is_closed_with w none = done w
  is_closed_with w (some tx) = Handles.is_closed tx w.shared >>= λ _. done w

  abbrev pub poll_closed_with : Waker → World T → Option Sender → Outcome (World T)
  poll_closed_with cx w none = done w
  poll_closed_with cx w (some tx) =
      Handles.poll_closed tx cx w.shared >>= λ (_, s). done (record w { shared = s })

  abbrev pub close_with : World T → Option Receiver → Outcome (World T)
  close_with w none = done w
  close_with w (some rx) = Handles.close rx w.shared >>= λ s. done (record w { shared = s })

  abbrev pub try_recv_with : World T → Option Receiver → Outcome (World T)
  try_recv_with w none = done w
  try_recv_with w (some rx) = Handles.try_recv rx w.shared >>= λ (res, rx1, s).
      done (record w { receiver = some rx1; shared = s; got = w.got ++ tried res })

  abbrev pub poll_with : Waker → World T → Option Receiver → Outcome (World T)
  poll_with cx w none = done w
  poll_with cx w (some rx) = Handles.poll rx cx w.shared >>= λ (res, rx1, s).
      done (record w { receiver = some rx1; shared = s; got = w.got ++ polled res })

  abbrev pub drop_receiver_with : World T → Option Receiver → Outcome (World T)
  drop_receiver_with w none = done w
  drop_receiver_with w (some rx) =
      Handles.drop_receiver rx w.shared >>= λ s. done (record w { receiver = none; shared = s })

  unfoldable pub step : Op T → World T → Outcome (World T)
  unfolding Handles.send Handles.drop_sender Handles.is_closed Handles.poll_closed Handles.close
      Handles.try_recv Handles.poll Handles.drop_receiver
  step (send t) w = send_with t w w.sender
  step drop_sender w = drop_sender_with w w.sender
  step is_closed w = is_closed_with w w.sender
  step (poll_closed cx) w = poll_closed_with cx w w.sender
  step close w = close_with w w.receiver
  step try_recv w = try_recv_with w w.receiver
  step (poll cx) w = poll_with cx w w.receiver
  step drop_receiver w = drop_receiver_with w w.receiver

  unfoldable pub allowed : Op T → World T → Bool
  allowed (poll cx) w = can_poll w.receiver
  allowed _ w = true

  -- A new channel, and both handles
  unfoldable pub opened : World T
  unfolding Handles.channel
  opened =
      let (tx, rx, s) = Handles.channel in
      record { sender = some tx; receiver = some rx; shared = s; sent = []; back = []; got = [] }

-- The histories of a channel
pub data Reach {ℓ} {T : Type ℓ} : World T → Type ℓ where
  start : Reach opened
  after : (op : Op T) {v w : World T} → Reach v → allowed op v ≡ true → step op v ≡ done w → Reach w
