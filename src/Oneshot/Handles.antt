-- ===== src/Oneshot/Handles.antt =====
-- src/oneshot.rs: `Sender` and `Receiver`, each with its `Option<Rc<Inner<T>>>`, over the one
-- allocation that both point to. The allocation counts its `Rc`s; the last one to go drops the shared
-- part and frees it. To use an `Rc` of a freed allocation is undefined behaviour. `lost` logs the
-- values that are dropped without being handed to anyone.
use local_sync.Prelude.{
  ℕ, zero, suc, Bool, true, false, Option, none, some, List, [], ◌∷◌, ◌++◌, if◌then◌else◌, Outcome,
  done, panic, fault, ◌>>=◌, unwrap, Result, err,
}
use local_sync.WakeList.{Waker}
use local_sync.Oneshot.Inner
use local_sync.Oneshot.Inner.{Inner, RecvError, TryRecvError, closed, Poll}

-- An `Rc` to the allocation
pub data Rc : Type 0 where
  rc : Rc

pub record Sender : Type 0 where
  pub inner : Option Rc

pub record Receiver : Type 0 where
  pub inner : Option Rc

pub record Shared {ℓ} (T : Type ℓ) : Type ℓ where
  pub inner : Inner T
  pub strong : ℕ
  pub live : Bool
  pub lost : List T

-- The values in an `Option`, as a list
abbrev pub held {ℓ} : {T : Type ℓ} → Option T → List T
held none = []
held (some t) = t ∷ []

module _ {ℓ} {T : Type ℓ} where
  -- `Rc::new`, `clone` for the sender, and the two handles
  unfoldable pub channel : Sender × Receiver × Shared T
  unfolding Inner.channel
  channel = (
    record { inner = some rc },
    record { inner = some rc },
    record { inner = Inner.channel; strong = 2; live = true; lost = [] },
  )

  -- A use of the shared part through an `Rc`
  abbrev pub deref {κ} :
      {A : Type κ} → Rc → (Inner T → Outcome (A × Inner T)) → Shared T → Outcome (A × Shared T)
  deref r use_inner s =
      if s.live then (use_inner s.inner >>= λ (a, i). done (a, record s { inner = i })) else fault

  -- The same for a use that returns nothing
  abbrev pub with_inner : Rc → (Inner T → Outcome (Inner T)) → Shared T → Outcome (Shared T)
  with_inner r use_inner s =
      if s.live then (use_inner s.inner >>= λ i. done (record s { inner = i })) else fault

  -- The last `Rc`: `Drop for Inner`, then the fields of `Inner`, of which only `value` drops anything.
  abbrev pub free : Shared T → Outcome (Shared T)
  free s = do
    i ← Inner.drop s.inner
    done (record s {
      inner = record i { value = none };
      strong = zero;
      live = false;
      lost = s.lost ++ held i.value;
    })

  abbrev pub release : ℕ → Shared T → Outcome (Shared T)
  release zero s = fault
  release (suc zero) s = free s
  release (suc (suc n)) s = done (record s { strong = suc n })

  -- `Drop for Rc`
  unfoldable pub drop_rc : Rc → Shared T → Outcome (Shared T)
  unfolding Inner.drop
  drop_rc r s = if s.live then release s.strong s else fault

  -- The drop of a field `Option<Rc<Inner<T>>>`
  abbrev pub drop_field : Option Rc → Shared T → Outcome (Shared T)
  drop_field none s = done s
  drop_field (some r) s = drop_rc r s

  abbrev pub complete_held : Option Rc → Shared T → Outcome (Shared T)
  complete_held none s = done s
  complete_held (some r) s = with_inner r Inner.drop_sender s

  -- `Drop for Sender`, and the drop of its field
  unfoldable pub drop_sender : Sender → Shared T → Outcome (Shared T)
  unfolding drop_rc Inner.drop_sender
  drop_sender tx s = do s1 ← complete_held tx.inner s; drop_field tx.inner s1

  -- `Sender::send`: the value that the cell held before is dropped, then the local `inner`, then
  -- `self`, which has none left.
  unfoldable pub send : Sender → T → Shared T → Outcome (Result T (Unit {0}) × Shared T)
  unfolding Inner.send drop_rc drop_sender
  send tx t s = do
    inner ← unwrap tx.inner
    let before = held s.inner.value
    (res, s1) ← deref inner (Inner.send t) s
    s2 ← drop_rc inner (record s1 { lost = s1.lost ++ before })
    s3 ← drop_sender (record tx { inner = none }) s2
    done (res, s3)

  -- `Sender::is_closed`
  unfoldable pub is_closed : Sender → Shared T → Outcome Bool
  unfolding Inner.is_closed
  is_closed tx s = do
    inner ← unwrap tx.inner
    (b, _) ← deref inner (λ i. done (Inner.is_closed i, i)) s
    done b

  -- `Sender::poll_closed`
  unfoldable pub poll_closed : Sender → Waker → Shared T → Outcome (Poll (Unit {0}) × Shared T)
  unfolding Inner.poll_closed
  poll_closed tx cx s = do inner ← unwrap tx.inner; deref inner (Inner.poll_closed cx) s

  abbrev pub close_held : Option Rc → Shared T → Outcome (Shared T)
  close_held none s = done s
  close_held (some r) s = with_inner r (Inner.close_receiver true) s

  -- `Receiver::close`
  unfoldable pub close : Receiver → Shared T → Outcome (Shared T)
  unfolding Inner.close_receiver
  close rx s = close_held rx.inner s

  -- `Drop for Receiver`, and the drop of its field
  unfoldable pub drop_receiver : Receiver → Shared T → Outcome (Shared T)
  unfolding Inner.close_receiver drop_rc
  drop_receiver rx s = do s1 ← close_held rx.inner s; drop_field rx.inner s1

  -- What an operation of the receiver leaves: with `self.inner = None` the `Rc` goes.
  abbrev pub keep {κ} : {A : Type κ} → Rc → A × Bool → Shared T → Outcome (A × Receiver × Shared T)
  keep r (a, true) s = done (a, record { inner = some r }, s)
  keep r (a, false) s = do s1 ← drop_rc r s; done (a, record { inner = none }, s1)

  abbrev pub try_recv_held :
      Option Rc → Shared T → Outcome (Result TryRecvError T × Receiver × Shared T)
  try_recv_held none s = done (err closed, record { inner = none }, s)
  try_recv_held (some r) s = do
    (a, s1) ← deref r (λ i. let (res, kept, i1) = Inner.try_recv true i in done ((res, kept), i1)) s
    keep r a s1

  -- `Receiver::try_recv`
  unfoldable pub try_recv :
      Receiver → Shared T → Outcome (Result TryRecvError T × Receiver × Shared T)
  unfolding Inner.try_recv drop_rc
  try_recv rx s = try_recv_held rx.inner s

  abbrev pub poll_held :
      Waker → Option Rc → Shared T → Outcome (Poll (Result RecvError T) × Receiver × Shared T)
  poll_held cx none s = panic
  poll_held cx (some r) s = do
    (a, s1) ← deref r (λ i. Inner.poll cx true i >>= λ (res, kept, i1). done ((res, kept), i1)) s
    keep r a s1

  -- `Future::poll` for `Receiver`
  unfoldable pub poll :
      Receiver → Waker → Shared T → Outcome (Poll (Result RecvError T) × Receiver × Shared T)
  unfolding Inner.poll drop_rc
  poll rx cx s = poll_held cx rx.inner s
