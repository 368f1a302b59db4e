-- ===== src/Oneshot/Deliver.antt =====
-- src/oneshot.rs: what the two halves see, in any order of their operations.
use local_sync.Prelude.{
  ◌≡◌, refl, ap, Bool, true, false, none, some, List, [], ◌∷◌, if◌then◌else◌, Outcome, done, ◌>>=◌,
  ok, err,
}
use local_sync.WakeList.{Waker}
use local_sync.Oneshot.State
use local_sync.Oneshot.Inner
use local_sync.Oneshot.Inner.{Inner}
use local_sync.Oneshot.Spec
use local_sync.Oneshot.Spec.{Channel, concrete, open_channel, log}
use local_sync.Oneshot.Refine.{
  complete_lem, send_lem, close_lem, poll_closed_lem, poll_recv_lem, try_recv_lem,
}

-- The operations of the two halves
pub data Op {ℓ} (T : Type ℓ) : Type ℓ where
  send : T → Op T
  drop_sender : Op T
  poll_closed : Waker → Op T
  poll_recv : Waker → Op T
  try_recv : Op T
  close_receiver : Op T

module _ {ℓ} {T : Type ℓ} where
  -- An operation, without the value it returns
  abbrev pub step : Op T → Inner T → Outcome (Inner T)
  step (send t) s = Inner.send t s >>= λ (_, s1). done s1
  step drop_sender s = Inner.drop_sender s
  step (poll_closed cx) s = Inner.poll_closed cx s >>= λ (_, s1). done s1
  step (poll_recv cx) s = Inner.poll_recv cx s >>= λ (_, s1). done s1
  step try_recv s = done (Inner.try_recv true s).2
  step close_receiver s = Inner.close_receiver true s

  abbrev pub run : List (Op T) → Inner T → Outcome (Inner T)
  run [] s = done s
  run (o ∷ os) s = step o s >>= λ s1. run os s1

  abbrev pub spec_step : Op T → Channel T → Channel T
  spec_step (send t) c = (Spec.send t c).1
  spec_step drop_sender c = Spec.complete c
  spec_step (poll_closed cx) c = (Spec.poll_closed cx c).1
  spec_step (poll_recv cx) c = (Spec.poll_recv cx c).1
  spec_step try_recv c = (Spec.try_recv c).2
  spec_step close_receiver c = Spec.close c

  abbrev pub spec_run : List (Op T) → Channel T → Channel T
  spec_run [] c = c
  spec_run (o ∷ os) c = spec_run os (spec_step o c)

  step_lem : (o : Op T) (c : Channel T) → step o (concrete c) ≡ done (concrete (spec_step o c))
  unfolding Inner.drop_sender Inner.close_receiver
  step_lem (send t) c = rw (send_lem t c) refl
  step_lem drop_sender c = rw (complete_lem c) refl
  step_lem (poll_closed cx) c = rw (poll_closed_lem cx c) refl
  step_lem (poll_recv cx) c = rw (poll_recv_lem cx c) refl
  step_lem try_recv c = ap (λ (r, b, s). done s) (try_recv_lem c)
  step_lem close_receiver c = close_lem c

  run-concrete :
      (os : List (Op T)) (c : Channel T) → run os (concrete c) ≡ done (concrete (spec_run os c))
  run-concrete [] c = refl
  run-concrete (o ∷ os) c = rw (step_lem o c) (run-concrete os (spec_step o c))

  -- Whatever operations the two halves make on a new channel, in whatever order, each one returns:
  -- none panics and none reads a task slot that was not written. The state they leave is the one
  -- that stands for what the operations of the specification leave.
  pub run-channel :
      (os : List (Op T)) → run os Inner.channel ≡ done (concrete (spec_run os open_channel))
  unfolding Inner.channel open_channel State.new
  run-channel os = run-concrete os open_channel

  abbrev sent_channel : T → Channel T → Channel T
  sent_channel t c = record c { sent = true; value = some t; woken = log c.woken c.rx_task }

  send-accepted :
      (t : T) (c : Channel T)
      → c.shut ≡ false
      → Inner.send t (concrete c) ≡ done (ok tt, concrete (sent_channel t c))
  unfolding Spec.send
  send-accepted t c e = rw (send_lem t c, e) refl

  -- A value sent on a channel that is not closed is accepted, and the receiver's task is woken if
  -- it waits; then, whether or not the receiver closes the channel first, `try_recv` and `poll`
  -- each give that value, take it out of the cell, and leave the receiver without its hold on the
  -- channel.
  pub send-delivers :
      (t : T) (cx : Waker) (shutting : Bool) (c : Channel T)
      → c.shut ≡ false
      → (a : Inner T) × (Inner.send t (concrete c) ≡ done (ok tt, a))
        × (a.woken ≡ log c.woken c.rx_task)
        × ((b : Inner T) × (Inner.close_receiver shutting a ≡ done b)
            × (Inner.try_recv true b ≡ (ok t, false, record b { value = none }))
            × (Inner.poll cx true b ≡ done (Inner.ready (ok t), false, record b { value = none })))
  unfolding Inner.close_receiver Inner.poll Spec.send Spec.close Spec.try_recv Spec.poll_recv
  send-delivers t cx false c e =
      let a = sent_channel t c in
      (
        concrete a,
        send-accepted t c e,
        refl,
        (concrete a, refl, try_recv_lem a, rw (poll_recv_lem cx a) refl),
      )
  send-delivers t cx true c e =
      let a = Spec.close (sent_channel t c) in
      (
        concrete (sent_channel t c),
        send-accepted t c e,
        refl,
        (concrete a, close_lem (sent_channel t c), try_recv_lem a, rw (poll_recv_lem cx a) refl),
      )

  -- A value sent on a closed channel is given back, no task is woken, and the cell is empty after.
  pub send-gives_back :
      (t : T) (c : Channel T)
      → c.shut ≡ true
      → (a : Inner T) × (Inner.send t (concrete c) ≡ done (err t, a))
        × (a.woken ≡ c.woken)
        × (a.value ≡ none)
  unfolding Spec.send
  send-gives_back t c e =
      (concrete (record c { sent = true; value = none }), rw (send_lem t c, e) refl, refl, refl)

  -- When the sender is dropped on a channel that holds no value, the receiver's task is woken if it
  -- waits and the channel is not closed; `poll` is then ready with the error and `try_recv` says
  -- closed.
  pub drop_sender-ends :
      (cx : Waker) (c : Channel T)
      → c.value ≡ none
      → (a : Inner T) × (Inner.drop_sender (concrete c) ≡ done a)
        × (a.woken ≡ (if c.shut then c.woken else log c.woken c.rx_task))
        × (Inner.poll cx true a
            ≡ done (Inner.ready (err Inner.recv_error), true, record a { value = none }))
        × (Inner.try_recv true a ≡ (err Inner.closed, false, record a { value = none }))
  unfolding Inner.drop_sender Inner.poll Spec.complete Spec.try_recv Spec.poll_recv
  drop_sender-ends cx c e =
      let a = Spec.complete c in
      (
        concrete a,
        rw (complete_lem c) refl,
        refl,
        rw (poll_recv_lem cx a, e) refl,
        rw (try_recv_lem a, e) refl,
      )

  -- When the receiver closes a channel on which nothing was sent, the sender's task is woken if it
  -- waits; `poll_closed` is then ready and changes nothing.
  pub close-wakes :
      (cx : Waker) (c : Channel T)
      → c.sent ≡ false
      → (a : Inner T) × (Inner.close_receiver true (concrete c) ≡ done a)
        × (a.woken ≡ log c.woken c.tx_task)
        × (Inner.poll_closed cx a ≡ done (Inner.ready tt, a))
  unfolding Inner.close_receiver Spec.close Spec.poll_closed
  close-wakes cx c e =
      let b = Spec.close c in (concrete b, close_lem c, rw (e) refl, poll_closed_lem cx b)
