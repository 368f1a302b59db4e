-- ===== src/Mpsc/Unbounded/Wakes.antt =====
-- What the receiver of src/mpsc/unbounded.rs is told, and that it is not left to sleep.
use local_sync.Prelude.{
  subst, ℕ, zero, suc, ◌<◌, ◌≡◌, refl, sym, ap, ◌∙◌, subst, inl, inr, true, false, Option, none,
  some, List, [], ◌∷◌, ◌++◌, append-nil, arith, length, Bool-cases, ◌==◌, eq_of_test, ok, Returns,
  returns, Returns-bind, Returns-through,
}
use local_sync.WakeList.{Waker}
use local_sync.Mpsc.Chan.{Unlimited, unlimited_permits, registered, Poll, ready, pending}
use local_sync.Mpsc.Order.{Holds, slot}
use local_sync.Mpsc.Handles
use local_sync.Mpsc.Handles.{Shared}
use local_sync.Mpsc.Unbounded.Runs.{Run, Reach, tx_rc, rx_rc}
use local_sync.Mpsc.Unbounded.Calls.{drop_tx-Left, recv-Received, send-Given}
use local_sync.Mpsc.Unbounded.Fine.{run, Fine, receiving, hung_up, over}
use local_sync.Mpsc.Unbounded.Flow.{Reach-Fine}

registered_lem : (o : Option Waker) (cx : Waker) → registered o cx ≡ some cx
registered_lem none cx = refl
registered_lem (some w) cx = elim (Bool-cases (w == cx)) [
  | inl e ↦ rw e (ap some (eq_of_test w cx e))
  | inr ne ↦ rw ne refl
]

module _ {ℓ} {T : Type ℓ} where
  -- What the receiver is told
  abbrev pub Answer : Waker → Run T → Poll (Option T) × Shared T Unlimited → Type ℓ
  Answer cx r (ready (some x), s) = (xs : List T) × (r.accepted ≡ r.taken ++ x ∷ xs)
  Answer cx r (ready none, s) = (r.txs ≡ 0) × (r.accepted ≡ r.taken)
  Answer cx r (pending, s) = (0 < r.txs) × (r.accepted ≡ r.taken) × (s.chan.rx_waker ≡ some cx)

  recv_answers :
      (cx : Waker) {r : Run T}
      → Fine r
      → r.rx ≡ true
      → Returns (Answer cx r) (Handles.recv unlimited_permits rx_rc cx r.shared)
  unfolding Handles.recv
  recv_answers cx (receiving n c [] ac ta o e) there =
      Returns-bind (recv-Received c cx [] o.holds) λ (r, d) g. elim g [
        | inl (z, er, ed) ↦ returns (
            subst
              (λ r.
                Answer cx (run n true c (suc n) true [] ac ta)
                  (r, record { chan = d; strong = suc n; live = true; lost = [] }))
              (sym er) (omega (arith, o.count, z), e ∙ append-nil ta))
        | inr (pos, er, ed) ↦ returns (
            subst
              (λ r.
                Answer cx (run n true c (suc n) true [] ac ta)
                  (r, record { chan = d; strong = suc n; live = true; lost = [] }))
              (sym er)
              (
                omega (arith, o.count, pos),
                e ∙ append-nil ta,
                ap (λ d. d.rx_waker) ed ∙ registered_lem c.rx_waker cx,
              ))
      ]
  recv_answers cx (receiving n c (x ∷ xs) ac ta o e) there =
      Returns-bind (recv-Received c cx (x ∷ xs) o.holds) λ (r, d) (er, t). returns (
        subst
          (λ r.
            Answer cx (run n true c (suc n) true [] ac ta)
              (r, record { chan = d; strong = suc n; live = true; lost = [] }))
          (sym er) (xs, e))
  recv_answers cx (hung_up n c lo ac ta o shut e) there = cc
  recv_answers cx (over c lo ac ta e) there = cc

  -- In every such history in which there is the receiver, `recv` returns: with the oldest value
  -- that was accepted and not received; or with the end of the stream, and then no sender is left
  -- and all that was accepted was received; or pending, and then there is a sender, all that was
  -- accepted was received, and the task that polls is registered.
  pub recv-Answer :
      (cx : Waker) (r : Run T)
      → Reach r
      → r.rx ≡ true
      → Returns (Answer cx r) (Handles.recv unlimited_permits rx_rc cx r.shared)
  recv-Answer cx r before there = recv_answers cx (Reach-Fine r before) there

  -- On a queue of one value, and on an empty one that no sender is left for
  recv_one :
      (cx : Waker) (x : T) (s : Shared T Unlimited)
      → s.live ≡ true
      → Holds s.chan.queue (x ∷ [])
      → Returns (λ (res, _). res ≡ ready (some x)) (Handles.recv unlimited_permits rx_rc cx s)
  unfolding Handles.recv
  recv_one cx x s live h =
      rw live (Returns-bind (recv-Received s.chan cx (x ∷ []) h) λ (r, d) (er, t). returns er)

  recv_end :
      (cx : Waker) (s : Shared T Unlimited)
      → s.live ≡ true
      → Holds s.chan.queue []
      → s.chan.tx_count ≡ 0
      → Returns (λ (res, _). res ≡ ready none) (Handles.recv unlimited_permits rx_rc cx s)
  unfolding Handles.recv
  recv_end cx s live h gone = rw live (
      Returns-bind (recv-Received s.chan cx [] h) λ (r, d) g. elim g [
        | inl (_, er, _) ↦ returns er
        | inr (pos, _, _) ↦ absurd (omega (arith, pos, gone))
      ])

  -- What a send, and the drop of the last sender, do to a receiver that sleeps as `w`
  abbrev pub SendWakes : Waker → Waker → T → Run T → Type ℓ
  SendWakes w cx t r =
      Returns
        (λ (res, s).
          (res ≡ ok tt)
          × (s.chan.woken ≡ r.shared.chan.woken ++ w ∷ [])
          × Returns (λ (got, _). got ≡ ready (some t)) (Handles.recv unlimited_permits rx_rc cx s))
        (Handles.send unlimited_permits tx_rc t r.shared)

  abbrev pub DropWakes : Waker → Waker → ℕ → ℕ → Run T → Type ℓ
  DropWakes w cx fuel blocks r =
      Returns
        (λ s.
          (s.chan.woken ≡ r.shared.chan.woken ++ w ∷ [])
          × Returns (λ (got, _). got ≡ ready none) (Handles.recv unlimited_permits rx_rc cx s))
        (Handles.drop_tx unlimited_permits fuel blocks tx_rc r.shared)

  send_wakes :
      (w cx : Waker) (t : T) {r : Run T}
      → Fine r
      → r.rx ≡ true
      → r.shared.chan.rx_waker ≡ some w
      → r.shared.chan.semaphore.closed ≡ false
      → SendWakes w cx t r
  unfolding Handles.send
  send_wakes w cx t (receiving n c xs ac ta o e) there sleeps free =
      Returns-bind (send-Given c t xs o.holds) λ (r, d) g. elim g [
        | inl (shut, er, ed) ↦ cc
        | inr (_, er, s) ↦
            let one : Holds d.queue (t ∷ []) =
              subst (λ l. Holds d.queue (l ++ t ∷ [])) (o.asleep w sleeps).0 s.holds in
            returns (er, s.woken ∙ ap (λ o. c.woken ++ slot o) sleeps, recv_one cx t _ refl one)
      ]
  send_wakes w cx t (hung_up n c lo ac ta o shut e) there sleeps free = cc
  send_wakes w cx t (over c lo ac ta e) there sleeps free = cc

  last_wakes :
      (w cx : Waker) (fuel blocks : ℕ) {r : Run T}
      → Fine r
      → r.rx ≡ true
      → r.shared.chan.rx_waker ≡ some w
      → r.txs ≡ 1
      → DropWakes w cx fuel blocks r
  unfolding Handles.drop_tx Handles.drop_rc
  last_wakes w cx fuel blocks (receiving zero c xs ac ta o e) there sleeps one = cc
  last_wakes w cx fuel blocks (receiving (suc n) c xs ac ta o e) there sleeps one =
      Returns-through _ _ (drop_tx-Left c n (omega (arith, o.count))) λ d left.
        let (_, _, woken) = left.last (omega (arith, one)) in
        let nothing : Holds d.queue [] =
          subst (λ q. Holds q []) (sym left.queue)
            (subst (λ l. Holds c.queue l) (o.asleep w sleeps).0 o.holds) in
        returns (
          woken ∙ ap (λ o. c.woken ++ slot o) sleeps,
          recv_end cx _ refl nothing (omega (arith, left.count, one)),
        )
  last_wakes w cx fuel blocks (hung_up n c lo ac ta o shut e) there sleeps one = cc
  last_wakes w cx fuel blocks (over c lo ac ta e) there sleeps one = cc

  awake :
      {r : Run T}
      → Fine r
      → r.rx ≡ true
      → (w : Waker) → r.shared.chan.rx_waker ≡ some w
      → (r.shared.chan.queue.len ≡ 0) × (0 < r.txs)
  awake (receiving n c xs ac ta o e) there w k =
      let (_, _, is) = o.holds in
      let (empty, pos) = o.asleep w k in (is.count ∙ ap length empty, pos refl)
  awake (hung_up n c lo ac ta o shut e) there w k = cc
  awake (over c lo ac ta e) there w k = cc

  -- In every such history in which a task of the receiver is registered and the channel is not
  -- closed: the queue is empty and there is a sender, so no wakeup was lost; and a `send` is
  -- accepted and wakes that task, and a next `recv` returns the value sent.
  pub Reach-SendWakes :
      (w cx : Waker) (t : T) (r : Run T)
      → Reach r
      → r.rx ≡ true
      → r.shared.chan.rx_waker ≡ some w
      → r.shared.chan.semaphore.closed ≡ false
      → (r.shared.chan.queue.len ≡ 0) × (0 < r.txs) × SendWakes w cx t r
  Reach-SendWakes w cx t r before there sleeps free =
      let f = Reach-Fine r before in
      let (empty, pos) = awake f there w sleeps in
      (empty, pos, send_wakes w cx t f there sleeps free)

  -- In every such history in which a task of the receiver is registered and one sender is left, the
  -- drop of that sender wakes the task, and a next `recv` returns the end of the stream.
  pub Reach-DropWakes :
      (w cx : Waker) (fuel blocks : ℕ) (r : Run T)
      → Reach r
      → r.rx ≡ true
      → r.shared.chan.rx_waker ≡ some w
      → r.txs ≡ 1
      → DropWakes w cx fuel blocks r
  Reach-DropWakes w cx fuel blocks r before there sleeps one =
      last_wakes w cx fuel blocks (Reach-Fine r before) there sleeps one
