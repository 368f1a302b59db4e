-- ===== src/Mpsc/Unbounded/Calls.antt =====
-- src/mpsc/chan.rs over the semaphore without a bound: what each call does to a channel whose queue
-- holds given values.
use local_sync.Prelude.{
  Returns-Ensures, Bool-cases, false, Returns-mono, ℕ, ◌+◌, ◌-◌, ◌≤◌, ◌<◌, ◌≡◌, ◌⊎◌, if◌then◌else◌,
  refl, ap, inl, inr, true, Option, none, some, List, [], ◌∷◌, ◌++◌, arith, ◌==◌, ltb, length, ok,
  err, Result, Returns, returns, Returns-bind, Returns-assert, Returns-if,
}
use local_sync.WakeList.{Waker}
use local_sync.Mpsc.Drain.{len_lem}
use local_sync.Mpsc.Pop.{pop_unchecked-holds}
use local_sync.Mpsc.Chan
use local_sync.Mpsc.Chan.{
  SendError, rx_closed, Chan, Unlimited, unlimited_permits, TryRecvError, Poll, ready, pending,
  registered, wake_rx, take_one,
}
use local_sync.Mpsc.Fresh.{drain-fresh}
use local_sync.Mpsc.Order.{Sent, send-Sent, Holds, slot, drain-Holds, wake_rx-woken}

module _ {ℓ} {T : Type ℓ} (c : Chan T Unlimited) where
  -- What a drop of one of `m + 1` senders leaves
  pub record Left (m : ℕ) (d : Chan T Unlimited) : Type ℓ where
    pub queue : d.queue ≡ c.queue
    pub count : d.tx_count ≡ m
    pub last :
        m ≡ 0
        → (d.semaphore.closed ≡ true) × (d.rx_waker ≡ none) × (d.woken ≡ c.woken ++ slot c.rx_waker)
    pub more : 0 < m → (d.semaphore ≡ c.semaphore) × (d.rx_waker ≡ c.rx_waker)

  pub drop_tx-Left :
      (m : ℕ) → c.tx_count ≡ m + 1 → Returns (Left m) (Chan.drop_tx unlimited_permits c)
  unfolding Chan.drop_tx unlimited_permits
  drop_tx-Left m e =
      let c1 : Chan T Unlimited = record c {
        tx_count = c.tx_count - 1;
        semaphore = record { closed = true };
      } in
      Returns-assert (ltb 0 c.tx_count) (ground (arith, e)) (
        Returns-if (c.tx_count == 1)
          (λ last.
            let (woken, rx, queue, sem, count) = wake_rx-woken unlimited_permits c1 c.rx_waker in
            returns (record {
              queue = queue;
              count = ground (arith, e, last, count);
              last = λ z. (ap Unlimited.closed sem, rx, woken);
              more = λ pos. absurd (ground (arith, e, last, pos));
            }))
          λ more. returns (record {
            queue = refl;
            count = omega (arith, e);
            last = λ z. absurd (ground (arith, e, more, z));
            more = λ pos. (refl, refl);
          }))

  -- What takes the oldest value leaves
  pub record Took (xs : List T) (d : Chan T Unlimited) : Type ℓ where
    pub holds : Holds d.queue xs
    pub rest : d ≡ record c { queue = d.queue }

  take_one-Took :
      (x : T) (xs : List T)
      → Holds c.queue (x ∷ xs)
      → Returns (λ (v, d). (v ≡ x) × Took xs d) (take_one unlimited_permits c)
  unfolding unlimited_permits
  take_one-Took x xs (ps, fs, is) =
      Returns-bind (pop_unchecked-holds x c.queue ps fs xs is)
        λ (v, q) (e, h). returns (e, record { holds = h; rest = refl })

  -- What `recv` answers, and leaves
  abbrev pub Received : Waker → List T → Poll (Option T) × Chan T Unlimited → Type ℓ
  Received cx [] (r, d) =
      ((c.tx_count ≡ 0) × (r ≡ ready none) × (d ≡ c))
      ⊎ ((0 < c.tx_count) × (r ≡ pending) × (d ≡ record c { rx_waker = registered c.rx_waker cx }))
  Received cx (x ∷ xs) (r, d) = (r ≡ ready (some x)) × Took xs d

  pub recv-Received :
      (cx : Waker) (xs : List T)
      → Holds c.queue xs
      → Returns (Received cx xs) (Chan.recv unlimited_permits cx c)
  unfolding Chan.recv
  recv-Received cx [] (ps, fs, is) = rw ((len_lem c.queue ps fs [] is).1) (
      Returns-if (c.tx_count == 0) (λ z. returns (inl (ground (arith, z), refl, refl)))
        λ pos. returns (inr (ground (arith, pos), refl, refl)))
  recv-Received cx (x ∷ xs) (ps, fs, is) = rw ((len_lem c.queue ps fs (x ∷ xs) is).1) (
      Returns-bind (take_one-Took x xs (ps, fs, is))
        λ (v, d) (e, t). returns (ap (λ y. ready (some y)) e, t))

  abbrev pub Tried : List T → Result TryRecvError T × Chan T Unlimited → Type ℓ
  Tried [] (r, d) =
      (r ≡ (if c.tx_count == 0 then err Chan.disconnected else err Chan.empty)) × (d ≡ c)
  Tried (x ∷ xs) (r, d) = (r ≡ ok x) × Took xs d

  pub try_recv-Tried :
      (xs : List T) → Holds c.queue xs → Returns (Tried xs) (Chan.try_recv unlimited_permits c)
  unfolding Chan.try_recv
  try_recv-Tried [] (ps, fs, is) = rw ((len_lem c.queue ps fs [] is).1) (returns (refl, refl))
  try_recv-Tried (x ∷ xs) (ps, fs, is) =
      rw ((len_lem c.queue ps fs (x ∷ xs) is).1)
        (Returns-bind (take_one-Took x xs (ps, fs, is)) λ (v, d) (e, t). returns (ap ok e, t))

  -- What the drop of the receiver leaves
  pub record Drained (d : Chan T Unlimited) : Type ℓ where
    pub holds : Holds d.queue []
    pub fresh : d.queue.fresh ≡ c.queue.fresh
    pub rest : d ≡ record c { queue = d.queue; semaphore = record { closed = true } }

  pub drop_rx-Drained :
      (fuel : ℕ) (xs : List T)
      → Holds c.queue xs
      → length xs ≤ fuel
      → Returns (λ (vals, d). (vals ≡ xs) × Drained d) (Chan.drop_rx unlimited_permits fuel c)
  unfolding Chan.drop_rx unlimited_permits
  drop_rx-Drained fuel xs h enough =
      Returns-bind
        (Returns-Ensures (drain-Holds fuel c.queue xs h enough) (drain-fresh fuel c.queue))
        λ (vals, q) ((e, g), same). returns (e, record { holds = g; fresh = same; rest = refl })

  -- What `send` answers, and leaves
  abbrev pub Given : T → List T → Result SendError (Unit {0}) × Chan T Unlimited → Type ℓ
  Given t xs (r, d) =
      ((c.semaphore.closed ≡ true) × (r ≡ err rx_closed) × (d ≡ c))
      ⊎ ((c.semaphore.closed ≡ false) × (r ≡ ok tt) × Sent unlimited_permits c (xs ++ t ∷ []) d)

  pub send-Given :
      (t : T) (xs : List T)
      → Holds c.queue xs
      → Returns (Given t xs) (Chan.send unlimited_permits t c)
  unfolding Chan.send unlimited_permits
  send-Given t xs h = elim (Bool-cases c.semaphore.closed) [
    | inl shut ↦ Returns-if c.semaphore.closed (λ s. returns (inl (s, refl, refl))) λ free. cc
    | inr free ↦
        Returns-mono (send-Sent unlimited_permits t c xs h free) λ (r, d) (e, s). inr (free, e, s)
  ]
