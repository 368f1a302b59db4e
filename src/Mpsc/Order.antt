-- ===== src/Mpsc/Order.antt =====
-- src/mpsc/chan.rs: send, receive and the drop of the receiver against the sequence of values in
-- the queue, for any semaphore.
use local_sync.Prelude.{
  ℕ, zero, suc, ◌≤◌, ◌≡◌, refl, sym, ap, ◌∙◌, Option, none, some, List, [], ◌∷◌, ◌++◌, append-nil,
  arith, length, false, done, ok, Returns, returns, Returns-bind,
}
use local_sync.WakeList.{Waker}
use local_sync.Mpsc.Block
use local_sync.Mpsc.Block.{Address, Queue, push_unchecked, pop_unchecked}
use local_sync.Mpsc.Layout.{IsQueue}
use local_sync.Mpsc.Push.{push_unchecked-IsQueue}
use local_sync.Mpsc.Pop.{pop_unchecked-holds}
use local_sync.Mpsc.Drain.{len_lem}
use local_sync.Mpsc.Chan.{Chan, Permits, send, try_recv, drain, drop_rx, wake_rx}

abbrev pub slot : Option Waker → List Waker
slot none = []
slot (some w) = w ∷ []

-- The blocks of a queue hold `xs`.
abbrev pub Holds {ℓ} : {T : Type ℓ} → Queue T → List T → Type ℓ
Holds q xs = (ps : List Address) × (fs : List Address) × IsQueue q ps fs xs

module _ {ℓ} {T : Type ℓ} where
  pub drain-Holds :
      (fuel : ℕ) (q : Queue T) (xs : List T)
      → Holds q xs
      → length xs ≤ fuel
      → Returns (λ (vals, u). (vals ≡ xs) × Holds u []) (drain fuel q)
  unfolding drain
  drain-Holds zero q [] (ps, fs, is) enough =
      rw (len_lem q ps fs [] is).1 (returns (refl, (ps, fs, is)))
  drain-Holds zero q (x ∷ xs) h enough = absurd (omega arith)
  drain-Holds (suc fuel) q [] (ps, fs, is) enough =
      rw ((len_lem q ps fs [] is).1, drain) (returns (refl, (ps, fs, is)))
  drain-Holds (suc fuel) q (x ∷ xs) (ps, fs, is) enough =
      rw ((len_lem q ps fs (x ∷ xs) is).1, drain)
        (Returns-bind (pop_unchecked-holds x q ps fs xs is) λ (v, q1) (e, h).
          Returns-bind (drain-Holds fuel q1 xs h (omega (arith, enough)))
            λ (rest, u) (e2, h2). returns (rw (e, e2) refl, h2))

module _ {ℓ κ} {T : Type ℓ} {S : Type κ} (permits : Permits S) where
  pub wake_rx-woken :
      (c : Chan T S) (o : Option Waker)
      → ((wake_rx c o).woken ≡ c.woken ++ slot o)
        × ((wake_rx c o).rx_waker ≡ none)
        × ((wake_rx c o).queue ≡ c.queue)
        × ((wake_rx c o).semaphore ≡ c.semaphore)
        × ((wake_rx c o).tx_count ≡ c.tx_count)
  wake_rx-woken c none = (sym (append-nil c.woken), refl, refl, refl, refl)
  wake_rx-woken c (some w) = (refl, refl, refl, refl, refl)

  -- What a send leaves
  pub record Sent (c : Chan T S) (xs : List T) (d : Chan T S) : Type (ℓ ⊔ κ) where
    pub holds : Holds d.queue xs
    pub woken : d.woken ≡ c.woken ++ slot c.rx_waker
    pub rx_waker : d.rx_waker ≡ none
    pub semaphore : d.semaphore ≡ c.semaphore
    pub tx_count : d.tx_count ≡ c.tx_count

  -- On a channel whose queue holds `xs` and whose semaphore is not closed, `send` returns and
  -- accepts the value: the queue then holds it behind `xs`, the receiver's task is woken if it
  -- waits and its waker is taken, and the semaphore and the count of senders do not change.
  pub send-Sent :
      (x : T) (c : Chan T S) (xs : List T)
      → Holds c.queue xs
      → permits.is_closed c.semaphore ≡ false
      → Returns (λ (r, d). (r ≡ ok tt) × Sent c (xs ++ x ∷ []) d) (send permits x c)
  unfolding send
  send-Sent x c xs (ps, fs, is) free = rw free (
      Returns-bind (push_unchecked-IsQueue x c.queue ps xs fs is) λ q h.
        let (woken, rx, queue, sem, count) = wake_rx-woken (record c { queue = q }) c.rx_waker in
        returns (
          refl,
          record {
            holds = rw queue h;
            woken = woken;
            rx_waker = rx;
            semaphore = sem;
            tx_count = count;
          },
        ))

  -- On a channel whose queue holds `x` and then `xs`, when the semaphore takes one permit back,
  -- `try_recv` returns `x`; the queue then holds `xs`, and the semaphore has the permit.
  pub try_recv-oldest :
      (x : T) (c : Chan T S) (xs : List T) (s : S)
      → Holds c.queue (x ∷ xs)
      → permits.add 1 c.semaphore ≡ done s
      → Returns (λ (r, d). (r ≡ ok x) × Holds d.queue xs × (d.semaphore ≡ s)) (try_recv permits c)
  unfolding try_recv
  try_recv-oldest x c xs s (ps, fs, is) adds = rw ((len_lem c.queue ps fs (x ∷ xs) is).1) (
      Returns-bind {P = Got}
        (Returns-bind (pop_unchecked-holds x c.queue ps fs xs is)
          λ (v, q) (e, h). rw adds (returns (e, h, refl)))
        λ (v, d) (e, h, same). returns (ap ok e, h, same))
    where
      Got : T × Chan T S → Type (ℓ ⊔ κ)
      Got (v, d) = (v ≡ x) × Holds d.queue xs × (d.semaphore ≡ s)

  -- When the receiver is dropped on a channel whose queue holds `xs`, with fuel for each value, and
  -- the semaphore closes and takes as many permits back: exactly the values `xs` are dropped, in
  -- order, the queue is empty, and the semaphore is closed with those permits.
  pub drop_rx-drains :
      (fuel : ℕ) (c : Chan T S) (xs : List T) (s t : S)
      → Holds c.queue xs
      → length xs ≤ fuel
      → permits.close c.semaphore ≡ done s
      → permits.add (length xs) s ≡ done t
      → Returns
          (λ (vals, d). (vals ≡ xs) × Holds d.queue [] × (d.semaphore ≡ t))
          (drop_rx permits fuel c)
  unfolding drop_rx
  drop_rx-drains fuel c xs s t (ps, fs, is) enough closes adds =
      let counted : permits.add (Block.len c.queue) s ≡ done t =
        ap (λ n. permits.add n s) (len_lem c.queue ps fs xs is).0 ∙ adds in
      rw closes (
        Returns-bind (drain-Holds fuel c.queue xs (ps, fs, is) enough)
          λ (vals, q) (e, h). rw counted (returns (e, h, refl)))
