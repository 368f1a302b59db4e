-- ===== src/Mpsc/Bounded/Flow.antt =====
-- What holds of every bounded channel of src/mpsc/bounded.rs, whatever its clients do.
use local_sync.Prelude.{
  ◌∷◌, ℕ, ◌+◌, ◌≤◌, ◌<◌, ◌≡◌, refl, true, Option, none, some, List, [], ◌++◌, arith, has, length,
  ltb, Returns, returns, Returns-value, Returns-done, Returns-bind, Returns-if,
}
use local_sync.LinkedList.{Ptr, Links, unlinked}
use local_sync.WakeList.{Waker}
use local_sync.Semaphore.Word.{max_permits}
use local_sync.Semaphore.Inner.{Waiter, available_permits}
use local_sync.Semaphore.System.Inv.{available_held}
use local_sync.Semaphore.System.Safe.{new_system-Good}
use local_sync.Mpsc.Block
use local_sync.Mpsc.Block.{Address}
use local_sync.Mpsc.Drain.{new-IsQueue}
use local_sync.Mpsc.Order.{Holds}
use local_sync.Mpsc.Chan
use local_sync.Mpsc.Bounded
use local_sync.Mpsc.Bounded.{channel}
use local_sync.Mpsc.Bounded.Runs.{
  Run, Op, send, poll, drop, recv, try_recv, clone_tx, drop_tx, close, drop_rx, step, poll_at,
  drop_at, initial, Reach, here, later,
}
use local_sync.Mpsc.Bounded.Fits.{Fits, Fit, send-Fit, poll-Fit, drop-Fit}
use local_sync.Semaphore.WellFormed.{WellFormed}
use local_sync.Mpsc.Bounded.Handover.{HandsOver, recv-HandsOver}
use local_sync.Mpsc.Bounded.Taking.{try_recv-Fit, recv-Fit, close-Fit, drop_tx-Fit, drop_rx-Fit}

module _ {ℓ} {T : Type ℓ} (n : ℕ) (r : Run T) (xs : List T) (f : Fits n xs r) (fuel : ℕ)
    (enough : length r.live + n + 2 < fuel) where
  poll_at-Fit :
      (cx : Waker) (p : Ptr) (v : Option T)
      → has p r.live ≡ true
      → Returns (Fit n) (poll_at fuel cx p r v)
  poll_at-Fit cx p none there = returns (xs, f)
  poll_at-Fit cx p (some v) there =
      Returns-bind (poll-Fit n r xs f fuel (omega (arith, enough)) p cx v there) λ y g. returns g

  drop_at-Fit :
      (p : Ptr) (v : Option T) → has p r.live ≡ true → Returns (Fit n) (drop_at fuel p r v)
  drop_at-Fit p none there = returns (xs, f)
  drop_at-Fit p (some v) there =
      Returns-bind (drop-Fit n r xs f fuel (omega (arith, enough)) p v there) λ c g. returns g

  pub step-Fit : (op : Op T) → Returns (Fit n) (step fuel op r)
  unfolding step Bounded.clone_tx Chan.clone_tx
  step-Fit (send cx p v) =
      Returns-if (has p r.live) (λ there. returns (xs, f))
        λ out.
          Returns-bind (send-Fit n r p out v cx xs fuel f (omega (arith, enough))) λ y g. returns g
  step-Fit (poll cx p) =
      Returns-if (has p r.live) (λ there. poll_at-Fit cx p (r.values p) there)
        λ out. returns (xs, f)
  step-Fit (drop p) =
      Returns-if (has p r.live) (λ there. drop_at-Fit p (r.values p) there) λ out. returns (xs, f)
  step-Fit (recv cx) =
      Returns-bind (recv-Fit n r fuel (omega (arith, enough)) cx xs f) λ x g. returns g
  step-Fit try_recv =
      Returns-bind (try_recv-Fit n r fuel (omega (arith, enough)) xs f) λ x g. returns g
  step-Fit clone_tx =
      returns (xs, record { good = f.good; holds = f.holds; order = f.order; one = f.one })
  step-Fit drop_tx =
      Returns-if (ltb 0 r.chan.tx_count)
        (λ more.
          Returns-bind (drop_tx-Fit n r fuel (omega (arith, enough)) xs f more) λ c g. returns g)
        λ gone. returns (xs, f)
  step-Fit close = Returns-bind (close-Fit n r fuel (omega (arith, enough)) xs f) λ c g. returns g
  step-Fit drop_rx =
      Returns-bind (drop_rx-Fit n r fuel (omega (arith, enough)) xs f (omega (arith, enough)))
        λ c g. returns g

module _ {ℓ} {T : Type ℓ} (heap : Address → Option (Block.Block T)) (a : Address)
    (nodes : Ptr → Waiter) (links : Links) (clean : (p : Ptr) → links p ≡ unlinked) (n : ℕ)
    (small : n ≤ max_permits) where
  abbrev pub new_run : Run T
  new_run = initial (channel heap a nodes links n)

  new_run-Fit : Fit n new_run
  unfolding channel Chan.channel
  new_run-Fit = (
    [],
    record {
      good = new_system-Good nodes links clean n small;
      holds = ([], [], new-IsQueue heap a);
      order = refl;
      one = λ q there. cc;
    },
  )

  Reach-Fit : (r : Run T) → Reach n new_run r → Fit n r
  Reach-Fit r here = new_run-Fit
  Reach-Fit r (later fuel op {r = q} before enough e) =
      let (xs, f) = Reach-Fit q before in Returns-value (step-Fit n q xs f fuel enough op) e

  -- On a new bounded channel of a buffer of at most the maximum of permits, whatever its clients
  -- do, in whatever order: the queue holds values `xs` such that those accepted are those taken out
  -- followed by `xs`, in order, so none is lost, doubled or overtaken; and `xs` and the permits
  -- available are together no more than the buffer.
  pub Reach-order :
      (r : Run T)
      → Reach n new_run r
      → (xs : List T) × Holds r.chan.queue xs
        × (r.accepted ≡ r.taken ++ xs)
        × (available_permits r.chan.semaphore + length xs ≤ n)
  Reach-order r before =
      let (xs, f) = Reach-Fit r before in
      let (ws, i) = f.good in (xs, f.holds, f.order, available_held i)

  -- From every such state of a bounded channel every operation returns, given fuel for each waiting
  -- send and each place of the buffer, to such a state again: no assertion fails, and no slot is
  -- read that holds no value.
  pub step-Reach :
      (r : Run T) (fuel : ℕ) (op : Op T)
      → Reach n new_run r
      → length r.live + n + 2 < fuel
      → Returns (Reach n new_run) (step fuel op r)
  step-Reach r fuel op before enough =
      let (xs, f) = Reach-Fit r before in
      let (t, e, k) = Returns-done (step-Fit n r xs f fuel enough op) in
      rw e (returns (later fuel op before enough e))

  -- In every history of a new bounded channel whose queue is not empty, while a send waits: `recv`,
  -- with enough fuel, returns the oldest value that was accepted and not received; the task of the
  -- send that waits longest is woken, and the next poll of that send, with its value `v`, is done:
  -- `v` is accepted, and stands in the queue behind all others.
  pub Reach-HandsOver :
      (r : Run T) (p : Ptr) (rest : List Ptr) (w cx cy : Waker) (v : T) (fuel : ℕ)
      → Reach n new_run r
      → 0 < r.chan.queue.len
      → WellFormed r.chan.semaphore (p ∷ rest)
      → (r.chan.semaphore.nodes p).waker ≡ some w
      → length r.live + 1 < fuel
      → Returns (HandsOver r p w cy fuel v) (Bounded.poll_recv fuel cx r.chan)
  Reach-HandsOver r p rest w cx cy v fuel before some_value wf waker enough =
      let (xs, f) = Reach-Fit r before in
      recv-HandsOver n r p rest w cx cy v fuel wf waker enough xs f some_value
