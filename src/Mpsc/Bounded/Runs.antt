-- ===== src/Mpsc/Bounded/Runs.antt =====
-- A bounded channel of src/mpsc/bounded.rs with the sends that wait, and the operations of its clients
-- in any order. `live` are the addresses of the sends that wait, with their futures and values;
-- `accepted` logs the values of the sends that were done, `taken` those that left the queue. A send
-- starts at an address of its own, and is polled and dropped while it waits; a step that breaks this
-- does nothing.
use local_sync.Prelude.{
  ℕ, ◌+◌, ◌<◌, ◌≡◌, false, Option, some, none, List, [], ◌∷◌, ◌++◌, has, length, ltb, Outcome, done,
  ◌>>=◌, Result, ok, err, if◌then◌else◌,
}
use local_sync.Prelude.Members.{delete}
use local_sync.LinkedList.{Ptr}
use local_sync.WakeList.{Waker}
use local_sync.Semaphore.Inner.{Inner, update}
use local_sync.Semaphore.Acquire.{Acquire, Poll, ready, pending}
use local_sync.Semaphore.System.{System}
use local_sync.Mpsc.Chan
use local_sync.Mpsc.Chan.{Chan, SendError, TryRecvError, inner_permits}
use local_sync.Mpsc.Bounded
use local_sync.Mpsc.Bounded.{Sending, starting, acquiring, finished, poll_send, drop_send}

pub record Run {ℓ} (T : Type ℓ) : Type ℓ where
  pub chan : Chan T Inner
  pub live : List Ptr
  pub futures : Ptr → Acquire
  pub values : Ptr → Option T
  pub accepted : List T
  pub taken : List T

pub data Op {ℓ} (T : Type ℓ) : Type ℓ where
  send : Waker → Ptr → T → Op T
  poll : Waker → Ptr → Op T
  drop : Ptr → Op T
  recv : Waker → Op T
  try_recv : Op T
  clone_tx : Op T
  drop_tx : Op T
  close : Op T
  drop_rx : Op T

module _ {ℓ} {T : Type ℓ} where
  abbrev pub logged : List T → T → Poll (Result SendError (Unit {0})) → List T
  logged l v (ready (ok u)) = l ++ v ∷ []
  logged l v (ready (err e)) = l
  logged l v pending = l

  -- After a poll of the send of `v` at `p`
  abbrev pub polled :
      Ptr → T → Run T → Poll (Result SendError (Unit {0})) × Sending T × Chan T Inner → Run T
  polled p v r (res, acquiring w a, c) = record r {
    chan = c;
    live = p ∷ delete p r.live;
    futures = update r.futures p a;
    values = update r.values p (some w);
    accepted = logged r.accepted v res;
  }
  polled p v r (res, starting w, c) = record r {
    chan = c;
    live = delete p r.live;
    accepted = logged r.accepted v res;
  }
  polled p v r (res, finished, c) = record r {
    chan = c;
    live = delete p r.live;
    accepted = logged r.accepted v res;
  }

  abbrev pub received : Run T → Chan.Poll (Option T) × Chan T Inner → Run T
  received r (Chan.ready (some v), c) = record r { chan = c; taken = r.taken ++ v ∷ [] }
  received r (Chan.ready none, c) = record r { chan = c }
  received r (Chan.pending, c) = record r { chan = c }

  abbrev pub tried : Run T → Result TryRecvError T × Chan T Inner → Run T
  tried r (ok v, c) = record r { chan = c; taken = r.taken ++ v ∷ [] }
  tried r (err e, c) = record r { chan = c }

  abbrev pub poll_at : ℕ → Waker → Ptr → Run T → Option T → Outcome (Run T)
  poll_at fuel cx p r (some v) =
      poll_send fuel cx p (acquiring v (r.futures p)) r.chan >>= λ x. done (polled p v r x)
  poll_at fuel cx p r none = done r

  abbrev pub drop_at : ℕ → Ptr → Run T → Option T → Outcome (Run T)
  drop_at fuel p r (some v) = drop_send fuel p (acquiring v (r.futures p)) r.chan >>= λ c.
      done (record r { chan = c; live = delete p r.live })
  drop_at fuel p r none = done r

  unfoldable pub step : ℕ → Op T → Run T → Outcome (Run T)
  step fuel (send cx p v) r =
      if has p r.live
      then done r
      else (poll_send fuel cx p (starting v) r.chan >>= λ x. done (polled p v r x))
  step fuel (poll cx p) r = if has p r.live then poll_at fuel cx p r (r.values p) else done r
  step fuel (drop p) r = if has p r.live then drop_at fuel p r (r.values p) else done r
  step fuel (recv cx) r = Bounded.poll_recv fuel cx r.chan >>= λ x. done (received r x)
  step fuel try_recv r = Bounded.try_recv fuel r.chan >>= λ x. done (tried r x)
  step fuel clone_tx r = done (record r { chan = Bounded.clone_tx r.chan })
  step fuel drop_tx r =
      if ltb 0 r.chan.tx_count
      then (Chan.drop_tx (inner_permits fuel) r.chan >>= λ c. done (record r { chan = c }))
      else done r
  step fuel close r = Bounded.close fuel r.chan >>= λ c. done (record r { chan = c })
  step fuel drop_rx r = Chan.drop_rx (inner_permits fuel) fuel r.chan >>= λ (vals, c).
      done (record r { chan = c; taken = r.taken ++ vals })

  abbrev pub initial : Chan T Inner → Run T
  initial c = record {
    chan = c;
    live = [];
    futures = λ _. record { num_permits = 0; queued = false };
    values = λ _. none;
    accepted = [];
    taken = [];
  }

  -- What the semaphore sees when the queue holds `xs`: each value in it has a permit of the `n`.
  abbrev pub view : ℕ → List T → Run T → System
  view n xs r = record {
    sem = r.chan.semaphore;
    live = r.live;
    futures = r.futures;
    held = length xs;
    capacity = n;
  }

-- The runs that clients can bring about. There is fuel for every send that waits, and for every value
-- up to the size of the buffer.
pub data Reach {ℓ} {T : Type ℓ} (n : ℕ) (s : Run T) : Run T → Type ℓ where
  here : Reach n s s
  later :
      (fuel : ℕ) (op : Op T) {r t : Run T}
      → Reach n s r
      → length r.live + n + 2 < fuel
      → step fuel op r ≡ done t
      → Reach n s t
