-- ===== src/OnceCell/Runs.antt =====
-- A cell of src/once_cell.rs with the tasks that initialize it, and the operations of its clients in
-- any order. `waiting` and `running` list the addresses of the tasks that await a permit and of those
-- that have one. A task is polled and dropped until it is finished, and a new one may then start at its
-- address; a step that breaks this does nothing.
use local_sync.Prelude.{
  ℕ, ◌+◌, ◌<◌, ◌≡◌, Bool, true, false, List, [], ◌∷◌, length, Outcome, done, ◌>>=◌, Result,
  if◌then◌else◌,
}
use local_sync.Prelude.Members.{delete}
use local_sync.LinkedList.{Ptr}
use local_sync.WakeList.{Waker}
use local_sync.Semaphore.Inner.{update}
use local_sync.Semaphore.Acquire.{Acquire, Poll}
use local_sync.Semaphore.System.{System}
use local_sync.OnceCell
use local_sync.OnceCell.{OnceCell, SetError}
use local_sync.OnceCell.Init.{
  Task, starting, acquiring, running, finished, Polled, poll_try_init, poll_init, drop_task,
}

pub record Run {ℓ} (T : Type ℓ) : Type ℓ where
  pub cell : OnceCell T
  pub tasks : Ptr → Task
  pub waiting : List Ptr
  pub running : List Ptr

pub data Op {ℓ κ} (E : Type κ) (T : Type ℓ) : Type (ℓ ⊔ κ) where
  start : Ptr → Op E T
  poll_try : Waker → Ptr → Poll (Result E T) → Op E T
  poll : Waker → Ptr → Poll T → Op E T
  drop : Ptr → Op E T
  set : T → Op E T

abbrev pub is_finished : Task → Bool
is_finished finished = true
is_finished t = false

abbrev pub is_running : Task → Bool
is_running (running m) = true
is_running t = false

-- The future that a task awaits
abbrev pub future_of : Task → Acquire
future_of (acquiring a) = a.acquire
future_of t = record { num_permits = 0; queued = false }

abbrev pub with_waiting : Ptr → Task → List Ptr → List Ptr
with_waiting p (acquiring a) l = p ∷ l
with_waiting p t l = l

abbrev pub with_running : Ptr → Task → List Ptr → List Ptr
with_running p (running m) l = p ∷ l
with_running p t l = l

module _ {ℓ} {T : Type ℓ} where
  -- without the task at `p`
  abbrev pub without : Ptr → Run T → Run T
  without p r = record r { waiting = delete p r.waiting; running = delete p r.running }

  -- with the task at `p`
  abbrev pub place : Ptr → Task → OnceCell T → Run T → Run T
  place p t c r = record {
    cell = c;
    tasks = update r.tasks p t;
    waiting = with_waiting p t r.waiting;
    running = with_running p t r.running;
  }

  abbrev pub polled {κ} : {A : Type κ} → Ptr → Run T → Polled A T → Run T
  polled p r (res, t, c) = place p t c (without p r)

  abbrev pub initial : OnceCell T → Run T
  initial c = record { cell = c; tasks = λ _. finished; waiting = []; running = [] }

  unfoldable pub step {κ} : {E : Type κ} → ℕ → Op E T → Run T → Outcome (Run T)
  step fuel (start p) r =
      done (if is_finished (r.tasks p) then place p starting r.cell (without p r) else r)
  step fuel (poll_try cx p answer) r =
      if is_finished (r.tasks p)
      then done r
      else (poll_try_init fuel cx p answer (r.tasks p) r.cell >>= λ x. done (polled p r x))
  step fuel (poll cx p answer) r =
      if is_finished (r.tasks p)
      then done r
      else (poll_init fuel cx p answer (r.tasks p) r.cell >>= λ x. done (polled p r x))
  step fuel (drop p) r =
      drop_task fuel p (r.tasks p) r.cell >>= λ c. done (place p finished c (without p r))
  step fuel (set v) r = OnceCell.set fuel v r.cell >>= λ (_, c). done (record r { cell = c })

  -- What the semaphore sees: a running task has a permit, and none is left when the cell is set.
  abbrev pub view : Run T → System
  view r = record {
    sem = r.cell.semaphore;
    live = r.waiting;
    futures = λ q. future_of (r.tasks q);
    held = length r.running;
    capacity = if r.cell.value_set then 0 else 1;
  }

-- The runs that clients can bring about. There is fuel for every task in each step.
pub data Reach {ℓ κ} {T : Type ℓ} (E : Type κ) (s : Run T) : Run T → Type (ℓ ⊔ κ) where
  here : Reach E s s
  later :
      (fuel : ℕ) (op : Op E T) {r t : Run T}
      → Reach E s r
      → length r.waiting + 2 < fuel
      → step fuel op r ≡ done t
      → Reach E s t
