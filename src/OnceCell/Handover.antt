-- ===== src/OnceCell/Handover.antt =====
-- src/once_cell.rs: a task that has the permit and ends without a value hands it to the oldest waiter.
use mathlib.Core.List.{Mem}
use local_sync.Prelude.{
  ℕ, [], ◌-◌, ◌+◌, ◌≤◌, ◌<◌, ◌≡◌, refl, sym, ap, ◌∙◌, subst, true, false, not, some, List, ◌∷◌,
  arith, ==_self, has, length, Result, err, Returns, returns, Returns-bind, Returns-through,
  Returns-mono, Returns-assert,
}
use local_sync.LinkedList.{Ptr}
use local_sync.LinkedList.Unique.{IsFifo-unique}
use local_sync.WakeList.{Waker}
use local_sync.Semaphore.Word.{max_permits}
use local_sync.Semaphore.Inner.{is_closed, available_permits}
use local_sync.Semaphore.Release.{release}
use local_sync.Semaphore.Acquire.{Acquire, ready, pending}
use local_sync.Semaphore.Public
use local_sync.Semaphore.Public.{SemaphorePermit, AcquireResult}
use local_sync.Semaphore.Serve.{need}
use local_sync.Semaphore.WellFormed.{WellFormed}
use local_sync.Semaphore.Queued.{poll_served, drop_idle}
use local_sync.Semaphore.System.Inv.{Inv, waiting_few, available_held}
use local_sync.Semaphore.System.Liveness.{release-Released}
use local_sync.OnceCell.{OnceCell}
use local_sync.OnceCell.Init.{
  acquiring, running, Polled, try_value, try_acquired, try_acquire_permit, poll_try_init, drop_task,
}
use local_sync.OnceCell.Runs.{Run, view, future_of}
use local_sync.OnceCell.Turn.{held_unset}
use local_sync.OnceCell.Fine.{Fine, Belongs}

-- The task gets the permit and polls its own initializer, on a cell that is still empty.
abbrev pub Takes {ℓ κ} :
    {T : Type ℓ} {E : Type κ} → AcquireResult → OnceCell T → Polled (Result E T) T → Type (ℓ ⊔ κ)
Takes a c (res, t, d) =
    (res ≡ pending) × (t ≡ running (record { permits = a.permits })) × (d.value ≡ c.value)

module _ {ℓ κ} {T : Type ℓ} {E : Type κ} where
  granted-Takes :
      (c : OnceCell T) (q : Ptr) (a : AcquireResult) (ws : List Ptr) (fuel : ℕ) (cx : Waker)
      → WellFormed c.semaphore ws
      → is_closed c.semaphore ≡ false
      → c.value_set ≡ false
      → a.acquire.queued ≡ true
      → has q ws ≡ false
      → need c.semaphore.nodes q ≡ 0
      → available_permits c.semaphore ≤ max_permits
      → length ws + 1 < fuel
      → Returns (Takes {E = E} a c) (poll_try_init fuel cx q pending (acquiring a) c)
  unfolding poll_try_init try_acquire_permit Public.poll_result try_acquired try_value
  granted-Takes c q a ws fuel cx wf free unset queued out full small enough =
      Returns-through _ _
        (poll_served fuel cx q a.acquire c.semaphore ws wf free queued out full small enough)
        λ ((x, t), b) (ex, eb, _, _, _).
          rw (ex, drop_idle fuel q b t (ap (λ (x : Acquire). x.queued) eb))
            (Returns-assert (not c.value_set) (ap not unset) (returns (refl, refl, refl)))

has_some : (p : Ptr) (l : List Ptr) → has p l ≡ true → 0 < length l
has_some p [] there = cc
has_some p (x ∷ l) there = omega arith

module _ {ℓ} {T : Type ℓ} where
  -- What the permit of the running task `p` leaves, when it is given back
  module _ (r : Run T) (p q : Ptr) (m : SemaphorePermit) (a : AcquireResult) (rest : List Ptr)
      (w cx : Waker) (fuel : ℕ) (f : Fine r) (wf : WellFormed r.cell.semaphore (q ∷ rest))
      (runs : r.tasks p ≡ running m) (waits : r.tasks q ≡ acquiring a)
      (waker : (r.cell.semaphore.nodes q).waker ≡ some w)
      (enough : length r.waiting + 2 < fuel) where
    i : Inv (view r) (q ∷ rest)
    i =
        let (ws, j) = f.good in
        subst (Inv (view r))
          (IsFifo-unique r.cell.semaphore.queue ws (q ∷ rest) j.wf.waits.fifo wf.waits.fifo) j

    runner : Belongs (has p r.waiting) (has p r.running) (running m)
    runner = subst (Belongs (has p r.waiting) (has p r.running)) runs (f.member p)

    waiter : Belongs (has q r.waiting) (has q r.running) (acquiring a)
    waiter = subst (Belongs (has q r.waiting) (has q r.running)) waits (f.member q)

    own : future_of (r.tasks q) ≡ a.acquire
    own = ap future_of waits

    some_run : 0 < length r.running
    some_run = has_some p r.running runner.1

    unset : r.cell.value_set ≡ false
    unset =
        held_unset (length r.running - 1) r.cell.value_set
          (omega (arith, available_held i, some_run))

    one_each : (m.permits ≡ 1) × (a.acquire.num_permits ≡ 1)
    one_each = (runner.2, waiter.2.1)

    here : has q r.waiting ≡ true
    here = waiter.0

    free : is_closed r.cell.semaphore ≡ false
    free = f.cell.shut ∙ unset

    hand_over {κ} :
        {E : Type κ}
        → Returns
            (λ t.
              Mem w t.woken
              × Returns
                  (Takes {E = E} a r.cell)
                  (poll_try_init fuel cx q pending (r.tasks q) (record r.cell { semaphore = t })))
            (release fuel m.permits r.cell.semaphore)
    hand_over {E} =
        Returns-mono
          (release-Released (view r) q rest w m.permits fuel i waker
            (omega
              (arith, (i.future q here).need_le, ap (λ (x : Acquire). x.num_permits) own, one_each))
            (omega (arith, some_run, one_each)) (omega (arith, enough)))
          λ t (woken, (left, j, out), open_still). (
            woken,
            subst
                (λ x.
                  Returns (Takes {E = E} a r.cell)
                    (poll_try_init fuel cx q pending x (record r.cell { semaphore = t })))
                (sym waits)
                (granted-Takes (record r.cell { semaphore = t }) q a left fuel cx j.wf open_still
                  unset (ap (λ (x : Acquire). x.queued) (sym own) ∙ queued) out
                  (j.served q here queued out open_still) (omega (arith, available_held j, j.limit))
                  (omega (arith, waiting_few j, enough))),
          )
      where
        queued : (future_of (r.tasks q)).queued ≡ true
        queued = (i.waiting q (ground (arith, ==_self q))).1

    -- In a run that meets the invariant, when the task that runs the initializer is dropped while
    -- others wait, with enough fuel: the task of the oldest waiter is woken, and its next poll gets
    -- the permit and polls its own initializer, on a cell that is still empty. So an initializer
    -- that is cancelled does not leave the others waiting.
    pub drop_task-Takes {κ} :
        (E : Type κ)
        → Returns
            (λ c.
              Mem w c.semaphore.woken
              × Returns (Takes {E = E} a r.cell) (poll_try_init fuel cx q pending (r.tasks q) c))
            (drop_task fuel p (r.tasks p) r.cell)
    unfolding drop_task Public.drop_permit Public.add_permits
    drop_task-Takes E =
        subst
          (λ x.
            Returns
              (λ c.
                Mem w c.semaphore.woken
                × Returns (Takes {E = E} a r.cell) (poll_try_init fuel cx q pending (r.tasks q) c))
              (drop_task fuel p x r.cell))
          (sym runs) (Returns-bind hand_over λ t g. returns g)

    -- The same when the initializer of the running task answers with an error: the poll returns the
    -- error, the task of the oldest waiter is woken, and its next poll gets the permit and polls
    -- its own initializer, on a cell that is still empty.
    pub poll_try-Takes {κ} :
        {E : Type κ} (e : E) (cy : Waker)
        → Returns
            (λ (res, t, c).
              (res ≡ ready (err e))
              × Mem w c.semaphore.woken
              × Returns (Takes {E = E} a r.cell) (poll_try_init fuel cx q pending (r.tasks q) c))
            (poll_try_init fuel cy p (ready (err e)) (r.tasks p) r.cell)
    unfolding poll_try_init try_value Public.drop_permit Public.add_permits
    poll_try-Takes {E} e cy =
        subst
          (λ x.
            Returns
              (λ (res, t, c).
                (res ≡ ready (err e))
                × Mem w c.semaphore.woken
                × Returns (Takes {E = E} a r.cell) (poll_try_init fuel cx q pending (r.tasks q) c))
              (poll_try_init fuel cy p (ready (err e)) x r.cell))
          (sym runs) (Returns-bind hand_over λ t (woken, g). returns (refl, woken, g))
