-- ===== src/OnceCell/Wakes.antt =====
-- src/once_cell.rs: what the tasks that wait see when the cell is set.
use local_sync.Prelude.{
  ℕ, ◌+◌, ◌≤◌, ◌<◌, ◌≡◌, refl, sym, ap, ◌∙◌, subst, Bool, true, false, some, is_some, List, ◌++◌,
  arith, length, Result, ok, err, Returns, returns, Returns-bind, Returns-mono, Returns-both,
}
use local_sync.Prelude.Members.{delete, length-delete_le}
use local_sync.LinkedList.{Ptr}
use local_sync.WakeList.{Waker}
use local_sync.Semaphore.Release.{release}
use local_sync.Semaphore.Acquire.{Poll, ready, pending}
use local_sync.Semaphore.Public
use local_sync.Semaphore.Public.{SemaphorePermit}
use local_sync.Semaphore.Serve.{all_wakers}
use local_sync.Semaphore.WellFormed.{WellFormed, close-Closed}
use local_sync.OnceCell.{OnceCell, set_value}
use local_sync.OnceCell.Init.{
  Task, starting, acquiring, running, finished, Polled, try_value, poll_try_init,
}
use local_sync.OnceCell.Runs
use local_sync.OnceCell.Runs.{Run, is_finished, with_waiting}
use local_sync.OnceCell.Turn.{Reply}
use local_sync.OnceCell.Fine.{Fine}
use local_sync.OnceCell.History.{poll_try-Reply}

longer : (p : Ptr) (t : Task) (l : List Ptr) → length (with_waiting p t l) ≤ length l + 1
longer p starting l = omega arith
longer p (acquiring a) l = omega arith
longer p (running m) l = omega arith
longer p finished l = omega arith

set_value-woken {ℓ} :
    {T : Type ℓ} (r : Run T) (v : T) (fuel : ℕ) (m : SemaphorePermit) (ws : List Ptr)
    → WellFormed r.cell.semaphore ws
    → length ws < fuel
    → Returns
        (λ (w, c).
          (w ≡ v)
          × (c.semaphore.woken ≡ r.cell.semaphore.woken ++ all_wakers r.cell.semaphore.nodes ws))
        (set_value fuel v m r.cell)
unfolding set_value Public.close Public.forget Public.drop_permit Public.add_permits release
set_value-woken r v fuel m ws wf enough =
    Returns-bind (close-Closed fuel r.cell.semaphore ws wf enough) λ t k. returns (refl, k.woken)

module _ {ℓ κ} {T : Type ℓ} {E : Type κ} where
  told_value :
      (ran : Bool) (answer : Poll (Result E T)) (b : OnceCell T) (v : T) (res : Poll (Result E T))
      (t : Task) (c : OnceCell T)
      → c.value ≡ some v
      → Reply ran answer b (res, t, c)
      → res ≡ ready (ok v)
  told_value ran answer b v (ready (ok w)) t c stored (same, _, _) = cc
  told_value ran answer b v (ready (err e)) t c stored (empty, _, _) = cc
  told_value ran answer b v pending t c stored (empty, _) = cc

  stored_value :
      (ran : Bool) (answer : Poll (Result E T)) (b : OnceCell T) (v : T) (res : Poll (Result E T))
      (t : Task) (c : OnceCell T)
      → res ≡ ready (ok v)
      → Reply ran answer b (res, t, c)
      → c.value ≡ some v
  stored_value ran answer b v (ready (ok w)) t c e (same, _, _) = cc
  stored_value ran answer b v (ready (err w)) t c e reply = cc
  stored_value ran answer b v pending t c e reply = cc

  -- A poll of a task on a cell that is set
  set-Reply :
      (r : Run T) (v : T) (fuel : ℕ) (cx : Waker) (q : Ptr) (answer : Poll (Result E T))
      → Fine r
      → r.cell.value ≡ some v
      → length r.waiting + 2 < fuel
      → is_finished (r.tasks q) ≡ false
      → Returns (λ y. y.0 ≡ ready (ok v)) (poll_try_init fuel cx q answer (r.tasks q) r.cell)
  set-Reply r v fuel cx q answer f stored enough more =
      Returns-mono (poll_try-Reply r f fuel enough cx q answer more)
        λ (res, t, c) (reply, (g, stable)).
          let (same, _) = stable (is_set (f.cell.filled)) in
          told_value _ answer r.cell v res t c (same ∙ stored) reply
    where
      is_set : is_some r.cell.value ≡ r.cell.value_set → r.cell.value_set ≡ true
      is_set filled = sym filled ∙ ap is_some stored

  -- The initializer's value is set, and the semaphore's waiters are woken.
  abbrev Told : Run T → T → List Ptr → Polled (Result E T) T → Type (ℓ ⊔ κ)
  Told r v ws (res, t, c) =
      (res ≡ ready (ok v))
      × (c.semaphore.woken ≡ r.cell.semaphore.woken ++ all_wakers r.cell.semaphore.nodes ws)

  try_value-Told :
      (r : Run T) (v : T) (fuel : ℕ) (m : SemaphorePermit) (ws : List Ptr)
      → WellFormed r.cell.semaphore ws
      → length ws < fuel
      → Returns (Told r v ws) (try_value {E = E} fuel (ready (ok v)) m r.cell)
  unfolding try_value
  try_value-Told r v fuel m ws wf enough =
      Returns-bind (set_value-woken r v fuel m ws wf enough)
        λ (w, c) (e, k). returns (ap (λ x. ready (ok x)) e, k)

  -- In a run that meets the invariant, when the initializer of the running task answers with a
  -- value, with enough fuel: the poll returns it, the wakers of all whose waiters were in the
  -- semaphore's queue are woken, oldest first, and any next poll of `get_or_try_init` by a task
  -- that is not finished returns that same value.
  pub poll_try-wakes :
      (r : Run T) (v : T) (fuel : ℕ) (cx : Waker) (p : Ptr) (m : SemaphorePermit) (ws : List Ptr)
      → Fine r
      → r.tasks p ≡ running m
      → WellFormed r.cell.semaphore ws
      → length ws < fuel
      → length r.waiting + 3 < fuel
      → Returns
          (λ x.
            (x.0 ≡ ready (ok v))
            × (x.2.semaphore.woken ≡ r.cell.semaphore.woken ++ all_wakers r.cell.semaphore.nodes ws)
            × ((q : Ptr) (cy : Waker) (answer : Poll (Result E T))
                → is_finished ((Runs.polled p r x).tasks q) ≡ false
                → Returns
                    (λ y. y.0 ≡ ready (ok v))
                    (poll_try_init fuel cy q answer ((Runs.polled p r x).tasks q) x.2)))
          (poll_try_init {E = E} fuel cx p (ready (ok v)) (r.tasks p) r.cell)
  unfolding poll_try_init
  poll_try-wakes r v fuel cx p m ws f at wf few enough =
      Returns-mono
        (Returns-both
          (poll_try-Reply r f fuel (omega (arith, enough)) cx p (ready (ok v)) (ap is_finished at))
          (subst
            (λ t. Returns (Told r v ws) (poll_try_init {E = E} fuel cx p (ready (ok v)) t r.cell))
            (sym at) (try_value-Told r v fuel m ws wf few)))
        λ (res, t, c) ((reply, (g, _)), (e, woken)). (
          e,
          woken,
          λ q cy answer more.
              set-Reply (Runs.polled p r (res, t, c)) v fuel cy q answer g
                (stored_value _ _ r.cell v res t c e reply)
                (omega
                  (arith, enough, longer p t (delete p r.waiting), length-delete_le p r.waiting))
                more,
        )
