-- ===== src/Semaphore/System/Inv.antt =====
-- The invariant of a semaphore with its futures. `ws` are the futures that wait, oldest first.
use local_sync.Prelude.{
  ℕ, ◌+◌, ◌*◌, ◌^◌, ◌≤◌, ◌<◌, ◌≡◌, true, false, is_some, List, arith, has, Distinct, length,
}
use local_sync.Prelude.Members.{total, total-le, length-le}
use local_sync.LinkedList.{Ptr}
use local_sync.LinkedList.Fifo.{IsFifo-Distinct}
use local_sync.Semaphore.Word.{usize_mod, max_permits}
use local_sync.Semaphore.Inner.{is_closed, available_permits}
use local_sync.Semaphore.Acquire.{Acquire}
use local_sync.Semaphore.Serve.{need}
use local_sync.Semaphore.Fair.{total_need}
use local_sync.Semaphore.WellFormed.{WellFormed}
use local_sync.Semaphore.System.{System}

-- One future: it needs no more than it asked for, and all of it before it is queued.
pub record IsFuture (a : Acquire) (n : ℕ) : Type 0 where
  pub need_le : n ≤ a.num_permits
  pub small : a.num_permits < 2 ^ 32
  pub whole : a.queued ≡ false → n ≡ a.num_permits

abbrev pub asked : System → ℕ
asked c = total (λ p. (c.futures p).num_permits) c.live

pub record Inv (c : System) (ws : List Ptr) : Type 0 where
  pub wf : WellFormed c.sem ws
  pub distinct : Distinct c.live
  pub waiting : (p : Ptr) → has p ws ≡ true → (has p c.live ≡ true) × ((c.futures p).queued ≡ true)
  pub waker : (p : Ptr) → has p ws ≡ true → is_some (c.sem.nodes p).waker ≡ true
  pub future : (p : Ptr) → has p c.live ≡ true → IsFuture (c.futures p) (need c.sem.nodes p)
  pub served :
      (p : Ptr)
      → has p c.live ≡ true
      → (c.futures p).queued ≡ true
      → has p ws ≡ false
      → is_closed c.sem ≡ false
      → need c.sem.nodes p ≡ 0
  pub sum : available_permits c.sem + asked c + c.held ≡ c.capacity + total_need c.sem.nodes c.live
  pub limit : c.capacity ≤ max_permits

module _ {c : System} {ws : List Ptr} (i : Inv c ws) where
  pub waiting_few : length ws ≤ length c.live
  waiting_few = length-le ws c.live (IsFifo-Distinct ws i.wf.waits.fifo) λ p h. (i.waiting p h).0

  -- Futures and clients together hold no more than there is.
  pub available_held : available_permits c.sem + c.held ≤ c.capacity
  available_held = omega (
    arith,
    i.sum,
    total-le (need c.sem.nodes) (λ p. (c.futures p).num_permits) c.live
        λ p h. (i.future p h).need_le,
  )

  pub fits : (n : ℕ) → n ≤ max_permits → c.sem.permits + n * 2 < usize_mod
  unfolding available_permits
  fits n small = omega (arith, available_held, i.limit)
