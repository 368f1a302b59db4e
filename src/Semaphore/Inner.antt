-- ===== src/Semaphore/Inner.antt =====
-- src/semaphore.rs: `Waiter`, `Inner` and the operations on them without a loop over the waiters,
-- but for `close`. The waiters live at addresses: `nodes` is their own data, the pointers inside
-- them are the `links` of `queue`. The two `RefCell`s are plain fields, and `woken` logs the wakers
-- in the order in which they are woken.
use Prim.Native.Nat.{bit_and, bit_or}
use local_sync.Prelude.{
  ℕ, zero, suc, ◌-◌, Bool, true, false, not, Option, none, some, List, [], ◌∷◌, ◌++◌, min, ◌==◌,
  ltb, leb, if◌then◌else◌, Outcome, done, out_of_fuel, ◌>>◌, assert, Result, ok, err,
}
use local_sync.LinkedList
use local_sync.LinkedList.{Ptr, Links, Store}
use local_sync.WakeList.{Waker}
use local_sync.Semaphore.Word.{max_permits, closed_flag, shl, shr}

pub record Waiter : Type 0 where
  pub state : ℕ
  pub waker : Option Waker

-- `Waiter::new`, but for the pointers
abbrev pub waiter : ℕ → Waiter
waiter num_permits = record { state = num_permits; waker = none }

pub record Inner : Type 0 where
  pub permits : ℕ
  pub queue : Store
  pub closed : Bool
  pub nodes : Ptr → Waiter
  pub woken : List Waker

pub data TryAcquireError : Type 0 where
  closed no_permits : TryAcquireError

abbrev pub update {ℓ} : {A : Type ℓ} → (Ptr → A) → Ptr → A → Ptr → A
update f p a q = if q == p then a else f q

-- `Waiter::assign_permits`: the waiter, what is left of `n`, and whether the waiter is served.
unfoldable pub assign_permits : Waiter → ℕ → Waiter × ℕ × Bool
assign_permits w n =
    let assign = min w.state n in
    let curr = w.state - assign in (record w { state = curr }, n - assign, curr == 0)

-- over the memory in which waiters will live
unfoldable pub new : (Ptr → Waiter) → Links → ℕ → Inner
new nodes links permits = record {
  permits = shl (bit_and permits max_permits);
  queue = LinkedList.new links;
  closed = false;
  nodes = nodes;
  woken = [];
}

unfoldable pub available_permits : Inner → ℕ
available_permits s = shr s.permits

unfoldable pub is_closed : Inner → Bool
is_closed s = not (bit_and s.permits closed_flag == 0)

-- `take()` of a waiter's waker
abbrev pub forget_waker : Ptr → Inner → Inner
forget_waker p s = record s { nodes = update s.nodes p (record (s.nodes p) { waker = none }) }

-- `if let Some(waker) = waker { waker.wake() }`
abbrev pub wake : Option Waker → Inner → Inner
wake none s = s
wake (some w) s = record s { woken = s.woken ++ w ∷ [] }

-- One round of the loop of `close`, on what `pop_back` gave.
abbrev pub close_step : (Inner → Outcome Inner) → Option Ptr × Store → Inner → Outcome Inner
close_step next (none, queue) s = done (record s { queue = queue })
close_step next (some p, queue) s =
    let s1 = record s { queue = queue } in next (wake (s1.nodes p).waker (forget_waker p s1))

-- The loop of `close`. A run out of fuel is told apart.
unfoldable pub close_loop : ℕ → Inner → Outcome Inner
close_loop zero s = out_of_fuel
close_loop (suc f) s = close_step (λ s1. close_loop f s1) (LinkedList.pop_back s.queue) s

unfoldable pub close : ℕ → Inner → Outcome Inner
close fuel s = close_loop fuel (record s { permits = bit_or s.permits closed_flag; closed = true })

unfoldable pub try_acquire : ℕ → Inner → Outcome (Result TryAcquireError (Unit {0}) × Inner)
try_acquire num_permits s = do
  assert (leb num_permits max_permits)
  let needed = shl num_permits
  done (
      if bit_and s.permits closed_flag == closed_flag
      then (err closed, s)
      else if ltb s.permits needed
      then (err no_permits, s)
      else (ok tt, record s { permits = s.permits - needed }))

-- `TryAcquireError::is_closed` and `is_no_permits`
abbrev pub is_closed_error : TryAcquireError → Bool
is_closed_error closed = true
is_closed_error no_permits = false

abbrev pub is_no_permits_error : TryAcquireError → Bool
is_no_permits_error closed = false
is_no_permits_error no_permits = true
