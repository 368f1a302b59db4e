-- ===== src/Semaphore/Release.antt =====
-- src/semaphore.rs: `add_permits`, its two nested loops, and `release`.
-- Both loops run on fuel; `out_of_fuel` is no behaviour of the code.
use local_sync.Prelude.{
  ℕ, zero, suc, ◌+◌, ◌%◌, Bool, true, false, ◌&&◌, Option, none, some, ◌==◌, ltb, leb,
  if◌then◌else◌, Outcome, done, out_of_fuel, ◌>>=◌, ◌>>◌, assert, unwrap,
}
use local_sync.LinkedList
use local_sync.LinkedList.{Ptr}
use local_sync.WakeList
use local_sync.WakeList.{WakeList, Waker}
use local_sync.Semaphore.Word.{usize_mod, max_permits, shl}
use local_sync.Semaphore.Inner.{Inner, update, assign_permits, forget_waker}

-- The variables of `add_permits`.
pub record Batch : Type 0 where
  pub rem : ℕ
  pub wakers : WakeList
  pub is_empty : Bool
  pub sem : Inner

abbrev pub keep_waker : Option Waker → WakeList → Outcome WakeList
keep_waker none l = done l
keep_waker (some w) l = WakeList.push l w

-- `pop_back().unwrap()`, and the waiter's waker into the batch
unfoldable pub pop_served : Batch → Outcome Batch
pop_served b = do
  let (popped, queue) = LinkedList.pop_back b.sem.queue
  let s = b.sem
  let s1 = record s { queue = queue }
  p ← unwrap popped
  wakers ← keep_waker (s1.nodes p).waker b.wakers
  done (record b { wakers = wakers; sem = forget_waker p s1 })

-- One waiter's share. The flag says whether it is served.
unfoldable pub assign_last : Ptr → Batch → Batch × Bool
assign_last p b =
    let s = b.sem in
    let (w, rem, full) = assign_permits (s.nodes p) b.rem in
    (record b { rem = rem; sem = record s { nodes = update s.nodes p w } }, full)

-- One round of the loop `'inner` behind the test: `break` if the waiter was not served.
abbrev pub proceed : (Batch → Outcome Batch) → Batch × Bool → Outcome Batch
proceed next (b, false) = done b
proceed next (b, true) = pop_served b >>= next

-- The loop `'inner`.
unfoldable pub inner_loop : ℕ → Batch → Outcome Batch
inner_loop zero b = out_of_fuel
inner_loop (suc f) b = elim (WakeList.can_push b.wakers) [
  | false ↦ done b
  | true ↦ elim (LinkedList.last b.sem.queue) [
    | none ↦ done (record b { is_empty = true })
    | some p ↦ proceed (λ b2. inner_loop f b2) (assign_last p b)
  ]
]

-- The rest of one round: what is left goes back to the counter, and the batch is woken.
unfoldable pub settle : Batch → Outcome Batch
settle b =
    if ltb 0 b.rem && b.is_empty
    then (do
      assert (leb b.rem max_permits)
      let s = b.sem
      done (record b { rem = 0; sem = record s { permits = (s.permits + shl b.rem) % usize_mod } }))
    else done b

unfoldable pub wake_batch : Batch → Outcome Batch
wake_batch b = do
  let s = b.sem
  (wakers, woken) ← WakeList.wake_all b.wakers s.woken
  done (record b { wakers = wakers; sem = record s { woken = woken } })

unfoldable pub outer_loop : ℕ → ℕ → Batch → Outcome Batch
outer_loop fuel zero b = out_of_fuel
outer_loop fuel (suc rounds) b = elim (ltb 0 b.rem) [
  | false ↦ done b
  | true ↦ (do
    b1 ← inner_loop fuel b
    b2 ← settle b1
    b3 ← wake_batch b2
    outer_loop fuel rounds b3)
]

unfoldable pub add_permits : ℕ → ℕ → Inner → Outcome Inner
add_permits fuel rem s = do
  b ← outer_loop fuel fuel (record { rem = rem; wakers = WakeList.new; is_empty = false; sem = s })
  assert (b.rem == 0)
  _ ← WakeList.drop b.wakers
  done b.sem

unfoldable pub release : ℕ → ℕ → Inner → Outcome Inner
release fuel added s = if added == 0 then done s else add_permits fuel added s
