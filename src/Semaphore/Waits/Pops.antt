-- ===== src/Semaphore/Waits/Pops.antt =====
-- src/semaphore.rs: the waiters in the queue, and one waiter that is served and taken off it.
use mathlib.Core.List.{Perm, perm_append_comm}
use mathlib.Core.List.Perm
use local_sync.Prelude.{
  ◌+◌, ◌≤◌, ◌<◌, ◌≡◌, refl, ◌∙◌, subst, ◌⊎◌, true, false, Option, none, some, List, [], ◌∷◌, ◌++◌,
  append_assoc, arith, has, All, length, has_apart, Returns, returns, Returns-bind,
}
use local_sync.LinkedList.{Ptr}
use local_sync.LinkedList.Fifo.{IsFifo, pop_back-oldest}
use local_sync.WakeList
use local_sync.WakeList.{Waker, num_wakers}
use local_sync.WakeList.Wakes.{IsWakes, push-cons}
use local_sync.Semaphore.Inner.{Inner, Waiter, update}
use local_sync.Semaphore.Release.{Batch, keep_waker, pop_served}
use local_sync.Semaphore.Serve.{need, serve, served_wakers, waker_list, All-frame}

-- The waiters in the queue, oldest first, each still short of permits.
pub record Waits (s : Inner) (ws : List Ptr) : Type 0 where
  pub fifo : IsFifo s.queue ws
  pub needy : All (λ p. 0 < need s.nodes p) ws

-- What the loops over the waiters leave alone.
pub record Same (s t : Inner) : Type 0 where
  pub permits : t.permits ≡ s.permits
  pub closed : t.closed ≡ s.closed
  pub woken : t.woken ≡ s.woken

pub Same-trans : {s t u : Inner} → Same s t → Same t u → Same s u
Same-trans a b = record {
  permits = b.permits ∙ a.permits;
  closed = b.closed ∙ a.closed;
  woken = b.woken ∙ a.woken;
}

-- A change at one waiter that is not among `ws`.
pub needy-update :
    (nodes : Ptr → Waiter) (p : Ptr) (w : Waiter) (ws : List Ptr)
    → has p ws ≡ false
    → All (λ q. 0 < need nodes q) ws
    → All (λ q. 0 < need (update nodes p w) q) ws
needy-update nodes p w ws out h =
    All-frame (λ v. 0 < v.state) nodes (update nodes p w) ws
      (λ q i. ground (arith, has_apart p q ws out i)) h

keep_waker-cons :
    (o : Option Waker) (l : WakeList.WakeList) (stack : List Waker)
    → IsWakes l stack
    → length stack < num_wakers
    → Returns (λ k. IsWakes k (waker_list o ++ stack)) (keep_waker o l)
keep_waker-cons none l stack is room = returns is
keep_waker-cons (some w) l stack is room = push-cons l stack w is room

pub can_push-lt :
    (l : WakeList.WakeList) (stack : List Waker)
    → IsWakes l stack
    → WakeList.can_push l ≡ true
    → length stack < num_wakers
unfolding WakeList.can_push
can_push-lt l stack is h = ground arith

pub can_push-ge :
    (l : WakeList.WakeList) (stack : List Waker)
    → IsWakes l stack
    → WakeList.can_push l ≡ false
    → num_wakers ≤ length stack
unfolding WakeList.can_push
can_push-ge l stack is h = ground arith

pub waker_list-le : (o : Option Waker) → length (waker_list o) ≤ 1
waker_list-le none = omega arith
waker_list-le (some w) = omega arith

pub perm_shift : (a b c : List Waker) → Perm ((a ++ b) ++ c) (b ++ (a ++ c))
perm_shift a b c =
    subst (Perm ((a ++ b) ++ c)) (append_assoc b a c) (Perm.append_right c (perm_append_comm a b))

pub record Step (b : Batch) (p : Ptr) (ws : List Ptr) (stack : List Waker) (c : Batch)
    : Type 0 where
  pub fifo : IsFifo c.sem.queue ws
  pub wakes : IsWakes c.wakers (waker_list (b.sem.nodes p).waker ++ stack)
  pub rem : c.rem ≡ b.rem
  pub is_empty : c.is_empty ≡ b.is_empty
  pub same : Same b.sem c.sem
  pub nodes :
      c.sem.nodes ≡ update b.sem.nodes p (record { state = need b.sem.nodes p; waker = none })

pub pop_served-Step :
    (b : Batch) (p : Ptr) (ws : List Ptr) (stack : List Waker)
    → IsFifo b.sem.queue (p ∷ ws)
    → IsWakes b.wakers stack
    → length stack < num_wakers
    → Returns (Step b p ws stack) (pop_served b)
unfolding pop_served
pop_served-Step b p ws stack fifo wakes room =
    let (out, rest) = pop_back-oldest p ws fifo in
    rw out (
      Returns-bind (keep_waker-cons (b.sem.nodes p).waker b.wakers stack wakes room) λ l kept.
        returns (record {
          fifo = rest;
          wakes = kept;
          rem = refl;
          is_empty = refl;
          same = record { permits = refl; closed = refl; woken = refl };
          nodes = refl;
        }))

-- Where the loop stops: nothing is left to give, nobody waits, or the batch is full.
abbrev pub Stop : Batch → List Ptr → List Waker → Batch → Type 0
Stop b ws stack c =
    (c.rem ≡ 0)
    ⊎ ((ws ≡ []) × (c.is_empty ≡ true))
    ⊎ ((num_wakers ≤ length stack) × (c.is_empty ≡ b.is_empty))

pub record Inner1 (b : Batch) (ws : List Ptr) (stack : List Waker) (c : Batch) : Type 0 where
  pub ws1 : List Ptr
  pub stack1 : List Waker
  pub waits : Waits c.sem ws1
  pub wakes : IsWakes c.wakers stack1
  pub same : Same b.sem c.sem
  pub todo : serve c.rem c.sem.nodes ws1 ≡ serve b.rem b.sem.nodes ws
  pub wakers :
      Perm
        (stack1 ++ served_wakers c.rem c.sem.nodes ws1)
        (stack ++ served_wakers b.rem b.sem.nodes ws)
  pub size : length ws1 + length stack1 ≤ length ws + length stack
  pub stop : Stop b ws1 stack1 c
