-- ===== src/WakeList/Wakes.antt =====
-- src/wake_list.rs as a bounded stack of wakers.
use local_sync.Prelude.{
  ℕ, ◌≤◌, ◌<◌, ◌≡◌, refl, ◌∙◌, ap, sym, Option, some, List, [], ◌∷◌, ◌++◌, reverse, reverse-cons,
  append_assoc, append-nil, arith, length, done, panic, Returns, returns, lt→ltb, le→ltb, le→leb,
}
use local_sync.WakeList.{
  Waker, num_wakers, WakeList, new, push, wake_loop, wake_all, drop_loop, drop, store,
}

-- The slots below `length ws` hold `ws`, the last pushed first.
abbrev pub Holds : (ℕ → Option Waker) → List Waker → Type 0
Holds inner [] = Unit
Holds inner (w ∷ ws) = (inner (length ws) ≡ some w) × Holds inner ws

pub record IsWakes (l : WakeList) (ws : List Waker) : Type 0 where
  pub count : l.curr ≡ length ws
  pub bound : length ws ≤ num_wakers
  pub holds : Holds l.inner ws

pub new-IsWakes : IsWakes new []
unfolding new
new-IsWakes = record { count = refl; bound = omega arith; holds = tt }

Holds-store :
    (inner : ℕ → Option Waker) (i : ℕ) (w : Waker) (ws : List Waker)
    → length ws ≤ i
    → Holds inner ws
    → Holds (store i w inner) ws
Holds-store inner i w [] le h = tt
Holds-store inner i w (v ∷ ws) le h = (ground arith, Holds-store inner i w ws (omega arith) h.1)

-- `push` on a batch that holds fewer than 32 wakers returns a batch that holds the new one on top
-- of the others.
pub push-cons :
    (l : WakeList) (ws : List Waker) (w : Waker)
    → IsWakes l ws
    → length ws < num_wakers
    → Returns (λ k. IsWakes k (w ∷ ws)) (push l w)
unfolding push
push-cons l ws w is room =
    rw (is.count, lt→ltb (length ws) num_wakers room)
      (returns (record {
        count = omega arith;
        bound = room;
        holds = (ground arith, Holds-store l.inner (length ws) w ws (omega arith) is.holds);
      }))

pub push_full : (l : WakeList) (w : Waker) → num_wakers ≤ l.curr → push l w ≡ panic
unfolding push
push_full l w full = rw (le→ltb l.curr num_wakers full)

wake_loop-append :
    (inner : ℕ → Option Waker) (ws log : List Waker)
    → Holds inner ws
    → wake_loop (length ws) inner log ≡ done (log ++ ws)
unfolding wake_loop
wake_loop-append inner [] log h = rw append-nil
wake_loop-append inner (w ∷ ws) log h =
    rw h.0 (wake_loop-append inner ws (log ++ w ∷ []) h.1 ∙ ap done (append_assoc log (w ∷ []) ws))

-- On a batch that holds `ws`, the last pushed first, `wake_all` returns, wakes each waker once, in
-- that order, and leaves the batch empty.
pub wake_all-append :
    (l : WakeList) (ws log : List Waker)
    → IsWakes l ws
    → Returns (λ (k, log'). IsWakes k [] × (log' ≡ log ++ ws)) (wake_all l log)
unfolding wake_all
wake_all-append l ws log is =
    rw (is.count, le→leb (length ws) num_wakers is.bound, wake_loop-append l.inner ws log is.holds)
      (returns (record { count = refl; bound = omega arith; holds = tt }, refl))

drop_loop-reverse :
    (inner : ℕ → Option Waker) (ws : List Waker)
    → Holds inner ws
    → drop_loop (length ws) inner ≡ done (reverse ws)
unfolding drop_loop
drop_loop-reverse inner [] h = refl
drop_loop-reverse inner (w ∷ ws) h =
    rw (drop_loop-reverse inner ws h.1, h.0) (ap done (sym (reverse-cons w ws)))

-- When a batch is dropped, exactly the wakers that it holds are dropped, the oldest first, and no
-- slot is read that was not written.
pub drop-reverse : (l : WakeList) (ws : List Waker) → IsWakes l ws → drop l ≡ done (reverse ws)
unfolding drop
drop-reverse l ws is = rw is.count (drop_loop-reverse l.inner ws is.holds)
