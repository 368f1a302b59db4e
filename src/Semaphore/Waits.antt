-- ===== src/Semaphore/Waits.antt =====
-- One step and one run of the loop `'inner` of `add_permits`, against `serve`.
mod Pops
use mathlib.Core.List.{Perm, perm_append_comm}
use mathlib.Core.List.Perm
use local_sync.Prelude.{
  ℕ, zero, suc, ◌-◌, ◌+◌, ◌≤◌, ◌<◌, ◌≡◌, refl, sym, ap, ap₂, ◌∙◌, subst, ◌⊎◌, inl, inr, Bool, true,
  false, Option, none, some, List, [], ◌∷◌, ◌++◌, append_assoc, arith, has, All, length,
  length-append, Bool-cases, dec_le, has_apart, Returns, returns, Returns-bind, Returns-mono,
}
use local_sync.LinkedList.{Ptr}
use local_sync.LinkedList.Fifo.{IsFifo, IsFifo-Distinct, pop_back-oldest, last-oldest, last-none}
use local_sync.WakeList
use local_sync.WakeList.{Waker, num_wakers}
use local_sync.WakeList.Wakes.{IsWakes, push-cons}
use local_sync.Semaphore.Inner.{Inner, Waiter, update}
use local_sync.Semaphore.Release.{Batch, keep_waker, pop_served, assign_last, inner_loop}
use local_sync.Semaphore.Serve.{
  need, full_waiter, serve, served_wakers, waker_list, All-frame, assign_permits-full,
  assign_permits-part, update-update, update_same, serve-full, serve-part, serve-zero,
  served_wakers-full, served_wakers-part,
}
pub use local_sync.Semaphore.Waits.Pops.{Waits, needy-update, Inner1}
use local_sync.Semaphore.Waits.Pops.{
  Same, Same-trans, can_push-lt, can_push-ge, waker_list-le, perm_shift, Step, pop_served-Step,
  Stop,
}

-- A batch in which one waiter is given permits: its state after, and what is left.
abbrev given : Batch → Ptr → ℕ → ℕ → Batch
given b p state rem =
    let s = b.sem in
    record b {
      rem = rem;
      sem = record s {
        nodes = update s.nodes p (record { state = state; waker = (s.nodes p).waker });
      };
    }

-- The loop stops at once.
unchanged :
    (b : Batch) (ws : List Ptr) (stack : List Waker) (flag : Bool)
    → Waits b.sem ws
    → IsWakes b.wakers stack
    → Stop b ws stack (record b { is_empty = flag })
    → Inner1 b ws stack (record b { is_empty = flag })
unchanged b ws stack flag waits wakes stop = record {
  ws1 = ws;
  stack1 = stack;
  waits = waits;
  wakes = wakes;
  same = record { permits = refl; closed = refl; woken = refl };
  todo = refl;
  wakers = Perm.refl (stack ++ served_wakers b.rem b.sem.nodes ws);
  size = omega arith;
  stop = stop;
}

-- A waiter that gets all that is left, and needs more.
part_stop :
    (b : Batch) (p : Ptr) (ws : List Ptr) (stack : List Waker)
    → Waits b.sem (p ∷ ws)
    → IsWakes b.wakers stack
    → b.rem < need b.sem.nodes p
    → Inner1 b (p ∷ ws) stack (given b p (need b.sem.nodes p - b.rem) 0)
part_stop b p ws stack waits wakes short = record {
  ws1 = p ∷ ws;
  stack1 = stack;
  waits = record { fifo = waits.fifo; needy = still };
  wakes = wakes;
  same = record { permits = refl; closed = refl; woken = refl };
  todo = nothing.0 ∙ sym (serve-part b.rem b.sem.nodes p ws short);
  wakers =
      rw (nothing.1, served_wakers-part b.rem b.sem.nodes p ws short) (Perm.refl (stack ++ []));
  size = omega arith;
  stop = inl refl;
}
  where
    after : Ptr → Waiter
    after = (given b p (need b.sem.nodes p - b.rem) 0).sem.nodes

    still : All (λ q. 0 < need after q) (p ∷ ws)
    still = (
      ground (arith, update_same b.sem.nodes p _),
      needy-update b.sem.nodes p _ ws (IsFifo-Distinct (p ∷ ws) waits.fifo).0 waits.needy.1,
    )

    nothing :
        (serve 0 after (p ∷ ws) ≡ record { rem = 0; nodes = after; left = p ∷ ws })
        × (served_wakers 0 after (p ∷ ws) ≡ [])
    nothing = serve-zero after (p ∷ ws) still

-- A waiter that is served, and the rest of the loop behind it.
module _ (b : Batch) (p : Ptr) (ws : List Ptr) (stack : List Waker) where
  abbrev first : Batch
  first = given b p 0 (b.rem - need b.sem.nodes p)

  nodes_after :
      (c : Batch) → Step first p ws stack c → c.sem.nodes ≡ update b.sem.nodes p full_waiter
  nodes_after c st =
      st.nodes
      ∙ update-update b.sem.nodes p _ _
      ∙ ap (λ n. update b.sem.nodes p (record { state = n; waker = none }))
          (ap (λ (w : Waiter). w.state) (update_same b.sem.nodes p _))

  Step-Waits : Waits b.sem (p ∷ ws) → (c : Batch) → Step first p ws stack c → Waits c.sem ws
  Step-Waits waits c st = record {
    fifo = st.fifo;
    needy = rw (nodes_after c st) (
        needy-update b.sem.nodes p full_waiter ws (IsFifo-Distinct (p ∷ ws) waits.fifo).0
          waits.needy.1);
  }

  full_then :
      need b.sem.nodes p ≤ b.rem
      → (c : Batch) → Step first p ws stack c
      → (d : Batch) → Inner1 c ws (waker_list (first.sem.nodes p).waker ++ stack) d
      → Inner1 b (p ∷ ws) stack d
  full_then enough c st d i = record {
    ws1 = i.ws1;
    stack1 = i.stack1;
    waits = i.waits;
    wakes = i.wakes;
    same =
        Same-trans
          (record { permits = st.same.permits; closed = st.same.closed; woken = st.same.woken })
          i.same;
    todo =
        i.todo
        ∙ ap₂ (λ r n. serve r n ws) st.rem (nodes_after c st)
        ∙ sym (serve-full b.rem b.sem.nodes p ws enough);
    wakers = Perm.trans i.wakers (
        rw (own, st.rem, nodes_after c st, served_wakers-full b.rem b.sem.nodes p ws enough)
          (perm_shift (waker_list (b.sem.nodes p).waker) stack _));
    size = omega (
      arith,
      i.size,
      length-append (waker_list (first.sem.nodes p).waker) stack,
      waker_list-le (first.sem.nodes p).waker,
    );
    stop = elim i.stop [
      | inl e ↦ inl e
      | inr (inl e) ↦ inr (inl e)
      | inr (inr e) ↦ inr (inr (e.0, e.1 ∙ st.is_empty))
    ];
  }
    where
      own : (first.sem.nodes p).waker ≡ (b.sem.nodes p).waker
      own = ap (λ (w : Waiter). w.waker) (update_same b.sem.nodes p _)

assign_last-full :
    (b : Batch) (p : Ptr)
    → need b.sem.nodes p ≤ b.rem
    → assign_last p b ≡ (given b p 0 (b.rem - need b.sem.nodes p), true)
unfolding assign_last
assign_last-full b p h = rw (assign_permits-full (b.sem.nodes p) b.rem h)

assign_last-part :
    (b : Batch) (p : Ptr)
    → b.rem < need b.sem.nodes p
    → assign_last p b ≡ (given b p (need b.sem.nodes p - b.rem) 0, false)
unfolding assign_last
assign_last-part b p h = rw (assign_permits-part (b.sem.nodes p) b.rem h)

-- The loop `'inner` serves the waiters in order, and stops when nothing is left to give, when nobody
-- waits, or when the batch of wakers is full.
pub inner_loop-serve :
    (f : ℕ) (b : Batch) (ws : List Ptr) (stack : List Waker)
    → Waits b.sem ws
    → IsWakes b.wakers stack
    → length ws < f
    → Returns (Inner1 b ws stack) (inner_loop f b)
unfolding inner_loop
inner_loop-serve zero b ws stack waits wakes fuel = absurd (omega arith)
inner_loop-serve (suc f) b [] stack waits wakes fuel =
    elim (Bool-cases (WakeList.can_push b.wakers)) [
      | inl room ↦
          rw (room, inner_loop, last-none waits.fifo)
            (returns (unchanged b [] stack _ waits wakes (inr (inl (refl, refl)))))
      | inr full ↦
          rw (full, inner_loop)
            (returns (
              unchanged b [] stack b.is_empty waits wakes
                (inr (inr (can_push-ge b.wakers stack wakes full, refl)))))
    ]
inner_loop-serve (suc f) b (p ∷ ws) stack waits wakes fuel =
    elim (Bool-cases (WakeList.can_push b.wakers)) [
      | inl room ↦ elim (dec_le (need b.sem.nodes p) b.rem) [
        | yes enough ↦
            rw (room, inner_loop, last-oldest p ws waits.fifo, assign_last-full b p enough)
              (Returns-bind
                (pop_served-Step (first b p ws stack) p ws stack waits.fifo wakes
                  (can_push-lt b.wakers stack wakes room))
                λ c st.
                  Returns-mono
                    (inner_loop-serve f c ws _ (Step-Waits b p ws stack waits c st) st.wakes
                      (omega arith))
                    (full_then b p ws stack enough c st))
        | no short ↦
            rw (room, inner_loop, last-oldest p ws waits.fifo, assign_last-part b p (omega arith))
              (returns (part_stop b p ws stack waits wakes (omega arith)))
      ]
      | inr full ↦
          rw (full, inner_loop)
            (returns (
              unchanged b (p ∷ ws) stack b.is_empty waits wakes
                (inr (inr (can_push-ge b.wakers stack wakes full, refl)))))
    ]
