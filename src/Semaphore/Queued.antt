-- ===== src/Semaphore/Queued.antt =====
-- A queued `Acquire` future of src/semaphore.rs: polled while it waits, polled once it is served, and
-- dropped.
mod Left
use local_sync.Prelude.{
  ℕ, ◌-◌, ◌+◌, ◌*◌, ◌%◌, ◌≤◌, ◌<◌, ◌≡◌, refl, sym, ap, subst, ◌∙◌, ◌⊎◌, inl, inr, Bool, true, false,
  ◌&&◌, List, [], ◌∷◌, ◌++◌, arith, ==_self, ltb, le→ltb, has, has-append, All, length, done, ok,
  Returns, returns, Returns-mono, Returns-bind, Bool-cases,
}
use local_sync.Prelude.Members.{All-has}
use local_sync.LinkedList.{Ptr, Store}
use local_sync.LinkedList.Fifo.{IsFifo, remove-inside, remove-outside}
use local_sync.WakeList.{Waker}
use local_sync.Semaphore.Word.{usize_mod, max_permits, shl, shr}
use local_sync.Semaphore.Inner.{Inner, Waiter, update, is_closed, available_permits}
use local_sync.Semaphore.Acquire
use local_sync.Semaphore.Acquire.{
  Acquire, Poll, ready, pending, poll_acquire, poll, give_back, drop,
}
use local_sync.Semaphore.Serve.{
  need, serve, serve-zero, served_wakers, assign_permits-full, assign_permits-part, update_same,
}
use local_sync.Semaphore.Waits.{needy-update}
use local_sync.Semaphore.Grants.{Granted, GrantedBy, Granted-nothing, add_permits-serve}
use local_sync.Semaphore.Fair.{serve-rem_le}
use local_sync.Semaphore.WellFormed.{WellFormed, Granted-WellFormed, is_closed-mod}
use local_sync.Semaphore.Futures.{Parked, open_word, parked, node_after}
pub use local_sync.Semaphore.Queued.Left.{nobody, serve_left}
use local_sync.Semaphore.Queued.Left.{and_false, All-delete, needy-same, even}

-- A queued future polled while its node waits in the queue of an open semaphore that meets the
-- invariant: it is pending and unchanged, stays at its place in the queue with what it still needs,
-- and its node holds the waker of the polling task.
pub poll_waiting :
    (fuel : ℕ) (cx : Waker) (p : Ptr) (a : Acquire) (s : Inner) (ws : List Ptr)
    → WellFormed s ws
    → is_closed s ≡ false
    → a.queued ≡ true
    → has p ws ≡ true
    → Returns
        (λ ((r, t), b). (r ≡ pending) × (b ≡ a) × Parked cx p (need s.nodes p) s ws t)
        (poll fuel cx p a s)
unfolding poll poll_acquire
poll_waiting fuel cx p a s ws w free queued inside =
    let none_left = nobody s ws p w inside in
    let pos = All-has (λ q. 0 < need s.nodes q) ws p w.waits.needy inside in
    let part = assign_permits-part (s.nodes p) (shr s.permits) (omega (arith, pos, none_left)) in
    let given : Waiter = record {
      state = need s.nodes p - shr s.permits;
      waker = (s.nodes p).waker;
    } in
    let s1 = record s { permits = 0; nodes = update s.nodes p given } in
    let own : need s1.nodes p ≡ need s.nodes p =
      ap (λ (v : Waiter). v.state) (update_same s.nodes p given) ∙ omega (arith, none_left) in
    let shut : s.closed ≡ false = w.flag ∙ sym (is_closed-mod s) ∙ free in
    let after = update s1.nodes p (node_after cx p s1 refl shut) in
    let same : (q : Ptr) → need after q ≡ need s.nodes q = λ q. ground (arith, own) in
    let k =
      parked cx p s1 refl shut s.queue ws w.waits.fifo
        (needy-same s.nodes after ws same w.waits.needy) in
    simp (queued, open_word s free, and_false, part)
      (returns (
        refl,
        ap (λ b. record a { queued = b }) (sym queued),
        record {
          wf = k.wf;
          drained = k.drained;
          short = k.short ∙ own;
          waker = k.waker;
          woken = k.woken;
          others = λ q ne. k.others q ne ∙ ground arith;
        },
      ))

-- A queued future whose node is off the queue and needs nothing more, polled on an open semaphore
-- that meets the invariant, with enough fuel and at most the maximum of permits available: it is
-- ready, no longer queued, and the counter and all waiters are as they were.
pub poll_served :
    (fuel : ℕ) (cx : Waker) (p : Ptr) (a : Acquire) (s : Inner) (ws : List Ptr)
    → WellFormed s ws
    → is_closed s ≡ false
    → a.queued ≡ true
    → has p ws ≡ false
    → need s.nodes p ≡ 0
    → available_permits s ≤ max_permits
    → length ws + 1 < fuel
    → Returns
        (λ ((r, t), b).
          (r ≡ ready (ok tt))
          × (b ≡ record a { queued = false })
          × WellFormed t ws
          × (t.permits ≡ s.permits)
          × ((q : Ptr) → t.nodes q ≡ s.nodes q))
        (poll fuel cx p a s)
unfolding poll poll_acquire available_permits
poll_served fuel cx p a s ws w free queued out full small enough =
    let all = assign_permits-full (s.nodes p) (shr s.permits) (omega (arith, full)) in
    let rem : ℕ = shr s.permits - need s.nodes p in
    let w0 : Waiter = record { state = 0; waker = (s.nodes p).waker } in
    let s1 = record s { permits = 0; nodes = update s.nodes p w0 } in
    let needy = needy-update s.nodes p w0 ws out w.waits.needy in
    let shut : s.closed ≡ false = w.flag ∙ sym (is_closed-mod s) ∙ free in
    let (all_left, all_rem, all_nodes) =
      serve_left rem s1.nodes ws needy
        (elim w.busy [ inl e ↦ inl e | inr e ↦ inr (omega (arith, e)) ]) in
    let wf1 : WellFormed s1 ws = record {
      waits = record { fifo = w.waits.fifo; needy = needy };
      fits = omega arith;
      busy = inr refl;
      flag = shut ∙ ground arith;
    } in
    let Put : Acquire.Polled → Type 0 = λ (r, t).
      (r ≡ ready (ok tt))
      × WellFormed t ws
      × (t.permits ≡ s.permits)
      × ((q : Ptr) → t.nodes q ≡ s.nodes q) in
    simp (queued, open_word s free, and_false, all)
      (Returns-bind {P = Put}
        (Returns-bind
          (add_permits-serve fuel rem s1 ws wf1.waits wf1.fits (omega (arith, all_rem)) enough)
          λ t g. returns (
            refl,
            subst (WellFormed t) all_left
                (Granted-WellFormed rem s1 t ws wf1 g (omega (arith, w.fits))),
            omega (arith, g.permits, ap (λ n. shl n) all_rem, even s free, full),
            λ q. ap (λ (f : Ptr → Waiter). f q) (g.nodes ∙ all_nodes) ∙ ground (arith, full),
          ))
        λ (r, t) (e, wf, same, kept). rw e (returns (refl, refl, wf, same, kept)))

-- Giving back what a future holds.
give_back-Granted :
    (fuel : ℕ) (p : Ptr) (a : Acquire) (s : Inner) (ws : List Ptr)
    → WellFormed s ws
    → need s.nodes p ≤ a.num_permits
    → a.num_permits ≤ max_permits
    → s.permits + a.num_permits * 2 < usize_mod
    → length ws + 1 < fuel
    → Returns
        (λ t.
          Granted (a.num_permits - need s.nodes p) s ws t
          × WellFormed t (serve (a.num_permits - need s.nodes p) s.nodes ws).left)
        (give_back fuel p a s)
give_back-Granted fuel p a s ws w le small room enough =
    let n : ℕ = a.num_permits - need s.nodes p in
    rw (le→ltb a.num_permits (need s.nodes p) le) (elim (Bool-cases (ltb 0 n)) [
      | inl some_held ↦ rw some_held (
          Returns-mono
            (add_permits-serve fuel n s ws w.waits w.fits (omega (arith, serve-rem_le n s.nodes ws))
              enough)
            λ t g. (g, Granted-WellFormed n s t ws w g (omega arith)))
      | inr none_held ↦
          let g : Granted n s ws s = Granted-nothing n s ws (ground arith) w.waits w.fits in
          rw none_held (returns (g, Granted-WellFormed n s s ws w g (omega arith)))
    ])

-- Dropped before it was ever queued, or once it is done, a future leaves the semaphore alone.
pub drop_idle :
    (fuel : ℕ) (p : Ptr) (a : Acquire) (s : Inner) → a.queued ≡ false → drop fuel p a s ≡ done s
unfolding drop
drop_idle fuel p a s e = rw e

-- A waiting future that is dropped, with enough fuel: the drop returns, its node leaves the queue,
-- and the permits it was given go to the other waiters, in order, and to the counter, as `serve`
-- says. The invariant holds of the waiters that are left.
pub drop_waiting :
    (fuel : ℕ) (p : Ptr) (a : Acquire) (s : Inner) (xs ys : List Ptr)
    → WellFormed s (xs ++ p ∷ ys)
    → a.queued ≡ true
    → need s.nodes p ≤ a.num_permits
    → a.num_permits ≤ max_permits
    → length (xs ++ ys) + 1 < fuel
    → let n = a.num_permits - need s.nodes p in
      Returns
        (λ t.
          GrantedBy (serve n s.nodes (xs ++ ys)) (served_wakers n s.nodes (xs ++ ys)) s t
          × WellFormed t (serve n s.nodes (xs ++ ys)).left)
        (drop fuel p a s)
unfolding drop
drop_waiting fuel p a s xs ys w queued le small enough = rw queued (
    Returns-bind (remove-inside p xs ys w.waits.fifo) λ (out, q) (e, fifo).
      Returns-mono
        (give_back-Granted fuel p a (record s { queue = q }) (xs ++ ys) (left_over q fifo) le small
          (omega (arith, none_left)) enough)
        λ t (g, wf). (
          record {
            waits = g.waits;
            nodes = g.nodes;
            permits = g.permits;
            closed = g.closed;
            woken = g.woken;
          },
          wf,
        ))
  where
    none_left : s.permits ≡ 0
    none_left = nobody s (xs ++ p ∷ ys) p w (ground (arith, has-append p xs (p ∷ ys), ==_self p))

    left_over : (q : Store) → IsFifo q (xs ++ ys) → WellFormed (record s { queue = q }) (xs ++ ys)
    left_over q fifo = record {
      waits = record { fifo = fifo; needy = All-delete s.nodes p xs ys w.waits.needy };
      fits = w.fits;
      busy = inr none_left;
      flag = w.flag;
    }

-- A future still marked as queued whose node is off the queue, dropped with enough fuel on a
-- semaphore that meets the invariant and can take the permits it holds: the drop returns and hands
-- these permits out as `serve` says, and the invariant holds.
pub drop_taken :
    (fuel : ℕ) (p : Ptr) (a : Acquire) (s : Inner) (ws : List Ptr)
    → WellFormed s ws
    → a.queued ≡ true
    → has p ws ≡ false
    → need s.nodes p ≤ a.num_permits
    → a.num_permits ≤ max_permits
    → s.permits + a.num_permits * 2 < usize_mod
    → length ws + 1 < fuel
    → let n = a.num_permits - need s.nodes p in
      Returns (λ t. Granted n s ws t × WellFormed t (serve n s.nodes ws).left) (drop fuel p a s)
unfolding drop
drop_taken fuel p a s ws w queued out le small room enough =
    rw (queued, remove-outside p ws w.waits.fifo out)
      (give_back-Granted fuel p a s ws w le small room enough)
