-- ===== src/Semaphore/Futures.antt =====
-- The `Acquire` future of src/semaphore.rs against the invariant: each poll and each drop.
-- `ws` are the waiters in the queue, oldest first; a future's node is in the queue, or it never was,
-- or it was taken off by `add_permits` or `close`.
use Prim.Native.Nat.{bit_and}
use local_sync.Prelude.{
  ℕ, ◌-◌, ◌*◌, ◌^◌, ◌≤◌, ◌<◌, ◌≡◌, refl, sym, ap, ◌∙◌, inr, true, false, Option, none, some, List,
  [], ◌∷◌, ◌++◌, arith, ◌==◌, leb, ltb, le→leb, lt→leb, has, All, done, ok, err, Returns, returns,
  Returns-bind,
}
use local_sync.LinkedList.{Ptr, Store}
use local_sync.LinkedList.Fifo.{IsFifo, IsFifo-reset, push_front-snoc}
use local_sync.WakeList.{Waker}
use local_sync.Semaphore.Word.{closed_flag, shl, shr}
use local_sync.Semaphore.Inner.{Inner, Waiter, waiter, update, is_closed, available_permits}
use local_sync.Semaphore.Acquire
use local_sync.Semaphore.Acquire.{
  Acquire, AcquireError, acquire_closed, Poll, ready, pending, poll_acquire, poll, registered, drop,
}
use local_sync.Semaphore.Serve.{need, update_same, assign_permits-part}
use local_sync.Semaphore.Waits.{needy-update}
use local_sync.Semaphore.WellFormed.{WellFormed, spend, is_closed-mod}

-- A future not yet polled.
pub record IsFresh (a : Acquire) (p : Ptr) (s : Inner) (ws : List Ptr) : Type 0 where
  pub idle : a.queued ≡ false
  pub absent : has p ws ≡ false
  pub whole : need s.nodes p ≡ a.num_permits
  pub small : a.num_permits < 2 ^ 32

-- `Acquire::new` of fewer than `2 ^ 32` permits, at an address outside the queue, gives a future
-- that is not queued and whose node needs them all; the invariant still holds, and the counter is
-- unchanged.
pub new-IsFresh :
    (n : ℕ) (p : Ptr) (s : Inner) (ws : List Ptr)
    → n < 2 ^ 32
    → has p ws ≡ false
    → WellFormed s ws
    → let (a, t) = Acquire.new n p s in IsFresh a p t ws × WellFormed t ws × (t.permits ≡ s.permits)
unfolding Acquire.new
new-IsFresh n p s ws small out w = (
  record {
    idle = refl;
    absent = out;
    whole = ap (λ (v : Waiter). v.state) (update_same s.nodes p (waiter n));
    small = small;
  },
  record {
    waits = record {
      fifo = IsFifo-reset p ws w.waits.fifo out;
      needy = needy-update s.nodes p (waiter n) ws out w.waits.needy;
    };
    fits = w.fits;
    busy = w.busy;
    flag = w.flag;
  },
  refl,
)

shut_word : (s : Inner) → is_closed s ≡ true → ltb 0 (bit_and s.permits closed_flag) ≡ true
unfolding is_closed
shut_word s h = ground arith

pub open_word : (s : Inner) → is_closed s ≡ false → ltb 0 (bit_and s.permits closed_flag) ≡ false
unfolding is_closed
open_word s h = ground arith

-- A future polled on a closed semaphore is ready with the error, and neither it nor the semaphore
-- changes.
pub poll_after_close :
    (fuel : ℕ) (cx : Waker) (p : Ptr) (a : Acquire) (s : Inner)
    → is_closed s ≡ true
    → poll fuel cx p a s ≡ done ((ready (err acquire_closed), s), a)
unfolding poll poll_acquire
poll_after_close fuel cx p a s shut = rw (shut_word s shut)

-- The first poll of a new future on an open semaphore when enough permits are available: it takes
-- as many as it asked for, is ready, and is not queued.
pub poll_enough :
    (fuel : ℕ) (cx : Waker) (p : Ptr) (a : Acquire) (s : Inner) (ws : List Ptr)
    → IsFresh a p s ws
    → is_closed s ≡ false
    → a.num_permits ≤ available_permits s
    → poll fuel cx p a s
      ≡ done ((ready (ok tt), spend a.num_permits s), record a { queued = false })
unfolding poll poll_acquire available_permits
poll_enough fuel cx p a s ws fresh free room =
    let e : shl a.num_permits ≡ a.num_permits * 2 = omega (arith, fresh.small) in
    let enough : leb (shl a.num_permits) s.permits ≡ true = le→leb _ _ (omega (arith, e)) in
    simp (fresh.idle, open_word s free, enough)
      (ap
        (λ n.
          done ((ready (ok tt), record s { permits = s.permits - n }), record a { queued = false }))
        e)

-- What a future that has to wait leaves behind.
pub record Parked (cx : Waker) (p : Ptr) (n : ℕ) (s : Inner) (ws : List Ptr) (t : Inner)
    : Type 0 where
  pub wf : WellFormed t ws
  pub drained : t.permits ≡ 0
  pub short : need t.nodes p ≡ n
  pub waker : (t.nodes p).waker ≡ some cx
  pub woken : t.woken ≡ s.woken
  pub others : (q : Ptr) → (q == p) ≡ false → t.nodes q ≡ s.nodes q

registered_self : (o : Option Waker) (cx : Waker) → registered o cx ≡ some cx
registered_self none cx = refl
registered_self (some w) cx = ground arith

needy-snoc :
    (nodes : Ptr → Waiter) (ws : List Ptr) (p : Ptr)
    → All (λ q. 0 < need nodes q) ws
    → 0 < need nodes p
    → All (λ q. 0 < need nodes q) (ws ++ p ∷ [])
needy-snoc nodes [] p h k = (k, tt)
needy-snoc nodes (q ∷ ws) p h k = (h.0, needy-snoc nodes ws p h.1 k)

-- A waiter whose waker has just been registered.
module _ (cx : Waker) (p : Ptr) (s : Inner) (zero_left : s.permits ≡ 0)
    (free : s.closed ≡ false) where
  abbrev pub node_after : Waiter
  node_after = record { state = need s.nodes p; waker = registered (s.nodes p).waker cx }

  pub parked :
      (q : Store) (ws : List Ptr)
      → IsFifo q ws
      → All (λ a. 0 < need (update s.nodes p node_after) a) ws
      → Parked cx p
          (need s.nodes p)
          s
          ws
          (record s { queue = q; nodes = update s.nodes p node_after })
  parked q ws fifo needy = record {
    wf = record {
      waits = record { fifo = fifo; needy = needy };
      fits = omega arith;
      busy = inr zero_left;
      flag = free ∙ ground arith;
    };
    drained = zero_left;
    short = ap (λ (v : Waiter). v.state) (update_same s.nodes p node_after);
    waker =
        ap (λ (v : Waiter). v.waker) (update_same s.nodes p node_after)
        ∙ registered_self (s.nodes p).waker cx;
    woken = refl;
    others = λ a ne. ground arith;
  }

  enqueue-fresh :
      (ws : List Ptr)
      → IsFifo s.queue ws
      → All (λ a. 0 < need s.nodes a) ws
      → has p ws ≡ false
      → 0 < need s.nodes p
      → Returns
          (λ (r, t). (r ≡ pending) × Parked cx p (need s.nodes p) s (ws ++ p ∷ []) t)
          (Acquire.enqueue cx p false s)
  enqueue-fresh ws fifo needy out pos = Returns-bind (push_front-snoc p ws fifo out) λ q fifo'.
      returns (
        refl,
        parked q (ws ++ p ∷ []) fifo' (
            needy-snoc (update s.nodes p node_after) ws p
              (needy-update s.nodes p node_after ws out needy)
              (ground (arith, update_same s.nodes p node_after))),
      )

-- The first poll of a new future on an open semaphore in a state that meets the invariant, when
-- fewer permits are available than it asks for: it is pending and marked as queued, the counter is
-- zero, its node stands behind all other waiters, still needs the difference, and holds the waker
-- of the task; the other nodes and the log of woken tasks are as before, and the invariant holds.
pub poll_short :
    (fuel : ℕ) (cx : Waker) (p : Ptr) (a : Acquire) (s : Inner) (ws : List Ptr)
    → WellFormed s ws
    → IsFresh a p s ws
    → is_closed s ≡ false
    → available_permits s < a.num_permits
    → Returns
        (λ ((r, t), b).
          (r ≡ pending)
          × (b ≡ record a { queued = true })
          × Parked cx p (a.num_permits - available_permits s) s (ws ++ p ∷ []) t)
        (poll fuel cx p a s)
unfolding poll poll_acquire available_permits
poll_short fuel cx p a s ws w fresh free few =
    let e : shl a.num_permits ≡ a.num_permits * 2 = omega (arith, fresh.small) in
    let enough : leb (shl a.num_permits) s.permits ≡ false = lt→leb _ _ (omega (arith, e)) in
    let part = assign_permits-part (s.nodes p) (shr s.permits) (omega (arith, fresh.whole)) in
    let given : Waiter = record {
      state = need s.nodes p - shr s.permits;
      waker = (s.nodes p).waker;
    } in
    let s1 = record s { permits = 0; nodes = update s.nodes p given } in
    let own : need s1.nodes p ≡ a.num_permits - shr s.permits =
      ap (λ (v : Waiter). v.state) (update_same s.nodes p given)
      ∙ ap (λ n. n - shr s.permits) fresh.whole in
    simp (fresh.idle, open_word s free, enough, part)
      (Returns-bind
        (enqueue-fresh cx p s1 refl (w.flag ∙ sym (is_closed-mod s) ∙ free) ws w.waits.fifo
          (needy-update s.nodes p given ws fresh.absent w.waits.needy) fresh.absent
          (omega (arith, own)))
        λ (r, t) (e, k). rw e (
          returns (
            refl,
            refl,
            record {
              wf = k.wf;
              drained = k.drained;
              short = k.short ∙ own;
              waker = k.waker;
              woken = k.woken;
              others = λ q ne. k.others q ne ∙ ground arith;
            },
          )))
