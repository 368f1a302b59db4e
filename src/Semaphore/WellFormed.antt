-- ===== src/Semaphore/WellFormed.antt =====
-- The invariant of `Inner` in src/semaphore.rs, and the operations on a semaphore that meets it.
use local_sync.Prelude.{
  ℕ, zero, suc, ◌-◌, ◌+◌, ◌*◌, ◌/◌, ◌%◌, ◌^◌, ◌≤◌, ◌<◌, ◌≡◌, refl, sym, ap, ◌∙◌, ◌⊎◌, inl, inr,
  true, false, Option, none, some, List, [], ◌∷◌, ◌++◌, append_assoc, append-nil, append-eq-nil,
  Bool-cases, eq_of_test, arith, ◌==◌, ltb, le→leb, lt→leb, has, length, if◌then◌else◌, done, panic,
  ok, err, Returns, returns, Returns-mono,
}
use local_sync.LinkedList
use local_sync.LinkedList.{Ptr, Links, unlinked}
use local_sync.LinkedList.Fifo.{IsFifo, IsFifo-Distinct, new-IsFifo, pop_back-oldest, pop_back-none}
use local_sync.WakeList.{Waker}
use local_sync.Semaphore.Word.{
  usize_mod, max_permits, shl, bit_and-closed, bit_or-closed, bit_and-max_permits,
}
use local_sync.Semaphore.Inner.{
  Inner, Waiter, closed, no_permits, new, available_permits, is_closed, close, close_loop,
  try_acquire, update, wake, forget_waker,
}
use local_sync.Semaphore.Release.{release}
use local_sync.Semaphore.Serve.{need, Served, serve, waker_list, all_wakers}
use local_sync.Semaphore.Waits.{Waits}
use local_sync.Semaphore.Grants.{Granted, add_permits-serve, Granted-nothing}
use local_sync.Semaphore.Fair.{InOrder, serve-InOrder, serve-rem_le}

-- `ws` are the waiters, oldest first. While anybody waits there is no permit to take, and the
-- semaphore is open.
pub record WellFormed (s : Inner) (ws : List Ptr) : Type 0 where
  pub waits : Waits s ws
  pub fits : s.permits < usize_mod
  pub busy : (ws ≡ []) ⊎ (s.permits ≡ 0)
  pub flag : s.closed ≡ (s.permits % 2 == 1)

pub is_closed-mod : (s : Inner) → is_closed s ≡ (s.permits % 2 == 1)
unfolding is_closed
is_closed-mod s = rw (bit_and-closed s.permits) (ground arith)

-- Over nodes with cleared pointers, a new semaphore meets the invariant with nobody waiting, is
-- open, and has the permits asked for modulo `2 ^ 61`.
pub new-WellFormed :
    (nodes : Ptr → Waiter) (links : Links) (n : ℕ)
    → ((p : Ptr) → links p ≡ unlinked)
    → WellFormed (new nodes links n) []
      × (available_permits (new nodes links n) ≡ n % 2 ^ 61)
      × (is_closed (new nodes links n) ≡ false)
unfolding new available_permits is_closed
new-WellFormed nodes links n clean = rw (bit_and-max_permits n) (
  record {
    waits = record { fifo = new-IsFifo links clean; needy = tt };
    fits = omega arith;
    busy = inl refl;
    flag = ground arith;
  },
  omega arith,
  rw (bit_and-closed (shl (n % 2 ^ 61))) (ground arith),
)

abbrev pub spend : ℕ → Inner → Inner
spend n s = record s { permits = s.permits - n * 2 }

-- `try_acquire` panics above the maximum. Up to the maximum it refuses with `closed` when the
-- semaphore is closed, else with `no_permits` when fewer permits are available than asked for, and
-- changes nothing then; otherwise it takes that many permits.
pub try_acquire_cases :
    (n : ℕ) (s : Inner)
    → ((max_permits < n) → try_acquire n s ≡ panic)
      × (n ≤ max_permits
          → try_acquire n s
            ≡ done (
                if is_closed s
                then (err closed, s)
                else if ltb (available_permits s) n
                then (err no_permits, s)
                else (ok tt, spend n s)))
unfolding try_acquire is_closed available_permits
try_acquire_cases n s = (
  λ big. rw (lt→leb n max_permits big),
  λ small. rw (le→leb n max_permits small) (ap done (ground (arith, bit_and-closed s.permits))),
)

-- Taking permits that are there keeps the invariant, and lowers the counter by as many.
pub spend-WellFormed :
    (n : ℕ) (s : Inner) (ws : List Ptr)
    → n ≤ available_permits s
    → WellFormed s ws
    → WellFormed (spend n s) ws × (available_permits (spend n s) + n ≡ available_permits s)
unfolding available_permits
spend-WellFormed n s ws room w = (
  record {
    waits = record { fifo = w.waits.fifo; needy = w.waits.needy };
    fits = omega (arith, w.fits);
    busy = elim w.busy [ inl e ↦ inl e | inr e ↦ inr (omega arith) ];
    flag = w.flag ∙ ground arith;
  },
  omega arith,
)

-- Handing out permits keeps the invariant, if the counter does not overflow.
pub Granted-WellFormed :
    (rem : ℕ) (s t : Inner) (ws : List Ptr)
    → WellFormed s ws
    → Granted rem s ws t
    → s.permits + rem * 2 < usize_mod
    → WellFormed t (serve rem s.nodes ws).left
Granted-WellFormed rem s t ws w g room = record {
  waits = g.waits;
  fits = omega (arith, g.permits);
  busy = elim order.spent [ inl e ↦ inl e | inr e ↦ still e ];
  flag = g.closed ∙ w.flag ∙ ap (λ n. n == 1) parity;
}
  where
    r : Served
    r = serve rem s.nodes ws

    order : InOrder rem s.nodes ws r
    order = serve-InOrder rem s.nodes ws (IsFifo-Distinct ws w.waits.fifo)

    sum : t.permits ≡ s.permits + r.rem * 2
    sum = omega (arith, g.permits, serve-rem_le rem s.nodes ws)

    parity : s.permits % 2 ≡ t.permits % 2
    parity = omega (arith, sum)

    nobody : ws ≡ [] → r.left ≡ []
    nobody e = (append-eq-nil order.served r.left (sym order.split ∙ e)).1

    still : r.rem ≡ 0 → (r.left ≡ []) ⊎ (t.permits ≡ 0)
    still e = elim w.busy [ inl f ↦ inl (nobody f) | inr f ↦ inr (omega (arith, sum)) ]

-- `release` of permits that the counter can take returns, keeps the invariant and hands them out.
pub release-WellFormed :
    (fuel n : ℕ) (s : Inner) (ws : List Ptr)
    → WellFormed s ws
    → n ≤ max_permits
    → s.permits + n * 2 < usize_mod
    → length ws + 1 < fuel
    → Returns (λ t. Granted n s ws t × WellFormed t (serve n s.nodes ws).left) (release fuel n s)
unfolding release
release-WellFormed fuel n s ws w small room enough = elim (Bool-cases (n == 0)) [
  | inl z ↦
      let e : n ≡ 0 = eq_of_test n 0 z in
      let g : Granted n s ws s = Granted-nothing n s ws e w.waits w.fits in
      rw z (returns (g, Granted-WellFormed n s s ws w g room))
  | inr nz ↦ rw nz (
      Returns-mono
        (add_permits-serve fuel n s ws w.waits w.fits (omega (arith, serve-rem_le n s.nodes ws))
          enough)
        λ t g. (g, Granted-WellFormed n s t ws w g room))
]

-- `close` with enough fuel returns: the semaphore is closed with its permits kept, nobody waits any
-- more, and the wakers of all who waited are woken, in the order of their requests.
pub record Closed (s : Inner) (ws : List Ptr) (t : Inner) : Type 0 where
  pub wf : WellFormed t []
  pub shut : is_closed t ≡ true
  pub kept : available_permits t ≡ available_permits s
  pub woken : t.woken ≡ s.woken ++ all_wakers s.nodes ws
  pub states : (p : Ptr) → need t.nodes p ≡ need s.nodes p

record Drained (s : Inner) (ws : List Ptr) (t : Inner) : Type 0 where
  fifo : IsFifo t.queue []
  permits : t.permits ≡ s.permits
  closed : t.closed ≡ s.closed
  woken : t.woken ≡ s.woken ++ all_wakers s.nodes ws
  states : (p : Ptr) → need t.nodes p ≡ need s.nodes p

wake-append :
    (o : Option Waker) (s : Inner) → wake o s ≡ record s { woken = s.woken ++ waker_list o }
wake-append none s = ap (λ l. record s { woken = l }) (sym (append-nil s.woken))
wake-append (some w) s = refl

all_wakers-update :
    (nodes : Ptr → Waiter) (p : Ptr) (w : Waiter) (ws : List Ptr)
    → has p ws ≡ false
    → all_wakers (update nodes p w) ws ≡ all_wakers nodes ws
all_wakers-update nodes p w [] out = refl
all_wakers-update nodes p w (q ∷ ws) out = ground (arith, all_wakers-update nodes p w ws)

close_loop-Drained :
    (f : ℕ) (s : Inner) (ws : List Ptr)
    → IsFifo s.queue ws
    → length ws < f
    → Returns (Drained s ws) (close_loop f s)
unfolding close_loop
close_loop-Drained zero s ws fifo enough = absurd (omega arith)
close_loop-Drained (suc f) s [] fifo enough =
    rw (pop_back-none fifo, close_loop)
      (returns (record {
        fifo = fifo;
        permits = refl;
        closed = refl;
        woken = sym (append-nil s.woken);
        states = λ p. refl;
      }))
close_loop-Drained (suc f) s (p ∷ ws) fifo enough =
    let (out, rest) = pop_back-oldest p ws fifo in
    let wl = waker_list (s.nodes p).waker in
    rw
      (
        out,
        wake-append (s.nodes p).waker
            (forget_waker p (record s { queue = (LinkedList.pop_back s.queue).1 })),
      )
      (Returns-mono (close_loop-Drained f _ ws rest (omega arith)) λ t d. record {
        fifo = d.fifo;
        permits = d.permits;
        closed = d.closed;
        woken =
            d.woken
            ∙ append_assoc s.woken wl _
            ∙ ap (λ l. s.woken ++ (wl ++ l))
                (all_wakers-update s.nodes p (record { state = need s.nodes p; waker = none }) ws
                  (IsFifo-Distinct (p ∷ ws) fifo).0);
        states = λ q. d.states q ∙ ground arith;
      })

-- From a state that meets the invariant, with more fuel than there are waiters, `close` returns:
-- the semaphore is closed with its permits kept, nobody waits any more, the wakers of all who
-- waited are woken in the order of their requests, and what each had still to get is unchanged.
pub close-Closed :
    (fuel : ℕ) (s : Inner) (ws : List Ptr)
    → WellFormed s ws
    → length ws < fuel
    → Returns (Closed s ws) (close fuel s)
unfolding close is_closed available_permits
close-Closed fuel s ws w enough =
    Returns-mono (close_loop-Drained fuel _ ws w.waits.fifo enough) λ t d.
      let p : t.permits ≡ s.permits / 2 * 2 + 1 = d.permits ∙ bit_or-closed s.permits in
      record {
        wf = record {
          waits = record { fifo = d.fifo; needy = tt };
          fits = omega (arith, w.fits);
          busy = inl refl;
          flag = d.closed ∙ ground arith;
        };
        shut = rw (bit_and-closed t.permits) (ground arith);
        kept = omega arith;
        woken = d.woken;
        states = d.states;
      }
