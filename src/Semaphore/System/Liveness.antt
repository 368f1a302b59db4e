-- ===== src/Semaphore/System/Liveness.antt =====
-- The oldest waiter of src/semaphore.rs, when permits come.
use mathlib.Core.List.{Mem, mem-append_right, mem-cons_self}
use mathlib.Core.List.Perm
use local_sync.Prelude.{
  ℕ, ◌+◌, ◌-◌, ◌*◌, ◌%◌, ◌≤◌, ◌<◌, ◌≡◌, refl, ap, ◌∙◌, true, false, some, List, ◌∷◌, arith, ◌==◌,
  ==_self, le→leb, has, has-append, Distinct, length, Returns, returns, Returns-bind, Returns-mono,
}
use local_sync.Prelude.Members.{has-delete_self}
use local_sync.LinkedList.{Ptr}
use local_sync.LinkedList.Fifo.{IsFifo-Distinct}
use local_sync.WakeList.{Waker}
use local_sync.Semaphore.Word.{usize_mod, max_permits}
use local_sync.Semaphore.Inner.{Inner, Waiter, update, is_closed}
use local_sync.Semaphore.Release.{release}
use local_sync.Semaphore.Serve.{
  need, full_waiter, Served, serve, served_wakers, served_wakers-full, serve-full,
}
use local_sync.Semaphore.Fair.{InOrder, serve-InOrder}
use local_sync.Semaphore.WellFormed.{release-WellFormed, is_closed-mod}
use local_sync.Semaphore.Queued.{poll_served, drop_idle, nobody}
use local_sync.Semaphore.Effects.{Within, granted-Effects}
use local_sync.Semaphore.System
use local_sync.Semaphore.System.{System, step}
use local_sync.Semaphore.System.Inv.{Inv, waiting_few, available_held, fits}
use local_sync.Semaphore.System.Moves.{Effects-Inv}

-- The future at `p` is done: its permits are the client's, and it is gone.
abbrev pub Acquired : Ptr → System → System → Type 0
Acquired p c d = (has p d.live ≡ false) × (d.held ≡ c.held + (c.futures p).num_permits)

poll_done :
    {c : System} {ws : List Ptr} (i : Inv c ws) (fuel : ℕ) (cx : Waker) (p : Ptr)
    → length c.live + 1 < fuel
    → has p c.live ≡ true
    → (c.futures p).queued ≡ true
    → has p ws ≡ false
    → is_closed c.sem ≡ false
    → Returns (Acquired p c) (step fuel (System.poll cx p) c)
unfolding step
poll_done {c} {ws} i fuel cx p enough here busy out free = rw here (
    Returns-bind
      (poll_served fuel cx p (c.futures p) c.sem ws i.wf free busy out
        (i.served p here busy out free) (omega (arith, available_held i, i.limit))
        (omega (arith, waiting_few i)))
      λ ((r, t), b) (e, eb, wf, same, kept).
        rw (e, eb, drop_idle) (returns (has-delete_self p c.live i.distinct, refl)))

-- What a release that covers the oldest waiter `p` leaves: `p` is woken and off the queue.
abbrev pub Released : System → Ptr → Waker → ℕ → Inner → Type 0
Released c p w n t =
    Mem w t.woken
    × ((left : List Ptr) × Inv (record c { sem = t; held = c.held - n }) left
        × (has p left ≡ false))
    × (is_closed t ≡ false)

pub release-Released :
    (c : System) (p : Ptr) (rest : List Ptr) (w : Waker) (n fuel : ℕ)
    → Inv c (p ∷ rest)
    → (c.sem.nodes p).waker ≡ some w
    → need c.sem.nodes p ≤ n
    → n ≤ c.held
    → length c.live + 1 < fuel
    → Returns (Released c p w n) (release fuel n c.sem)
release-Released c p rest w n fuel i waker need_le held enough =
    Returns-mono (release-WellFormed fuel n c.sem (p ∷ rest) i.wf small room fuel_ok) λ t (g, wf).
      let e = granted-Effects n c.sem t (p ∷ rest) c.live distinct i.distinct sub room g wf in
      let left = (serve n c.sem.nodes (p ∷ rest)).left in
      let j : Inv (record c { sem = t; held = c.held - n }) left =
        Effects-Inv i n (c.held - n) c.capacity (p ∷ rest) left c.live t e i.distinct (λ q h. h) sub
          (λ q _. refl) (omega (arith, i.sum, held)) i.limit in
      ((Perm.mem_iff g.woken).1 (mem-append_right c.sem.woken woken), (left, j, out), e.shut ∙ free)
  where
    inside : has p (p ∷ rest) ≡ true
    inside = ground (arith, ==_self p)

    distinct : Distinct (p ∷ rest)
    distinct = IsFifo-Distinct (p ∷ rest) i.wf.waits.fifo

    small : n ≤ max_permits
    small = omega (arith, held, available_held i, i.limit)

    room : c.sem.permits + n * 2 < usize_mod
    room = fits i n small

    fuel_ok : length (p ∷ rest) + 1 < fuel
    fuel_ok = omega (arith, waiting_few i)

    sub : Within (p ∷ rest) c.live
    sub q h = (i.waiting q h).0

    free : is_closed c.sem ≡ false
    free = is_closed-mod c.sem ∙ ap (λ k. k % 2 == 1) (nobody c.sem (p ∷ rest) p i.wf inside)

    woken : Mem w (served_wakers n c.sem.nodes (p ∷ rest))
    woken = rw (served_wakers-full n c.sem.nodes p rest need_le, waker) mem-cons_self

    after : Ptr → Waiter
    after = update c.sem.nodes p full_waiter

    not_left : (r : Served) → InOrder (n - need c.sem.nodes p) after rest r → has p r.left ≡ false
    not_left r o = ground (arith, ap (has p) o.split, has-append p o.served r.left, distinct.0)

    -- Only those behind `p` can still wait.
    out : has p (serve n c.sem.nodes (p ∷ rest)).left ≡ false
    out = rw (serve-full n c.sem.nodes p rest need_le) (
        not_left (serve (n - need c.sem.nodes p) after rest)
          (serve-InOrder (n - need c.sem.nodes p) after rest distinct.1))

-- From a state that meets the invariant of the whole system, when clients give back as many permits
-- as the oldest waiter needs, or more, with enough fuel: the waiter's task is woken, and the next
-- poll of its future returns with the permits the client's, and the future is gone.
pub oldest-Acquired :
    (c : System) (p : Ptr) (rest : List Ptr) (w cx : Waker) (n fuel : ℕ)
    → Inv c (p ∷ rest)
    → (c.sem.nodes p).waker ≡ some w
    → need c.sem.nodes p ≤ n
    → n ≤ c.held
    → length c.live + 1 < fuel
    → Returns
        (λ d. Mem w d.sem.woken × Returns (Acquired p d) (step fuel (System.poll cx p) d))
        (step fuel (System.give_back n) c)
unfolding step
oldest-Acquired c p rest w cx n fuel i waker need_le held enough =
    let (here, busy) = i.waiting p (ground (arith, ==_self p)) in
    rw (le→leb n c.held held) (
      Returns-bind (release-Released c p rest w n fuel i waker need_le held enough)
        λ t (woken, (left, j, out), free).
          returns (woken, poll_done j fuel cx p enough here busy out free))
