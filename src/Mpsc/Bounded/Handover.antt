-- ===== src/Mpsc/Bounded/Handover.antt =====
-- src/mpsc/bounded.rs: a value that is received makes room for the send that waits longest.
use mathlib.Core.List.{Mem}
use local_sync.Prelude.{
  ℕ, ◌+◌, ◌≤◌, ◌<◌, ◌≡◌, sym, ap, ◌∙◌, subst, true, false, Option, some, List, [], ◌∷◌, ◌++◌, arith,
  ◌==◌, ◌%◌, ==_self, has, length, Result, ok, Returns, returns, Returns-bind, Returns-through,
}
use local_sync.LinkedList.{Ptr}
use local_sync.LinkedList.Unique.{IsFifo-unique}
use local_sync.WakeList.{Waker}
use local_sync.Semaphore.Word.{max_permits}
use local_sync.Semaphore.Inner.{Inner, is_closed, available_permits}
use local_sync.Semaphore.Acquire
use local_sync.Semaphore.Acquire.{Acquire, ready, pending}
use local_sync.Semaphore.Serve.{need}
use local_sync.Semaphore.WellFormed.{WellFormed, is_closed-mod}
use local_sync.Semaphore.Queued.{poll_served, drop_idle}
use local_sync.Semaphore.System.Inv.{Inv, waiting_few, available_held}
use local_sync.Semaphore.System.Liveness.{release-Released}
use local_sync.Mpsc.Drain.{len_lem}
use local_sync.Mpsc.Pop.{pop_unchecked-holds}
use local_sync.Mpsc.Chan
use local_sync.Mpsc.Chan.{Chan, inner_permits}
use local_sync.Mpsc.Order.{Holds, send-Sent}
use local_sync.Mpsc.Bounded
use local_sync.Mpsc.Bounded.{Sending, acquiring, finished, send_acquired, send_await, poll_send}
use local_sync.Mpsc.Bounded.Runs.{Run, view}
use local_sync.Mpsc.Bounded.Fits.{Fits}

module _ {ℓ} {T : Type ℓ} where
  -- A send whose permit is there is accepted.
  abbrev pub Accepted :
      List T → Acquire.Poll (Result Chan.SendError (Unit {0})) × Sending T × Chan T Inner → Type ℓ
  Accepted xs (res, s, d) = (res ≡ ready (ok tt)) × Holds d.queue xs

  granted-Accepted :
      (c : Chan T Inner) (p : Ptr) (a : Acquire) (v : T) (xs : List T) (ws : List Ptr) (fuel : ℕ)
      (cx : Waker)
      → Holds c.queue xs
      → WellFormed c.semaphore ws
      → is_closed c.semaphore ≡ false
      → a.queued ≡ true
      → has p ws ≡ false
      → need c.semaphore.nodes p ≡ 0
      → available_permits c.semaphore ≤ max_permits
      → length ws + 1 < fuel
      → Returns (Accepted (xs ++ v ∷ [])) (poll_send fuel cx p (acquiring v a) c)
  unfolding poll_send send_await send_acquired inner_permits
  granted-Accepted c p a v xs ws fuel cx h wf free queued out full small enough =
      Returns-bind (poll_served fuel cx p a c.semaphore ws wf free queued out full small enough)
        λ ((x, t), b) (ex, eb, wf2, same, _).
          let still : is_closed t ≡ false =
            is_closed-mod t ∙ ap (λ k. k % 2 == 1) same ∙ sym (is_closed-mod c.semaphore) ∙ free in
          rw (ex, drop_idle fuel p b t (ap (λ (x : Acquire). x.queued) eb))
            (Returns-bind (send-Sent (inner_permits fuel) v (record c { semaphore = t }) xs h still)
              λ (res, d) (e, s). returns (ap ready e, s.holds))

  -- What the receiver is given, and what the send of `v` at `p`, which waits as `w`, then is told
  abbrev pub HandsOver :
      Run T → Ptr → Waker → Waker → ℕ → T → Chan.Poll (Option T) × Chan T Inner → Type ℓ
  HandsOver r p w cy fuel v (res, c) =
      (x : T) × (xs : List T) × (res ≡ Chan.ready (some x))
      × (r.accepted ≡ r.taken ++ x ∷ xs)
      × Mem w c.semaphore.woken
      × Returns (Accepted (xs ++ v ∷ [])) (poll_send fuel cy p (acquiring v (r.futures p)) c)

  module _ (n : ℕ) (r : Run T) (p : Ptr) (rest : List Ptr) (w cx cy : Waker) (v : T) (fuel : ℕ)
      (wf : WellFormed r.chan.semaphore (p ∷ rest))
      (waker : (r.chan.semaphore.nodes p).waker ≡ some w) (enough : length r.live + 1 < fuel) where
    pub recv-HandsOver :
        (xs : List T)
        → Fits n xs r
        → 0 < r.chan.queue.len
        → Returns (HandsOver r p w cy fuel v) (Bounded.poll_recv fuel cx r.chan)
    unfolding Bounded.poll_recv Chan.recv inner_permits
    recv-HandsOver [] f some_value =
        let (_, _, is) = f.holds in absurd (omega (arith, is.count, some_value))
    recv-HandsOver (x ∷ xs) f some_value =
        let (ps, fs, is) = f.holds in
        rw ((len_lem r.chan.queue ps fs (x ∷ xs) is).1) (
          Returns-through _ _ (pop_unchecked-holds x r.chan.queue ps fs xs is) λ (y, q) (e, h).
            Returns-through _ _
              (release-Released (view n (x ∷ xs) r) p rest w 1 fuel i waker
                (omega (arith, (i.future p here).need_le, (f.one p here).0)) (omega arith) enough)
              λ t (woken, (left, j, out), free). returns (
                x,
                xs,
                ap (λ y. Chan.ready (some y)) e,
                f.order,
                woken,
                granted-Accepted (record r.chan { queue = q; semaphore = t }) p (r.futures p) v xs
                    left fuel cy h j.wf free busy out (j.served p here busy out free)
                    (omega (arith, available_held j, j.limit))
                    (omega (arith, waiting_few j, enough)),
              ))
      where
        i : Inv (view n (x ∷ xs) r) (p ∷ rest)
        i =
            let (ws, j) = f.good in
            subst (Inv (view n (x ∷ xs) r))
              (IsFifo-unique r.chan.semaphore.queue ws (p ∷ rest) j.wf.waits.fifo wf.waits.fifo) j

        here : has p r.live ≡ true
        here = (i.waiting p (ground (arith, ==_self p))).0

        busy : (r.futures p).queued ≡ true
        busy = (i.waiting p (ground (arith, ==_self p))).1
