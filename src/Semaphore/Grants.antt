-- ===== src/Semaphore/Grants.antt =====
-- `add_permits` of src/semaphore.rs against `serve`.
mod Rounds
use mathlib.Core.List.{Perm}
use mathlib.Core.List.Perm
use local_sync.Prelude.{
  ℕ, zero, suc, ◌+◌, ◌%◌, ◌≤◌, ◌<◌, ◌≡◌, refl, sym, ap, ap₂, ◌∙◌, subst, inl, inr, true, false,
  List, [], ◌++◌, append_assoc, append-nil, arith, ltb, le→leb, lt→ltb, length, Bool-cases, dec_le,
  Outcome, done, Returns, returns, Returns-bind, Returns-mono, ◌>>=◌,
}
use local_sync.LinkedList.{Ptr}
use local_sync.WakeList
use local_sync.WakeList.{Waker, num_wakers}
use local_sync.WakeList.Wakes.{IsWakes, new-IsWakes, wake_all-append, drop-reverse}
use local_sync.Semaphore.Word.{usize_mod, max_permits, shl}
use local_sync.Semaphore.Inner.{Inner}
use local_sync.Semaphore.Release.{Batch, settle, wake_batch, outer_loop, add_permits}
use local_sync.Semaphore.Serve.{Served, serve, served_wakers, serve-zero}
use local_sync.Semaphore.Waits.{Waits, Inner1, inner_loop-serve}
pub use local_sync.Semaphore.Grants.Rounds.{GrantedBy, Granted}
use local_sync.Semaphore.Grants.Rounds.{finish_zero, finish_rest, finish_full, Ended}

-- Nothing handed out is nothing changed.
pub Granted-nothing :
    (n : ℕ) (s : Inner) (ws : List Ptr)
    → n ≡ 0
    → Waits s ws
    → s.permits < usize_mod
    → Granted n s ws s
Granted-nothing n s ws e waits fits =
    rw (e, none_left.0, none_left.1)
      (record {
        waits = waits;
        nodes = refl;
        permits = omega arith;
        closed = refl;
        woken = rw append-nil (Perm.refl s.woken);
      })
  where
    none_left :
        (serve 0 s.nodes ws ≡ record { rem = 0; nodes = s.nodes; left = ws })
        × (served_wakers 0 s.nodes ws ≡ [])
    none_left = serve-zero s.nodes ws waits.needy

outer_loop-serve :
    (fuel rounds : ℕ) (b : Batch) (ws : List Ptr)
    → Waits b.sem ws
    → IsWakes b.wakers []
    → b.is_empty ≡ false
    → b.sem.permits < usize_mod
    → (serve b.rem b.sem.nodes ws).rem ≤ max_permits
    → length ws < fuel
    → length ws + 1 < rounds
    → Returns (Ended b ws) (outer_loop fuel rounds b)
unfolding outer_loop
outer_loop-serve fuel zero b ws waits wakes idle fits small enough rounds = absurd (omega arith)
outer_loop-serve fuel (suc r) b ws waits wakes idle fits small enough rounds =
    elim (Bool-cases (ltb 0 b.rem)) [
      | inl more ↦
          rw (more, outer_loop)
            (Returns-bind (inner_loop-serve fuel b ws [] waits wakes enough) λ c i. elim i.stop [
              | inl e ↦ finish_zero b ws fits c i fuel r (omega arith) e
              | inr (inl (none_waits, empty)) ↦ elim (dec_le c.rem 0) [
                | yes e ↦ finish_zero b ws fits c i fuel r (omega arith) (omega arith)
                | no more ↦
                    finish_rest b ws fits c i fuel r (omega arith) (omega arith) none_waits empty
                      small
              ]
              | inr (inr (full, busy)) ↦
                  finish_full b ws fits c i fuel r (omega arith) (busy ∙ idle)
                    (λ d waits' wakes' idle' fits' small'.
                      outer_loop-serve fuel r d i.ws1 waits' wakes' idle' fits' small'
                        (omega (arith, i.size)) (omega (arith, i.size)))
                    small
            ])
      | inr none_left ↦
          rw (none_left, outer_loop)
            (returns (record {
              wakes = wakes;
              rem = ground arith;
              granted = Granted-nothing b.rem b.sem ws (ground arith) waits fits;
            }))
    ]

-- With more fuel than one above the number of waiters, if what no waiter needs is at most the
-- maximum, `add_permits` returns, and does what the function `serve` on the waiters says: what each
-- still needs, who still waits, what the counter gains modulo `2 ^ 64`, and which wakers are woken,
-- up to their order.
pub add_permits-serve :
    (fuel rem : ℕ) (s : Inner) (ws : List Ptr)
    → Waits s ws
    → s.permits < usize_mod
    → (serve rem s.nodes ws).rem ≤ max_permits
    → length ws + 1 < fuel
    → Returns (Granted rem s ws) (add_permits fuel rem s)
unfolding add_permits
add_permits-serve fuel rem s ws waits fits small enough =
    Returns-bind
      (outer_loop-serve fuel fuel
        (record { rem = rem; wakers = WakeList.new; is_empty = false; sem = s }) ws waits
        new-IsWakes refl fits small (omega arith) enough)
      λ c end. rw (end.rem, drop-reverse c.wakers [] end.wakes) (returns end.granted)
