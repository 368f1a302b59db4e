-- ===== src/Semaphore/Handout.antt =====
-- What `release` of src/semaphore.rs does for the waiters, without reference to `serve`.
use mathlib.Core.List.{Perm}
use local_sync.Prelude.{
  ℕ, ◌+◌, ◌*◌, ◌≤◌, ◌<◌, ◌≡◌, subst, ap, ◌∙◌, ◌⊎◌, inl, inr, List, [], ◌∷◌, ◌++◌, arith, true, has,
  All, length, Returns, Returns-mono,
}
use local_sync.LinkedList.{Ptr}
use local_sync.LinkedList.Fifo.{IsFifo-Distinct}
use local_sync.Semaphore.Word.{usize_mod, max_permits}
use local_sync.Semaphore.Inner.{Inner, Waiter, available_permits}
use local_sync.Semaphore.Release.{release}
use local_sync.Semaphore.Serve.{need, serve, all_wakers}
use local_sync.Semaphore.Fair.{serve-InOrder, serve-rem_le, serve_conserves, total_need}
use local_sync.Semaphore.Grants.{Granted}
use local_sync.Semaphore.WellFormed.{WellFormed, release-WellFormed}

-- The semaphore `t` after `n` permits came to `s`, where `ws` waited. The waiters in `served`, the
-- oldest, have all they asked for and are woken, in some order; those in `left` still wait. Of these only the first has gained.
-- The permits available and what the waiters have gained grow together by `n`.
pub record HandedOut (n : ℕ) (s : Inner) (ws : List Ptr) (t : Inner) : Type 0 where
  pub served : List Ptr
  pub left : List Ptr
  pub split : ws ≡ served ++ left
  pub wf : WellFormed t left
  pub full : All (λ p. need t.nodes p ≡ 0) served
  pub woken : Perm t.woken (s.woken ++ all_wakers s.nodes served)
  pub conserved :
      available_permits t + total_need s.nodes ws ≡ available_permits s + n + total_need t.nodes ws
  pub spent : (left ≡ []) ⊎ (available_permits t ≡ available_permits s)
  pub later :
      (p : Ptr) (rest : List Ptr)
      → left ≡ p ∷ rest
      → (q : Ptr) → has q rest ≡ true
      → t.nodes q ≡ s.nodes q

conserved :
    (n : ℕ) (s t : Inner) (ws : List Ptr)
    → WellFormed s ws
    → s.permits + n * 2 < usize_mod
    → Granted n s ws t
    → available_permits t + total_need s.nodes ws ≡ available_permits s + n + total_need t.nodes ws
unfolding available_permits
conserved n s t ws w room g = omega (
  arith,
  g.permits,
  serve-rem_le n s.nodes ws,
  serve_conserves n s.nodes ws (IsFifo-Distinct ws w.waits.fifo),
  ap (λ f. total_need f ws) g.nodes,
)

handed_out :
    (n : ℕ) (s t : Inner) (ws : List Ptr)
    → WellFormed s ws
    → s.permits + n * 2 < usize_mod
    → Granted n s ws t
    → WellFormed t (serve n s.nodes ws).left
    → HandedOut n s ws t
unfolding available_permits
handed_out n s t ws w room g wf =
    let o = serve-InOrder n s.nodes ws (IsFifo-Distinct ws w.waits.fifo) in
    record {
      served = o.served;
      left = (serve n s.nodes ws).left;
      split = o.split;
      wf = wf;
      full = rw g.nodes o.full;
      woken = subst (λ l. Perm t.woken (s.woken ++ l)) o.woken g.woken;
      conserved = conserved n s t ws w room g;
      spent = elim o.spent [ inl e ↦ inl e | inr e ↦ inr (omega (arith, g.permits, e, w.fits)) ];
      later = λ p rest e q i. ap (λ (f : Ptr → Waiter). f q) g.nodes ∙ o.later p rest e q i;
    }

-- From a state that meets the invariant, with enough fuel, `release` of `n` permits that the
-- counter can take returns. The permits available and what the waiters have gained grow together by
-- `n`. The waiters that are served are the oldest, have all they asked for, and their wakers are
-- the ones that are woken, in some order; the others still wait in order, and of these only the
-- first has gained; while anybody still waits the counter does not change; and the invariant holds
-- of what is left.
pub release-HandedOut :
    (fuel n : ℕ) (s : Inner) (ws : List Ptr)
    → WellFormed s ws
    → n ≤ max_permits
    → s.permits + n * 2 < usize_mod
    → length ws + 1 < fuel
    → Returns (HandedOut n s ws) (release fuel n s)
release-HandedOut fuel n s ws w small room enough =
    Returns-mono (release-WellFormed fuel n s ws w small room enough)
      λ t (g, wf). handed_out n s t ws w room g wf
