-- ===== src/Semaphore/Grants/Rounds.antt =====
-- src/semaphore.rs: one round of the outer loop of `add_permits`, which wakes a full batch, against `serve`.
use mathlib.Core.List.{Perm}
use mathlib.Core.List.Perm
use local_sync.Prelude.{
  ℕ, zero, suc, ◌+◌, ◌%◌, ◌≤◌, ◌<◌, ◌≡◌, refl, sym, ap, ap₂, ◌∙◌, subst, true, false, List, [],
  ◌++◌, append_assoc, append-nil, arith, ltb, le→leb, lt→ltb, Outcome, done, Returns, returns,
  Returns-bind, Returns-mono, ◌>>=◌,
}
use local_sync.LinkedList.{Ptr}
use local_sync.WakeList.{Waker}
use local_sync.WakeList.Wakes.{IsWakes, wake_all-append}
use local_sync.Semaphore.Word.{usize_mod, max_permits, shl}
use local_sync.Semaphore.Inner.{Inner}
use local_sync.Semaphore.Release.{Batch, settle, wake_batch, outer_loop}
use local_sync.Semaphore.Serve.{Served, serve, served_wakers, serve-zero}
use local_sync.Semaphore.Waits.{Waits, Inner1}

-- The semaphore `t` after permits were handed out from `s`, as `r` and `wakers` say.
pub record GrantedBy (r : Served) (wakers : List Waker) (s t : Inner) : Type 0 where
  pub waits : Waits t r.left
  pub nodes : t.nodes ≡ r.nodes
  pub permits : t.permits ≡ (s.permits + shl r.rem) % usize_mod
  pub closed : t.closed ≡ s.closed
  pub woken : Perm t.woken (s.woken ++ wakers)

abbrev pub Granted : ℕ → Inner → List Ptr → Inner → Type 0
Granted rem s ws t = GrantedBy (serve rem s.nodes ws) (served_wakers rem s.nodes ws) s t

settle-idle : (b : Batch) → b.rem ≡ 0 → settle b ≡ done b
unfolding settle
settle-idle b e = rw e

settle-busy : (b : Batch) → b.is_empty ≡ false → settle b ≡ done b
unfolding settle
settle-busy b e = ground arith

abbrev settled : Batch → Batch
settled b =
    let s = b.sem in
    record b { rem = 0; sem = record s { permits = (s.permits + shl b.rem) % usize_mod } }

settle-rest :
    (b : Batch) → 0 < b.rem → b.is_empty ≡ true → b.rem ≤ max_permits → settle b ≡ done (settled b)
unfolding settle
settle-rest b pos e small = rw (lt→ltb 0 b.rem pos, e, le→leb b.rem max_permits small)

record Woke (b : Batch) (stack : List Waker) (c : Batch) : Type 0 where
  wakes : IsWakes c.wakers []
  rem : c.rem ≡ b.rem
  is_empty : c.is_empty ≡ b.is_empty
  queue : c.sem.queue ≡ b.sem.queue
  nodes : c.sem.nodes ≡ b.sem.nodes
  permits : c.sem.permits ≡ b.sem.permits
  closed : c.sem.closed ≡ b.sem.closed
  woken : c.sem.woken ≡ b.sem.woken ++ stack

wake_batch-Woke :
    (b : Batch) (stack : List Waker)
    → IsWakes b.wakers stack
    → Returns (Woke b stack) (wake_batch b)
unfolding wake_batch
wake_batch-Woke b stack is =
    Returns-bind (wake_all-append b.wakers stack b.sem.woken is) λ (k, log) (wakes, e).
      returns (record {
        wakes = wakes;
        rem = refl;
        is_empty = refl;
        queue = refl;
        nodes = refl;
        permits = refl;
        closed = refl;
        woken = e;
      })

-- What holds of the variables when the outer loop ends.
pub record Ended (b : Batch) (ws : List Ptr) (c : Batch) : Type 0 where
  pub wakes : IsWakes c.wakers []
  pub rem : c.rem ≡ 0
  pub granted : Granted b.rem b.sem ws c.sem

outer_stop :
    (fuel rounds : ℕ) (b : Batch) → b.rem ≡ 0 → 0 < rounds → outer_loop fuel rounds b ≡ done b
unfolding outer_loop
outer_stop fuel zero b e h = elim h [ ]
outer_stop fuel (suc rounds) b e h =
    let idle : ltb 0 b.rem ≡ false = ground arith in rw (idle, outer_loop)

Woke-Waits :
    (b : Batch) (stack : List Waker) (c : Batch) (ws : List Ptr)
    → Woke b stack c
    → Waits b.sem ws
    → Waits c.sem ws
Woke-Waits b stack c ws w h = record { fifo = rw w.queue h.fifo; needy = rw w.nodes h.needy }

-- The batch `c`, after the inner loop and `settle`, is woken as a whole.
merge-Granted :
    (b c d : Batch) (ws ws1 : List Ptr) (stack : List Waker) (n : ℕ)
    → Woke c stack d
    → Waits c.sem ws1
    → record { rem = n; nodes = c.sem.nodes; left = ws1 } ≡ serve b.rem b.sem.nodes ws
    → c.sem.permits ≡ (b.sem.permits + shl n) % usize_mod
    → c.sem.closed ≡ b.sem.closed
    → c.sem.woken ≡ b.sem.woken
    → Perm stack (served_wakers b.rem b.sem.nodes ws)
    → Granted b.rem b.sem ws d.sem
merge-Granted b c d ws ws1 stack n w waits S permits closed woken perm = record {
  waits = subst (λ (r : Served). Waits d.sem r.left) S (Woke-Waits c stack d ws1 w waits);
  nodes = w.nodes ∙ ap (λ (r : Served). r.nodes) S;
  permits = w.permits ∙ permits ∙ ap (λ (r : Served). (b.sem.permits + shl r.rem) % usize_mod) S;
  closed = w.closed ∙ closed;
  woken = rw (w.woken, woken) (Perm.append_left b.sem.woken perm);
}

module _ (b : Batch) (ws : List Ptr) (fits : b.sem.permits < usize_mod) (c : Batch)
    (i : Inner1 b ws [] c) (fuel rounds : ℕ) (pos : 0 < rounds) where
  abbrev tail_of : Outcome Batch → Outcome Batch
  tail_of m = m >>= λ b2. wake_batch b2 >>= λ b3. outer_loop fuel rounds b3

  pub finish_zero : c.rem ≡ 0 → Returns (Ended b ws) (tail_of (settle c))
  finish_zero e = rw (settle-idle c e) (
      Returns-bind (wake_batch-Woke c i.stack1 i.wakes) λ d w.
        rw (outer_stop fuel rounds d (w.rem ∙ e) pos) (
          returns (record {
            wakes = w.wakes;
            rem = w.rem ∙ e;
            granted =
                merge-Granted b c d ws i.ws1 i.stack1 0 w i.waits S (i.same.permits ∙ omega arith)
                  i.same.closed i.same.woken perm;
          })))
    where
      none_left :
          (serve 0 c.sem.nodes i.ws1 ≡ record { rem = 0; nodes = c.sem.nodes; left = i.ws1 })
          × (served_wakers 0 c.sem.nodes i.ws1 ≡ [])
      none_left = serve-zero c.sem.nodes i.ws1 i.waits.needy

      S : record { rem = 0; nodes = c.sem.nodes; left = i.ws1 } ≡ serve b.rem b.sem.nodes ws
      S = sym none_left.0 ∙ ap (λ n. serve n c.sem.nodes i.ws1) (sym e) ∙ i.todo

      perm : Perm i.stack1 (served_wakers b.rem b.sem.nodes ws)
      perm =
          subst (λ l. Perm l (served_wakers b.rem b.sem.nodes ws))
            (ap (λ n. i.stack1 ++ served_wakers n c.sem.nodes i.ws1) e
              ∙ ap (λ l. i.stack1 ++ l) none_left.1
              ∙ append-nil i.stack1)
            i.wakers

  pub finish_rest :
      0 < c.rem
      → i.ws1 ≡ []
      → c.is_empty ≡ true
      → (serve b.rem b.sem.nodes ws).rem ≤ max_permits
      → Returns (Ended b ws) (tail_of (settle c))
  unfolding serve served_wakers
  finish_rest more e empty small =
      rw
        (settle-rest c more empty
          (subst (λ n. n ≤ max_permits) (sym (ap (λ (r : Served). r.rem) S)) small))
        (Returns-bind (wake_batch-Woke (settled c) i.stack1 i.wakes) λ d w.
          rw (outer_stop fuel rounds d w.rem pos) (
            returns (record {
              wakes = w.wakes;
              rem = w.rem;
              granted =
                  merge-Granted b (settled c) d ws [] i.stack1 c.rem w
                    (record { fifo = rw e at i.waits.fifo; needy = tt }) S
                    (ap (λ p. (p + shl c.rem) % usize_mod) i.same.permits) i.same.closed
                    i.same.woken perm;
            })))
    where
      S : record { rem = c.rem; nodes = c.sem.nodes; left = [] } ≡ serve b.rem b.sem.nodes ws
      S = ap (serve c.rem c.sem.nodes) (sym e) ∙ i.todo

      perm : Perm i.stack1 (served_wakers b.rem b.sem.nodes ws)
      perm =
          subst (λ l. Perm l (served_wakers b.rem b.sem.nodes ws))
            (ap (λ l. i.stack1 ++ served_wakers c.rem c.sem.nodes l) e ∙ append-nil i.stack1)
            i.wakers

  add-Granted :
      (d : Batch)
      → Woke c i.stack1 d
      → (t : Batch) → serve d.rem d.sem.nodes i.ws1 ≡ serve b.rem b.sem.nodes ws
      → Granted d.rem d.sem i.ws1 t.sem
      → Granted b.rem b.sem ws t.sem
  add-Granted d w t S g = record {
    waits = subst (λ (r : Served). Waits t.sem r.left) S g.waits;
    nodes = g.nodes ∙ ap (λ (r : Served). r.nodes) S;
    permits =
        g.permits
        ∙ ap₂ (λ p (r : Served). (p + shl r.rem) % usize_mod) (w.permits ∙ i.same.permits) S;
    closed = g.closed ∙ w.closed ∙ i.same.closed;
    woken =
        Perm.trans (subst (Perm t.sem.woken) regroup g.woken)
          (Perm.append_left b.sem.woken i.wakers);
  }
    where
      regroup :
          d.sem.woken ++ served_wakers d.rem d.sem.nodes i.ws1
          ≡ b.sem.woken ++ (i.stack1 ++ served_wakers c.rem c.sem.nodes i.ws1)
      regroup =
          rw (w.woken, i.same.woken, w.rem, w.nodes)
            (append_assoc b.sem.woken i.stack1 (served_wakers c.rem c.sem.nodes i.ws1))

  -- The batch is full and more is left to give: the next round goes on where this one stopped.
  pub finish_full :
      c.is_empty ≡ false
      → ((d : Batch)
          → Waits d.sem i.ws1
          → IsWakes d.wakers []
          → d.is_empty ≡ false
          → d.sem.permits < usize_mod
          → (serve d.rem d.sem.nodes i.ws1).rem ≤ max_permits
          → Returns (Ended d i.ws1) (outer_loop fuel rounds d))
      → (serve b.rem b.sem.nodes ws).rem ≤ max_permits
      → Returns (Ended b ws) (tail_of (settle c))
  finish_full busy next small = rw (settle-busy c busy) (
      Returns-bind (wake_batch-Woke c i.stack1 i.wakes) λ d w.
        let S : serve d.rem d.sem.nodes i.ws1 ≡ serve b.rem b.sem.nodes ws =
          ap₂ (λ n f. serve n f i.ws1) w.rem w.nodes ∙ i.todo in
        Returns-mono
          (next d (Woke-Waits c i.stack1 d i.ws1 w i.waits) w.wakes (w.is_empty ∙ busy)
            (rw (w.permits, i.same.permits) fits) (rw S small))
          λ t end. record {
            wakes = end.wakes;
            rem = end.rem;
            granted = add-Granted d w t S end.granted;
          })
