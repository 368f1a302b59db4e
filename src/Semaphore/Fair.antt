-- ===== src/Semaphore/Fair.antt =====
-- The order in which `serve` hands out permits, and their number.
use local_sync.Prelude.{
  ℕ, ◌-◌, ◌+◌, ◌≤◌, ◌≡◌, refl, sym, ap, subst, ◌∙◌, ◌⊎◌, inl, inr, true, false, List, [], ◌∷◌, ◌++◌,
  arith, has, has_apart, has-append, All, Distinct, dec_le,
}
use local_sync.Prelude.Members.{total}
use local_sync.LinkedList.{Ptr}
use local_sync.Semaphore.Inner.{Waiter, update}
use local_sync.Semaphore.Serve.{
  need, full_waiter, Served, serve, served_wakers, all_wakers, waker_list, serve-full, serve-part,
  served_wakers-full, served_wakers-part, update_same,
}

-- What the waiters still need, taken together.
abbrev pub total_need : (Ptr → Waiter) → List Ptr → ℕ
total_need nodes ws = total (need nodes) ws

total_need-update :
    (nodes : Ptr → Waiter) (p : Ptr) (w : Waiter) (ws : List Ptr)
    → has p ws ≡ false
    → total_need (update nodes p w) ws ≡ total_need nodes ws
total_need-update nodes p w [] out = refl
total_need-update nodes p w (q ∷ ws) out = ground (arith, total_need-update nodes p w ws)

pub serve_outside :
    (rem : ℕ) (nodes : Ptr → Waiter) (ws : List Ptr) (q : Ptr)
    → has q ws ≡ false
    → (serve rem nodes ws).nodes q ≡ nodes q
unfolding serve
serve_outside rem nodes [] q out = refl
serve_outside rem nodes (p ∷ ws) q out = elim (dec_le (need nodes p) rem) [
  | yes h ↦ rw (serve-full rem nodes p ws h) (
      serve_outside (rem - need nodes p) (update nodes p full_waiter) ws q (ground arith)
      ∙ ground arith)
  | no h ↦ rw (serve-part rem nodes p ws (omega arith)) (ground arith)
]

abbrev Conserves : ℕ → (Ptr → Waiter) → List Ptr → Served → Type 0
Conserves rem nodes ws r = r.rem + total_need nodes ws ≡ rem + total_need r.nodes ws

-- Handing out `rem` permits: what is left over and what the waiters gained make up `rem`.
pub serve_conserves :
    (rem : ℕ) (nodes : Ptr → Waiter) (ws : List Ptr)
    → Distinct ws
    → (serve rem nodes ws).rem + total_need nodes ws
      ≡ rem + total_need (serve rem nodes ws).nodes ws
unfolding serve
serve_conserves rem nodes [] d = omega arith
serve_conserves rem nodes (p ∷ ws) d = elim (dec_le (need nodes p) rem) [
  | yes h ↦
      let n = rem - need nodes p in
      let after = update nodes p full_waiter in
      subst (Conserves rem nodes (p ∷ ws)) (sym (serve-full rem nodes p ws h)) (
        omega (
          arith,
          serve_conserves n after ws d.1,
          total_need-update nodes p full_waiter ws d.0,
          ap (λ (w : Waiter). w.state)
              (serve_outside n after ws p d.0 ∙ update_same nodes p full_waiter),
        ))
  | no h ↦
      let w : Waiter = record { state = need nodes p - rem; waker = (nodes p).waker } in
      subst (Conserves rem nodes (p ∷ ws)) (sym (serve-part rem nodes p ws (omega arith))) (
        omega (
          arith,
          total_need-update nodes p w ws d.0,
          ap (λ (w : Waiter). w.state) (update_same nodes p w),
        ))
]

-- The waiters that are served are the oldest, they have all they asked for and are woken, nothing is left over
-- while anybody waits, and of those who still wait only the oldest has gained.
pub record InOrder (rem : ℕ) (nodes : Ptr → Waiter) (ws : List Ptr) (r : Served) : Type 0 where
  pub served : List Ptr
  pub split : ws ≡ served ++ r.left
  pub full : All (λ p. need r.nodes p ≡ 0) served
  pub woken : served_wakers rem nodes ws ≡ all_wakers nodes served
  pub spent : (r.left ≡ []) ⊎ (r.rem ≡ 0)
  pub later :
      (p : Ptr) (rest : List Ptr)
      → r.left ≡ p ∷ rest
      → (q : Ptr) → has q rest ≡ true
      → r.nodes q ≡ nodes q

all_wakers-update :
    (nodes : Ptr → Waiter) (p : Ptr) (w : Waiter) (ws : List Ptr)
    → has p ws ≡ false
    → all_wakers (update nodes p w) ws ≡ all_wakers nodes ws
all_wakers-update nodes p w [] out = refl
all_wakers-update nodes p w (q ∷ ws) out = ground (arith, all_wakers-update nodes p w ws)

InOrder-cons :
    (rem : ℕ) (nodes : Ptr → Waiter) (p : Ptr) (ws : List Ptr) (r : Served)
    → has p ws ≡ false
    → need nodes p ≤ rem
    → r.nodes p ≡ full_waiter
    → InOrder (rem - need nodes p) (update nodes p full_waiter) ws r
    → InOrder rem nodes (p ∷ ws) r
InOrder-cons rem nodes p ws r out enough e i = record {
  served = p ∷ i.served;
  split = ap (λ l. p ∷ l) i.split;
  full = (ap (λ (w : Waiter). w.state) e, i.full);
  woken =
      served_wakers-full rem nodes p ws enough
      ∙ ap (λ l. waker_list (nodes p).waker ++ l)
          (i.woken ∙ all_wakers-update nodes p full_waiter i.served fresh);
  spent = i.spent;
  later = λ a rest f q h. i.later a rest f q h ∙ other a rest f q h;
}
  where
    fresh : has p i.served ≡ false
    fresh = ground (arith, has-append p i.served r.left, subst (λ l. has p l ≡ false) i.split out)

    other :
        (a : Ptr) (rest : List Ptr)
        → r.left ≡ a ∷ rest
        → (q : Ptr) → has q rest ≡ true
        → update nodes p full_waiter q ≡ nodes q
    other a rest f q h =
        let inside : has q ws ≡ true =
          subst (λ l. has q l ≡ true) (sym i.split)
            (ground (arith, has-append q i.served r.left, ap (has q) f)) in
        ground (arith, has_apart p q ws out inside)

pub serve-InOrder :
    (rem : ℕ) (nodes : Ptr → Waiter) (ws : List Ptr)
    → Distinct ws
    → InOrder rem nodes ws (serve rem nodes ws)
unfolding serve served_wakers
serve-InOrder rem nodes [] d = record {
  served = [];
  split = refl;
  full = tt;
  woken = refl;
  spent = inl refl;
  later = λ p rest e q h. refl;
}
serve-InOrder rem nodes (p ∷ ws) d = elim (dec_le (need nodes p) rem) [
  | yes h ↦
      let n = rem - need nodes p in
      let after = update nodes p full_waiter in
      subst (InOrder rem nodes (p ∷ ws)) (sym (serve-full rem nodes p ws h)) (
        InOrder-cons rem nodes p ws (serve n after ws) d.0 h
          (serve_outside n after ws p d.0 ∙ update_same nodes p full_waiter)
          (serve-InOrder n after ws d.1))
  | no h ↦
      subst (InOrder rem nodes (p ∷ ws)) (sym (serve-part rem nodes p ws (omega arith))) (record {
        served = [];
        split = refl;
        full = tt;
        woken = served_wakers-part rem nodes p ws (omega arith);
        spent = inr refl;
        later = λ a rest e q i.
            let inside : has q ws ≡ true = cc in ground (arith, has_apart p q ws d.0 inside);
      })
]

pub serve-rem_le : (rem : ℕ) (nodes : Ptr → Waiter) (ws : List Ptr) → (serve rem nodes ws).rem ≤ rem
unfolding serve
serve-rem_le rem nodes [] = omega arith
serve-rem_le rem nodes (p ∷ ws) = elim (dec_le (need nodes p) rem) [
  | yes h ↦
      let n = rem - need nodes p in
      let after = update nodes p full_waiter in
      subst (λ (r : Served). r.rem ≤ rem) (sym (serve-full rem nodes p ws h))
        (omega (arith, serve-rem_le n after ws))
  | no h ↦
      subst (λ (r : Served). r.rem ≤ rem) (sym (serve-part rem nodes p ws (omega arith)))
        (omega arith)
]
