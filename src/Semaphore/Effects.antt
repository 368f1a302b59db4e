-- ===== src/Semaphore/Effects.antt =====
-- What permits that are handed out, as `serve` says, change for all futures there are: those that wait
-- (`ws`) and the others. `live` are the addresses of all of them.
use local_sync.Prelude.{
  ℕ, ◌+◌, ◌-◌, ◌*◌, ◌%◌, ◌≤◌, ◌<◌, ◌≡◌, refl, sym, ap, subst, ◌∙◌, true, false, List, [], ◌∷◌,
  arith, ◌==◌, ==_self, has, has_apart, has-append, All, Distinct, dec_le,
}
use local_sync.Prelude.Members.{total-update}
use local_sync.LinkedList.{Ptr}
use local_sync.Semaphore.Word.{usize_mod}
use local_sync.Semaphore.Inner.{Inner, Waiter, update, available_permits, is_closed}
use local_sync.Semaphore.Serve.{
  need, full_waiter, Served, serve, served_wakers, serve-full, serve-part, update_same,
}
use local_sync.Semaphore.Fair.{total_need, serve-InOrder, serve_outside, serve-rem_le}
use local_sync.Semaphore.Grants.{GrantedBy}
use local_sync.Semaphore.WellFormed.{WellFormed, is_closed-mod}

abbrev pub Within : List Ptr → List Ptr → Type 0
Within ws live = (q : Ptr) → has q ws ≡ true → has q live ≡ true

total_need-at :
    (nodes : Ptr → Waiter) (p : Ptr) (w : Waiter) (live : List Ptr)
    → Distinct live
    → has p live ≡ true
    → total_need (update nodes p w) live + need nodes p ≡ total_need nodes live + w.state
total_need-at nodes p w live d i =
    total-update (need nodes) (need (update nodes p w)) p live d i (λ q ne. ground arith)
    ∙ ap (λ n. total_need nodes live + n) (ap (λ (v : Waiter). v.state) (update_same nodes p w))

-- Conservation, over more futures than those that wait.
pub serve-conserves-Within :
    (rem : ℕ) (nodes : Ptr → Waiter) (ws live : List Ptr)
    → Distinct live
    → Within ws live
    → (serve rem nodes ws).rem + total_need nodes live
      ≡ rem + total_need (serve rem nodes ws).nodes live
unfolding serve
serve-conserves-Within rem nodes [] live d sub = refl
serve-conserves-Within rem nodes (p ∷ ws) live d sub =
    let inside : has p live ≡ true = sub p (ground (arith, ==_self p)) in
    elim (dec_le (need nodes p) rem) [
      | yes h ↦
          let n = rem - need nodes p in
          let after = update nodes p full_waiter in
          subst (λ (r : Served). r.rem + total_need nodes live ≡ rem + total_need r.nodes live)
            (sym (serve-full rem nodes p ws h))
            (omega (
              arith,
              serve-conserves-Within n after ws live d (λ q i. sub q (ground (arith, i))),
              total_need-at nodes p full_waiter live d inside,
            ))
      | no h ↦
          let w : Waiter = record { state = need nodes p - rem; waker = (nodes p).waker } in
          subst (λ (r : Served). r.rem + total_need nodes live ≡ rem + total_need r.nodes live)
            (sym (serve-part rem nodes p ws (omega arith)))
            (omega (arith, total_need-at nodes p w live d inside))
    ]

-- Nobody's need grows.
pub serve-need_le :
    (rem : ℕ) (nodes : Ptr → Waiter) (ws : List Ptr) (q : Ptr)
    → need (serve rem nodes ws).nodes q ≤ need nodes q
unfolding serve
serve-need_le rem nodes [] q = omega arith
serve-need_le rem nodes (p ∷ ws) q = elim (dec_le (need nodes p) rem) [
  | yes h ↦
      subst (λ (r : Served). need r.nodes q ≤ need nodes q) (sym (serve-full rem nodes p ws h))
        (ground (arith, serve-need_le (rem - need nodes p) (update nodes p full_waiter) ws q))
  | no h ↦
      subst (λ (r : Served). need r.nodes q ≤ need nodes q)
        (sym (serve-part rem nodes p ws (omega arith))) (ground arith)
]

-- Who still waits keeps its waker.
pub serve-waker :
    (rem : ℕ) (nodes : Ptr → Waiter) (ws : List Ptr) (q : Ptr)
    → Distinct ws
    → has q (serve rem nodes ws).left ≡ true
    → ((serve rem nodes ws).nodes q).waker ≡ (nodes q).waker
unfolding serve
serve-waker rem nodes [] q d = λ i. cc
serve-waker rem nodes (p ∷ ws) q d = elim (dec_le (need nodes p) rem) [
  | yes h ↦
      let n = rem - need nodes p in
      let after = update nodes p full_waiter in
      subst (λ (r : Served). has q r.left ≡ true → (r.nodes q).waker ≡ (nodes q).waker)
        (sym (serve-full rem nodes p ws h))
        λ i.
          let o = serve-InOrder n after ws d.1 in
          let inside : has q ws ≡ true =
            ap (has q) o.split ∙ ground (arith, has-append q o.served (serve n after ws).left, i) in
          serve-waker n after ws q d.1 i ∙ ground (arith, has_apart p q ws d.0 inside)
  | no h ↦
      subst (λ (r : Served). has q r.left ≡ true → (r.nodes q).waker ≡ (nodes q).waker)
        (sym (serve-part rem nodes p ws (omega arith))) (λ i. ground arith)
]

All-zero :
    (nodes : Ptr → Waiter) (l : List Ptr) (q : Ptr)
    → All (λ p. need nodes p ≡ 0) l
    → has q l ≡ true
    → need nodes q ≡ 0
All-zero nodes [] q h i = cc
All-zero nodes (p ∷ l) q h i = ground (arith, h.0, All-zero nodes l q h.1)

pub record Effects (n : ℕ) (s : Inner) (ws live : List Ptr) (t : Inner) (left : List Ptr)
    : Type 0 where
  pub wf : WellFormed t left
  pub within : Within left ws
  pub full : (q : Ptr) → has q ws ≡ true → has q left ≡ false → need t.nodes q ≡ 0
  pub outside : (q : Ptr) → has q ws ≡ false → t.nodes q ≡ s.nodes q
  pub need_le : (q : Ptr) → need t.nodes q ≤ need s.nodes q
  pub waker : (q : Ptr) → has q left ≡ true → (t.nodes q).waker ≡ (s.nodes q).waker
  pub shut : is_closed t ≡ is_closed s
  pub sum :
      available_permits t + total_need s.nodes live
      ≡ available_permits s + n + total_need t.nodes live

pub granted-Effects :
    (n : ℕ) (s t : Inner) (ws live : List Ptr)
    → Distinct ws
    → Distinct live
    → Within ws live
    → s.permits + n * 2 < usize_mod
    → GrantedBy (serve n s.nodes ws) (served_wakers n s.nodes ws) s t
    → WellFormed t (serve n s.nodes ws).left
    → Effects n s ws live t (serve n s.nodes ws).left
unfolding available_permits
granted-Effects n s t ws live dw dl sub room g wf =
    let r = serve n s.nodes ws in
    let o = serve-InOrder n s.nodes ws dw in
    let parity : t.permits % 2 ≡ s.permits % 2 =
      omega (arith, g.permits, serve-rem_le n s.nodes ws) in
    record {
      wf = wf;
      within = λ q i. ap (has q) o.split ∙ ground (arith, has-append q o.served r.left, i);
      full = λ q i out. rw g.nodes (
          All-zero r.nodes o.served q o.full
            (ground (arith, has-append q o.served r.left, ap (has q) o.split)));
      outside = λ q out. ap (λ (f : Ptr → Waiter). f q) g.nodes ∙ serve_outside n s.nodes ws q out;
      need_le = λ q. rw g.nodes (serve-need_le n s.nodes ws q);
      waker =
          λ q i. ap (λ (f : Ptr → Waiter). (f q).waker) g.nodes ∙ serve-waker n s.nodes ws q dw i;
      shut = is_closed-mod t ∙ ap (λ k. k == 1) parity ∙ sym (is_closed-mod s);
      sum = omega (
        arith,
        g.permits,
        serve-rem_le n s.nodes ws,
        serve-conserves-Within n s.nodes ws live dl sub,
        ap (λ f. total_need f live) g.nodes,
      );
    }
