-- ===== src/Semaphore/Queued/Left.antt =====
-- src/semaphore.rs: the waiters that a release leaves in the queue.
use local_sync.Prelude.{
  ℕ, ◌%◌, ◌<◌, ◌≡◌, refl, sym, subst, ◌∙◌, ◌⊎◌, inl, inr, Bool, true, false, ◌&&◌, List, [], ◌∷◌,
  ◌++◌, arith, has, All,
}
use local_sync.LinkedList.{Ptr}
use local_sync.Semaphore.Inner.{Inner, Waiter, is_closed}
use local_sync.Semaphore.Serve.{need, serve, serve-zero}
use local_sync.Semaphore.WellFormed.{WellFormed, is_closed-mod}

pub and_false : (b : Bool) → (b && false) ≡ false
and_false true = refl
and_false false = refl

pub nobody :
    (s : Inner) (ws : List Ptr) (p : Ptr) → WellFormed s ws → has p ws ≡ true → s.permits ≡ 0
nobody s ws p w i = elim w.busy [
  | inl e ↦ let none_there : has p [] ≡ true = subst (λ l. has p l ≡ true) e i in cc
  | inr e ↦ e
]

pub All-delete :
    (nodes : Ptr → Waiter) (p : Ptr) (xs ys : List Ptr)
    → All (λ q. 0 < need nodes q) (xs ++ p ∷ ys)
    → All (λ q. 0 < need nodes q) (xs ++ ys)
All-delete nodes p [] ys h = h.1
All-delete nodes p (x ∷ xs) ys h = (h.0, All-delete nodes p xs ys h.1)

-- With nobody to serve, or nothing to give, all is left over.
pub serve_left :
    (rem : ℕ) (nodes : Ptr → Waiter) (ws : List Ptr)
    → All (λ q. 0 < need nodes q) ws
    → (ws ≡ []) ⊎ (rem ≡ 0)
    → ((serve rem nodes ws).left ≡ ws)
      × ((serve rem nodes ws).rem ≡ rem)
      × ((serve rem nodes ws).nodes ≡ nodes)
unfolding serve
serve_left rem nodes ws h (inl e) = rw e (refl, refl, refl)
serve_left rem nodes ws h (inr e) = rw (e, (serve-zero nodes ws h).0) (refl, refl, refl)

pub needy-same :
    (f g : Ptr → Waiter) (ws : List Ptr)
    → ((q : Ptr) → need g q ≡ need f q)
    → All (λ q. 0 < need f q) ws
    → All (λ q. 0 < need g q) ws
needy-same f g [] same h = tt
needy-same f g (q ∷ ws) same h = (omega (arith, same q, h.0), needy-same f g ws same h.1)

-- The counter of an open semaphore is even.
pub even : (s : Inner) → is_closed s ≡ false → s.permits % 2 ≡ 0
even s free = ground (arith, sym (is_closed-mod s) ∙ free)
