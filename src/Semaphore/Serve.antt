-- ===== src/Semaphore/Serve.antt =====
-- What `add_permits` of src/semaphore.rs is to do, as a function on the waiters in the order of
-- their requests: each gets what it still needs while permits last.
use mathlib.Core.Path.{fun_ext}
use local_sync.Prelude.{
  ℕ, ◌-◌, ◌≤◌, ◌<◌, ◌≡◌, refl, true, false, Option, none, some, List, [], ◌∷◌, ◌++◌, arith, leb,
  le→leb, lt→leb, ap, ◌∙◌, ==_self, if◌then◌else◌, has, All,
}
use local_sync.LinkedList.{Ptr}
use local_sync.WakeList.{Waker}
use local_sync.Semaphore.Inner.{Waiter, update, assign_permits}

-- What is left over, the waiters' data after, and who still waits.
pub record Served : Type 0 where
  pub rem : ℕ
  pub nodes : Ptr → Waiter
  pub left : List Ptr

abbrev pub need : (Ptr → Waiter) → Ptr → ℕ
need nodes p = (nodes p).state

-- A waiter that has all its permits and whose waker has been taken.
abbrev pub full_waiter : Waiter
full_waiter = record { state = 0; waker = none }

unfoldable pub serve : ℕ → (Ptr → Waiter) → List Ptr → Served
serve rem nodes [] = record { rem = rem; nodes = nodes; left = [] }
serve rem nodes (p ∷ ws) =
    let rest = serve (rem - need nodes p) (update nodes p full_waiter) ws in
    let w = nodes p in
    if leb (need nodes p) rem then rest else record {
      rem = 0;
      nodes = update nodes p (record w { state = need nodes p - rem });
      left = p ∷ ws;
    }

abbrev pub waker_list : Option Waker → List Waker
waker_list none = []
waker_list (some w) = w ∷ []

-- The wakers of the waiters, oldest first.
abbrev pub all_wakers : (Ptr → Waiter) → List Ptr → List Waker
all_wakers nodes [] = []
all_wakers nodes (p ∷ ws) = waker_list (nodes p).waker ++ all_wakers nodes ws

-- The wakers of the waiters that are served, in that order.
unfoldable pub served_wakers : ℕ → (Ptr → Waiter) → List Ptr → List Waker
served_wakers rem nodes [] = []
served_wakers rem nodes (p ∷ ws) =
    let rest = served_wakers (rem - need nodes p) (update nodes p full_waiter) ws in
    if leb (need nodes p) rem then waker_list (nodes p).waker ++ rest else []

-- A change outside a list is not seen in it.
pub All-frame {ℓ} :
    (P : Waiter → Type ℓ) (f g : Ptr → Waiter) (ws : List Ptr)
    → ((q : Ptr) → has q ws ≡ true → g q ≡ f q)
    → All (λ q. P (f q)) ws
    → All (λ q. P (g q)) ws
All-frame P f g [] same h = tt
All-frame P f g (x ∷ ws) same h = (
  rw (same x (ground (arith, ==_self x))) h.0,
  All-frame P f g ws (λ q i. same q (ground arith)) h.1,
)

-- `assign_permits` on a waiter that gets all it needs, and on one that does not.
pub assign_permits-full :
    (w : Waiter) (n : ℕ)
    → w.state ≤ n
    → assign_permits w n ≡ (record w { state = 0 }, n - w.state, true)
unfolding assign_permits
assign_permits-full w n h = ground arith

pub assign_permits-part :
    (w : Waiter) (n : ℕ)
    → n < w.state
    → assign_permits w n ≡ (record w { state = w.state - n }, 0, false)
unfolding assign_permits
assign_permits-part w n h = ground arith

pub update-update {ℓ} :
    {A : Type ℓ} (f : Ptr → A) (p : Ptr) (a b : A) → update (update f p a) p b ≡ update f p b
update-update f p a b = fun_ext λ q. ground arith

pub update_same {ℓ} : {A : Type ℓ} (f : Ptr → A) (p : Ptr) (a : A) → update f p a p ≡ a
update_same f p a = ground (arith, ==_self p)

update_own : (f : Ptr → Waiter) (p : Ptr) (w : Waiter) → w ≡ f p → update f p w ≡ f
update_own f p w e = fun_ext λ q. ground arith

module _ (rem : ℕ) (nodes : Ptr → Waiter) (p : Ptr) (ws : List Ptr) where
  pub serve-full :
      need nodes p ≤ rem
      → serve rem nodes (p ∷ ws) ≡ serve (rem - need nodes p) (update nodes p full_waiter) ws
  unfolding serve
  serve-full h = rw (le→leb (need nodes p) rem h)

  pub served_wakers-full :
      need nodes p ≤ rem
      → served_wakers rem nodes (p ∷ ws)
        ≡ waker_list (nodes p).waker
          ++ served_wakers (rem - need nodes p) (update nodes p full_waiter) ws
  unfolding served_wakers
  served_wakers-full h = rw (le→leb (need nodes p) rem h)

  pub serve-part :
      rem < need nodes p
      → serve rem nodes (p ∷ ws) ≡ record {
        rem = 0;
        nodes = update nodes p (record { state = need nodes p - rem; waker = (nodes p).waker });
        left = p ∷ ws;
      }
  unfolding serve
  serve-part h = rw (lt→leb (need nodes p) rem h)

  pub served_wakers-part : rem < need nodes p → served_wakers rem nodes (p ∷ ws) ≡ []
  unfolding served_wakers
  served_wakers-part h = rw (lt→leb (need nodes p) rem h)

-- Nobody is served with nothing.
pub serve-zero :
    (nodes : Ptr → Waiter) (ws : List Ptr)
    → All (λ p. 0 < need nodes p) ws
    → (serve 0 nodes ws ≡ record { rem = 0; nodes = nodes; left = ws })
      × (served_wakers 0 nodes ws ≡ [])
unfolding serve served_wakers
serve-zero nodes [] h = (refl, refl)
serve-zero nodes (p ∷ ws) h = (
  serve-part 0 nodes p ws h.0
      ∙ ap (λ n. record { rem = 0; nodes = n; left = p ∷ ws })
          (update_own nodes p _ (ground arith)),
  served_wakers-part 0 nodes p ws h.0,
)
