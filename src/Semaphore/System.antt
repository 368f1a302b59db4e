-- ===== src/Semaphore/System.antt =====
-- A semaphore of src/semaphore.rs with all the futures that wait on it, and the operations of its
-- clients in any order. `live` are the addresses of the futures that are not dropped, `held` counts
-- the permits that clients have and `capacity` all permits there are. A client makes no future at the
-- address of another, polls and drops only futures that it has, does not poll one that is done, gives
-- back no more than it has, and adds permits up to the maximum; a step that breaks this does nothing.
pub mod Inv
pub mod Moves
pub mod Adjust
pub mod Calls
pub mod Drops
pub mod Polls
pub mod Steps
pub mod Safe
pub mod Liveness
use local_sync.Prelude.{
  ℕ, ◌+◌, ◌-◌, ◌^◌, ◌≤◌, ◌<◌, ◌≡◌, Bool, true, false, not, ◌&&◌, List, [], ◌∷◌, ltb, leb,
  if◌then◌else◌, has, length, Outcome, done, ◌>>=◌, Result, ok, err,
}
use local_sync.Prelude.Members.{delete}
use local_sync.LinkedList.{Ptr}
use local_sync.WakeList.{Waker}
use local_sync.Semaphore.Word.{max_permits}
use local_sync.Semaphore.Inner
use local_sync.Semaphore.Inner.{Inner, TryAcquireError, update}
use local_sync.Semaphore.Release.{release}
use local_sync.Semaphore.Acquire
use local_sync.Semaphore.Acquire.{Acquire, AcquireError, Poll, ready, pending}

pub record System : Type 0 where
  pub sem : Inner
  pub live : List Ptr
  pub futures : Ptr → Acquire
  pub held : ℕ
  pub capacity : ℕ

pub data Op : Type 0 where
  start : Ptr → ℕ → Op
  poll : Waker → Ptr → Op
  drop : Ptr → Op
  try_acquire : ℕ → Op
  give_back : ℕ → Op
  add : ℕ → Op
  forget : ℕ → Op
  close : Op

-- Over a new semaphore
abbrev pub initial : Inner → ℕ → System
initial s n = record {
  sem = s;
  live = [];
  futures = λ _. record { num_permits = 0; queued = false };
  held = 0;
  capacity = n;
}

abbrev pub started : Ptr → ℕ → System → System
started p n c =
    let (a, t) = Acquire.new n p c.sem in
    record c { sem = t; live = p ∷ c.live; futures = update c.futures p a }

-- A future that is done hands its permits to the client, and is dropped.
abbrev pub polled :
    ℕ → Ptr → System → Poll (Result AcquireError (Unit {0})) → Inner → Acquire → Outcome System
polled fuel p c pending t a = done (record c { sem = t; futures = update c.futures p a })
polled fuel p c (ready (err e)) t a = done (record c { sem = t; futures = update c.futures p a })
polled fuel p c (ready (ok u)) t a = Acquire.drop fuel p a t >>= λ t2.
    done (record c { sem = t2; live = delete p c.live; held = c.held + a.num_permits })

abbrev pub tried : ℕ → System → Result TryAcquireError (Unit {0}) × Inner → System
tried n c (ok u, t) = record c { sem = t; held = c.held + n }
tried n c (err e, t) = record c { sem = t }

unfoldable pub step : ℕ → Op → System → Outcome System
step fuel (start p n) c =
    if not (has p c.live) && ltb n (2 ^ 32) then done (started p n c) else done c
step fuel (poll cx p) c =
    if has p c.live
    then (Acquire.poll fuel cx p (c.futures p) c.sem >>= λ ((r, t), a). polled fuel p c r t a)
    else done c
step fuel (drop p) c =
    if has p c.live
    then (Acquire.drop fuel p (c.futures p) c.sem >>= λ t.
        done (record c { sem = t; live = delete p c.live }))
    else done c
step fuel (try_acquire n) c =
    if leb n max_permits then (Inner.try_acquire n c.sem >>= λ r. done (tried n c r)) else done c
step fuel (give_back n) c =
    if leb n c.held
    then (release fuel n c.sem >>= λ t. done (record c { sem = t; held = c.held - n }))
    else done c
step fuel (add n) c =
    if leb (c.capacity + n) max_permits
    then (release fuel n c.sem >>= λ t. done (record c { sem = t; capacity = c.capacity + n }))
    else done c
step fuel (forget n) c =
    if leb n c.held
    then done (record c { held = c.held - n; capacity = c.capacity - n })
    else done c
step fuel close c = Inner.close fuel c.sem >>= λ t. done (record c { sem = t })

-- The systems that clients can bring about. There is fuel for every future in each step.
pub data Reach (s : System) : System → Type 0 where
  here : Reach s s
  later :
      (fuel : ℕ) (op : Op) {c d : System}
      → Reach s c
      → length c.live + 1 < fuel
      → step fuel op c ≡ done d
      → Reach s d
