-- ===== src/Oneshot/Fates.antt =====
-- src/oneshot.rs: the worlds that the two handles can bring about, by who still has an `Rc`, and the
-- steps of a receiver that is left alone.
use local_sync.Prelude.{
  ℕ, ◌≡◌, refl, Bool, true, false, Option, none, some, List, [], ◌∷◌, ◌++◌, done,
}
use local_sync.WakeList.{Waker}
use local_sync.Oneshot.Inner
use local_sync.Oneshot.Inner.{Inner}
use local_sync.Oneshot.Spec
use local_sync.Oneshot.Spec.{Channel, concrete, open_channel}
use local_sync.Oneshot.Refine.{close_lem, poll_recv_lem, try_recv_lem, drop_lem, of_parts}
use local_sync.Oneshot.Handles
use local_sync.Oneshot.Handles.{Sender, Receiver, Shared, rc, held}
use local_sync.Oneshot.Worlds
use local_sync.Oneshot.Worlds.{World, Op, Reach, start, after, step, allowed}

-- Where the value of a channel is
pub data Fate {ℓ} (T : Type ℓ) : Type ℓ where
  unsent : Fate T
  waiting : T → Fate T
  returned : T → Fate T
  received : T → Fate T
  dropped : T → Fate T

-- A receiver that has no `Rc` left, or that is gone itself
abbrev pub spent : Bool → Option Receiver
spent true = none
spent false = some (record { inner = none })

-- A handle that has its `Rc`
abbrev pub tx_rc : Sender
tx_rc = record { inner = some rc }

abbrev pub rx_rc : Receiver
rx_rc = record { inner = some rc }

abbrev pub tx_held : Option Sender
tx_held = some tx_rc

abbrev pub rx_held : Option Receiver
rx_held = some rx_rc

module _ {ℓ} {T : Type ℓ} where
  abbrev pub cell : Fate T → Option T
  cell (waiting t) = some t
  cell _ = none

  abbrev pub all_sent : Fate T → List T
  all_sent unsent = []
  all_sent (waiting t) = t ∷ []
  all_sent (returned t) = t ∷ []
  all_sent (received t) = t ∷ []
  all_sent (dropped t) = t ∷ []

  abbrev pub all_back : Fate T → List T
  all_back (returned t) = t ∷ []
  all_back _ = []

  abbrev pub all_got : Fate T → List T
  all_got (received t) = t ∷ []
  all_got _ = []

  abbrev pub all_lost : Fate T → List T
  all_lost (dropped t) = t ∷ []
  all_lost _ = []

  abbrev pub world : Option Sender → Option Receiver → Inner T → ℕ → Bool → Fate T → World T
  world tx rx i n live f = record {
    sender = tx;
    receiver = rx;
    shared = record { inner = i; strong = n; live = live; lost = all_lost f };
    sent = all_sent f;
    back = all_back f;
    got = all_got f;
  }

  -- The worlds of a channel, by the handles that have their `Rc`
  pub data Fine : World T → Type ℓ where
    both :
        (r w : Option Waker) (sh : Bool) (l d : List Waker)
        → Fine (world tx_held rx_held (concrete (of_parts r w false sh none l d)) 2 true unsent)
    sender_only :
        (r w : Option Waker) (g : Bool) (l d : List Waker)
        → Fine (world tx_held (spent g) (concrete (of_parts r w false true none l d)) 1 true unsent)
    receiver_only :
        (r w : Option Waker) (sh : Bool) (f : Fate T) (l d : List Waker)
        → Fine (world none rx_held (concrete (of_parts r w true sh (cell f) l d)) 1 true f)
    neither :
        (g : Bool) (state : ℕ) (f : Fate T) (l d : List Waker)
        → cell f ≡ none
        → Fine (
            world none
              (spent g)
              (record {
                state = state;
                value = none;
                tx_task = none;
                rx_task = none;
                woken = l;
                dropped = d;
              })
              0
              false
              f)

  -- The receiver alone, with any content of the cell and any logs
  abbrev pub alone : Inner T → List T → List T → List T → List T → World T
  alone i se ba go lo = record {
    sender = none;
    receiver = rx_held;
    shared = record { inner = i; strong = 1; live = true; lost = lo };
    sent = se;
    back = ba;
    got = go;
  }

  -- The allocation freed
  abbrev pub freed : Bool → Channel T → List T → List T → List T → List T → World T
  freed g c se ba go lo = record {
    sender = none;
    receiver = spent g;
    shared = record {
      inner = record (concrete c) {
        value = none;
        tx_task = none;
        rx_task = none;
        dropped = Spec.log (Spec.log c.dropped c.rx_task) c.tx_task;
      };
      strong = 0;
      live = false;
      lost = lo;
    };
    sent = se;
    back = ba;
    got = go;
  }

  module _ (r w : Option Waker) (sh : Bool) (l d : List Waker) (se ba go lo : List T) where
    pub drop_receiver-alone :
        (v : Option T)
        → step Worlds.drop_receiver (alone (concrete (of_parts r w true sh v l d)) se ba go lo)
          ≡ done (freed true (of_parts r w true true v l d) se ba go (lo ++ held v))
    unfolding step Handles.drop_receiver Inner.close_receiver Spec.close Handles.drop_rc
    drop_receiver-alone v =
        rw (close_lem (of_parts r w true sh v l d), drop_lem (of_parts r w true true v l d)) refl

    pub try_recv-alone :
        (v : Option T)
        → step Worlds.try_recv (alone (concrete (of_parts r w true sh v l d)) se ba go lo)
          ≡ done (freed false (of_parts r w true sh none l d) se ba (go ++ held v) (lo ++ []))
    unfolding step Handles.try_recv Spec.try_recv Handles.drop_rc
    try_recv-alone none =
        rw (try_recv_lem (of_parts r w true sh none l d), drop_lem (of_parts r w true sh none l d))
          refl
    try_recv-alone (some t) =
        rw
          (
            try_recv_lem (of_parts r w true sh (some t) l d),
            drop_lem (of_parts r w true sh none l d),
          )
          refl

    pub poll-alone :
        (cx : Waker) (t : T)
        → step (Worlds.poll cx) (alone (concrete (of_parts r w true sh (some t) l d)) se ba go lo)
          ≡ done (freed false (of_parts r w true sh none l d) se ba (go ++ t ∷ []) (lo ++ []))
    unfolding step Handles.poll Inner.poll Spec.poll_recv Handles.drop_rc
    poll-alone cx t =
        rw
          (
            poll_recv_lem cx (of_parts r w true sh (some t) l d),
            drop_lem (of_parts r w true sh none l d),
          )
          refl

    pub poll-ended :
        (cx : Waker)
        → step (Worlds.poll cx) (alone (concrete (of_parts r w true sh none l d)) se ba go lo)
          ≡ done (alone (concrete (of_parts r w true sh none l d)) se ba (go ++ []) lo)
    unfolding step Handles.poll Inner.poll Spec.poll_recv
    poll-ended cx = rw (poll_recv_lem cx (of_parts r w true sh none l d)) refl
