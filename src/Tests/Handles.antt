-- ===== src/Tests/Handles.antt =====
-- The theorems on the handles of src/oneshot.rs at concrete histories.
use local_sync.Prelude.{
  ℕ, ◌≡◌, ◌≤◌, refl, true, false, none, some, [], ◌∷◌, ◌++◌, done, err, length, Returns,
}
use local_sync.Oneshot.Inner
use local_sync.Oneshot.Handles
use local_sync.Oneshot.Handles.{held}
use local_sync.Oneshot.Worlds
use local_sync.Oneshot.Worlds.{
  World, Reach, start, after, step, opened, has_sender, has_receiver, holders,
}
use local_sync.Oneshot.Fates.{tx_rc, rx_rc}
use local_sync.Oneshot.Account.{Accounts}
use local_sync.Oneshot.Ends.{Reach-hung_up, Reach-ended}
use local_sync.Oneshot.Ledger.{Counted, step-Worlds, Reach-ledger, Reach-freed}

-- The receiver waits as task 3; then the sender sends 42.
abbrev sent : World ℕ
sent = record opened {
  sender = none;
  shared = record {
    inner = record {
      state = 3;
      value = some 42;
      tx_task = none;
      rx_task = some 3;
      woken = 3 ∷ [];
      dropped = [];
    };
    strong = 1;
    live = true;
    lost = [];
  };
  sent = 42 ∷ [];
}

sent-Reach : Reach sent
unfolding Worlds.allowed opened step local_sync.Oneshot.State.is_complete
    local_sync.Oneshot.State.is_closed local_sync.Oneshot.State.is_rx_task_set
    local_sync.Oneshot.State.set_rx_task local_sync.Oneshot.State.set_complete
sent-Reach = after (Worlds.send 42) (after (Worlds.poll 3) start refl refl) refl refl

-- The receiver is dropped before anything is sent.
abbrev hung_up : World ℕ
hung_up = record opened {
  receiver = none;
  shared = record {
    inner = record {
      state = 4;
      value = none;
      tx_task = none;
      rx_task = none;
      woken = [];
      dropped = [];
    };
    strong = 1;
    live = true;
    lost = [];
  };
}

hung_up-Reach : Reach hung_up
unfolding Worlds.allowed step opened local_sync.Oneshot.State.is_tx_task_set
    local_sync.Oneshot.State.set_closed
hung_up-Reach = after Worlds.drop_receiver start refl refl

step-Worlds_example : Returns Reach (step Worlds.drop_receiver sent)
unfolding Worlds.allowed
step-Worlds_example = step-Worlds sent Worlds.drop_receiver sent-Reach refl

Reach-ledger_example :
    (42 ∷ [] ≡ sent.back ++ sent.got ++ sent.shared.lost ++ held sent.shared.inner.value)
    × (length sent.sent ≤ 1)
Reach-ledger_example = Reach-ledger sent sent-Reach

-- The receiver waits as task 3, and polls again as task 4.
abbrev asked : World ℕ
asked = record opened {
  shared = record {
    inner = record {
      state = 1;
      value = none;
      tx_task = none;
      rx_task = some 3;
      woken = [];
      dropped = [];
    };
    strong = 2;
    live = true;
    lost = [];
  };
}

asked-Reach : Reach asked
unfolding Worlds.allowed opened step local_sync.Oneshot.State.is_complete
    local_sync.Oneshot.State.is_closed local_sync.Oneshot.State.is_rx_task_set
    local_sync.Oneshot.State.set_rx_task local_sync.Oneshot.State.set_complete
asked-Reach = after (Worlds.poll 3) start refl refl

Reach-freed_example :
    Counted asked × Returns (Accounts (Worlds.poll 4) asked) (step (Worlds.poll 4) asked)
unfolding Worlds.allowed opened
Reach-freed_example = Reach-freed asked (Worlds.poll 4) asked-Reach refl

Reach-hung_up_example :
    (Handles.is_closed tx_rc hung_up.shared ≡ done true)
    × Returns
        (λ (r, s). (r ≡ err 42) × (s.live ≡ false) × (s.lost ≡ []))
        (Handles.send tx_rc 42 hung_up.shared)
unfolding opened
Reach-hung_up_example = Reach-hung_up 42 hung_up hung_up-Reach refl refl

Reach-ended_example :
    Returns
      (λ (r, _, s). (r ≡ Inner.ready (Inner.received (some 42))) × (s.inner.value ≡ none))
      (Handles.poll rx_rc 5 sent.shared)
unfolding opened
Reach-ended_example = Reach-ended 5 sent sent-Reach refl refl
