-- ===== src/Tests/Oneshots.antt =====
-- The theorems on src/oneshot.rs at concrete channels.
use local_sync.Prelude.{ℕ, ◌≡◌, refl, true, false, none, some, List, [], ◌∷◌, done, ok}
use local_sync.Oneshot.Inner
use local_sync.Oneshot.Inner.{Inner}
use local_sync.Oneshot.Spec.{Channel, concrete, open_channel}
use local_sync.Oneshot.Deliver
use local_sync.Oneshot.Deliver.{
  Op, run, spec_run, run-channel, send-delivers, send-gives_back, drop_sender-ends, close-wakes,
}

-- The receiver waits as task 3, the sender as task 4.
abbrev waiting : Channel ℕ
waiting = record {
  sent = false;
  shut = false;
  value = none;
  tx_task = some 4;
  rx_task = some 3;
  woken = [];
  dropped = [];
}

abbrev some_ops : List (Op ℕ)
some_ops =
    Deliver.poll_recv 3
    ∷ Deliver.poll_recv 5
    ∷ Deliver.poll_closed 4
    ∷ Deliver.send 42
    ∷ Deliver.close_receiver
    ∷ Deliver.try_recv
    ∷ []

run-channel_example : run some_ops Inner.channel ≡ done (concrete (spec_run some_ops open_channel))
run-channel_example = run-channel some_ops

send-delivers_example :
    (a : Inner ℕ) × (Inner.send 42 (concrete waiting) ≡ done (ok tt, a))
    × (a.woken ≡ 3 ∷ [])
    × ((b : Inner ℕ) × (Inner.close_receiver true a ≡ done b)
        × (Inner.try_recv true b ≡ (ok 42, false, record b { value = none }))
        × (Inner.poll 3 true b ≡ done (Inner.ready (ok 42), false, record b { value = none })))
send-delivers_example = send-delivers 42 3 true waiting refl
