-- ===== src/Lib.antt =====
-- local-sync: futures and channels for one thread, without locks or atomics. A semaphore keeps the
-- tasks that wait for permits in an intrusive doubly linked list of nodes that live inside their
-- futures, and wakes the ones it serves in batches; a oneshot channel hands one value from a sender
-- to a receiver; the channels with many senders queue their values in linked blocks, without a bound
-- or with a permit of a semaphore for each value; a `OnceCell` lets one task at a time, the one with
-- its semaphore's only permit, compute its value. All of these are modelled here.
--
-- Where what is:
--   Prelude            shared names, Boolean tests, lists of numbers, bits, and `Outcome`: the result
--                      of code that can panic, run into undefined behaviour, or run out of fuel
--   LinkedList         src/linked_list.rs. `Store` is a `LinkedList` with the memory of the pointers;
--                      `push_front`, `pop_back`, `is_empty`, `last` and `remove` as in the code
--     Chain, Cut, Splice, Refine   the list as a sequence of nodes
--     Fifo, Unique     the list as the semaphore uses it, oldest node first; its pointers determine it
--   WakeList           src/wake_list.rs, `push`, `wake_all` and `Drop`; Wakes proves
--   Semaphore          src/semaphore.rs
--     Word, Inner      the counter, `Waiter`, `Inner` and its operations without `add_permits`
--     Release          `add_permits` with its two loops, and `release`
--     Acquire          the future: `new`, `poll_acquire`, `poll`, `drop`
--     Serve            `serve`, the specification of `add_permits` on the waiters in order
--     Waits, Grants    the loops against `serve`
--     Fair, Handout    what follows for the waiters and the counter
--     WellFormed       the invariant, and the operations of `Inner`
--     Futures, Queued  each poll and each drop of a future
--     Public, Permits  the public `Semaphore`, and what a permit is worth
--     Effects          what a hand-out of permits does to all futures
--     System           a semaphore with all its futures, and the operations of clients in any order:
--                      the step function `step`, and `Reach` for the systems that come about
--       Inv, Moves, Adjust          the invariant, and the ways in which it is kept
--       Calls, Drops, Polls         each call of the code against it
--       Steps, Safe, Liveness       the operations; histories; the oldest waiter
--     Owned            the futures of `acquire_owned` and `acquire_many_owned`
--   OnceCell           src/once_cell.rs, the cell and the operations that do not wait
--     Init             the futures of `get_or_try_init` and `get_or_init` as state machines
--     Runs             a cell with all its tasks, and the operations of clients in any order
--     Same             the two futures against each other
--     Turn, Await, Fine, Set      one task at a time, and `set`, against the invariant of a run
--     History, Life    the cell while it is shared, and over its whole life
--     Wakes            what those that wait see when the cell is set
--     Handover         what they see when the running task is dropped or fails
--   Oneshot            src/oneshot.rs
--     State, Word      the word of flags, and its numbers as flags
--     Inner            the operations of both halves on the shared part
--     Spec             the channel without the word, and its operations
--     Refine, Deliver  the operations against Spec; what the two halves see
--     Handles, Worlds  `Sender` and `Receiver` over one allocation, and their clients in any order
--     Account          the wakers that were dropped and those in the slots
--     Fates, Attached, Steps    each call of a handle against the places a value can be in
--     Ledger, Ends     histories: the value and the allocation; what one half sees of the other
--   Mpsc               src/mpsc/
--     Block            mpsc/block.rs, the queue of blocks
--     Layout           how the blocks lie, and which values they hold
--     Push, Pop, Drain the operations against the sequence of values
--     Chan             mpsc/chan.rs over `Permits`, the trait of mpsc/semaphore.rs, and its instances
--     Handles          `Tx` and `Rx` of mpsc/chan.rs over one allocation
--     Order            send, receive and the receiver's drop against that sequence
--     Fresh            the addresses of the blocks, and the drop of the channel
--     Bounded          mpsc/bounded.rs, the future of `send` as a state machine
--       Runs           a channel with all sends that wait, and the operations in any order
--       Fits, Taking, Flow   senders, receiver and histories against the invariant of a run
--       Handover       a value received makes room for the send that waits longest
--     Unbounded        mpsc/unbounded.rs
--       Runs           a channel with its handles, and their clients in any order
--       Calls          each call against the values in the queue
--       Fine, Steps, Receiving, Flow, Wakes   histories, and what a receiver that waits sees
--   Tests              the theorems at concrete states
--
-- How the state corresponds. A node is named by its address, a number. The pointers inside the
-- nodes are a function from addresses (`links`), the other fields of a `Waiter` another one
-- (`nodes`), so a write through a raw pointer is a change of a function at one point, and two
-- pointers to one node see the same. A `Waker` is the name of the task it wakes, `will_wake` is
-- equality of names, and to wake or to drop one is to append it to a log. A `MaybeUninit` slot is
-- an option; to read an empty one is the outcome `fault`. A `RefCell` is a plain field: that no
-- borrow is held when another begins is not modelled, and so neither is a waker that polls or
-- releases from within `wake`. `Pin` and what the drop of a sent value does are left out as well.
-- The `Rc` of a channel's handles is an allocation with a count and a flag that says whether it is
-- still there: to use it after it was freed is `fault`. The `Rc` of an owned permit and the `Rc`
-- of the bounded channel's handles are left out. A block of the queue stands in a heap, a function
-- from addresses to the blocks allocated, and `Box::new` gives the next address that was never
-- used. Debug assertions are checks whose failure is `panic`.
--
-- Interaction. The channels use the semaphore through the record `Permits`, which stands for the trait
-- of mpsc/semaphore.rs; the bounded one awaits the `Acquire` future too, and the cell uses the public
-- `Semaphore`. Their invariants are stated through a `view`, the system that the semaphore sees:
-- a task that runs an initializer and a value in the queue each count as a permit that a client holds.
-- An `async fn` is a state machine with a constructor for each await. What the initializer's own future
-- answers is an input of each poll; what it does to the cell while it is polled is a step before that
-- poll. A task that is dropped drops the future that it awaits, and its permit.
--
-- Numbers: `usize` has 64 bits. `rem << 1` and `+=` on the counter of permits wrap. A difference
-- that would go below zero is `panic`, or the test before it excludes it. `len` of a queue and the
-- count of senders grow without a bound. `num_permits` is a `u32`, which `IsFresh` states where it
-- matters.
--
-- Fuel: the loops of `close` and `add_permits` run on fuel. `close` takes off one waiter a round,
-- so more fuel than waiters is enough; each round of the outer loop of `add_permits` but the last
-- two takes off at least one, so one more than that is enough for both loops. `free_blocks` needs
-- fuel for each block, and the loops that empty a queue for each value; the first address that was
-- never used bounds the number of blocks, and `len` that of values. A step of a system or
-- of a run is given fuel for each future that lives, and a bounded channel for each place of its buffer
-- besides, since that many values can be in the queue.
--
-- Not modelled: `same_channel`, which compares pointers of the `Rc`; formatting, and the impls of
-- `Error`, `Send` and `Sync`.
pub mod LinkedList
pub mod Mpsc
pub mod OnceCell
pub mod Oneshot
pub mod Prelude
pub mod Semaphore
pub mod Tests
pub mod WakeList
