-- ===== src/LinkedList.antt =====
-- src/linked_list.rs: the intrusive doubly linked list.
-- A node is named by its address. `Links` is what `Link::pointers` reaches: the pair of pointers
-- inside each node, wherever it lives. A list operation works on the list's two ends and on that
-- memory together, the record `Store`.
pub mod Chain
pub mod Cut
pub mod Refine
pub mod Splice
pub mod Fifo
pub mod Unique
use local_sync.Prelude.{
  ℕ, ◌≡◌, Bool, true, false, Option, none, some, ◌==◌, is_at, is_some, if◌then◌else◌, not, Outcome,
  done, panic, ◌>>=◌, ◌>>◌, assert,
}

abbrev pub Ptr : Type 0
Ptr = ℕ

pub record Pointers : Type 0 where
  pub prev : Option Ptr
  pub next : Option Ptr

-- `Pointers::new`
abbrev pub unlinked : Pointers
unlinked = record { prev = none; next = none }

abbrev pub Links : Type 0
Links = Ptr → Pointers

abbrev pub set_prev : Ptr → Option Ptr → Links → Links
set_prev p v m q = if q == p then record (m q) { prev = v } else m q

abbrev pub set_next : Ptr → Option Ptr → Links → Links
set_next p v m q = if q == p then record (m q) { next = v } else m q

pub record Store : Type 0 where
  pub head : Option Ptr
  pub tail : Option Ptr
  pub links : Links

-- `LinkedList::new`, over nodes that no list holds
unfoldable pub new : Links → Store
new m = record { head = none; tail = none; links = m }

-- the write to the old head's `prev`
abbrev link_head : Option Ptr → Ptr → Links → Links
link_head none p m = m
link_head (some h) p m = set_prev h (some p) m

unfoldable pub push_front : Ptr → Store → Outcome Store
push_front p s = do
  assert (not (is_at s.head p))
  let m1 = set_next p s.head s.links
  let m2 = set_prev p none m1
  done (record {
    head = some p;
    tail = if is_some s.tail then s.tail else some p;
    links = link_head s.head p m2;
  })

-- the branch of `pop_back` on the last node's `prev`
abbrev unlink_last : Option Ptr → Store → Store
unlink_last none s = record s { head = none }
unlink_last (some q) s = record s { links = set_next q none s.links }

abbrev pop_at : Option Ptr → Store → Option Ptr × Store
pop_at none s = (none, s)
pop_at (some last) s =
    let before = (s.links last).prev in
    let s1 = unlink_last before (record s { tail = before }) in
    (some last, record s1 { links = set_next last none (set_prev last none s1.links) })

unfoldable pub pop_back : Store → Option Ptr × Store
pop_back s = pop_at s.tail s

unfoldable pub is_empty : Store → Outcome Bool
is_empty s = if is_some s.head then done false else assert (not (is_some s.tail)) >> done true

-- `LinkedList::last`: the address of the last node
unfoldable pub last : Store → Option Ptr
last s = s.tail

-- The two halves of `remove`. `none` is the early `return None`; the store keeps what was written.
abbrev remove_before : Option Ptr → Ptr → Store → Outcome (Bool × Store)
remove_before (some q) p s = do
  assert (is_at (s.links q).next p)
  done (true, record s { links = set_next q (s.links p).next s.links })
remove_before none p s =
    if is_at s.head p then done (true, record s { head = (s.links p).next }) else done (false, s)

abbrev remove_after : Option Ptr → Ptr → Store → Outcome (Bool × Store)
remove_after (some q) p s = do
  assert (is_at (s.links q).prev p)
  done (true, record s { links = set_prev q (s.links p).prev s.links })
remove_after none p s =
    if is_at s.tail p then done (true, record s { tail = (s.links p).prev }) else done (false, s)

-- What `remove` does once the link from the left is gone.
abbrev remove_rest : Ptr → Store → Outcome (Option Ptr × Store)
remove_rest p s = do
  (found, s1) ← remove_after (s.links p).next p s
  if found
      then done (some p, record s1 { links = set_prev p none (set_next p none s1.links) })
      else done (none, s1)

unfoldable pub remove : Ptr → Store → Outcome (Option Ptr × Store)
remove p s = do
  (found, s1) ← remove_before (s.links p).prev p s
  if found then remove_rest p s1 else done (none, s1)
