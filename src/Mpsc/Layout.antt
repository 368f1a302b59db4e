-- ===== src/Mpsc/Layout.antt =====
-- How the blocks of src/mpsc/block.rs lie: the blocks from `head` to `tail` hold the values in order,
-- all but the one at `tail` written to the end; behind it stand blocks to reuse.
use local_sync.Prelude.{
  ℕ, ◌+◌, ◌≤◌, ◌<◌, ◌≡◌, refl, sym, ap, ◌∙◌, subst, Option, none, some, List, [], ◌∷◌, ◌++◌,
  append_assoc, append-nil, arith, ==_self, length, length-append, has, has_apart, Distinct, All,
  true, false,
}
use local_sync.Mpsc.Block.{Address, Block, Queue, block_cap, set_slot, store}

abbrev pub first : List Address → Address → Address
first [] t = t
first (p ∷ ps) t = p

abbrev pub front : List Address → Option Address
front [] = none
front (p ∷ ps) = some p

abbrev pub Heap {ℓ} : Type ℓ → Type ℓ
Heap T = Address → Option (Block T)

module _ {ℓ} {T : Type ℓ} where
  -- The slots from `i` on hold `xs`.
  abbrev pub Slots : (ℕ → Option T) → ℕ → List T → Type ℓ
  Slots v i [] = Unit {ℓ}
  Slots v i (x ∷ xs) = (v i ≡ some x) × Slots v (i + 1) xs

  -- The block at `t`, which is written up to the end of `xs`
  pub record IsLast (h : Heap T) (b : ℕ) (t : Address) (after : Option Address) (xs : List T)
      : Type ℓ where
    pub v : ℕ → Option T
    pub block : h t ≡ some (record { next = after; values = v; begin = b; end = b + length xs })
    pub slots : Slots v b xs
    pub room : b + length xs < block_cap

  -- A block before it
  pub record IsFull (h : Heap T) (b : ℕ) (p next : Address) (xs : List T) : Type ℓ where
    pub v : ℕ → Option T
    pub block : h p ≡ some (record { next = some next; values = v; begin = b; end = block_cap })
    pub slots : Slots v b xs
    pub filled : b + length xs ≡ block_cap
    pub busy : b < block_cap

  abbrev pub Used : Heap T → ℕ → List Address → Address → Option Address → List T → Type ℓ
  Used h b [] t after xs = IsLast h b t after xs
  Used h b (p ∷ ps) t after xs =
      (ys : List T) × (zs : List T) × (xs ≡ ys ++ zs)
      × IsFull h b p (first ps t) ys
      × Used h 0 ps t after zs

  abbrev pub Free : Heap T → List Address → Type ℓ
  Free h [] = Unit {ℓ}
  Free h (f ∷ fs) =
      ((v : ℕ → Option T) × (h f
          ≡ some (record { next = front fs; values = v; begin = 0; end = 0 })))
      × Free h fs

  pub record IsQueue (q : Queue T) (ps fs : List Address) (xs : List T) : Type ℓ where
    pub head : q.head ≡ first ps q.tail
    pub begin : ℕ
    pub used : Used q.heap begin ps q.tail (front fs) xs
    pub free : Free q.heap fs
    pub distinct : Distinct (ps ++ q.tail ∷ fs)
    pub below : All (λ a. a < q.fresh) (ps ++ q.tail ∷ fs)
    pub count : q.len ≡ length xs

  abbrev pub SameOn : List Address → Heap T → Heap T → Type ℓ
  SameOn ps h h' = (a : Address) → has a ps ≡ true → h' a ≡ h a

  pub stored : (h : Heap T) (b : Block T) (t : Address) → store t b h t ≡ some b
  stored h b t = ground (arith, ==_self t)

  -- A write elsewhere is not seen.
  pub spared :
      (h : Heap T) (b : Block T) (l : List Address) (t : Address)
      → has t l ≡ false
      → SameOn l h (store t b h)
  spared h b l t out a i = ground (arith, has_apart t a l out i)

  pub Free-frame : (h h' : Heap T) (fs : List Address) → SameOn fs h h' → Free h fs → Free h' fs
  Free-frame h h' [] same f = tt
  Free-frame h h' (a ∷ fs) same ((v, e), f) = (
    (v, same a (ground (arith, ==_self a)) ∙ e),
    Free-frame h h' fs (λ c i. same c (ground arith)) f,
  )

  pub Full-frame :
      (h h' : Heap T) (b : ℕ) (p n : Address) (xs : List T)
      → h' p ≡ h p
      → IsFull h b p n xs
      → IsFull h' b p n xs
  Full-frame h h' b p n xs e i = record {
    v = i.v;
    block = e ∙ i.block;
    slots = i.slots;
    filled = i.filled;
    busy = i.busy;
  }

  Slots-set :
      (v : ℕ → Option T) (i j : ℕ) (w : Option T) (xs : List T)
      → i + length xs ≤ j
      → Slots v i xs
      → Slots (set_slot j w v) i xs
  Slots-set v i j w [] le s = tt
  Slots-set v i j w (x ∷ xs) le s =
      (ground (arith, s.0), Slots-set v (i + 1) j w xs (omega arith) s.1)

  pub Slots-snoc :
      (v : ℕ → Option T) (i j : ℕ) (x : T) (xs : List T)
      → i + length xs ≡ j
      → Slots v i xs
      → Slots (set_slot j (some x) v) i (xs ++ x ∷ [])
  Slots-snoc v i j x [] e s = (ground arith, tt)
  Slots-snoc v i j x (y ∷ ys) e s =
      (ground (arith, s.0), Slots-snoc v (i + 1) j x ys (omega arith) s.1)

  -- What a push finds at the tail, and what its write there makes of the whole.
  pub record Growth (h : Heap T) (b : ℕ) (ps : List Address) (t : Address) (after : Option Address)
      (xs : List T) (x : T) : Type ℓ where
    pub v : ℕ → Option T
    pub tb : ℕ
    pub e : ℕ
    pub block : h t ≡ some (record { next = after; values = v; begin = tb; end = e })
    pub room : e < block_cap
    pub grow :
        (h' : Heap T) (n : Option Address)
        → SameOn ps h h'
        → h' t ≡ some (record { next = n; values = set_slot e (some x) v; begin = tb; end = e + 1 })
        → e + 1 < block_cap
        → Used h' b ps t n (xs ++ x ∷ [])
    pub extend :
        (h' : Heap T) (t' : Address) (n : Option Address) (v' : ℕ → Option T)
        → SameOn ps h h'
        → h' t
          ≡ some
              (record { next = some t'; values = set_slot e (some x) v; begin = tb; end = e + 1 })
        → e + 1 ≡ block_cap
        → h' t' ≡ some (record { next = n; values = v'; begin = 0; end = 0 })
        → Used h' b (ps ++ t ∷ []) t' n (xs ++ x ∷ [])

  pub Used-Growth :
      (h : Heap T) (b : ℕ) (ps : List Address) (t : Address) (after : Option Address) (xs : List T)
      (x : T)
      → Used h b ps t after xs
      → Growth h b ps t after xs x
  Used-Growth h b [] t after xs x u = record {
    v = u.v;
    tb = b;
    e = b + length xs;
    block = u.block;
    room = u.room;
    grow = λ h' n same w more. record {
      v = set_slot (b + length xs) (some x) u.v;
      block =
          w
          ∙ ap
              (λ k. some (record {
                next = n;
                values = set_slot (b + length xs) (some x) u.v;
                begin = b;
                end = k;
              }))
              (omega (arith, length-append xs (x ∷ [])));
      slots = Slots-snoc u.v b (b + length xs) x xs refl u.slots;
      room = omega (arith, length-append xs (x ∷ []));
    };
    extend = λ h' t' n v' same w full w'. (
      xs ++ x ∷ [],
      [],
      sym (append-nil (xs ++ x ∷ [])),
      record {
        v = set_slot (b + length xs) (some x) u.v;
        block =
            w
            ∙ ap
                (λ k. some (record {
                  next = some t';
                  values = set_slot (b + length xs) (some x) u.v;
                  begin = b;
                  end = k;
                }))
                full;
        slots = Slots-snoc u.v b (b + length xs) x xs refl u.slots;
        filled = omega (arith, length-append xs (x ∷ []));
        busy = omega (arith, u.room);
      },
      record { v = v'; block = w'; slots = tt; room = omega arith },
    );
  }
  Used-Growth h b (p ∷ ps) t after xs x (ys, zs, split, full, rest) =
      let g = Used-Growth h 0 ps t after zs x rest in
      let parts : xs ++ x ∷ [] ≡ ys ++ (zs ++ x ∷ []) =
        ap (λ l. l ++ x ∷ []) split ∙ append_assoc ys zs (x ∷ []) in
      record {
        v = g.v;
        tb = g.tb;
        e = g.e;
        block = g.block;
        room = g.room;
        grow = λ h' n same w more. (
          ys,
          zs ++ x ∷ [],
          parts,
          Full-frame h h' b p (first ps t) ys (same p (ground (arith, ==_self p))) full,
          g.grow h' n (λ a i. same a (ground arith)) w more,
        );
        extend = λ h' t' n v' same w e w'. (
          ys,
          zs ++ x ∷ [],
          parts,
          subst (λ a. IsFull h' b p a ys) (first-append ps t t')
              (Full-frame h h' b p (first ps t) ys (same p (ground (arith, ==_self p))) full),
          g.extend h' t' n v' (λ a i. same a (ground arith)) w e w',
        );
      }
    where
      first-append : (l : List Address) (a c : Address) → first l a ≡ first (l ++ a ∷ []) c
      first-append [] a c = refl
      first-append (d ∷ l) a c = refl
