-- ===== src/Util/IntrusiveList/Refinement.antt =====
-- What each operation of an intrusive list does to the list of its nodes.
use broadcast_service.Base.{
  ◌%◌, ◌^◌, ◌+◌, ◌-◌, ◌≡◌, ◌≢◌, refl, false, Option, none, some, List, [], ◌∷◌, ◌++◌, arith, nat_eq,
  contains, contains-append, length-append, Distinct,
}
use broadcast_service.Util.IntrusiveList.{
  Ptr, null, Memory, IntrusiveList, write, set_next, next, is_empty, push_back, push_front,
  unlink_head, pop_front,
}
use broadcast_service.Util.IntrusiveList.Chains.{
  Chain, Represents, tail-mem, head-ne_null, tail-ne_null, frame, Chain-append,
}

-- An operation that returns, and what holds of its result.
abbrev pub Yields : {A : Type 0} → Option A → (A → Type 0) → Type 0
Yields none P = ⊥
Yields (some a) P = P a

-- The result on an empty list, and the result on one with nodes, for each operation.
module _ (h : Memory) (l : IntrusiveList) (node : Ptr) (nn : node ≢ null) where
  push_back_empty :
      l.head ≡ null
      → push_back node l h
        ≡ some
            (record { head = node; tail = node; size = (l.size + 1) % 2 ^ 64 }, write h node null)
  unfolding push_back set_next is_empty
  push_back_empty e = ground arith

  push_back_nodes :
      l.head ≢ null
      → l.tail ≢ null
      → push_back node l h
        ≡ some (
          record l { tail = node; size = (l.size + 1) % 2 ^ 64 },
          write (write h node null) l.tail node,
        )
  unfolding push_back set_next is_empty
  push_back_nodes n t = ground arith

  push_front_empty :
      l.head ≡ null
      → push_front node l h
        ≡ some
            (record { head = node; tail = node; size = (l.size + 1) % 2 ^ 64 }, write h node null)
  unfolding push_front set_next is_empty
  push_front_empty e = ground arith

  push_front_nodes :
      l.head ≢ null
      → push_front node l h
        ≡ some (record l { head = node; size = (l.size + 1) % 2 ^ 64 }, write h node l.head)
  unfolding push_front set_next is_empty
  push_front_nodes n = ground arith

module _ (h : Memory) (l : IntrusiveList) where
  pop_front_empty : l.head ≡ null → pop_front l h ≡ some (null, (l, h))
  unfolding pop_front is_empty
  pop_front_empty e = ground arith

  pop_front_one :
      l.head ≢ null
      → l.tail ≡ l.head
      → pop_front l h
        ≡ some (
          l.head,
          (
            record { head = null; tail = null; size = (l.size + 2 ^ 64 - 1) % 2 ^ 64 },
            write h l.head null,
          ),
        )
  unfolding pop_front unlink_head set_next next is_empty
  pop_front_one n e = ground arith

  pop_front_nodes :
      l.head ≢ null
      → l.tail ≢ l.head
      → pop_front l h
        ≡ some (
          l.head,
          (
            record l { head = h l.head; size = (l.size + 2 ^ 64 - 1) % 2 ^ 64 },
            write h l.head null,
          ),
        )
  unfolding pop_front unlink_head set_next next is_empty
  pop_front_nodes n t = ground arith

module _ (h : Memory) (l : IntrusiveList) where
  -- What an operation leaves alone: the pointers of nodes outside the list and of `node`.
  abbrev pub Others : Ptr → List Ptr → Memory → Type 0
  Others node xs g = (a : Ptr) → contains a xs ≡ false → a ≢ node → g a ≡ h a

  pub Distinct-snoc :
      (node : Ptr) (xs : List Ptr)
      → Distinct xs
      → contains node xs ≡ false
      → Distinct (xs ++ node ∷ [])
  unfolding contains
  Distinct-snoc node [] d fresh = ground arith
  Distinct-snoc node (x ∷ xs) d fresh =
      ground (arith, Distinct-snoc node xs, contains-append x xs (node ∷ []))

  module _ (node : Ptr) (nn : node ≢ null) where
    pub push_back-append :
        (xs : List Ptr)
        → Represents h l xs
        → contains node xs ≡ false
        → Yields
            (push_back node l h)
            (λ (m, g). Represents g m (xs ++ node ∷ []) × Others node xs g)
    unfolding write contains
    push_back-append [] r fresh = rw (push_back_empty h l node nn r.chain.0) (
      record { chain = ground arith; distinct = ground arith; size = ground (arith, r.size) },
      ground arith,
    )
    push_back-append (x ∷ xs) r fresh =
        let g : Memory = write (write h node null) l.tail node in
        let member = tail-mem h l.head l.tail x xs r.chain in
        let end : l.tail ≢ null = tail-ne_null h l.head l.tail x xs r.chain in
        let kept : Chain g l.head l.tail (x ∷ xs) =
          frame h g l.head l.tail (x ∷ xs) r.distinct (λ a m ne. ground arith) r.chain in
        let linked : g l.tail ≡ node = ground arith in
        rw (push_back_nodes h l node nn (head-ne_null h l.head l.tail x xs r.chain) end) (
          record {
            chain =
                Chain-append g l.head l.tail node node x node xs [] kept linked (refl, refl, nn);
            distinct = Distinct-snoc node (x ∷ xs) r.distinct fresh;
            size = ground (arith, r.size, length-append xs (node ∷ []));
          },
          λ a out ne. ground arith,
        )

    pub push_front-cons :
        (xs : List Ptr)
        → Represents h l xs
        → contains node xs ≡ false
        → Yields (push_front node l h) (λ (m, g). Represents g m (node ∷ xs) × Others node xs g)
    unfolding write contains
    push_front-cons [] r fresh = rw (push_front_empty h l node nn r.chain.0) (
      record { chain = ground arith; distinct = ground arith; size = ground (arith, r.size) },
      ground arith,
    )
    push_front-cons (x ∷ xs) r fresh =
        let g : Memory = write h node l.head in
        let kept : Chain g l.head l.tail (x ∷ xs) =
          frame h g l.head l.tail (x ∷ xs) r.distinct (λ a m ne. ground arith) r.chain in
        let linked : g node ≡ l.head = ground arith in
        rw (push_front_nodes h l node nn (head-ne_null h l.head l.tail x xs r.chain)) (
          record {
            chain = (refl, nn, rw linked kept);
            distinct = (fresh, r.distinct);
            size = ground (arith, r.size);
          },
          λ a out ne. ground arith,
        )

  -- The removed node, and what is left.
  pub pop_front-nil : Represents h l [] → pop_front l h ≡ some (null, (l, h))
  pop_front-nil r = pop_front_empty h l r.chain.0

  pub pop_front-cons :
      (x : Ptr) (xs : List Ptr)
      → Represents h l (x ∷ xs)
      → Yields
          (pop_front l h)
          (λ (p, (m, g)). (p ≡ x) × Represents g m xs × (g x ≡ null) × Others x xs g)
  unfolding write contains
  pop_front-cons x [] r =
      rw (pop_front_one h l (head-ne_null h l.head l.tail x [] r.chain) (ground (arith, r.chain))) (
        r.chain.0,
        record { chain = (refl, refl); distinct = tt; size = ground (arith, r.size) },
        ground (arith, r.chain.0),
        λ a out ne. ground (arith, r.chain.0),
      )
  pop_front-cons x (y ∷ xs) r =
      let g : Memory = write h l.head null in
      let member = tail-mem h (h x) l.tail y xs r.chain.2 in
      let kept : Chain g (h x) l.tail (y ∷ xs) =
        frame h g (h x) l.tail (y ∷ xs) r.distinct.1 (λ a m ne. ground (arith, r.chain.0))
          r.chain.2 in
      let two : l.tail ≢ l.head = ground (arith, r.chain.0) in
      rw (pop_front_nodes h l (head-ne_null h l.head l.tail x (y ∷ xs) r.chain) two) (
        r.chain.0,
        record {
          chain = rw r.chain.0 kept;
          distinct = r.distinct.1;
          size = ground (arith, r.size);
        },
        ground (arith, r.chain.0),
        λ a out ne. ground (arith, r.chain.0),
      )
