-- ===== src/Util/IntrusiveList/Runs.antt =====
-- Sequences of operations on an intrusive list, and lists joined or moved.
use broadcast_service.Base.{
  ◌%◌, ◌^◌, ◌+◌, ◌≡◌, ◌≢◌, refl, ap, true, false, Option, none, some, List, [], ◌∷◌, ◌++◌, arith,
  nat_eq, contains, contains-append, ◌>>=◌, length-append, Distinct, append-nil,
}
use broadcast_service.Util.IntrusiveList.{
  Ptr, null, Memory, IntrusiveList, write, set_next, is_empty, clear, move, push_back, push_front,
  pop_front, insert,
}
use broadcast_service.Util.IntrusiveList.Chains.{
  Chain, Represents, tail-mem, head-ne_null, tail-ne_null, frame, Chain-append,
}
use broadcast_service.Util.IntrusiveList.Refinement.{
  Yields, push_back-append, push_front-cons, pop_front-nil, pop_front-cons,
}

pub data Command : Type 0 where
  back : Ptr → Command
  front : Ptr → Command
  pop : Command

-- Each command after the other, with the nodes that the removals return.
unfoldable pub run :
    List Command → IntrusiveList → Memory → Option (List Ptr × (IntrusiveList × Memory))
run [] l h = some ([], (l, h))
run (back node ∷ cs) l h = push_back node l h >>= λ (l, h). run cs l h
run (front node ∷ cs) l h = push_front node l h >>= λ (l, h). run cs l h
run (pop ∷ cs) l h =
    pop_front l h >>= λ (p, (l, h)). run cs l h >>= λ (out, last). some (p ∷ out, last)

-- The same commands on the list of nodes itself.
unfoldable pub run_list : List Command → List Ptr → List Ptr × List Ptr
run_list [] xs = ([], xs)
run_list (back node ∷ cs) xs = run_list cs (xs ++ node ∷ [])
run_list (front node ∷ cs) xs = run_list cs (node ∷ xs)
run_list (pop ∷ cs) [] = (null ∷ (run_list cs []).0, (run_list cs []).1)
run_list (pop ∷ cs) (x ∷ xs) = (x ∷ (run_list cs xs).0, (run_list cs xs).1)

-- What is pushed is a node that the list does not hold.
abbrev pub Fresh : List Command → List Ptr → Type 0
Fresh [] xs = Unit {0}
Fresh (back node ∷ cs) xs = (node ≢ null) × (contains node xs ≡ false) × Fresh cs (xs ++ node ∷ [])
Fresh (front node ∷ cs) xs = (node ≢ null) × (contains node xs ≡ false) × Fresh cs (node ∷ xs)
Fresh (pop ∷ cs) [] = Fresh cs []
Fresh (pop ∷ cs) (x ∷ xs) = Fresh cs xs

Yields-bind :
    {A B : Type 0} {P : A → Type 0} (Q : B → Type 0) (o : Option A) (k : A → Option B)
    → Yields o P
    → ((a : A) → P a → Yields (k a) Q)
    → Yields (o >>= k) Q
Yields-bind Q none k p f = absurd p
Yields-bind Q (some a) k p f = f a p

-- Whatever commands are run on the pointers, if each pushes a node that is not null and not in the
-- list, no null pointer is dereferenced, the removals return the nodes that the same commands
-- remove from the list of nodes, and the pointers at the end lead through that list.
pub run-run_list :
    (cs : List Command) (xs : List Ptr) (l : IntrusiveList) (h : Memory)
    → Represents h l xs
    → Fresh cs xs
    → Yields
        (run cs l h)
        (λ (out, (m, g)). (out ≡ (run_list cs xs).0) × Represents g m (run_list cs xs).1)
unfolding run run_list
run-run_list [] xs l h r f = (refl, r)
run-run_list (back node ∷ cs) xs l h r f =
    Yields-bind _ (push_back node l h) _ (push_back-append h l node f.0 xs r f.1)
      (λ (m, g) p. run-run_list cs (xs ++ node ∷ []) m g p.0 f.2)
run-run_list (front node ∷ cs) xs l h r f =
    Yields-bind _ (push_front node l h) _ (push_front-cons h l node f.0 xs r f.1)
      (λ (m, g) p. run-run_list cs (node ∷ xs) m g p.0 f.2)
run-run_list (pop ∷ cs) [] l h r f = rw (pop_front-nil h l r) (
    Yields-bind _ (run cs l h) _ (run-run_list cs [] l h r f)
      (λ (out, last) p. (ap (λ o. null ∷ o) p.0, p.1)))
run-run_list (pop ∷ cs) (x ∷ xs) l h r f =
    Yields-bind _ (pop_front l h) _ (pop_front-cons h l x xs r) (λ (p, (m, g)) e.
      Yields-bind _ (run cs m g) _ (run-run_list cs xs m g e.1 f)
        (λ (out, last) s. (ground (arith, e.0, s.0), s.1)))

-- Distinct lists without a common node.
abbrev pub Apart : List Ptr → List Ptr → Type 0
Apart xs ys = (a : Ptr) → contains a xs ≡ true → contains a ys ≡ false

Distinct-append : (xs ys : List Ptr) → Distinct xs → Distinct ys → Apart xs ys → Distinct (xs ++ ys)
unfolding contains
Distinct-append [] ys d e apart = e
Distinct-append (x ∷ xs) ys d e apart = (
  ground (arith, contains-append x xs ys, apart x),
  Distinct-append xs ys d.1 e (λ a m. apart a (ground arith)),
)

module _ (h : Memory) (l other : IntrusiveList) where
  insert_empty : other.head ≡ null → insert l other h ≡ some ((l, other), h)
  unfolding insert is_empty
  insert_empty e = ground arith

  insert_onto_empty :
      other.head ≢ null
      → l.head ≡ null
      → insert l other h ≡ some ((other, record { head = null; tail = null; size = 0 }), h)
  unfolding insert is_empty clear
  insert_onto_empty n e = ground arith

  insert_nodes :
      other.head ≢ null
      → l.head ≢ null
      → l.tail ≢ null
      → insert l other h
        ≡ some (
          (
            record l { tail = other.tail; size = (l.size + other.size) % 2 ^ 64 },
            record { head = null; tail = null; size = 0 },
          ),
          write h l.tail other.head,
        )
  unfolding insert is_empty clear set_next
  insert_nodes n m t = ground arith

Represents-empty : (h : Memory) → Represents h (record { head = null; tail = null; size = 0 }) []
Represents-empty h = record { chain = (refl, refl); distinct = tt; size = refl }

-- Joining two lists without a common node gives one that holds the nodes of both in order, and
-- empties the other.
pub insert-append :
    (xs ys : List Ptr) (l other : IntrusiveList) (h : Memory)
    → Represents h l xs
    → Represents h other ys
    → Apart xs ys
    → Yields (insert l other h) (λ ((m, left), g). Represents g m (xs ++ ys) × Represents g left [])
unfolding write contains
insert-append xs [] l other h r s apart =
    rw (insert_empty h l other s.chain.0, append-nil xs) (r, s)
insert-append [] (y ∷ ys) l other h r s apart =
    rw (insert_onto_empty h l other (head-ne_null h other.head other.tail y ys s.chain) r.chain.0)
      (s, Represents-empty h)
insert-append (x ∷ xs) (y ∷ ys) l other h r s apart =
    let g : Memory = write h l.tail other.head in
    let end = tail-ne_null h l.head l.tail x xs r.chain in
    let member = tail-mem h l.head l.tail x xs r.chain in
    let kept : Chain g l.head l.tail (x ∷ xs) =
      frame h g l.head l.tail (x ∷ xs) r.distinct (λ a m ne. ground arith) r.chain in
    let next : Chain g other.head other.tail (y ∷ ys) =
      frame h g other.head other.tail (y ∷ ys) s.distinct (λ a m ne. ground (arith, apart l.tail))
        s.chain in
    let linked : g l.tail ≡ other.head = ground arith in
    rw
      (insert_nodes h l other (head-ne_null h other.head other.tail y ys s.chain)
        (head-ne_null h l.head l.tail x xs r.chain) end)
      (
        record {
          chain = Chain-append g l.head l.tail other.head other.tail x y xs ys kept linked next;
          distinct = Distinct-append (x ∷ xs) (y ∷ ys) r.distinct s.distinct apart;
          size = ground (arith, r.size, s.size, length-append xs (y ∷ ys));
        },
        Represents-empty g,
      )

-- A list moved into another leaves nothing behind.
pub move-Represents :
    (xs : List Ptr) (l : IntrusiveList) (h : Memory)
    → Represents h l xs
    → Represents h (move l).0 xs × Represents h (move l).1 []
unfolding move clear
move-Represents xs l h r = (r, Represents-empty h)
