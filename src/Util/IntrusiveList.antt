-- ===== src/Util/IntrusiveList.antt =====
-- include/util/instrusive_list.hpp: lists through the `next_` pointers of their nodes. A list is
-- its three fields, and the memory gives each node's pointer. `none` is a null dereference.
pub mod Chains
pub mod Refinement
pub mod Runs
mod Tests
use broadcast_service.Base.{
  ◌%◌, ◌^◌, ℕ, ◌+◌, ◌-◌, Bool, not, Option, none, some, nat_eq, ◌==◌, if◌then◌else◌, ◌>>=◌,
}

abbrev pub Ptr : Type 0
Ptr = ℕ

abbrev pub null : Ptr
null = 0

-- `next_` of each node
abbrev pub Memory : Type 0
Memory = Ptr → Ptr

pub record IntrusiveList : Type 0 where
  pub head : Ptr
  pub tail : Ptr
  pub size : ℕ

unfoldable pub write : Memory → Ptr → Ptr → Memory
write h a q = λ b. if b == a then q else h b

-- `a->next_ = q`
unfoldable pub set_next : Ptr → Ptr → Memory → Option Memory
set_next a q h = if a == null then none else some (write h a q)

-- `a->next_`
unfoldable pub next : Ptr → Memory → Option Ptr
next a h = if a == null then none else some (h a)

unfoldable pub is_empty : IntrusiveList → Bool
is_empty l = l.head == null

unfoldable pub clear : IntrusiveList → IntrusiveList
clear l = record { head = null; tail = null; size = 0 }

-- The new list and what is left in the one moved from.
unfoldable pub move : IntrusiveList → IntrusiveList × IntrusiveList
move other = (record { head = other.head; tail = other.tail; size = other.size }, clear other)

unfoldable pub push_back : Ptr → IntrusiveList → Memory → Option (IntrusiveList × Memory)
push_back node l h = set_next node null h >>= λ h.
    if is_empty l
    then some (record { head = node; tail = node; size = (l.size + 1) % 2 ^ 64 }, h)
    else set_next l.tail node h >>= λ h.
        some (record l { tail = node; size = (l.size + 1) % 2 ^ 64 }, h)

unfoldable pub push_front : Ptr → IntrusiveList → Memory → Option (IntrusiveList × Memory)
push_front node l h =
    if is_empty l
    then set_next node null h
      >>= (λ h. some (record { head = node; tail = node; size = (l.size + 1) % 2 ^ 64 }, h))
    else set_next node l.head h
      >>= (λ h. some (record l { head = node; size = (l.size + 1) % 2 ^ 64 }, h))

-- The head after the removal, and the tail.
unfoldable pub unlink_head : IntrusiveList → Memory → Option IntrusiveList
unlink_head l h =
    if not (l.head == l.tail)
    then next l.head h
      >>= (λ q. some (record l { head = q; size = (l.size + 2 ^ 64 - 1) % 2 ^ 64 }))
    else some (record { head = null; tail = null; size = (l.size + 2 ^ 64 - 1) % 2 ^ 64 })

-- A null result is `nullptr`.
unfoldable pub pop_front : IntrusiveList → Memory → Option (Ptr × (IntrusiveList × Memory))
pop_front l h =
    if is_empty l
    then some (null, (l, h))
    else unlink_head l h >>= λ m. set_next l.head null h >>= λ h. some (l.head, (m, h))

-- This list and the one moved from.
unfoldable pub insert :
    IntrusiveList → IntrusiveList → Memory → Option ((IntrusiveList × IntrusiveList) × Memory)
insert l other h =
    if is_empty other
    then some ((l, other), h)
    else if is_empty l
    then some ((record { head = other.head; tail = other.tail; size = other.size }, clear other), h)
    else set_next l.tail other.head h >>= λ h.
        some
          ((record l { tail = other.tail; size = (l.size + other.size) % 2 ^ 64 }, clear other), h)
