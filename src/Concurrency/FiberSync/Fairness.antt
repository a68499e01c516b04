-- ===== src/Concurrency/FiberSync/Fairness.antt =====
-- The mutex is held by one fiber at a time, in the order of the calls.
use broadcast_service.Base.{
  ℕ, ◌≡◌, refl, sym, ap, subst, ◌∙◌, true, false, Option, none, some, List, [], ◌∷◌, ◌++◌,
  append_assoc, append-nil, arith, if◌then◌else◌,
}
use broadcast_service.Concurrency.FiberSync.{FiberMutex, new_mutex, lock, hand_over, unlock}

-- `holder` is the fiber that has the mutex, `called` the fibers that have called `Lock`, and `granted`
-- those that went on, both in order.
pub record System : Type 0 where
  pub mutex : FiberMutex
  pub holder : Option ℕ
  pub called : List ℕ
  pub granted : List ℕ

unfoldable pub start : System
start = record { mutex = new_mutex; holder = none; called = []; granted = [] }

unfoldable pub locks : ℕ → System → System
locks fiber s =
    let r = lock fiber s.mutex in
    let called = s.called ++ fiber ∷ [] in
    if r.0
    then record {
      mutex = r.1;
      holder = some fiber;
      called = called;
      granted = s.granted ++ fiber ∷ [];
    }
    else record s { mutex = r.1; called = called }

unfoldable pub awakes : Option ℕ → FiberMutex → System → System
awakes none m s = record s { mutex = m; holder = none }
awakes (some fiber) m s = record s {
  mutex = m;
  holder = some fiber;
  granted = s.granted ++ fiber ∷ [];
}

unfoldable pub unlocks : System → System
unlocks s = let r = unlock s.mutex in awakes r.0 r.1 s

-- Any fiber may call `Lock`, and `Unlock` is called by the fiber that has the mutex.
pub data Reachable : System → Type 0 where
  initial : Reachable start
  locking : {s : System} (fiber : ℕ) → Reachable s → Reachable (locks fiber s)
  unlocking : {s : System} (fiber : ℕ) → Reachable s → s.holder ≡ some fiber → Reachable (unlocks s)

-- A mutex is locked exactly if a fiber has it, and only then fibers sleep.
abbrev pub Held : Option ℕ → FiberMutex → Type 0
Held none m = (m.is_locked ≡ false) × (m.sleepers ≡ [])
Held (some fiber) m = m.is_locked ≡ true

record Fair (s : System) : Type 0 where
  held : Held s.holder s.mutex
  order : s.granted ++ s.mutex.sleepers ≡ s.called

locks_free :
    (fiber : ℕ) (s : System)
    → s.mutex.is_locked ≡ false
    → locks fiber s ≡ record {
      mutex = record { sleepers = s.mutex.sleepers; is_locked = true };
      holder = some fiber;
      called = s.called ++ fiber ∷ [];
      granted = s.granted ++ fiber ∷ [];
    }
unfolding locks lock
locks_free fiber s h = ground (arith, h)

locks_taken :
    (fiber : ℕ) (s : System)
    → s.mutex.is_locked ≡ true
    → locks fiber s ≡ record {
      mutex = record { sleepers = s.mutex.sleepers ++ fiber ∷ []; is_locked = s.mutex.is_locked };
      holder = s.holder;
      called = s.called ++ fiber ∷ [];
      granted = s.granted;
    }
unfolding locks lock
locks_taken fiber s h = ground (arith, h)

-- What the invariant says of a system without a holder, and of one with a holder.
order_of : (s : System) → Fair s → s.granted ++ s.mutex.sleepers ≡ s.called
order_of s i = i.order

all_granted : (s : System) → s.mutex.sleepers ≡ [] → Fair s → s.granted ≡ s.called
all_granted s e i = sym (append-nil s.granted) ∙ (sym (ap (λ xs. s.granted ++ xs) e) ∙ order_of s i)

Fair-locks : (fiber : ℕ) (h : Option ℕ) (s : System) → s.holder ≡ h → Fair s → Fair (locks fiber s)
Fair-locks fiber none s e i =
    let free : Held none s.mutex = subst (λ h. Held h s.mutex) e i.held in
    let all = all_granted s free.1 i in
    subst Fair (sym (locks_free fiber s free.0)) (record {
      held = refl;
      order = ground (arith, all, free.1, append-nil (s.granted ++ fiber ∷ []));
    })
Fair-locks fiber (some holder) s e i =
    let taken : Held (some holder) s.mutex = subst (λ h. Held h s.mutex) e i.held in
    let asleep : FiberMutex = record {
      sleepers = s.mutex.sleepers ++ fiber ∷ [];
      is_locked = s.mutex.is_locked;
    } in
    subst Fair (sym (locks_taken fiber s taken)) (record {
      held = subst (λ h. Held h asleep) (sym e) taken;
      order =
          sym (append_assoc s.granted s.mutex.sleepers (fiber ∷ []))
          ∙ ap (λ xs. xs ++ fiber ∷ []) (order_of s i);
    })

unlocks_lem :
    (sleepers : List ℕ) (s : System)
    → s.mutex.sleepers ≡ sleepers
    → unlocks s ≡ awakes (hand_over sleepers s.mutex).0 (hand_over sleepers s.mutex).1 s
unfolding unlocks unlock
unlocks_lem sleepers s e = ap (λ xs. awakes (hand_over xs s.mutex).0 (hand_over xs s.mutex).1 s) e

Fair-unlocks :
    (fiber : ℕ) (sleepers : List ℕ) (s : System)
    → s.mutex.sleepers ≡ sleepers
    → s.holder ≡ some fiber
    → Fair s
    → Fair (unlocks s)
unfolding hand_over awakes
Fair-unlocks fiber [] s e h i =
    subst Fair (sym (unlocks_lem [] s e)) (record { held = (refl, e); order = order_of s i })
Fair-unlocks fiber (sleeper ∷ sleepers) s e h i =
    let taken : Held (some fiber) s.mutex = subst (λ h. Held h s.mutex) h i.held in
    subst Fair (sym (unlocks_lem (sleeper ∷ sleepers) s e)) (record {
      held = taken;
      order =
          append_assoc s.granted (sleeper ∷ []) sleepers
          ∙ (ap (λ xs. s.granted ++ xs) (sym e) ∙ order_of s i);
    })

Fair-start : Fair start
unfolding start new_mutex
Fair-start = record { held = (refl, refl); order = refl }

Reachable-Fair : (s : System) → Reachable s → Fair s
Reachable-Fair s initial = Fair-start
Reachable-Fair s (locking {s = t} fiber r) = Fair-locks fiber t.holder t refl (Reachable-Fair t r)
Reachable-Fair s (unlocking {s = t} fiber r h) =
    Fair-unlocks fiber t.mutex.sleepers t refl h (Reachable-Fair t r)

-- In every state that calls of `Lock` and, by the holder, of `Unlock` reach: the fibers that went on
-- and then the sleepers are the fibers that have called `Lock`, in that order; the mutex is locked
-- exactly if a fiber has it, and while none has it no fiber sleeps.
pub Reachable-granted :
    (s : System) → Reachable s → (s.granted ++ s.mutex.sleepers ≡ s.called) × Held s.holder s.mutex
Reachable-granted s r = let i = Reachable-Fair s r in (order_of s i, i.held)
