-- ===== src/Timers/TimerService.antt =====
-- src/io/timer_service.cpp: `TimerService`, a wheel of slots. A timer is its deadline, its id and
-- what its subclass keeps. The number of ticks that have gone by is read from the kernel's timer.
pub mod Counting
pub mod Stopping
pub mod Keeping
pub mod Sweeping
pub mod Shape
pub mod Ticking
use broadcast_service.Base.{
  ℕ, zero, suc, ◌+◌, ◌*◌, ◌/◌, ◌%◌, ◌^◌, Bool, true, false, Option, none, some, List, [], ◌∷◌, ◌++◌,
  nat_eq, ◌==◌, contains, if◌then◌else◌, ltb, leb, ◌>>=◌,
}
use broadcast_service.Util.HashSet

-- `kMaxTicksDuration`
abbrev pub max_ticks_duration : ℕ
max_ticks_duration = 1000

pub record Timer (A : Type 0) : Type 0 where
  pub deadline : ℕ
  pub id : ℕ
  pub item : A

pub record TimerService (A : Type 0) : Type 0 where
  pub tick_duration : ℕ
  pub ticks : ℕ
  pub timers : ℕ → List (Timer A)
  pub slot : ℕ
  pub current_id : ℕ
  pub cancelled_timers : List ℕ

module _ {A : Type 0} where
  unfoldable pub init : ℕ → TimerService A
  init tick_duration = record {
    tick_duration = tick_duration;
    ticks = 0;
    timers = λ s. [];
    slot = 0;
    current_id = 0;
    cancelled_timers = [];
  }

  unfoldable pub get_id : TimerService A → ℕ × TimerService A
  get_id w = (w.current_id, record w { current_id = (w.current_id + 1) % 2 ^ 64 })

  -- `timers_[slot] = list`
  unfoldable pub write_slot : ℕ → List (Timer A) → (ℕ → List (Timer A)) → ℕ → List (Timer A)
  write_slot slot list timers = λ s. if s == slot then list else timers s

  unfoldable pub do_add_timer : A → ℕ → ℕ → TimerService A → TimerService A
  do_add_timer item id tick_duration w =
      let deadline : ℕ = (w.ticks + tick_duration) % 2 ^ 64 in
      let slot : ℕ = deadline % max_ticks_duration in
      let timer : Timer A = record { deadline = deadline; id = id; item = item } in
      record w { timers = write_slot slot (w.timers slot ++ timer ∷ []) w.timers }

  -- `none` also for the division by a tick duration of 0.
  unfoldable pub tick_duration_of : ℕ → TimerService A → Option ℕ
  tick_duration_of duration w =
      if w.tick_duration == 0
      then none
      else if ltb (duration / w.tick_duration) max_ticks_duration
      then some (duration / w.tick_duration)
      else none

  -- `AddTimer(timer, id, duration)`
  unfoldable pub add_timer_with_id : A → ℕ → ℕ → TimerService A → Option (TimerService A)
  add_timer_with_id item id duration w = do
    tick_duration ← tick_duration_of duration w
    some (do_add_timer item id tick_duration w)

  unfoldable pub add_timer : A → ℕ → TimerService A → Option (ℕ × TimerService A)
  add_timer item duration w = do
    tick_duration ← tick_duration_of duration w
    let added = do_add_timer item w.current_id tick_duration w
    some (w.current_id, record added { current_id = (w.current_id + 1) % 2 ^ 64 })

  unfoldable pub cancel_timer : ℕ → TimerService A → TimerService A
  cancel_timer id w = record w { cancelled_timers = HashSet.insert id w.cancelled_timers }

  unfoldable pub max_duration : TimerService A → ℕ
  max_duration w = max_ticks_duration * w.tick_duration % 2 ^ 64

  unfoldable pub advance_slot : TimerService A → TimerService A
  advance_slot w = record w { slot = if w.slot + 1 == max_ticks_duration then 0 else w.slot + 1 }

  -- The loop of `ExpireSlot`: the expired timers and the remaining ones, each pushed to the front.
  unfoldable pub expire :
      ℕ → List (Timer A) → List (Timer A) → List (Timer A) → List (Timer A) × List (Timer A)
  expire ticks [] expired remaining = (expired, remaining)
  expire ticks (timer ∷ slot_list) expired remaining =
      let due = leb timer.deadline ticks in
      expire ticks slot_list (if due then timer ∷ expired else expired)
        (if due then remaining else timer ∷ remaining)

  unfoldable pub expire_slot : TimerService A → List (Timer A) × TimerService A
  expire_slot w =
      let r = expire w.ticks (w.timers w.slot) [] [] in
      (r.0, record w { timers = write_slot w.slot r.1 w.timers })

  -- The loop over the elapsed ticks, with the timers that it gathers.
  unfoldable pub sweep : ℕ → TimerService A → List (Timer A) → List (Timer A) × TimerService A
  sweep zero w expired = (expired, w)
  sweep (suc elapsed) w expired =
      let r = expire_slot (advance_slot w) in sweep elapsed r.1 (expired ++ r.0)

  -- The cancelled timers, the fired ones, and the ids that stay cancelled.
  unfoldable pub sort_out :
      List (Timer A)
      → List ℕ
      → List (Timer A)
      → List (Timer A)
      → List (Timer A) × (List (Timer A) × List ℕ)
  sort_out [] ids cancelled fired = (cancelled, (fired, ids))
  sort_out (timer ∷ expired) ids cancelled fired =
      let found = contains timer.id ids in
      sort_out expired (if found then HashSet.erase timer.id ids else ids)
        (if found then cancelled ++ timer ∷ [] else cancelled)
        (if found then fired else fired ++ timer ∷ [])

  -- `Tick` under the lock: the timers to cancel and those to fire.
  unfoldable pub tick : ℕ → TimerService A → List (Timer A) × (List (Timer A) × TimerService A)
  tick elapsed w =
      let swept = sweep elapsed (record w { ticks = (w.ticks + elapsed) % 2 ^ 64 }) [] in
      let r = sort_out swept.0 w.cancelled_timers [] [] in
      (r.0, (r.1.0, record swept.1 { cancelled_timers = r.1.1 }))

  -- `Stop`: the timers that it cancels, which `rounds` is `kMaxTicksDuration` for.
  unfoldable pub stop_rounds : ℕ → TimerService A → List (Timer A) × TimerService A
  stop_rounds zero w = ([], w)
  stop_rounds (suc rounds) w =
      let r = expire_slot (advance_slot w) in
      let rest = stop_rounds rounds r.1 in (r.0 ++ rest.0, rest.1)

  unfoldable pub stop : TimerService A → List (Timer A) × TimerService A
  stop w = stop_rounds max_ticks_duration w
