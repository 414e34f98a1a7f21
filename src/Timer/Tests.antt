-- ===== src/Timer/Tests.antt =====
-- The theorems on the model of src/system_time/driver.rs on a concrete machine.
use rpi_devenv.Base.{
  ℕ, ◌+◌, ◌-◌, ◌/◌, ◌%◌, ◌^◌, ◌≡◌, refl, ap, ◌∙◌, false, Bool-cases, inl, inr, none, some, List, [],
  ◌∷◌, ◌==◌, if◌then◌else◌, arith,
}
use rpi_devenv.Base.{length, min}
use rpi_devenv.Machine.{Machine, M, Event, AlarmState, emit, woke, left}
use rpi_devenv.Timer.Defs.{
  alarm_in, now, set_alarm, alarm_interrupt, system_time_chi, system_time_clo,
}
use rpi_devenv.Timer.Clock.{Clock, Between, now-Between}
use rpi_devenv.Timer.Alarm.{SetAlarm, set_alarm_lem}
use rpi_devenv.Timer.Calls.{
  register_callback, set_to, rings, allocate, Op, do_ops, IsCallback, is_allocated, callbacks_of,
  fresh_after, IsNullIf, do_op, Kept,
}
use rpi_devenv.Timer.Registered.{set_to-Kept}
use rpi_devenv.Timer.Runs.{do_ops-Kept}
use rpi_devenv.Timer.Ring.{Rang, alarm_interrupt_lem}

-- A clock that ticks once with each event, and whose low word is about to wrap around.
abbrev ticks : List Event → ℕ
ticks l = min (2 ^ 32 - 3 + length l) (2 ^ 64 - 1)

abbrev ticking : List Event → ℕ → ℕ
ticking l a =
    if a == system_time_chi
    then ticks l / 2 ^ 32
    else if a == system_time_clo
    then ticks l % 2 ^ 32
    else 0

abbrev clock : Clock ticking
clock = record {
  time = ticks;
  high = λ l. refl;
  low = λ l. refl;
  fits = λ l. omega arith;
  grows = λ e l. omega arith;
  slow = λ e l. omega arith;
}

-- The first alarm is allocated.
abbrev alarm1 : AlarmState
alarm1 = record { timestamp = 2 ^ 32 + 50; callback = 1; ctx = 9 }

abbrev start : Machine
start = record {
  hw = ticking;
  log = [];
  waker = λ _. none;
  gpio_set = record { lower = 0; upper = 0 };
  driver = record { c1 = some alarm1; c3 = none };
}

-- A callback that wakes the task it is given.
abbrev wake_task : ℕ → ℕ → M (Unit {0})
wake_task f ctx = emit (woke ctx)

now-Between_example : Between clock start (now 2 start)
now-Between_example = now-Between 2 start clock (omega arith)

set_alarm_lem_example :
    SetAlarm clock 0 (2 ^ 32 + 20) alarm1 start (set_alarm 2 0 (2 ^ 32 + 20) start)
set_alarm_lem_example = set_alarm_lem 2 0 (2 ^ 32 + 20) alarm1 start clock (omega arith) refl

alarm_interrupt_lem_example :
    Rang
      (λ m. record m { log = left ∷ m.log })
      wake_task
      0
      alarm1
      start
      clock
      (alarm_interrupt wake_task 2 2 0 start)
alarm_interrupt_lem_example =
    alarm_interrupt_lem wake_task 2 2 0 alarm1 start clock (omega arith) (omega arith) refl

-- A callback that wakes the task it is given and sets the first alarm again, as a queue of timers
-- does, if that alarm is allocated.
abbrev requeue : ℕ → ℕ → M (Unit {0})
requeue f ctx s =
    let woken = record s { log = woke ctx ∷ s.log } in
    if is_allocated 0 (callbacks_of s.driver)
    then (tt, (do_op wake_task 2 2 (set_to 0 (2 ^ 32 + 90)) woken).1)
    else (tt, woken)

-- What it leaves alone, as setting an alarm does.
requeue-kept :
    (f ctx : ℕ) (s : Machine)
    → Clock s.hw
    → (callbacks_of (requeue f ctx s).1.driver ≡ callbacks_of s.driver)
      × ((requeue f ctx s).1.hw ≡ s.hw)
requeue-kept f ctx s c = elim (Bool-cases (is_allocated 0 (callbacks_of s.driver))) [
  | inl used ↦
      let woken = record s { log = woke ctx ∷ s.log } in
      let r = set_to-Kept wake_task 2 2 woken c (omega arith) 0 (2 ^ 32 + 90) used in
      rw used
        (ap (λ x. callbacks_of x.1.driver) r.is ∙ r.callbacks, ap (λ x. x.1.hw) r.is ∙ r.same_hw)
  | inr free ↦ rw free (refl, refl)
]

requeue-IsCallback : IsCallback requeue
requeue-IsCallback = record {
  same_callbacks = λ alarm f ctx s c e. (requeue-kept f ctx s c).0;
  same_hw = λ f ctx s c. (requeue-kept f ctx s c).1;
}

-- The first alarm gets a callback, is set and rings, and the second one is allocated.
abbrev calls : List Op
calls = register_callback 0 3 9 ∷ set_to 0 (2 ^ 32 + 20) ∷ rings 0 ∷ allocate ∷ []

do_ops-Kept_example :
    Kept start
      (record { first = some (3, 9); second = some (0, 0) })
      (do_ops requeue 2 2 calls start)
    × ((i : ℕ)
        → IsNullIf
            (fresh_after i calls (callbacks_of start.driver) false)
            (alarm_in i (do_ops requeue 2 2 calls start).1.driver))
do_ops-Kept_example =
    do_ops-Kept requeue 2 2 calls start clock requeue-IsCallback (omega arith) (omega arith)
      (tt, (refl, (refl, (tt, tt))))
