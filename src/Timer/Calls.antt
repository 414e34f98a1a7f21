-- ===== src/Timer/Calls.antt =====
-- Sequences of calls of the driver in src/system_time/driver.rs and of its alarms' interrupts, and
-- what they should leave registered.
use rpi_devenv.Base.{
  ℕ, ◌≡◌, Bool, true, false, not, ◌&&◌, ◌||◌, Option, none, some, List, [], ◌∷◌, ◌==◌,
  if◌then◌else◌,
}
use rpi_devenv.Machine.{Machine, M, AlarmState, SystemTimeDriver, is_some}
use rpi_devenv.Timer.Defs.{
  Outcome, returned, T, ◌>>◌, pure, alarm_in, allocate_alarm, set_alarm_callback, set_alarm,
  alarm_interrupt,
}
use rpi_devenv.Timer.Clock.{Clock}

-- The driver's calls, and the interrupt of an alarm.
pub data Op : Type 0 where
  allocate : Op
  register_callback : ℕ → ℕ → ℕ → Op
  set_to : ℕ → ℕ → Op
  rings : ℕ → Op

unfoldable pub do_op : (ℕ → ℕ → M (Unit {0})) → ℕ → ℕ → Op → T (Unit {0})
do_op call rounds fuel allocate = do allocate_alarm; pure tt
do_op call rounds fuel (register_callback alarm f ctx) = set_alarm_callback alarm f ctx
do_op call rounds fuel (set_to alarm timestamp) = do set_alarm fuel alarm timestamp; pure tt
do_op call rounds fuel (rings alarm) = alarm_interrupt call rounds fuel alarm

unfoldable pub do_ops : (ℕ → ℕ → M (Unit {0})) → ℕ → ℕ → List Op → T (Unit {0})
do_ops call rounds fuel [] = pure tt
do_ops call rounds fuel (o ∷ os) = do do_op call rounds fuel o; do_ops call rounds fuel os

-- The specification: for each alarm, if it is allocated, its callback and context.
pub record Callbacks : Type 0 where
  pub first : Option (ℕ × ℕ)
  pub second : Option (ℕ × ℕ)

abbrev pub callback_of : Option AlarmState → Option (ℕ × ℕ)
callback_of none = none
callback_of (some a) = some (a.callback, a.ctx)

abbrev pub callbacks_of : SystemTimeDriver → Callbacks
callbacks_of d = record { first = callback_of d.c1; second = callback_of d.c3 }

abbrev pub is_allocated : ℕ → Callbacks → Bool
is_allocated alarm k = if alarm == 0 then is_some k.first else is_some k.second

abbrev pub step : Op → Callbacks → Callbacks
step allocate k =
    if is_some k.first
    then (if is_some k.second then k else record { first = k.first; second = some (0, 0) })
    else record { first = some (0, 0); second = k.second }
step (register_callback alarm f ctx) k =
    if alarm == 0
    then record { first = some (f, ctx); second = k.second }
    else record { first = k.first; second = some (f, ctx) }
step (set_to alarm timestamp) k = k
step (rings alarm) k = k

abbrev pub steps : List Op → Callbacks → Callbacks
steps [] k = k
steps (o ∷ os) k = steps os (step o k)

abbrev pub same_alarm : ℕ → ℕ → Bool
same_alarm alarm i = if alarm == 0 then i == 0 else not (i == 0)

-- Is an alarm known to be as it was allocated? A callback that ran may have set any alarm.
abbrev pub fresh_step : ℕ → Op → Callbacks → Bool → Bool
fresh_step i allocate k b = b || (is_allocated i (step allocate k) && not (is_allocated i k))
fresh_step i (register_callback alarm f ctx) k b = b && not (same_alarm alarm i)
fresh_step i (set_to alarm timestamp) k b = b && not (same_alarm alarm i)
fresh_step i (rings alarm) k b = false

abbrev pub fresh_after : ℕ → List Op → Callbacks → Bool → Bool
fresh_after i [] k b = b
fresh_after i (o ∷ os) k b = fresh_after i os (step o k) (fresh_step i o k b)

-- The state of `AlarmState::null()`, if the flag is set.
abbrev pub IsNullIf : Bool → Option AlarmState → Type 0
IsNullIf true x = x ≡ some (record { timestamp = 0; callback = 0; ctx = 0 })
IsNullIf false x = Unit {0}

-- Only an alarm that is allocated is set or rings.
abbrev pub IsUsable : Op → Callbacks → Type 0
IsUsable (set_to alarm timestamp) k = is_allocated alarm k ≡ true
IsUsable (rings alarm) k = is_allocated alarm k ≡ true
IsUsable _ k = Unit {0}

abbrev pub AreUsable : List Op → Callbacks → Type 0
AreUsable [] k = Unit {0}
AreUsable (o ∷ os) k = IsUsable o k × AreUsable os (step o k)

-- A callback, run with the alarm registered for it in a machine whose clock runs: it may wake tasks
-- and set the alarms again, as the queue of embassy-time does, but registers no callback.
pub record IsCallback (call : ℕ → ℕ → M (Unit {0})) : Type 1 where
  pub same_callbacks :
      (alarm f ctx : ℕ) (s : Machine)
      → Clock s.hw
      → callback_of (alarm_in alarm s.driver) ≡ some (f, ctx)
      → callbacks_of (call f ctx s).1.driver ≡ callbacks_of s.driver
  pub same_hw : (f ctx : ℕ) (s : Machine) → Clock s.hw → (call f ctx s).1.hw ≡ s.hw

-- The call returned, and the driver's callbacks are `k`.
pub record Kept (s : Machine) (k : Callbacks) (r : Outcome (Unit {0}) × Machine) : Type 0 where
  pub after : Machine
  pub is : r ≡ (returned tt, after)
  pub callbacks : callbacks_of after.driver ≡ k
  pub same_hw : after.hw ≡ s.hw
