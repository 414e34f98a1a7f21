-- ===== src/Timer/Defs.antt =====
-- The system timer of src/system_time/driver.rs: the clock, the two alarms, their interrupts.
-- An operation may panic, and a loop may use up its fuel.
use rpi_devenv.Base.{
  ℕ, zero, suc, ◌%◌, ◌^◌, bit_or, Bool, true, false, Option, none, some, ◌==◌, leb, if◌then◌else◌,
}
use rpi_devenv.Bits.{◌<<<◌}
use rpi_devenv.Machine.{Machine, M, AlarmState, SystemTimeDriver, read_volatile, write_volatile}
use rpi_devenv.Machine

abbrev pub system_time_cs : ℕ
system_time_cs = 0x20003000

abbrev pub system_time_clo : ℕ
system_time_clo = 0x20003004

abbrev pub system_time_chi : ℕ
system_time_chi = 0x20003008

abbrev pub system_time_c1 : ℕ
system_time_c1 = 0x20003010

abbrev pub system_time_c3 : ℕ
system_time_c3 = 0x20003018

-- How a call ended.
pub data Outcome (A : Type 0) : Type 0 where
  returned : A → Outcome A
  panicked out_of_fuel : Outcome A

abbrev pub T : Type 0 → Type 0
T A = M (Outcome A)

abbrev pub then_call : {A B : Type 0} → Outcome A → (A → T B) → T B
then_call (returned a) f s = f a s
then_call panicked f s = (panicked, s)
then_call out_of_fuel f s = (out_of_fuel, s)

infixl 5 ◌>>=◌ ◌>>◌
abbrev pub ◌>>=◌ : {A B : Type 0} → T A → (A → T B) → T B
◌>>=◌ m f s = then_call (m s).0 f (m s).1

abbrev pub ◌>>◌ : {A B : Type 0} → T A → T B → T B
◌>>◌ m k = m >>= (λ _. k)

abbrev pub lift : {A : Type 0} → M A → T A
lift m s = (returned (m s).0, (m s).1)

abbrev pub pure : {A : Type 0} → A → T A
pure a = lift (Machine.pure a)

-- `critical_section::with` around a call that may panic.
abbrev pub with_cs : {A : Type 0} → T A → T A
with_cs body = do
  lift (Machine.emit Machine.entered)
  r ← body
  lift (Machine.emit Machine.left)
  pure r

-- The handle of an alarm, by its number: 0 is the first compare register, any other the second.
abbrev pub alarm_in : ℕ → SystemTimeDriver → Option AlarmState
alarm_in i d = if i == 0 then d.c1 else d.c3

abbrev pub put_in : ℕ → Option AlarmState → SystemTimeDriver → SystemTimeDriver
put_in i a d = if i == 0 then record { c1 = a; c3 = d.c3 } else record { c1 = d.c1; c3 = a }

abbrev pub get_alarm : ℕ → M (Option AlarmState)
get_alarm i s = (alarm_in i s.driver, s)

abbrev pub put_alarm : ℕ → Option AlarmState → M (Unit {0})
put_alarm i a s = (tt, record s { driver = put_in i a s.driver })

abbrev pub expect : Option AlarmState → T AlarmState
expect none s = (panicked, s)
expect (some a) s = (returned a, s)

unfoldable pub now : ℕ → T ℕ
now zero s = (out_of_fuel, s)
now (suc fuel) s =
    (do
      lift Machine.data_memory_barrier
      hi ← lift (read_volatile system_time_chi)
      lo ← lift (read_volatile system_time_clo)
      check ← lift (read_volatile system_time_chi)
      let again = now fuel
      if check == hi then pure (bit_or (hi <<< 32) lo) else again)
      s

-- `AlarmState::null()`, whose callback is the number 0: it does nothing.
abbrev pub null : AlarmState
null = record { timestamp = 0; callback = 0; ctx = 0 }

unfoldable pub allocate_alarm : T (Option ℕ)
allocate_alarm = with_cs (do
  c1 ← lift (get_alarm 0)
  c3 ← lift (get_alarm 1)
  elim c1 [
    | none ↦ do lift (put_alarm 0 (some null)); pure (some 0)
    | some _ ↦ elim c3 [
      | none ↦ do lift (put_alarm 1 (some null)); pure (some 1)
      | some _ ↦ pure none
    ]
  ])

unfoldable pub set_alarm_callback : ℕ → ℕ → ℕ → T (Unit {0})
set_alarm_callback alarm callback ctx =
    with_cs
      (lift (put_alarm alarm (some (record { timestamp = 0; callback = callback; ctx = ctx }))))

-- Take the alarm's state, or panic; put it back with another time.
abbrev pub restamp : ℕ → ℕ → T (Unit {0})
restamp alarm timestamp = with_cs (do
  old ← lift (get_alarm alarm)
  lift (put_alarm alarm none)
  state ← expect old
  lift (put_alarm alarm (some (record state { timestamp = timestamp }))))

abbrev pub compare_reg : ℕ → ℕ
compare_reg alarm = if alarm == 0 then system_time_c1 else system_time_c3

abbrev pub match_bit : ℕ → ℕ
match_bit alarm = if alarm == 0 then 1 <<< 1 else 1 <<< 3

unfoldable pub set_alarm : ℕ → ℕ → ℕ → T Bool
set_alarm fuel alarm timestamp = do
  t ← now fuel
  if leb timestamp t then pure false else (do
    restamp alarm timestamp
    lift Machine.data_memory_barrier
    lift (write_volatile (compare_reg alarm) (timestamp % 2 ^ 32))
    t' ← now fuel
    if leb timestamp t'
        then (do
          lift (write_volatile system_time_cs (match_bit alarm))
          restamp alarm 0
          pure false)
        else pure true)

-- The loop of `alarm_interrupt`, on its own fuel. `call` runs a callback on its context.
unfoldable pub ring : (ℕ → ℕ → M (Unit {0})) → ℕ → ℕ → ℕ → AlarmState → T (Unit {0})
ring call zero fuel alarm a s = (out_of_fuel, s)
ring call (suc rounds) fuel alarm a s =
    (do
      let again = ring call rounds fuel alarm a
      t ← now fuel
      if leb a.timestamp t
          then (do
            lift (put_alarm alarm (some (record a { timestamp = 0 })))
            lift (call a.callback a.ctx))
          else (do was_set ← set_alarm fuel alarm a.timestamp; if was_set then pure tt else again))
      s

unfoldable pub alarm_interrupt : (ℕ → ℕ → M (Unit {0})) → ℕ → ℕ → ℕ → T (Unit {0})
alarm_interrupt call rounds fuel alarm = do
  lift Machine.data_memory_barrier
  lift (write_volatile system_time_cs (match_bit alarm))
  with_cs (do old ← lift (get_alarm alarm); a ← expect old; ring call rounds fuel alarm a)

-- The interrupt handlers of the two compare registers, called by src/interrupt.rs.
unfoldable pub handler_c1 : (ℕ → ℕ → M (Unit {0})) → ℕ → ℕ → T (Unit {0})
handler_c1 call rounds fuel = alarm_interrupt call rounds fuel 0

unfoldable pub handler_c3 : (ℕ → ℕ → M (Unit {0})) → ℕ → ℕ → T (Unit {0})
handler_c3 call rounds fuel = alarm_interrupt call rounds fuel 1
