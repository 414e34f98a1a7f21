-- ===== src/Interrupt/Alarms.antt =====
-- An alarm of src/system_time/driver.rs from `set_alarm` to its interrupt, through the dispatch of
-- src/interrupt.rs.
use rpi_devenv.Base.{
  ℕ, zero, suc, ◌≤◌, ◌<◌, ◌≡◌, sym, ap, ◌∙◌, Bool, true, false, not, some, List, ◌∷◌, ◌==◌, inl,
  inr, arith,
}
use rpi_devenv.Bits.{bit, has-shl}
use rpi_devenv.Machine.{Machine, M, Event, AlarmState, left}
use rpi_devenv.Timer.Defs.{
  Outcome, returned, alarm_in, set_alarm, alarm_interrupt, handler_c1, handler_c3,
}
use rpi_devenv.Timer.Clock.{Clock}
use rpi_devenv.Timer.Alarm.{Ended, set_alarm_lem}
use rpi_devenv.Timer.Ring.{Rang, alarm_interrupt_lem}
use rpi_devenv.Interrupt.Defs.{
  irq_pending_1, handle_pending, dispatch, run_handler, interrupt_handler,
}
use rpi_devenv.Interrupt.Dispatch.{basic_of, pending_of, entered_handler, closed}

-- Of the interrupts that have a handler, only the one of this alarm is pending.
pub record IsAlarmOnly (alarm : ℕ) (s : Machine) : Type 0 where
  pub first : bit 8 (basic_of s) ≡ true
  pub second : bit 9 (basic_of s) ≡ false
  pub c1 : bit 1 (pending_of irq_pending_1 s) ≡ (alarm == 0)
  pub c3 : bit 3 (pending_of irq_pending_1 s) ≡ not (alarm == 0)
  pub aux_bit : bit 29 (pending_of irq_pending_1 s) ≡ false

module _ (call : ℕ → ℕ → M (Unit {0})) (rounds fuel : ℕ) (s t : Machine) where
  interrupt_handler-c1 :
      IsAlarmOnly 0 s
      → alarm_interrupt call rounds fuel 0 (entered_handler irq_pending_1 s) ≡ (returned tt, t)
      → interrupt_handler call rounds fuel s ≡ (returned tt, closed t)
  unfolding interrupt_handler dispatch handle_pending run_handler handler_c1
  interrupt_handler-c1 h e =
      let x = basic_of s in
      let y = pending_of irq_pending_1 s in
      ground (arith, has-shl x 8, has-shl x 9, has-shl y 1, has-shl y 3, has-shl y 29, h, e)

  interrupt_handler-c3 :
      IsAlarmOnly 1 s
      → alarm_interrupt call rounds fuel 1 (entered_handler irq_pending_1 s) ≡ (returned tt, t)
      → interrupt_handler call rounds fuel s ≡ (returned tt, closed t)
  unfolding interrupt_handler dispatch handle_pending run_handler handler_c3
  interrupt_handler-c3 h e =
      let x = basic_of s in
      let y = pending_of irq_pending_1 s in
      ground (arith, has-shl x 8, has-shl x 9, has-shl y 1, has-shl y 3, has-shl y 29, h, e)

  interrupt_handler-alarm :
      (alarm : ℕ)
      → alarm < 2
      → IsAlarmOnly alarm s
      → alarm_interrupt call rounds fuel alarm (entered_handler irq_pending_1 s) ≡ (returned tt, t)
      → interrupt_handler call rounds fuel s ≡ (returned tt, closed t)
  interrupt_handler-alarm zero n h e = interrupt_handler-c1 h e
  interrupt_handler-alarm (suc zero) n h e = interrupt_handler-c3 h e
  interrupt_handler-alarm (suc (suc k)) n h e = absurd (omega arith)

module _ (call : ℕ → ℕ → M (Unit {0})) (rounds fuel alarm : ℕ) (a : AlarmState) (s : Machine)
    (c : Clock s.hw) (n : alarm < 2) (only : IsAlarmOnly alarm s) where
  interrupt_handler-Rang :
      Rang
        (λ m. record m { log = left ∷ m.log })
        call
        alarm
        a
        (entered_handler irq_pending_1 s)
        c
        (alarm_interrupt call rounds fuel alarm (entered_handler irq_pending_1 s))
      → Rang
          (λ m. closed (record m { log = left ∷ m.log }))
          call
          alarm
          a
          (entered_handler irq_pending_1 s)
          c
          (interrupt_handler call rounds fuel s)
  interrupt_handler-Rang (inl (l, d, kept, others, come, e)) =
      inl (l, d, kept, others, come, interrupt_handler-alarm call rounds fuel s _ alarm n only e)
  interrupt_handler-Rang (inr (l, d, others, ended, e)) =
      inr (l, d, others, ended, interrupt_handler-alarm call rounds fuel s _ alarm n only e)

Ended-holds :
    {hw : List Event → ℕ → ℕ} (c : Clock hw) (alarm timestamp : ℕ) (a : AlarmState) (b : Bool)
    (t u : Machine)
    → Ended c alarm timestamp a b t
    → ◌≡◌ {A = Outcome Bool × Machine} (returned b, t) (returned true, u)
    → alarm_in alarm u.driver ≡ some (record a { timestamp = timestamp })
Ended-holds c alarm timestamp a true t u h e =
    let same : t.driver ≡ u.driver = ap (λ r. r.1.driver) e in rw (sym same) h.0
Ended-holds c alarm timestamp a false t u h e =
    let same : ◌≡◌ {A = Outcome Bool} (returned false) (returned true) = ap (λ r. r.0) e in cc

set_alarm-holds :
    (fuel alarm timestamp : ℕ) (a : AlarmState) (s u : Machine) (c : Clock s.hw)
    → 2 ≤ fuel
    → alarm_in alarm s.driver ≡ some a
    → set_alarm fuel alarm timestamp s ≡ (returned true, u)
    → alarm_in alarm u.driver ≡ some (record a { timestamp = timestamp })
set_alarm-holds fuel alarm timestamp a s u c h set e =
    let done = set_alarm_lem fuel alarm timestamp a s c h set in
    let t : Machine = record s { log = done.new_log; driver = done.new_driver } in
    Ended-holds c alarm timestamp a done.was_set t u done.ended (sym done.is ∙ e)

-- An alarm that is set is served through the dispatch: when `set_alarm` has reported the alarm
-- set, and later, the other handlers not having touched the driver, the processor is interrupted
-- with only this alarm's interrupt pending, the interrupt returns and does not panic. Either it
-- has run the alarm's callback on its context, with the time that was set come and cleared in the
-- state; or it has set the alarm again before that time came. The loops get two rounds, the clock
-- never runs back and moves by less than 2^29 ticks between two events.
pub set_alarm-interrupt_handler-rings :
    (call : ℕ → ℕ → M (Unit {0})) (rounds fuel alarm timestamp : ℕ) (a : AlarmState) (s u : Machine)
    (c : Clock s.hw) (l : List Event)
    → alarm < 2
    → 2 ≤ rounds
    → 2 ≤ fuel
    → alarm_in alarm s.driver ≡ some a
    → set_alarm fuel alarm timestamp s ≡ (returned true, u)
    → let t : Machine = record s { log = l; driver = u.driver } in
      IsAlarmOnly alarm t
      → let t : Machine = record s { log = l; driver = u.driver } in
        Rang
          (λ m. closed (record m { log = left ∷ m.log }))
          call
          alarm
          (record a { timestamp = timestamp })
          (entered_handler irq_pending_1 t)
          c
          (interrupt_handler call rounds fuel t)
set_alarm-interrupt_handler-rings call rounds fuel alarm timestamp a s u c l n k h set e only =
    let t : Machine = record s { log = l; driver = u.driver } in
    let a' : AlarmState = record a { timestamp = timestamp } in
    interrupt_handler-Rang call rounds fuel alarm a' t c n only (
      alarm_interrupt_lem call rounds fuel alarm a' (entered_handler irq_pending_1 t) c k h
        (set_alarm-holds fuel alarm timestamp a s u c h set e))
