-- ===== src/Timer/Ring.antt =====
-- The interrupt of an alarm of src/system_time/driver.rs.
use rpi_devenv.Base.{
  ℕ, zero, suc, ◌≤◌, ◌≡◌, ◌⊎◌, ◌∙◌, Bool, true, false, some, List, ◌∷◌, ◌++◌, leb, if◌then◌else◌,
  Bool-cases, inl, inr, arith,
}
use rpi_devenv.Machine.{
  Machine, M, Event, AlarmState, SystemTimeDriver, stored, barrier, entered, left,
}
use rpi_devenv.Timer.Defs.{
  Outcome, returned, now, alarm_in, match_bit, set_alarm, system_time_cs, ring, alarm_interrupt,
}
use rpi_devenv.Timer.Clock.{Clock, now_lem}
use rpi_devenv.Timer.Alarm.{
  Ended, set_alarm_lem, stamped, stamped-others, AreOthersKept, put_in-alarm_in,
}

-- How the interrupt of the alarm with the state `a` may end: the callback is run, with the time
-- of the alarm come and cleared in its state; or the alarm is set again. `finish` comes after.
abbrev pub Rang :
    (Machine → Machine)
    → (ℕ → ℕ → M (Unit {0}))
    → ℕ
    → AlarmState
    → (s : Machine) → Clock s.hw
    → Outcome (Unit {0}) × Machine
    → Type 0
Rang finish call alarm a s c r =
    ((l : List Event) × (d : SystemTimeDriver) × (alarm_in alarm d
        ≡ some (record a { timestamp = 0 }))
      × AreOthersKept alarm s.driver d
      × (a.timestamp ≤ c.time l)
      × (r ≡ (returned tt, finish (call a.callback a.ctx (record s { log = l; driver = d })).1)))
    ⊎ ((l : List Event) × (d : SystemTimeDriver) × AreOthersKept alarm s.driver d
        × (Ended c alarm a.timestamp a true (record s { log = l; driver = d }))
        × (r ≡ (returned tt, finish (record s { log = l; driver = d }))))

module _ (call : ℕ → ℕ → M (Unit {0})) (rounds fuel alarm t : ℕ) (a : AlarmState) (s : Machine)
    (l : List Event) (first : now fuel s ≡ (returned t, record s { log = l })) where
  ring-come :
      leb a.timestamp t ≡ true
      → ring call (suc rounds) fuel alarm a s ≡ (
        returned tt,
        (call a.callback a.ctx (record s { log = l; driver = stamped alarm 0 a s.driver })).1,
      )
  unfolding ring
  ring-come e = ground (arith, first)

  module _ (b : Bool) (l' : List Event) (d' : SystemTimeDriver) (future : leb a.timestamp t ≡ false)
      (again : set_alarm fuel alarm a.timestamp (record s { log = l })
        ≡ (returned b, record s { log = l'; driver = d' })) where
    ring-future : ring call (suc rounds) fuel alarm a s ≡ (
        if b
        then (returned tt, record s { log = l'; driver = d' })
        else ring call rounds fuel alarm a (record s { log = l'; driver = d' }))
    unfolding ring
    ring-future = ground (arith, first, again, future)

module _ (call : ℕ → ℕ → M (Unit {0})) (rounds fuel alarm t : ℕ) (a : AlarmState) (s : Machine)
    (c : Clock s.hw) (l : List Event) (h : 2 ≤ fuel)
    (first : now fuel s ≡ (returned t, record s { log = l }))
    (future : leb a.timestamp t ≡ false) where
  ring-retry :
      (b : Bool) (l' : List Event) (d' : SystemTimeDriver)
      → set_alarm fuel alarm a.timestamp (record s { log = l })
        ≡ (returned b, record s { log = l'; driver = d' })
      → Ended c alarm a.timestamp a b (record s { log = l'; driver = d' })
      → AreOthersKept alarm s.driver d'
      → Rang (λ m. m) call alarm a s c (ring call (suc (suc rounds)) fuel alarm a s)
  ring-retry true l' d' e ended kept = inr (
    l',
    d',
    kept,
    ended,
    ring-future call (suc rounds) fuel alarm t a s l first true l' d' future e,
  )
  ring-retry false l' d' e ended kept =
      let s2 : Machine = record s { log = l'; driver = d' } in
      let n2 = now_lem fuel s2 c h in
      inl (
        n2.new ++ l',
        stamped alarm 0 a d',
        put_in-alarm_in alarm (some (record a { timestamp = 0 })) d',
        (λ other h'. stamped-others alarm 0 a d' other h' ∙ kept other h'),
        omega (arith, n2.after_call, n2.before_return, ended.0),
        ring-future call (suc rounds) fuel alarm t a s l first false l' d' future e
            ∙ ring-come call rounds fuel alarm n2.at a s2 (n2.new ++ l') n2.is
                (ground (arith, n2.after_call, ended.0)),
      )

ring_lem :
    (call : ℕ → ℕ → M (Unit {0})) (rounds fuel alarm : ℕ) (a : AlarmState) (s : Machine)
    (c : Clock s.hw)
    → 2 ≤ rounds
    → 2 ≤ fuel
    → alarm_in alarm s.driver ≡ some a
    → Rang (λ m. m) call alarm a s c (ring call rounds fuel alarm a s)
ring_lem call zero fuel alarm a s c k h set = absurd (omega arith)
ring_lem call (suc zero) fuel alarm a s c k h set = absurd (omega arith)
ring_lem call (suc (suc rounds)) fuel alarm a s c k h set =
    let n1 = now_lem fuel s c h in
    let l1 = n1.new ++ s.log in
    elim (Bool-cases (leb a.timestamp n1.at)) [
      | inl past ↦ inl (
        l1,
        stamped alarm 0 a s.driver,
        put_in-alarm_in alarm (some (record a { timestamp = 0 })) s.driver,
        stamped-others alarm 0 a s.driver,
        ground (arith, n1.before_return),
        ring-come call (suc rounds) fuel alarm n1.at a s l1 n1.is past,
      )
      | inr future ↦
          let s1 : Machine = record s { log = l1 } in
          let set2 = set_alarm_lem fuel alarm a.timestamp a s1 c h set in
          ring-retry call rounds fuel alarm n1.at a s c l1 h n1.is future set2.was_set set2.new_log
            set2.new_driver set2.is set2.ended set2.others_kept
    ]

-- The interrupt handler of an alarm that is allocated, given two rounds for its loop and for each
-- reading of the clock, returns and does not panic. Either it has run the alarm's callback on its
-- context, with the alarm's time come and cleared in the state; or it has set the alarm again
-- before its time came. The other alarm's state stays, but for what the callback does. The clock never runs back and moves by less than 2^29 ticks between two
-- events.
pub alarm_interrupt_lem :
    (call : ℕ → ℕ → M (Unit {0})) (rounds fuel alarm : ℕ) (a : AlarmState) (s : Machine)
    (c : Clock s.hw)
    → 2 ≤ rounds
    → 2 ≤ fuel
    → alarm_in alarm s.driver ≡ some a
    → Rang
        (λ m. record m { log = left ∷ m.log })
        call
        alarm
        a
        s
        c
        (alarm_interrupt call rounds fuel alarm s)
unfolding alarm_interrupt
alarm_interrupt_lem call rounds fuel alarm a s c k h set =
    let s1 : Machine = record s {
      log = entered ∷ stored system_time_cs (match_bit alarm) ∷ barrier ∷ s.log;
    } in
    elim (ring_lem call rounds fuel alarm a s1 c k h set) [
      | inl (l, d, kept, others, come, e) ↦ inl (l, d, kept, others, come, ground (arith, set, e))
      | inr (l, d, others, ended, e) ↦ inr (l, d, others, ended, ground (arith, set, e))
    ]
