-- ===== src/Timer/Alarm.antt =====
-- Setting an alarm of src/system_time/driver.rs: what a call that reports it set leaves.
use rpi_devenv.Base.{
  ℕ, ◌%◌, ◌^◌, ◌≤◌, ◌<◌, ◌≡◌, ◌≢◌, ◌⊎◌, refl, ◌∙◌, Bool, true, false, Option, none, some, List, ◌∷◌,
  ◌++◌, ◌==◌, leb, Bool-cases, inl, inr, arith,
}
use rpi_devenv.Machine.{
  Machine, Event, AlarmState, SystemTimeDriver, stored, barrier, entered, left,
}
use rpi_devenv.Timer.Defs.{
  Outcome, returned, panicked, out_of_fuel, now, alarm_in, put_in, restamp, compare_reg, match_bit,
  set_alarm, system_time_cs, null, allocate_alarm,
}
use rpi_devenv.Timer.Clock.{Clock, now_lem, last_stored}

last_stored-stored : (a v : ℕ) (l : List Event) → last_stored a (stored a v ∷ l) ≡ some v
unfolding last_stored
last_stored-stored a v l = ground arith

pub put_in-alarm_in :
    (i : ℕ) (x : Option AlarmState) (d : SystemTimeDriver) → alarm_in i (put_in i x d) ≡ x
put_in-alarm_in i x d = ground arith

put_in-put_in :
    (i : ℕ) (x y : Option AlarmState) (d : SystemTimeDriver)
    → put_in i x (put_in i y d) ≡ put_in i x d
put_in-put_in i x y d = ground arith

abbrev pub stamped : ℕ → ℕ → AlarmState → SystemTimeDriver → SystemTimeDriver
stamped alarm timestamp a d = put_in alarm (some (record a { timestamp = timestamp })) d

restamp_lem :
    (alarm timestamp : ℕ) (a : AlarmState) (s : Machine)
    → alarm_in alarm s.driver ≡ some a
    → restamp alarm timestamp s ≡ (
      returned tt,
      record s { log = left ∷ entered ∷ s.log; driver = stamped alarm timestamp a s.driver },
    )
restamp_lem alarm timestamp a s e = ground (arith, put_in-put_in alarm)

module _ (fuel alarm timestamp t : ℕ) (a : AlarmState) (s : Machine) (l : List Event)
    (set : alarm_in alarm s.driver ≡ some a)
    (first : now fuel s ≡ (returned t, record s { log = l })) where
  set_alarm-past :
      leb timestamp t ≡ true
      → set_alarm fuel alarm timestamp s ≡ (returned false, record s { log = l })
  unfolding set_alarm
  set_alarm-past e = ground (arith, first)

  abbrev written_log : List Event
  written_log = stored (compare_reg alarm) (timestamp % 2 ^ 32) ∷ barrier ∷ left ∷ entered ∷ l

  abbrev armed : Machine
  armed = record s { log = written_log; driver = stamped alarm timestamp a s.driver }

  module _ (t' : ℕ) (l' : List Event) (future : leb timestamp t ≡ false)
      (second : now fuel armed ≡ (returned t', record armed { log = l' })) where
    set_alarm-set :
        leb timestamp t' ≡ false
        → set_alarm fuel alarm timestamp s ≡ (returned true, record armed { log = l' })
    unfolding set_alarm
    set_alarm-set e =
        ground (arith, first, second, restamp_lem alarm timestamp a (record s { log = l }) set)

    abbrev undone : Machine
    undone = record s {
      log = left ∷ entered ∷ stored system_time_cs (match_bit alarm) ∷ l';
      driver = stamped alarm 0 a s.driver;
    }

    set_alarm-late :
        leb timestamp t' ≡ true → set_alarm fuel alarm timestamp s ≡ (returned false, undone)
    unfolding set_alarm
    set_alarm-late e =
        let a' : AlarmState = record a { timestamp = timestamp } in
        let late : Machine = record armed { log = stored system_time_cs (match_bit alarm) ∷ l' } in
        ground (
          arith,
          first,
          second,
          restamp_lem alarm timestamp a (record s { log = l }) set,
          restamp_lem alarm 0 a' late (put_in-alarm_in alarm (some a') s.driver),
          put_in-put_in alarm (some (record a { timestamp = 0 })) (some a') s.driver,
        )

-- How a call of `set_alarm` for the time `timestamp` may end, `a` being the alarm's state before
-- it. Set: the compare register holds the low half of the time since a moment before that time,
-- and the state holds the time. Not set: the time has come.
abbrev pub Ended :
    {hw : List Event → ℕ → ℕ} → Clock hw → ℕ → ℕ → AlarmState → Bool → Machine → Type 0
Ended c alarm timestamp a true s =
    (alarm_in alarm s.driver ≡ some (record a { timestamp = timestamp }))
    × (last_stored (compare_reg alarm) s.log ≡ some (timestamp % 2 ^ 32))
    × (later : List Event) × (earlier : List Event) × (s.log ≡ later ++ earlier)
    × (last_stored (compare_reg alarm) earlier ≡ some (timestamp % 2 ^ 32))
    × (c.time earlier < timestamp)
Ended c alarm timestamp a false s =
    (timestamp ≤ c.time s.log)
    × (kept : ℕ) × (alarm_in alarm s.driver ≡ some (record a { timestamp = kept }))
    × ((kept ≡ a.timestamp) ⊎ (kept ≡ 0))

-- The alarms with another number have the state in `d` that they have in `d'`.
abbrev pub AreOthersKept : ℕ → SystemTimeDriver → SystemTimeDriver → Type 0
AreOthersKept alarm d' d =
    (other : ℕ) → (other == 0) ≢ (alarm == 0) → alarm_in other d ≡ alarm_in other d'

pub record SetAlarm {hw : List Event → ℕ → ℕ} (c : Clock hw) (alarm timestamp : ℕ) (a : AlarmState)
    (s : Machine) (r : Outcome Bool × Machine) : Type 0 where
  pub was_set : Bool
  pub new_log : List Event
  pub new_driver : SystemTimeDriver
  pub is : r ≡ (returned was_set, record s { log = new_log; driver = new_driver })
  pub ended : Ended c alarm timestamp a was_set (record s { log = new_log; driver = new_driver })
  pub others_kept : AreOthersKept alarm s.driver new_driver

pub stamped-others :
    (alarm timestamp : ℕ) (a : AlarmState) (d : SystemTimeDriver)
    → AreOthersKept alarm d (stamped alarm timestamp a d)
stamped-others alarm timestamp a d other h = ground arith

-- `set_alarm` on an alarm that is allocated, given two rounds for each reading of the clock,
-- returns and does not panic. If it reports the alarm set, the compare register got the low half
-- of the time before that time came, and the alarm's state holds the time. If it reports that it
-- is not set, the time has come; the state has its callback and context, and its old time or 0.
-- The other alarm's state stays. The clock never runs back and moves by less than 2^29 ticks
-- between two events.
pub set_alarm_lem :
    (fuel alarm timestamp : ℕ) (a : AlarmState) (s : Machine) (c : Clock s.hw)
    → 2 ≤ fuel
    → alarm_in alarm s.driver ≡ some a
    → SetAlarm c alarm timestamp a s (set_alarm fuel alarm timestamp s)
set_alarm_lem fuel alarm timestamp a s c h set =
    let n1 = now_lem fuel s c h in
    let l1 = n1.new ++ s.log in
    let s1 = armed fuel alarm timestamp n1.at a s l1 set n1.is in
    let n2 = now_lem fuel s1 c h in
    let l2 = n2.new ++ s1.log in
    let written =
      last_stored-stored (compare_reg alarm) (timestamp % 2 ^ 32) (barrier ∷ left ∷ entered ∷ l1) in
    elim (Bool-cases (leb timestamp n1.at)) [
      | inl past ↦ record {
        was_set = false;
        new_log = l1;
        new_driver = s.driver;
        is = set_alarm-past fuel alarm timestamp n1.at a s l1 set n1.is past;
        ended = (ground (arith, n1.before_return), a.timestamp, set, inl refl);
        others_kept = λ other h. refl;
      }
      | inr future ↦ elim (Bool-cases (leb timestamp n2.at)) [
        | inl late ↦ record {
          was_set = false;
          new_log = left ∷ entered ∷ stored system_time_cs (match_bit alarm) ∷ l2;
          new_driver = stamped alarm 0 a s.driver;
          is =
              set_alarm-late fuel alarm timestamp n1.at a s l1 set n1.is n2.at l2 future n2.is late;
          ended = (
            ground (
              arith,
              n2.before_return,
              c.grows left (entered ∷ stored system_time_cs (match_bit alarm) ∷ l2),
              c.grows entered (stored system_time_cs (match_bit alarm) ∷ l2),
              c.grows (stored system_time_cs (match_bit alarm)) l2,
            ),
            0,
            put_in-alarm_in alarm (some (record a { timestamp = 0 })) s.driver,
            inr refl,
          );
          others_kept = stamped-others alarm 0 a s.driver;
        }
        | inr good ↦ record {
          was_set = true;
          new_log = l2;
          new_driver = stamped alarm timestamp a s.driver;
          is = set_alarm-set fuel alarm timestamp n1.at a s l1 set n1.is n2.at l2 future n2.is good;
          ended = (
            put_in-alarm_in alarm (some (record a { timestamp = timestamp })) s.driver,
            n2.silent (compare_reg alarm) ∙ written,
            n2.new,
            s1.log,
            refl,
            written,
            ground (arith, n2.after_call),
          );
          others_kept = stamped-others alarm timestamp a s.driver;
        }
      ]
    ]

-- What `allocate_alarm` may return from `s`, and with it leave: the handle of an alarm that was
-- free and has the null state now, or none if no alarm is free.
abbrev pub Allocated : Machine → Outcome (Option ℕ) × Machine → Type 0
Allocated s (returned (some i), t) =
    (alarm_in i s.driver ≡ none) × (t.driver ≡ put_in i (some null) s.driver)
Allocated s (returned none, t) =
    (alarm_in 0 s.driver ≢ none) × (alarm_in 1 s.driver ≢ none) × (t.driver ≡ s.driver)
Allocated s (panicked, t) = ⊥
Allocated s (out_of_fuel, t) = ⊥

allocate-Allocated :
    (s : Machine) (x y : Option AlarmState)
    → s.driver.c1 ≡ x
    → s.driver.c3 ≡ y
    → Allocated s (allocate_alarm s)
unfolding allocate_alarm
allocate-Allocated s none y e f = ground (arith, e)
allocate-Allocated s (some a) none e f = ground (arith, e, f)
allocate-Allocated s (some a) (some b) e f = ground (arith, e, f)

-- `allocate_alarm` gives the handle of an alarm that was free, which is then taken with the null
-- state, the other alarm staying as it is; if neither is free it gives none and changes nothing.
pub allocate_alarm_lem : (s : Machine) → Allocated s (allocate_alarm s)
allocate_alarm_lem s = allocate-Allocated s s.driver.c1 s.driver.c3 refl refl
