-- ===== src/Timer/Registered.antt =====
-- What the calls of the driver in src/system_time/driver.rs leave registered for its alarms.
use rpi_devenv.Base.{
  ℕ, zero, suc, ◌≤◌, ◌≡◌, refl, sym, ap, ◌∙◌, Bool, true, false, Option, none, some, List, [], ◌∷◌,
  inl, inr, arith,
}
use rpi_devenv.Base.{subst}
use rpi_devenv.Machine.{Machine, M, Event, AlarmState, SystemTimeDriver, left, is_some}
use rpi_devenv.Timer.Defs.{Outcome, alarm_in, allocate_alarm, set_alarm_callback}
use rpi_devenv.Timer.Clock.{Clock}
use rpi_devenv.Timer.Alarm.{Ended, AreOthersKept, set_alarm_lem}
use rpi_devenv.Timer.Ring.{Rang, alarm_interrupt_lem}
use rpi_devenv.Timer.Calls.{
  Op, allocate, register_callback, set_to, rings, do_op, do_ops, callback_of, callbacks_of,
  is_allocated, step, steps, IsUsable, AreUsable, IsCallback, Kept,
}

some-state :
    (x : Option AlarmState) → is_some (callback_of x) ≡ true → (a : AlarmState) × (x ≡ some a)
some-state none h = cc
some-state (some a) h = (a, refl)

pub allocated-state :
    (alarm : ℕ) (d : SystemTimeDriver)
    → is_allocated alarm (callbacks_of d) ≡ true
    → (a : AlarmState) × (alarm_in alarm d ≡ some a)
allocated-state alarm d h = some-state (alarm_in alarm d) (ground arith)

same-callbacks :
    (d d' : SystemTimeDriver)
    → callback_of d'.c1 ≡ callback_of d.c1
    → callback_of d'.c3 ≡ callback_of d.c3
    → callbacks_of d' ≡ callbacks_of d
same-callbacks d d' e f = rw (e, f) refl

callbacks-restamped :
    (alarm kept : ℕ) (a : AlarmState) (d d' : SystemTimeDriver)
    → alarm_in alarm d ≡ some a
    → alarm_in alarm d' ≡ some (record a { timestamp = kept })
    → AreOthersKept alarm d d'
    → callbacks_of d' ≡ callbacks_of d
callbacks-restamped zero kept a d d' e f others =
    let g : d'.c3 ≡ d.c3 = others 1 (ground arith) in
    same-callbacks d d' (ap callback_of f ∙ sym (ap callback_of e)) (ap callback_of g)
callbacks-restamped (suc n) kept a d d' e f others =
    let g : d'.c1 ≡ d.c1 = others 0 (ground arith) in
    let e' : d.c3 ≡ some a = ground arith in
    let f' : d'.c3 ≡ some (record a { timestamp = kept }) = ground arith in
    same-callbacks d d' (ap callback_of g) (ap callback_of f' ∙ sym (ap callback_of e'))

Ended-callbacks :
    {hw : List Event → ℕ → ℕ} (c : Clock hw) (alarm timestamp : ℕ) (a : AlarmState) (b : Bool)
    (d : SystemTimeDriver) (t : Machine)
    → alarm_in alarm d ≡ some a
    → AreOthersKept alarm d t.driver
    → Ended c alarm timestamp a b t
    → callbacks_of t.driver ≡ callbacks_of d
Ended-callbacks c alarm timestamp a true d t e others h =
    callbacks-restamped alarm timestamp a d t.driver e h.0 others
Ended-callbacks c alarm timestamp a false d t e others (come, kept, f, _) =
    callbacks-restamped alarm kept a d t.driver e f others

module _ (call : ℕ → ℕ → M (Unit {0})) (rounds fuel : ℕ) (s : Machine) where
  allocate-Kept : Kept s (step allocate (callbacks_of s.driver)) (do_op call rounds fuel allocate s)
  unfolding do_op allocate_alarm
  allocate-Kept = record {
    after = (do_op call rounds fuel allocate s).1;
    is = ground arith;
    callbacks = ground arith;
    same_hw = ground arith;
  }

  register_callback-Kept :
      (alarm f ctx : ℕ)
      → Kept s
          (step (register_callback alarm f ctx) (callbacks_of s.driver))
          (do_op call rounds fuel (register_callback alarm f ctx) s)
  unfolding do_op set_alarm_callback
  register_callback-Kept alarm f ctx = record {
    after = _;
    is = refl;
    callbacks = ground arith;
    same_hw = refl;
  }

  module _ (c : Clock s.hw) (h : 2 ≤ fuel) where
    pub set_to-Kept :
        (alarm timestamp : ℕ)
        → is_allocated alarm (callbacks_of s.driver) ≡ true
        → Kept s (callbacks_of s.driver) (do_op call rounds fuel (set_to alarm timestamp) s)
    unfolding do_op
    set_to-Kept alarm timestamp used =
        let (a, e) = allocated-state alarm s.driver used in
        let r = set_alarm_lem fuel alarm timestamp a s c h e in
        let t : Machine = record s { log = r.new_log; driver = r.new_driver } in
        record {
          after = t;
          is = rw r.is refl;
          callbacks =
              Ended-callbacks c alarm timestamp a r.was_set s.driver t e r.others_kept r.ended;
          same_hw = refl;
        }

    Rang-Kept :
        (alarm : ℕ) (a : AlarmState) (r : Outcome (Unit {0}) × Machine)
        → IsCallback call
        → alarm_in alarm s.driver ≡ some a
        → Rang (λ m. record m { log = left ∷ m.log }) call alarm a s c r
        → Kept s (callbacks_of s.driver) r
    Rang-Kept alarm a r runs e (inl (l, d, kept, others, come, is)) =
        let t : Machine = record s { log = l; driver = d } in
        let u = (call a.callback a.ctx t).1 in
        record {
          after = record u { log = left ∷ u.log };
          is = is;
          callbacks =
              runs.same_callbacks alarm a.callback a.ctx t c (ap callback_of kept)
              ∙ callbacks-restamped alarm 0 a s.driver d e kept others;
          same_hw = runs.same_hw a.callback a.ctx t c;
        }
    Rang-Kept alarm a r runs e (inr (l, d, others, ended, is)) =
        let t : Machine = record s { log = l; driver = d } in
        record {
          after = record t { log = left ∷ l };
          is = is;
          callbacks = Ended-callbacks c alarm a.timestamp a true s.driver t e others ended;
          same_hw = refl;
        }

    pub do_op-Kept :
        (o : Op)
        → IsCallback call
        → 2 ≤ rounds
        → IsUsable o (callbacks_of s.driver)
        → Kept s (step o (callbacks_of s.driver)) (do_op call rounds fuel o s)
    unfolding do_op
    do_op-Kept allocate runs k used = allocate-Kept
    do_op-Kept (register_callback alarm f ctx) runs k used = register_callback-Kept alarm f ctx
    do_op-Kept (set_to alarm timestamp) runs k used = set_to-Kept alarm timestamp used
    do_op-Kept (rings alarm) runs k used =
        let (a, e) = allocated-state alarm s.driver used in
        Rang-Kept alarm a (do_op call rounds fuel (rings alarm) s) runs e
          (alarm_interrupt_lem call rounds fuel alarm a s c k h e)

pub do_ops-callbacks :
    (call : ℕ → ℕ → M (Unit {0})) (rounds fuel : ℕ) (os : List Op) (s : Machine) (c : Clock s.hw)
    → IsCallback call
    → 2 ≤ rounds
    → 2 ≤ fuel
    → AreUsable os (callbacks_of s.driver)
    → Kept s (steps os (callbacks_of s.driver)) (do_ops call rounds fuel os s)
unfolding do_ops
do_ops-callbacks call rounds fuel [] s c runs k h used = record {
  after = s;
  is = refl;
  callbacks = refl;
  same_hw = refl;
}
do_ops-callbacks call rounds fuel (o ∷ os) s c runs k h used =
    let one = do_op-Kept call rounds fuel s c h o runs k used.0 in
    let t = one.after in
    let c' : Clock t.hw = subst Clock (sym one.same_hw) c in
    let rest =
      do_ops-callbacks call rounds fuel os t c' runs k h
        (subst (AreUsable os) (sym one.callbacks) used.1) in
    record {
      after = rest.after;
      is = rw one.is rest.is;
      callbacks = rest.callbacks ∙ ap (steps os) one.callbacks;
      same_hw = rest.same_hw ∙ one.same_hw;
    }
