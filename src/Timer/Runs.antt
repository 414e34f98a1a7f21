-- ===== src/Timer/Runs.antt =====
-- What any sequence of calls of the driver in src/system_time/driver.rs leaves of its alarms.
use rpi_devenv.Base.{
  ℕ, ◌≤◌, ◌≡◌, ◌≢◌, refl, sym, ◌∙◌, Bool, true, false, not, ◌&&◌, Option, some, List, [], ◌∷◌, ◌==◌,
  arith,
}
use rpi_devenv.Base.{subst}
use rpi_devenv.Machine.{Machine, M, AlarmState}
use rpi_devenv.Timer.Defs.{alarm_in, allocate_alarm, set_alarm_callback}
use rpi_devenv.Timer.Clock.{Clock}
use rpi_devenv.Timer.Alarm.{set_alarm_lem}
use rpi_devenv.Timer.Calls.{
  Op, allocate, register_callback, set_to, rings, do_op, do_ops, callbacks_of, is_allocated, steps,
  same_alarm, fresh_step, fresh_after, IsNullIf, IsUsable, AreUsable, IsCallback, Kept,
}
use rpi_devenv.Timer.Registered.{allocated-state, do_op-Kept, do_ops-callbacks}

abbrev null_state : Option AlarmState
null_state = some (record { timestamp = 0; callback = 0; ctx = 0 })

IsNullIf-eq : (b : Bool) (x : Option AlarmState) → IsNullIf b x → b ≡ true → x ≡ null_state
IsNullIf-eq true x n e = n
IsNullIf-eq false x n e = cc

eq-IsNullIf : (b : Bool) (x : Option AlarmState) → (b ≡ true → x ≡ null_state) → IsNullIf b x
eq-IsNullIf true x f = f refl
eq-IsNullIf false x f = tt

module _ (call : ℕ → ℕ → M (Unit {0})) (rounds fuel : ℕ) (i : ℕ) (b : Bool) (s : Machine)
    (n : IsNullIf b (alarm_in i s.driver)) where
  allocate-fresh :
      fresh_step i allocate (callbacks_of s.driver) b ≡ true
      → alarm_in i (do_op call rounds fuel allocate s).1.driver ≡ null_state
  unfolding do_op allocate_alarm
  allocate-fresh e = ground (arith, IsNullIf-eq b (alarm_in i s.driver) n)

  register_callback-fresh :
      (alarm f ctx : ℕ)
      → (b && not (same_alarm alarm i)) ≡ true
      → alarm_in i (do_op call rounds fuel (register_callback alarm f ctx) s).1.driver ≡ null_state
  unfolding do_op set_alarm_callback
  register_callback-fresh alarm f ctx e = ground (arith, IsNullIf-eq b (alarm_in i s.driver) n)

  set_to-fresh :
      (alarm timestamp : ℕ) (c : Clock s.hw)
      → 2 ≤ fuel
      → is_allocated alarm (callbacks_of s.driver) ≡ true
      → (b && not (same_alarm alarm i)) ≡ true
      → alarm_in i (do_op call rounds fuel (set_to alarm timestamp) s).1.driver ≡ null_state
  unfolding do_op
  set_to-fresh alarm timestamp c h used e =
      let (a, set) = allocated-state alarm s.driver used in
      let r = set_alarm_lem fuel alarm timestamp a s c h set in
      let differs : (i == 0) ≢ (alarm == 0) = ground arith in
      let fresh : b ≡ true = ground arith in
      rw r.is (r.others_kept i differs ∙ IsNullIf-eq b (alarm_in i s.driver) n fresh)

  do_op-fresh :
      (o : Op) (c : Clock s.hw)
      → 2 ≤ fuel
      → IsUsable o (callbacks_of s.driver)
      → IsNullIf
          (fresh_step i o (callbacks_of s.driver) b)
          (alarm_in i (do_op call rounds fuel o s).1.driver)
  do_op-fresh allocate c h used = eq-IsNullIf _ _ allocate-fresh
  do_op-fresh (register_callback alarm f ctx) c h used =
      eq-IsNullIf _ _ (register_callback-fresh alarm f ctx)
  do_op-fresh (set_to alarm timestamp) c h used =
      eq-IsNullIf _ _ (set_to-fresh alarm timestamp c h used)
  do_op-fresh (rings alarm) c h used = tt

do_ops-fresh :
    (call : ℕ → ℕ → M (Unit {0})) (rounds fuel i : ℕ) (b : Bool) (os : List Op) (s : Machine)
    (c : Clock s.hw)
    → IsCallback call
    → 2 ≤ rounds
    → 2 ≤ fuel
    → AreUsable os (callbacks_of s.driver)
    → IsNullIf b (alarm_in i s.driver)
    → IsNullIf
        (fresh_after i os (callbacks_of s.driver) b)
        (alarm_in i (do_ops call rounds fuel os s).1.driver)
unfolding do_ops
do_ops-fresh call rounds fuel i b [] s c runs k h used n = n
do_ops-fresh call rounds fuel i b (o ∷ os) s c runs k h used n =
    let one = do_op-Kept call rounds fuel s c h o runs k used.0 in
    let t = one.after in
    let c' : Clock t.hw = subst Clock (sym one.same_hw) c in
    let k0 = callbacks_of s.driver in
    let b' = fresh_step i o k0 b in
    let here : IsNullIf b' (alarm_in i t.driver) =
      subst (λ x. IsNullIf b' (alarm_in i x.1.driver)) one.is
        (do_op-fresh call rounds fuel i b s n o c h used.0) in
    let rest =
      do_ops-fresh call rounds fuel i b' os t c' runs k h
        (subst (AreUsable os) (sym one.callbacks) used.1) here in
    rw one.is (
      subst
        (λ x. IsNullIf (fresh_after i os x b') (alarm_in i (do_ops call rounds fuel os t).1.driver))
        one.callbacks rest)

-- Any sequence of the driver's calls and of interrupts of its alarms, in which only an alarm that
-- is allocated is set or rings, returns and does not panic, and afterwards the driver holds for
-- each alarm the callback and context that were last registered for it, or 0 and 0 if it was only
-- allocated: setting, ringing and setting again lose none of them. An alarm that was allocated, and
-- not set, registered or followed by a ringing since, has the null state, all of it 0. A
-- callback may set the alarms again, but registers none and returns. The loops get two rounds, the
-- clock never runs back and moves by less than 2^29 ticks between two events.
pub do_ops-Kept :
    (call : ℕ → ℕ → M (Unit {0})) (rounds fuel : ℕ) (os : List Op) (s : Machine) (c : Clock s.hw)
    → IsCallback call
    → 2 ≤ rounds
    → 2 ≤ fuel
    → AreUsable os (callbacks_of s.driver)
    → Kept s (steps os (callbacks_of s.driver)) (do_ops call rounds fuel os s)
      × ((i : ℕ)
          → IsNullIf
              (fresh_after i os (callbacks_of s.driver) false)
              (alarm_in i (do_ops call rounds fuel os s).1.driver))
do_ops-Kept call rounds fuel os s c runs k h used = (
  do_ops-callbacks call rounds fuel os s c runs k h used,
  λ i. do_ops-fresh call rounds fuel i false os s c runs k h used tt,
)
