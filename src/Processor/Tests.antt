-- ===== src/Processor/Tests.antt =====
-- Runs of the model of the critical sections and of the executor, and the theorems on them.
use rpi_devenv.Base.{◌≤◌, ◌≡◌, refl, true, false}
use rpi_devenv.Bits.{bit}
use rpi_devenv.Processor.Mask.{Code, finish, work, critical, run, is_masked, AllMasked, run-masks}
use rpi_devenv.Processor.Executor.{
  Executor, go_on_for, owed-polled, new, pender, check, Reach, here, next, signal, polled, checked,
  again, polling, asleep, locked, asleep-owes_nothing,
}

-- One section in another, with work before, in and after each.
abbrev nested : Code
nested = work 1 (critical (work 2 (critical (work 3 finish) (work 4 finish))) (work 5 finish))

run-masks_example : AllMasked (run nested 0 0x1F).0 × (is_masked (run nested 0 0x1F).1 ≡ false)
unfolding bit
run-masks_example = run-masks nested 0 0x1F refl

-- A task is woken in the first poll; the second round of the loop then waits.
abbrev waiting : Executor
waiting = record { stage = asleep; signaled = false; owed = false }

to_waiting : Reach new waiting
unfolding pender check
to_waiting =
    let e0 = new in
    let e1 : Executor = record { stage = polling; signaled = false; owed = false } in
    let e2 = pender e1 in
    let e3 : Executor = record e2 { stage = locked } in
    let e4 = check e3 in
    let e5 : Executor = record { stage = polling; signaled = e4.signaled; owed = false } in
    let e6 : Executor = record e5 { stage = locked } in
    next
      (next
        (next
          (next (next (next (next here (again e0 refl)) (signal e1 refl)) (polled e2 refl))
            (checked e3 refl))
          (again e4 refl))
        (polled e5 refl))
      (checked e6 refl)

asleep-owes_nothing_example : waiting.owed ≡ false
asleep-owes_nothing_example = asleep-owes_nothing waiting to_waiting refl

-- A task is woken in the second poll.
abbrev in_debt : Executor
in_debt = record { stage = polling; signaled = true; owed = true }

to_in_debt : Reach new in_debt
unfolding pender
to_in_debt =
    let e1 : Executor = record { stage = polling; signaled = false; owed = false } in
    next (next here (again new refl)) (signal e1 refl)

owed-polled_example :
    let f = go_on_for 3 in_debt in (3 ≤ 3) × (f.stage ≡ polling) × (f.owed ≡ false) × Reach new f
owed-polled_example = owed-polled in_debt to_in_debt refl
