-- ===== src/Processor/Executor.antt =====
-- The loop of src/executor.rs against the interrupts that signal work. `raw.poll` of the
-- `embassy_executor` crate is a stage of the loop; the crate calls `__pender` when a task is woken.
use rpi_devenv.Base.{
  ℕ, zero, suc, ◌≤◌, ◌≡◌, refl, sym, subst, ap, Bool, true, false, not, ◌&&◌, ◌||◌, if◌then◌else◌,
  arith,
}

-- Where the loop stands: in `raw.poll`; in the critical section, before the swap; in the wait for
-- an interrupt; behind the critical section, or before the first poll.
pub data Stage : Type 0 where
  polling locked asleep leaving : Stage

-- `signaled` is `WORK_SIGNALED`. `owed` is not in the program: a task was woken after the last
-- poll began, so that poll may have missed it.
pub record Executor : Type 0 where
  pub stage : Stage
  pub signaled : Bool
  pub owed : Bool

-- `run` before its loop.
abbrev pub new : Executor
new = record { stage = leaving; signaled = false; owed = false }

-- `__pender`.
unfoldable pub pender : Executor → Executor
pender e = record { stage = e.stage; signaled = true; owed = true }

-- The closure of the loop's critical section: the swap, and the wait if there was no signal.
unfoldable pub check : Executor → Executor
check e = record {
  stage = if not e.signaled then asleep else leaving;
  signaled = false;
  owed = e.owed;
}

abbrev pub is_open : Stage → Bool
is_open polling = true
is_open leaving = true
is_open locked = false
is_open asleep = false

-- One step of the loop or of an interrupt. An interrupt runs only outside of the critical section;
-- one that arrives in it ends the wait, and runs when the section is left.
pub data Step : Executor → Executor → Type 0 where
  signal : (e : Executor) → is_open e.stage ≡ true → Step e (pender e)
  polled : (e : Executor) → e.stage ≡ polling → Step e (record e { stage = locked })
  checked : (e : Executor) → e.stage ≡ locked → Step e (check e)
  woken_up : (e : Executor) → e.stage ≡ asleep → Step e (record e { stage = leaving })
  again :
      (e : Executor)
      → e.stage ≡ leaving
      → Step e (record { stage = polling; signaled = e.signaled; owed = false })

pub data Reach (e : Executor) : Executor → Type 0 where
  here : Reach e e
  next : {f g : Executor} → Reach e f → Step f g → Reach e g

abbrev is_leaving : Stage → Bool
is_leaving leaving = true
is_leaving polling = false
is_leaving locked = false
is_leaving asleep = false

abbrev is_asleep : Stage → Bool
is_asleep asleep = true
is_asleep polling = false
is_asleep locked = false
is_asleep leaving = false

-- Work that is owed is signaled, or the next poll is about to begin; the wait leaves no signal.
abbrev IsKept : Executor → Type 0
IsKept e =
    ((not e.owed || (e.signaled || is_leaving e.stage)) ≡ true)
    × ((is_asleep e.stage && e.signaled) ≡ false)

asleep-closed : (s : Stage) → is_open s ≡ true → is_asleep s ≡ false
asleep-closed polling h = refl
asleep-closed leaving h = refl
asleep-closed locked h = refl
asleep-closed asleep h = cc

Step-IsKept : {e f : Executor} → Step e f → IsKept e → IsKept f
unfolding pender check
Step-IsKept (signal e h) k = ground (arith, asleep-closed e.stage h)
Step-IsKept (polled e h) k = ground (arith, ap is_leaving h)
Step-IsKept (checked e h) k = ground (arith, ap is_leaving h)
Step-IsKept (woken_up e h) k = ground arith
Step-IsKept (again e h) k = (refl, refl)

Reach-IsKept : {e f : Executor} → IsKept e → Reach e f → IsKept f
Reach-IsKept k here = k
Reach-IsKept k (next r st) = Step-IsKept st (Reach-IsKept k r)

-- No wake-up is lost: in whatever order the loop's steps and the interrupts come, when the
-- executor waits for an interrupt no task has been woken since its last poll began.
pub asleep-owes_nothing : (e : Executor) → Reach new e → e.stage ≡ asleep → e.owed ≡ false
asleep-owes_nothing e r h =
    let k = Reach-IsKept (refl, refl) r in ground (arith, k, ap is_leaving h, ap is_asleep h)

-- The loop's own next step, without interrupts; in the wait it has none.
abbrev pub go_on_at : Stage → Executor → Executor
go_on_at polling e = record e { stage = locked }
go_on_at locked e = check e
go_on_at asleep e = e
go_on_at leaving e = record { stage = polling; signaled = e.signaled; owed = false }

unfoldable pub go_on : Executor → Executor
go_on e = go_on_at e.stage e

unfoldable pub go_on_for : ℕ → Executor → Executor
go_on_for zero e = e
go_on_for (suc n) e = go_on_for n (go_on e)

-- How many steps the loop is away from its next poll.
abbrev pub distance : Stage → ℕ
distance polling = 3
distance locked = 2
distance leaving = 1
distance asleep = 0

record-Polls :
    (st : Stage) (x : Bool)
    → let e : Executor = record { stage = st; signaled = x; owed = true } in
      IsKept e
      → let e : Executor = record { stage = st; signaled = x; owed = true } in
        let f = go_on_for (distance st) e in (f.stage ≡ polling) × (f.owed ≡ false)
unfolding go_on go_on_for check
record-Polls polling true k = (refl, refl)
record-Polls polling false k = cc
record-Polls locked true k = (refl, refl)
record-Polls locked false k = cc
record-Polls leaving x k = (refl, refl)
record-Polls asleep true k = cc
record-Polls asleep false k = cc

go_on_at-Reach :
    (st : Stage) (e : Executor) (f : Executor) → e.stage ≡ st → Reach f e → Reach f (go_on_at st e)
go_on_at-Reach polling e f h r = next r (polled e h)
go_on_at-Reach locked e f h r = next r (checked e h)
go_on_at-Reach leaving e f h r = next r (again e h)
go_on_at-Reach asleep e f h r = r

go_on_for-Reach : (n : ℕ) (e f : Executor) → Reach f e → Reach f (go_on_for n e)
unfolding go_on go_on_for
go_on_for-Reach zero e f r = r
go_on_for-Reach (suc n) e f r = go_on_for-Reach n (go_on e) f (go_on_at-Reach e.stage e f refl r)

distance-le : (st : Stage) → distance st ≤ 3
distance-le polling = omega arith
distance-le locked = omega arith
distance-le leaving = omega arith
distance-le asleep = omega arith

-- Work that is owed is done without a further interrupt: from every state that the loop and the
-- interrupts reach in which a task has been woken since the last poll began, the loop's own steps,
-- at most three, lead to the start of a poll, and never into the wait.
pub owed-polled :
    (e : Executor)
    → Reach new e
    → e.owed ≡ true
    → let f = go_on_for (distance e.stage) e in
      (distance e.stage ≤ 3) × (f.stage ≡ polling) × (f.owed ≡ false) × Reach new f
owed-polled e r h =
    let k = Reach-IsKept (refl, refl) r in
    let e' : Executor = record { stage = e.stage; signaled = e.signaled; owed = true } in
    let same : e' ≡ e = ap (λ o. let x : Executor = record e { owed = o } in x) (sym h) in
    let p = record-Polls e.stage e.signaled (subst IsKept (sym same) k) in
    let q =
      subst (λ g. let f = go_on_for (distance g.stage) g in (f.stage ≡ polling) × (f.owed ≡ false))
        same p in
    (distance-le e.stage, q.0, q.1, go_on_for-Reach (distance e.stage) e new r)
