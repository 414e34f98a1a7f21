-- ===== src/Machine/Defs.antt =====
-- The machine that the drivers run on: memory-mapped registers behind volatile accesses, the
-- barriers and `set_waker`/`wake` of src/lib.rs, and the statics of the drivers.
-- The hardware is a parameter: `hw l a` is what a read of the address `a` finds after the events
-- `l`, newest first. Calls of code outside the repository (entering and leaving the
-- `critical_section` crate's section, waking a `Waker`) are events of the same log.
use rpi_devenv.Base.{
  ℕ, zero, suc, ◌%◌, ◌^◌, Bool, true, false, Option, none, some, List, [], ◌∷◌, ◌==◌, if◌then◌else◌,
}

pub data Event : Type 0 where
  loaded stored : ℕ → ℕ → Event
  barrier sync_barrier entered left : Event
  hinted : Event
  woke : ℕ → Event

-- The cells that hold a waker: three of the auxiliary peripherals, one for each pin.
pub data Slot : Type 0 where
  spi_waker reader_waker writer_waker : Slot
  pin_waker : ℕ → Slot

abbrev pub slot_eq : Slot → Slot → Bool
slot_eq spi_waker spi_waker = true
slot_eq reader_waker reader_waker = true
slot_eq writer_waker writer_waker = true
slot_eq (pin_waker i) (pin_waker j) = i == j
slot_eq _ _ = false

pub record GpioSet : Type 0 where
  pub lower : ℕ
  pub upper : ℕ

pub record AlarmState : Type 0 where
  pub timestamp : ℕ
  pub callback : ℕ
  pub ctx : ℕ

pub record SystemTimeDriver : Type 0 where
  pub c1 : Option AlarmState
  pub c3 : Option AlarmState

-- A waker is the identity of the task that it wakes.
pub record Machine : Type 0 where
  pub hw : List Event → ℕ → ℕ
  pub log : List Event
  pub waker : Slot → Option ℕ
  pub gpio_set : GpioSet
  pub driver : SystemTimeDriver

abbrev pub M : Type 0 → Type 0
M A = Machine → A × Machine

infixl 5 ◌>>=◌ ◌>>◌
abbrev pub ◌>>=◌ : {A B : Type 0} → M A → (A → M B) → M B
◌>>=◌ m f s = f (m s).0 (m s).1

abbrev pub ◌>>◌ : {A B : Type 0} → M A → M B → M B
◌>>◌ m k s = k (m s).1

abbrev pub pure : {A : Type 0} → A → M A
pure a s = (a, s)

abbrev pub emit : Event → M (Unit {0})
emit e s = (tt, record s { log = e ∷ s.log })

-- What a read of a `u32` at `a` would return now.
abbrev pub peek : ℕ → Machine → ℕ
peek a s = s.hw s.log a % 2 ^ 32

abbrev pub read_volatile : ℕ → M ℕ
read_volatile a s = (peek a s, record s { log = loaded a (peek a s) ∷ s.log })

abbrev pub write_volatile : ℕ → ℕ → M (Unit {0})
write_volatile a v = emit (stored a v)

abbrev pub data_memory_barrier : M (Unit {0})
data_memory_barrier = emit barrier

abbrev pub data_synchronization_barrier : M (Unit {0})
data_synchronization_barrier = emit sync_barrier

-- `critical_section::with`: the crate enters, runs the closure once, and leaves.
abbrev pub with_cs : {A : Type 0} → M A → M A
with_cs body = do emit entered; r ← body; emit left; pure r

abbrev pub put_waker : (Slot → Option ℕ) → Slot → Option ℕ → Slot → Option ℕ
put_waker f s w t = if slot_eq s t then w else f t

-- `Cell::take` and `Cell::set` of a waker's slot.
abbrev pub take_slot : Slot → M (Option ℕ)
take_slot t s = (s.waker t, record s { waker = put_waker s.waker t none })

abbrev pub set_slot : Slot → Option ℕ → M (Unit {0})
set_slot t w s = (tt, record s { waker = put_waker s.waker t w })

-- The old waker if it wakes the same task, else a clone of the new one.
abbrev pub keep_or_clone : Option ℕ → ℕ → ℕ
keep_or_clone none new = new
keep_or_clone (some old) new = if old == new then old else new

abbrev pub is_some : {A : Type 0} → Option A → Bool
is_some none = false
is_some (some a) = true

unfoldable pub set_waker : Slot → ℕ → M Bool
set_waker t new = do
  old ← take_slot t
  let was_set = is_some old
  set_slot t (some (keep_or_clone old new))
  pure was_set

abbrev pub wake_opt : Option ℕ → M (Unit {0})
wake_opt none = pure tt
wake_opt (some w) = emit (woke w)

unfoldable pub wake : Slot → M (Unit {0})
wake t = do old ← take_slot t; wake_opt old

-- A `for` loop over what an iterator yields.
unfoldable pub for_each : {A : Type 0} → (A → M (Unit {0})) → List A → M (Unit {0})
for_each body [] = pure tt
for_each body (x ∷ xs) = body x >> for_each body xs

-- `for _ in 0..n { core::hint::spin_loop(); }`
unfoldable pub spin_times : ℕ → M (Unit {0})
spin_times zero = pure tt
spin_times (suc n) = emit hinted >> spin_times n

-- What one poll of a future returns.
pub data Poll (A : Type 0) : Type 0 where
  ready : A → Poll A
  pending : Poll A

-- A `Result` with the errors of `E`, and what a `nb` call returns.
pub data Result (E A : Type 0) : Type 0 where
  ok : A → Result E A
  err : E → Result E A

pub data NbResult (E A : Type 0) : Type 0 where
  done : A → NbResult E A
  would_block : NbResult E A
  other : E → NbResult E A
