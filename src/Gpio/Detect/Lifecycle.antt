-- ===== src/Gpio/Detect/Lifecycle.antt =====
-- The life of a `Detector` of src/gpio.rs: the first poll, the interrupt, the polls after it.
use rpi_devenv.Base.{
  ℕ, zero, suc, ◌+◌, ◌%◌, ◌^◌, ◌≤◌, ◌<◌, ◌≡◌, refl, ◌∙◌, Bool, true, false, not, ◌&&◌, ◌||◌, Option,
  none, some, List, [], ◌∷◌, ◌==◌, if◌then◌else◌, Bool-cases, inl, inr, arith,
}
use native.Mathlib.Decide.{dec_lt}
use rpi_devenv.Bits.{bit}
use rpi_devenv.Machine.{
  Machine, Slot, M, ready, pending, pin_waker, put_waker, is_some, barrier, entered, left, for_each,
  IsRegister, ◌>>◌, pure,
}
use rpi_devenv.Gpio.State.{Flag, register_of, registers, DetectState}
use rpi_devenv.Gpio.Defs.{detect_status_base}
use rpi_devenv.Gpio.Ones.Complete.{set_positions}
use rpi_devenv.Gpio.Detect.{
  Detector, detect, poll, enable_detection, setup_detection, interrupt_handler1, interrupt_handler2,
}
use rpi_devenv.Machine.{woken, push}
use rpi_devenv.Gpio.Detect.Rounds.{member}
use rpi_devenv.Gpio.Detect.Handlers.{wakers_at}
use rpi_devenv.Gpio.Detect.Service.{
  interrupt_handler1-second_bank, interrupt_handler2-second_bank, interrupt_handler1_lem,
}

enable_all-waker :
    (p : ℕ) (rs : List ℕ) (s : Machine)
    → ((for_each (enable_detection p) rs s).1.waker ≡ s.waker)
      × ((for_each (enable_detection p) rs s).1.hw ≡ s.hw)
unfolding for_each enable_detection
enable_all-waker p [] s = (refl, refl)
enable_all-waker p (r ∷ rs) s = enable_all-waker p rs (enable_detection p r s).1

pub setup_detection-waker :
    (p : ℕ) (d : Detector) (s : Machine)
    → ((setup_detection p d s).1.waker ≡ s.waker)
      × ((setup_detection p d s).1.hw ≡ s.hw)
      × ((setup_detection p d s).0 ≡ record { state = d.state; setup = true })
unfolding setup_detection
setup_detection-waker p d s =
    let e = enable_all-waker p (registers d.state) (record s { log = barrier ∷ s.log }) in
    (e.0, e.1, refl)

-- A poll of a detector with an empty state is ready at once and touches nothing. A first poll
-- stores the waker in the pin's slot and is pending. A later poll is ready exactly if the slot is
-- empty, and otherwise stores the new waker and is pending.
pub poll_lem :
    (p w : ℕ) (d : Detector) (s : Machine)
    → ((poll p w d s).0.0 ≡ (
        if d.state == 0
        then ready tt
        else if d.setup && not (is_some (s.waker (pin_waker p)))
        then ready tt
        else pending))
      × ((poll p w d s).1.waker (pin_waker p) ≡ (
          if d.state == 0 || (d.setup && not (is_some (s.waker (pin_waker p))))
          then s.waker (pin_waker p)
          else some w))
      × ((poll p w d s).0.1.setup ≡ (not (d.state == 0) || d.setup))
unfolding poll
poll_lem p w d s = elim (Bool-cases (d.state == 0)) [
  | inl e ↦ rw e (refl, refl, refl)
  | inr e ↦
      let armed : Machine = record s {
        log = left ∷ entered ∷ s.log;
        waker = put_waker s.waker (pin_waker p) (some w);
      } in
      ground (arith, setup_detection-waker p d armed)
]

member-push :
    (w : ℕ) (o : Option ℕ) (ws : List ℕ) → member w ws ≡ true → member w (push o ws) ≡ true
unfolding member
member-push w none ws h = h
member-push w (some v) ws h = ground arith

member-wakers_at_old :
    (w : ℕ) (f : Slot → Option ℕ) (is ws : List ℕ)
    → member w ws ≡ true
    → member w (wakers_at f is ws) ≡ true
member-wakers_at_old w f [] ws h = h
member-wakers_at_old w f (i ∷ is) ws h =
    member-wakers_at_old w f is (push (f (pin_waker i)) ws) (member-push w (f (pin_waker i)) ws h)

member-wakers_at :
    (w p : ℕ) (f : Slot → Option ℕ) (n j x : ℕ) (ws : List ℕ)
    → f (pin_waker p) ≡ some w
    → bit p x ≡ true
    → j ≤ p
    → p < j + n
    → member w (wakers_at f (set_positions n j x) ws) ≡ true
unfolding set_positions member
member-wakers_at w p f zero j x ws e b lo hi = absurd (omega arith)
member-wakers_at w p f (suc n) j x ws e b lo hi = elim (dec_lt j p) [
  | yes below ↦ elim (Bool-cases (bit j x)) [
    | inl on ↦
        rw on
          (member-wakers_at w p f n (suc j) x (push (f (pin_waker j)) ws) e b below (omega arith))
    | inr off ↦ rw off (member-wakers_at w p f n (suc j) x ws e b below (omega arith))
  ]
  | no here ↦
      let i : j ≡ p = omega arith in
      let now : member w (w ∷ ws) ≡ true = ground arith in
      let all : member w (wakers_at f (set_positions n (suc p) x) (push (f (pin_waker p)) ws))
          ≡ true =
        rw e (member-wakers_at_old w f (set_positions n (suc p) x) (w ∷ ws) now) in
      rw (i, b) all
]

pub poll-armed :
    (p w : ℕ) (st : DetectState) (s : Machine)
    → (st == 0) ≡ false
    → ((poll p w (detect st) s).0.0 ≡ pending)
      × ((poll p w (detect st) s).0.1 ≡ record { state = st; setup = true })
      × ((poll p w (detect st) s).1.waker (pin_waker p) ≡ some w)
      × ((poll p w (detect st) s).1.hw ≡ s.hw)
unfolding poll detect
poll-armed p w st s e =
    let armed : Machine = record s {
      log = left ∷ entered ∷ s.log;
      waker = put_waker s.waker (pin_waker p) (some w);
    } in
    ground (arith, setup_detection-waker p (record { state = st; setup = false }) armed)

-- The first bank's handler on a state with the waker in the slot and the pin's bit in the status.
pub interrupt_handler1-wakes :
    (p w : ℕ) (t : Machine)
    → p < 32
    → ((f : Flag) → IsRegister t.hw (register_of f + 0))
    → t.waker (pin_waker p) ≡ some w
    → bit p (t.hw (barrier ∷ t.log) detect_status_base % 2 ^ 32) ≡ true
    → (member w (woken (interrupt_handler1 t).1.log) ≡ true)
      × ((interrupt_handler1 t).1.waker (pin_waker p) ≡ none)
interrupt_handler1-wakes p w t hp regs armed seen =
    let done = interrupt_handler1_lem t regs in
    let x = t.hw (barrier ∷ t.log) detect_status_base % 2 ^ 32 in
    (
      rw done.wakes (
          member-wakers_at w p t.waker 32 0 x (woken t.log) armed seen (omega arith) (omega arith)),
      done.slots p ∙ ground (arith, seen),
    )

-- Waiting on a pin of the first bank completes: the first poll with a state that is not empty is
-- pending; when the first bank's handler then reads a status with the pin's bit set, it wakes the
-- task, and the next poll is ready. The detect registers keep what is written.
pub poll-interrupt_handler1-ready :
    (p w w' : ℕ) (st : DetectState) (s : Machine)
    → p < 32
    → (st == 0) ≡ false
    → ((f : Flag) → IsRegister s.hw (register_of f + 0))
    → let a = poll p w (detect st) s in
      bit p (a.1.hw (barrier ∷ a.1.log) detect_status_base % 2 ^ 32) ≡ true
      → let a = poll p w (detect st) s in
        let b = interrupt_handler1 a.1 in
        (a.0.0 ≡ pending)
        × (member w (woken b.1.log) ≡ true)
        × ((poll p w' a.0.1 b.1).0.0 ≡ ready tt)
poll-interrupt_handler1-ready p w w' st s hp e regs seen =
    let a = poll p w (detect st) s in
    let armed = poll-armed p w st s e in
    let woke_up = interrupt_handler1-wakes p w a.1 hp (λ f. rw armed.3 (regs f)) armed.2 seen in
    (
      armed.0,
      woke_up.0,
      (poll_lem p w' a.0.1 (interrupt_handler1 a.1).1).0 ∙ ground (arith, armed, woke_up, e),
    )

-- Any run of the two handlers, `true` for the first bank's.
unfoldable pub handlers : List Bool → M (Unit {0})
handlers [] = pure tt
handlers (true ∷ hs) = interrupt_handler1 >> handlers hs
handlers (false ∷ hs) = interrupt_handler2 >> handlers hs

handlers-second_bank :
    (hs : List Bool) (s : Machine) (i : ℕ)
    → 32 ≤ i
    → (handlers hs s).1.waker (pin_waker i) ≡ s.waker (pin_waker i)
unfolding handlers
handlers-second_bank [] s i h = refl
handlers-second_bank (true ∷ hs) s i h =
    handlers-second_bank hs (interrupt_handler1 s).1 i h ∙ interrupt_handler1-second_bank s i h
handlers-second_bank (false ∷ hs) s i h =
    handlers-second_bank hs (interrupt_handler2 s).1 i h ∙ interrupt_handler2-second_bank s i h

-- Waiting on a pin of the second bank never completes: after a first poll with a state that is
-- not empty, whatever runs of the two handlers follow and whatever statuses they read, the next
-- poll is still pending.
pub poll-second_bank-pending :
    (p w w' : ℕ) (st : DetectState) (hs : List Bool) (s : Machine)
    → 32 ≤ p
    → (st == 0) ≡ false
    → let a = poll p w (detect st) s in (poll p w' a.0.1 (handlers hs a.1).1).0.0 ≡ pending
poll-second_bank-pending p w w' st hs s hp e =
    let a = poll p w (detect st) s in
    let armed = poll-armed p w st s e in
    (poll_lem p w' a.0.1 (handlers hs a.1).1).0
    ∙ ground (arith, armed, handlers-second_bank hs a.1 p hp, e)
