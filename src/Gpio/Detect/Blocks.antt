-- ===== src/Gpio/Detect/Blocks.antt =====
-- `Detector::block` of src/gpio.rs, and the interrupt that ends it.
use rpi_devenv.Base.{
  ℕ, zero, suc, ◌+◌, ◌*◌, ◌/◌, ◌%◌, ◌^◌, ◌<◌, ◌≡◌, refl, ap, ◌∙◌, true, false, none, some, List, [],
  ◌∷◌, map, ltb, if◌then◌else◌, Bool-cases, inl, inr, arith,
}
use rpi_devenv.Base.{subst}
use native.Mathlib.Decide.{dec_lt}
use rpi_devenv.Bits.{bit, has, has-shl, ◌<<<◌}
use rpi_devenv.Machine.{Machine, M, barrier, hinted, loaded, peek, IsRegister}
use rpi_devenv.Gpio.State.{
  Flag, DetectState, flag_bits, keep_contained, iter_names, all_flags, register_of, registers,
}
use rpi_devenv.Gpio.Defs.{detect_status_base}
use rpi_devenv.Gpio.Detect.{
  detect, setup_detection, wait_cleared, wait_first, block, interrupt_handler1, interrupt_handler2,
}
use rpi_devenv.Gpio.Detect.Lifecycle.{setup_detection-waker}
use rpi_devenv.Gpio.Detect.Setup.{setup_detection_lem}
use rpi_devenv.Gpio.Detect.Service.{interrupt_handler1_lem, interrupt_handler2_lem}

-- The word that has the bit of pin `p` for a flag, and the status that the pin's handler reads.
abbrev pub word_of : Flag → ℕ → ℕ
word_of f p = register_of f + 4 * (p / 32)

abbrev pub status_of : ℕ → Machine → ℕ
status_of p s = s.hw (barrier ∷ s.log) (detect_status_base + 4 * (p / 32)) % 2 ^ 32

-- The handler of the pin's bank.
abbrev pub handler_of : ℕ → M (Unit {0})
handler_of p = if ltb p 32 then interrupt_handler1 else interrupt_handler2

handler_of-clears :
    (f : Flag) (p : ℕ) (t : Machine)
    → p < 64
    → ((g : Flag) → IsRegister t.hw (word_of g p))
    → bit (p % 32) (status_of p t) ≡ true
    → bit (p % 32) (peek (word_of f p) (handler_of p t).1) ≡ false
handler_of-clears f p t hp regs seen = elim (dec_lt p 32) [
  | yes low ↦
      let bank : 4 * (p / 32) ≡ 0 = omega arith in
      let first : ltb p 32 ≡ true = ground arith in
      let done =
        interrupt_handler1_lem t
          (λ g. subst (λ b. IsRegister t.hw (register_of g + b)) bank (regs g)) in
      let on : bit (p % 32) (t.hw (barrier ∷ t.log) detect_status_base % 2 ^ 32) ≡ true =
        subst (λ b. bit (p % 32) (t.hw (barrier ∷ t.log) (detect_status_base + b) % 2 ^ 32) ≡ true)
          bank seen in
      rw (first, bank) (done.clears f (p % 32) ∙ rw on (ground arith))
  | no high ↦
      let bank : 4 * (p / 32) ≡ 4 = omega (arith, high) in
      let second : ltb p 32 ≡ false = ground (arith, high) in
      let done =
        interrupt_handler2_lem t
          (λ g. subst (λ b. IsRegister t.hw (register_of g + b)) bank (regs g)) in
      let on : bit (p % 32) (t.hw (barrier ∷ t.log) (detect_status_base + 4) % 2 ^ 32) ≡ true =
        subst (λ b. bit (p % 32) (t.hw (barrier ∷ t.log) (detect_status_base + b) % 2 ^ 32) ≡ true)
          bank seen in
      rw (second, bank) (done.clears f (p % 32) ∙ rw on (ground arith))
]

-- While the bit is set the loop goes on, and looks leave the register alone.
wait_cleared-spins :
    (n reg mask : ℕ) (s : Machine)
    → IsRegister s.hw reg
    → has (peek reg s) mask ≡ true
    → ((wait_cleared n reg mask s).0 ≡ none) × ((wait_cleared n reg mask s).1.hw ≡ s.hw)
unfolding wait_cleared
wait_cleared-spins zero reg mask s r e = (refl, refl)
wait_cleared-spins (suc n) reg mask s r e =
    let x = peek reg s in
    let t : Machine = record s { log = hinted ∷ loaded reg x ∷ s.log } in
    let same : peek reg t ≡ x =
      rw (r.keeps hinted (loaded reg x ∷ s.log) refl, r.keeps (loaded reg x) s.log refl) in
    let ih = wait_cleared-spins n reg mask t r (rw same e) in rw e ih

wait_cleared-ends :
    (n reg mask : ℕ) (s : Machine)
    → has (peek reg s) mask ≡ false
    → (wait_cleared (suc n) reg mask s).0 ≡ some tt
unfolding wait_cleared
wait_cleared-ends n reg mask s e = rw e refl

keep_contained-first :
    (d : DetectState) (f : Flag) (fs gs : List Flag)
    → keep_contained d gs ≡ f ∷ fs
    → has d (flag_bits f) ≡ true
unfolding keep_contained
keep_contained-first d f fs [] e = cc
keep_contained-first d f fs (g ∷ gs) e = elim (Bool-cases (has d (flag_bits g))) [
  | inl there ↦
      let here : g ∷ keep_contained d gs ≡ f ∷ fs = rw there at e in
      let same : g ≡ f = cc in subst (λ h. has d (flag_bits h) ≡ true) same there
  | inr not_there ↦ keep_contained-first d f fs gs (rw not_there at e)
]

module _ (p : ℕ) (st : DetectState) (f : Flag) (fs : List Flag) (s : Machine) (hp : p < 54)
    (listed : iter_names st ≡ f ∷ fs) (regs : (g : Flag) → IsRegister s.hw (word_of g p)) where
  -- The state in which the loop of `block` begins.
  abbrev at_loop : Machine
  at_loop = (setup_detection p (detect st) (record s { log = barrier ∷ s.log })).1

  first_register : registers st ≡ register_of f ∷ map register_of fs
  unfolding registers
  first_register = rw listed refl

  block-first :
      (n : ℕ)
      → let r = wait_first n p (registers st) at_loop in
        ((block n p (detect st) s).0.0 ≡ r.0) × ((block n p (detect st) s).1 ≡ r.1)
  unfolding block setup_detection detect
  block-first n = (refl, refl)

  block-step :
      (n : ℕ)
      → let r = wait_cleared n (word_of f p) (1 <<< (p % 32)) at_loop in
        ((block n p (detect st) s).0.0 ≡ r.0) × ((block n p (detect st) s).1 ≡ r.1)
  block-step n = (
    (block-first n).0 ∙ ap (λ rs. (wait_first n p rs at_loop).0) first_register,
    (block-first n).1 ∙ ap (λ rs. (wait_first n p rs at_loop).1) first_register,
  )

  at_loop-hw : at_loop.hw ≡ s.hw
  at_loop-hw =
      let same = setup_detection-waker p (detect st) (record s { log = barrier ∷ s.log }) in same.1

  at_loop-set : has (peek (word_of f p) at_loop) (1 <<< (p % 32)) ≡ true
  unfolding detect
  at_loop-set =
      let named : has st (flag_bits f) ≡ true =
        keep_contained-first st f fs all_flags (unfold iter_names in listed) in
      let set =
        setup_detection_lem p (detect st) f p (record s { log = barrier ∷ s.log }) hp hp (regs f) in
      has-shl (peek (word_of f p) at_loop) (p % 32) ∙ set.0 ∙ ground (arith, named)

-- `block` waits for the interrupt, on a pin of either bank: however many rounds its loop makes, it
-- does not return while no interrupt is handled; and once the handler of the pin's bank has read a
-- status with the pin's bit set, the loop ends at its next look. The detect registers keep what is
-- written, and `f` is the first flag of the state, which is not empty.
pub block-interrupted :
    (n m p : ℕ) (st : DetectState) (f : Flag) (fs : List Flag) (s : Machine)
    → p < 54
    → iter_names st ≡ f ∷ fs
    → ((g : Flag) → IsRegister s.hw (word_of g p))
    → bit (p % 32) (status_of p (block n p (detect st) s).1) ≡ true
    → let t = (block n p (detect st) s).1 in
      ((block n p (detect st) s).0.0 ≡ none)
      × ((wait_cleared (suc m) (word_of f p) (1 <<< (p % 32)) (handler_of p t).1).0 ≡ some tt)
block-interrupted n m p st f fs s hp listed regs seen =
    let u = at_loop p st f fs s hp listed regs in
    let same = at_loop-hw p st f fs s hp listed regs in
    let b = block-step p st f fs s hp listed regs n in
    let t = (block n p (detect st) s).1 in
    let spins =
      wait_cleared-spins n (word_of f p) (1 <<< (p % 32)) u (rw same (regs f))
        (at_loop-set p st f fs s hp listed regs) in
    let t_hw : t.hw ≡ s.hw = ap (λ (x : Machine). x.hw) b.1 ∙ spins.1 ∙ same in
    let cleared = handler_of-clears f p t (omega (arith, hp)) (λ g. rw t_hw (regs g)) seen in
    (
      b.0 ∙ spins.0,
      wait_cleared-ends m (word_of f p) (1 <<< (p % 32)) (handler_of p t).1
          (has-shl (peek (word_of f p) (handler_of p t).1) (p % 32) ∙ cleared),
    )
