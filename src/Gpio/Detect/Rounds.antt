-- ===== src/Gpio/Detect/Rounds.antt =====
-- What the interrupt handlers of src/gpio.rs do for a list of pending bits: the detect
-- registers, the wakers' slots, the tasks woken.
use rpi_devenv.Base.{
  ℕ, ◌<◌, bit_and, ◌≡◌, refl, ◌∙◌, Bool, false, not, ◌&&◌, ◌||◌, none, List, [], ◌∷◌, ◌==◌,
  Bool-cases, inl, inr, arith,
}
use rpi_devenv.Bits.{bit, ◌<<<◌, not32, bit-clear}
use rpi_devenv.Bits.Fields.{bit-mod}
use rpi_devenv.Machine.{
  Machine, pin_waker, put_waker, woken, push, loaded, peek, for_each, IsRegister, hw-store,
}
use rpi_devenv.Gpio.Detect.{disable_detection}

unfoldable pub member : ℕ → List ℕ → Bool
member x [] = false
member x (y ∷ ys) = (y == x) || member x ys

-- Clearing bit `i` in each register of a list.
module _ (i : ℕ) where
  pub disable_all-waker :
      (rs : List ℕ) (s : Machine)
      → ((for_each (disable_detection i) rs s).1.waker ≡ s.waker)
        × ((for_each (disable_detection i) rs s).1.hw ≡ s.hw)
        × (woken (for_each (disable_detection i) rs s).1.log ≡ woken s.log)
  unfolding for_each disable_detection
  disable_all-waker [] s = (refl, refl, refl)
  disable_all-waker (r ∷ rs) s = disable_all-waker rs (disable_detection i r s).1

  disable_detection-bit :
      (b k r : ℕ) (s : Machine)
      → i < 32
      → k < 32
      → IsRegister s.hw b
      → bit k (peek b (disable_detection i r s).1)
        ≡ (bit k (peek b s) && not ((r == b) && (k == i)))
  unfolding disable_detection
  disable_detection-bit b k r s hi hk reg =
      rw (hw-store reg r _ _, reg.keeps (loaded r (peek r s)) s.log refl)
        (elim (Bool-cases (r == b)) [
          | inl e ↦
              let a : r ≡ b = ground arith in
              rw (
                e,
                a,
                bit-mod 32 k (bit_and (peek b s) (not32 (1 <<< i))) hk,
                bit-clear k i (peek b s) hk hi,
              )
          | inr e ↦ rw e (ground arith)
        ])

  pub disable_all-bit :
      (b k : ℕ) (rs : List ℕ) (s : Machine)
      → i < 32
      → k < 32
      → IsRegister s.hw b
      → bit k (peek b (for_each (disable_detection i) rs s).1)
        ≡ (bit k (peek b s) && not (member b rs && (k == i)))
  unfolding for_each member
  disable_all-bit b k [] s hi hk reg = ground arith
  disable_all-bit b k (r ∷ rs) s hi hk reg =
      let reg' : IsRegister (disable_detection i r s).1.hw b = unfold disable_detection in reg in
      disable_all-bit b k rs (disable_detection i r s).1 hi hk reg'
      ∙ ground (arith, disable_detection-bit b k r s hi hk reg)

-- What one round of a handler does for bit `i`: it takes the waker of slot `pin_waker i`, wakes
-- it, and clears bit `i` in the registers `rs`.
pub record Handled (rs : List ℕ) (status i : ℕ) (s s' : Machine) : Type 0 where
  pub same_hw : s'.hw ≡ s.hw
  pub slots : s'.waker ≡ put_waker s.waker (pin_waker i) none
  pub wakes : woken s'.log ≡ push (s.waker (pin_waker i)) (woken s.log)
  pub clears :
      (b k : ℕ)
      → k < 32
      → (status == b) ≡ false
      → IsRegister s.hw b
      → bit k (peek b s') ≡ (bit k (peek b s) && not (member b rs && (k == i)))
