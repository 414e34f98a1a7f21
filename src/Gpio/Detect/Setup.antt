-- ===== src/Gpio/Detect/Setup.antt =====
-- Which bits of the detect registers `setup_detection` of src/gpio.rs sets.
use rpi_devenv.Base.{
  ℕ, ◌+◌, ◌*◌, ◌/◌, ◌%◌, ◌<◌, bit_or, ◌≡◌, refl, ap, ◌∙◌, Bool, true, false, ◌&&◌, ◌||◌, List, [],
  ◌∷◌, map, ◌==◌, Bool-cases, inl, inr, arith,
}
use rpi_devenv.Bits.{bit, has, ◌<<<◌, bit-set}
use rpi_devenv.Bits.Fields.{bit-mod}
use rpi_devenv.Machine.{Machine, peek, barrier, entered, for_each, IsRegister, hw-rmw}
use rpi_devenv.Gpio.State.{
  Flag, rising_edge, falling_edge, high, low, async_rising_edge, async_falling_edge, all_flags,
  flag_bits, register_of, registers, keep_contained, DetectState,
}
use rpi_devenv.Gpio.Detect.{Detector, enable_detection, setup_detection}

-- Is `b` the word for pin `p` of one of the registers?
pub reaches : ℕ → ℕ → List ℕ → Bool
reaches p b [] = false
reaches p b (r ∷ rs) = (r + 4 * (p / 32) == b) || reaches p b rs

module _ (p b i : ℕ) (hi : i < 32) where
  enable_detection-hw : (r : ℕ) (s : Machine) → (enable_detection p r s).1.hw ≡ s.hw
  unfolding enable_detection
  enable_detection-hw r s = refl

  enable_detection-bit :
      (r : ℕ) (s : Machine)
      → IsRegister s.hw b
      → bit i (peek b (enable_detection p r s).1)
        ≡ (bit i (peek b s) || ((r + 4 * (p / 32) == b) && (i == p % 32)))
  unfolding enable_detection
  enable_detection-bit r s k =
      rw (hw-rmw k (r + 4 * (p / 32)) _ _ s.log) (elim (Bool-cases (r + 4 * (p / 32) == b)) [
        | inl e ↦
            let a : r + 4 * (p / 32) ≡ b = ground arith in
            rw (
              e,
              a,
              k.keeps entered s.log refl,
              bit-mod 32 i (bit_or (peek b s) (1 <<< (p % 32))) hi,
              bit-set i (p % 32) (peek b s),
            )
        | inr e ↦ rw e (ground arith)
      ])

  enable_all-bit :
      (rs : List ℕ) (s : Machine)
      → IsRegister s.hw b
      → bit i (peek b (for_each (enable_detection p) rs s).1)
        ≡ (bit i (peek b s) || (reaches p b rs && (i == p % 32)))
  unfolding for_each reaches
  enable_all-bit [] s k = ground arith
  enable_all-bit (r ∷ rs) s k =
      let k' : IsRegister (enable_detection p r s).1.hw b = rw (enable_detection-hw r s) k in
      enable_all-bit rs (enable_detection p r s).1 k' ∙ ground (arith, enable_detection-bit r s k)

flag_index : Flag → ℕ
flag_index rising_edge = 0
flag_index falling_edge = 1
flag_index high = 2
flag_index low = 3
flag_index async_rising_edge = 4
flag_index async_falling_edge = 5

register_of-flag_index : (f : Flag) → register_of f ≡ 0x2020004C + 12 * flag_index f
unfolding register_of flag_index
register_of-flag_index rising_edge = refl
register_of-flag_index falling_edge = refl
register_of-flag_index high = refl
register_of-flag_index low = refl
register_of-flag_index async_rising_edge = refl
register_of-flag_index async_falling_edge = refl

same_word :
    (f g : Flag) (p q : ℕ)
    → p < 64
    → q < 64
    → (register_of g + 4 * (p / 32) == register_of f + 4 * (q / 32))
      ≡ ((flag_index g == flag_index f) && (p / 32 == q / 32))
same_word f g p q hp hq = ground (arith, register_of-flag_index f, register_of-flag_index g)

listed : DetectState → Flag → List Flag → Bool
listed d f [] = false
listed d f (g ∷ gs) = ((flag_index g == flag_index f) && has d (flag_bits g)) || listed d f gs

reaches-listed :
    (d : DetectState) (f : Flag) (p q : ℕ) (gs : List Flag)
    → p < 64
    → q < 64
    → reaches p (register_of f + 4 * (q / 32)) (map register_of (keep_contained d gs))
      ≡ (listed d f gs && (p / 32 == q / 32))
unfolding reaches keep_contained listed
reaches-listed d f p q [] hp hq = refl
reaches-listed d f p q (g ∷ gs) hp hq = elim (Bool-cases (has d (flag_bits g))) [
  | inl e ↦ rw (e, same_word f g p q hp hq, reaches-listed d f p q gs hp hq) (ground arith)
  | inr e ↦ rw (e, reaches-listed d f p q gs hp hq) (ground arith)
]

listed-all : (d : DetectState) (f : Flag) → listed d f all_flags ≡ has d (flag_bits f)
unfolding listed flag_index
listed-all d rising_edge = ground arith
listed-all d falling_edge = ground arith
listed-all d high = ground arith
listed-all d low = ground arith
listed-all d async_rising_edge = ground arith
listed-all d async_falling_edge = ground arith

registers-listed :
    (d : DetectState) (f : Flag) (p q : ℕ)
    → p < 64
    → q < 64
    → reaches p (register_of f + 4 * (q / 32)) (registers d)
      ≡ (has d (flag_bits f) && (p / 32 == q / 32))
registers-listed d f p q hp hq =
    let shape : registers d ≡ map register_of (keep_contained d all_flags) =
      unfold registers in refl in
    ap (reaches p (register_of f + 4 * (q / 32))) shape
    ∙ reaches-listed d f p q all_flags hp hq
    ∙ rw (listed-all d f)

same_pin : (p q : ℕ) → ((p / 32 == q / 32) && (q % 32 == p % 32)) ≡ (p == q)
same_pin p q = ground arith

-- `setup_detection` sets the pin's bit in the register of each flag of the state, and changes no
-- other pin's bit and no other flag's register; it marks the detector as set up. The detect
-- registers keep what is written.
pub setup_detection_lem :
    (p : ℕ) (d : Detector) (f : Flag) (q : ℕ) (s : Machine)
    → p < 54
    → q < 54
    → IsRegister s.hw (register_of f + 4 * (q / 32))
    → (bit (q % 32) (peek (register_of f + 4 * (q / 32)) (setup_detection p d s).1) ≡ (
        bit (q % 32) (peek (register_of f + 4 * (q / 32)) s)
        || ((p == q) && has d.state (flag_bits f))))
      × ((setup_detection p d s).0.setup ≡ true)
unfolding setup_detection
setup_detection_lem p d f q s hp hq k =
    let b = register_of f + 4 * (q / 32) in
    let s' : Machine = record s { log = barrier ∷ s.log } in
    let same : peek b s' ≡ peek b s = rw (k.keeps barrier s.log refl) in
    (
      enable_all-bit p b (q % 32) (omega arith) (registers d.state) s' k
          ∙ ground (arith, same, registers-listed d.state f p q, same_pin p q),
      refl,
    )
