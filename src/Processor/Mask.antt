-- ===== src/Processor/Mask.antt =====
-- `disable` and `enable` of src/interrupt.rs, and the `acquire` and `release` of
-- src/critical_section_impl.rs, which the `critical_section` crate calls around a closure.
use rpi_devenv.Base.{
  ℕ, ◌+◌, bit_and, bit_or, ◌≡◌, ◌∙◌, Bool, true, false, not, ◌&&◌, List, [], ◌∷◌, ◌++◌, ◌==◌,
  if◌then◌else◌, arith,
}
use rpi_devenv.Bits.{◌<<<◌, not32, bit, has-shl, bit-set, bit-clear}

-- The program status register: bit 7 set masks interrupts.
abbrev pub Cpsr : Type 0
Cpsr = ℕ

-- `cpsid i` and `cpsie i`.
unfoldable pub disable : Cpsr → Cpsr
disable cpsr = bit_or cpsr (1 <<< 7)

unfoldable pub enable : Cpsr → Cpsr
enable cpsr = bit_and cpsr (not32 (1 <<< 7))

-- Whether this call masked the interrupts, and the register after it.
unfoldable pub acquire : Cpsr → Bool × Cpsr
acquire cpsr = if bit_and cpsr (1 <<< 7) == 0 then (true, disable cpsr) else (false, cpsr)

unfoldable pub release : Bool → Cpsr → Cpsr
release restore_state cpsr = if restore_state then enable cpsr else cpsr

-- A program that works and enters critical sections, which may nest.
pub data Code : Type 0 where
  finish : Code
  work : ℕ → Code → Code
  critical : Code → Code → Code

-- What it did: each piece of work, with the number of critical sections around it and the mask.
pub record Worked : Type 0 where
  pub label : ℕ
  pub depth : ℕ
  pub masked : Bool

abbrev pub is_masked : Cpsr → Bool
is_masked cpsr = bit 7 cpsr

-- `critical_section::with` acquires, runs the closure and releases what it acquired.
unfoldable pub run : Code → ℕ → Cpsr → List Worked × Cpsr
run finish depth cpsr = ([], cpsr)
run (work n rest) depth cpsr =
    let r = run rest depth cpsr in
    (record { label = n; depth = depth; masked = is_masked cpsr } ∷ r.0, r.1)
run (critical body rest) depth cpsr =
    let a = acquire cpsr in
    let b = run body (depth + 1) a.1 in
    let r = run rest depth (release a.0 b.1) in (b.0 ++ r.0, r.1)

-- Each piece of work was done with interrupts masked exactly inside of a section.
abbrev pub AllMasked : List Worked → Type 0
AllMasked [] = Unit {0}
AllMasked (w ∷ ws) = (w.masked ≡ not (w.depth == 0)) × AllMasked ws

AllMasked-append : (xs ys : List Worked) → AllMasked xs → AllMasked ys → AllMasked (xs ++ ys)
AllMasked-append [] ys h k = k
AllMasked-append (x ∷ xs) ys h k = (h.0, AllMasked-append xs ys h.1 k)

mask-bits : (cpsr : Cpsr) → (bit_and cpsr (1 <<< 7) == 0) ≡ not (is_masked cpsr)
mask-bits cpsr = ground (arith, has-shl cpsr 7)

acquire_lem :
    (cpsr : Cpsr) → ((acquire cpsr).0 ≡ not (is_masked cpsr)) × (is_masked (acquire cpsr).1 ≡ true)
unfolding acquire disable
acquire_lem cpsr = ground (arith, mask-bits cpsr, bit-set 7 7 cpsr)

release_lem :
    (restore : Bool) (cpsr : Cpsr)
    → is_masked (release restore cpsr) ≡ (is_masked cpsr && not restore)
unfolding release enable
release_lem true cpsr = bit-clear 7 7 cpsr (omega arith) (omega arith) ∙ ground arith
release_lem false cpsr = ground arith

-- Critical sections nest. A program that is started inside `depth` sections, with interrupts masked
-- exactly if there are any, runs each piece of work with them masked exactly if a section is around
-- it, at whatever depth, and ends with them masked, or not, as at the start.
pub run-masks :
    (c : Code) (depth : ℕ) (cpsr : Cpsr)
    → is_masked cpsr ≡ not (depth == 0)
    → AllMasked (run c depth cpsr).0 × (is_masked (run c depth cpsr).1 ≡ not (depth == 0))
unfolding run
run-masks finish depth cpsr h = (tt, h)
run-masks (work n rest) depth cpsr h = let ih = run-masks rest depth cpsr h in ((h, ih.0), ih.1)
run-masks (critical body rest) depth cpsr h =
    let a = acquire_lem cpsr in
    let inside = run-masks body (depth + 1) (acquire cpsr).1 (a.1 ∙ ground arith) in
    let b = run body (depth + 1) (acquire cpsr).1 in
    let after : is_masked (release (acquire cpsr).0 b.1) ≡ not (depth == 0) =
      release_lem (acquire cpsr).0 b.1 ∙ ground (arith, a, inside.1, h) in
    let r = run rest depth (release (acquire cpsr).0 b.1) in
    let outside = run-masks rest depth (release (acquire cpsr).0 b.1) after in
    (AllMasked-append b.0 r.0 inside.0 outside.0, outside.1)
