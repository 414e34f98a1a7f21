-- ===== src/Spi/Echo.antt =====
-- A blocking transfer of src/aux/spi.rs with a device that echoes.
use rpi_devenv.Base.{
  ℕ, ◌+◌, ◌%◌, ◌^◌, ◌≤◌, ◌≡◌, refl, ap, ◌∙◌, false, some, List, [], ◌∷◌, ◌++◌, ◌==◌, if◌then◌else◌,
  arith,
}
use rpi_devenv.Base.{length, AreBytes}
use rpi_devenv.Machine.{Machine}
use rpi_devenv.Spi.Entry.{to_entry, from_entry, chunks}
use rpi_devenv.Spi.Packing.{from_entry-to_entry}
use rpi_devenv.Spi.Defs.{io}
use rpi_devenv.Spi.Queue.{queued, plan}
use rpi_devenv.Spi.Bus.{entry_reg, transfer_in_place}
use rpi_devenv.Spi.Sending.{plan-three}
use rpi_devenv.Spi.Originals.{taken}
use rpi_devenv.Spi.Device.{Answers, answered}
use rpi_devenv.Spi.Exchange.{transfer_in_place-answered}

-- The value of entry `i` of the entries queued, the oldest one being entry 0.
abbrev pub entry_at : ℕ → List (ℕ × ℕ) → ℕ
entry_at i [] = 0
entry_at i (x ∷ q) = if i == length q then x.1 else entry_at i q

-- A device that echoes: its answer `j`, behind those thrown away, is the entry queued in its place.
abbrev pub echo : ℕ → List (ℕ × ℕ) → ℕ → ℕ
echo skipped q j = entry_at (j + skipped) q % 2 ^ 32

echo-newest :
    (skipped : ℕ) (x : ℕ × ℕ) (q : List (ℕ × ℕ)) (j : ℕ)
    → j + skipped ≡ length q
    → echo skipped (x ∷ q) j ≡ x.1 % 2 ^ 32
echo-newest skipped x q j h = ground arith

from_entry-echo :
    (v : ℕ) (c : List ℕ)
    → length c ≤ 3
    → AreBytes c
    → v ≡ to_entry c false % 2 ^ 32
    → from_entry c v false ≡ c
from_entry-echo v c n b e =
    let back = from_entry-to_entry false c c n b refl in
    let whole : to_entry c false % 2 ^ 32 ≡ to_entry c false = omega (arith, back.1) in
    rw (e, whole) back.0

-- One chunk, whatever register its entry goes to.
answered-cons :
    (skipped : ℕ) (q : List (ℕ × ℕ)) (j reg : ℕ) (c : List ℕ) (cs : List (List ℕ))
    (ps : List (ℕ × ℕ)) (rest : List ℕ)
    → length c ≤ 3
    → AreBytes c
    → j + skipped ≡ length q
    → answered (echo skipped) false ((reg, to_entry c false) ∷ q) (j + 1) cs ps ≡ rest
    → answered (echo skipped) false q j (c ∷ cs) ((reg, to_entry c false) ∷ ps) ≡ c ++ rest
answered-cons skipped q j reg c cs ps rest n b h e =
    let x : ℕ × ℕ = (reg, to_entry c false) in
    let one = from_entry-echo (echo skipped (x ∷ q) j) c n b (echo-newest skipped x q j h) in
    ap (λ a. a ++ answered (echo skipped) false (x ∷ q) (j + 1) cs ps) one ∙ ap (λ a. c ++ a) e

answered-echo :
    (skipped : ℕ) (q : List (ℕ × ℕ)) (j : ℕ) (words : List ℕ)
    → AreBytes words
    → j + skipped ≡ length q
    → answered (echo skipped) false q j (chunks words) (plan false (chunks words)) ≡ words
unfolding chunks plan
answered-echo skipped q j [] b h = refl
answered-echo skipped q j (x ∷ []) b h =
    answered-cons skipped q j io (x ∷ []) [] [] [] (omega arith) b h refl
answered-echo skipped q j (x ∷ y ∷ []) b h =
    answered-cons skipped q j io (x ∷ y ∷ []) [] [] [] (omega arith) b h refl
answered-echo skipped q j (x ∷ y ∷ z ∷ rest) b h =
    let c = x ∷ y ∷ z ∷ [] in
    let ps = plan false (chunks rest) in
    let reg = entry_reg (3 + length rest) 0 in
    let p : ℕ × ℕ = (reg, to_entry c false) in
    ap (answered (echo skipped) false q j (c ∷ chunks rest))
      (plan-three false (3 + length rest) 0 x y z rest (omega arith))
    ∙ answered-cons skipped q j reg c (chunks rest) ps rest (omega arith)
        (b.0, (b.1.0, (b.1.1.0, tt))) h
        (answered-echo skipped (p ∷ q) (j + 1) rest b.1.1.1 (omega arith))

-- A blocking transfer of bytes in the least significant order with a device that echoes, so that
-- each answer is the entry that was queued in its place, leaves the slice as it was: what is
-- unpacked from the answers is what was packed for them. Nothing is in flight at the start, the
-- device answers in time, and bit 6 of CONTROL0 and bit 0 of CONTROL1, which the code takes for the
-- two orders, stay 0.
pub transfer_in_place-echoed :
    (skipped fuel : ℕ) (words : List ℕ) (s : Machine)
    → Answers s.hw (echo skipped) false false skipped fuel
    → taken s.log + skipped ≡ length (queued s.log)
    → AreBytes words
    → let r = transfer_in_place fuel words s in (r.0.0 ≡ some tt) × (r.0.1 ≡ words)
transfer_in_place-echoed skipped fuel words s d k b =
    let r = transfer_in_place-answered (echo skipped) false false skipped fuel words s d k in
    (r.0, r.1 ∙ answered-echo skipped (queued s.log) (taken s.log) words b k)
