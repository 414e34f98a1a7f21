-- ===== src/Spi/Device.antt =====
-- A device behind the auxiliary SPI of src/aux/spi.rs that answers each entry, and the waits of
-- the blocking calls for it.
use rpi_devenv.Base.{
  ℕ, zero, suc, ◌+◌, ◌%◌, ◌^◌, ◌<◌, bit_and, ◌≡◌, refl, Bool, true, some, List, [], ◌∷◌, ◌++◌, ◌==◌,
  Bool-cases, inl, inr, arith,
}
use rpi_devenv.Base.{length}
use rpi_devenv.Bits.{◌>>>◌}
use rpi_devenv.Machine.{Machine, Event, loaded, barrier, hinted}
use rpi_devenv.Spi.Defs.{status_reg, io, read_bit, busy, clear_fifos}
use rpi_devenv.Spi.Entry.{from_entry}
use rpi_devenv.Spi.Queue.{queued, IsOrder}
use rpi_devenv.Spi.Bus.{wait_clear, wait_idle, flush}
use rpi_devenv.Spi.Originals.{taken}
use rpi_devenv.Spi.Replies.{IsInputBit}

-- Does a read of the status after the events `l` find bit `i` set?
abbrev pub shows : (List Event → ℕ → ℕ) → ℕ → List Event → Bool
shows hw i l = bit_and ((hw l status_reg % 2 ^ 32) >>> i) 1 == 1

-- The peripheral with a device behind it, at the addresses that the code gives its registers: bit 6
-- of CONTROL0 and bit 0 of CONTROL1 stay; what is read from the data register is a function `reply`
-- of the entries queued so far, with their registers, and of how many were taken before; the answer
-- to an entry arrives within a number of looks at the status that is bounded by `fuel`, and the
-- peripheral does not stay busy for more looks than that. `skipped` answers were thrown away.
pub record Answers (hw : List Event → ℕ → ℕ) (reply : List (ℕ × ℕ) → ℕ → ℕ) (out_ms in_ms : Bool)
    (skipped fuel : ℕ) : Type 0 where
  pub out_order : IsOrder hw out_ms
  pub in_order : IsInputBit hw in_ms
  pub replies : (l : List Event) → hw l io % 2 ^ 32 ≡ reply (queued l) (taken l)
  pub late : List Event → ℕ
  pub soon : (l : List Event) → late l < fuel
  pub nearer :
      (v : ℕ) (l : List Event)
      → taken l + skipped < length (queued l)
      → shows hw 7 l ≡ true
      → late (loaded status_reg v ∷ l) < late l
  pub calm : List Event → ℕ
  pub calm_soon : (l : List Event) → calm l < fuel
  pub calmer :
      (v : ℕ) (l : List Event)
      → shows hw 6 l ≡ true
      → calm (hinted ∷ loaded status_reg v ∷ l) < calm l

-- What the buffer gets for its chunks, each of which is sent as the entry of `ps` in its place,
-- after the entries `q` were queued and `j` taken.
abbrev pub answered :
    (List (ℕ × ℕ) → ℕ → ℕ) → Bool → List (ℕ × ℕ) → ℕ → List (List ℕ) → List (ℕ × ℕ) → List ℕ
answered reply ms q j [] ps = []
answered reply ms q j (c ∷ cs) [] = []
answered reply ms q j (c ∷ cs) (p ∷ ps) =
    from_entry c (reply (p ∷ q) j) ms ++ answered reply ms (p ∷ q) (j + 1) cs ps

-- Steps that leave the FIFOs alone.
abbrev pub Still : Machine → Machine → Type 0
Still s t = (queued t.log ≡ queued s.log) × (t.hw ≡ s.hw) × (taken t.log ≡ taken s.log)

pub wait_clear-taken : (fuel i : ℕ) (s : Machine) → taken (wait_clear fuel i s).1.log ≡ taken s.log
unfolding wait_clear read_bit taken
wait_clear-taken zero i s = refl
wait_clear-taken (suc fuel) i s =
    ground (arith, wait_clear-taken fuel i (read_bit status_reg i s).1)

module _ {hw : List Event → ℕ → ℕ} {reply : List (ℕ × ℕ) → ℕ → ℕ} {out_ms in_ms : Bool}
    {skipped fuel : ℕ} (d : Answers hw reply out_ms in_ms skipped fuel) where
  pub wait_clear-answered :
      (n : ℕ) (s : Machine)
      → s.hw ≡ hw
      → d.late s.log < n
      → taken s.log + skipped < length (queued s.log)
      → (wait_clear n 7 s).0 ≡ true
  unfolding wait_clear read_bit taken queued
  wait_clear-answered zero s e h k = absurd (omega arith)
  wait_clear-answered (suc n) s e h k =
      let v = s.hw s.log status_reg % 2 ^ 32 in
      let t : Machine = record s { log = loaded status_reg v ∷ s.log } in
      elim (Bool-cases (shows s.hw 7 s.log)) [
        | inl empty ↦
            let on = d.nearer v s.log k (rw e at empty) in
            rw empty (wait_clear-answered n t e (omega (arith, on)) k)
        | inr there ↦ rw there refl
      ]

  wait_idle-Still :
      (n : ℕ) (s : Machine)
      → s.hw ≡ hw
      → d.calm s.log < n
      → ((wait_idle n s).0 ≡ true) × Still s (wait_idle n s).1
  unfolding wait_idle busy read_bit taken queued
  wait_idle-Still zero s e h = absurd (omega arith)
  wait_idle-Still (suc n) s e h =
      let v = s.hw s.log status_reg % 2 ^ 32 in
      let t : Machine = record s { log = hinted ∷ loaded status_reg v ∷ s.log } in
      elim (Bool-cases (shows s.hw 6 s.log)) [
        | inl is_busy ↦
            let on = d.calmer v s.log (rw e at is_busy) in
            let ih = wait_idle-Still n t e (omega (arith, on)) in rw is_busy ih
        | inr idle ↦ rw idle (refl, (refl, refl, refl))
      ]

  pub flush-Still :
      (s : Machine) → s.hw ≡ hw → ((flush fuel s).0 ≡ some tt) × Still s (flush fuel s).1
  unfolding flush clear_fifos taken queued
  flush-Still s e =
      let s1 : Machine = record s { log = barrier ∷ s.log } in
      let idle = wait_idle-Still fuel s1 e (d.calm_soon s1.log) in rw idle.0 (refl, idle.1)
