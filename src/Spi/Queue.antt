-- ===== src/Spi/Queue.antt =====
-- What the log says of the FIFOs of src/aux/spi.rs: the entries queued, the bits read.
use rpi_devenv.Base.{
  ℕ, ◌%◌, ◌^◌, bit_and, ◌≡◌, refl, Bool, true, ◌||◌, List, [], ◌∷◌, ◌==◌, if◌then◌else◌,
}
use rpi_devenv.Bits.{◌>>>◌}
use rpi_devenv.Machine.{Machine, Event, stored}
use rpi_devenv.Spi.Defs.{control0, io, txhold, read_bit}
use rpi_devenv.Spi.Entry.{to_entry}

-- The entries stored to the FIFO so far, each with the register it went to, newest first.
unfoldable pub queued : List Event → List (ℕ × ℕ)
queued [] = []
queued (stored a v ∷ l) = if a == io || a == txhold then (a, v) ∷ queued l else queued l
queued (_ ∷ l) = queued l

-- What a slice is to become: an entry for each chunk, the last one to the register that ends the
-- transfer and the others to the one that holds it.
unfoldable pub plan : Bool → List (List ℕ) → List (ℕ × ℕ)
plan ms [] = []
plan ms (c ∷ []) = (io, to_entry c ms) ∷ []
plan ms (c ∷ d ∷ r) = (txhold, to_entry c ms) ∷ plan ms (d ∷ r)

-- Bit `i` of a register at its next read.
abbrev pub next_bit : ℕ → ℕ → Machine → Bool
next_bit reg i s = bit_and ((s.hw s.log reg % 2 ^ 32) >>> i) 1 == 1

-- A step that queues nothing.
abbrev pub Quiet : Machine → Machine → Type 0
Quiet s t = (queued t.log ≡ queued s.log) × (t.hw ≡ s.hw)

pub read_bit-Quiet :
    (reg i : ℕ) (s : Machine)
    → ((read_bit reg i s).0 ≡ next_bit reg i s) × Quiet s (read_bit reg i s).1
unfolding read_bit queued
read_bit-Quiet reg i s = (refl, (refl, refl))

pub queue :
    (reg v : ℕ) (s : Machine)
    → (reg == io || reg == txhold) ≡ true
    → queued (stored reg v ∷ s.log) ≡ (reg, v) ∷ queued s.log
unfolding queued
queue reg v s e = rw e refl

-- The bit order for the output, asked for by the control register at every time.
unfoldable pub IsOrder : (List Event → ℕ → ℕ) → Bool → Type 0
IsOrder hw ms = (l : List Event) → (bit_and ((hw l control0 % 2 ^ 32) >>> 6) 1 == 1) ≡ ms
