-- ===== src/Spi/Bus.antt =====
-- The blocking `hal::spi::SpiBus` of src/aux/spi.rs. A loop that waits runs on fuel; its callers
-- return `none` when it ran out.
use rpi_devenv.Base.{
  ℕ, zero, suc, ◌+◌, ◌*◌, Bool, true, false, Option, none, some, List, [], ◌∷◌, ◌++◌, leb,
  if◌then◌else◌,
}
use rpi_devenv.Base.{length, take, drop}
use rpi_devenv.Machine.{
  M, ◌>>=◌, ◌>>◌, pure, emit, hinted, read_volatile, write_volatile, data_memory_barrier,
}
use rpi_devenv.Spi.Defs.{status_reg, control0, control1, io, txhold, read_bit, busy, clear_fifos}
use rpi_devenv.Spi.Entry.{to_entry, from_entry, chunks}

-- The slice that consists of the given chunks.
unfoldable pub concat : List (List ℕ) → List ℕ
concat [] = []
concat (c ∷ cs) = c ++ concat cs

-- `while STATUS >> i & 1 == 1 {}`; `false` if the fuel ran out.
unfoldable pub wait_clear : ℕ → ℕ → M Bool
wait_clear zero i = pure false
wait_clear (suc fuel) i = do
  set ← read_bit status_reg i
  let again = wait_clear fuel i
  if set then again else pure true

-- The last entry goes to the register that ends the transfer.
abbrev pub entry_reg : ℕ → ℕ → ℕ
entry_reg len index = if leb len ((index + 1) * 3) then io else txhold

-- The loop of `write` from chunk `index` on, of a slice of `len` bytes.
unfoldable pub write_chunks : ℕ → Bool → ℕ → ℕ → List (List ℕ) → M (Option (Unit {0}))
write_chunks fuel ms len index [] = pure (some tt)
write_chunks fuel ms len index (chunk ∷ rest) = do
  let entry = to_entry chunk ms
  room ← wait_clear fuel 10
  let further = write_chunks fuel ms len (index + 1) rest
  if room then (do write_volatile (entry_reg len index) entry; further) else pure none

unfoldable pub write : ℕ → List ℕ → M (Option (Unit {0}))
write fuel words = do
  data_memory_barrier
  ms_bit_first ← read_bit control0 6
  write_chunks fuel ms_bit_first (length words) 0 (chunks words)

-- The spin loop of `flush`; `false` if the fuel ran out.
unfoldable pub wait_idle : ℕ → M Bool
wait_idle zero = pure false
wait_idle (suc fuel) = do
  b ← busy
  let again = emit hinted >> wait_idle fuel
  if b then again else pure true

unfoldable pub flush : ℕ → M (Option (Unit {0}))
flush fuel = do
  data_memory_barrier
  idle ← wait_idle fuel
  if idle then (do clear_fifos; pure (some tt)) else pure none

-- The loop of `transfer_in_place`, with the bytes that it leaves in the slice.
unfoldable pub transfer_chunks :
    ℕ → Bool → Bool → ℕ → ℕ → List (List ℕ) → M (Option (Unit {0}) × List ℕ)
transfer_chunks fuel out_ms in_ms len index [] = pure (some tt, [])
transfer_chunks fuel out_ms in_ms len index (chunk ∷ rest) = do
  write_volatile (entry_reg len index) (to_entry chunk out_ms)
  arrived ← wait_clear fuel 7
  let further = transfer_chunks fuel out_ms in_ms len (index + 1) rest
  if arrived
      then (do
        entry ← read_volatile io
        (r, words) ← further
        pure (r, from_entry chunk entry in_ms ++ words))
      else pure (none, concat (chunk ∷ rest))

abbrev transfer_flushed : ℕ → List ℕ → Option (Unit {0}) → M (Option (Unit {0}) × List ℕ)
transfer_flushed fuel words none = pure (none, words)
transfer_flushed fuel words (some _) = do
  out_ms_bit_first ← read_bit control0 6
  in_ms_bit_first ← read_bit control1 0
  transfer_chunks fuel out_ms_bit_first in_ms_bit_first (length words) 0 (chunks words)

unfoldable pub transfer_in_place : ℕ → List ℕ → M (Option (Unit {0}) × List ℕ)
transfer_in_place fuel words = do
  data_memory_barrier
  idle ← flush fuel
  transfer_flushed fuel words idle

unfoldable pub read : ℕ → List ℕ → M (Option (Unit {0}) × List ℕ)
read fuel words = transfer_in_place fuel words

-- What is left to send after the slice to read into is full.
abbrev write_rest : ℕ → List ℕ → Option (Unit {0}) × List ℕ → M (Option (Unit {0}) × List ℕ)
write_rest fuel rest (none, read') = pure (none, read')
write_rest fuel rest (some _, read') = do r ← write fuel rest; pure (r, read')

-- The slice `read` after the call is the second component.
unfoldable pub transfer : ℕ → List ℕ → List ℕ → M (Option (Unit {0}) × List ℕ)
transfer fuel read' out =
    if leb (length out) (length read')
    then transfer_in_place fuel (out ++ drop (length out) read')
    else (do
      done ← transfer_in_place fuel (take (length read') out)
      write_rest fuel (drop (length read') out) done)
