-- ===== src/Uart/Writer.antt =====
-- src/aux/uart/writer.rs: claiming the transmitter, the writes of `embedded_io`, `nb` and the
-- futures, the interrupt handler.
pub mod Sent
pub mod All
use rpi_devenv.Base.{
  ℕ, zero, suc, ◌+◌, ◌-◌, ◌%◌, ◌^◌, bit_and, bit_or, min, Bool, true, false, not, Option, none,
  some, List, [], ◌∷◌, ◌==◌, ltb, if◌then◌else◌, length, take, drop,
}
use rpi_devenv.Bits.{has, not32, ◌<<<◌, ◌>>>◌}
use rpi_devenv.Machine.{
  M, Machine, ◌>>=◌, ◌>>◌, pure, emit, hinted, read_volatile, write_volatile, data_memory_barrier,
  with_cs, for_each, Poll, ready, pending, NbResult, done, would_block, other, Slot, writer_waker,
  set_waker, wake,
}
use rpi_devenv.Uart.Defs.{
  Config, config_setup, claim, set_up_if, io_reg, interrupt_enable_reg, interrupt_id_reg,
  extra_control_reg, extra_status_reg,
}

abbrev pub fifo_size : ℕ
fifo_size = 8

-- The errors of this half: none.
pub data Infallible : Type 0 where

unfoldable pub get : Config → M Bool
get c = do data_memory_barrier; r ← claim 0b10 0b100; set_up_if c r

unfoldable pub get_unchecked : Config → M (Unit {0})
get_unchecked c = do
  data_memory_barrier
  with_cs (do
    control_reg ← read_volatile extra_control_reg
    write_volatile extra_control_reg (bit_or control_reg 0b10)
    write_volatile interrupt_id_reg 0b100)
  config_setup c

unfoldable pub drop_writer : M (Unit {0})
drop_writer = do
  data_memory_barrier
  with_cs (do
    control_reg ← read_volatile extra_control_reg
    write_volatile extra_control_reg (bit_and control_reg (not32 0b10)))

-- The places free in the FIFO, by the status; the `u32` difference wraps.
unfoldable pub available : ℕ → ℕ
available status = (fifo_size + 2 ^ 32 - bit_and (status >>> 24) 0b1111) % 2 ^ 32

unfoldable pub send : List ℕ → M (Unit {0})
send bytes = for_each (λ byte. write_volatile io_reg byte) bytes

-- The loop that waits for a place; `none` if the fuel ran out.
unfoldable pub wait_available : ℕ → M (Option ℕ)
wait_available zero = pure none
wait_available (suc fuel) = do
  status ← read_volatile extra_status_reg
  let n = available status
  let again = wait_available fuel
  if ltb 0 n then pure (some n) else again

abbrev send_some : List ℕ → Option ℕ → M (Option ℕ)
send_some buf none = pure none
send_some buf (some n) = do
  let to_write = min (length buf) n
  send (take to_write buf)
  pure (some to_write)

unfoldable pub write : ℕ → List ℕ → M (Option ℕ)
write fuel [] = pure (some 0)
write fuel (b ∷ bs) = do data_memory_barrier; n ← wait_available fuel; send_some (b ∷ bs) n

-- `(EXTRA_STATUS << 8) & 1 == 0`, on `u32`.
unfoldable pub still_sending : ℕ → Bool
still_sending status = bit_and (status <<< 8 % 2 ^ 32) 1 == 0

-- `false` if the fuel ran out before the loop ended.
unfoldable pub wait_sent : ℕ → M Bool
wait_sent zero = pure false
wait_sent (suc fuel) = do
  status ← read_volatile extra_status_reg
  let again = emit hinted >> wait_sent fuel
  if still_sending status then again else pure true

unfoldable pub flush : ℕ → M Bool
flush fuel = do data_memory_barrier; wait_sent fuel

unfoldable pub write_ready : M Bool
write_ready = do data_memory_barrier; s ← read_volatile extra_status_reg; pure (has s 0b10)

-- This one has no barrier in front.
unfoldable pub write_nb : ℕ → M (NbResult Infallible (Unit {0}))
write_nb word = do
  status ← read_volatile extra_status_reg
  let fifo_full = bit_and status 0b10 == 0
  if fifo_full then pure would_block else (do write_volatile io_reg word; pure (done tt))

unfoldable pub flush_nb : M (NbResult Infallible (Unit {0}))
flush_nb = do
  data_memory_barrier
  status ← read_volatile extra_status_reg
  if still_sending status then pure would_block else pure (done tt)

-- What both futures do before they return `Pending`.
unfoldable pub await_space : ℕ → M (Unit {0})
await_space w = with_cs (do
  set_waker writer_waker w
  reg ← read_volatile interrupt_enable_reg
  write_volatile interrupt_enable_reg (bit_or reg 0b1110))

unfoldable pub poll_write : ℕ → List ℕ → M (Poll ℕ)
poll_write w [] = pure (ready 0)
poll_write w (b ∷ bs) = do
  data_memory_barrier
  status ← read_volatile extra_status_reg
  let n = available status
  if n == 0 then (do await_space w; pure pending) else (do
    let to_write = min (length (b ∷ bs)) n
    send (take to_write (b ∷ bs))
    pure (ready to_write))

unfoldable pub poll_flush : ℕ → M (Poll (Unit {0}))
poll_flush w = do
  data_memory_barrier
  status ← read_volatile extra_status_reg
  if still_sending status then (do await_space w; pure pending) else pure (ready tt)

-- How `write_all` ended: done, by its panic, or not within the polls given.
pub data WriteAll : Type 0 where
  written panicked out_of_polls : WriteAll

-- The loop of `write_all`; each round is one poll of the write that is awaited.
unfoldable pub write_all : ℕ → ℕ → List ℕ → M WriteAll
write_all zero w buf = pure out_of_polls
write_all (suc polls) w [] = pure written
write_all (suc polls) w (b ∷ bs) = do
  r ← poll_write w (b ∷ bs)
  let further = λ (rest : List ℕ). write_all polls w rest
  elim r [
    | pending ↦ further (b ∷ bs)
    | ready n ↦ if n == 0 then pure panicked else further (drop n (b ∷ bs))
  ]

unfoldable pub interrupt_handler : M (Unit {0})
interrupt_handler = do
  data_memory_barrier
  with_cs (do
    reg ← read_volatile interrupt_enable_reg
    write_volatile interrupt_enable_reg (bit_and reg (not32 0b10))
    wake writer_waker)
