-- ===== src/Uart/Reader.antt =====
-- src/aux/uart/reader.rs: claiming the receiver, the reads of `embedded_io`, `nb` and the futures,
-- the interrupt handler.
pub mod Bytes
pub mod Exact
use rpi_devenv.Base.{
  ℕ, zero, suc, ◌+◌, ◌%◌, ◌^◌, bit_and, bit_or, Bool, true, false, not, Option, none, some, List,
  [], ◌∷◌, ◌==◌, if◌then◌else◌, length,
}
use rpi_devenv.Bits.{has, not32}
use rpi_devenv.Machine.{
  M, Machine, ◌>>=◌, ◌>>◌, pure, read_volatile, write_volatile, data_memory_barrier, with_cs, Poll,
  ready, pending, Result, ok, err, NbResult, done, would_block, other, Slot, reader_waker,
  set_waker, wake,
}
use rpi_devenv.Uart.Defs.{
  Config, config_setup, claim, set_up_if, io_reg, interrupt_enable_reg, interrupt_id_reg,
  line_status_reg, extra_control_reg, extra_status_reg,
}

pub data Error : Type 0 where
  overrun : Error

-- `true` if the reader is returned.
unfoldable pub get : Config → M Bool
get c = do data_memory_barrier; r ← claim 1 0b10; set_up_if c r

unfoldable pub get_unchecked : Config → M (Unit {0})
get_unchecked c = do
  data_memory_barrier
  with_cs (do
    control_reg ← read_volatile extra_control_reg
    write_volatile extra_control_reg (bit_or control_reg 1)
    write_volatile interrupt_id_reg 0b10)
  config_setup c

unfoldable pub drop_reader : M (Unit {0})
drop_reader = do
  data_memory_barrier
  with_cs (do
    control_reg ← read_volatile extra_control_reg
    write_volatile extra_control_reg (bit_and control_reg (not32 1)))

-- What one look at the line status finds.
pub data Look : Type 0 where
  overran empty : Look
  got : ℕ → Look

unfoldable pub look : M Look
look = do
  status_reg ← read_volatile line_status_reg
  if has status_reg 0b10
      then pure overran
      else (if has status_reg 1
          then (do v ← read_volatile io_reg; pure (got (v % 2 ^ 8)))
          else pure empty)

-- The inner loop of the blocking reads: until a byte or an overrun, or, if `leave` is set, until
-- there is nothing to read. `none` if the fuel ran out.
unfoldable pub look_until : ℕ → Bool → M (Option Look)
look_until zero leave = pure none
look_until (suc fuel) leave = do
  l ← look
  let again = look_until fuel leave
  elim l [
    | overran ↦ pure (some overran)
    | got v ↦ pure (some (got v))
    | empty ↦ if leave then pure (some empty) else again
  ]

-- `eio::Read::read` from slot `count` on, with the buffer's slots from there.
unfoldable pub read_from : ℕ → ℕ → List ℕ → M (Option (Result Error ℕ) × List ℕ)
read_from fuel count [] = pure (some (ok count), [])
read_from fuel count (b ∷ bs) = do
  l ← look_until fuel (not (count == 0))
  let further = read_from fuel (count + 1) bs
  elim l [
    | none ↦ pure (none, b ∷ bs)
    | some overran ↦ pure (some (err overrun), b ∷ bs)
    | some empty ↦ pure (some (ok count), b ∷ bs)
    | some (got v) ↦ (do (r, bs') ← further; pure (r, v ∷ bs'))
  ]

unfoldable pub read : ℕ → List ℕ → M (Option (Result Error ℕ) × List ℕ)
unfolding read_from look_until look
read fuel buf = do data_memory_barrier; read_from fuel 0 buf

unfoldable pub read_all : ℕ → List ℕ → M (Option (Result Error (Unit {0})) × List ℕ)
read_all fuel [] = pure (some (ok tt), [])
read_all fuel (b ∷ bs) = do
  l ← look_until fuel false
  let further = read_all fuel bs
  elim l [
    | none ↦ pure (none, b ∷ bs)
    | some overran ↦ pure (some (err overrun), b ∷ bs)
    | some empty ↦ pure (none, b ∷ bs)
    | some (got v) ↦ (do (r, bs') ← further; pure (r, v ∷ bs'))
  ]

unfoldable pub read_exact : ℕ → List ℕ → M (Option (Result Error (Unit {0})) × List ℕ)
unfolding read_all look_until look
read_exact fuel buf = do data_memory_barrier; read_all fuel buf

unfoldable pub read_ready : M Bool
read_ready = do data_memory_barrier; s ← read_volatile extra_status_reg; pure (has s 1)

abbrev nb_result : Look → NbResult Error ℕ
nb_result overran = other overrun
nb_result (got v) = done v
nb_result empty = would_block

unfoldable pub read_nb : M (NbResult Error ℕ)
unfolding look
read_nb = do data_memory_barrier; l ← look; pure (nb_result l)

-- What both futures do before they return `Pending`.
unfoldable pub await_data : ℕ → M (Unit {0})
await_data w = with_cs (do
  set_waker reader_waker w
  reg ← read_volatile interrupt_enable_reg
  write_volatile interrupt_enable_reg (bit_or reg 0b1101))

-- The loop of `ReadFut::poll` from slot `count` on.
unfoldable pub poll_from : ℕ → ℕ → List ℕ → M (Poll (Result Error ℕ) × List ℕ)
poll_from w count [] = pure (ready (ok count), [])
poll_from w count (b ∷ bs) = do
  l ← look
  let further = poll_from w (count + 1) bs
  elim l [
    | overran ↦ pure (ready (err overrun), b ∷ bs)
    | got v ↦ (do (r, bs') ← further; pure (r, v ∷ bs'))
    | empty ↦
        if count == 0
        then (do await_data w; pure (pending, b ∷ bs))
        else pure (ready (ok count), b ∷ bs)
  ]

unfoldable pub poll_read : ℕ → List ℕ → M (Poll (Result Error ℕ) × List ℕ)
poll_read w buf = do data_memory_barrier; poll_from w 0 buf

-- The slots that the iterator of a `ReadExactFut` has yielded, last first, and those to come.
pub record ReadExactFut : Type 0 where
  pub yielded : List ℕ
  pub to_come : List ℕ

-- The iterator yields a slot before the line status is looked at.
unfoldable pub poll_slots : ℕ → List ℕ → List ℕ → M (Poll (Result Error (Unit {0})) × ReadExactFut)
poll_slots w ys [] = pure (ready (ok tt), record { yielded = ys; to_come = [] })
poll_slots w ys (b ∷ bs) = do
  l ← look
  let further = λ (v : ℕ). poll_slots w (v ∷ ys) bs
  elim l [
    | overran ↦ pure (ready (err overrun), record { yielded = b ∷ ys; to_come = bs })
    | empty ↦ (do await_data w; pure (pending, record { yielded = b ∷ ys; to_come = bs }))
    | got v ↦ further v
  ]

unfoldable pub poll_read_exact :
    ℕ → ReadExactFut → M (Poll (Result Error (Unit {0})) × ReadExactFut)
poll_read_exact w f = do data_memory_barrier; poll_slots w f.yielded f.to_come

unfoldable pub interrupt_handler : M (Unit {0})
interrupt_handler = do
  data_memory_barrier
  with_cs (do
    reg ← read_volatile interrupt_enable_reg
    write_volatile interrupt_enable_reg (bit_and reg (not32 1))
    wake reader_waker)
