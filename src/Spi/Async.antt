-- ===== src/Spi/Async.antt =====
-- The futures of src/aux/spi.rs.
use rpi_devenv.Base.{ℕ, zero, suc, ◌+◌, ◌-◌, bit_or, Bool, List, [], ◌∷◌, ltb, if◌then◌else◌}
use rpi_devenv.Base.{length}
use rpi_devenv.Bits.{◌<<<◌}
use rpi_devenv.Machine.{
  M, ◌>>=◌, ◌>>◌, pure, read_volatile, write_volatile, data_memory_barrier, with_cs, spi_waker,
  set_waker, Poll, ready, pending,
}
use rpi_devenv.Spi.Defs.{status_reg, control0, control1, io, txhold, read_bit, busy, clear_fifos}
use rpi_devenv.Spi.Entry.{to_entry, from_entry, chunks, as_chunks}

-- Store the waker and enable an interrupt, in one critical section.
unfoldable pub await_interrupt : ℕ → ℕ → M (Unit {0})
await_interrupt w enable = with_cs (do
  set_waker spi_waker w
  reg ← read_volatile control1
  write_volatile control1 (bit_or reg enable))

-- The loop of `WriteFut::poll`, with the chunks that the iterator is left with.
unfoldable pub poll_chunks : ℕ → Bool → List (List ℕ) → M (Poll (Unit {0}) × List (List ℕ))
poll_chunks w ms [] = do
  full ← read_bit status_reg 10
  if full then (do await_interrupt w (1 <<< 7); pure (pending, [])) else pure (ready tt, [])
poll_chunks w ms (chunk ∷ []) = do
  full ← read_bit status_reg 10
  if full
      then (do await_interrupt w (1 <<< 7); pure (pending, chunk ∷ []))
      else (do write_volatile io (to_entry chunk ms); pure (ready tt, []))
poll_chunks w ms (chunk ∷ next ∷ rest) = do
  full ← read_bit status_reg 10
  let further = poll_chunks w ms (next ∷ rest)
  if full
      then (do await_interrupt w (1 <<< 7); pure (pending, chunk ∷ next ∷ rest))
      else (do write_volatile txhold (to_entry chunk ms); further)

unfoldable pub poll_write : ℕ → List (List ℕ) → M (Poll (Unit {0}) × List (List ℕ))
poll_write w rest = do
  data_memory_barrier
  ms_bit_first ← read_bit control0 6
  poll_chunks w ms_bit_first rest

unfoldable pub poll_flush : ℕ → M (Poll (Unit {0}))
poll_flush w = do
  data_memory_barrier
  b ← busy
  if b
      then (do
        with_cs (set_waker spi_waker w)
        reg ← read_volatile control1
        write_volatile control1 (bit_or reg (1 <<< 6))
        pure pending)
      else (do clear_fifos; pure (ready tt))

-- `write` as a future: it flushes, then writes.
pub data WriteCall : Type 0 where
  flushing writing : List (List ℕ) → WriteCall

abbrev as_writing : Poll (Unit {0}) × List (List ℕ) → Poll (Unit {0}) × WriteCall
as_writing (r, rest) = (r, writing rest)

unfoldable pub start_write : List ℕ → WriteCall
start_write words = flushing (chunks words)

unfoldable pub poll_write_call : ℕ → WriteCall → M (Poll (Unit {0}) × WriteCall)
poll_write_call w (writing rest) = do r ← poll_write w rest; pure (as_writing r)
poll_write_call w (flushing rest) = do
  r ← poll_flush w
  elim r [
    | pending ↦ pure (pending, flushing rest)
    | ready _ ↦ (do r' ← poll_write w rest; pure (as_writing r'))
  ]

-- The whole chunks, the bytes left, and the numbers of entries sent and received.
pub record TransferInPlaceFut : Type 0 where
  pub whole : List (List ℕ)
  pub rest : List ℕ
  pub tx_index : ℕ
  pub rx_index : ℕ

unfoldable pub start_transfer : List ℕ → TransferInPlaceFut
start_transfer words = record {
  whole = (as_chunks words).0;
  rest = (as_chunks words).1;
  tx_index = 0;
  rx_index = 0;
}

-- The slice at index `i`, the bytes left if `i` is behind the chunks.
unfoldable pub slice_at : List (List ℕ) → List ℕ → ℕ → List ℕ
slice_at [] rest i = rest
slice_at (c ∷ cs) rest zero = c
slice_at (c ∷ cs) rest (suc i) = slice_at cs rest i

-- One entry received at index `i`.
unfoldable pub receive : List (List ℕ) → List ℕ → ℕ → ℕ → Bool → List (List ℕ) × List ℕ
receive [] rest i entry ms = ([], from_entry rest entry ms)
receive (c ∷ cs) rest zero entry ms = (from_entry c entry ms ∷ cs, rest)
receive (c ∷ cs) rest (suc i) entry ms = let r = receive cs rest i entry ms in (c ∷ r.0, r.1)

unfoldable pub receive_entry : Bool → ℕ → TransferInPlaceFut → TransferInPlaceFut
receive_entry ms entry f =
    let r = receive f.whole f.rest f.rx_index entry ms in
    record { whole = r.0; rest = r.1; tx_index = f.tx_index; rx_index = f.rx_index + 1 }

-- The receiving loop; the first argument is how many entries are still to come.
unfoldable pub rx_loop : ℕ → Bool → TransferInPlaceFut → M TransferInPlaceFut
rx_loop zero ms f = do read_volatile status_reg; pure f
rx_loop (suc left) ms f = do
  empty ← read_bit status_reg 7
  let further = λ (f' : TransferInPlaceFut). rx_loop left ms f'
  if empty then pure f else (do entry ← read_volatile io; further (receive_entry ms entry f))

abbrev pub tx_reg : TransferInPlaceFut → ℕ
tx_reg f = if ltb f.tx_index (length f.whole) then txhold else io

-- The sending loop; the first argument is how many entries are still to go.
unfoldable pub tx_loop : ℕ → Bool → TransferInPlaceFut → M TransferInPlaceFut
tx_loop zero ms f = do read_volatile status_reg; pure f
tx_loop (suc left) ms f = do
  full ← read_bit status_reg 10
  let further = λ (f' : TransferInPlaceFut). tx_loop left ms f'
  if full then pure f else (do
    write_volatile (tx_reg f) (to_entry (slice_at f.whole f.rest f.tx_index) ms)
    further (record f { tx_index = f.tx_index + 1 }))

-- What follows the receiving loop.
unfoldable pub send_or_wait :
    ℕ → Bool → TransferInPlaceFut → M (Poll (Unit {0}) × TransferInPlaceFut)
send_or_wait w out_ms f =
    if ltb (length f.whole) f.rx_index
    then pure (ready tt, f)
    else (if ltb (length f.whole) f.tx_index
        then (do await_interrupt w (1 <<< 6); pure (pending, f))
        else (do
          f' ← tx_loop (length f.whole + 1 - f.tx_index) out_ms f
          await_interrupt w (1 <<< 7)
          pure (pending, f')))

unfoldable pub poll_transfer : ℕ → TransferInPlaceFut → M (Poll (Unit {0}) × TransferInPlaceFut)
poll_transfer w f = do
  data_memory_barrier
  out_ms_bit_first ← read_bit control0 6
  in_ms_bit_first ← read_bit control1 0
  f' ← rx_loop (length f.whole + 1 - f.rx_index) in_ms_bit_first f
  send_or_wait w out_ms_bit_first f'
