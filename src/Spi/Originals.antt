-- ===== src/Spi/Originals.antt =====
-- The life of a `TransferInPlaceFut` of src/aux/spi.rs over a hardware whose receive FIFO holds
-- nothing before it was sent: the buffer is overwritten while it is sent.
use rpi_devenv.Base.{
  ℕ, zero, suc, ◌+◌, ◌-◌, ◌%◌, ◌^◌, ◌≤◌, ◌<◌, bit_and, ◌≡◌, refl, ap, ◌∙◌, Bool, false, List, [],
  ◌∷◌, ◌==◌, ltb, if◌then◌else◌, Bool-cases, inl, inr, arith,
}
use rpi_devenv.Base.{length}
use rpi_devenv.Bits.{◌<<<◌, ◌>>>◌}
use rpi_devenv.Machine.{Machine, Event, loaded, stored, barrier, set_waker}
use rpi_devenv.Spi.Defs.{control0, control1, status_reg, io, read_bit}
use rpi_devenv.Spi.Entry.{to_entry}
use rpi_devenv.Spi.Async.{
  await_interrupt, TransferInPlaceFut, slice_at, receive, receive_entry, rx_loop, tx_reg, tx_loop,
  send_or_wait, poll_transfer,
}
use rpi_devenv.Spi.Slices.{entries, length-onto, length-entries}
use rpi_devenv.Spi.Queue.{queued, next_bit, read_bit-Quiet}
use rpi_devenv.Spi.Transfers.{receive-length, rx_loop-lem, send_or_wait-Sent}

-- How many entries have been read from the receive FIFO.
unfoldable pub taken : List Event → ℕ
taken [] = 0
taken (loaded a v ∷ l) = if a == io then suc (taken l) else taken l
taken (_ ∷ l) = taken l

-- Whenever the status says that the receive FIFO is not empty, fewer entries have been taken, and
-- `skipped` before the transfer, than were queued.
unfoldable pub IsFifo : (List Event → ℕ → ℕ) → ℕ → Type 0
IsFifo hw skipped =
    (l : List Event)
    → (bit_and ((hw l status_reg % 2 ^ 32) >>> 7) 1 == 1) ≡ false
    → taken l + skipped < length (queued l)

-- The entries in flight.
abbrev pub Balanced : ℕ → TransferInPlaceFut → Machine → Type 0
Balanced skipped f s = taken s.log + skipped + f.tx_index ≡ length (queued s.log) + f.rx_index

-- The slices that are still to be received are as they were.
abbrev SameFrom : TransferInPlaceFut → TransferInPlaceFut → Type 0
SameFrom f g =
    (j : ℕ)
    → g.rx_index ≤ j
    → j ≤ length f.whole
    → slice_at g.whole g.rest j ≡ slice_at f.whole f.rest j

receive-slice :
    (cs : List (List ℕ)) (rest : List ℕ) (i entry : ℕ) (ms : Bool) (j : ℕ)
    → i < j
    → j ≤ length cs
    → slice_at (receive cs rest i entry ms).0 (receive cs rest i entry ms).1 j ≡ slice_at cs rest j
unfolding receive slice_at
receive-slice [] rest i entry ms j h k = absurd (omega arith)
receive-slice (c ∷ cs) rest zero entry ms zero h k = absurd (omega arith)
receive-slice (c ∷ cs) rest zero entry ms (suc j) h k = refl
receive-slice (c ∷ cs) rest (suc i) entry ms zero h k = absurd (omega arith)
receive-slice (c ∷ cs) rest (suc i) entry ms (suc j) h k =
    receive-slice cs rest i entry ms j (omega arith) (omega arith)

rx_loop-kept :
    (n skipped : ℕ) (ms : Bool) (f : TransferInPlaceFut) (s : Machine)
    → IsFifo s.hw skipped
    → Balanced skipped f s
    → f.rx_index ≤ f.tx_index
    → f.rx_index + n ≤ length f.whole + 1
    → let r = rx_loop n ms f s in
      Balanced skipped r.0 r.1 × (r.0.rx_index ≤ r.0.tx_index) × SameFrom f r.0 × (r.1.hw ≡ s.hw)
unfolding rx_loop receive_entry queued taken IsFifo read_bit
rx_loop-kept zero skipped ms f s fifo b h k = (b, h, λ j _ _. refl, refl)
rx_loop-kept (suc n) skipped ms f s fifo b h k =
    let look = read_bit-Quiet status_reg 7 s in
    let t = (read_bit status_reg 7 s).1 in
    let v = t.hw t.log io % 2 ^ 32 in
    let u : Machine = record t { log = loaded io v ∷ t.log } in
    let g = receive_entry ms v f in
    let len = receive-length f.whole f.rest f.rx_index v ms in
    elim (Bool-cases (next_bit status_reg 7 s)) [
      | inl empty ↦ rw (look.0, empty) (b, h, λ j _ _. refl, look.1.1)
      | inr some_left ↦
          let arrived = fifo s.log some_left in
          let ih =
            rx_loop-kept n skipped ms g u fifo (omega (arith, b)) (omega arith)
              (omega (arith, len)) in
          let on = (rx_loop-lem n ms g u).1 in
          let same : SameFrom f (rx_loop n ms g u).0 = λ j lo hi.
            ih.2 j lo (omega (arith, len, hi))
            ∙ receive-slice f.whole f.rest f.rx_index v ms j (omega (arith, on, lo)) hi in
          rw (look.0, some_left) (ih.0, ih.1, same, ih.3)
    ]

-- The sending half takes nothing.
await_interrupt-taken :
    (w e : ℕ) (s : Machine)
    → (taken (await_interrupt w e s).1.log ≡ taken s.log) × ((await_interrupt w e s).1.hw ≡ s.hw)
unfolding await_interrupt set_waker taken
await_interrupt-taken w e s = (refl, refl)

tx_loop-taken :
    (n : ℕ) (ms : Bool) (f : TransferInPlaceFut) (s : Machine)
    → (taken (tx_loop n ms f s).1.log ≡ taken s.log) × ((tx_loop n ms f s).1.hw ≡ s.hw)
unfolding tx_loop taken read_bit
tx_loop-taken zero ms f s = (refl, refl)
tx_loop-taken (suc n) ms f s =
    let look = read_bit-Quiet status_reg 10 s in
    let t = (read_bit status_reg 10 s).1 in
    let e = to_entry (slice_at f.whole f.rest f.tx_index) ms in
    let u : Machine = record t { log = stored (tx_reg f) e ∷ t.log } in
    let g : TransferInPlaceFut = record f { tx_index = f.tx_index + 1 } in
    elim (Bool-cases (next_bit status_reg 10 s)) [
      | inl full ↦ rw (look.0, full) (refl, refl)
      | inr room ↦ let ih = tx_loop-taken n ms g u in rw (look.0, room) (ih.0, ih.1)
    ]

pub send_or_wait-taken :
    (w : ℕ) (ms : Bool) (g : TransferInPlaceFut) (t : Machine)
    → (taken (send_or_wait w ms g t).1.log ≡ taken t.log) × ((send_or_wait w ms g t).1.hw ≡ t.hw)
unfolding send_or_wait
send_or_wait-taken w ms g t =
    let waits = await_interrupt-taken w (1 <<< 6) t in
    let sent = tx_loop-taken (length g.whole + 1 - g.tx_index) ms g t in
    let u = (tx_loop (length g.whole + 1 - g.tx_index) ms g t).1 in
    let waits' = await_interrupt-taken w (1 <<< 7) u in
    elim (Bool-cases (ltb (length g.whole) g.rx_index)) [
      | inl received ↦ rw received (refl, refl)
      | inr not_yet ↦ elim (Bool-cases (ltb (length g.whole) g.tx_index)) [
        | inl all_sent ↦ rw (not_yet, all_sent) waits
        | inr some_left ↦ rw (not_yet, some_left) (waits'.0 ∙ sent.0, waits'.1 ∙ sent.1)
      ]
    ]

-- One poll takes no more than was queued, and leaves alone the slices that are still to be received.
pub poll_transfer-kept :
    (w skipped : ℕ) (f : TransferInPlaceFut) (s : Machine)
    → IsFifo s.hw skipped
    → Balanced skipped f s
    → f.rx_index ≤ f.tx_index
    → f.tx_index ≤ length f.whole + 1
    → let r = poll_transfer w f s in
      Balanced skipped r.0.1 r.1
      × (r.0.1.rx_index ≤ f.tx_index)
      × SameFrom f r.0.1
      × (r.1.hw ≡ s.hw)
unfolding poll_transfer queued taken read_bit IsFifo
poll_transfer-kept w skipped f s fifo b h k =
    let s2 = (read_bit control0 6 (record s { log = barrier ∷ s.log })).1 in
    let s3 = (read_bit control1 0 s2).1 in
    let ms = (read_bit control0 6 (record s { log = barrier ∷ s.log })).0 in
    let in_ms = (read_bit control1 0 s2).0 in
    let left = length f.whole + 1 - f.rx_index in
    let rx = rx_loop-kept left skipped in_ms f s3 fifo b h (omega arith) in
    let shape = (rx_loop-lem left in_ms f s3).0 in
    let g = (rx_loop left in_ms f s3).0 in
    let t = (rx_loop left in_ms f s3).1 in
    let out = send_or_wait-Sent w ms g t (omega (arith, shape, k)) in
    let quiet = send_or_wait-taken w ms g t in
    let sent =
      ap length out.3 ∙ length-onto (entries ms g.whole g.rest g.tx_index out.0) (queued t.log) in
    let count = length-entries ms g.whole g.rest g.tx_index out.0 in
    rw out.1
      (omega (arith, rx.0, quiet.0, sent, count), omega (arith, rx.1, shape), rx.2, quiet.1 ∙ rx.3)
