-- ===== src/Spi/Transfers.antt =====
-- What one poll of `TransferInPlaceFut` in src/aux/spi.rs sends and receives.
use rpi_devenv.Base.{
  ℕ, zero, suc, ◌+◌, ◌-◌, ◌%◌, ◌^◌, ◌≤◌, ◌≡◌, refl, ap, ◌∙◌, Bool, true, ◌||◌, some, List, [], ◌∷◌,
  ◌==◌, ltb, if◌then◌else◌, Bool-cases, inl, inr, arith,
}
use rpi_devenv.Base.{length, onto, subst}
use rpi_devenv.Bits.{◌<<<◌}
use rpi_devenv.Machine.{Machine, loaded, stored, barrier, Poll, ready, pending, spi_waker}
use rpi_devenv.Spi.Defs.{control0, control1, status_reg, io, txhold, read_bit}
use rpi_devenv.Spi.Entry.{to_entry}
use rpi_devenv.Spi.Async.{
  TransferInPlaceFut, slice_at, receive, receive_entry, rx_loop, tx_reg, tx_loop, send_or_wait,
  poll_transfer,
}
use rpi_devenv.Spi.Slices.{entries}
use rpi_devenv.Spi.Queue.{queued, next_bit, read_bit-Quiet, queue}
use rpi_devenv.Spi.Polled.{await_interrupt-Quiet}

-- The buffer's shape, and what is kept of it.
abbrev SameShape : TransferInPlaceFut → TransferInPlaceFut → Type 0
SameShape f g = (length g.whole ≡ length f.whole) × (g.tx_index ≡ f.tx_index)

pub receive-length :
    (cs : List (List ℕ)) (rest : List ℕ) (i entry : ℕ) (ms : Bool)
    → length (receive cs rest i entry ms).0 ≡ length cs
unfolding receive
receive-length [] rest i entry ms = refl
receive-length (c ∷ cs) rest zero entry ms = refl
receive-length (c ∷ cs) rest (suc i) entry ms = ap suc (receive-length cs rest i entry ms)

pub rx_loop-lem :
    (n : ℕ) (ms : Bool) (f : TransferInPlaceFut) (s : Machine)
    → SameShape f (rx_loop n ms f s).0
      × (f.rx_index ≤ (rx_loop n ms f s).0.rx_index)
      × ((rx_loop n ms f s).0.rx_index ≤ f.rx_index + n)
      × (queued (rx_loop n ms f s).1.log ≡ queued s.log)
unfolding rx_loop receive_entry queued
rx_loop-lem zero ms f s = ((refl, refl), omega arith, omega arith, refl)
rx_loop-lem (suc n) ms f s =
    let look = read_bit-Quiet status_reg 7 s in
    let t = (read_bit status_reg 7 s).1 in
    let v = t.hw t.log io % 2 ^ 32 in
    let u : Machine = record t { log = loaded io v ∷ t.log } in
    let g = receive_entry ms v f in
    let len = receive-length f.whole f.rest f.rx_index v ms in
    elim (Bool-cases (next_bit status_reg 7 s)) [
      | inl empty ↦ rw (look.0, empty) ((refl, refl), omega arith, omega arith, look.1.0)
      | inr some_left ↦
          let ih = rx_loop-lem n ms g u in
          rw (look.0, some_left)
            ((ih.0.0 ∙ len, ih.0.1), omega (arith, ih.1), omega (arith, ih.2), ih.3 ∙ look.1.0)
    ]

to_index :
    (f : TransferInPlaceFut) (j k : ℕ)
    → j ≡ k
    → record f { tx_index = j } ≡ record f { tx_index = k }
to_index f j k e = ap (λ (i : ℕ). record f { tx_index = i }) e

tx_reg-queues : (f : TransferInPlaceFut) → (tx_reg f == io || tx_reg f == txhold) ≡ true
tx_reg-queues f = ground arith

pub tx_loop-lem :
    (n : ℕ) (ms : Bool) (f : TransferInPlaceFut) (s : Machine)
    → (count : ℕ) × (count ≤ n)
      × ((tx_loop n ms f s).0 ≡ record f { tx_index = f.tx_index + count })
      × (queued (tx_loop n ms f s).1.log
          ≡ onto (entries ms f.whole f.rest f.tx_index count) (queued s.log))
unfolding tx_loop entries onto queued
tx_loop-lem zero ms f s =
    (0, omega arith, to_index f f.tx_index (f.tx_index + 0) (omega arith), refl)
tx_loop-lem (suc n) ms f s =
    let look = read_bit-Quiet status_reg 10 s in
    let t = (read_bit status_reg 10 s).1 in
    let e = to_entry (slice_at f.whole f.rest f.tx_index) ms in
    let u : Machine = record t { log = stored (tx_reg f) e ∷ t.log } in
    let g : TransferInPlaceFut = record f { tx_index = f.tx_index + 1 } in
    let x : ℕ × ℕ = (tx_reg f, e) in
    elim (Bool-cases (next_bit status_reg 10 s)) [
      | inl full ↦
          rw (look.0, full)
            (0, omega arith, to_index f f.tx_index (f.tx_index + 0) (omega arith), look.1.0)
      | inr room ↦
          let ih = tx_loop-lem n ms g u in
          rw (look.0, room)
            (
              suc ih.0,
              omega (arith, ih.1),
              ih.2 ∙ to_index f (f.tx_index + 1 + ih.0) (f.tx_index + suc ih.0) (omega arith),
              ih.3
                  ∙ ap (onto (entries ms f.whole f.rest (f.tx_index + 1) ih.0))
                      (queue (tx_reg f) e t (tx_reg-queues f) ∙ ap (λ l. x ∷ l) look.1.0),
            )
    ]

-- Ready once more than `n` entries have been received; else pending, with the waker stored.
abbrev pub Answered : ℕ → ℕ → ℕ → (Poll (Unit {0}) × TransferInPlaceFut) × Machine → Type 0
Answered w n received r =
    if ltb n received
    then r.0.0 ≡ ready tt
    else ((r.0.0 ≡ pending) × (r.1.waker spi_waker ≡ some w))

-- How the sending half of a poll may end, for a buffer that has received what it will.
abbrev Sent :
    ℕ
    → Bool
    → TransferInPlaceFut
    → Machine
    → (Poll (Unit {0}) × TransferInPlaceFut) × Machine
    → Type 0
Sent w ms g t r =
    (count : ℕ) × (r.0.1 ≡ record g { tx_index = g.tx_index + count })
    × (g.tx_index + count ≤ length g.whole + 1)
    × (queued r.1.log ≡ onto (entries ms g.whole g.rest g.tx_index count) (queued t.log))
    × Answered w (length g.whole) g.rx_index r

pub send_or_wait-Sent :
    (w : ℕ) (ms : Bool) (g : TransferInPlaceFut) (t : Machine)
    → g.tx_index ≤ length g.whole + 1
    → Sent w ms g t (send_or_wait w ms g t)
unfolding send_or_wait entries onto
send_or_wait-Sent w ms g t h =
    let none_sent = to_index g g.tx_index (g.tx_index + 0) (omega arith) in
    let waits = await_interrupt-Quiet w (1 <<< 6) t in
    let sent = tx_loop-lem (length g.whole + 1 - g.tx_index) ms g t in
    let u = (tx_loop (length g.whole + 1 - g.tx_index) ms g t).1 in
    let waits' = await_interrupt-Quiet w (1 <<< 7) u in
    elim (Bool-cases (ltb (length g.whole) g.rx_index)) [
      | inl received ↦ rw received (0, none_sent, omega arith, refl, refl)
      | inr not_yet ↦ elim (Bool-cases (ltb (length g.whole) g.tx_index)) [
        | inl all_sent ↦
            rw (not_yet, all_sent) (0, none_sent, omega arith, waits.0, (refl, waits.1))
        | inr some_left ↦
            rw (not_yet, some_left)
              (sent.0, sent.2, omega (arith, sent.1), waits'.0 ∙ sent.3, (refl, waits'.1))
      ]
    ]

-- The bit order and the state in which the receiving loop of a poll begins.
abbrev pub order : Machine → Bool
order s = next_bit control0 6 (record s { log = barrier ∷ s.log })

abbrev at_rx : Machine → Machine
at_rx s = (read_bit control1 0 (read_bit control0 6 (record s { log = barrier ∷ s.log })).1).1

-- One poll of a transfer, with the counters in the buffer's `n` whole chunks and the rest behind
-- them. It keeps the number of chunks and moves no counter back or past the end. What it queues is
-- the entries of the slices from the sending counter on, in order, as the buffer stands after the
-- poll, one for each step of that counter. It is ready exactly if all `n + 1` entries have been
-- received, and otherwise has stored the waker.
pub poll_transfer-Moved :
    (w : ℕ) (f : TransferInPlaceFut) (s : Machine)
    → f.tx_index ≤ length f.whole + 1
    → f.rx_index ≤ length f.whole + 1
    → let r = poll_transfer w f s in
      let g = r.0.1 in
      (count : ℕ) × (g.tx_index ≡ f.tx_index + count)
      × (g.tx_index ≤ length f.whole + 1)
      × (queued r.1.log ≡ onto (entries (order s) g.whole g.rest f.tx_index count) (queued s.log))
      × (length g.whole ≡ length f.whole)
      × (f.rx_index ≤ g.rx_index)
      × (g.rx_index ≤ length f.whole + 1)
      × Answered w (length f.whole) g.rx_index r
unfolding poll_transfer queued
poll_transfer-Moved w f s htx hrx =
    let s2 = (read_bit control0 6 (record s { log = barrier ∷ s.log })).1 in
    let look0 = read_bit-Quiet control0 6 (record s { log = barrier ∷ s.log }) in
    let look1 = read_bit-Quiet control1 0 s2 in
    let n = length f.whole in
    let rx = rx_loop-lem (n + 1 - f.rx_index) (next_bit control1 0 s2) f (at_rx s) in
    let g = (rx_loop (n + 1 - f.rx_index) (next_bit control1 0 s2) f (at_rx s)).0 in
    let t = (rx_loop (n + 1 - f.rx_index) (next_bit control1 0 s2) f (at_rx s)).1 in
    let same : queued t.log ≡ queued s.log = rx.3 ∙ look1.1.0 ∙ look0.1.0 in
    let out = send_or_wait-Sent w (order s) g t (omega (arith, rx.0, htx)) in
    let moved =
      ap (λ k. onto (entries (order s) g.whole g.rest k out.0) (queued t.log)) rx.0.1
      ∙ ap (onto (entries (order s) g.whole g.rest f.tx_index out.0)) same in
    rw (look0.0, look1.0, out.1)
      (
        out.0,
        ap (λ k. k + out.0) rx.0.1,
        omega (arith, out.2, rx.0.0),
        out.3 ∙ moved,
        rx.0.0,
        rx.1,
        omega (arith, rx.2),
        subst (λ k. Answered w k g.rx_index (send_or_wait w (order s) g t)) rx.0.0 out.4,
      )
