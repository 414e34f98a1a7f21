-- ===== src/Uart/Writer/Sent.antt =====
-- What the writes of src/aux/uart/writer.rs send, and the flushes that never end.
use rpi_devenv.Base.{
  ℕ, zero, suc, ◌/◌, ◌%◌, ◌^◌, ◌≤◌, ◌≡◌, refl, ◌∙◌, true, false, List, [], ◌∷◌, ◌==◌, if◌then◌else◌,
  Bool-cases, inl, inr, arith,
}
use rpi_devenv.Base.{length, take, min, onto}
use rpi_devenv.Bits.{bit_and_step, bit_and_zero, ◌<<<◌}
use rpi_devenv.Machine.{
  Machine, Event, loaded, stored, barrier, hinted, for_each, write_volatile, Poll, ready, pending,
  would_block, set_waker,
}
use rpi_devenv.Uart.Defs.{io_reg, extra_status_reg}
use rpi_devenv.Uart.Writer.{
  available, send, still_sending, wait_sent, flush, flush_nb, poll_flush, await_space, poll_write,
}

-- The values stored to the data register so far, newest first.
unfoldable pub sent : List Event → List ℕ
sent [] = []
sent (stored a v ∷ l) = if a == io_reg then v ∷ sent l else sent l
sent (_ ∷ l) = sent l

pub send-sent :
    (bytes : List ℕ) (s : Machine)
    → (sent (send bytes s).1.log ≡ onto bytes (sent s.log)) × ((send bytes s).1.hw ≡ s.hw)
unfolding send for_each sent onto
send-sent [] s = (refl, refl)
send-sent (b ∷ bytes) s = send-sent bytes (write_volatile io_reg b s).1

pub await_space-sent :
    (w : ℕ) (s : Machine)
    → (sent (await_space w s).1.log ≡ sent s.log) × ((await_space w s).1.hw ≡ s.hw)
unfolding await_space set_waker sent
await_space-sent w s = (refl, refl)

-- What a poll of a write leaves: `Ready(Ok(n))` has sent the first `n` bytes, in order.
abbrev pub Wrote : List ℕ → Machine → Machine → Poll ℕ → Type 0
Wrote buf s t (ready n) = (sent t.log ≡ onto (take n buf) (sent s.log)) × (n ≤ length buf)
Wrote buf s t pending = sent t.log ≡ sent s.log

abbrev status_of : Machine → ℕ
status_of s = s.hw s.log extra_status_reg % 2 ^ 32

-- What a poll reads after its barrier.
abbrev pub status_now : Machine → ℕ
status_now s = s.hw (barrier ∷ s.log) extra_status_reg % 2 ^ 32

module _ (w b : ℕ) (bs : List ℕ) (s : Machine) where
  abbrev pub after_status : Machine
  after_status = record s { log = loaded extra_status_reg (status_now s) ∷ barrier ∷ s.log }

  pub poll_write-full :
      (available (status_now s) == 0) ≡ true
      → poll_write w (b ∷ bs) s ≡ (pending, (await_space w after_status).1)
  unfolding poll_write
  poll_write-full e = ground arith

  pub poll_write-room :
      (available (status_now s) == 0) ≡ false
      → let n = min (length (b ∷ bs)) (available (status_now s)) in
        poll_write w (b ∷ bs) s ≡ (ready n, (send (take n (b ∷ bs)) after_status).1)
  unfolding poll_write
  poll_write-room e = ground arith

-- One poll of a write into a FIFO with no room is pending and sends nothing. Otherwise it sends
-- as many of the first bytes as the FIFO has room for, in order, and reports their number.
pub poll_write-Wrote :
    (w : ℕ) (buf : List ℕ) (s : Machine) → Wrote buf s (poll_write w buf s).1 (poll_write w buf s).0
poll_write-Wrote w [] s = unfold poll_write onto in (refl, omega arith)
poll_write-Wrote w (b ∷ bs) s = elim (Bool-cases (available (status_now s) == 0)) [
  | inl e ↦
      rw (poll_write-full w b bs s e)
        ((await_space-sent w (after_status w b bs s)).0 ∙ unfold sent in refl)
  | inr e ↦
      let n = min (length (b ∷ bs)) (available (status_now s)) in
      rw (poll_write-room w b bs s e)
        ((send-sent (take n (b ∷ bs)) (after_status w b bs s)).0 ∙ unfold sent in refl, omega arith)
]

still_sending_lem : (x : ℕ) → still_sending x ≡ true
unfolding still_sending
still_sending_lem x =
    let even : x <<< 8 % 2 ^ 32 % 2 ≡ 0 = omega arith in
    ground (arith, bit_and_step (x <<< 8 % 2 ^ 32) 1, bit_and_zero (x <<< 8 % 2 ^ 32 / 2))

wait_sent-false : (fuel : ℕ) (s : Machine) → (wait_sent fuel s).0 ≡ false
unfolding wait_sent
wait_sent-false zero s = refl
wait_sent-false (suc fuel) s =
    let x = status_of s in
    rw (still_sending_lem x)
      (wait_sent-false fuel (record s { log = hinted ∷ loaded extra_status_reg x ∷ s.log }))

-- `flush` never sees the end of a transmission, whatever the status says: the blocking one does
-- not return for any number of rounds, the `nb` one would block, the future is pending.
pub flush-never :
    (fuel w : ℕ) (s : Machine)
    → ((flush fuel s).0 ≡ false) × ((flush_nb s).0 ≡ would_block) × ((poll_flush w s).0 ≡ pending)
unfolding flush flush_nb poll_flush
flush-never fuel w s = (
  wait_sent-false fuel (record s { log = barrier ∷ s.log }),
  rw still_sending_lem,
  rw still_sending_lem,
)
