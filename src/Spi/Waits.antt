-- ===== src/Spi/Waits.antt =====
-- The calls of the asynchronous bus of src/aux/spi.rs that wait, with their waker in the slot.
use rpi_devenv.Base.{
  ℕ, ◌+◌, ◌-◌, ◌≡◌, ◌⊎◌, refl, sym, ap, ◌∙◌, Bool, Option, none, some, List, ◌∷◌, inl, inr, arith,
}
use rpi_devenv.Base.{length, subst}
use rpi_devenv.Machine.{Machine, barrier, Poll, ready, pending, spi_waker, set_waker}
use rpi_devenv.Spi.Defs.{control0, control1, busy, read_bit}
use rpi_devenv.Spi.Async.{
  poll_write, poll_flush, WriteCall, flushing, writing, start_write, poll_write_call,
  TransferInPlaceFut, start_transfer, rx_loop, send_or_wait, poll_transfer, await_interrupt,
}
use rpi_devenv.Spi.Calls as Calls
use rpi_devenv.Spi.Calls.{
  TransferCall, transferring, sending_rest, buffer, poll_sending, poll_received, poll_transferring,
  poll_transfer_call,
}
use rpi_devenv.Spi.Queue.{plan, next_bit}
use rpi_devenv.Spi.Polled.{PolledAs, poll_write-PolledAs}

poll_flush-armed :
    (w : ℕ) (s : Machine)
    → (poll_flush w s).0 ≡ pending
    → (poll_flush w s).1.waker spi_waker ≡ some w
unfolding poll_flush busy set_waker
poll_flush-armed w s e = ground arith

PolledAs-armed :
    (w : ℕ) (ms : Bool) (p : List (ℕ × ℕ)) (s : Machine)
    (r : (Poll (Unit {0}) × List (List ℕ)) × Machine)
    → PolledAs w ms p s r
    → r.0.0 ≡ pending
    → r.1.waker spi_waker ≡ some w
PolledAs-armed w ms p s ((ready _, rest), t) h e = cc
PolledAs-armed w ms p s ((pending, rest), t) h e = h.3

poll_write-armed :
    (w : ℕ) (rest : List (List ℕ)) (s : Machine)
    → (poll_write w rest s).0.0 ≡ pending
    → (poll_write w rest s).1.waker spi_waker ≡ some w
poll_write-armed w rest s e =
    let ms = next_bit control0 6 (record s { log = barrier ∷ s.log }) in
    PolledAs-armed w ms (plan ms rest) s (poll_write w rest s) (poll_write-PolledAs w rest s) e

send_or_wait-armed :
    (w : ℕ) (ms : Bool) (f : TransferInPlaceFut) (s : Machine)
    → (send_or_wait w ms f s).0.0 ≡ pending
    → (send_or_wait w ms f s).1.waker spi_waker ≡ some w
unfolding send_or_wait await_interrupt set_waker
send_or_wait-armed w ms f s e = ground arith

poll_transfer-armed :
    (w : ℕ) (f : TransferInPlaceFut) (s : Machine)
    → (poll_transfer w f s).0.0 ≡ pending
    → (poll_transfer w f s).1.waker spi_waker ≡ some w
unfolding poll_transfer
poll_transfer-armed w f s e =
    let out = read_bit control0 6 (record s { log = barrier ∷ s.log }) in
    let order = read_bit control1 0 out.1 in
    let r = rx_loop (length f.whole + 1 - f.rx_index) order.0 f order.1 in
    send_or_wait-armed w out.0 r.0 r.1 e

pub Poll-cases : (r : Poll (Unit {0})) → (r ≡ pending) ⊎ (r ≡ ready tt)
Poll-cases pending = inl refl
Poll-cases (ready _) = inr refl

module _ (w : ℕ) (rest : List (List ℕ)) (s : Machine) where
  pub poll_write_call-waits :
      (poll_flush w s).0 ≡ pending
      → poll_write_call w (flushing rest) s ≡ ((pending, flushing rest), (poll_flush w s).1)
  unfolding poll_write_call
  poll_write_call-waits e = ground arith

  pub poll_write_call-goes_on :
      (poll_flush w s).0 ≡ ready tt
      → poll_write_call w (flushing rest) s ≡ poll_write_call w (writing rest) (poll_flush w s).1
  unfolding poll_write_call
  poll_write_call-goes_on e = ground arith

writing-armed :
    (w : ℕ) (rest : List (List ℕ)) (s : Machine)
    → (poll_write_call w (writing rest) s).0.0 ≡ pending
    → (poll_write_call w (writing rest) s).1.waker spi_waker ≡ some w
unfolding poll_write_call
writing-armed w rest s e = poll_write-armed w rest s e

poll_write_call-armed :
    (w : ℕ) (f : WriteCall) (s : Machine)
    → (poll_write_call w f s).0.0 ≡ pending
    → (poll_write_call w f s).1.waker spi_waker ≡ some w
poll_write_call-armed w (writing rest) s e = writing-armed w rest s e
poll_write_call-armed w (flushing rest) s e = elim (Poll-cases (poll_flush w s).0) [
  | inl waits ↦ rw (poll_write_call-waits w rest s waits) (poll_flush-armed w s waits)
  | inr done ↦
      let on = poll_write_call-goes_on w rest s done in
      subst (λ r. r.1.waker spi_waker ≡ some w) (sym on)
        (writing-armed w rest (poll_flush w s).1 (ap (λ r. r.0.0) (sym on) ∙ e))
]

poll_sending-armed :
    (w : ℕ) (received : List ℕ) (f : WriteCall) (s : Machine)
    → (poll_sending w received f s).0.0 ≡ pending
    → (poll_sending w received f s).1.waker spi_waker ≡ some w
unfolding poll_sending
poll_sending-armed w received f s e = poll_write_call-armed w f s e

poll_received-armed :
    (w : ℕ) (f : TransferInPlaceFut) (rest : Option (List ℕ)) (s : Machine)
    → (poll_received w f rest s).0.0 ≡ pending
    → (poll_received w f rest s).1.waker spi_waker ≡ some w
unfolding poll_received
poll_received-armed w f none s e = cc
poll_received-armed w f (some rest) s e = poll_sending-armed w (buffer f) (start_write rest) s e

module _ (w : ℕ) (f : TransferInPlaceFut) (rest : Option (List ℕ)) (s : Machine) where
  poll_transferring-waits :
      (poll_transfer w f s).0.0 ≡ pending
      → (poll_transferring w f rest s).1 ≡ (poll_transfer w f s).1
  unfolding poll_transferring
  poll_transferring-waits e = ground arith

  pub poll_transferring-goes_on :
      (poll_transfer w f s).0.0 ≡ ready tt
      → poll_transferring w f rest s
        ≡ poll_received w (poll_transfer w f s).0.1 rest (poll_transfer w f s).1
  unfolding poll_transferring
  poll_transferring-goes_on e = ground arith

  poll_transferring-armed :
      (poll_transferring w f rest s).0.0 ≡ pending
      → (poll_transferring w f rest s).1.waker spi_waker ≡ some w
  poll_transferring-armed e = elim (Poll-cases (poll_transfer w f s).0.0) [
    | inl waits ↦ rw (poll_transferring-waits waits) (poll_transfer-armed w f s waits)
    | inr done ↦
        let on = poll_transferring-goes_on done in
        subst (λ r. r.1.waker spi_waker ≡ some w) (sym on)
          (poll_received-armed w (poll_transfer w f s).0.1 rest (poll_transfer w f s).1
            (ap (λ r. r.0.0) (sym on) ∙ e))
  ]

module _ (w : ℕ) (words : List ℕ) (rest : Option (List ℕ)) (s : Machine) where
  poll_transfer_call-waits :
      (poll_flush w s).0 ≡ pending
      → (poll_transfer_call w (Calls.flushing words rest) s).1 ≡ (poll_flush w s).1
  unfolding poll_transfer_call
  poll_transfer_call-waits e = ground arith

  pub poll_transfer_call-goes_on :
      (poll_flush w s).0 ≡ ready tt
      → poll_transfer_call w (Calls.flushing words rest) s
        ≡ poll_transferring w (start_transfer words) rest (poll_flush w s).1
  unfolding poll_transfer_call
  poll_transfer_call-goes_on e = ground arith

poll_transfer_call-armed :
    (w : ℕ) (f : TransferCall) (s : Machine)
    → (poll_transfer_call w f s).0.0 ≡ pending
    → (poll_transfer_call w f s).1.waker spi_waker ≡ some w
unfolding poll_transfer_call
poll_transfer_call-armed w (sending_rest received f) s e = poll_sending-armed w received f s e
poll_transfer_call-armed w (transferring f rest) s e = poll_transferring-armed w f rest s e
poll_transfer_call-armed w (Calls.flushing words rest) s e = elim (Poll-cases (poll_flush w s).0) [
  | inl waits ↦
      subst (λ t. t.waker spi_waker ≡ some w) (sym (poll_transfer_call-waits w words rest s waits))
        (poll_flush-armed w s waits)
  | inr done ↦
      let on = poll_transfer_call-goes_on w words rest s done in
      subst (λ r. r.1.waker spi_waker ≡ some w) (sym on)
        (poll_transferring-armed w (start_transfer words) rest (poll_flush w s).1
          (ap (λ r. r.0.0) (sym on) ∙ e))
]

-- A call of the asynchronous bus whose poll for the task `w` was pending, by the state it left.
pub data Waits (w : ℕ) : Machine → Type 0 where
  in_flush : (s : Machine) → (poll_flush w s).0 ≡ pending → Waits w (poll_flush w s).1
  in_write :
      (f : WriteCall) (s : Machine)
      → (poll_write_call w f s).0.0 ≡ pending
      → Waits w (poll_write_call w f s).1
  in_transfer :
      (f : TransferCall) (s : Machine)
      → (poll_transfer_call w f s).0.0 ≡ pending
      → Waits w (poll_transfer_call w f s).1

pub Waits-armed : (w : ℕ) (s : Machine) → Waits w s → s.waker spi_waker ≡ some w
Waits-armed w s (in_flush t e) = poll_flush-armed w t e
Waits-armed w s (in_write f t e) = poll_write_call-armed w f t e
Waits-armed w s (in_transfer f t e) = poll_transfer_call-armed w f t e
