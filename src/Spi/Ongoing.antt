-- ===== src/Spi/Ongoing.antt =====
-- The async `transfer` and `transfer_in_place` of src/aux/spi.rs over any polls: where a call stands.
use rpi_devenv.Base.{
  ℕ, ◌+◌, ◌≡◌, ◌⊎◌, refl, sym, ap, ◌∙◌, Bool, Option, none, some, List, [], inl, inr, arith,
}
use rpi_devenv.Base.{length, onto, subst}
use rpi_devenv.Machine.{Machine, Poll, ready, pending, set_waker}
use rpi_devenv.Spi.Defs.{busy, clear_fifos, read_bit}
use rpi_devenv.Spi.Entry.{chunks}
use rpi_devenv.Spi.Async.{
  poll_flush, WriteCall, start_write, TransferInPlaceFut, start_transfer, poll_transfer,
}
use rpi_devenv.Spi.Calls as Calls
use rpi_devenv.Spi.Calls.{
  TransferCall, start_transfer_call, transferring, sending_rest, buffer, poll_sending,
  poll_received, poll_transferring, poll_transfer_call,
}
use rpi_devenv.Spi.Slices.{entries}
use rpi_devenv.Spi.Queue.{queued, plan, IsOrder}
use rpi_devenv.Spi.Originals.{taken, IsFifo}
use rpi_devenv.Spi.Life.{Life, Alive, Life-Alive, Alive-SentOf}
use rpi_devenv.Spi.Waits.{Poll-cases, poll_transferring-goes_on, poll_transfer_call-goes_on}
use rpi_devenv.Spi.Flushed.{Called, left_in, Called-WrittenOf, poll_flush-Quiet}
use rpi_devenv.Spi.Flushed as Flushed

-- What the last poll returned, the call and the machine. Each poll may have its own waker; between
-- polls anything may happen that leaves the FIFOs alone.
pub data Ongoing (c0 : TransferCall) (s0 : Machine)
    : Poll (Unit {0}) → TransferCall → Machine → Type 0 where
  begun : Ongoing c0 s0 pending c0 s0
  polled :
      {c : TransferCall} {s : Machine}
      → Ongoing c0 s0 pending c s
      → (w : ℕ)
      → Ongoing c0 s0
          (poll_transfer_call w c s).0.0
          (poll_transfer_call w c s).0.1
          (poll_transfer_call w c s).1
  meanwhile :
      {p : Poll (Unit {0})} {c : TransferCall} {s : Machine}
      → Ongoing c0 s0 p c s
      → (t : Machine) → t.hw ≡ s.hw
      → queued t.log ≡ queued s.log
      → taken t.log ≡ taken s.log
      → Ongoing c0 s0 p c t

poll_flush-taken : (w : ℕ) (s : Machine) → taken (poll_flush w s).1.log ≡ taken s.log
unfolding poll_flush busy clear_fifos set_waker read_bit taken
poll_flush-taken w s = ground arith

-- A state from which the FIFOs have been left alone.
abbrev pub Same : Machine → Machine → Type 0
Same s t = (t.hw ≡ s.hw) × (queued t.log ≡ queued s.log) × (taken t.log ≡ taken s.log)

module _ (w : ℕ) (s : Machine) where
  poll_transferring-waits :
      (f : TransferInPlaceFut) (rest : Option (List ℕ))
      → (poll_transfer w f s).0.0 ≡ pending
      → poll_transferring w f rest s
        ≡ ((pending, transferring (poll_transfer w f s).0.1 rest), (poll_transfer w f s).1)
  unfolding poll_transferring
  poll_transferring-waits f rest e = ground arith

  poll_transfer_call-waits :
      (words : List ℕ) (rest : Option (List ℕ))
      → (poll_flush w s).0 ≡ pending
      → poll_transfer_call w (Calls.flushing words rest) s
        ≡ ((pending, Calls.flushing words rest), (poll_flush w s).1)
  unfolding poll_transfer_call
  poll_transfer_call-waits words rest e = ground arith

-- The entries of the whole call: of the slice that is transferred, and of what is left to send.
abbrev pub exchange_plan : Bool → List ℕ → List (ℕ × ℕ)
exchange_plan ms words =
    let f0 = start_transfer words in entries ms f0.whole f0.rest 0 (length f0.whole + 1)

abbrev pub rest_plan : Bool → Option (List ℕ) → List (ℕ × ℕ)
rest_plan ms none = []
rest_plan ms (some out) = plan ms (chunks out)

module _ (ms : Bool) (skipped : ℕ) (words : List ℕ) (rest : Option (List ℕ)) (s0 : Machine)
    (fifo : IsFifo s0.hw skipped) (asked : IsOrder s0.hw ms)
    (empty : taken s0.log + skipped ≡ length (queued s0.log)) where
  -- Where a call stands.
  unfoldable pub Stands : Poll (Unit {0}) → TransferCall → Machine → Type 0
  Stands p (Calls.flushing ws r) s = (ws ≡ words) × (r ≡ rest) × (p ≡ pending) × Same s0 s
  Stands p (transferring f r) s =
      (r ≡ rest)
      × ((p ≡ pending) ⊎ (rest ≡ none))
      × (s1 : Machine) × Same s0 s1
      × Life (start_transfer words) s1 p f s
  Stands p (sending_rest received c) s =
      (out : List ℕ) × (rest ≡ some out)
      × (s2 : Machine) × (s2.hw ≡ s0.hw)
      × (queued s2.log ≡ onto (exchange_plan ms words) (queued s0.log))
      × Called (start_write out) s2 p c s

  -- The state of a transfer that began in `s1`.
  pub alive :
      (s1 : Machine) (p : Poll (Unit {0})) (f : TransferInPlaceFut) (s : Machine)
      → Same s0 s1
      → Life (start_transfer words) s1 p f s
      → Alive ms skipped (start_transfer words) s1 p f s
  alive s1 p f s same l =
      Life-Alive ms skipped (start_transfer words) s1 (rw same.0 fifo) (rw same.0 asked)
        (unfold start_transfer in refl) (unfold start_transfer in refl)
        (omega (arith, same.2, ap length same.1, empty)) l

  sending-Stands :
      (w : ℕ) (received out : List ℕ) (c : WriteCall) (s s2 : Machine)
      → rest ≡ some out
      → s2.hw ≡ s0.hw
      → queued s2.log ≡ onto (exchange_plan ms words) (queued s0.log)
      → Called (start_write out) s2 pending c s
      → let r = poll_sending w received c s in Stands r.0.0 r.0.1 r.1
  unfolding poll_sending Stands
  sending-Stands w received out c s s2 e h q l = (out, e, s2, h, q, Flushed.polled l w)

  -- A transfer that has become ready.
  received-Stands :
      (w : ℕ) (f : TransferInPlaceFut) (r : Option (List ℕ)) (s s1 : Machine)
      → r ≡ rest
      → Same s0 s1
      → Life (start_transfer words) s1 (ready tt) f s
      → let x = poll_received w f r s in Stands x.0.0 x.0.1 x.1
  unfolding poll_received Stands
  received-Stands w f none s s1 e same l = (e, inr (sym e), s1, same, l)
  received-Stands w f (some out) s s1 e same l =
      let a = alive s1 (ready tt) f s same l in
      let sent = Alive-SentOf ms skipped (start_transfer words) s1 (ready tt) f s a in
      sending-Stands w (buffer f) out (start_write out) s s (sym e) (a.same_hw ∙ same.0)
        (sent ∙ ap (onto (exchange_plan ms words)) same.1) Flushed.begun

  transferring-Stands :
      (w : ℕ) (f : TransferInPlaceFut) (r : Option (List ℕ)) (s s1 : Machine)
      → r ≡ rest
      → Same s0 s1
      → Life (start_transfer words) s1 pending f s
      → let x = poll_transferring w f r s in Stands x.0.0 x.0.1 x.1
  unfolding Stands
  transferring-Stands w f r s s1 e same l =
      let x = poll_transfer w f s in
      let next = Life.polled l w in
      elim (Poll-cases x.0.0) [
        | inl waits ↦
            let step = poll_transferring-waits w s f r waits in
            subst (λ y. Stands y.0.0 y.0.1 y.1) (sym step)
              (
                e,
                inl refl,
                s1,
                same,
                subst (λ p. Life (start_transfer words) s1 p x.0.1 x.1) waits next,
              )
        | inr done ↦
            let step = poll_transferring-goes_on w f r s done in
            subst (λ y. Stands y.0.0 y.0.1 y.1) (sym step)
              (received-Stands w x.0.1 r x.1 s1 e same
                (subst (λ p. Life (start_transfer words) s1 p x.0.1 x.1) done next))
      ]

  flushing-Stands :
      (w : ℕ) (ws : List ℕ) (r : Option (List ℕ)) (s : Machine)
      → ws ≡ words
      → r ≡ rest
      → Same s0 s
      → let x = poll_transfer_call w (Calls.flushing ws r) s in Stands x.0.0 x.0.1 x.1
  unfolding Stands
  flushing-Stands w ws r s e k same =
      let u = (poll_flush w s).1 in
      let quiet = poll_flush-Quiet w s in
      let after : Same s0 u = (quiet.1 ∙ same.0, quiet.0 ∙ same.1, poll_flush-taken w s ∙ same.2) in
      elim (Poll-cases (poll_flush w s).0) [
        | inl waits ↦
            let step = poll_transfer_call-waits w s ws r waits in
            subst (λ y. Stands y.0.0 y.0.1 y.1) (sym step) (e, k, refl, after)
        | inr done ↦
            let step = poll_transfer_call-goes_on w ws r s done in
            subst (λ y. Stands y.0.0 y.0.1 y.1) (sym step)
              (transferring-Stands w (start_transfer ws) r u u k after
                (subst (λ x. Life (start_transfer x) u pending (start_transfer ws) u) e Life.begun))
      ]

  polled-Stands :
      (w : ℕ) (c : TransferCall) (s : Machine)
      → Stands pending c s
      → let x = poll_transfer_call w c s in Stands x.0.0 x.0.1 x.1
  unfolding poll_transfer_call Stands
  polled-Stands w (Calls.flushing ws r) s (e, k, p, same) = flushing-Stands w ws r s e k same
  polled-Stands w (transferring f r) s (e, p, s1, same, l) = transferring-Stands w f r s s1 e same l
  polled-Stands w (sending_rest received c) s (out, e, s2, h, q, l) =
      sending-Stands w received out c s s2 e h q l

  later-Stands :
      (p : Poll (Unit {0})) (c : TransferCall) (s t : Machine)
      → Same s t
      → Stands p c s
      → Stands p c t
  unfolding Stands
  later-Stands p (Calls.flushing ws r) s t (h, q, k) (e, e', e'', same) =
      (e, e', e'', (h ∙ same.0, q ∙ same.1, k ∙ same.2))
  later-Stands p (transferring f r) s t (h, q, k) (e, e', s1, same, l) =
      (e, e', s1, same, Life.meanwhile l t h q k)
  later-Stands p (sending_rest received c) s t (h, q, k) (out, e, s2, h', q', l) =
      (out, e, s2, h', q', Flushed.meanwhile l t h q)

  pub Ongoing-Stands :
      {p : Poll (Unit {0})} {c : TransferCall} {s : Machine}
      → Ongoing (Calls.flushing words rest) s0 p c s
      → Stands p c s
  unfolding Stands
  Ongoing-Stands begun = (refl, refl, refl, (refl, refl, refl))
  Ongoing-Stands (polled {c} {s} l w) = polled-Stands w c s (Ongoing-Stands l)
  Ongoing-Stands (meanwhile {p} {c} {s} l t h q k) =
      later-Stands p c s t (h, q, k) (Ongoing-Stands l)
