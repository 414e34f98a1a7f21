-- ===== src/Spi/Flushed.antt =====
-- The async `write` of src/aux/spi.rs from its call on: the flush that it awaits, then the write.
use rpi_devenv.Base.{ℕ, ◌≡◌, refl, sym, ◌∙◌, Bool, List, [], inl, inr, arith}
use rpi_devenv.Base.{onto, subst}
use rpi_devenv.Machine.{Machine, Poll, pending, set_waker}
use rpi_devenv.Spi.Defs.{busy, clear_fifos, read_bit}
use rpi_devenv.Spi.Entry.{chunks}
use rpi_devenv.Spi.Async.{poll_flush, WriteCall, flushing, writing, start_write, poll_write_call}
use rpi_devenv.Spi.Queue.{queued, plan, Quiet, IsOrder}
use rpi_devenv.Spi.Written.{Writing, WrittenOf, Writing-WrittenOf}
use rpi_devenv.Spi.Written as Written
use rpi_devenv.Spi.Waits.{Poll-cases, poll_write_call-waits, poll_write_call-goes_on}

-- What the last poll returned, the call and the machine. Each poll may have its own waker; between
-- polls anything may happen that queues nothing.
pub data Called (c0 : WriteCall) (s0 : Machine)
    : Poll (Unit {0}) → WriteCall → Machine → Type 0 where
  begun : Called c0 s0 pending c0 s0
  polled :
      {c : WriteCall} {s : Machine}
      → Called c0 s0 pending c s
      → (w : ℕ)
      → Called c0 s0
          (poll_write_call w c s).0.0
          (poll_write_call w c s).0.1
          (poll_write_call w c s).1
  meanwhile :
      {p : Poll (Unit {0})} {c : WriteCall} {s : Machine}
      → Called c0 s0 p c s
      → (t : Machine) → t.hw ≡ s.hw
      → queued t.log ≡ queued s.log
      → Called c0 s0 p c t

pub poll_flush-Quiet : (w : ℕ) (s : Machine) → Quiet s (poll_flush w s).1
unfolding poll_flush busy clear_fifos set_waker read_bit queued
poll_flush-Quiet w s = ground arith

-- The chunks that a call has left.
abbrev pub left_in : WriteCall → List (List ℕ)
left_in (flushing cs) = cs
left_in (writing cs) = cs

-- Where a call stands.
Stands : List (List ℕ) → Machine → Poll (Unit {0}) → WriteCall → Machine → Type 0
Stands cs0 s0 p (flushing cs) s =
    (cs ≡ cs0) × (p ≡ pending) × (s.hw ≡ s0.hw) × (queued s.log ≡ queued s0.log)
Stands cs0 s0 p (writing cs) s =
    (s1 : Machine) × (s1.hw ≡ s0.hw) × (queued s1.log ≡ queued s0.log) × Writing cs0 s1 p cs s

module _ (cs0 : List (List ℕ)) (s0 : Machine) where
  writing-Stands :
      (w : ℕ) (cs : List (List ℕ)) (s s1 : Machine)
      → s1.hw ≡ s0.hw
      → queued s1.log ≡ queued s0.log
      → Writing cs0 s1 pending cs s
      → let r = poll_write_call w (writing cs) s in Stands cs0 s0 r.0.0 r.0.1 r.1
  unfolding poll_write_call Stands
  writing-Stands w cs s s1 h q l = (s1, h, q, Written.polled l w)

  polled-Stands :
      (w : ℕ) (c : WriteCall) (s : Machine)
      → Stands cs0 s0 pending c s
      → let r = poll_write_call w c s in Stands cs0 s0 r.0.0 r.0.1 r.1
  unfolding Stands
  polled-Stands w (writing cs) s (s1, h, q, l) = writing-Stands w cs s s1 h q l
  polled-Stands w (flushing cs) s (e, p, h, q) =
      let still = poll_flush-Quiet w s in
      let u = (poll_flush w s).1 in
      elim (Poll-cases (poll_flush w s).0) [
        | inl waits ↦
            let step = poll_write_call-waits w cs s waits in
            subst (λ r. Stands cs0 s0 r.0.0 r.0.1 r.1) (sym step)
              (e, refl, still.1 ∙ h, still.0 ∙ q)
        | inr done ↦
            let step = poll_write_call-goes_on w cs s done in
            subst (λ r. Stands cs0 s0 r.0.0 r.0.1 r.1) (sym step)
              (writing-Stands w cs u u (still.1 ∙ h) (still.0 ∙ q)
                (subst (λ x. Writing cs0 u pending x u) (sym e) Written.begun))
      ]

  later-Stands :
      (p : Poll (Unit {0})) (c : WriteCall) (s t : Machine)
      → t.hw ≡ s.hw
      → queued t.log ≡ queued s.log
      → Stands cs0 s0 p c s
      → Stands cs0 s0 p c t
  unfolding Stands
  later-Stands p (flushing cs) s t h q (e, k, h', q') = (e, k, h ∙ h', q ∙ q')
  later-Stands p (writing cs) s t h q (s1, h', q', l) = (s1, h', q', Written.meanwhile l t h q)

  Stands-WrittenOf :
      (ms : Bool) (p : Poll (Unit {0})) (c : WriteCall) (s : Machine)
      → IsOrder s0.hw ms
      → Stands cs0 s0 p c s
      → (s.hw ≡ s0.hw) × WrittenOf ms (plan ms cs0) (queued s0.log) p (left_in c) (queued s.log)
  unfolding Stands onto
  Stands-WrittenOf ms p (flushing cs) s asked (e, k, h, q) = rw (k, e) (h, ([], refl, q))
  Stands-WrittenOf ms p (writing cs) s asked (s1, h, q, l) =
      let a = Writing-WrittenOf ms cs0 s1 (rw h asked) l in
      (a.0 ∙ h, subst (λ x. WrittenOf ms (plan ms cs0) x p cs (queued s.log)) q a.1)

  Called-Stands :
      {p : Poll (Unit {0})} {c : WriteCall} {s : Machine}
      → Called (flushing cs0) s0 p c s
      → Stands cs0 s0 p c s
  unfolding Stands
  Called-Stands begun = (refl, refl, refl, refl)
  Called-Stands (polled {c} {s} l w) = polled-Stands w c s (Called-Stands l)
  Called-Stands (meanwhile {p} {c} {s} l t h q) = later-Stands p c s t h q (Called-Stands l)

  pub Called-WrittenOf :
      (ms : Bool) {p : Poll (Unit {0})} {c : WriteCall} {s : Machine}
      → IsOrder s0.hw ms
      → Called (flushing cs0) s0 p c s
      → (s.hw ≡ s0.hw) × WrittenOf ms (plan ms cs0) (queued s0.log) p (left_in c) (queued s.log)
  Called-WrittenOf ms {p} {c} {s} asked l = Stands-WrittenOf ms p c s asked (Called-Stands l)

-- The async `write` of a slice, from its call on. After any polls, each with its own waker, through
-- the flush and the write, with anything between them that queues nothing, the entries queued are
-- the first ones of the slice's chunks, in order, and those of the chunks left complete them; if the
-- call is ready, all were queued, each once, the last one to the register that ends the transfer.
-- The bit order in the control register stays.
pub start_write-WrittenOf :
    (ms : Bool) (words : List ℕ) (s0 : Machine) (p : Poll (Unit {0})) (c : WriteCall) (s : Machine)
    → IsOrder s0.hw ms
    → Called (start_write words) s0 p c s
    → WrittenOf ms (plan ms (chunks words)) (queued s0.log) p (left_in c) (queued s.log)
unfolding start_write
start_write-WrittenOf ms words s0 p c s asked l = (Called-WrittenOf (chunks words) s0 ms asked l).1
