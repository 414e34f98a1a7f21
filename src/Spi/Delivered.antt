-- ===== src/Spi/Delivered.antt =====
-- What the async `transfer` of src/aux/spi.rs queues, from its call on: the flush, the transfer, and
-- the write of what is left.
use rpi_devenv.Base.{
  ℕ, ◌+◌, ◌-◌, ◌≡◌, refl, sym, ap, ◌∙◌, Bool, true, false, Option, none, some, List, [], ◌++◌, leb,
  Bool-cases, inl, inr, arith,
}
use rpi_devenv.Base.{length, drop-all, onto, onto-append, append_assoc, append-nil, subst}
use rpi_devenv.Machine.{Machine, Poll, ready, pending}
use rpi_devenv.Spi.Entry.{chunks}
use rpi_devenv.Spi.Async.{start_write, start_transfer}
use rpi_devenv.Spi.Calls as Calls
use rpi_devenv.Spi.Calls.{
  TransferCall, start_transfer_call, transferring, sending_rest, buffer, poll_sending,
  poll_received, poll_transferring, poll_transfer_call,
}
use rpi_devenv.Spi.Slices.{entries, entries-more}
use rpi_devenv.Spi.Queue.{queued, plan, IsOrder}
use rpi_devenv.Spi.Originals.{taken, IsFifo}
use rpi_devenv.Spi.Life.{SentOf, Alive-SentOf}
use rpi_devenv.Spi.Written.{WrittenOf}
use rpi_devenv.Spi.Lengths.{exchanged, rest_of, exchanged-short, exchanged-long}
use rpi_devenv.Spi.Flushed.{left_in, Called-WrittenOf}
use rpi_devenv.Spi.Ongoing.{Ongoing, exchange_plan, rest_plan, Stands, alive, Ongoing-Stands}

-- All the entries `total` were queued, in order; or, while the call is pending, some of the first.
abbrev pub DeliveredOf : List (ℕ × ℕ) → Poll (Unit {0}) → List (ℕ × ℕ) → List (ℕ × ℕ) → Type 0
DeliveredOf total (ready _) q0 q = q ≡ onto total q0
DeliveredOf total pending q0 q =
    (part : List (ℕ × ℕ)) × (more : List (ℕ × ℕ)) × (part ++ more ≡ total) × (q ≡ onto part q0)

SentOf-DeliveredOf :
    (ms : Bool) (words : List ℕ) (extra q0 q : List (ℕ × ℕ))
    → SentOf ms (start_transfer words) pending q0 q
    → DeliveredOf (exchange_plan ms words ++ extra) pending q0 q
SentOf-DeliveredOf ms words extra q0 q (count, fits, e) =
    let f0 = start_transfer words in
    let k = length f0.whole + 1 - count in
    let part = entries ms f0.whole f0.rest 0 count in
    let more = entries ms f0.whole f0.rest count k in
    let all : count + k ≡ length f0.whole + 1 = omega (arith, fits) in
    let whole : part ++ more ≡ exchange_plan ms words =
      sym (entries-more ms f0.whole f0.rest count k) ∙ ap (entries ms f0.whole f0.rest 0) all in
    (part, more ++ extra, sym (append_assoc part more extra) ∙ ap (λ l. l ++ extra) whole, e)

WrittenOf-DeliveredOf :
    (ms : Bool) (sent extra q0 q1 q : List (ℕ × ℕ)) (p : Poll (Unit {0})) (cs : List (List ℕ))
    → q1 ≡ onto sent q0
    → WrittenOf ms extra q1 p cs q
    → DeliveredOf (sent ++ extra) p q0 q
WrittenOf-DeliveredOf ms sent extra q0 q1 q (ready _) cs e h =
    h ∙ ap (onto extra) e ∙ sym (onto-append sent extra q0)
WrittenOf-DeliveredOf ms sent extra q0 q1 q pending cs e (part, whole, h) = (
  sent ++ part,
  plan ms cs,
  append_assoc sent part (plan ms cs) ∙ ap (λ l. sent ++ l) whole,
  h ∙ ap (onto part) e ∙ sym (onto-append sent part q0),
)

module _ (ms : Bool) (skipped : ℕ) (words : List ℕ) (rest : Option (List ℕ)) (s0 : Machine)
    (fifo : IsFifo s0.hw skipped) (asked : IsOrder s0.hw ms)
    (empty : taken s0.log + skipped ≡ length (queued s0.log)) where
  Stands-DeliveredOf :
      (p : Poll (Unit {0})) (c : TransferCall) (s : Machine)
      → Stands ms skipped words rest s0 fifo asked empty p c s
      → DeliveredOf (exchange_plan ms words ++ rest_plan ms rest) p (queued s0.log) (queued s.log)
  unfolding Stands onto start_write
  Stands-DeliveredOf p (Calls.flushing ws r) s (e, k, waits, same) =
      rw waits ([], exchange_plan ms words ++ rest_plan ms rest, refl, same.1)
  Stands-DeliveredOf pending (transferring f r) s (e, k, s1, same, l) =
      let sent =
        Alive-SentOf ms skipped (start_transfer words) s1 pending f s
          (alive ms skipped words rest s0 fifo asked empty s1 pending f s same l) in
      SentOf-DeliveredOf ms words (rest_plan ms rest) (queued s0.log) (queued s.log)
        (subst (λ x. SentOf ms (start_transfer words) pending x (queued s.log)) same.1 sent)
  Stands-DeliveredOf (ready x) (transferring f r) s (e, inl k, s1, same, l) = cc
  Stands-DeliveredOf (ready x) (transferring f r) s (e, inr none_left, s1, same, l) =
      let sent =
        Alive-SentOf ms skipped (start_transfer words) s1 (ready x) f s
          (alive ms skipped words rest s0 fifo asked empty s1 (ready x) f s same l) in
      rw (none_left, append-nil (exchange_plan ms words))
        (sent ∙ ap (onto (exchange_plan ms words)) same.1)
  Stands-DeliveredOf p (sending_rest received c) s (out, e, s2, h, q, l) =
      let a = Called-WrittenOf (chunks out) s2 ms (rw h asked) l in
      rw e (
        WrittenOf-DeliveredOf ms (exchange_plan ms words) (plan ms (chunks out)) (queued s0.log)
          (queued s2.log) (queued s.log) p (left_in c) q a.1)

  pub Ongoing-DeliveredOf :
      {p : Poll (Unit {0})} {c : TransferCall} {s : Machine}
      → Ongoing (Calls.flushing words rest) s0 p c s
      → DeliveredOf (exchange_plan ms words ++ rest_plan ms rest) p (queued s0.log) (queued s.log)
  Ongoing-DeliveredOf {p} {c} {s} l =
      Stands-DeliveredOf p c s (Ongoing-Stands ms skipped words rest s0 fifo asked empty l)

start_transfer_call-short :
    (read' out : List ℕ)
    → leb (length out) (length read') ≡ true
    → start_transfer_call read' out ≡ Calls.flushing (exchanged read' out) none
unfolding start_transfer_call
start_transfer_call-short read' out e = rw (e, exchanged-short read' out (ground arith)) refl

start_transfer_call-long :
    (read' out : List ℕ)
    → leb (length out) (length read') ≡ false
    → start_transfer_call read' out
      ≡ Calls.flushing (exchanged read' out) (some (rest_of read' out))
unfolding start_transfer_call
start_transfer_call-long read' out e = rw (e, exchanged-long read' out (ground arith)) refl

-- The async `transfer` from one slice into another, of any two lengths, from its call on. After any
-- polls, each with its own waker, through the flush, the transfer and the write of the rest, with
-- anything between them that leaves the FIFOs alone, what was queued is the first of the entries of
-- the slice that is exchanged and then of the rest, in order; and all of them if the call is ready.
-- The receive FIFO shows no entry before one was sent for it, nothing is in flight at the start,
-- and the bit order in the control register stays.
pub start_transfer_call-DeliveredOf :
    (ms : Bool) (skipped : ℕ) (read' out : List ℕ) (s0 : Machine) (p : Poll (Unit {0}))
    (c : TransferCall) (s : Machine)
    → IsFifo s0.hw skipped
    → IsOrder s0.hw ms
    → taken s0.log + skipped ≡ length (queued s0.log)
    → Ongoing (start_transfer_call read' out) s0 p c s
    → DeliveredOf
        (exchange_plan ms (exchanged read' out) ++ plan ms (chunks (rest_of read' out)))
        p
        (queued s0.log)
        (queued s.log)
start_transfer_call-DeliveredOf ms skipped read' out s0 p c s fifo asked empty l =
    let words = exchanged read' out in
    elim (Bool-cases (leb (length out) (length read'))) [
      | inl short ↦
          let e = start_transfer_call-short read' out short in
          let nothing : rest_of read' out ≡ [] = drop-all (length read') out (ground arith) in
          let none_left : plan ms (chunks (rest_of read' out)) ≡ [] =
            rw nothing (unfold chunks plan in refl) in
          rw none_left (
            Ongoing-DeliveredOf ms skipped words none s0 fifo asked empty
              (subst (λ c0. Ongoing c0 s0 p c s) e l))
      | inr long ↦
          let e = start_transfer_call-long read' out long in
          Ongoing-DeliveredOf ms skipped words (some (rest_of read' out)) s0 fifo asked empty
            (subst (λ c0. Ongoing c0 s0 p c s) e l)
    ]
