-- ===== src/Spi/Life.antt =====
-- A `TransferInPlaceFut` of src/aux/spi.rs from its start on, over any polls and what happens
-- between them.
use rpi_devenv.Base.{
  ℕ, ◌+◌, ◌≤◌, ◌<◌, ◌≡◌, refl, sym, ap, ◌∙◌, Bool, some, List, ◌++◌, ltb, if◌then◌else◌, Bool-cases,
  inl, inr, arith,
}
use rpi_devenv.Base.{length, onto, onto-append, subst}
use rpi_devenv.Machine.{Machine, Poll, ready, pending, spi_waker}
use rpi_devenv.Spi.Async.{TransferInPlaceFut, start_transfer, slice_at, poll_transfer}
use rpi_devenv.Spi.Slices.{entries, entries-more, entries-same}
use rpi_devenv.Spi.Queue.{queued, IsOrder}
use rpi_devenv.Spi.Transfers.{order, Answered, poll_transfer-Moved}
use rpi_devenv.Spi.Originals.{taken, IsFifo, Balanced, poll_transfer-kept}

-- What the last poll returned, the future and the machine. Each poll may have its own waker;
-- between polls anything may happen that leaves the FIFOs alone.
pub data Life (f0 : TransferInPlaceFut) (s0 : Machine)
    : Poll (Unit {0}) → TransferInPlaceFut → Machine → Type 0 where
  begun : Life f0 s0 pending f0 s0
  polled :
      {f : TransferInPlaceFut} {s : Machine}
      → Life f0 s0 pending f s
      → (w : ℕ)
      → Life f0 s0 (poll_transfer w f s).0.0 (poll_transfer w f s).0.1 (poll_transfer w f s).1
  meanwhile :
      {p : Poll (Unit {0})} {f : TransferInPlaceFut} {s : Machine}
      → Life f0 s0 p f s
      → (t : Machine) → t.hw ≡ s.hw
      → queued t.log ≡ queued s.log
      → taken t.log ≡ taken s.log
      → Life f0 s0 p f t

-- A future that is ready has received every entry.
abbrev pub AtEnd : Poll (Unit {0}) → ℕ → ℕ → Type 0
AtEnd (ready _) n received = n < received
AtEnd pending n received = Unit {0}

ready-pending : {x : Unit {0}} {B : Type 0} → ready x ≡ pending → B
ready-pending h = cc

pub Answered-AtEnd :
    (w n received : ℕ) (r : (Poll (Unit {0}) × TransferInPlaceFut) × Machine)
    → Answered w n received r
    → AtEnd r.0.0 n received
Answered-AtEnd w n received ((pending, f), s) h = tt
Answered-AtEnd w n received ((ready x, f), s) h = elim (Bool-cases (ltb n received)) [
  | inl more ↦ ground (arith, more)
  | inr less ↦
      let waits =
        subst
          (λ (b : Bool).
            if b then ready x ≡ ready tt else ((ready x ≡ pending) × (s.waker spi_waker ≡ some w)))
          less h in
      ready-pending waits.0
]

-- What holds at every time of the transfer's life.
pub record Alive (ms : Bool) (skipped : ℕ) (f0 : TransferInPlaceFut) (s0 : Machine)
    (p : Poll (Unit {0})) (f : TransferInPlaceFut) (s : Machine) : Type 0 where
  pub same_hw : s.hw ≡ s0.hw
  pub balanced : Balanced skipped f s
  pub behind : f.rx_index ≤ f.tx_index
  pub within : f.tx_index ≤ length f.whole + 1
  pub shape : length f.whole ≡ length f0.whole
  pub sent : queued s.log ≡ onto (entries ms f0.whole f0.rest 0 f.tx_index) (queued s0.log)
  pub to_receive :
      (j : ℕ)
      → f.rx_index ≤ j
      → j ≤ length f0.whole
      → slice_at f.whole f.rest j ≡ slice_at f0.whole f0.rest j
  pub at_end : AtEnd p (length f0.whole) f.rx_index

module _ (ms : Bool) (skipped : ℕ) (f0 : TransferInPlaceFut) (s0 : Machine)
    (fifo : IsFifo s0.hw skipped) (asked : IsOrder s0.hw ms) where
  polled-Alive :
      (w : ℕ) (f : TransferInPlaceFut) (s : Machine)
      → Alive ms skipped f0 s0 pending f s
      → Alive ms skipped f0 s0
          (poll_transfer w f s).0.0
          (poll_transfer w f s).0.1
          (poll_transfer w f s).1
  unfolding IsOrder
  polled-Alive w f s a =
      let r = poll_transfer w f s in
      let g = r.0.1 in
      let kept =
        poll_transfer-kept w skipped f s (rw a.same_hw fifo) a.balanced a.behind a.within in
      let moved = poll_transfer-Moved w f s a.within (omega (arith, a.behind, a.within)) in
      let ordered : order s ≡ ms = rw a.same_hw (asked _) in
      let all : (j : ℕ)
          → g.rx_index ≤ j
          → j ≤ length f0.whole
          → slice_at g.whole g.rest j ≡ slice_at f0.whole f0.rest j =
        λ j lo hi.
          kept.2 j lo (omega (arith, a.shape)) ∙ a.to_receive j (omega (arith, moved.5)) hi in
      let c = moved.0 in
      let before = entries ms f0.whole f0.rest 0 f.tx_index in
      let later = entries ms f0.whole f0.rest f.tx_index c in
      let now_sent : entries (order s) g.whole g.rest f.tx_index c ≡ later =
        ap (λ o. entries o g.whole g.rest f.tx_index c) ordered
        ∙ entries-same ms g.whole f0.whole g.rest f0.rest f.tx_index c (moved.4 ∙ a.shape)
            (λ j lo hi.
              all j (omega (arith, lo, kept.1)) (omega (arith, hi, moved.1, moved.2, a.shape))) in
      let joined : before ++ later ≡ entries ms f0.whole f0.rest 0 g.tx_index =
        sym (entries-more ms f0.whole f0.rest f.tx_index c)
        ∙ ap (entries ms f0.whole f0.rest 0) (sym moved.1) in
      record {
        same_hw = kept.3 ∙ a.same_hw;
        balanced = kept.0;
        behind = omega (arith, kept.1, moved.1);
        within = omega (arith, moved.2, moved.4);
        shape = moved.4 ∙ a.shape;
        sent =
            moved.3
            ∙ ap (λ l. onto l (queued s.log)) now_sent
            ∙ ap (onto (later)) a.sent
            ∙ sym (onto-append before (later) (queued s0.log))
            ∙ ap (λ l. onto l (queued s0.log)) joined;
        to_receive = all;
        at_end =
            subst (λ k. AtEnd r.0.0 k g.rx_index) a.shape
              (Answered-AtEnd w (length f.whole) g.rx_index r moved.7);
      }

  pub Life-Alive :
      {p : Poll (Unit {0})} {f : TransferInPlaceFut} {s : Machine}
      → f0.tx_index ≡ 0
      → f0.rx_index ≡ 0
      → taken s0.log + skipped ≡ length (queued s0.log)
      → Life f0 s0 p f s
      → Alive ms skipped f0 s0 p f s
  Life-Alive t r e begun = record {
    same_hw = refl;
    balanced = omega arith;
    behind = omega arith;
    within = omega arith;
    shape = refl;
    sent = rw t (unfold entries onto in refl);
    to_receive = λ j lo hi. refl;
    at_end = tt;
  }
  Life-Alive t r e (polled {f} {s} l w) = polled-Alive w f s (Life-Alive t r e l)
  Life-Alive t r e (meanwhile {p} {f} {s} l s' h q k) =
      let a = Life-Alive t r e l in
      record {
        same_hw = h ∙ a.same_hw;
        balanced = rw (q, k) a.balanced;
        behind = a.behind;
        within = a.within;
        shape = a.shape;
        sent = q ∙ a.sent;
        to_receive = a.to_receive;
        at_end = a.at_end;
      }

-- All entries of the buffer that the future started with were queued, in order; or some of the first.
abbrev pub SentOf :
    Bool → TransferInPlaceFut → Poll (Unit {0}) → List (ℕ × ℕ) → List (ℕ × ℕ) → Type 0
SentOf ms f0 (ready _) q0 q = q ≡ onto (entries ms f0.whole f0.rest 0 (length f0.whole + 1)) q0
SentOf ms f0 pending q0 q =
    (count : ℕ) × (count ≤ length f0.whole + 1)
    × (q ≡ onto (entries ms f0.whole f0.rest 0 count) q0)

pub Alive-SentOf :
    (ms : Bool) (skipped : ℕ) (f0 : TransferInPlaceFut) (s0 : Machine) (p : Poll (Unit {0}))
    (f : TransferInPlaceFut) (s : Machine)
    → Alive ms skipped f0 s0 p f s
    → SentOf ms f0 p (queued s0.log) (queued s.log)
Alive-SentOf ms skipped f0 s0 pending f s a = (f.tx_index, omega (arith, a.within, a.shape), a.sent)
Alive-SentOf ms skipped f0 s0 (ready _) f s a =
    let all : f.tx_index ≡ length f0.whole + 1 =
      omega (arith, a.within, a.shape, a.behind, a.at_end) in
    a.sent ∙ ap (λ k. onto (entries ms f0.whole f0.rest 0 k) (queued s0.log)) all

-- A transfer in place sends the bytes that the slice held at the start, though the slice is
-- overwritten meanwhile. After any polls, with anything between them that leaves the FIFOs alone,
-- what was queued is the entries of the first slices of that buffer, in order, and all of them if
-- the future is ready. The receive FIFO shows no entry before one was sent for it, nothing is in
-- flight at the start, and the bit order in the control register stays.
pub start_transfer-SentOf :
    (ms : Bool) (skipped : ℕ) (words : List ℕ) (s0 : Machine) (p : Poll (Unit {0}))
    (f : TransferInPlaceFut) (s : Machine)
    → IsFifo s0.hw skipped
    → IsOrder s0.hw ms
    → taken s0.log + skipped ≡ length (queued s0.log)
    → Life (start_transfer words) s0 p f s
    → SentOf ms (start_transfer words) p (queued s0.log) (queued s.log)
start_transfer-SentOf ms skipped words s0 p f s fifo asked empty l =
    let f0 = start_transfer words in
    Alive-SentOf ms skipped f0 s0 p f s (
      Life-Alive ms skipped f0 s0 fifo asked (unfold start_transfer in refl)
        (unfold start_transfer in refl) empty l)
