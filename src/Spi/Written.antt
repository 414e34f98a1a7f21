-- ===== src/Spi/Written.antt =====
-- A `WriteFut` of src/aux/spi.rs from its start on, over any polls and what happens between them.
use rpi_devenv.Base.{
  ℕ, ◌≡◌, refl, sym, ap, ◌∙◌, Bool, List, [], ◌∷◌, ◌++◌, Bool-cases, inl, inr, arith,
}
use rpi_devenv.Base.{onto, onto-append, append_assoc, subst}
use rpi_devenv.Machine.{Machine, Poll, ready, pending, barrier, stored, set_waker}
use rpi_devenv.Spi.Defs.{control0, status_reg, txhold, read_bit}
use rpi_devenv.Spi.Entry.{chunks, to_entry}
use rpi_devenv.Spi.Async.{poll_write, poll_chunks, await_interrupt}
use rpi_devenv.Spi.Queue.{queued, plan, next_bit, IsOrder}
use rpi_devenv.Spi.Polled.{PolledAs, poll_write-PolledAs}

-- What the last poll returned, the chunks left and the machine. Each poll may have its own waker;
-- between polls anything may happen that queues nothing.
pub data Writing (cs0 : List (List ℕ)) (s0 : Machine)
    : Poll (Unit {0}) → List (List ℕ) → Machine → Type 0 where
  begun : Writing cs0 s0 pending cs0 s0
  polled :
      {cs : List (List ℕ)} {s : Machine}
      → Writing cs0 s0 pending cs s
      → (w : ℕ)
      → Writing cs0 s0 (poll_write w cs s).0.0 (poll_write w cs s).0.1 (poll_write w cs s).1
  meanwhile :
      {p : Poll (Unit {0})} {cs : List (List ℕ)} {s : Machine}
      → Writing cs0 s0 p cs s
      → (t : Machine) → t.hw ≡ s.hw
      → queued t.log ≡ queued s.log
      → Writing cs0 s0 p cs t

-- All the entries `p` were queued, in order; or some of the first, and the chunks left are for the
-- others.
abbrev pub WrittenOf :
    Bool → List (ℕ × ℕ) → List (ℕ × ℕ) → Poll (Unit {0}) → List (List ℕ) → List (ℕ × ℕ) → Type 0
WrittenOf ms p q0 (ready _) cs q = q ≡ onto p q0
WrittenOf ms p q0 pending cs q =
    (part : List (ℕ × ℕ)) × (part ++ plan ms cs ≡ p) × (q ≡ onto part q0)

polled-WrittenOf :
    (w : ℕ) (ms : Bool) (p q0 : List (ℕ × ℕ)) (cs : List (List ℕ)) (s : Machine)
    (r : (Poll (Unit {0}) × List (List ℕ)) × Machine)
    → WrittenOf ms p q0 pending cs (queued s.log)
    → PolledAs w ms (plan ms cs) s r
    → WrittenOf ms p q0 r.0.0 r.0.1 (queued r.1.log)
polled-WrittenOf w ms p q0 cs s ((ready _, rest), t) (part, whole, sent) (e, h) =
    h
    ∙ ap (onto (plan ms cs)) sent
    ∙ sym (onto-append part (plan ms cs) q0)
    ∙ ap (λ l. onto l q0) whole
polled-WrittenOf w ms p q0 cs s ((pending, rest), t) (part, whole, sent) (more, e, h, _) = (
  part ++ more,
  append_assoc part more (plan ms rest) ∙ ap (λ l. part ++ l) e ∙ whole,
  h ∙ ap (onto more) sent ∙ sym (onto-append part more q0),
)

poll_chunks-hw :
    (w : ℕ) (ms : Bool) (cs : List (List ℕ)) (s : Machine) → (poll_chunks w ms cs s).1.hw ≡ s.hw
unfolding poll_chunks read_bit await_interrupt set_waker
poll_chunks-hw w ms [] s = ground (arith, Bool-cases (next_bit status_reg 10 s))
poll_chunks-hw w ms (c ∷ []) s = ground (arith, Bool-cases (next_bit status_reg 10 s))
poll_chunks-hw w ms (c ∷ d ∷ r) s =
    let t = (read_bit status_reg 10 s).1 in
    let t' : Machine = record t { log = stored txhold (to_entry c ms) ∷ t.log } in
    let ih = poll_chunks-hw w ms (d ∷ r) t' in
    elim (Bool-cases (next_bit status_reg 10 s)) [ inl full ↦ rw full refl | inr room ↦ rw room ih ]

poll_write-hw : (w : ℕ) (cs : List (List ℕ)) (s : Machine) → (poll_write w cs s).1.hw ≡ s.hw
unfolding poll_write read_bit
poll_write-hw w cs s =
    let s1 : Machine = record s { log = barrier ∷ s.log } in
    poll_chunks-hw w (read_bit control0 6 s1).0 cs (read_bit control0 6 s1).1

module _ (ms : Bool) (cs0 : List (List ℕ)) (s0 : Machine) (asked : IsOrder s0.hw ms) where
  pub Writing-WrittenOf :
      {p : Poll (Unit {0})} {cs : List (List ℕ)} {s : Machine}
      → Writing cs0 s0 p cs s
      → (s.hw ≡ s0.hw) × WrittenOf ms (plan ms cs0) (queued s0.log) p cs (queued s.log)
  unfolding IsOrder
  Writing-WrittenOf begun = (refl, ([], refl, unfold onto in refl))
  Writing-WrittenOf (polled {cs} {s} l w) =
      let a = Writing-WrittenOf l in
      let ordered : next_bit control0 6 (record s { log = barrier ∷ s.log }) ≡ ms =
        rw a.0 (asked _) in
      let done =
        subst (λ o. PolledAs w o (plan o cs) s (poll_write w cs s)) ordered
          (poll_write-PolledAs w cs s) in
      (
        poll_write-hw w cs s ∙ a.0,
        polled-WrittenOf w ms (plan ms cs0) (queued s0.log) cs s (poll_write w cs s) a.1 done,
      )
  Writing-WrittenOf (meanwhile {p} {cs} {s} l t h q) =
      let a = Writing-WrittenOf l in (h ∙ a.0, rw q a.1)

-- The async `write` of a slice, once flushed. After any polls, with anything between them that queues
-- nothing, the entries queued are the first ones of the slice's chunks, in order, and those of the
-- chunks left complete them; if the future is ready, all were queued, each once, the last one to the
-- register that ends the transfer. The bit order in the control register stays.
pub chunks-WrittenOf :
    (ms : Bool) (words : List ℕ) (s0 : Machine) (p : Poll (Unit {0})) (cs : List (List ℕ))
    (s : Machine)
    → IsOrder s0.hw ms
    → Writing (chunks words) s0 p cs s
    → WrittenOf ms (plan ms (chunks words)) (queued s0.log) p cs (queued s.log)
chunks-WrittenOf ms words s0 p cs s asked l = (Writing-WrittenOf ms (chunks words) s0 asked l).1
