-- ===== src/Spi/Polled.antt =====
-- What one poll of `WriteFut` in src/aux/spi.rs puts into the transmit FIFO.
use rpi_devenv.Base.{
  ℕ, ◌≡◌, refl, ap, ◌∙◌, Bool, some, List, [], ◌∷◌, ◌++◌, Bool-cases, inl, inr, arith,
}
use rpi_devenv.Base.{onto}
use rpi_devenv.Bits.{◌<<<◌}
use rpi_devenv.Machine.{Machine, stored, barrier, Poll, ready, pending, set_waker, spi_waker}
use rpi_devenv.Spi.Defs.{control0, status_reg, io, txhold, read_bit}
use rpi_devenv.Spi.Entry.{to_entry}
use rpi_devenv.Spi.Async.{await_interrupt, poll_chunks, poll_write}
use rpi_devenv.Spi.Queue.{queued, plan, next_bit, read_bit-Quiet, queue}

pub await_interrupt-Quiet :
    (w e : ℕ) (s : Machine)
    → (queued (await_interrupt w e s).1.log ≡ queued s.log)
      × ((await_interrupt w e s).1.waker spi_waker ≡ some w)
unfolding await_interrupt set_waker queued
await_interrupt-Quiet w e s = (refl, ground arith)

-- How a poll that has the entries `p` to queue may end: with all of them queued, in order, or with
-- some of the first, the chunks of the others kept, and the waker stored.
abbrev pub PolledAs :
    ℕ → Bool → List (ℕ × ℕ) → Machine → (Poll (Unit {0}) × List (List ℕ)) × Machine → Type 0
PolledAs w ms p s ((ready _, rest), t) = (rest ≡ []) × (queued t.log ≡ onto p (queued s.log))
PolledAs w ms p s ((pending, rest), t) =
    (part : List (ℕ × ℕ)) × (part ++ plan ms rest ≡ p)
    × (queued t.log ≡ onto part (queued s.log))
    × (t.waker spi_waker ≡ some w)

PolledAs-cons :
    (w : ℕ) (ms : Bool) (x : ℕ × ℕ) (p : List (ℕ × ℕ)) (s t : Machine)
    (r : (Poll (Unit {0}) × List (List ℕ)) × Machine)
    → queued t.log ≡ x ∷ queued s.log
    → PolledAs w ms p t r
    → PolledAs w ms (x ∷ p) s r
unfolding onto
PolledAs-cons w ms x p s t ((ready _, rest), u) e (h, k) = (h, k ∙ ap (onto p) e)
PolledAs-cons w ms x p s t ((pending, rest), u) e (part, whole, k, wk) =
    (x ∷ part, ap (λ l. x ∷ l) whole, k ∙ ap (onto part) e, wk)

PolledAs-full :
    (w : ℕ) (ms : Bool) (cs : List (List ℕ)) (s t : Machine)
    → queued t.log ≡ queued s.log
    → PolledAs w ms (plan ms cs) s ((pending, cs), (await_interrupt w (1 <<< 7) t).1)
unfolding onto
PolledAs-full w ms cs s t e =
    let a = await_interrupt-Quiet w (1 <<< 7) t in ([], refl, a.0 ∙ e, a.1)

poll_chunks-PolledAs :
    (w : ℕ) (ms : Bool) (cs : List (List ℕ)) (s : Machine)
    → PolledAs w ms (plan ms cs) s (poll_chunks w ms cs s)
unfolding poll_chunks plan onto
poll_chunks-PolledAs w ms [] s =
    let look = read_bit-Quiet status_reg 10 s in
    let t = (read_bit status_reg 10 s).1 in
    elim (Bool-cases (next_bit status_reg 10 s)) [
      | inl full ↦ rw (look.0, full) (PolledAs-full w ms [] s t look.1.0)
      | inr room ↦ rw (look.0, room) (refl, look.1.0)
    ]
poll_chunks-PolledAs w ms (c ∷ []) s =
    let look = read_bit-Quiet status_reg 10 s in
    let t = (read_bit status_reg 10 s).1 in
    let x : ℕ × ℕ = (io, to_entry c ms) in
    elim (Bool-cases (next_bit status_reg 10 s)) [
      | inl full ↦ rw (look.0, full) (PolledAs-full w ms (c ∷ []) s t look.1.0)
      | inr room ↦
          rw (look.0, room) (refl, queue io (to_entry c ms) t refl ∙ ap (λ l. x ∷ l) look.1.0)
    ]
poll_chunks-PolledAs w ms (c ∷ d ∷ r) s =
    let look = read_bit-Quiet status_reg 10 s in
    let t = (read_bit status_reg 10 s).1 in
    let x : ℕ × ℕ = (txhold, to_entry c ms) in
    let t' : Machine = record t { log = stored txhold (to_entry c ms) ∷ t.log } in
    elim (Bool-cases (next_bit status_reg 10 s)) [
      | inl full ↦ rw (look.0, full) (PolledAs-full w ms (c ∷ d ∷ r) s t look.1.0)
      | inr room ↦
          rw (look.0, room)
            (PolledAs-cons w ms x (plan ms (d ∷ r)) s t' (poll_chunks w ms (d ∷ r) t')
              (queue txhold (to_entry c ms) t refl ∙ ap (λ l. x ∷ l) look.1.0)
              (poll_chunks-PolledAs w ms (d ∷ r) t'))
    ]

PolledAs-from :
    (w : ℕ) (ms : Bool) (p : List (ℕ × ℕ)) (s t : Machine)
    (r : (Poll (Unit {0}) × List (List ℕ)) × Machine)
    → queued t.log ≡ queued s.log
    → PolledAs w ms p t r
    → PolledAs w ms p s r
PolledAs-from w ms p s t ((ready _, rest), u) e (h, k) = (h, k ∙ ap (onto p) e)
PolledAs-from w ms p s t ((pending, rest), u) e (part, whole, k, wk) =
    (part, whole, k ∙ ap (onto part) e, wk)

-- One poll of `WriteFut` loses no entry and sends none twice. If it is ready, it has queued the
-- entries of all the chunks that were left, in order. If it is pending, it has queued those of the
-- first of them, keeps the chunks of the others, in which the last one still ends the transfer,
-- and has stored the waker.
pub poll_write-PolledAs :
    (w : ℕ) (rest : List (List ℕ)) (s : Machine)
    → let ms = next_bit control0 6 (record s { log = barrier ∷ s.log }) in
      PolledAs w ms (plan ms rest) s (poll_write w rest s)
unfolding poll_write
poll_write-PolledAs w rest s =
    let s1 : Machine = record s { log = barrier ∷ s.log } in
    let s2 = (read_bit control0 6 s1).1 in
    let look = read_bit-Quiet control0 6 s1 in
    let ms = next_bit control0 6 s1 in
    rw look.0 (
      PolledAs-from w ms (plan ms rest) s s2 (poll_chunks w ms rest s2)
        (look.1.0 ∙ unfold queued in refl) (poll_chunks-PolledAs w ms rest s2))
