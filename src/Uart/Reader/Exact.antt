-- ===== src/Uart/Reader/Exact.antt =====
-- The polls of `ReadExactFut` in src/aux/uart/reader.rs on a line on which nothing arrives.
use rpi_devenv.Base.{ℕ, zero, suc, ◌%◌, ◌≡◌, refl, ◌∙◌, List, [], ◌∷◌, arith}
use rpi_devenv.Base.{length, onto}
use rpi_devenv.Bits.{bit, has-shl}
use rpi_devenv.Machine.{
  Machine, M, Event, barrier, peek, Poll, ready, pending, Result, ok, set_waker, pure, ◌>>=◌,
}
use rpi_devenv.Uart.Defs.{line_status_reg}
use rpi_devenv.Uart.Reader.{
  Error, empty, look, await_data, ReadExactFut, poll_slots, poll_read_exact,
}
use rpi_devenv.Uart.Reader.Bytes.{taken, look-taken, await_data-taken}

-- Up to `n` polls of the future, until one is not pending.
pub polls : ℕ → ℕ → ReadExactFut → M (Poll (Result Error (Unit {0})) × ReadExactFut)
polls zero w f = pure (pending, f)
polls (suc n) w f = do
  r ← poll_read_exact w f
  let again = polls n w r.1
  elim r.0 [ ready x ↦ pure r | pending ↦ again ]

-- No byte and no overrun, whenever the line status is read.
abbrev pub IsSilent : Machine → Type 0
IsSilent s = (l : List Event) → s.hw l line_status_reg % 4 ≡ 0

look-silent : (s : Machine) → IsSilent s → (look s).0 ≡ empty
unfolding look bit
look-silent s h =
    ground (arith, h s.log, has-shl (peek line_status_reg s) 0, has-shl (peek line_status_reg s) 1)

hw-await : (w : ℕ) (s : Machine) → (await_data w (look s).1).1.hw ≡ s.hw
unfolding await_data set_waker look
hw-await w s = ground arith

taken-await_silent :
    (w : ℕ) (s : Machine) → IsSilent s → taken (await_data w (look s).1).1.log ≡ taken s.log
unfolding onto
taken-await_silent w s h = await_data-taken w (look s).1 ∙ look-taken s ∙ rw (look-silent s h)

poll_slots-silent :
    (w b : ℕ) (ys bs : List ℕ) (s : Machine)
    → IsSilent s
    → let t = (await_data w (look s).1).1 in
      poll_slots w ys (b ∷ bs) s ≡ ((pending, record { yielded = b ∷ ys; to_come = bs }), t)
unfolding poll_slots
poll_slots-silent w b ys bs s h = ground (arith, look-silent s h)

poll_read_exact-silent :
    (w b : ℕ) (ys bs : List ℕ) (s : Machine)
    → IsSilent s
    → let r = poll_read_exact w (record { yielded = ys; to_come = b ∷ bs }) s in
      (r.0 ≡ (pending, record { yielded = b ∷ ys; to_come = bs }))
      × (r.1.hw ≡ s.hw)
      × (taken r.1.log ≡ taken s.log)
unfolding poll_read_exact
poll_read_exact-silent w b ys bs s h =
    let s0 : Machine = record s { log = barrier ∷ s.log } in
    let e = poll_slots-silent w b ys bs s0 h in
    rw e (refl, hw-await w s0, taken-await_silent w s0 h ∙ unfold taken in refl)

-- On a line on which nothing ever arrives, `read_exact` into a buffer still reports success: each
-- pending poll uses up one slot of the buffer, and the poll after the last slot returns `Ok(())`,
-- with no byte taken from the FIFO and every slot as it was.
pub read_exact-silent_ok :
    (w : ℕ) (buf ys : List ℕ) (s : Machine)
    → IsSilent s
    → let r = polls (suc (length buf)) w (record { yielded = ys; to_come = buf }) s in
      (r.0 ≡ (ready (ok tt), record { yielded = onto buf ys; to_come = [] }))
      × (taken r.1.log ≡ taken s.log)
unfolding polls onto
read_exact-silent_ok w [] ys s h = unfold poll_read_exact poll_slots taken in (refl, refl)
read_exact-silent_ok w (b ∷ buf) ys s h =
    let e = poll_read_exact-silent w b ys buf s h in
    let ih =
      read_exact-silent_ok w buf (b ∷ ys)
        (poll_read_exact w (record { yielded = ys; to_come = b ∷ buf }) s).1 (λ l. rw e.1 (h l)) in
    ground (arith, e, ih)
