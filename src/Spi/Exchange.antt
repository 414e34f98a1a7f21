-- ===== src/Spi/Exchange.antt =====
-- The blocking `transfer_in_place` of src/aux/spi.rs against a device that answers each entry.
use rpi_devenv.Base.{
  ℕ, suc, ◌+◌, ◌*◌, ◌%◌, ◌^◌, ◌≡◌, refl, sym, ap, ◌∙◌, Bool, true, Option, some, List, [], ◌∷◌,
  ◌++◌, arith,
}
use rpi_devenv.Base.{length, onto}
use rpi_devenv.Machine.{Machine, Event, loaded, stored, barrier}
use rpi_devenv.Spi.Defs.{control0, control1, io, read_bit}
use rpi_devenv.Spi.Entry.{to_entry, from_entry, chunks}
use rpi_devenv.Spi.Queue.{queued, plan, next_bit, queue, IsOrder}
use rpi_devenv.Spi.Bus.{wait_clear, entry_reg, flush, transfer_chunks, transfer_in_place}
use rpi_devenv.Spi.Sending.{wait_clear-Quiet, entry_reg-queues, last_reg, plan-three}
use rpi_devenv.Spi.Originals.{taken}
use rpi_devenv.Spi.Replies.{IsInputBit}
use rpi_devenv.Spi.Device.{
  Answers, answered, Still, wait_clear-taken, wait_clear-answered, flush-Still,
}

module _ (fuel : ℕ) (out_ms in_ms : Bool) (len index : ℕ) (c : List ℕ) (cs : List (List ℕ))
    (s : Machine) where
  -- The state in which the wait for the answer begins, and that in which the answer was read.
  abbrev sent : Machine
  sent = record s { log = stored (entry_reg len index) (to_entry c out_ms) ∷ s.log }

  abbrev answer : ℕ
  answer = let w = (wait_clear fuel 7 sent).1 in w.hw w.log io % 2 ^ 32

  abbrev taken_one : Machine
  taken_one = let w = (wait_clear fuel 7 sent).1 in record w { log = loaded io answer ∷ w.log }

  transfer_chunks-step :
      (wait_clear fuel 7 sent).0 ≡ true
      → transfer_chunks fuel out_ms in_ms len index (c ∷ cs) s ≡ (
          let r = transfer_chunks fuel out_ms in_ms len (index + 1) cs taken_one in
          ((r.0.0, from_entry c answer in_ms ++ r.0.1), r.1))
  unfolding transfer_chunks
  transfer_chunks-step e = ground arith

-- What the loop over the chunks `cs` leaves: it is done, and has sent and received all of them.
record Exchanged (reply : List (ℕ × ℕ) → ℕ → ℕ) (out_ms in_ms : Bool) (cs : List (List ℕ))
    (s : Machine) (r : (Option (Unit {0}) × List ℕ) × Machine) : Type 0 where
  is_done : r.0.0 ≡ some tt
  received : r.0.1 ≡ answered reply in_ms (queued s.log) (taken s.log) cs (plan out_ms cs)
  all_queued : queued r.1.log ≡ onto (plan out_ms cs) (queued s.log)
  same_hw : r.1.hw ≡ s.hw

module _ {hw : List Event → ℕ → ℕ} {reply : List (ℕ × ℕ) → ℕ → ℕ} {out_ms in_ms : Bool}
    {skipped fuel : ℕ} (d : Answers hw reply out_ms in_ms skipped fuel) where
  transfer_chunks-cons :
      (len index : ℕ) (c : List ℕ) (cs : List (List ℕ)) (s : Machine)
      → s.hw ≡ hw
      → taken s.log + skipped ≡ length (queued s.log)
      → plan out_ms (c ∷ cs) ≡ (entry_reg len index, to_entry c out_ms) ∷ plan out_ms cs
      → ((u : Machine)
          → u.hw ≡ hw
          → taken u.log + skipped ≡ length (queued u.log)
          → Exchanged reply out_ms in_ms cs u
              (transfer_chunks fuel out_ms in_ms len (index + 1) cs u))
      → Exchanged reply out_ms in_ms
          (c ∷ cs)
          s
          (transfer_chunks fuel out_ms in_ms len index (c ∷ cs) s)
  unfolding taken queued onto
  transfer_chunks-cons len index c cs s e k here onward =
      let t = sent fuel out_ms in_ms len index c cs s in
      let w = (wait_clear fuel 7 t).1 in
      let v = answer fuel out_ms in_ms len index c cs s in
      let u = taken_one fuel out_ms in_ms len index c cs s in
      let x : ℕ × ℕ = (entry_reg len index, to_entry c out_ms) in
      let put = queue x.0 x.1 s (entry_reg-queues len index) in
      let there = wait_clear-answered d fuel t e (d.soon t.log) (rw put (omega arith)) in
      let quiet = wait_clear-Quiet fuel 7 t in
      let same_taken : taken w.log ≡ taken s.log = wait_clear-taken fuel 7 t in
      let same_queued : queued w.log ≡ x ∷ queued s.log = quiet.0 ∙ put in
      let w_hw : w.hw ≡ hw = quiet.1 ∙ e in
      let q = queued s.log in
      let reply_now : v ≡ reply (x ∷ q) (taken s.log) =
        ap (λ h. h w.log io % 2 ^ 32) w_hw
        ∙ d.replies w.log
        ∙ ap (λ r. reply r (taken w.log)) same_queued
        ∙ ap (reply (x ∷ q)) same_taken in
      let ps = plan out_ms cs in
      let counts : length (queued w.log) ≡ suc (length (queued s.log)) = ap length same_queued in
      let onto_next : taken u.log ≡ taken s.log + 1 = omega (arith, same_taken) in
      let ih = onward u w_hw (omega (arith, same_taken, counts, k)) in
      rw (transfer_chunks-step fuel out_ms in_ms len index c cs s there) (record {
        is_done = ih.is_done;
        received =
            ap (λ ws. from_entry c v in_ms ++ ws)
              (ih.received
                ∙ ap (λ r. answered reply in_ms r (taken u.log) cs ps) same_queued
                ∙ ap (λ j. answered reply in_ms (x ∷ q) j cs ps) onto_next)
            ∙ ap (λ y. from_entry c y in_ms ++ answered reply in_ms (x ∷ q) (taken s.log + 1) cs ps)
                reply_now
            ∙ ap (answered reply in_ms q (taken s.log) (c ∷ cs)) (sym here);
        all_queued =
            ih.all_queued
            ∙ ap (onto (plan out_ms cs)) same_queued
            ∙ ap (λ p. onto p (queued s.log)) (sym here);
        same_hw = ih.same_hw ∙ quiet.1;
      })

  transfer_chunks-Exchanged :
      (len index : ℕ) (words : List ℕ) (s : Machine)
      → len ≡ index * 3 + length words
      → s.hw ≡ hw
      → taken s.log + skipped ≡ length (queued s.log)
      → Exchanged reply out_ms in_ms
          (chunks words)
          s
          (transfer_chunks fuel out_ms in_ms len index (chunks words) s)
  unfolding transfer_chunks plan chunks onto
  transfer_chunks-Exchanged len index [] s n e k = record {
    is_done = refl;
    received = refl;
    all_queued = refl;
    same_hw = refl;
  }
  transfer_chunks-Exchanged len index (a ∷ []) s n e k =
      transfer_chunks-cons len index (a ∷ []) [] s e k (rw (last_reg len index (omega arith)) refl)
        (λ u h b. record { is_done = refl; received = refl; all_queued = refl; same_hw = refl })
  transfer_chunks-Exchanged len index (a ∷ b ∷ []) s n e k =
      transfer_chunks-cons len index (a ∷ b ∷ []) [] s e k
        (rw (last_reg len index (omega arith)) refl)
        (λ u h b. record { is_done = refl; received = refl; all_queued = refl; same_hw = refl })
  transfer_chunks-Exchanged len index (a ∷ b ∷ c ∷ rest) s n e k =
      transfer_chunks-cons len index (a ∷ b ∷ c ∷ []) (chunks rest) s e k
        (plan-three out_ms len index a b c rest n)
        (λ u h b'. transfer_chunks-Exchanged len (index + 1) rest u (omega arith) h b')

-- The state in which the loop over the chunks begins, behind the flush.
abbrev at_chunks : Machine → Machine
at_chunks u = (read_bit control1 0 (read_bit control0 6 u).1).1

transfer_in_place-step :
    (fuel : ℕ) (words : List ℕ) (s : Machine)
    → let u = (flush fuel (record s { log = barrier ∷ s.log })).1 in
      (flush fuel (record s { log = barrier ∷ s.log })).0 ≡ some tt
      → let u = (flush fuel (record s { log = barrier ∷ s.log })).1 in
        transfer_in_place fuel words s
        ≡ transfer_chunks fuel
            (next_bit control0 6 u)
            (next_bit control1 0 (read_bit control0 6 u).1)
            (length words)
            0
            (chunks words)
            (at_chunks u)
unfolding transfer_in_place read_bit
transfer_in_place-step fuel words s e = ground arith

pub IsOrder-next :
    (ms : Bool) (hw : List Event → ℕ → ℕ) (u : Machine)
    → IsOrder hw ms
    → u.hw ≡ hw
    → next_bit control0 6 u ≡ ms
unfolding IsOrder
IsOrder-next ms hw u h e = rw e (h u.log)

IsInputBit-next :
    (ms : Bool) (hw : List Event → ℕ → ℕ) (u : Machine)
    → IsInputBit hw ms
    → u.hw ≡ hw
    → next_bit control1 0 (read_bit control0 6 u).1 ≡ ms
unfolding IsInputBit read_bit
IsInputBit-next ms hw u h e = rw e (h _)

at_chunks-Still : (u : Machine) → Still u (at_chunks u)
unfolding read_bit taken queued
at_chunks-Still u = (refl, refl, refl)

barrier-Still : (s : Machine) → Still s (record s { log = barrier ∷ s.log })
unfolding taken queued
barrier-Still s = (refl, refl, refl)

-- The blocking `transfer_in_place` exchanges its slice with the device: given fuel for the looks
-- that the device and the peripheral may take, it returns; it has queued the entries of all the
-- chunks of three bytes, in order, the last one to the register that ends the transfer; and each
-- chunk holds the bytes of the device's answer to the entries queued by then. The hardware's rule stays.
pub transfer_in_place-answered :
    (reply : List (ℕ × ℕ) → ℕ → ℕ) (out_ms in_ms : Bool) (skipped fuel : ℕ) (words : List ℕ)
    (s : Machine)
    → Answers s.hw reply out_ms in_ms skipped fuel
    → taken s.log + skipped ≡ length (queued s.log)
    → let r = transfer_in_place fuel words s in
      (r.0.0 ≡ some tt)
      × (r.0.1
          ≡ answered reply in_ms
              (queued s.log)
              (taken s.log)
              (chunks words)
              (plan out_ms (chunks words)))
      × (queued r.1.log ≡ onto (plan out_ms (chunks words)) (queued s.log))
      × (r.1.hw ≡ s.hw)
transfer_in_place-answered reply out_ms in_ms skipped fuel words s d k =
    let s1 : Machine = record s { log = barrier ∷ s.log } in
    let f = flush-Still d s1 refl in
    let u = (flush fuel s1).1 in
    let v = at_chunks u in
    let out = IsOrder-next out_ms s.hw u d.out_order f.1.1 in
    let quiet = at_chunks-Still u in
    let inp = IsInputBit-next in_ms s.hw u d.in_order f.1.1 in
    let same_hw : v.hw ≡ s.hw = quiet.1 ∙ f.1.1 in
    let same_queued : queued v.log ≡ queued s.log = quiet.0 ∙ f.1.0 ∙ (barrier-Still s).0 in
    let same_taken : taken v.log ≡ taken s.log = quiet.2 ∙ f.1.2 ∙ (barrier-Still s).2 in
    let r =
      transfer_chunks-Exchanged d (length words) 0 words v (omega arith) same_hw
        (omega (arith, same_taken, ap length same_queued, k)) in
    let go : transfer_in_place fuel words s
        ≡ transfer_chunks fuel out_ms in_ms (length words) 0 (chunks words) v =
      transfer_in_place-step fuel words s f.0 ∙ rw (out, inp) refl in
    let ps = plan out_ms (chunks words) in
    rw go (
      r.is_done,
      r.received
          ∙ ap (λ q. answered reply in_ms q (taken v.log) (chunks words) ps) same_queued
          ∙ ap (λ j. answered reply in_ms (queued s.log) j (chunks words) ps) same_taken,
      r.all_queued ∙ ap (onto (plan out_ms (chunks words))) same_queued,
      r.same_hw ∙ same_hw,
    )
