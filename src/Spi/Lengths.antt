-- ===== src/Spi/Lengths.antt =====
-- The blocking `transfer` of src/aux/spi.rs between slices of any lengths.
use rpi_devenv.Base.{
  ℕ, ◌+◌, ◌%◌, ◌^◌, ◌≤◌, ◌<◌, bit_and, ◌≡◌, refl, ap, ◌∙◌, Bool, true, false, Option, some, List,
  [], ◌∷◌, ◌++◌, ◌==◌, leb, Bool-cases, inl, inr, arith,
}
use rpi_devenv.Base.{length, onto, take, drop, take-all, drop-all, append-nil}
use rpi_devenv.Machine.{Machine, Event, barrier}
use rpi_devenv.Bits.{◌>>>◌}
use rpi_devenv.Spi.Defs.{control0, status_reg}
use rpi_devenv.Spi.Entry.{chunks}
use rpi_devenv.Spi.Queue.{queued, plan, next_bit}
use rpi_devenv.Spi.Sending.{write-done}
use rpi_devenv.Spi.Bus.{transfer_in_place, transfer, write}
use rpi_devenv.Spi.Originals.{taken}
use rpi_devenv.Spi.Device.{Answers, answered}
use rpi_devenv.Spi.Exchange.{IsOrder-next, transfer_in_place-answered}

-- The slice that is exchanged with the device, and what is left to send behind it.
abbrev pub exchanged : List ℕ → List ℕ → List ℕ
exchanged read' out = take (length read') out ++ drop (length out) read'

abbrev pub rest_of : List ℕ → List ℕ → List ℕ
rest_of read' out = drop (length read') out

pub exchanged-short :
    (read' out : List ℕ)
    → length out ≤ length read'
    → exchanged read' out ≡ out ++ drop (length out) read'
exchanged-short read' out h = rw (take-all (length read') out h) refl

pub exchanged-long :
    (read' out : List ℕ) → length read' ≤ length out → exchanged read' out ≡ take (length read') out
exchanged-long read' out h =
    rw (drop-all (length out) read' h) (append-nil (take (length read') out))

module _ (fuel : ℕ) (read' out : List ℕ) (s : Machine) where
  transfer-short :
      leb (length out) (length read') ≡ true
      → transfer fuel read' out s ≡ transfer_in_place fuel (exchanged read' out) s
  unfolding transfer
  transfer-short e = rw (e, take-all (length read') out (ground arith)) refl

  transfer-long :
      leb (length out) (length read') ≡ false
      → (transfer_in_place fuel (take (length read') out) s).0.0 ≡ some tt
      → let r = transfer_in_place fuel (take (length read') out) s in
        transfer fuel read' out s
        ≡ (((write fuel (rest_of read' out) r.1).0, r.0.1), (write fuel (rest_of read' out) r.1).1)
  unfolding transfer
  transfer-long e h = ground arith

-- How a transfer ends: done, the slice that was exchanged holding the answers, and after its
-- entries those of the rest queued.
record Transferred (reply : List (ℕ × ℕ) → ℕ → ℕ) (out_ms in_ms : Bool) (words rest : List ℕ)
    (s : Machine) (r : (Option (Unit {0}) × List ℕ) × Machine) : Type 0 where
  is_done : r.0.0 ≡ some tt
  received :
      r.0.1
      ≡ answered reply in_ms
          (queued s.log)
          (taken s.log)
          (chunks words)
          (plan out_ms (chunks words))
  all_queued :
      queued r.1.log
      ≡ onto (plan out_ms (chunks rest)) (onto (plan out_ms (chunks words)) (queued s.log))

module _ (reply : List (ℕ × ℕ) → ℕ → ℕ) (out_ms in_ms : Bool) (skipped fuel : ℕ) (s : Machine)
    (d : Answers s.hw reply out_ms in_ms skipped fuel)
    (k : taken s.log + skipped ≡ length (queued s.log)) where
  transfer_in_place-Transferred :
      (words : List ℕ) → Transferred reply out_ms in_ms words [] s (transfer_in_place fuel words s)
  unfolding chunks plan onto
  transfer_in_place-Transferred words =
      let r = transfer_in_place-answered reply out_ms in_ms skipped fuel words s d k in
      record { is_done = r.0; received = r.1; all_queued = r.2 }

  write_after-Transferred :
      (words rest : List ℕ)
      → 0 < fuel
      → ((l : List Event) → (bit_and ((s.hw l status_reg % 2 ^ 32) >>> 10) 1 == 1) ≡ false)
      → let r = transfer_in_place fuel words s in
        Transferred reply out_ms in_ms words rest s
          (((write fuel rest r.1).0, r.0.1), (write fuel rest r.1).1)
  write_after-Transferred words rest h room =
      let a = transfer_in_place-answered reply out_ms in_ms skipped fuel words s d k in
      let u = (transfer_in_place fuel words s).1 in
      let b = write-done fuel rest u h (λ l. rw a.3 (room l)) in
      let ms : next_bit control0 6 (record u { log = barrier ∷ u.log }) ≡ out_ms =
        IsOrder-next out_ms s.hw (record u { log = barrier ∷ u.log }) d.out_order a.3 in
      record {
        is_done = b.0;
        received = a.1;
        all_queued =
            b.1
            ∙ ap (λ m. onto (plan m (chunks rest)) (queued u.log)) ms
            ∙ ap (onto (plan out_ms (chunks rest))) a.2;
      }

  transfer-Transferred :
      (read' out : List ℕ)
      → 0 < fuel
      → ((l : List Event) → (bit_and ((s.hw l status_reg % 2 ^ 32) >>> 10) 1 == 1) ≡ false)
      → Transferred reply out_ms in_ms
          (exchanged read' out)
          (rest_of read' out)
          s
          (transfer fuel read' out s)
  transfer-Transferred read' out h room = elim (Bool-cases (leb (length out) (length read'))) [
    | inl short ↦
        let e = transfer-short fuel read' out s short in
        let nothing : rest_of read' out ≡ [] = drop-all (length read') out (ground arith) in
        rw (e, nothing) (transfer_in_place-Transferred (exchanged read' out))
    | inr long ↦
        let w = take (length read') out in
        let r = transfer_in_place-answered reply out_ms in_ms skipped fuel w s d k in
        let e = transfer-long fuel read' out s long r.0 in
        let same : exchanged read' out ≡ w = exchanged-long read' out (ground arith) in
        rw (e, same) (write_after-Transferred w (rest_of read' out) h room)
  ]

-- The blocking `transfer` from one slice into another, of any two lengths: given fuel, it returns,
-- and it exchanges the front of what is to be sent, filled up with what the slice to read into held
-- where that is longer, for the device's answers, and then queues the entries of what is left to
-- send. Nothing is in flight at the start: the answer to each entry queued was taken or thrown
-- away. The device answers in time, with what the entries queued by then determine, at the
-- addresses that the code gives the registers, and the FIFO has room whenever it is looked at. The
-- orders do not change: the one for the output is bit 6 of CONTROL0, and the one for the input bit
-- 0 of CONTROL1, where `get` stores `keep_input` and not the order configured for the input.
pub transfer-answered :
    (reply : List (ℕ × ℕ) → ℕ → ℕ) (out_ms in_ms : Bool) (skipped fuel : ℕ) (read' out : List ℕ)
    (s : Machine)
    → Answers s.hw reply out_ms in_ms skipped fuel
    → taken s.log + skipped ≡ length (queued s.log)
    → 0 < fuel
    → ((l : List Event) → (bit_and ((s.hw l status_reg % 2 ^ 32) >>> 10) 1 == 1) ≡ false)
    → let r = transfer fuel read' out s in
      (r.0.0 ≡ some tt)
      × (r.0.1
          ≡ answered reply in_ms
              (queued s.log)
              (taken s.log)
              (chunks (exchanged read' out))
              (plan out_ms (chunks (exchanged read' out))))
      × (queued r.1.log
          ≡ onto
              (plan out_ms (chunks (rest_of read' out)))
              (onto (plan out_ms (chunks (exchanged read' out))) (queued s.log)))
transfer-answered reply out_ms in_ms skipped fuel read' out s d k h room =
    let r = transfer-Transferred reply out_ms in_ms skipped fuel s d k read' out h room in
    (r.is_done, r.received, r.all_queued)
