-- ===== src/Uart/Wire.antt =====
-- A line whose bytes arrive in time, and a receiver that holds them until src/aux/uart/reader.rs
-- takes them: what the blocking `read_exact` does with bytes on their way.
use rpi_devenv.Base.{
  ℕ, zero, suc, ◌%◌, ◌^◌, ◌≤◌, ◌<◌, ◌≡◌, refl, ap, ◌∙◌, Bool, true, false, some, List, [], ◌∷◌,
  ◌++◌, ◌==◌, if◌then◌else◌, Bool-cases, inl, inr, arith,
}
use rpi_devenv.Base.{length, drop, append-nil}
use rpi_devenv.Bits.{has}
use rpi_devenv.Machine.{Machine, Event, loaded, barrier, ok}
use rpi_devenv.Uart.Defs.{io_reg, line_status_reg}
use rpi_devenv.Uart.Reader.{got, empty, look, look_until, read_all, read_exact}

-- Does the event take a byte from the receiver?
abbrev pub takes : Event → Bool
takes (loaded a v) = a == io_reg
takes _ = false

-- The bytes on the line or in the receiver's FIFO, oldest first: each event may bring some.
unfoldable pub waiting : (Event → List ℕ) → List Event → List ℕ
waiting brings [] = []
waiting brings (e ∷ l) =
    (if takes e then drop 1 (waiting brings l) else waiting brings l) ++ brings e

abbrev pub is_nil : List ℕ → Bool
is_nil [] = true
is_nil (b ∷ bs) = false

-- Does a read of the line status after the events `l` say that there is a byte?
abbrev pub shows_byte : (List Event → ℕ → ℕ) → List Event → Bool
shows_byte hw l = has (hw l line_status_reg % 2 ^ 32) 1

-- The receiver as the BCM2835 manual describes it, behind a line that takes time: there is no
-- overrun while at most the 8 bytes of its FIFO are on their way or in it; of these, the line
-- status shows a byte after a number of looks that is bounded by `fuel`, and when it has, the data
-- register gives the oldest. Reads and barriers bring nothing.
pub record IsReceiver (hw : List Event → ℕ → ℕ) (brings : Event → List ℕ) (fuel : ℕ) : Type 0 where
  pub no_overrun :
      (l : List Event)
      → length (waiting brings l) ≤ 8
      → has (hw l line_status_reg % 2 ^ 32) 0b10 ≡ false
  pub late : List Event → ℕ
  pub soon : (l : List Event) → late l < fuel
  pub nearer :
      (v : ℕ) (l : List Event) (b : ℕ) (bs : List ℕ)
      → waiting brings l ≡ b ∷ bs
      → shows_byte hw l ≡ false
      → late (loaded line_status_reg v ∷ l) < late l
  pub front :
      (v : ℕ) (l : List Event) (b : ℕ) (bs : List ℕ)
      → waiting brings l ≡ b ∷ bs
      → shows_byte hw l ≡ true
      → hw (loaded line_status_reg v ∷ l) io_reg % 2 ^ 32 % 2 ^ 8 ≡ b
  pub load_brings : (a v : ℕ) → brings (loaded a v) ≡ []
  pub barrier_brings : brings barrier ≡ []

append-nil_of : (xs ys : List ℕ) → ys ≡ [] → xs ++ ys ≡ xs
append-nil_of xs ys e = rw e (append-nil xs)

module _ (brings : Event → List ℕ) (fuel : ℕ) (s : Machine) (r : IsReceiver s.hw brings fuel) where
  abbrev after_status : List Event
  after_status = loaded line_status_reg (s.hw s.log line_status_reg % 2 ^ 32) ∷ s.log

  waiting-status : waiting brings after_status ≡ waiting brings s.log
  unfolding waiting
  waiting-status = append-nil_of (waiting brings s.log) _ (r.load_brings line_status_reg _)

  -- A look that finds a byte takes the oldest.
  look-front :
      (b : ℕ) (bs : List ℕ)
      → waiting brings s.log ≡ b ∷ bs
      → length (b ∷ bs) ≤ 8
      → shows_byte s.hw s.log ≡ true
      → ((look s).0 ≡ got b) × (waiting brings (look s).1.log ≡ bs) × ((look s).1.hw ≡ s.hw)
  unfolding look
  look-front b bs e h seen =
      let room = r.no_overrun s.log (rw e h) in
      let v = s.hw after_status io_reg % 2 ^ 32 in
      let front = r.front (s.hw s.log line_status_reg % 2 ^ 32) s.log b bs e seen in
      let left : waiting brings (loaded io_reg v ∷ after_status) ≡ bs =
        unfold waiting in
        append-nil_of (drop 1 (waiting brings after_status)) _ (r.load_brings io_reg v)
        ∙ ap (drop 1) (waiting-status ∙ e) in
      rw (room, seen) (ap got front, left, refl)

  look-none :
      length (waiting brings s.log) ≤ 8
      → shows_byte s.hw s.log ≡ false
      → look s ≡ (empty, record s { log = after_status })
  unfolding look
  look-none h e = let room = r.no_overrun s.log h in rw (room, e) refl

look_until-got :
    (k v : ℕ) (s : Machine)
    → (look s).0 ≡ got v
    → look_until (suc k) false s ≡ (some (got v), (look s).1)
unfolding look_until
look_until-got k v s e = ground (arith, e)

look_until-again :
    (k : ℕ) (s t : Machine)
    → look s ≡ (empty, t)
    → look_until (suc k) false s ≡ look_until k false t
unfolding look_until
look_until-again k s t e = ground (arith, e)

-- Until the oldest byte is there, and takes it.
look_until-front :
    (brings : Event → List ℕ) (fuel n : ℕ) (s : Machine) (r : IsReceiver s.hw brings fuel) (b : ℕ)
    (bs : List ℕ)
    → r.late s.log < n
    → waiting brings s.log ≡ b ∷ bs
    → length (b ∷ bs) ≤ 8
    → let l = look_until n false s in
      (l.0 ≡ some (got b)) × (waiting brings l.1.log ≡ bs) × (l.1.hw ≡ s.hw)
look_until-front brings fuel zero s r b bs n e h = absurd (omega arith)
look_until-front brings fuel (suc k) s r b bs n e h = elim (Bool-cases (shows_byte s.hw s.log)) [
  | inl seen ↦
      let one = look-front brings fuel s r b bs e h seen in
      rw (look_until-got k b s one.0) (refl, one.1, one.2)
  | inr unseen ↦
      let t : Machine = record s { log = after_status brings fuel s r } in
      let none_yet = look-none brings fuel s r (rw e h) unseen in
      let on = r.nearer (s.hw s.log line_status_reg % 2 ^ 32) s.log b bs e unseen in
      let same = waiting-status brings fuel s r in
      let ih = look_until-front brings fuel k t r b bs (omega (arith, on)) (same ∙ e) h in
      rw (look_until-again k s t none_yet) ih
]

read_all-got :
    (fuel b v : ℕ) (buf : List ℕ) (s t : Machine)
    → look_until fuel false s ≡ (some (got v), t)
    → let r = read_all fuel buf t in read_all fuel (b ∷ buf) s ≡ ((r.0.0, v ∷ r.0.1), r.1)
unfolding read_all
read_all-got fuel b v buf s t e = ground (arith, e)

read_all-filled :
    (brings : Event → List ℕ) (fuel : ℕ) (buf bs rest : List ℕ) (s : Machine)
    → IsReceiver s.hw brings fuel
    → waiting brings s.log ≡ bs ++ rest
    → length bs ≡ length buf
    → length (bs ++ rest) ≤ 8
    → ((read_all fuel buf s).0 ≡ (some (ok tt), bs))
      × (waiting brings (read_all fuel buf s).1.log ≡ rest)
unfolding read_all
read_all-filled brings fuel [] [] rest s r e k h = (refl, e)
read_all-filled brings fuel (x ∷ buf) (b ∷ bs) rest s r e k h =
    let t = (look_until fuel false s).1 in
    let here = look_until-front brings fuel fuel s r b (bs ++ rest) (r.soon s.log) e h in
    let ih =
      read_all-filled brings fuel buf bs rest t (rw (here.2) r) here.1 (omega arith)
        (omega arith) in
    rw (read_all-got fuel x b buf s t (ap (λ l. (l, t)) here.0)) (rw ih.0 refl, ih.1)
read_all-filled brings fuel [] (b ∷ bs) rest s r e k h = absurd (omega arith)
read_all-filled brings fuel (x ∷ buf) [] rest s r e k h = absurd (omega arith)

-- The blocking `read_exact` of a buffer, when at most 8 bytes are on the line or in the FIFO and
-- enough of them: it waits for each and returns with the oldest bytes in the buffer, in order, and
-- leaves the others.
pub read_exact-filled :
    (brings : Event → List ℕ) (fuel : ℕ) (buf bs rest : List ℕ) (s : Machine)
    → IsReceiver s.hw brings fuel
    → waiting brings s.log ≡ bs ++ rest
    → length bs ≡ length buf
    → length (bs ++ rest) ≤ 8
    → ((read_exact fuel buf s).0 ≡ (some (ok tt), bs))
      × (waiting brings (read_exact fuel buf s).1.log ≡ rest)
unfolding read_exact
read_exact-filled brings fuel buf bs rest s r e k h =
    let s1 : Machine = record s { log = barrier ∷ s.log } in
    let same : waiting brings s1.log ≡ waiting brings s.log =
      unfold waiting in append-nil_of (waiting brings s.log) _ r.barrier_brings in
    read_all-filled brings fuel buf bs rest s1 r (same ∙ e) k h
