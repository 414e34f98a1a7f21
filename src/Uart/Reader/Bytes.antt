-- ===== src/Uart/Reader/Bytes.antt =====
-- Which bytes the reads of src/aux/uart/reader.rs take from the FIFO, and where they put them.
use rpi_devenv.Base.{
  ℕ, ◌+◌, ◌%◌, ◌^◌, ◌≤◌, ◌≡◌, ◌⊎◌, refl, ap, ◌∙◌, true, false, some, List, [], ◌∷◌, ◌++◌, ◌==◌,
  if◌then◌else◌, Bool-cases, inl, inr, arith,
}
use rpi_devenv.Base.{length, drop, onto}
use rpi_devenv.Machine.{
  Machine, Event, loaded, barrier, Poll, ready, pending, Result, ok, err, reader_waker, set_waker,
}
use rpi_devenv.Uart.Defs.{io_reg}
use rpi_devenv.Uart.Reader.{
  Error, overrun, Look, overran, empty, got, look, await_data, poll_from, poll_read,
}

-- The bytes read from the data register so far, newest first.
unfoldable pub taken : List Event → List ℕ
taken [] = []
taken (loaded a v ∷ l) = if a == io_reg then (v % 2 ^ 8) ∷ taken l else taken l
taken (_ ∷ l) = taken l

-- The bytes `bs` are taken from the FIFO, in this order, and stand at the front of the buffer,
-- whose other slots are as before.
pub record Received (buf buf' : List ℕ) (bs : List ℕ) (s s' : Machine) : Type 0 where
  pub taking : taken s'.log ≡ onto bs (taken s.log)
  pub placed : buf' ≡ bs ++ drop (length bs) buf
  pub fits : length bs ≤ length buf

abbrev pub one_byte : Look → List ℕ
one_byte overran = []
one_byte empty = []
one_byte (got v) = v ∷ []

pub look-taken : (s : Machine) → taken (look s).1.log ≡ onto (one_byte (look s).0) (taken s.log)
unfolding look taken onto
look-taken s = ground arith

pub await_data-taken : (w : ℕ) (s : Machine) → taken (await_data w s).1.log ≡ taken s.log
unfolding await_data set_waker taken
await_data-taken w s = refl

await_data-waker : (w : ℕ) (s : Machine) → (await_data w s).1.waker reader_waker ≡ some w
unfolding await_data set_waker
await_data-waker w s = ground arith

pub Look-cases : (l : Look) → (l ≡ overran) ⊎ ((l ≡ empty) ⊎ ((v : ℕ) × (l ≡ got v)))
Look-cases overran = inl refl
Look-cases empty = inr (inl refl)
Look-cases (got v) = inr (inr (v, refl))

module _ (s : Machine) where
  -- A look that finds no byte takes none.
  Received-none :
      (buf : List ℕ) (t : Machine)
      → one_byte (look s).0 ≡ []
      → taken t.log ≡ taken (look s).1.log
      → Received buf buf [] s t
  unfolding onto
  Received-none buf t e k = record {
    taking = k ∙ look-taken s ∙ rw e;
    placed = refl;
    fits = omega arith;
  }

  -- A look that finds `v`, with what follows from the next slot on.
  Received-got :
      (b v : ℕ) (buf buf' bs : List ℕ) (t : Machine)
      → (look s).0 ≡ got v
      → Received buf buf' bs (look s).1 t
      → Received (b ∷ buf) (v ∷ buf') (v ∷ bs) s t
  unfolding onto
  Received-got b v buf buf' bs t e r = record {
    taking = r.taking ∙ ap (onto bs) (look-taken s ∙ rw e);
    placed = ap (λ (l : List ℕ). v ∷ l) r.placed;
    fits = omega (arith, r.fits);
  }

-- What the result of a poll says of the bytes received, after `count` others.
abbrev pub Reported : ℕ → Machine → ℕ → List ℕ → Poll (Result Error ℕ) → Type 0
Reported w t count bs (ready (ok n)) = n ≡ count + length bs
Reported w t count bs (ready (err e)) = Unit {0}
Reported w t count bs pending = (bs ≡ []) × (count ≡ 0) × (t.waker reader_waker ≡ some w)

Reported-cons :
    (w : ℕ) (t : Machine) (count v : ℕ) (bs : List ℕ) (r : Poll (Result Error ℕ))
    → Reported w t (count + 1) bs r
    → Reported w t count (v ∷ bs) r
Reported-cons w t count v bs (ready (ok n)) h = omega arith
Reported-cons w t count v bs (ready (err e)) h = tt
Reported-cons w t count v bs pending h = absurd (omega arith)

module _ (w count b : ℕ) (buf : List ℕ) (s : Machine) where
  poll_from-overran :
      (look s).0 ≡ overran
      → poll_from w count (b ∷ buf) s ≡ ((ready (err overrun), b ∷ buf), (look s).1)
  unfolding poll_from
  poll_from-overran e = ground arith

  poll_from-first_empty :
      (look s).0 ≡ empty
      → (count == 0) ≡ true
      → poll_from w count (b ∷ buf) s ≡ ((pending, b ∷ buf), (await_data w (look s).1).1)
  unfolding poll_from
  poll_from-first_empty e z = ground arith

  poll_from-later_empty :
      (look s).0 ≡ empty
      → (count == 0) ≡ false
      → poll_from w count (b ∷ buf) s ≡ ((ready (ok count), b ∷ buf), (look s).1)
  unfolding poll_from
  poll_from-later_empty e z = ground arith

  poll_from-got :
      (v : ℕ)
      → (look s).0 ≡ got v
      → let r = poll_from w (count + 1) buf (look s).1 in
        poll_from w count (b ∷ buf) s ≡ ((r.0.0, v ∷ r.0.1), r.1)
  unfolding poll_from
  poll_from-got v e = ground arith

poll_from-Received :
    (w count : ℕ) (buf : List ℕ) (s : Machine)
    → (bs : List ℕ) × Received buf (poll_from w count buf s).0.1 bs s (poll_from w count buf s).1
      × Reported w (poll_from w count buf s).1 count bs (poll_from w count buf s).0.0
unfolding poll_from
poll_from-Received w count [] s =
    ([], record { taking = unfold onto in refl; placed = refl; fits = omega arith }, omega arith)
poll_from-Received w count (b ∷ buf) s = elim (Look-cases (look s).0) [
  | inl e ↦
      rw (poll_from-overran w count b buf s e)
        ([], Received-none s (b ∷ buf) (look s).1 (rw e) refl, tt)
  | inr (inl e) ↦ elim (Bool-cases (count == 0)) [
    | inl z ↦ rw (poll_from-first_empty w count b buf s e z) (
      [],
      Received-none s (b ∷ buf) (await_data w (look s).1).1 (rw e) (await_data-taken w (look s).1),
      (refl, ground arith, await_data-waker w (look s).1),
    )
    | inr n ↦
        rw (poll_from-later_empty w count b buf s e n)
          ([], Received-none s (b ∷ buf) (look s).1 (rw e) refl, omega arith)
  ]
  | inr (inr (v, e)) ↦
      let ih = poll_from-Received w (count + 1) buf (look s).1 in
      rw (poll_from-got w count b buf s v e) (
        v ∷ ih.0,
        Received-got s b v buf _ ih.0 _ e ih.1,
        Reported-cons w (poll_from w (count + 1) buf (look s).1).1 count v ih.0 _ ih.2,
      )
]

-- One poll of `ReadFut` takes bytes from the FIFO and puts exactly these, in order, at the front
-- of the buffer: `Ok(n)` reports their number; a pending poll has taken none, so dropping the
-- future then loses nothing, and has left the waker in the reader's slot. Only an overrun does
-- not say how many were taken.
pub poll_read-Received :
    (w : ℕ) (buf : List ℕ) (s : Machine)
    → (bs : List ℕ) × Received buf (poll_read w buf s).0.1 bs s (poll_read w buf s).1
      × Reported w (poll_read w buf s).1 0 bs (poll_read w buf s).0.0
unfolding poll_read
poll_read-Received w buf s =
    let r = poll_from-Received w 0 buf (record s { log = barrier ∷ s.log }) in
    (
      r.0,
      record { taking = r.1.taking ∙ unfold taken in refl; placed = r.1.placed; fits = r.1.fits },
      r.2,
    )
