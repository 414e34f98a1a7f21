-- ===== src/Spi/Replies.antt =====
-- What a `TransferInPlaceFut` of src/aux/spi.rs receives, from its start on.
use rpi_devenv.Base.{
  ℕ, zero, suc, ◌+◌, ◌-◌, ◌%◌, ◌^◌, ◌≤◌, bit_and, bit_or, ◌≡◌, refl, sym, ap, ◌∙◌, Bool, true,
  false, List, [], ◌∷◌, ◌==◌, ltb, if◌then◌else◌, Bool-cases, inl, inr, arith,
}
use rpi_devenv.Base.{length, subst}
use rpi_devenv.Bits.{bit, ◌<<<◌, ◌>>>◌, bit-or, bit-shl}
use rpi_devenv.Machine.{Machine, Event, loaded, barrier, Poll}
use rpi_devenv.Spi.Defs.{Config, as_u32, cntl1, control0, control1, status_reg, io, read_bit}
use rpi_devenv.Spi.Entry.{from_entry}
use rpi_devenv.Spi.Async.{
  TransferInPlaceFut, start_transfer, slice_at, receive, receive_entry, rx_loop, poll_transfer,
}
use rpi_devenv.Spi.Queue.{next_bit, read_bit-Quiet}
use rpi_devenv.Spi.Transfers.{receive-length, rx_loop-lem, send_or_wait-Sent, poll_transfer-Moved}
use rpi_devenv.Spi.Originals.{taken, send_or_wait-taken}
use rpi_devenv.Spi.Life.{Life, begun, polled, meanwhile, AtEnd, Answered-AtEnd}

-- The data register has the entries of the other side, the one after those taken.
unfoldable pub IsReply : (List Event → ℕ → ℕ) → (ℕ → ℕ) → Type 0
IsReply hw reply = (l : List Event) → hw l io % 2 ^ 32 ≡ reply (taken l)

-- Bit 0 of CONTROL1, which the transfers take for the input's bit order, at every time.
unfoldable pub IsInputBit : (List Event → ℕ → ℕ) → Bool → Type 0
IsInputBit hw ms = (l : List Event) → (bit_and ((hw l control1 % 2 ^ 32) >>> 0) 1 == 1) ≡ ms

-- That bit stays as `get` stores it for the configuration `c`.
unfoldable pub IsConfigured : (List Event → ℕ → ℕ) → Config → Type 0
IsConfigured hw c =
    (l : List Event) → (bit_and ((hw l control1 % 2 ^ 32) >>> 0) 1 == 1) ≡ bit 0 (cntl1 c)

bit-as_u32 : (b : Bool) → bit 0 (as_u32 b) ≡ b
unfolding bit
bit-as_u32 true = refl
bit-as_u32 false = refl

bit-cntl1 : (c : Config) → bit 0 (cntl1 c) ≡ c.keep_input
unfolding cntl1
bit-cntl1 c =
    let time = c.extra_cs_high_time <<< 8 in
    let order = as_u32 c.in_most_significant_first <<< 1 in
    bit-or 0 (bit_or time order) (as_u32 c.keep_input)
    ∙ rw
        (
          bit-or 0 time order,
          bit-shl 0 8 c.extra_cs_high_time,
          bit-shl 0 1 (as_u32 c.in_most_significant_first),
        )
        (bit-as_u32 c.keep_input)

IsConfigured-IsInputBit :
    (hw : List Event → ℕ → ℕ) (c : Config) → IsConfigured hw c → IsInputBit hw c.keep_input
unfolding IsConfigured IsInputBit
IsConfigured-IsInputBit hw c h l = h l ∙ bit-cntl1 c

receive-at :
    (cs : List (List ℕ)) (rest : List ℕ) (i entry : ℕ) (ms : Bool) (j : ℕ)
    → i ≤ length cs
    → j ≤ length cs
    → slice_at (receive cs rest i entry ms).0 (receive cs rest i entry ms).1 j
      ≡ (if j == i then from_entry (slice_at cs rest j) entry ms else slice_at cs rest j)
unfolding receive slice_at
receive-at [] rest i entry ms j h k = ground arith
receive-at (c ∷ cs) rest zero entry ms zero h k = refl
receive-at (c ∷ cs) rest zero entry ms (suc j) h k = ground arith
receive-at (c ∷ cs) rest (suc i) entry ms zero h k = ground arith
receive-at (c ∷ cs) rest (suc i) entry ms (suc j) h k =
    ground (arith, receive-at cs rest i entry ms j)

module _ (reply : ℕ → ℕ) (ms : Bool) (first : ℕ) (f0 : TransferInPlaceFut) where
  -- The slices received hold what the other side sent, the others what they held at the start.
  record Holds (f : TransferInPlaceFut) (s : Machine) : Type 0 where
    counted : taken s.log ≡ first + f.rx_index
    shape : length f.whole ≡ length f0.whole
    slices :
        (j : ℕ)
        → j ≤ length f0.whole
        → slice_at f.whole f.rest j ≡ (
            if ltb j f.rx_index
            then from_entry (slice_at f0.whole f0.rest j) (reply (first + j)) ms
            else slice_at f0.whole f0.rest j)

  Holds-receive :
      (v : ℕ) (f : TransferInPlaceFut) (s u : Machine)
      → f.rx_index ≤ length f0.whole
      → v ≡ reply (first + f.rx_index)
      → taken u.log ≡ suc (taken s.log)
      → Holds f s
      → Holds (receive_entry ms v f) u
  unfolding receive_entry
  Holds-receive v f s u h e k a = record {
    counted = omega (arith, k, a.counted);
    shape = receive-length f.whole f.rest f.rx_index v ms ∙ a.shape;
    slices = λ j hj.
        receive-at f.whole f.rest f.rx_index v ms j (omega (arith, a.shape))
          (omega (arith, a.shape))
        ∙ elim (Bool-cases (j == f.rx_index)) [
          | inl same ↦
              let q : j ≡ f.rx_index = ground arith in
              let v' : v ≡ reply (first + j) = e ∙ ap (λ i. reply (first + i)) (sym q) in
              let before : ltb j f.rx_index ≡ false = ground arith in
              let old : slice_at f.whole f.rest j ≡ slice_at f0.whole f0.rest j =
                a.slices j hj ∙ rw before refl in
              let after : ltb j (f.rx_index + 1) ≡ true = ground arith in
              rw (same, after, old, v') refl
          | inr other ↦
              let after : ltb j (f.rx_index + 1) ≡ ltb j f.rx_index = ground arith in
              rw (other, after) (a.slices j hj)
        ];
  }

  rx_loop-Holds :
      (n : ℕ) (f : TransferInPlaceFut) (s : Machine)
      → IsReply s.hw reply
      → f.rx_index + n ≤ length f0.whole + 1
      → Holds f s
      → Holds (rx_loop n ms f s).0 (rx_loop n ms f s).1
        × ((rx_loop n ms f s).0.rx_index ≤ length f0.whole + 1)
        × ((rx_loop n ms f s).1.hw ≡ s.hw)
  unfolding rx_loop taken read_bit IsReply
  rx_loop-Holds zero f s law h a =
      (record { counted = a.counted; shape = a.shape; slices = a.slices }, omega arith, refl)
  rx_loop-Holds (suc n) f s law h a =
      let look = read_bit-Quiet status_reg 7 s in
      let t = (read_bit status_reg 7 s).1 in
      let v = t.hw t.log io % 2 ^ 32 in
      let u : Machine = record t { log = loaded io v ∷ t.log } in
      let g = receive_entry ms v f in
      let reply_now : v ≡ reply (first + f.rx_index) = law t.log ∙ ap reply a.counted in
      let received = Holds-receive v f s u (omega arith) reply_now refl a in
      elim (Bool-cases (next_bit status_reg 7 s)) [
        | inl empty ↦
            rw (look.0, empty)
              (
                record { counted = a.counted; shape = a.shape; slices = a.slices },
                omega arith,
                look.1.1,
              )
        | inr some_left ↦
            let ih = rx_loop-Holds n g u law (unfold receive_entry in omega arith) received in
            rw (look.0, some_left) (ih.0, ih.1, ih.2)
      ]

  poll_transfer-Holds :
      (w : ℕ) (f : TransferInPlaceFut) (s : Machine)
      → IsReply s.hw reply
      → IsInputBit s.hw ms
      → f.tx_index ≤ length f0.whole + 1
      → f.rx_index ≤ length f0.whole + 1
      → Holds f s
      → Holds (poll_transfer w f s).0.1 (poll_transfer w f s).1
        × ((poll_transfer w f s).1.hw ≡ s.hw)
  unfolding poll_transfer taken read_bit IsReply IsInputBit
  poll_transfer-Holds w f s law order htx h a =
      let s2 = (read_bit control0 6 (record s { log = barrier ∷ s.log })).1 in
      let s3 = (read_bit control1 0 s2).1 in
      let out_ms = (read_bit control0 6 (record s { log = barrier ∷ s.log })).0 in
      let in_ms = (read_bit control1 0 s2).0 in
      let left = length f.whole + 1 - f.rx_index in
      let g = (rx_loop left in_ms f s3).0 in
      let t = (rx_loop left in_ms f s3).1 in
      let start : Holds f s3 = record { counted = a.counted; shape = a.shape; slices = a.slices } in
      let rx : Holds g t × (g.rx_index ≤ length f0.whole + 1) × (t.hw ≡ s.hw) =
        subst
          (λ b.
            Holds (rx_loop left b f s3).0 (rx_loop left b f s3).1
            × ((rx_loop left b f s3).0.rx_index ≤ length f0.whole + 1)
            × ((rx_loop left b f s3).1.hw ≡ s.hw))
          (sym (order s2.log)) (rx_loop-Holds left f s3 law (omega (arith, a.shape)) start) in
      let shape = (rx_loop-lem left in_ms f s3).0 in
      let out = send_or_wait-Sent w out_ms g t (omega (arith, shape, htx, a.shape)) in
      let quiet = send_or_wait-taken w out_ms g t in
      let held = rx.0 in
      rw out.1 (
        record { counted = quiet.0 ∙ held.counted; shape = held.shape; slices = held.slices },
        quiet.1 ∙ rx.2,
      )

  -- At every time of the transfer's life.
  Life-Holds :
      {s0 : Machine} {p : Poll (Unit {0})} {f : TransferInPlaceFut} {s : Machine}
      → IsReply s0.hw reply
      → IsInputBit s0.hw ms
      → f0.tx_index ≡ 0
      → f0.rx_index ≡ 0
      → taken s0.log ≡ first
      → Life f0 s0 p f s
      → Holds f s
        × (s.hw ≡ s0.hw)
        × (f.tx_index ≤ length f0.whole + 1)
        × (f.rx_index ≤ length f0.whole + 1)
        × AtEnd p (length f0.whole) f.rx_index
  Life-Holds law order t r k begun = (
    record {
      counted = omega arith;
      shape = refl;
      slices = λ j hj. let none_yet : ltb j f0.rx_index ≡ false = ground arith in rw none_yet refl;
    },
    refl,
    omega arith,
    omega arith,
    tt,
  )
  Life-Holds {s0} law order t r k (polled {f} {s} l w) =
      let (a, hw, tx, rx, _) = Life-Holds law order t r k l in
      let moved =
        poll_transfer-Moved w f s (omega (arith, tx, a.shape)) (omega (arith, rx, a.shape)) in
      let g = (poll_transfer w f s).0.1 in
      let held = poll_transfer-Holds w f s (rw hw law) (rw hw order) tx rx a in
      let end =
        subst (λ n. AtEnd (poll_transfer w f s).0.0 n g.rx_index) a.shape
          (Answered-AtEnd w (length f.whole) g.rx_index (poll_transfer w f s) moved.7) in
      (held.0, held.1 ∙ hw, omega (arith, moved.2, a.shape), omega (arith, moved.6, a.shape), end)
  Life-Holds law order t r k (meanwhile l u h q e) =
      let (a, hw, tx, rx, end) = Life-Holds law order t r k l in
      (record { counted = e ∙ a.counted; shape = a.shape; slices = a.slices }, h ∙ hw, tx, rx, end)

-- A transfer in place receives the entries of the other side in the bit order that `keep_input`
-- selects: the code takes bit 0 of CONTROL1 for the order of the input, and `get` stores
-- `keep_input` there, so that `in_most_significant_first` has no effect on it. After any polls,
-- with anything between them that leaves the FIFOs alone, each slice of the buffer (the bytes
-- behind the whole chunks last) whose entry has been received holds the bytes of the other side's
-- entry in its place, unpacked in that order, and each other slice what it held at the start; and
-- every entry has been received if the future is ready. The bit stays as `get` stored it, and the
-- data register, at the code's address for it, has the other side's entries in turn.
pub start_transfer-Received :
    (reply : ℕ → ℕ) (c : Config) (words : List ℕ) (s0 : Machine) (p : Poll (Unit {0}))
    (f : TransferInPlaceFut) (s : Machine) (j : ℕ)
    → IsReply s0.hw reply
    → IsConfigured s0.hw c
    → Life (start_transfer words) s0 p f s
    → let f0 = start_transfer words in
      j ≤ length f0.whole
      → let f0 = start_transfer words in
        (slice_at f.whole f.rest j ≡ (
          if ltb j f.rx_index
          then from_entry (slice_at f0.whole f0.rest j) (reply (taken s0.log + j)) c.keep_input
          else slice_at f0.whole f0.rest j))
        × AtEnd p (length f0.whole) f.rx_index
start_transfer-Received reply c words s0 p f s j law order l hj =
    let a =
      Life-Holds reply c.keep_input (taken s0.log) (start_transfer words) law
        (IsConfigured-IsInputBit s0.hw c order) (unfold start_transfer in refl)
        (unfold start_transfer in refl) refl l in
    (a.0.slices j hj, a.4)
