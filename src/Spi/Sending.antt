-- ===== src/Spi/Sending.antt =====
-- What the writes of src/aux/spi.rs put into the transmit FIFO.
use rpi_devenv.Base.{
  ℕ, zero, suc, ◌+◌, ◌*◌, ◌%◌, ◌^◌, ◌≤◌, ◌<◌, bit_and, ◌≡◌, refl, ap, ◌∙◌, Bool, true, false, ◌||◌,
  Option, none, some, List, [], ◌∷◌, ◌++◌, ◌==◌, if◌then◌else◌, Bool-cases, inl, inr, arith,
}
use rpi_devenv.Base.{length, onto}
use rpi_devenv.Bits.{◌>>>◌}
use rpi_devenv.Machine.{Machine, Event, stored, barrier}
use rpi_devenv.Spi.Defs.{control0, status_reg, io, txhold, read_bit}
use rpi_devenv.Spi.Entry.{to_entry, chunks}
use rpi_devenv.Spi.Queue.{queued, plan, next_bit, Quiet, read_bit-Quiet, queue}
use rpi_devenv.Spi.Bus.{wait_clear, entry_reg, write_chunks, write}

pub wait_clear-Quiet : (fuel i : ℕ) (s : Machine) → Quiet s (wait_clear fuel i s).1
unfolding wait_clear
wait_clear-Quiet zero i s = (refl, refl)
wait_clear-Quiet (suc fuel) i s =
    ground
      (arith, read_bit-Quiet status_reg i s, wait_clear-Quiet fuel i (read_bit status_reg i s).1)

-- If the flag is clear at every read, the wait ends at once.
wait_clear-true :
    (fuel i : ℕ) (s : Machine)
    → 0 < fuel
    → next_bit status_reg i s ≡ false
    → (wait_clear fuel i s).0 ≡ true
unfolding wait_clear
wait_clear-true zero i s h e = absurd (omega arith)
wait_clear-true (suc fuel) i s h e = ground (arith, read_bit-Quiet status_reg i s)

-- How a blocking write of the entries `p` may end: with all of them queued, in order, or, when it
-- ran out of fuel, with some of the first.
abbrev pub QueuedAs : List (ℕ × ℕ) → Machine → Option (Unit {0}) × Machine → Type 0
QueuedAs p s (some _, t) = queued t.log ≡ onto p (queued s.log)
QueuedAs p s (none, t) =
    (part : List (ℕ × ℕ)) × (rest : List (ℕ × ℕ)) × (part ++ rest ≡ p)
    × (queued t.log ≡ onto part (queued s.log))

QueuedAs-cons :
    (x : ℕ × ℕ) (p : List (ℕ × ℕ)) (s t : Machine) (r : Option (Unit {0}) × Machine)
    → queued t.log ≡ x ∷ queued s.log
    → QueuedAs p t r
    → QueuedAs (x ∷ p) s r
unfolding onto
QueuedAs-cons x p s t (some _, u) e h = h ∙ ap (onto p) e
QueuedAs-cons x p s t (none, u) e (part, rest, whole, h) =
    (x ∷ part, rest, ap (λ l. x ∷ l) whole, h ∙ ap (onto part) e)

pub entry_reg-queues :
    (len index : ℕ) → (entry_reg len index == io || entry_reg len index == txhold) ≡ true
entry_reg-queues len index = ground arith

module _ (fuel : ℕ) (ms : Bool) (len index : ℕ) (c : List ℕ) (cs : List (List ℕ))
    (s : Machine) where
  -- The state after the wait and the store of one entry.
  abbrev after_entry : Machine
  after_entry =
      let t = (wait_clear fuel 10 s).1 in
      record t { log = stored (entry_reg len index) (to_entry c ms) ∷ t.log }

  write_chunks-step : write_chunks fuel ms len index (c ∷ cs) s ≡ (
      if (wait_clear fuel 10 s).0
      then write_chunks fuel ms len (index + 1) cs after_entry
      else (none, (wait_clear fuel 10 s).1))
  unfolding write_chunks
  write_chunks-step = ground arith

  write_chunks-QueuedAs_cons :
      QueuedAs (plan ms cs) after_entry (write_chunks fuel ms len (index + 1) cs after_entry)
      → plan ms (c ∷ cs) ≡ (entry_reg len index, to_entry c ms) ∷ plan ms cs
      → QueuedAs (plan ms (c ∷ cs)) s (write_chunks fuel ms len index (c ∷ cs) s)
  write_chunks-QueuedAs_cons onward here =
      let quiet = wait_clear-Quiet fuel 10 s in
      let x : ℕ × ℕ = (entry_reg len index, to_entry c ms) in
      elim (Bool-cases ((wait_clear fuel 10 s).0)) [
        | inl room ↦
            rw (write_chunks-step, room, here)
              (QueuedAs-cons x (plan ms cs) s after_entry
                (write_chunks fuel ms len (index + 1) cs after_entry)
                (queue (entry_reg len index) (to_entry c ms) (wait_clear fuel 10 s).1
                    (entry_reg-queues len index)
                  ∙ ap (λ l. x ∷ l) quiet.0)
                onward)
        | inr none_left ↦
            rw (write_chunks-step, none_left) ([], plan ms (c ∷ cs), refl, unfold onto in quiet.0)
      ]

plan-chunks_cons :
    (ms : Bool) (c words : List ℕ)
    → 0 < length words
    → plan ms (c ∷ chunks words) ≡ (txhold, to_entry c ms) ∷ plan ms (chunks words)
unfolding plan chunks
plan-chunks_cons ms c [] h = absurd (omega arith)
plan-chunks_cons ms c (d ∷ []) h = refl
plan-chunks_cons ms c (d ∷ e ∷ []) h = refl
plan-chunks_cons ms c (d ∷ e ∷ f ∷ r) h = refl

pub last_reg : (len index : ℕ) → len ≤ (index + 1) * 3 → entry_reg len index ≡ io
last_reg len index h = ground arith

more_reg : (len index : ℕ) → (index + 1) * 3 < len → entry_reg len index ≡ txhold
more_reg len index h = ground arith

-- The entry of a whole chunk goes where the plan says.
pub plan-three :
    (ms : Bool) (len index a b c : ℕ) (rest : List ℕ)
    → len ≡ index * 3 + length (a ∷ b ∷ c ∷ rest)
    → plan ms ((a ∷ b ∷ c ∷ []) ∷ chunks rest)
      ≡ (entry_reg len index, to_entry (a ∷ b ∷ c ∷ []) ms) ∷ plan ms (chunks rest)
unfolding plan chunks
plan-three ms len index a b c [] e = rw (last_reg len index (omega arith)) refl
plan-three ms len index a b c (d ∷ r) e =
    rw (more_reg len index (omega arith))
      (plan-chunks_cons ms (a ∷ b ∷ c ∷ []) (d ∷ r) (omega arith))

write_chunks-QueuedAs :
    (fuel : ℕ) (ms : Bool) (len index : ℕ) (words : List ℕ) (s : Machine)
    → len ≡ index * 3 + length words
    → QueuedAs (plan ms (chunks words)) s (write_chunks fuel ms len index (chunks words) s)
unfolding write_chunks plan chunks onto
write_chunks-QueuedAs fuel ms len index [] s e = refl
write_chunks-QueuedAs fuel ms len index (a ∷ []) s e =
    write_chunks-QueuedAs_cons fuel ms len index (a ∷ []) [] s refl
      (rw (last_reg len index (omega arith)) refl)
write_chunks-QueuedAs fuel ms len index (a ∷ b ∷ []) s e =
    write_chunks-QueuedAs_cons fuel ms len index (a ∷ b ∷ []) [] s refl
      (rw (last_reg len index (omega arith)) refl)
write_chunks-QueuedAs fuel ms len index (a ∷ b ∷ c ∷ rest) s e =
    let word = a ∷ b ∷ c ∷ [] in
    write_chunks-QueuedAs_cons fuel ms len index word (chunks rest) s
      (write_chunks-QueuedAs fuel ms len (index + 1) rest
        (after_entry fuel ms len index word (chunks rest) s) (omega arith))
      (plan-three ms len index a b c rest e)

QueuedAs-from :
    (p : List (ℕ × ℕ)) (s t : Machine) (r : Option (Unit {0}) × Machine)
    → queued t.log ≡ queued s.log
    → QueuedAs p t r
    → QueuedAs p s r
QueuedAs-from p s t (some _, u) e h = h ∙ ap (onto p) e
QueuedAs-from p s t (none, u) e (part, rest, whole, h) = (part, rest, whole, h ∙ ap (onto part) e)

-- The state in which the loop of `write` begins.
abbrev at_loop : Machine → Machine
at_loop s = (read_bit control0 6 (record s { log = barrier ∷ s.log })).1

-- The blocking `write` of a slice queues an entry for each chunk of three bytes, in order, in the
-- bit order that the control register asks for, and the last one to the register that ends the
-- transfer. Where it waits longer than its fuel, it has queued some of the first entries so.
pub write-QueuedAs :
    (fuel : ℕ) (words : List ℕ) (s : Machine)
    → QueuedAs
        (plan (next_bit control0 6 (record s { log = barrier ∷ s.log })) (chunks words))
        s
        (write fuel words s)
unfolding write
write-QueuedAs fuel words s =
    let s1 : Machine = record s { log = barrier ∷ s.log } in
    let quiet = read_bit-Quiet control0 6 s1 in
    rw quiet.0 (
      QueuedAs-from (plan (next_bit control0 6 s1) (chunks words)) s (at_loop s)
        (write_chunks fuel (next_bit control0 6 s1) (length words) 0 (chunks words) (at_loop s))
        (quiet.1.0 ∙ unfold queued in refl)
        (write_chunks-QueuedAs fuel (next_bit control0 6 s1) (length words) 0 words (at_loop s)
          (omega arith)))

write_chunks-done :
    (fuel : ℕ) (ms : Bool) (len index : ℕ) (cs : List (List ℕ)) (s : Machine)
    → 0 < fuel
    → ((l : List Event) → (bit_and ((s.hw l status_reg % 2 ^ 32) >>> 10) 1 == 1) ≡ false)
    → (write_chunks fuel ms len index cs s).0 ≡ some tt
unfolding write_chunks
write_chunks-done fuel ms len index [] s h room = refl
write_chunks-done fuel ms len index (c ∷ cs) s h room =
    let e = wait_clear-true fuel 10 s h (room s.log) in
    let quiet = wait_clear-Quiet fuel 10 s in
    let ih =
      write_chunks-done fuel ms len (index + 1) cs (after_entry fuel ms len index c cs s) h
        (λ l. rw quiet.1 (room l)) in
    ground (arith, write_chunks-step fuel ms len index c cs s, e, ih)

QueuedAs-some :
    (p : List (ℕ × ℕ)) (s : Machine) (r : Option (Unit {0}) × Machine)
    → r.0 ≡ some tt
    → QueuedAs p s r
    → queued r.1.log ≡ onto p (queued s.log)
QueuedAs-some p s (some _, t) e h = h
QueuedAs-some p s (none, t) e h = cc

-- If the FIFO has room at every look, the blocking `write` returns, and has queued the entries of
-- all chunks, in order, the last one to the register that ends the transfer.
pub write-done :
    (fuel : ℕ) (words : List ℕ) (s : Machine)
    → 0 < fuel
    → ((l : List Event) → (bit_and ((s.hw l status_reg % 2 ^ 32) >>> 10) 1 == 1) ≡ false)
    → ((write fuel words s).0 ≡ some tt)
      × (queued (write fuel words s).1.log
          ≡ onto
              (plan (next_bit control0 6 (record s { log = barrier ∷ s.log })) (chunks words))
              (queued s.log))
unfolding write
write-done fuel words s h room =
    let s1 : Machine = record s { log = barrier ∷ s.log } in
    let quiet = read_bit-Quiet control0 6 s1 in
    let ms = next_bit control0 6 s1 in
    let done : (write fuel words s).0 ≡ some tt =
      write_chunks-done fuel (read_bit control0 6 s1).0 (length words) 0 (chunks words) (at_loop s)
        h (λ l. rw quiet.1.1 (room l)) in
    (
      done,
      QueuedAs-some (plan ms (chunks words)) s (write fuel words s) done
          (write-QueuedAs fuel words s),
    )
