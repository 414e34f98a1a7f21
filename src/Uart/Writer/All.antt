-- ===== src/Uart/Writer/All.antt =====
-- `write_all` of src/aux/uart/writer.rs: what it has sent when it ends, and that it ends.
use rpi_devenv.Base.{
  ℕ, zero, suc, ◌%◌, ◌^◌, ◌<◌, ◌≡◌, refl, sym, ap, ◌∙◌, true, false, List, [], ◌∷◌, ◌++◌, ◌==◌,
  Bool-cases, inl, inr, arith,
}
use rpi_devenv.Base.{
  length, take, drop, take-append-drop, length-drop, append_assoc, min, onto, onto-append,
}
use rpi_devenv.Machine.{Machine, Event, barrier}
use rpi_devenv.Uart.Defs.{extra_status_reg}
use rpi_devenv.Uart.Writer.{
  available, send, await_space, WriteAll, written, panicked, out_of_polls, write_all,
}
use rpi_devenv.Uart.Writer.Sent.{
  sent, send-sent, await_space-sent, status_now, after_status, poll_write-full, poll_write-room,
}

-- How `write_all` of `buf` from `s` may end in `t`.
abbrev pub Progress : List ℕ → Machine → Machine → WriteAll → Type 0
Progress buf s t written = sent t.log ≡ onto buf (sent s.log)
Progress buf s t panicked = ⊥
Progress buf s t out_of_polls =
    (part : List ℕ) × (rest : List ℕ) × (part ++ rest ≡ buf) × (sent t.log ≡ onto part (sent s.log))

-- What was sent before a part of the buffer went out joins what is sent after it.
Progress-drop :
    (n : ℕ) (buf : List ℕ) (s m t : Machine) (r : WriteAll)
    → sent m.log ≡ onto (take n buf) (sent s.log)
    → Progress (drop n buf) m t r
    → Progress buf s t r
Progress-drop n buf s m t written e h =
    h
    ∙ rw e (
        sym (onto-append (take n buf) (drop n buf) (sent s.log))
        ∙ ap (λ b. onto b (sent s.log)) (take-append-drop n buf))
Progress-drop n buf s m t panicked e h = h
Progress-drop n buf s m t out_of_polls e (part, rest, whole, h) = (
  take n buf ++ part,
  rest,
  append_assoc (take n buf) part rest ∙ rw whole (take-append-drop n buf),
  h ∙ rw e (sym (onto-append (take n buf) part (sent s.log))),
)

module _ (polls w b : ℕ) (bs : List ℕ) (s : Machine) where
  abbrev pub room : ℕ
  room = min (length (b ∷ bs)) (available (status_now s))

  write_all-full :
      (available (status_now s) == 0) ≡ true
      → write_all (suc polls) w (b ∷ bs) s
        ≡ write_all polls w (b ∷ bs) (await_space w (after_status w b bs s)).1
  unfolding write_all
  write_all-full e = ground (arith, poll_write-full w b bs s e)

  pub write_all-room :
      (available (status_now s) == 0) ≡ false
      → write_all (suc polls) w (b ∷ bs) s
        ≡ write_all polls w
            (drop room (b ∷ bs))
            (send (take room (b ∷ bs)) (after_status w b bs s)).1
  unfolding write_all
  write_all-room e = ground (arith, poll_write-room w b bs s e)

-- `write_all` never panics. When it returns it has sent the whole buffer, each byte once and in
-- order; before that it has sent some first bytes of it, in order.
pub write_all-Progress :
    (polls w : ℕ) (buf : List ℕ) (s : Machine)
    → Progress buf s (write_all polls w buf s).1 (write_all polls w buf s).0
write_all-Progress zero w buf s = unfold write_all onto in ([], buf, refl, refl)
write_all-Progress (suc polls) w [] s = unfold write_all onto in refl
write_all-Progress (suc polls) w (b ∷ bs) s = elim (Bool-cases (available (status_now s) == 0)) [
  | inl e ↦
      let m = (await_space w (after_status w b bs s)).1 in
      let same = (await_space-sent w (after_status w b bs s)).0 in
      rw (write_all-full polls w b bs s e) (
        Progress-drop 0 (b ∷ bs) s m (write_all polls w (b ∷ bs) m).1
          (write_all polls w (b ∷ bs) m).0 (same ∙ unfold sent onto in refl)
          (write_all-Progress polls w (b ∷ bs) m))
  | inr e ↦
      let n = room polls w b bs s in
      let m = (send (take n (b ∷ bs)) (after_status w b bs s)).1 in
      let t = write_all polls w (drop n (b ∷ bs)) m in
      rw (write_all-room polls w b bs s e) (
        Progress-drop n (b ∷ bs) s m t.1 t.0
          ((send-sent (take n (b ∷ bs)) (after_status w b bs s)).0 ∙ unfold sent in refl)
          (write_all-Progress polls w (drop n (b ∷ bs)) m))
]

-- If every status shows room for a byte, `write_all` needs at most one poll for each byte and one
-- more: it then returns, with the whole buffer sent in order.
pub write_all-written :
    (polls w : ℕ) (buf : List ℕ) (s : Machine)
    → length buf < polls
    → ((l : List Event) → (available (s.hw l extra_status_reg % 2 ^ 32) == 0) ≡ false)
    → ((write_all polls w buf s).0 ≡ written)
      × (sent (write_all polls w buf s).1.log ≡ onto buf (sent s.log))
write_all-written zero w buf s enough free = absurd (omega arith)
write_all-written (suc polls) w [] s enough free = unfold write_all onto in (refl, refl)
write_all-written (suc polls) w (b ∷ bs) s enough free =
    let e = free (barrier ∷ s.log) in
    let n = room polls w b bs s in
    let m = (send (take n (b ∷ bs)) (after_status w b bs s)).1 in
    let here = send-sent (take n (b ∷ bs)) (after_status w b bs s) in
    let some_room : 0 < available (status_now s) = ground arith in
    let there =
      write_all-written polls w (drop n (b ∷ bs)) m (omega (arith, length-drop n (b ∷ bs)))
        (λ l. rw here.1 (free l)) in
    rw (write_all-room polls w b bs s e) (
      there.0,
      Progress-drop n (b ∷ bs) s m (write_all polls w (drop n (b ∷ bs)) m).1 written
          (here.0 ∙ unfold sent in refl) there.1,
    )
