-- ===== src/Uart/Loopback.antt =====
-- The Mini UART with its transmitter wired to its receiver: the writes of src/aux/uart/writer.rs
-- against the reads of src/aux/uart/reader.rs.
use rpi_devenv.Base.{
  ℕ, zero, suc, ◌+◌, ◌%◌, ◌^◌, ◌≤◌, ◌<◌, ◌≡◌, refl, sym, ap, ◌∙◌, false, some, List, [], ◌∷◌, ◌++◌,
  ◌==◌, if◌then◌else◌, arith,
}
use rpi_devenv.Base.{
  length, take, drop, take-append-drop, length-take, length-drop, length-append, append_assoc,
  append-nil, AreBytes, AreBytes-take, AreBytes-drop,
}
use rpi_devenv.Machine.{Machine, Event, stored, barrier, ok, for_each, write_volatile}
use rpi_devenv.Uart.Defs.{io_reg, extra_status_reg}
use rpi_devenv.Uart.Reader.{read_exact}
use rpi_devenv.Uart.Writer.{available, send, written, write_all}
use rpi_devenv.Uart.Writer.Sent.{send-sent, status_now, after_status}
use rpi_devenv.Uart.Writer.All.{room, write_all-room}
use rpi_devenv.Uart.Wire.{waiting, IsReceiver, read_exact-filled}

-- Each byte stored to the data register goes on the line.
abbrev pub echo : Event → List ℕ
echo (stored a v) = if a == io_reg then v % 2 ^ 8 ∷ [] else []
echo _ = []

-- While fewer than 8 bytes are on their way, the extra status shows room for one.
unfoldable pub HasRoom : (List Event → ℕ → ℕ) → Type 0
HasRoom hw =
    (l : List Event)
    → length (waiting echo l) < 8
    → (available (hw l extra_status_reg % 2 ^ 32) == 0) ≡ false

send-waiting :
    (bytes : List ℕ) (s : Machine)
    → AreBytes bytes
    → waiting echo (send bytes s).1.log ≡ waiting echo s.log ++ bytes
unfolding send for_each waiting
send-waiting [] s h = sym (append-nil (waiting echo s.log))
send-waiting (b ∷ bytes) s h =
    let small : b % 2 ^ 8 ≡ b = omega (arith, h.0) in
    send-waiting bytes (write_volatile io_reg b s).1 h.1
    ∙ append_assoc (waiting echo s.log) (b % 2 ^ 8 ∷ []) bytes
    ∙ ap (λ x. waiting echo s.log ++ (x ∷ bytes)) small

barrier-waiting : (l : List Event) → waiting echo (barrier ∷ l) ≡ waiting echo l
unfolding waiting
barrier-waiting l = append-nil (waiting echo l)

quiet-waiting :
    (w b : ℕ) (bs : List ℕ) (s : Machine)
    → waiting echo (after_status w b bs s).log ≡ waiting echo s.log
unfolding waiting
quiet-waiting w b bs s = append-nil (waiting echo s.log ++ []) ∙ append-nil (waiting echo s.log)

-- `write_all` of a buffer for which there is room on the line: all of it is on its way,
-- behind what was waiting.
write_all-waiting :
    (polls w : ℕ) (buf : List ℕ) (s : Machine)
    → length buf < polls
    → AreBytes buf
    → HasRoom s.hw
    → length (waiting echo s.log) + length buf ≤ 8
    → ((write_all polls w buf s).0 ≡ written)
      × (waiting echo (write_all polls w buf s).1.log ≡ waiting echo s.log ++ buf)
      × ((write_all polls w buf s).1.hw ≡ s.hw)
unfolding HasRoom
write_all-waiting zero w buf s enough are free fits = absurd (omega arith)
write_all-waiting (suc polls) w [] s enough are free fits =
    unfold write_all in (refl, sym (append-nil (waiting echo s.log)), refl)
write_all-waiting (suc polls) w (b ∷ bs) s enough are free fits =
    let s1 = after_status w b bs s in
    let n = room polls w b bs s in
    let m = (send (take n (b ∷ bs)) s1).1 in
    let here = send-sent (take n (b ∷ bs)) s1 in
    let came =
      send-waiting (take n (b ∷ bs)) s1 (AreBytes-take n (b ∷ bs) are)
      ∙ ap (λ l. l ++ take n (b ∷ bs)) (quiet-waiting w b bs s) in
    let e : (available (status_now s) == 0) ≡ false =
      free (barrier ∷ s.log) (omega (arith, ap length (barrier-waiting s.log), fits)) in
    let some_room : 0 < available (status_now s) = ground arith in
    let there =
      write_all-waiting polls w (drop n (b ∷ bs)) m (omega (arith, length-drop n (b ∷ bs)))
        (AreBytes-drop n (b ∷ bs) are) (rw here.1 free)
        (omega (
          arith,
          ap length came,
          length-append (waiting echo s.log) (take n (b ∷ bs)),
          length-take n (b ∷ bs),
          length-drop n (b ∷ bs),
          fits,
        )) in
    rw (write_all-room polls w b bs s e) (
      there.0,
      there.1
          ∙ ap (λ l. l ++ drop n (b ∷ bs)) came
          ∙ append_assoc (waiting echo s.log) (take n (b ∷ bs)) (drop n (b ∷ bs))
          ∙ ap (λ l. waiting echo s.log ++ l) (take-append-drop n (b ∷ bs)),
      there.2 ∙ here.1,
    )

-- What `write_all` sends over a line that comes back, the blocking `read_exact` reads: of at most
-- 8 bytes, on an empty line, both calls succeed and the buffer of the same length is filled with
-- the bytes sent. A byte on the line may take up to `fuel` looks at the line status until it shows,
-- through which the read waits; the receiver keeps up to 8 bytes in order without an overrun; and
-- while fewer than 8 bytes are on their way there is room for one to send.
pub read_exact-write_all :
    (polls w fuel : ℕ) (bytes buf : List ℕ) (s : Machine)
    → IsReceiver s.hw echo fuel
    → HasRoom s.hw
    → waiting echo s.log ≡ []
    → AreBytes bytes
    → length bytes ≤ 8
    → length buf ≡ length bytes
    → length bytes < polls
    → let t = write_all polls w bytes s in
      (t.0 ≡ written)
      × ((read_exact fuel buf t.1).0 ≡ (some (ok tt), bytes))
      × (waiting echo (read_exact fuel buf t.1).1.log ≡ [])
read_exact-write_all polls w fuel bytes buf s r free empty are short same enough =
    let sent = write_all-waiting polls w bytes s enough are free (omega (arith, ap length empty)) in
    let t = (write_all polls w bytes s).1 in
    let there : waiting echo t.log ≡ bytes ++ [] =
      sent.1 ∙ ap (λ l. l ++ bytes) empty ∙ sym (append-nil bytes) in
    let got =
      read_exact-filled echo fuel buf bytes [] t (rw sent.2 r) there (sym same)
        (omega (arith, ap length (append-nil bytes))) in
    (sent.0, got.0, got.1)
