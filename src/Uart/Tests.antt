-- ===== src/Uart/Tests.antt =====
-- Runs of the model of src/aux/uart.rs and src/aux/uart/ on concrete machines, and the theorems
-- on them.
use rpi_devenv.Base.{
  ℕ, suc, ◌+◌, ◌*◌, ◌%◌, ◌^◌, ◌≤◌, ◌<◌, ◌≡◌, ◌↔◌, refl, sym, ap, ◌∙◌, Bool, true, false, none, some,
  List, [], ◌∷◌, ◌==◌, if◌then◌else◌, arith,
}
use rpi_devenv.Base.{length, onto, append-nil}
use rpi_devenv.Base.{Bool-cases, inl, inr, drop, AreBytes, AreBytes-append, AreBytes-drop}
use rpi_devenv.Machine.{stored, loaded, sync_barrier, entered, left, hinted, woke}
use rpi_devenv.Uart.Defs.{io_reg}
use rpi_devenv.Uart.Reader.{read_exact}
use rpi_devenv.Uart.Wire.{waiting, takes, is_nil, shows_byte, IsReceiver}
use rpi_devenv.Uart.Loopback.{echo, HasRoom, read_exact-write_all}
use rpi_devenv.Machine.{Machine, Event, ram, ram-IsRegister, ready, pending, ok, would_block}
use rpi_devenv.Uart.Defs.{
  Config, BaudRate, new_baud_rate, register_value, clock_speed, eight_bits, line_status_reg,
  extra_control_reg,
}
use rpi_devenv.Machine.{barrier, slot_eq, reader_waker, writer_waker, woken, push}
use rpi_devenv.Bits.{bit, has}
use rpi_devenv.Uart.Defs.{interrupt_id_reg}
use rpi_devenv.Uart.Handler
use rpi_devenv.Uart.Served.{interrupt_handler_lem}
use rpi_devenv.Uart.Baud.{register_value_lem}
use rpi_devenv.Uart.Locks.{
  get_reader, get_writer, get_pair, drop_reader, do_ops, lock_of, lock_steps, do_ops-lock_steps,
}
use rpi_devenv.Uart.Reader.{poll_read}
use rpi_devenv.Uart.Reader.Bytes.{Received, Reported, taken, poll_read-Received}
use rpi_devenv.Uart.Reader.Exact.{polls, read_exact-silent_ok}
use rpi_devenv.Uart.Writer.{available, flush, flush_nb, poll_flush, written, write_all}
use rpi_devenv.Uart.Writer.Sent.{sent, flush-never}
use rpi_devenv.Uart.Writer.All.{Progress, write_all-Progress, write_all-written}

abbrev over : (List Event → ℕ → ℕ) → Machine
over hw = record {
  hw = hw;
  log = [];
  waker = λ _. none;
  gpio_set = record { lower = 0; upper = 0 };
  driver = record { c1 = none; c3 = none };
}

-- All registers plain memory, with both halves disabled.
abbrev idle : Machine
idle = over (ram (λ _. 0))

-- A line that always has the byte 0x41.
abbrev busy : Machine
busy = over (λ l a. if a == line_status_reg then 1 else 0x41)

-- A line on which nothing arrives, and a FIFO that is always empty.
abbrev silent : Machine
silent = over (λ l a. 0)

-- A transmit FIFO with five of its eight places taken.
abbrev filling : Machine
filling = over (λ l a. 5 * 2 ^ 24)

abbrev config : Config
config = record { baud_rate = record { rate = 115_200 }; bit_mode = eight_bits }

room_filling : available (5 * 2 ^ 24) ≡ 3
unfolding available
room_filling = refl

do_ops-lock_steps_example :
    let os = get_reader ∷ get_writer ∷ drop_reader ∷ get_pair ∷ [] in
    ((do_ops config os idle).0 ≡ (lock_steps os (lock_of idle)).0)
    × (lock_of (do_ops config os idle).1 ≡ (lock_steps os (lock_of idle)).1)
do_ops-lock_steps_example =
    do_ops-lock_steps config (get_reader ∷ get_writer ∷ drop_reader ∷ get_pair ∷ []) idle
      (ram-IsRegister (λ _. 0) extra_control_reg)

poll_read-Received_example :
    (bs : List ℕ) × Received
      (0 ∷ 0 ∷ [])
      (poll_read 7 (0 ∷ 0 ∷ []) busy).0.1
      bs
      busy
      (poll_read 7 (0 ∷ 0 ∷ []) busy).1
    × Reported 7 (poll_read 7 (0 ∷ 0 ∷ []) busy).1 0 bs (poll_read 7 (0 ∷ 0 ∷ []) busy).0.0
poll_read-Received_example = poll_read-Received 7 (0 ∷ 0 ∷ []) busy

abbrev three : List ℕ
three = 1 ∷ 2 ∷ 3 ∷ []

read_exact-silent_ok_example :
    let r = polls (suc (length three)) 7 (record { yielded = []; to_come = three }) silent in
    (r.0 ≡ (ready (ok tt), record { yielded = onto three []; to_come = [] }))
    × (taken r.1.log ≡ taken [])
read_exact-silent_ok_example = read_exact-silent_ok 7 three [] silent (λ l. refl)

write_all-Progress_example :
    Progress
      (1 ∷ 2 ∷ 3 ∷ 4 ∷ [])
      filling
      (write_all 2 7 (1 ∷ 2 ∷ 3 ∷ 4 ∷ []) filling).1
      (write_all 2 7 (1 ∷ 2 ∷ 3 ∷ 4 ∷ []) filling).0
write_all-Progress_example = write_all-Progress 2 7 (1 ∷ 2 ∷ 3 ∷ 4 ∷ []) filling

write_all-written_example :
    ((write_all 5 7 (1 ∷ 2 ∷ 3 ∷ 4 ∷ []) filling).0 ≡ written)
    × (sent (write_all 5 7 (1 ∷ 2 ∷ 3 ∷ 4 ∷ []) filling).1.log
        ≡ onto (1 ∷ 2 ∷ 3 ∷ 4 ∷ []) (sent []))
write_all-written_example =
    write_all-written 5 7 (1 ∷ 2 ∷ 3 ∷ 4 ∷ []) filling (omega arith) (λ l. unfold available in refl)

flush-never_example :
    ((flush 10 silent).0 ≡ false)
    × ((flush_nb silent).0 ≡ would_block)
    × ((poll_flush 7 silent).0 ≡ pending)
flush-never_example = flush-never 10 7 silent

rate_115200 : new_baud_rate 115_200 ≡ some (record { rate = 115_200 })
unfolding new_baud_rate
rate_115200 = refl

abbrev fast : BaudRate
fast = record { rate = 115_200 }

register_value_lem_example :
    (8 * 115_200 * (register_value fast + 1) ≤ clock_speed)
    × (clock_speed < 8 * 115_200 * (register_value fast + 2))
    × ((register_value fast < 2 ^ 16) ↔ (477 ≤ 115_200))
register_value_lem_example = register_value_lem 115_200 fast rate_115200

-- Both interrupts of the Mini UART, with a task waiting for each.
abbrev ringing : Machine
ringing = record (over (λ l a. 0b110)) {
  waker = λ t. if slot_eq t reader_waker then some 1 else some 2;
}

interrupt_handler_lem_example :
    let x = ringing.hw (barrier ∷ []) interrupt_id_reg % 2 ^ 32 in
    let t = (Handler.interrupt_handler ringing).1 in
    (t.waker writer_waker ≡ (if bit 1 x then none else ringing.waker writer_waker))
    × (t.waker reader_waker ≡ (if bit 2 x then none else ringing.waker reader_waker))
    × (woken t.log
        ≡ push
            (if bit 2 x then ringing.waker reader_waker else none)
            (push (if bit 1 x then ringing.waker writer_waker else none) (woken [])))
interrupt_handler_lem_example = interrupt_handler_lem ringing

-- The transmitter is wired to the receiver.
abbrev oldest : List ℕ → ℕ
oldest [] = 0
oldest (b ∷ bs) = b

-- Was the line status looked at just before?
abbrev looked : List Event → Bool
looked [] = false
looked (loaded a v ∷ l) = a == line_status_reg
looked (e ∷ l) = false

-- A byte shows at the second look only.
abbrev wired : List Event → ℕ → ℕ
wired l a =
    if a == line_status_reg
    then (if looked l then (if is_nil (waiting echo l) then 0 else 1) else 0)
    else if a == io_reg
    then oldest (waiting echo l)
    else 0

echo-AreBytes : (e : Event) → AreBytes (echo e)
echo-AreBytes (stored a v) = elim (Bool-cases (a == io_reg)) [
  | inl same ↦ rw same (omega arith, tt)
  | inr other ↦ rw other tt
]
echo-AreBytes (loaded a v) = tt
echo-AreBytes barrier = tt
echo-AreBytes sync_barrier = tt
echo-AreBytes entered = tt
echo-AreBytes left = tt
echo-AreBytes hinted = tt
echo-AreBytes (woke w) = tt

waiting-AreBytes : (l : List Event) → AreBytes (waiting echo l)
unfolding waiting
waiting-AreBytes [] = tt
waiting-AreBytes (e ∷ l) =
    let before = waiting-AreBytes l in
    AreBytes-append (if takes e then drop 1 (waiting echo l) else waiting echo l) (echo e)
      (elim (Bool-cases (takes e)) [
        | inl taken_one ↦ rw taken_one (AreBytes-drop 1 (waiting echo l) before)
        | inr other ↦ rw other before
      ])
      (echo-AreBytes e)

oldest-front : (bs cs : List ℕ) (b : ℕ) → AreBytes bs → bs ≡ b ∷ cs → oldest bs % 2 ^ 32 % 2 ^ 8 ≡ b
oldest-front [] cs b h e = cc
oldest-front (x ∷ xs) cs b h e = let same : x ≡ b = cc in omega (arith, h.0, same)

false-true : {B : Type 0} → false ≡ true → B
false-true h = cc

wired-no_overrun : (l : List Event) → has (wired l line_status_reg % 2 ^ 32) 0b10 ≡ false
wired-no_overrun l = elim (Bool-cases (looked l)) [
  | inl second ↦ elim (Bool-cases (is_nil (waiting echo l))) [
    | inl empty ↦ rw (second, empty) refl
    | inr there ↦ rw (second, there) refl
  ]
  | inr first ↦ rw first refl
]

wired-shows_byte :
    (l : List Event) (b : ℕ) (bs : List ℕ)
    → waiting echo l ≡ b ∷ bs
    → looked l ≡ true
    → shows_byte wired l ≡ true
wired-shows_byte l b bs e h = let some_byte = ap is_nil e in rw (h, some_byte) refl

wired-nearer :
    (v : ℕ) (l : List Event) (b : ℕ) (bs : List ℕ)
    → waiting echo l ≡ b ∷ bs
    → shows_byte wired l ≡ false
    → 0 < (if looked l then 0 else 1)
wired-nearer v l b bs e h = elim (Bool-cases (looked l)) [
  | inl second ↦ absurd (false-true (sym h ∙ wired-shows_byte l b bs e second))
  | inr first ↦ rw first (omega arith)
]

wired-front :
    (v : ℕ) (l : List Event) (b : ℕ) (bs : List ℕ)
    → waiting echo l ≡ b ∷ bs
    → wired (loaded line_status_reg v ∷ l) io_reg % 2 ^ 32 % 2 ^ 8 ≡ b
wired-front v l b bs e =
    let m = loaded line_status_reg v ∷ l in
    oldest-front (waiting echo m) bs b (waiting-AreBytes m)
      (unfold waiting in append-nil (waiting echo l) ∙ e)

wired-IsReceiver : IsReceiver wired echo 2
wired-IsReceiver = record {
  no_overrun = λ l h. wired-no_overrun l;
  late = λ l. if looked l then 0 else 1;
  soon = λ l. ground arith;
  nearer = wired-nearer;
  front = λ v l b bs e h. wired-front v l b bs e;
  load_brings = λ a v. refl;
  barrier_brings = refl;
}

wired-HasRoom : HasRoom wired
unfolding HasRoom available
wired-HasRoom l h = refl

abbrev message : List ℕ
message = 0x68 ∷ 0x69 ∷ []

read_exact-write_all_example :
    let t = write_all 3 7 message (over wired) in
    let r = read_exact 2 (0 ∷ 0 ∷ []) t.1 in
    (t.0 ≡ written) × (r.0 ≡ (some (ok tt), message)) × (waiting echo r.1.log ≡ [])
read_exact-write_all_example =
    read_exact-write_all 3 7 2 message (0 ∷ 0 ∷ []) (over wired) wired-IsReceiver wired-HasRoom
      (unfold waiting in refl) (omega arith, (omega arith, tt)) (omega arith) refl (omega arith)
